-- ===== src/Qt/Sample.antt =====
-- A small implementation of the functions of Qt, on which the examples are evaluated: numbers
-- are unary, doubles are compared by their bits, and a hash is the bytes themselves.
use qtjsondb.Prelude.{
  ℕ, zero, suc, ◌≡◌, refl, ap, false, [], ◌∷◌, none, some, pos, arith, ◌==◌, ltb, length,
}
use qtjsondb.Qt.Text.{QString, str_eq, has_unit}
use qtjsondb.Qt.Calls.{QtCalls, NumberLaws, DoubleLaws}

abbrev ones : ℕ → QString
ones zero = []
ones (suc n) = b'1' ∷ ones n

length-ones : (n : ℕ) → length (ones n) ≡ n
length-ones zero = refl
length-ones (suc n) = ap suc (length-ones n)

ones_no_dash : (n : ℕ) → has_unit b'-' (ones n) ≡ false
unfolding has_unit
ones_no_dash zero = refl
ones_no_dash (suc n) = ones_no_dash n

abbrev pub sample : QtCalls
sample = record {
  to_int = λ s. some (pos (length s));
  number = ones;
  md5_hex = λ bytes. bytes;
  raw_array = λ vs. length vs ∷ [];
  raw_object = λ o. [];
  to_binary_data = λ o. 113 ∷ 98 ∷ 106 ∷ 115 ∷ [];
  parse_uuid = length;
  uuid_to_string = ones;
  create_uuid_v3 = λ namespace name. length name;
  uuid_lt = λ a b. ltb a b;
  is_space = λ c. c == b' ';
  double_eq = λ a b. a == b;
  double_lt = λ a b. ltb a b;
  number_of_double = ones;
  to_double = λ s. none;
  double_of_int = λ i. 0;
  exact_match = λ re s. str_eq re.pattern s;
}

pub sample-NumberLaws : NumberLaws sample
sample-NumberLaws = record {
  to_int-number = λ n small. ap (λ k. some (pos k)) (length-ones n);
  number_no_dash = ones_no_dash;
}

pub sample-DoubleLaws : DoubleLaws sample
sample-DoubleLaws = record { double_eq_comm = λ a b. ground arith }

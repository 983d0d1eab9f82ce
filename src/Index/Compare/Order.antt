-- ===== src/Index/Compare/Order.antt =====
-- The order of keys is that of the values and object keys they are made from.
use qtjsondb.Prelude.{
  ℕ, zero, suc, ◌-◌, ◌^◌, ◌<◌, ◌≡◌, refl, ap, ◌∙◌, Bool, true, false, not, ◌&&◌, ◌||◌, List, [],
  ◌∷◌, ◌++◌, arith, ◌==◌, ltb, ==_iff, Bool-cases, inl, inr, if◌then◌else◌, take, length, ℤ, pos,
  negsuc, is_empty,
}
use qtjsondb.Qt.Text.{QString, str_lt}
use qtjsondb.Qt.Json.{Value, undefined, null, bool, num, str, arr, obj}
use qtjsondb.Qt.Calls.{QtCalls}
use qtjsondb.Object.Version.{type_code}
use qtjsondb.Index.Key.{be_bytes, from_be, serialize_field_value, make_forward_key}
use qtjsondb.Index.Key.RoundTrip.{
  IsKeyValue, from_be-be_bytes, length-be_bytes, take_exact, stored_text, make_forward_key-parts,
}
use qtjsondb.Index.Compare.{
  diff, three_way, intcmp, qstringcmp, or_else, doublecmp, compare_data, compare_object_keys,
  index_compare,
}

abbrev pub is_negative : ℤ → Bool
is_negative (pos n) = false
is_negative (negsuc n) = true

abbrev pub is_zero : ℤ → Bool
is_zero (pos zero) = true
is_zero _ = false

is_negative-diff : (a b : ℕ) → is_negative (diff a b) ≡ ltb a b
unfolding diff
is_negative-diff a b = ground arith

is_zero-pos : (n : ℕ) → is_zero (pos n) ≡ (n == 0)
is_zero-pos zero = refl
is_zero-pos (suc n) = ground arith

is_zero-diff : (a b : ℕ) → is_zero (diff a b) ≡ (a == b)
unfolding diff
is_zero-diff a b = ground (arith, is_zero-pos (a - b))

is_negative-qstringcmp : (s t : QString) → is_negative (qstringcmp s t) ≡ str_lt s t
unfolding qstringcmp str_lt
is_negative-qstringcmp [] [] = unfold diff in refl
is_negative-qstringcmp [] (d ∷ t) = ground (arith, is_negative-diff 0 (length (d ∷ t)))
is_negative-qstringcmp (c ∷ s) [] = ground (arith, is_negative-diff (length (c ∷ s)) 0)
is_negative-qstringcmp (c ∷ s) (d ∷ t) =
    ground (arith, is_negative-diff c d, is_negative-qstringcmp s t)

is_zero-qstringcmp :
    (s t : QString) → is_zero (qstringcmp s t) ≡ (not (str_lt s t) && not (str_lt t s))
unfolding qstringcmp str_lt
is_zero-qstringcmp [] [] = unfold diff in refl
is_zero-qstringcmp [] (d ∷ t) = ground (arith, is_zero-diff 0 (length (d ∷ t)))
is_zero-qstringcmp (c ∷ s) [] = ground (arith, is_zero-diff (length (c ∷ s)) 0)
is_zero-qstringcmp (c ∷ s) (d ∷ t) = ground (arith, is_zero-diff c d, is_zero-qstringcmp s t)

is_negative-or_else :
    (a b : ℤ) → is_negative (or_else a b) ≡ (is_negative a || (is_zero a && is_negative b))
is_negative-or_else (pos zero) b = refl
is_negative-or_else (pos (suc n)) b = refl
is_negative-or_else (negsuc n) b = refl

compare_sign :
    (a b : ℤ) (x y z : Bool)
    → is_negative a ≡ x
    → is_zero a ≡ (not x && not y)
    → is_negative b ≡ z
    → is_negative (or_else a b) ≡ (x || (not y && z))
compare_sign a b x y z ha za hb = ground (arith, is_negative-or_else a b)

module _ (q : QtCalls) where
  -- The order of values of one type: false before true, doubles by <, texts by their units.
  abbrev pub value_lt : Value → Value → Bool
  value_lt (bool a) (bool b) = not a && b
  value_lt (num a) (num b) = q.double_lt a b
  value_lt (str s) (str t) = str_lt s t
  value_lt _ _ = false

  -- The order of entries: by type, by value, and by object key.
  abbrev pub entry_lt : Value × ℕ → Value × ℕ → Bool
  entry_lt (v, k) (w, l) =
      ltb (type_code v) (type_code w)
      || ((type_code v == type_code w)
          && (value_lt v w || (not (value_lt w v) && (not (k == l) && q.uuid_lt k l))))

  -- What the switch says of two stored values of one type.
  abbrev Agrees : Value → Value → ℤ → Type 0
  Agrees v w rv =
      (is_negative rv ≡ value_lt v w) × (is_zero rv ≡ (not (value_lt v w) && not (value_lt w v)))

  compare_stored : Value → Value → List ℕ → List ℕ → ℤ
  compare_stored v w x y =
      compare_data q (type_code v) (serialize_field_value v ++ x) (length (serialize_field_value v))
        (serialize_field_value w ++ y) (length (serialize_field_value w))

  doublecmp_stored :
      (m n : ℕ) (x y : List ℕ)
      → m < 256 ^ 8
      → n < 256 ^ 8
      → doublecmp q (be_bytes 8 m ++ x) (be_bytes 8 n ++ y)
        ≡ three_way (q.double_lt m n) (q.double_lt n m)
  unfolding doublecmp
  doublecmp_stored m n x y hm hn =
      let a : from_be 0 (take 8 (be_bytes 8 m ++ x)) ≡ m =
        ap (from_be 0) (take_exact 8 (be_bytes 8 m) x (length-be_bytes 8 m))
        ∙ from_be-be_bytes 8 m hm in
      let b : from_be 0 (take 8 (be_bytes 8 n ++ y)) ≡ n =
        ap (from_be 0) (take_exact 8 (be_bytes 8 n) y (length-be_bytes 8 n))
        ∙ from_be-be_bytes 8 n hn in
      (λ i. three_way (q.double_lt (a i) (b i)) (q.double_lt (b i) (a i)))

  double_Agrees :
      (m n : ℕ) (rv : ℤ)
      → rv ≡ three_way (q.double_lt m n) (q.double_lt n m)
      → Agrees (num m) (num n) rv
  unfolding three_way
  double_Agrees m n rv e = (ground (arith, ap is_negative e), ground (arith, ap is_zero e))

  compare_stored-Agrees :
      (v w : Value) (x y : List ℕ)
      → IsKeyValue v
      → IsKeyValue w
      → type_code v ≡ type_code w
      → Agrees v w (compare_stored v w x y)
  unfolding compare_stored compare_data type_code
  compare_stored-Agrees null null x y h k e = (refl, refl)
  compare_stored-Agrees null (bool b) x y h k e = absurd (omega (arith, e))
  compare_stored-Agrees null (num b) x y h k e = absurd (omega (arith, e))
  compare_stored-Agrees null (str b) x y h k e = absurd (omega (arith, e))
  compare_stored-Agrees (bool a) null x y h k e = absurd (omega (arith, e))
  compare_stored-Agrees (bool false) (bool false) x y h k e =
      unfold serialize_field_value intcmp three_way be_bytes from_be in (refl, refl)
  compare_stored-Agrees (bool false) (bool true) x y h k e =
      unfold serialize_field_value intcmp three_way be_bytes from_be in (refl, refl)
  compare_stored-Agrees (bool true) (bool false) x y h k e =
      unfold serialize_field_value intcmp three_way be_bytes from_be in (refl, refl)
  compare_stored-Agrees (bool true) (bool true) x y h k e =
      unfold serialize_field_value intcmp three_way be_bytes from_be in (refl, refl)
  compare_stored-Agrees (bool a) (num b) x y h k e = absurd (omega (arith, e))
  compare_stored-Agrees (bool a) (str b) x y h k e = absurd (omega (arith, e))
  compare_stored-Agrees (num a) null x y h k e = absurd (omega (arith, e))
  compare_stored-Agrees (num a) (bool b) x y h k e = absurd (omega (arith, e))
  compare_stored-Agrees (num a) (num b) x y h k e =
      unfold serialize_field_value in double_Agrees a b _ (doublecmp_stored a b x y h k)
  compare_stored-Agrees (num a) (str b) x y h k e = absurd (omega (arith, e))
  compare_stored-Agrees (str a) null x y h k e = absurd (omega (arith, e))
  compare_stored-Agrees (str a) (bool b) x y h k e = absurd (omega (arith, e))
  compare_stored-Agrees (str a) (num b) x y h k e = absurd (omega (arith, e))
  compare_stored-Agrees (str a) (str b) x y h k e =
      rw (stored_text a x h.0 h.1, stored_text b y k.0 k.1)
        (is_negative-qstringcmp a b, is_zero-qstringcmp a b)
  compare_stored-Agrees undefined w x y h k e = absurd h
  compare_stored-Agrees (arr a) w x y h k e = absurd h
  compare_stored-Agrees (obj a) w x y h k e = absurd h
  compare_stored-Agrees null undefined x y h k e = absurd k
  compare_stored-Agrees null (arr b) x y h k e = absurd k
  compare_stored-Agrees null (obj b) x y h k e = absurd k
  compare_stored-Agrees (bool a) undefined x y h k e = absurd k
  compare_stored-Agrees (bool a) (arr b) x y h k e = absurd k
  compare_stored-Agrees (bool a) (obj b) x y h k e = absurd k
  compare_stored-Agrees (num a) undefined x y h k e = absurd k
  compare_stored-Agrees (num a) (arr b) x y h k e = absurd k
  compare_stored-Agrees (num a) (obj b) x y h k e = absurd k
  compare_stored-Agrees (str a) undefined x y h k e = absurd k
  compare_stored-Agrees (str a) (arr b) x y h k e = absurd k
  compare_stored-Agrees (str a) (obj b) x y h k e = absurd k

  is_negative-compare_object_keys :
      (k l : ℕ) → is_negative (compare_object_keys q k l) ≡ (not (k == l) && q.uuid_lt k l)
  unfolding compare_object_keys
  is_negative-compare_object_keys k l = ground arith

  nonempty : (v : Value) (k : ℕ) → is_empty (make_forward_key v k) ≡ false
  unfolding make_forward_key be_bytes
  nonempty v k = refl

  -- The outcome for two keys, given what is read at their places.
  index_compare_parts :
      (v w : Value) (k l : ℕ)
      → k < 256 ^ 16
      → l < 256 ^ 16
      → index_compare q (make_forward_key v k) (make_forward_key w l) ≡ (
          if type_code v == type_code w
          then or_else
              (compare_stored v w (be_bytes 16 k) (be_bytes 16 l))
              (compare_object_keys q k l)
          else diff (type_code v) (type_code w))
  unfolding index_compare compare_stored
  index_compare_parts v w k l small_k small_l =
      let a = make_forward_key-parts v k small_k in
      let b = make_forward_key-parts w l small_l in
      rw
        (
          nonempty v k,
          nonempty w l,
          a.object_key,
          b.object_key,
          a.type,
          b.type,
          a.size,
          b.size,
          a.bytes,
          b.bytes,
        )
        refl

  -- For two values as a key can keep them (null, a truth value, a double of 64 bits, or a text
  -- of 16-bit units whose size in bytes is a quint16) and two object keys of 16 bytes,
  -- indexCompareFunction puts the first key before the second exactly if the first entry is
  -- lower: by the type of its value, then by the value, and then by the object key.
  pub is_negative-index_compare :
      (v w : Value) (k l : ℕ)
      → IsKeyValue v
      → IsKeyValue w
      → k < 256 ^ 16
      → l < 256 ^ 16
      → is_negative (index_compare q (make_forward_key v k) (make_forward_key w l))
        ≡ entry_lt (v, k) (w, l)
  is_negative-index_compare v w k l hv hw small_k small_l =
      rw (index_compare_parts v w k l small_k small_l)
        (elim (Bool-cases (type_code v == type_code w)) [
          | inl same ↦
              let rv = compare_stored v w (be_bytes 16 k) (be_bytes 16 l) in
              let e : type_code v ≡ type_code w = (==_iff (type_code v) (type_code w)).0 same in
              let agrees = compare_stored-Agrees v w (be_bytes 16 k) (be_bytes 16 l) hv hw e in
              let sign =
                compare_sign rv (compare_object_keys q k l) (value_lt v w) (value_lt w v) _ agrees.0
                  agrees.1 (is_negative-compare_object_keys k l) in
              rw same (sign ∙ ground (arith, e))
          | inr differ ↦ rw differ (ground (arith, is_negative-diff (type_code v) (type_code w)))
        ])

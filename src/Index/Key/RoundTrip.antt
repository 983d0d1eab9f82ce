-- ===== src/Index/Key/RoundTrip.antt =====
-- What is read from a key of an index is what was written.
use qtjsondb.Prelude.{
  ℕ, zero, suc, ◌+◌, ◌-◌, ◌*◌, ◌/◌, ◌%◌, ◌^◌, ◌<◌, ◌≡◌, refl, ap, ◌∙◌, true, false, List, [], ◌∷◌,
  ◌++◌, arith, take, drop, length, length-append,
}
use qtjsondb.Qt.Text.{QString}
use qtjsondb.Qt.Json.{Value, undefined, null, bool, num, str, arr, obj}
use qtjsondb.Object.Version.{utf16_bytes, type_code}
use qtjsondb.Index.Key.{
  be_bytes, from_be, utf16_units, field_value_size, serialize_field_value, deserialize_field_value,
  make_forward_key, forward_key_split, make_forward_value, forward_value_split,
}

pub length-be_bytes : (k n : ℕ) → length (be_bytes k n) ≡ k
unfolding be_bytes
length-be_bytes zero n = refl
length-be_bytes (suc k) n =
    omega
      (arith, length-be_bytes k (n / 256), length-append {0} (be_bytes k (n / 256)) (n % 256 ∷ []))

from_be-append : (n : ℕ) (bs : List ℕ) (b : ℕ) → from_be n (bs ++ b ∷ []) ≡ from_be n bs * 256 + b
unfolding from_be
from_be-append n [] b = refl
from_be-append n (c ∷ bs) b = from_be-append (n * 256 + c) bs b

pub from_be-be_bytes : (k n : ℕ) → n < 256 ^ k → from_be 0 (be_bytes k n) ≡ n
unfolding be_bytes
from_be-be_bytes zero n h = unfold from_be in omega arith
from_be-be_bytes (suc k) n h = omega (
  arith,
  from_be-append 0 (be_bytes k (n / 256)) (n % 256),
  from_be-be_bytes k (n / 256) (omega arith),
)

pub take_exact : (n : ℕ) (xs ys : List ℕ) → length xs ≡ n → take n (xs ++ ys) ≡ xs
take_exact zero [] ys h = refl
take_exact zero (x ∷ xs) ys h = absurd (omega arith)
take_exact (suc n) [] ys h = absurd (omega arith)
take_exact (suc n) (x ∷ xs) ys h = ap (◌∷◌ x) (take_exact n xs ys (omega arith))

drop_exact : (n : ℕ) (xs ys : List ℕ) → length xs ≡ n → drop n (xs ++ ys) ≡ ys
drop_exact zero [] ys h = refl
drop_exact zero (x ∷ xs) ys h = absurd (omega arith)
drop_exact (suc n) [] ys h = absurd (omega arith)
drop_exact (suc n) (x ∷ xs) ys h = drop_exact n xs ys (omega arith)

-- Each unit has two bytes.
abbrev pub AllUnits : QString → Type 0
AllUnits [] = Unit
AllUnits (c ∷ s) = (c < 2 ^ 16) × AllUnits s

-- The values that a key keeps: null, truth values, doubles of 64 bits, and texts whose size is a
-- quint16.
abbrev pub IsKeyValue : Value → Type 0
IsKeyValue null = Unit
IsKeyValue (bool b) = Unit
IsKeyValue (num n) = n < 256 ^ 8
IsKeyValue (str s) = AllUnits s × (2 * length s < 2 ^ 16)
IsKeyValue _ = ⊥

length-utf16_bytes : (s : QString) → length (utf16_bytes s) ≡ 2 * length s
unfolding utf16_bytes
length-utf16_bytes [] = refl
length-utf16_bytes (c ∷ s) = omega (arith, length-utf16_bytes s)

utf16_units-utf16_bytes : (s : QString) → AllUnits s → utf16_units (utf16_bytes s) ≡ s
unfolding utf16_units utf16_bytes
utf16_units-utf16_bytes [] h = refl
utf16_units-utf16_bytes (c ∷ s) (small, h) =
    let unit : c % 256 + 256 * (c / 256) ≡ c = omega arith in
    rw (unit, utf16_units-utf16_bytes s h) refl

take_all : (n : ℕ) (xs : List ℕ) → length xs ≡ n → take n xs ≡ xs
take_all zero [] h = refl
take_all zero (x ∷ xs) h = absurd (omega arith)
take_all (suc n) [] h = absurd (omega arith)
take_all (suc n) (x ∷ xs) h = ap (◌∷◌ x) (take_all n xs (omega arith))

drop_add : (n i m : ℕ) (xs ys : List ℕ) → length xs ≡ n → i ≡ n + m → drop i (xs ++ ys) ≡ drop m ys
drop_add zero i m [] ys h e = let same : i ≡ m = omega arith in rw same refl
drop_add zero i m (x ∷ xs) ys h e = absurd (omega arith)
drop_add (suc n) i m [] ys h e = absurd (omega arith)
drop_add (suc n) zero m (x ∷ xs) ys h e = absurd (omega arith)
drop_add (suc n) (suc i) m (x ∷ xs) ys h e = drop_add n i m xs ys (omega arith) (omega arith)

-- What is read at the places of a key.
pub record KeyParts (key : List ℕ) (t : ℕ) (stored : List ℕ) (k : ℕ) : Type 0 where
  pub type : from_be 0 (take 4 key) ≡ t
  pub size : length key - 4 - 16 ≡ length stored
  pub bytes : drop 4 key ≡ stored ++ be_bytes 16 k
  pub object_key : from_be 0 (take 16 (drop (4 + (length key - 4 - 16)) key)) ≡ k

key_parts :
    (t : ℕ) (stored : List ℕ) (k : ℕ)
    → t < 256 ^ 4
    → k < 256 ^ 16
    → KeyParts (be_bytes 4 t ++ (stored ++ be_bytes 16 k)) t stored k
key_parts t stored k ht hk =
    let key = be_bytes 4 t ++ (stored ++ be_bytes 16 k) in
    let size : length key - 4 - 16 ≡ length stored = omega (
      arith,
      length-append {0} (be_bytes 4 t) (stored ++ be_bytes 16 k),
      length-append {0} stored (be_bytes 16 k),
      length-be_bytes 4 t,
      length-be_bytes 16 k,
    ) in
    let behind : drop (4 + length stored) key ≡ be_bytes 16 k =
      drop_add 4 (4 + length stored) (length stored) (be_bytes 4 t) (stored ++ be_bytes 16 k)
        (length-be_bytes 4 t) refl
      ∙ drop_exact (length stored) stored (be_bytes 16 k) refl in
    record {
      type =
          ap (from_be 0)
            (take_exact 4 (be_bytes 4 t) (stored ++ be_bytes 16 k) (length-be_bytes 4 t))
          ∙ from_be-be_bytes 4 t ht;
      size = size;
      bytes = drop_exact 4 (be_bytes 4 t) (stored ++ be_bytes 16 k) (length-be_bytes 4 t);
      object_key =
          ap (λ (n : ℕ). from_be 0 (take 16 (drop (4 + n) key))) size
          ∙ ap (λ (bs : List ℕ). from_be 0 (take 16 bs)) behind
          ∙ ap (from_be 0) (take_all 16 (be_bytes 16 k) (length-be_bytes 16 k))
          ∙ from_be-be_bytes 16 k hk;
    }

length-stored_text :
    (s : QString) → 2 * length s < 2 ^ 16 → length (serialize_field_value (str s)) ≡ 2 * length s
unfolding serialize_field_value field_value_size
length-stored_text s short =
    let size : (2 * length s) % 2 ^ 16 ≡ 2 * length s = omega arith in
    rw (size, take_all (2 * length s) (utf16_bytes s) (length-utf16_bytes s)) (length-utf16_bytes s)

-- The units that are read from a stored text, whatever stands behind it.
pub stored_text :
    (s : QString) (rest : List ℕ)
    → AllUnits s
    → 2 * length s < 2 ^ 16
    → utf16_units (
        take
          (2 * (length (serialize_field_value (str s)) / 2))
          (serialize_field_value (str s) ++ rest))
      ≡ s
stored_text s rest units short =
    let size : (2 * length s) % 2 ^ 16 ≡ 2 * length s = omega arith in
    let whole : 2 * ((2 * length s) / 2) ≡ 2 * length s = omega arith in
    rw (length-stored_text s short, whole)
      (unfold serialize_field_value field_value_size in
        rw
          (
            size,
            take_all (2 * length s) (utf16_bytes s) (length-utf16_bytes s),
            take_exact (2 * length s) (utf16_bytes s) rest (length-utf16_bytes s),
          )
          (utf16_units-utf16_bytes s units))

deserialize-text :
    (old : Value) (s : QString) (rest : List ℕ)
    → AllUnits s
    → 2 * length s < 2 ^ 16
    → deserialize_field_value 3 old
        (serialize_field_value (str s) ++ rest)
        (length (serialize_field_value (str s)) % 2 ^ 16)
      ≡ str s
unfolding deserialize_field_value
deserialize-text old s rest units short =
    let n = length (serialize_field_value (str s)) in
    let size : n % 2 ^ 16 ≡ n = omega (arith, length-stored_text s short) in
    rw size (ap str (stored_text s rest units short))

deserialize-serialize :
    (old v : Value) (rest : List ℕ)
    → IsKeyValue v
    → deserialize_field_value
        (type_code v)
        old
        (serialize_field_value v ++ rest)
        (length (serialize_field_value v) % 2 ^ 16)
      ≡ v
unfolding deserialize_field_value serialize_field_value type_code field_value_size
deserialize-serialize old null rest h = refl
deserialize-serialize old (bool true) rest h = unfold be_bytes from_be in refl
deserialize-serialize old (bool false) rest h = unfold be_bytes from_be in refl
deserialize-serialize old (num n) rest h =
    ap (λ (bs : List ℕ). num (from_be 0 bs))
      (take_exact 8 (be_bytes 8 n) rest (length-be_bytes 8 n))
    ∙ ap num (from_be-be_bytes 8 n h)
deserialize-serialize old (str s) rest (units, short) = deserialize-text old s rest units short
deserialize-serialize old undefined rest h = absurd h
deserialize-serialize old (arr xs) rest h = absurd h
deserialize-serialize old (obj fs) rest h = absurd h

type_code_small : (v : Value) → type_code v < 256 ^ 4
unfolding type_code
type_code_small undefined = omega arith
type_code_small null = omega arith
type_code_small (bool b) = omega arith
type_code_small (num n) = omega arith
type_code_small (str s) = omega arith
type_code_small (arr xs) = omega arith
type_code_small (obj fs) = omega arith

pub make_forward_key-parts :
    (v : Value) (k : ℕ)
    → k < 256 ^ 16
    → KeyParts (make_forward_key v k) (type_code v) (serialize_field_value v) k
unfolding make_forward_key
make_forward_key-parts v k small =
    key_parts (type_code v) (serialize_field_value v) k (type_code_small v) small

-- If a value is null, a truth value, a double of 64 bits, or a text of 16-bit units whose size in
-- bytes is a quint16, then splitting the key that is made from it and from an object key of 16
-- bytes gives both back.
pub forward_key_split-make_forward_key :
    (old v : Value) (k : ℕ)
    → IsKeyValue v
    → k < 256 ^ 16
    → forward_key_split old (make_forward_key v k) ≡ (v, k)
unfolding forward_key_split
forward_key_split-make_forward_key old v k h small =
    let p = make_forward_key-parts v k small in
    rw (p.object_key, p.type, p.size, p.bytes)
      (ap (λ (w : Value). (w, k)) (deserialize-serialize old v (be_bytes 16 k) h))

-- The value that an index stores for an object key of 16 bytes gives it back.
pub forward_value_split-make_forward_value :
    (k : ℕ) → k < 256 ^ 16 → forward_value_split (make_forward_value k) ≡ k
unfolding forward_value_split make_forward_value
forward_value_split-make_forward_value k small =
    ap (from_be 0) (take_all 16 (be_bytes 16 k) (length-be_bytes 16 k))
    ∙ from_be-be_bytes 16 k small

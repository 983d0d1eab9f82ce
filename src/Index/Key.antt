-- ===== src/Index/Key.antt =====
-- src/partition/jsondbindex.cpp: the keys of an index, which hold the type of a field value, its
-- bytes and the key of the object. An ObjectKey is its uuid, which toRfc4122 writes as a number
-- of 16 bytes in big-endian order. Texts are stored in the order of the host, little-endian.
pub mod RoundTrip
use qtjsondb.Prelude.{
  ℕ, zero, suc, ◌+◌, ◌-◌, ◌*◌, ◌/◌, ◌%◌, ◌^◌, Bool, true, false, ◌&&◌, ◌||◌, List, [], ◌∷◌, ◌++◌,
  ◌==◌, ltb, if◌then◌else◌, take, drop, length, not,
}
use qtjsondb.Qt.Text.{QString}
use qtjsondb.Qt.Json.{Value, null, bool, num, str, arr, obj}
use qtjsondb.Qt.Calls.{QtCalls}
use qtjsondb.Object.Version.{utf16_bytes, type_code}

-- qToBigEndian of k bytes, and qFromBigEndian, given the number before the bytes.
unfoldable pub be_bytes : ℕ → ℕ → List ℕ
be_bytes zero n = []
be_bytes (suc k) n = be_bytes k (n / 256) ++ (n % 256) ∷ []

unfoldable pub from_be : ℕ → List ℕ → ℕ
from_be n [] = n
from_be n (b ∷ bytes) = from_be (n * 256 + b) bytes

-- The units of a text of two bytes each.
unfoldable pub utf16_units : List ℕ → QString
utf16_units (low ∷ high ∷ bytes) = (low + 256 * high) ∷ utf16_units bytes
utf16_units _ = []

-- fieldValueSize, a quint16.
unfoldable pub field_value_size : Value → ℕ
field_value_size (bool b) = 4
field_value_size (num n) = 8
field_value_size (str s) = (2 * length s) % 2 ^ 16
field_value_size v = 0

-- serializeFieldValue
unfoldable pub serialize_field_value : Value → List ℕ
unfolding be_bytes field_value_size utf16_bytes
serialize_field_value (bool b) = be_bytes 4 (if b then 1 else 0)
serialize_field_value (num n) = be_bytes 8 n
serialize_field_value (str s) = take (field_value_size (str s)) (utf16_bytes s)
serialize_field_value v = []

-- deserializeFieldValue, with the type as a number, and the value that is there before.
unfoldable pub deserialize_field_value : ℕ → Value → List ℕ → ℕ → Value
unfolding from_be utf16_units
deserialize_field_value vt old bytes size =
    if vt == 0
    then null
    else if vt == 1
    then bool (from_be 0 (take 4 bytes) == 1)
    else if vt == 2
    then num (from_be 0 (take 8 bytes))
    else if vt == 3
    then str (utf16_units (take (2 * (size / 2)) bytes))
    else old

-- makeForwardKey
unfoldable pub make_forward_key : Value → ℕ → List ℕ
unfolding be_bytes serialize_field_value type_code
make_forward_key field_value object_key =
    be_bytes 4 (type_code field_value)
    ++ (serialize_field_value field_value ++ be_bytes 16 object_key)

-- forwardKeySplit, of a key that has the bytes of a type and of an object key. Its size is a
-- quint32, and that of the field value is passed on as a quint16.
unfoldable pub forward_key_split : Value → List ℕ → Value × ℕ
unfolding deserialize_field_value from_be
forward_key_split old forward_key =
    let size = length forward_key - 4 - 16 in
    (
      deserialize_field_value (from_be 0 (take 4 forward_key)) old (drop 4 forward_key)
          (size % 2 ^ 16),
      from_be 0 (take 16 (drop (4 + size) forward_key)),
    )

-- makeForwardValue and forwardValueSplit
unfoldable pub make_forward_value : ℕ → List ℕ
unfolding be_bytes
make_forward_value object_key = be_bytes 16 object_key

unfoldable pub forward_value_split : List ℕ → ℕ
unfolding from_be
forward_value_split forward_value = from_be 0 (take 16 forward_value)

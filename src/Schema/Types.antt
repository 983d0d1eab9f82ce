-- ===== src/Schema/Types.antt =====
-- src/partition/jsondbcheckpoints_p.h: CheckType, whose types are the bits of a mask.
pub mod Single
use Prim.Native.Nat.{bit_and, bit_or}
use qtjsondb.Prelude.{ℕ, Bool, true, false, List, [], ◌∷◌, ◌==◌, if◌then◌else◌, not}
use qtjsondb.Qt.Text.{QString, codes}
use qtjsondb.Qt.Json.{Value, str, arr, to_list, QJsonArray}
use qtjsondb.Schema.Handle.{
  SchemaCalls, Handle, to_int, to_double, to_items, to_text, to_flag, to_null, to_map,
}
use qtjsondb.Schema.Keyword.{hash}

abbrev pub string_type : ℕ
string_type = 0x0001

abbrev pub number_type : ℕ
number_type = 0x0002

abbrev pub integer_type : ℕ
integer_type = 0x0004

abbrev pub boolean_type : ℕ
boolean_type = 0x0008

abbrev pub object_type : ℕ
object_type = 0x0010

abbrev pub array_type : ℕ
array_type = 0x0020

abbrev pub null_type : ℕ
null_type = 0x0040

abbrev pub any_type : ℕ
any_type = 0x0080

-- The bits that the switch on a hash sets: the names are not compared.
unfoldable pub bits_of_hash : ℕ → ℕ
unfolding hash
bits_of_hash h =
    if h == hash (codes "string")
    then string_type
    else if h == hash (codes "number")
    then bit_or number_type integer_type
    else if h == hash (codes "integer")
    then integer_type
    else if h == hash (codes "boolean")
    then boolean_type
    else if h == hash (codes "object")
    then object_type
    else if h == hash (codes "array")
    then array_type
    else if h == hash (codes "any")
    then any_type
    else if h == hash (codes "null")
    then null_type
    else 0

-- The names of a type, which is a text or an array, whose other values are skipped.
unfoldable pub texts : QJsonArray → List QString
texts [] = []
texts (str s ∷ vs) = s ∷ texts vs
texts (v ∷ vs) = texts vs

abbrev types_name : Value → List QString
unfolding texts
types_name (str s) = s ∷ []
types_name (arr xs) = texts (to_list xs)
types_name _ = []

module _ (c : SchemaCalls) where
  unfoldable pub add_types : ℕ → List QString → ℕ
  unfolding hash bits_of_hash
  add_types mask [] = mask
  add_types mask (name ∷ names) =
      add_types (bit_or mask (bits_of_hash (hash (c.to_lower name)))) names

  -- The constructor of CheckType.
  unfoldable pub type_mask : Value → ℕ
  unfolding add_types texts
  type_mask type = add_types 0 (types_name type)

  -- The type that a value is of, whatever the mask.
  unfoldable pub own_type : Handle → ℕ
  unfolding to_int to_double to_map to_text to_flag to_items
  own_type v =
      if (to_int c v).1
      then integer_type
      else if (to_double c v).1
      then number_type
      else if (to_map v).1
      then object_type
      else if (to_text v).1
      then string_type
      else if (to_flag v).1
      then boolean_type
      else if (to_items v).1
      then array_type
      else any_type

  -- findType: a mask of one bit is tried first. The case of arrays is missing there.
  unfoldable pub find_type : ℕ → Handle → ℕ
  unfolding own_type to_int to_double to_map to_text to_flag to_null
  find_type mask v =
      let own = own_type v in
      if mask == string_type
      then (if (to_text v).1 then string_type else own)
      else if mask == number_type
      then (if (to_double c v).1 then number_type else own)
      else if mask == integer_type
      then (if (to_int c v).1 then integer_type else own)
      else if mask == boolean_type
      then (if (to_flag v).1 then boolean_type else own)
      else if mask == object_type
      then (if (to_map v).1 then object_type else own)
      else if mask == null_type
      then (if to_null v then null_type else own)
      else if mask == any_type
      then any_type
      else own

  -- CheckType::doCheck
  unfoldable pub check_type : ℕ → Handle → Bool
  unfolding find_type
  check_type mask v = if mask == 0 then true else not (bit_and (find_type mask v) mask == 0)

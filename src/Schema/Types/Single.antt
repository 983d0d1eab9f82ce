-- ===== src/Schema/Types/Single.antt =====
-- src/partition/jsondbcheckpoints_p.h: what CheckType accepts, for a type of one name and for null.
use Prim.Native.Nat.{bit_and, bit_or}
use qtjsondb.Prelude.{
  ℕ, ◌≡◌, refl, Bool, true, false, [], ◌∷◌, arith, ◌==◌, if◌then◌else◌, not, ◌≢◌,
}
use qtjsondb.Qt.Text.{QString, codes}
use qtjsondb.Qt.Json.{Value, undefined, null, bool, num, str, arr, obj, value}
use qtjsondb.Schema.Handle.{
  SchemaCalls, Handle, map_member, list_item, root_map, held, is_root, to_int, to_double, to_items,
  to_text, to_flag, to_null, to_map, value_to_int, is_null_value,
}
use qtjsondb.Schema.Keyword.{hash}
use qtjsondb.Schema.Types.{type_mask, add_types, bits_of_hash, own_type, find_type, check_type}

-- The types that a schema can name.
pub data JsonType : Type 0 where
  a_string a_number an_integer a_boolean an_object an_array a_null anything : JsonType

abbrev pub type_name : JsonType → QString
type_name a_string = codes "string"
type_name a_number = codes "number"
type_name an_integer = codes "integer"
type_name a_boolean = codes "boolean"
type_name an_object = codes "object"
type_name an_array = codes "array"
type_name a_null = codes "null"
type_name anything = codes "any"

-- What each type means. An integer is a double that is the conversion of an int.
abbrev pub is_of : SchemaCalls → JsonType → Value → Bool
is_of c a_string (str s) = true
is_of c a_number (num d) = true
is_of c an_integer v = (value_to_int c v).1
is_of c a_boolean (bool b) = true
is_of c an_object (obj fs) = true
is_of c an_array (arr xs) = true
is_of c a_null null = true
is_of c anything v = true
is_of c type v = false

by_type :
    (P : JsonType → Type 0)
    → P a_string
      × P a_number
      × P an_integer
      × P a_boolean
      × P an_object
      × P an_array
      × P a_null
      × P anything
    → (type : JsonType) → P type
by_type P h a_string = h.0
by_type P h a_number = h.1
by_type P h an_integer = h.2
by_type P h a_boolean = h.3
by_type P h an_object = h.4
by_type P h an_array = h.5
by_type P h a_null = h.6
by_type P h anything = h.7

bit_or_zero :
    (type : JsonType)
    → bit_or 0 (bits_of_hash (hash (type_name type))) ≡ bits_of_hash (hash (type_name type))
unfolding bits_of_hash hash
bit_or_zero type =
    by_type (λ t. bit_or 0 (bits_of_hash (hash (type_name t))) ≡ bits_of_hash (hash (type_name t)))
      (refl, refl, refl, refl, refl, refl, refl, refl) type

module _ (c : SchemaCalls) where
  abbrev Accepts : Value → JsonType → Type 0
  Accepts v type =
      check_type c (bits_of_hash (hash (type_name type))) (list_item 0 (v ∷ [])) ≡ is_of c type v

  accepted_item : (v : Value) (type : JsonType) → Accepts v type
  unfolding check_type find_type own_type bits_of_hash hash to_int to_double to_items to_text
      to_flag to_null to_map held
  accepted_item undefined type =
      by_type (Accepts undefined) (refl, refl, refl, refl, refl, refl, refl, refl) type
  accepted_item null type =
      by_type (Accepts null) (refl, refl, refl, refl, refl, refl, refl, refl) type
  accepted_item (bool b) type =
      by_type (Accepts (bool b)) (refl, refl, refl, refl, refl, refl, refl, refl) type
  accepted_item (num d) type =
      by_type (Accepts (num d))
        (
          ground arith,
          ground arith,
          ground arith,
          ground arith,
          ground arith,
          ground arith,
          ground arith,
          ground arith,
        )
        type
  accepted_item (str t) type =
      by_type (Accepts (str t)) (refl, refl, refl, refl, refl, refl, refl, refl) type
  accepted_item (arr xs) type =
      by_type (Accepts (arr xs)) (refl, refl, refl, refl, refl, refl, refl, refl) type
  accepted_item (obj fs) type =
      by_type (Accepts (obj fs)) (refl, refl, refl, refl, refl, refl, refl, refl) type

  same_value :
      (mask : ℕ) (v : Handle)
      → is_root v ≡ false
      → check_type c mask v ≡ check_type c mask (list_item 0 (held v ∷ []))
  unfolding check_type find_type own_type to_int to_double to_items to_text to_flag to_null to_map
      held is_root
  same_value mask (map_member name map) h = refl
  same_value mask (list_item i list) h = refl
  same_value mask (root_map map) h = absurd (ground arith)

  -- If the name of a type is one of the eight that a schema can name, when it is in lower case,
  -- then CheckType with this type accepts a member or an item exactly if its value is of that
  -- type.
  pub check_type_single :
      (type : JsonType) (name : QString) (v : Handle)
      → c.to_lower name ≡ type_name type
      → is_root v ≡ false
      → check_type c (type_mask c (str name)) v ≡ is_of c type (held v)
  unfolding type_mask add_types
  check_type_single type name v lower inside =
      rw (same_value (type_mask c (str name)) v inside, lower, bit_or_zero type)
        (accepted_item (held v) type)

  null_text : (v : Value) → is_null_value v ≡ true → v ≡ null
  null_text null h = refl
  null_text v h = absurd (ground arith)

  null_held : (v : Handle) → to_null v ≡ true → (held v ≡ null) × (is_root v ≡ false)
  unfolding to_null held is_root
  null_held (map_member name map) h = (null_text (value map name) h, refl)
  null_held (list_item i list) h = (null_text (held (list_item i list)) h, refl)
  null_held (root_map map) h = absurd (ground arith)

  find_type_null : (mask : ℕ) → mask ≢ 0x40 → find_type c mask (list_item 0 (null ∷ [])) ≡ 0x80
  unfolding find_type own_type to_int to_double to_items to_text to_flag to_null to_map held
  find_type_null mask h = ground arith

  -- If a mask is not empty and not null alone, then CheckType accepts null exactly if the mask
  -- has the bit of any.
  pub check_type_null :
      (mask : ℕ) (v : Handle)
      → to_null v ≡ true
      → mask ≢ 0
      → mask ≢ 0x40
      → check_type c mask v ≡ not (bit_and 0x80 mask == 0)
  unfolding check_type
  check_type_null mask v isnull some more =
      let h = null_held v isnull in
      rw (same_value mask v h.1, h.0, find_type_null mask more) (nonzero mask _ some)
    where
      nonzero : (mask : ℕ) (b : Bool) → mask ≢ 0 → (if mask == 0 then true else b) ≡ b
      nonzero mask b h = ground arith

-- ===== src/Schema/Handle.antt =====
-- src/partition/jsondbobjecttypes_impl_p.h: QJsonObjectTypes::Value and its conversions. A
-- conversion gives what it returns and the flag ok. The caches of a value and the assertions are
-- left out: a conversion that asserts false gives what a release build gives.
use qtjsondb.Prelude.{
  ℕ, Bool, true, false, List, [], ◌∷◌, Option, none, some, ℤ, pos, negsuc, get_elem?, is_empty,
  if◌then◌else◌,
}
use qtjsondb.Qt.Text.{QString}
use qtjsondb.Qt.Json.{
  Value, undefined, null, bool, num, str, arr, obj, QJsonArray, QJsonObject, no_fields, field,
  to_bool, to_string, to_array, to_object, value,
}
use qtjsondb.Qt.Calls.{QtCalls}

-- QRegularExpression: its pattern, and whether it ignores case.
pub record QRegularExpression : Type 0 where
  pub pattern : QString
  pub ignores_case : Bool

-- What the validation of schemas calls besides `QtCalls`.
pub record SchemaCalls : Type 0 where
  pub qt : QtCalls
  -- QString::toLower
  pub to_lower : QString → QString
  -- the conversion of a double to an int
  pub int_of_double : ℕ → ℤ
  -- QRegularExpression: match(...).hasMatch(), and isValid()
  pub has_match : QRegularExpression → QString → Bool
  pub is_valid_pattern : QString → Bool
  -- QString::arg at %1
  pub arg : QString → QString → QString

-- QJsonObjectTypes::Value, whose type is Map, List or RootMap.
pub data Handle : Type 0 where
  map_member : QString → QJsonObject → Handle
  list_item : ℕ → QJsonArray → Handle
  root_map : QJsonObject → Handle

-- A value by the name of a property: an empty name makes it stand for the whole map.
unfoldable pub property : QString → QJsonObject → Handle
property name map = if is_empty name then root_map map else map_member name map

abbrev at : QJsonArray → ℕ → Option Value
at list index = get_elem? list index

abbrev or_undefined : Option Value → Value
or_undefined none = undefined
or_undefined (some v) = v

-- The JSON value that a handle on a member or an item stands for.
unfoldable pub held : Handle → Value
held (map_member name map) = value map name
held (list_item index list) = or_undefined (at list index)
held (root_map map) = obj map

unfoldable pub is_root : Handle → Bool
is_root (root_map map) = true
is_root _ = false

module _ (c : SchemaCalls) where
  abbrev double_to_int : ℕ → ℤ × Bool
  double_to_int d =
      let i = c.int_of_double d in
      if c.qt.double_eq (c.qt.double_of_int i) d then (i, true) else (pos 0, false)

  abbrev pub value_to_int : Value → ℤ × Bool
  value_to_int (num d) = double_to_int d
  value_to_int _ = (pos 0, false)

  unfoldable pub to_int : Handle → ℤ × Bool
  unfolding held
  to_int (root_map map) = (negsuc 0, false)
  to_int (map_member name map) = value_to_int (held (map_member name map))
  to_int (list_item index list) = value_to_int (held (list_item index list))

  -- QJsonValue::toDouble, whose default has the bits 0.
  abbrev pub value_to_double : Value → ℕ × Bool
  value_to_double (num d) = (d, true)
  value_to_double _ = (0, false)

  unfoldable pub to_double : Handle → ℕ × Bool
  unfolding held
  to_double (root_map map) = (c.qt.double_of_int (negsuc 0), false)
  to_double (map_member name map) = value_to_double (held (map_member name map))
  to_double (list_item index list) = value_to_double (held (list_item index list))

abbrev pub is_array : Value → Bool
is_array (arr xs) = true
is_array _ = false

abbrev pub is_text : Value → Bool
is_text (str s) = true
is_text _ = false

abbrev pub is_boolean : Value → Bool
is_boolean (bool b) = true
is_boolean _ = false

abbrev pub is_null_value : Value → Bool
is_null_value null = true
is_null_value _ = false

abbrev pub is_map : Value → Bool
is_map (obj fs) = true
is_map _ = false

-- The value of a root is an object, whose toArray is empty: the flag says true all the same.
unfoldable pub to_items : Handle → QJsonArray × Bool
unfolding held
to_items (root_map map) = ([], true)
to_items (map_member name map) = let v = held (map_member name map) in (to_array v, is_array v)
to_items (list_item index list) = let v = held (list_item index list) in (to_array v, is_array v)

-- At a root the text is empty, and the flag says true.
unfoldable pub to_text : Handle → QString × Bool
unfolding held
to_text (root_map map) = ([], true)
to_text (map_member name map) = let v = held (map_member name map) in (to_string v, is_text v)
to_text (list_item index list) = let v = held (list_item index list) in (to_string v, is_text v)

unfoldable pub to_flag : Handle → Bool × Bool
unfolding held
to_flag (root_map map) = (false, false)
to_flag (map_member name map) = let v = held (map_member name map) in (to_bool v, is_boolean v)
to_flag (list_item index list) = let v = held (list_item index list) in (to_bool v, is_boolean v)

unfoldable pub to_null : Handle → Bool
unfolding held
to_null (root_map map) = false
to_null (map_member name map) = is_null_value (held (map_member name map))
to_null (list_item index list) = is_null_value (held (list_item index list))

unfoldable pub to_map : Handle → QJsonObject × Bool
unfolding held
to_map (root_map map) = (map, true)
to_map (map_member name map) = let v = held (map_member name map) in (to_object v, is_map v)
to_map (list_item index list) = let v = held (list_item index list) in (to_object v, is_map v)

-- QJsonObject::keys
unfoldable pub property_names : QJsonObject → List QString
property_names no_fields = []
property_names (field k v fs) = k ∷ property_names fs

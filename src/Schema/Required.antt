-- ===== src/Schema/Required.antt =====
-- src/partition/jsondbcheckpoints_p.h: how many required checks a schema has, which its constructor
-- counts in m_maxRequired, and how many of them a value reaches.
mod Adds
pub mod Counted
pub mod Reached
pub mod Missing
use qtjsondb.Prelude.{ℕ, ◌+◌, Bool, true, false, ◌&&◌, ◌||◌, List, [], ◌∷◌, not, if◌then◌else◌}
use qtjsondb.Qt.Text.{QString, str_eq}
use qtjsondb.Qt.Json.{
  Value, undefined, null, bool, num, str, arr, obj, Items, no_items, item, Fields, no_fields, field,
  contains,
}
use qtjsondb.Schema.Compile.{
  Check, properties_check, required_check, Checks, no_checks, check_and, Properties, no_properties,
  named,
}

-- The required checks of a schema, those of its properties included.
unfoldable mutual
  pub required_in : Check → ℕ
  required_in (properties_check ps) = required_properties ps
  required_in (required_check true) = 1
  required_in _ = 0

  pub required_checks : Checks → ℕ
  required_checks no_checks = 0
  required_checks (check_and check cs) = required_in check + required_checks cs

  pub required_properties : Properties → ℕ
  required_properties no_properties = 0
  required_properties (named name cs ps) = required_checks cs + required_properties ps

-- The required checks below a property of this name.
unfoldable pub required_named : Properties → QString → ℕ
unfolding required_in
required_named no_properties name = 0
required_named (named n cs ps) name =
    let rest = required_named ps name in if str_eq n name then required_checks cs else rest

unfoldable pub required_below : Checks → QString → ℕ
unfolding required_named
required_below no_checks name = 0
required_below (check_and (properties_check ps) cs) name =
    required_named ps name + required_below cs name
required_below (check_and check cs) name = required_below cs name

-- No object in a value has a key twice, which holds of every QJsonValue.
unfoldable mutual
  unfolding contains

  pub has_unique_keys : Value → Bool
  has_unique_keys (arr xs) = items_unique xs
  has_unique_keys (obj fs) = fields_unique fs
  has_unique_keys _ = true

  pub items_unique : Items → Bool
  items_unique no_items = true
  items_unique (item v xs) = has_unique_keys v && items_unique xs

  pub fields_unique : Fields → Bool
  fields_unique no_fields = true
  fields_unique (field k v fs) = not (contains fs k) && (has_unique_keys v && fields_unique fs)

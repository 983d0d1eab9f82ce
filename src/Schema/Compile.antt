-- ===== src/Schema/Compile.antt =====
-- src/partition/jsondbschema_p.h and jsondbcheckpoints_p.h: the checks that a schema is compiled
-- into, and the constructors of the checks. `load` is loadSchema, which gives none where it does
-- not return. The counts are those of members of one document, which stay far below 2 ^ 31.
pub mod Loads
pub mod Ends
use qtjsondb.Prelude.{
  ℕ, suc, Bool, true, false, List, [], ◌∷◌, Option, none, some, ℤ, pos, if◌then◌else◌, is_empty,
}
use qtjsondb.Qt.Text.{QString, codes, str_eq}
use qtjsondb.Qt.Json.{
  Value, num, bool, str, arr, obj, Items, no_items, item, Fields, no_fields, field, QJsonObject,
  insert, to_bool, to_string, to_object,
}
use qtjsondb.Schema.Handle.{SchemaCalls, value_to_int, value_to_double, is_boolean}
use qtjsondb.Schema.Keyword.{
  Keyword, required_key, maximum_key, exclusive_maximum_key, minimum_key, exclusive_minimum_key,
  properties_key, description_key, title_key, max_items_key, min_items_key, items_key, extends_key,
  pattern_key, min_length_key, max_length_key, ref_key, type_key, format_key, null_key, keyword_of,
}
use qtjsondb.Schema.Types.{type_mask}

mutual
  -- The classes of checks, with what their constructors keep.
  pub data Check : Type 0 where
    null_check : Check
    type_check : ℕ → Check
    properties_check : Properties → Check
    items_check : Schema → Check
    required_check : Bool → Check
    minimum_check maximum_check exclusive_minimum_check exclusive_maximum_check : ℕ → Check
    min_items_check max_items_check min_length_check max_length_check : ℤ → Check
    pattern_check format_check : QString → Check
    extends_check : Schemas → Check
    ref_check : Schema → Check

  pub data Checks : Type 0 where
    no_checks : Checks
    check_and : Check → Checks → Checks

  -- The checks of each named property.
  pub data Properties : Type 0 where
    no_properties : Properties
    named : QString → Checks → Properties → Properties

  -- m_checks and m_maxRequired
  pub data Schema : Type 0 where
    schema : Checks → ℕ → Schema

  pub data Schemas : Type 0 where
    no_schemas : Schemas
    schema_and : Schema → Schemas → Schemas

abbrev pub checks : Schema → Checks
checks (schema cs n) = cs

abbrev pub max_of : Schema → ℕ
max_of (schema cs n) = n

-- isValid: something is compiled.
unfoldable pub is_valid : Schema → Bool
is_valid (schema no_checks n) = false
is_valid (schema (check_and c cs) n) = true

-- The manager's pairs by name, and the service's error.
pub record Service : Type 0 where
  pub schemas : List (QString × (QJsonObject × Schema))
  pub error : QJsonObject

abbrev pub failed_schema_validation : ℤ
failed_schema_validation = pos 16

unfoldable pub with_error : SchemaCalls → QJsonObject → QString → QJsonObject
with_error c error message =
    insert (insert error (codes "code") (num (c.qt.double_of_int failed_schema_validation)))
      (codes "message") (str message)

-- The service, and m_maxRequired of the schema that is being compiled.
pub record Compiling : Type 0 where
  pub service : Service
  pub max_required : ℕ

abbrev pub Compile : Type 0 → Type 0
Compile A = Compiling → Option (A × Compiling)

abbrev pub and_then :
    {A B : Type 0} → Option (A × Compiling) → (A → Compile B) → Option (B × Compiling)
and_then none f = none
and_then (some (a, s)) f = f a s

infixl 5 ◌>>=◌
abbrev pub ◌>>=◌ : {A B : Type 0} → Compile A → (A → Compile B) → Compile B
m >>= f = λ s. and_then (m s) f

abbrev pub done : {A : Type 0} → A → Compile A
done a = λ s. some (a, s)

abbrev pub own_count : ℕ → Option (Checks × Compiling) → Option (Schema × Compiling)
own_count outer none = none
own_count outer (some (cs, s)) = some (schema cs s.max_required, record s { max_required = outer })

-- Schema(obj, service): a schema of its own, whose count starts at 0.
unfoldable pub compile : Compile Checks → Compile Schema
compile m s = own_count s.max_required (m (record s { max_required = 0 }))

module _ (c : SchemaCalls) (load : QString → Service → Option (Schema × Service)) where
  abbrev pub in_service : Option (Schema × Service) → Compile Schema
  in_service none s = none
  in_service (some (loaded, service)) s = some (loaded, record s { service = service })

  unfoldable pub load_schema : QString → Compile Schema
  load_schema name s = in_service (load name s.service) s

  abbrev unknown : QString → QString
  unknown name = c.arg (codes "Schema extends %1 but it is unknown.") name

  -- The constructor of CheckRef, which reports a schema that has no checks.
  unfoldable pub report_unknown : QString → Schema → Compile Check
  unfolding is_valid with_error
  report_unknown name loaded s =
      if is_valid loaded
      then some (ref_check loaded, s)
      else some (
        ref_check loaded,
        record s {
          service = record s.service { error = with_error c s.service.error (unknown name) };
        },
      )

  -- The constructor of CheckRequired: a text that reads true stands for true.
  unfoldable pub is_required : Value → Bool
  is_required (bool b) = b
  is_required v = str_eq (c.to_lower (to_string v)) (codes "true")

  unfoldable pub count_required : Bool → Compile Check
  count_required required s =
      if required
      then some (required_check true, record s { max_required = suc s.max_required })
      else some (required_check false, s)

  unfoldable mutual
    unfolding keyword_of compile load_schema report_unknown is_required count_required type_mask

    pub create_check : Keyword → Value → Compile Check
    create_check required_key v = count_required (is_required v)
    create_check maximum_key v = done (maximum_check (value_to_double c v).0)
    create_check exclusive_maximum_key v = done (exclusive_maximum_check (value_to_double c v).0)
    create_check minimum_key v = done (minimum_check (value_to_double c v).0)
    create_check exclusive_minimum_key v = done (exclusive_minimum_check (value_to_double c v).0)
    create_check properties_key (obj fs) =
        properties_of (checks_of fs) fs >>= λ ps. done (properties_check ps)
    create_check properties_key v = done (properties_check no_properties)
    create_check description_key v = done null_check
    create_check title_key v = done null_check
    create_check max_items_key v = done (max_items_check (value_to_int c v).0)
    create_check min_items_key v = done (min_items_check (value_to_int c v).0)
    create_check items_key (obj fs) = compile (checks_of fs) >>= λ s. done (items_check s)
    create_check items_key v = done (items_check (schema no_checks 0))
    create_check extends_key (obj fs) =
        compile (checks_of fs) >>= λ s. done (extends_check (schema_and s no_schemas))
    create_check extends_key (str name) =
        load_schema name >>= λ s. done (extends_check (schema_and s no_schemas))
    create_check extends_key (arr xs) = schemas_of xs >>= λ ss. done (extends_check ss)
    create_check extends_key v = done (extends_check no_schemas)
    create_check pattern_key v = done (pattern_check (to_string v))
    create_check min_length_key v = done (min_length_check (value_to_int c v).0)
    create_check max_length_key v = done (max_length_check (value_to_int c v).0)
    create_check ref_key v = load_schema (to_string v) >>= report_unknown (to_string v)
    create_check type_key v = done (type_check (type_mask c v))
    create_check format_key v = done (format_check (to_string v))
    create_check null_key v = done null_check

    -- The loop over the keys of a schema, with createCheckPoint. A property of an empty name has
    -- no keyword.
    pub checks_of : Fields → Compile Checks
    checks_of no_fields = done no_checks
    checks_of (field key v fs) = create_check (keyword_of (c.to_lower key)) v >>= λ check.
        checks_of fs >>= λ cs. done (check_and check cs)

    pub property_checks : Value → Compile Checks
    property_checks (obj fs) = checks_of fs
    property_checks v = done no_checks

    -- The constructor of CheckProperties: an empty name stands for the whole map.
    pub properties_of : Compile Checks → Fields → Compile Properties
    properties_of whole no_fields = done no_properties
    properties_of whole (field name v fs) =
        (if is_empty name then whole else property_checks v) >>= λ cs.
        properties_of whole fs >>= λ ps. done (named name cs ps)

    pub item_schema : Value → Compile Schema
    item_schema (obj fs) = compile (checks_of fs)
    item_schema v = done (schema no_checks 0)

    pub schemas_of : Items → Compile Schemas
    schemas_of no_items = done no_schemas
    schemas_of (item v xs) = item_schema v >>= λ s. schemas_of xs >>= λ ss. done (schema_and s ss)

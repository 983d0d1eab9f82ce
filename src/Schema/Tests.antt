-- ===== src/Schema/Tests.antt =====
-- Schemas and objects on which the statements about schemas are evaluated.
use qtjsondb.Prelude.{
  ℕ, ◌+◌, ◌≤◌, ◌<◌, ◌≡◌, refl, Bool, true, false, ◌&&◌, [], ◌∷◌, Option, none, some, pos, pos_part,
  arith, not, ltb, leb, Bool-cases, inl, inr, subst, if◌then◌else◌,
}
use qtjsondb.Qt.Text.{QString, codes, str_eq, str_lt, str_eq_iff}
use qtjsondb.Qt.Json.{
  null, bool, num, str, arr, obj, no_items, item, no_fields, field, QJsonObject, value, contains,
  insert, put, is_empty_object,
}
use qtjsondb.Qt.Sample.{sample}
use qtjsondb.Schema.Handle.{SchemaCalls, root_map, list_item, to_map, held, is_root}
use qtjsondb.Schema.Keyword.{keyword_of, switch_cases}
use qtjsondb.Schema.Types.{type_mask, check_type}
use qtjsondb.Schema.Types.Single.{an_integer, is_of, check_type_single}
use qtjsondb.Schema.Format.{check_format}
use qtjsondb.Schema.Compile.{
  no_checks, check_and, properties_check, required_check, type_check, no_properties, named, Schema,
  schema, checks, max_of, is_valid, Service, Compiling, compile, checks_of,
}
use qtjsondb.Schema.Check.{Checking, run_checks, check_schema}
use qtjsondb.Schema.Check.Meaning.{conforms}
use qtjsondb.Schema.Check.Errors.{check_schema-error}
use qtjsondb.Schema.Required.Missing.{required_count-le-max, missing_required}
use qtjsondb.Schema.Manager.{SchemaMap, contains_schema, pair_of, schema_value, validate}
use qtjsondb.Schema.Manager.Validate.{Answers, validate_again}
use qtjsondb.Schema.Manager.Depth.{Answered, validate_ends}
use qtjsondb.Schema.Required.{required_below, has_unique_keys}
use qtjsondb.Schema.Required.Reached.{IsUnique}
use qtjsondb.Schema.Compile.Loads.{loads_fields}
use qtjsondb.Schema.Keyword.Perfect.{named_keyword, keyword_of-eq-named_keyword}

abbrev lower : QString → QString
lower [] = []
lower (a ∷ s) = (if leb 65 a && leb a 90 then a + 32 else a) ∷ lower s

abbrev calls : SchemaCalls
calls = record {
  qt = record sample { double_of_int = pos_part };
  to_lower = lower;
  int_of_double = pos;
  has_match = λ e s. str_eq e.pattern s;
  is_valid_pattern = λ s. true;
  arg = λ format text. format;
}

-- {"properties": {"age": {"required": true, "type": "integer"}}}
abbrev age_schema : QJsonObject
age_schema =
    field (codes "properties")
      (obj (
        field (codes "age")
          (obj (
            field (codes "required") (bool true)
              (field (codes "type") (str (codes "integer")) no_fields)))
          no_fields))
      no_fields

-- {"$ref": "Person"}
abbrev guest_schema : QJsonObject
guest_schema = field (codes "$ref") (str (codes "Person")) no_fields

abbrev schemas : SchemaMap
schemas =
    (codes "Person", (age_schema, schema no_checks 0))
    ∷ (codes "Guest", (guest_schema, schema no_checks 0))
    ∷ []

abbrev no_load : QString → Service → Option (Schema × Service)
no_load name service = none

abbrev fresh : Compiling
fresh = record { service = record { schemas = []; error = no_fields }; max_required = 0 }

abbrev start : Checking
start = record { error = no_fields; required_count = 0 }

abbrev age_checks : Schema
age_checks =
    schema
      (check_and
        (properties_check (
          named (codes "age") (check_and (required_check true) (check_and (type_check 4) no_checks))
            no_properties))
        no_checks)
      1

abbrev aged : QJsonObject
aged = field (codes "age") (num 7) no_fields

abbrev named_only : QJsonObject
named_only = field (codes "name") (str (codes "Ada")) no_fields

age_compiled : compile (checks_of calls no_load age_schema) fresh ≡ some (age_checks, fresh)
unfolding checks_of str_eq
age_compiled = refl

age_checked : (check_schema calls age_checks (root_map aged) start).0 ≡ true
unfolding check_schema str_eq value
age_checked = refl

name_refused : conforms calls age_checks (root_map named_only) ≡ false
unfolding conforms str_eq
name_refused = refl

-- A type of two names does not accept null, although one of them is null.
null_of_two :
    check_type calls
      (type_mask calls (arr (item (str (codes "null")) (item (str (codes "string")) no_items))))
      (list_item 0 (null ∷ []))
    ≡ false
unfolding check_type type_mask
null_of_two = refl

-- A format whose name is not in lower case is checked as date-time where it means time.
time_of_day : check_format calls (codes "Time") (codes "10:30:00") ≡ false
unfolding check_format str_eq
time_of_day = refl

abbrev is_refused : Option (QJsonObject × SchemaMap) → Bool
is_refused none = false
is_refused (some (e, later)) = not (is_empty_object e)

abbrev then_again : QString → QJsonObject → Option (QJsonObject × SchemaMap) → Bool
unfolding validate
then_again name o none = false
then_again name o (some (e, later)) = is_refused (validate calls 3 later name o)

abbrev guests : SchemaMap
guests = (codes "Guest", (guest_schema, schema no_checks 0)) ∷ []

-- A reference to an unknown schema is an error when the schema is compiled, and none later.
unknown_once : is_refused (validate calls 3 guests (codes "Guest") aged) ≡ true
unfolding validate str_eq insert put str_lt
unknown_once = refl

unknown_later :
    then_again (codes "Guest") aged (validate calls 3 guests (codes "Guest") aged) ≡ false
unfolding validate str_eq then_again insert put str_lt
unknown_later = refl

-- {"properties": {"address": {"properties": {"city": {"required": true}}}}}
abbrev nested_schema : QJsonObject
nested_schema =
    field (codes "properties")
      (obj (
        field (codes "address")
          (obj (
            field (codes "properties")
              (obj (
                field (codes "city") (obj (field (codes "required") (bool true) no_fields))
                  no_fields))
              no_fields))
          no_fields))
      no_fields

abbrev nested : SchemaMap
nested = (codes "Nested", (nested_schema, schema no_checks 0)) ∷ []

-- An object without an address is refused for the city that an address would need.
city_without_address : is_refused (validate calls 1 nested (codes "Nested") named_only) ≡ true
unfolding validate str_eq insert put str_lt
city_without_address = refl

check_schema-error_example :
    is_empty_object (check_schema calls age_checks (root_map named_only) start).1.error
    ≡ (is_empty_object start.error && conforms calls age_checks (root_map named_only))
check_schema-error_example = check_schema-error calls age_checks (root_map named_only) start

abbrev compiled : SchemaMap
compiled =
    (codes "Person", (age_schema, age_checks))
    ∷ (codes "Guest", (guest_schema, schema no_checks 0))
    ∷ []

person_known : contains_schema schemas (codes "Person") ≡ true
unfolding contains_schema str_eq
person_known = refl

first_answer : validate calls 1 schemas (codes "Person") aged ≡ some (no_fields, compiled)
unfolding validate str_eq value
first_answer = refl

person_valid : is_valid (pair_of compiled (codes "Person")).1 ≡ true
unfolding is_valid pair_of str_eq
person_valid = refl

validate_again_example :
    (is_empty_object no_fields ≡ true
      → conforms calls (pair_of compiled (codes "Person")).1 (root_map aged) ≡ true)
    × Answers calls
        (pair_of compiled (codes "Person")).1
        named_only
        compiled
        (validate calls 5 compiled (codes "Person") named_only)
validate_again_example =
    validate_again calls 1 5 schemas compiled (codes "Person") aged named_only no_fields
      person_known first_answer person_valid

aged-IsUnique : IsUnique (root_map aged)
unfolding has_unique_keys held contains
aged-IsUnique = refl

age_accepted : (run_checks calls (checks age_checks) (root_map aged) start).0 ≡ true
unfolding check_schema str_eq value
age_accepted = refl

required_count-le-max_example :
    (run_checks calls (checks age_checks) (root_map aged) start).1.required_count
    ≤ max_of age_checks
required_count-le-max_example =
    required_count-le-max calls no_load age_schema fresh fresh age_checks (root_map aged) start
      age_compiled aged-IsUnique refl age_accepted

named-IsUnique : IsUnique (root_map named_only)
unfolding has_unique_keys held contains
named-IsUnique = refl

age_required : 0 < required_below (checks age_checks) (codes "age")
unfolding required_below str_eq
age_required = omega arith

no_age : contains (to_map (root_map named_only)).0 (codes "age") ≡ false
unfolding contains to_map str_eq
no_age = refl

missing_required_example : (check_schema calls age_checks (root_map named_only) start).0 ≡ false
missing_required_example =
    missing_required calls no_load age_schema fresh fresh age_checks (codes "age")
      (root_map named_only) start age_compiled named-IsUnique age_required no_age

abbrev rank : QString → ℕ
rank n = if str_eq (codes "Guest") n then 1 else 0

abbrev IsRanked : QString → Type 0
IsRanked n = loads_fields calls (λ m. ltb (rank m) (rank n)) (schema_value schemas n) ≡ true

person-IsRanked : IsRanked (codes "Person")
unfolding loads_fields schema_value str_eq
person-IsRanked = refl

guest-IsRanked : IsRanked (codes "Guest")
unfolding loads_fields schema_value str_eq
guest-IsRanked = refl

other-IsRanked :
    (n : QString)
    → str_eq (codes "Person") n ≡ false
    → str_eq (codes "Guest") n ≡ false
    → IsRanked n
unfolding loads_fields schema_value str_eq
other-IsRanked n h k = rw (h, k) refl

schemas-IsRanked : (n : QString) → IsRanked n
schemas-IsRanked n = elim (Bool-cases (str_eq (codes "Person") n)) [
  | inl e ↦ subst IsRanked ((str_eq_iff (codes "Person") n).0 e) person-IsRanked
  | inr e ↦ elim (Bool-cases (str_eq (codes "Guest") n)) [
    | inl f ↦ subst IsRanked ((str_eq_iff (codes "Guest") n).0 f) guest-IsRanked
    | inr f ↦ other-IsRanked n e f
  ]
]

validate_ends_example : Answered schemas (validate calls 1 schemas (codes "Guest") aged)
validate_ends_example =
    validate_ends calls 1 schemas rank (codes "Guest") aged schemas-IsRanked
      (unfold str_eq in omega arith)

check_type_single_run :
    check_type calls (type_mask calls (str (codes "integer"))) (list_item 0 (num 7 ∷ []))
    ≡ is_of calls an_integer (held (list_item 0 (num 7 ∷ [])))
unfolding is_root
check_type_single_run =
    check_type_single calls an_integer (codes "integer") (list_item 0 (num 7 ∷ [])) refl refl

keyword_of-eq-named_keyword_run :
    keyword_of (codes "required") ≡ named_keyword switch_cases (codes "required")
keyword_of-eq-named_keyword_run = keyword_of-eq-named_keyword (codes "required")

-- ===== src/Schema/Check.antt =====
-- src/partition/jsondbschema_p.h and jsondbcheckpoints_p.h: a schema checks a value. A check that
-- fails ends the checks and sets the error of the service.
pub mod Meaning
pub mod Result
pub mod Errors
use qtjsondb.Prelude.{
  ℕ, suc, zero, Bool, true, false, ◌&&◌, ◌||◌, List, [], ◌∷◌, length, map, ℤ, pos, negsuc, leb,
  ◌==◌, if◌then◌else◌,
}
use qtjsondb.Qt.Text.{QString, codes, str_eq}
use qtjsondb.Qt.Json.{Value, QJsonArray, QJsonObject}
use qtjsondb.Qt.Calls.{QRegExp}
use qtjsondb.Schema.Handle.{
  SchemaCalls, Handle, list_item, property, to_double, to_items, to_text, to_map, property_names,
}
use qtjsondb.Schema.Types.{check_type}
use qtjsondb.Schema.Format.{check_format}
use qtjsondb.Schema.Compile.{
  Check, null_check, type_check, properties_check, items_check, required_check, minimum_check,
  maximum_check, exclusive_minimum_check, exclusive_maximum_check, min_items_check, max_items_check,
  min_length_check, max_length_check, pattern_check, format_check, extends_check, ref_check, Checks,
  no_checks, check_and, Properties, no_properties, named, Schema, schema, Schemas, no_schemas,
  schema_and, with_error,
}

-- The error of the service, and m_requiredCount of the schema that is checked.
pub record Checking : Type 0 where
  pub error : QJsonObject
  pub required_count : ℕ

abbrev pub Run : Type 0
Run = Checking → Bool × Checking

-- The next action runs where the first one says true.
abbrev pub and_next : Bool × Checking → Run → Bool × Checking
and_next (true, s) next = next s
and_next (false, s) next = (false, s)

unfoldable pub each_of {ℓ} : {A : Type ℓ} → (A → Run) → List A → Run
each_of run [] s = (true, s)
each_of run (x ∷ xs) s = and_next (run x s) (each_of run xs)

-- The items of an array, as handles from an index on.
unfoldable pub items_from : QJsonArray → ℕ → List Value → List Handle
items_from array i [] = []
items_from array i (v ∷ vs) = list_item i array ∷ items_from array (suc i) vs

-- An int compared with the size of a list or a text.
unfoldable pub int_le : ℤ → ℕ → Bool
int_le (pos m) n = leb m n
int_le (negsuc m) n = true

unfoldable pub le_int : ℕ → ℤ → Bool
le_int n (pos m) = leb n m
le_int n (negsuc m) = false

unfoldable pub pattern_regexp : QString → QRegExp
pattern_regexp p = record { pattern = p; is_wildcard = false; ignores_case = false }

-- m_errorMessage
unfoldable pub message : Check → QString
message null_check = []
message (type_check n) = codes "Type check failed for %1"
message (properties_check ps) = codes "Properties check failed for %1"
message (items_check s) = codes "Items check failed for %1"
message (required_check b) = codes "Check required field"
message (minimum_check d) = codes "Minimum check failed for %1"
message (maximum_check d) = codes "Maximum check failed for %1"
message (exclusive_minimum_check d) = codes "Exclusive minimum check failed for %1"
message (exclusive_maximum_check d) = codes "Exclusive minimum check failed for %1"
message (min_items_check i) = codes "Minimum item count check failed for %1"
message (max_items_check i) = codes "Maximum item count check failed for %1"
message (min_length_check i) = codes "Minimal string length check failed for %1"
message (max_length_check i) = codes "Maximal string length check failed for %1"
message (pattern_check p) = codes "Pattern check failed for %1"
message (format_check f) = codes "String format check failed for %1"
message (extends_check ss) = codes "Extends check failed for %1"
message (ref_check s) = codes "$Ref check failed for %1"

abbrev pub outside : ℕ → Bool × Checking → Bool × Checking
outside count (ok, s) = (ok, record s { required_count = count })

module _ (c : SchemaCalls) where
  -- Check::check, after doCheck
  unfoldable pub report : Check → Handle → Bool × Checking → Bool × Checking
  unfolding with_error message to_text
  report check v (true, s) = (true, s)
  report check v (false, s) =
      let text = c.arg (message check) (to_text v).0 in
      (
        false,
        record s {
          error = with_error c s.error (c.arg (codes "Schema validation error: %1") text);
        },
      )

  -- The end of SchemaPrivate::check, after its checks.
  unfoldable pub compare_counts : ℕ → Bool × Checking → Bool × Checking
  unfolding with_error
  compare_counts max (false, s) = (false, s)
  compare_counts max (true, s) = if s.required_count == max then (true, s) else (
    false,
    record s {
      error = with_error c s.error (codes "Schema validation error: Required field is missing");
    },
  )

  unfoldable pub at_least : Handle → ℕ → Bool
  unfolding to_double
  at_least v d = let (x, ok) = to_double c v in (c.qt.double_lt d x || c.qt.double_eq d x) && ok

  unfoldable pub at_most : Handle → ℕ → Bool
  unfolding to_double
  at_most v d = let (x, ok) = to_double c v in (c.qt.double_lt x d || c.qt.double_eq x d) && ok

  unfoldable pub more_than : Handle → ℕ → Bool
  unfolding to_double
  more_than v d = let (x, ok) = to_double c v in c.qt.double_lt d x && ok

  unfoldable pub less_than_max : Handle → ℕ → Bool
  unfolding to_double
  less_than_max v d = let (x, ok) = to_double c v in c.qt.double_lt x d && ok

  abbrev unless_text : Bool → QString × Bool → (QString → Bool) → Bool
  unless_text otherwise (s, true) test = test s
  unless_text otherwise (s, false) test = otherwise

  -- doCheck of the checks that change no state.
  unfoldable pub accepts : Check → Handle → Bool
  unfolding check_type check_format at_least at_most more_than less_than_max to_items to_text int_le
      le_int pattern_regexp
  accepts (type_check mask) v = check_type c mask v
  accepts (minimum_check d) v = at_least v d
  accepts (maximum_check d) v = at_most v d
  accepts (exclusive_minimum_check d) v = more_than v d
  accepts (exclusive_maximum_check d) v = less_than_max v d
  accepts (min_items_check m) v = let (array, ok) = to_items v in int_le m (length array) && ok
  accepts (max_items_check m) v = let (array, ok) = to_items v in le_int (length array) m && ok
  accepts (min_length_check m) v = unless_text true (to_text v) (λ s. int_le m (length s))
  accepts (max_length_check m) v = unless_text true (to_text v) (λ s. le_int (length s) m)
  accepts (pattern_check p) v =
      unless_text true (to_text v) (λ s. c.qt.exact_match (pattern_regexp p) s)
  accepts (format_check f) v = unless_text false (to_text v) (λ s. check_format c f s)
  accepts _ v = true

  unfoldable mutual
    unfolding report compare_counts accepts each_of items_from property property_names to_map
        to_items

    -- doCheck, which Check::check calls before `report`
    pub do_check : Check → Handle → Run
    do_check (properties_check ps) v s =
        let (object, ok) = to_map v in
        if ok
        then each_of (λ key t. check_property ps key (property key object) t)
            (property_names object) s
        else (false, s)
    do_check (items_check inner) v s =
        let (array, ok) = to_items v in
        if ok
        then each_of (λ h t. check_schema inner h t) (items_from array 0 array) s
        else (false, s)
    do_check (required_check true) v s = (true, record s { required_count = suc s.required_count })
    do_check (extends_check ss) v s = check_all ss v s
    do_check (ref_check inner) v s = check_schema inner v s
    do_check check v s = (accepts check v, s)

    pub run_checks : Checks → Handle → Run
    run_checks no_checks v s = (true, s)
    run_checks (check_and check cs) v s =
        and_next (report check v (do_check check v s)) (run_checks cs v)

    -- The checks of the property with this name.
    pub check_property : Properties → QString → Handle → Run
    check_property no_properties key v s = (true, s)
    check_property (named name cs ps) key v s =
        let rest = check_property ps key v s in if str_eq name key then run_checks cs v s else rest

    -- SchemaPrivate::check, with a count of its own.
    pub check_schema : Schema → Handle → Run
    check_schema (schema cs max) v s =
        outside s.required_count
          (compare_counts max (run_checks cs v (record s { required_count = zero })))

    pub check_all : Schemas → Handle → Run
    check_all no_schemas v s = (true, s)
    check_all (schema_and inner ss) v s = and_next (check_schema inner v s) (check_all ss v)

-- ===== src/Schema/Required/Counted.antt =====
-- src/partition/jsondbcheckpoints_p.h: m_maxRequired is the number of the required checks.
use qtjsondb.Prelude.{
  ◌≡◌, refl, subst, Bool, true, false, Option, none, some, arith, is_empty, if◌then◌else◌,
}
use qtjsondb.Qt.Text.{QString}
use qtjsondb.Qt.Json.{
  to_string, Value, str, arr, obj, Items, no_items, item, Fields, no_fields, field,
}
use qtjsondb.Schema.Handle.{SchemaCalls}
use qtjsondb.Schema.Keyword.{
  Keyword, required_key, maximum_key, exclusive_maximum_key, minimum_key, exclusive_minimum_key,
  properties_key, description_key, title_key, max_items_key, min_items_key, items_key, extends_key,
  pattern_key, min_length_key, max_length_key, ref_key, type_key, format_key, null_key, keyword_of,
}
use qtjsondb.Schema.Compile.{
  Check, properties_check, items_check, extends_check, Checks, check_and, named, Schema, max_of,
  no_schemas, schema_and, checks, Service, Compiling, Compile, ◌>>=◌, done, in_service, compile,
  is_valid, load_schema, report_unknown, is_required, count_required, create_check, checks_of,
  property_checks, properties_of, item_schema, schemas_of,
}
use qtjsondb.Schema.Required.{required_in, required_checks, required_properties}
use qtjsondb.Schema.Required.Adds.{
  Adds, nothing, IsCounted, and_then-Adds, map-Adds, pair-Adds, own_count-Adds, own_count-IsCounted,
  either-Adds, chosen-Adds,
}

module _ (c : SchemaCalls) (load : QString → Service → Option (Schema × Service)) where
  in_service-Adds :
      (r : Option (Schema × Service)) (s : Compiling) → Adds nothing s (in_service c load r s)
  in_service-Adds none s = tt
  in_service-Adds (some (loaded, service)) s = omega arith

  load_schema-Adds : (name : QString) (s : Compiling) → Adds nothing s (load_schema c load name s)
  unfolding load_schema
  load_schema-Adds name s = in_service-Adds (load name s.service) s

  report_unknown-Adds :
      (name : QString) (loaded : Schema) (s : Compiling)
      → Adds required_in s (report_unknown c load name loaded s)
  unfolding report_unknown required_in
  report_unknown-Adds name loaded s =
      either-Adds required_in s (is_valid loaded) _ _ (omega arith) (omega arith)

  count_required-Adds : (b : Bool) (s : Compiling) → Adds required_in s (count_required c load b s)
  unfolding count_required required_in
  count_required-Adds true s = omega arith
  count_required-Adds false s = omega arith

  -- A check that holds schemas of their own adds nothing.
  nested-Adds :
      {A : Type 0} (m : Compile A) (k : A → Check) (s : Compiling)
      → Adds nothing s (m s)
      → ((a : A) → required_in (k a) ≡ 0)
      → Adds required_in s ((m >>= λ a. done (k a)) s)
  nested-Adds m k s p e = map-Adds nothing required_in k s (m s) p e

  compile-Adds : (m : Compile Checks) (s : Compiling) → Adds nothing s (compile m s)
  unfolding compile
  compile-Adds m s = own_count-Adds 0 s (m (record s { max_required = 0 }))

  mutual
    unfolding create_check checks_of property_checks properties_of item_schema schemas_of
        required_in required_checks required_properties

    create_check-Adds :
        (keyword : Keyword) (v : Value) (s : Compiling)
        → Adds required_in s (create_check c load keyword v s)
    create_check-Adds required_key v s = count_required-Adds (is_required c load v) s
    create_check-Adds maximum_key v s = omega arith
    create_check-Adds exclusive_maximum_key v s = omega arith
    create_check-Adds minimum_key v s = omega arith
    create_check-Adds exclusive_minimum_key v s = omega arith
    create_check-Adds properties_key (obj fs) s =
        map-Adds required_properties required_in properties_check s
          (properties_of c load (checks_of c load fs) fs s)
          (properties_of-Adds fs (checks_of c load fs) (λ t. checks_of-Adds fs t) s) (λ ps. refl)
    create_check-Adds properties_key v s = omega arith
    create_check-Adds description_key v s = omega arith
    create_check-Adds title_key v s = omega arith
    create_check-Adds max_items_key v s = omega arith
    create_check-Adds min_items_key v s = omega arith
    create_check-Adds items_key (obj fs) s =
        nested-Adds (compile (checks_of c load fs)) items_check s
          (compile-Adds (checks_of c load fs) s) (λ a. refl)
    create_check-Adds items_key v s = omega arith
    create_check-Adds extends_key (obj fs) s =
        nested-Adds (compile (checks_of c load fs)) (λ a. extends_check (schema_and a no_schemas)) s
          (compile-Adds (checks_of c load fs) s) (λ a. refl)
    create_check-Adds extends_key (str name) s =
        nested-Adds (load_schema c load name) (λ a. extends_check (schema_and a no_schemas)) s
          (load_schema-Adds name s) (λ a. refl)
    create_check-Adds extends_key (arr xs) s =
        nested-Adds (schemas_of c load xs) extends_check s (schemas_of-Adds xs s) (λ a. refl)
    create_check-Adds extends_key v s = omega arith
    create_check-Adds pattern_key v s = omega arith
    create_check-Adds min_length_key v s = omega arith
    create_check-Adds max_length_key v s = omega arith
    create_check-Adds ref_key v s =
        and_then-Adds nothing (λ a. required_in) required_in (load_schema c load (to_string v) s)
          (report_unknown c load (to_string v)) s (load_schema-Adds (to_string v) s)
          (λ a t. report_unknown-Adds (to_string v) a t) (λ a b. omega arith)
    create_check-Adds type_key v s = omega arith
    create_check-Adds format_key v s = omega arith
    create_check-Adds null_key v s = omega arith

    checks_of-Adds : (fs : Fields) (s : Compiling) → Adds required_checks s (checks_of c load fs s)
    checks_of-Adds no_fields s = omega arith
    checks_of-Adds (field key v fs) s =
        pair-Adds required_in required_checks required_checks check_and s
          (create_check c load (keyword_of (c.to_lower key)) v s) (checks_of c load fs)
          (create_check-Adds (keyword_of (c.to_lower key)) v s) (λ t. checks_of-Adds fs t)
          (λ a b. refl)

    property_checks-Adds :
        (v : Value) (s : Compiling) → Adds required_checks s (property_checks c load v s)
    property_checks-Adds (obj fs) s = checks_of-Adds fs s
    property_checks-Adds v s = omega arith

    properties_of-Adds :
        (fs : Fields) (whole : Compile Checks)
        → ((s : Compiling) → Adds required_checks s (whole s))
        → (s : Compiling) → Adds required_properties s (properties_of c load whole fs s)
    properties_of-Adds no_fields whole h s = omega arith
    properties_of-Adds (field name v fs) whole h s =
        pair-Adds required_checks required_properties required_properties (named name) s
          ((if is_empty name then whole else property_checks c load v) s)
          (properties_of c load whole fs)
          (chosen-Adds (is_empty name) whole (property_checks c load v) h
            (λ t. property_checks-Adds v t) s)
          (λ t. properties_of-Adds fs whole h t) (λ a b. refl)

    item_schema-Adds : (v : Value) (s : Compiling) → Adds nothing s (item_schema c load v s)
    item_schema-Adds (obj fs) s = compile-Adds (checks_of c load fs) s
    item_schema-Adds v s = omega arith

    schemas_of-Adds : (xs : Items) (s : Compiling) → Adds nothing s (schemas_of c load xs s)
    schemas_of-Adds no_items s = omega arith
    schemas_of-Adds (item v xs) s =
        pair-Adds nothing nothing nothing schema_and s (item_schema c load v s)
          (schemas_of c load xs) (item_schema-Adds v s) (λ t. schemas_of-Adds xs t) (λ a b. refl)

  -- Compiling a schema leaves its number of required checks in m_maxRequired, and does not
  -- change that of the schema around it.
  pub compile-IsCounted :
      (fs : Fields) (s t : Compiling) (inner : Schema)
      → compile (checks_of c load fs) s ≡ some (inner, t)
      → (max_of inner ≡ required_checks (checks inner)) × (t.max_required ≡ s.max_required)
  unfolding compile
  compile-IsCounted fs s t inner h =
      let r = checks_of c load fs (record s { max_required = 0 }) in
      subst (IsCounted s.max_required) h (
        own_count-IsCounted s.max_required (record s { max_required = 0 }) r
          (checks_of-Adds fs (record s { max_required = 0 })))

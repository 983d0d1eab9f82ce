-- ===== src/Schema/Compile/Ends.antt =====
-- src/partition/jsondbcheckpoints_p.h: the constructors of the checks come to an end where each schema that
-- they load is loaded.
use qtjsondb.Prelude.{
  ℕ, ◌≡◌, Bool, true, false, ◌&&◌, Option, none, some, arith, is_empty, if◌then◌else◌,
}
use qtjsondb.Qt.Text.{QString}
use qtjsondb.Qt.Json.{
  to_string, QJsonObject, Value, str, arr, obj, Items, no_items, item, Fields, no_fields, field,
}
use qtjsondb.Schema.Handle.{SchemaCalls}
use qtjsondb.Schema.Keyword.{
  Keyword, required_key, maximum_key, exclusive_maximum_key, minimum_key, exclusive_minimum_key,
  properties_key, description_key, title_key, max_items_key, min_items_key, items_key, extends_key,
  pattern_key, min_length_key, max_length_key, ref_key, type_key, format_key, null_key, keyword_of,
}
use qtjsondb.Schema.Compile.{
  Checks, Schema, Service, Compiling, Compile, and_then, own_count, in_service, compile, is_valid,
  load_schema, report_unknown, is_required, count_required, create_check, checks_of,
  property_checks, properties_of, item_schema, schemas_of,
}
use qtjsondb.Schema.Compile.Loads.{loads, loads_fields, loads_value, loads_properties, loads_items}

-- A step comes to an end, and keeps what holds of the service.
abbrev pub Ends : (Service → Type 0) → {A : Type 0} → Option (A × Compiling) → Type 0
Ends Inv none = ⊥
Ends Inv (some (a, s)) = Inv s.service

and_then-Ends :
    (Inv : Service → Type 0) {A B : Type 0} (r : Option (A × Compiling)) (k : A → Compile B)
    → Ends Inv r
    → ((a : A) (s : Compiling) → Inv s.service → Ends Inv (k a s))
    → Ends Inv (and_then r k)
and_then-Ends Inv none k h g = absurd h
and_then-Ends Inv (some (a, s)) k h g = g a s h

own_count-Ends :
    (Inv : Service → Type 0) (outer : ℕ) (r : Option (Checks × Compiling))
    → Ends Inv r
    → Ends Inv (own_count outer r)
own_count-Ends Inv outer none h = h
own_count-Ends Inv outer (some (cs, s)) h = h

either-Ends :
    (Inv : Service → Type 0) {A : Type 0} (b : Bool) (r r' : Option (A × Compiling))
    → Ends Inv r
    → Ends Inv r'
    → Ends Inv (if b then r else r')
either-Ends Inv true r r' h k = h
either-Ends Inv false r r' h k = k

-- The same of a schema that is loaded.
abbrev pub Loads : (Service → Type 0) → Option (Schema × Service) → Type 0
Loads Inv none = ⊥
Loads Inv (some (s, service)) = Inv service

and_true : (a b : Bool) → (a && b) ≡ true → (a ≡ true) × (b ≡ true)
and_true a b h = ground arith

module _ (c : SchemaCalls) (load : QString → Service → Option (Schema × Service))
    (p : QString → Bool) (Inv : Service → Type 0)
    (keeps_error : (s : Service) (e : QJsonObject) → Inv s → Inv (record s { error = e }))
    (load-Loads : (name : QString) (s : Service)
      → p name ≡ true
      → Inv s
      → Loads Inv (load name s)) where
  in_service-Ends :
      (r : Option (Schema × Service)) (s : Compiling)
      → Loads Inv r
      → Ends Inv (in_service c load r s)
  in_service-Ends none s h = h
  in_service-Ends (some (loaded, service)) s h = h

  load_schema-Ends :
      (name : QString) (s : Compiling)
      → p name ≡ true
      → Inv s.service
      → Ends Inv (load_schema c load name s)
  unfolding load_schema
  load_schema-Ends name s h i =
      in_service-Ends (load name s.service) s (load-Loads name s.service h i)

  report_unknown-Ends :
      (name : QString) (loaded : Schema) (s : Compiling)
      → Inv s.service
      → Ends Inv (report_unknown c load name loaded s)
  unfolding report_unknown
  report_unknown-Ends name loaded s i =
      either-Ends Inv (is_valid loaded) _ _ i (keeps_error s.service _ i)

  count_required-Ends :
      (b : Bool) (s : Compiling) → Inv s.service → Ends Inv (count_required c load b s)
  unfolding count_required
  count_required-Ends true s i = i
  count_required-Ends false s i = i

  pub compile-Ends :
      (m : Compile Checks) (s : Compiling)
      → Ends Inv (m (record s { max_required = 0 }))
      → Ends Inv (compile m s)
  unfolding compile
  compile-Ends m s h = own_count-Ends Inv s.max_required (m (record s { max_required = 0 })) h

  chosen-Ends :
      (b d e : Bool) (m m' : Compile Checks) (s : Compiling)
      → (if b then d else e) ≡ true
      → (d ≡ true → Ends Inv (m s))
      → (e ≡ true → Ends Inv (m' s))
      → Ends Inv ((if b then m else m') s)
  chosen-Ends true d e m m' s h f g = f h
  chosen-Ends false d e m m' s h f g = g h

  mutual
    unfolding create_check checks_of property_checks properties_of item_schema schemas_of loads
        loads_fields loads_value loads_properties loads_items

    create_check-Ends :
        (keyword : Keyword) (v : Value) (s : Compiling)
        → loads c p keyword v ≡ true
        → Inv s.service
        → Ends Inv (create_check c load keyword v s)
    create_check-Ends required_key v s h i = count_required-Ends (is_required c load v) s i
    create_check-Ends maximum_key v s h i = i
    create_check-Ends exclusive_maximum_key v s h i = i
    create_check-Ends minimum_key v s h i = i
    create_check-Ends exclusive_minimum_key v s h i = i
    create_check-Ends properties_key (obj fs) s h i =
        and_then-Ends Inv (properties_of c load (checks_of c load fs) fs s) _
          (properties_of-Ends fs (loads_fields c p fs) (checks_of c load fs)
            (λ e t j. checks_of-Ends fs t e j) s h i)
          (λ ps t j. j)
    create_check-Ends properties_key v s h i = i
    create_check-Ends description_key v s h i = i
    create_check-Ends title_key v s h i = i
    create_check-Ends max_items_key v s h i = i
    create_check-Ends min_items_key v s h i = i
    create_check-Ends items_key (obj fs) s h i =
        and_then-Ends Inv (compile (checks_of c load fs) s) _
          (compile-Ends (checks_of c load fs) s (checks_of-Ends fs _ h i)) (λ a t j. j)
    create_check-Ends items_key v s h i = i
    create_check-Ends extends_key (obj fs) s h i =
        and_then-Ends Inv (compile (checks_of c load fs) s) _
          (compile-Ends (checks_of c load fs) s (checks_of-Ends fs _ h i)) (λ a t j. j)
    create_check-Ends extends_key (str name) s h i =
        and_then-Ends Inv (load_schema c load name s) _ (load_schema-Ends name s h i) (λ a t j. j)
    create_check-Ends extends_key (arr xs) s h i =
        and_then-Ends Inv (schemas_of c load xs s) _ (schemas_of-Ends xs s h i) (λ a t j. j)
    create_check-Ends extends_key v s h i = i
    create_check-Ends pattern_key v s h i = i
    create_check-Ends min_length_key v s h i = i
    create_check-Ends max_length_key v s h i = i
    create_check-Ends ref_key v s h i =
        and_then-Ends Inv (load_schema c load (to_string v) s) _
          (load_schema-Ends (to_string v) s h i) (λ a t j. report_unknown-Ends (to_string v) a t j)
    create_check-Ends type_key v s h i = i
    create_check-Ends format_key v s h i = i
    create_check-Ends null_key v s h i = i

    pub checks_of-Ends :
        (fs : Fields) (s : Compiling)
        → loads_fields c p fs ≡ true
        → Inv s.service
        → Ends Inv (checks_of c load fs s)
    checks_of-Ends no_fields s h i = i
    checks_of-Ends (field key v fs) s h i =
        let keyword = keyword_of (c.to_lower key) in
        let both = and_true (loads c p keyword v) (loads_fields c p fs) h in
        and_then-Ends Inv (create_check c load keyword v s) _
          (create_check-Ends keyword v s both.0 i)
          (λ a t j.
            and_then-Ends Inv (checks_of c load fs t) _ (checks_of-Ends fs t both.1 j) (λ b u k. k))

    property_checks-Ends :
        (v : Value) (s : Compiling)
        → loads_value c p v ≡ true
        → Inv s.service
        → Ends Inv (property_checks c load v s)
    property_checks-Ends (obj fs) s h i = checks_of-Ends fs s h i
    property_checks-Ends v s h i = i

    properties_of-Ends :
        (fs : Fields) (w : Bool) (whole : Compile Checks)
        → (w ≡ true → (s : Compiling) → Inv s.service → Ends Inv (whole s))
        → (s : Compiling) → loads_properties c p w fs ≡ true
        → Inv s.service
        → Ends Inv (properties_of c load whole fs s)
    properties_of-Ends no_fields w whole g s h i = i
    properties_of-Ends (field name v fs) w whole g s h i =
        let both =
          and_true (if is_empty name then w else loads_value c p v) (loads_properties c p w fs) h in
        and_then-Ends Inv ((if is_empty name then whole else property_checks c load v) s) _
          (chosen-Ends (is_empty name) w (loads_value c p v) whole (property_checks c load v) s
            both.0 (λ e. g e s i) (λ e. property_checks-Ends v s e i))
          (λ a t j.
            and_then-Ends Inv (properties_of c load whole fs t) _
              (properties_of-Ends fs w whole g t both.1 j) (λ b u k. k))

    item_schema-Ends :
        (v : Value) (s : Compiling)
        → loads_value c p v ≡ true
        → Inv s.service
        → Ends Inv (item_schema c load v s)
    item_schema-Ends (obj fs) s h i = compile-Ends (checks_of c load fs) s (checks_of-Ends fs _ h i)
    item_schema-Ends v s h i = i

    schemas_of-Ends :
        (xs : Items) (s : Compiling)
        → loads_items c p xs ≡ true
        → Inv s.service
        → Ends Inv (schemas_of c load xs s)
    schemas_of-Ends no_items s h i = i
    schemas_of-Ends (item v xs) s h i =
        let both = and_true (loads_value c p v) (loads_items c p xs) h in
        and_then-Ends Inv (item_schema c load v s) _ (item_schema-Ends v s both.0 i) (λ a t j.
          and_then-Ends Inv (schemas_of c load xs t) _ (schemas_of-Ends xs t both.1 j) (λ b u k. k))

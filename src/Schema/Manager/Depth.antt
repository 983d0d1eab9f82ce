-- ===== src/Schema/Manager/Depth.antt =====
-- src/partition/jsondbschemamanager_impl_p.h: schemas that load one another without a cycle are
-- compiled, and the schemas as they were inserted stay.
use qtjsondb.Prelude.{
  ℕ, zero, suc, ◌≤◌, ◌<◌, ◌≡◌, refl, ap, sym, ◌∙◌, subst, Bool, true, false, [], ◌∷◌, Option, none,
  some, arith, if◌then◌else◌, ltb,
}
use qtjsondb.Qt.Text.{QString, str_eq, str_eq_iff}
use qtjsondb.Qt.Json.{QJsonObject, no_fields}
use qtjsondb.Schema.Handle.{SchemaCalls}
use qtjsondb.Schema.Compile.{Schema, Service, Compiling, compile, checks_of, is_valid}
use qtjsondb.Schema.Compile.Loads.{loads_fields}
use qtjsondb.Schema.Compile.Ends.{Ends, Loads, checks_of-Ends, compile-Ends}
use qtjsondb.Schema.Manager.{
  SchemaMap, SchemaPair, contains_schema, pair_of, set_pair, schema_value, ensure_compiled,
  compiled_pair, second, get_schema, checked, validate,
}

pair_of-set_pair_any :
    (schemas : SchemaMap) (name n : QString) (p : SchemaPair)
    → pair_of (set_pair schemas name p) n ≡ (if str_eq name n then p else pair_of schemas n)
unfolding pair_of set_pair
pair_of-set_pair_any [] name n p = refl
pair_of-set_pair_any ((m, e) ∷ schemas) name n p = ground (
  arith,
  pair_of-set_pair_any schemas name n p,
  str_eq_iff m name,
  str_eq_iff m n,
  str_eq_iff name n,
)

-- The schemas are those that were inserted.
abbrev pub Holds : (QString → QJsonObject) → Service → Type 0
Holds raw service = (name : QString) → schema_value service.schemas name ≡ raw name

set_pair-Holds :
    (raw : QString → QJsonObject) (schemas : SchemaMap) (name : QString) (s : Schema)
    → ((n : QString) → schema_value schemas n ≡ raw n)
    → (n : QString) → schema_value (set_pair schemas name (raw name, s)) n ≡ raw n
unfolding schema_value
set_pair-Holds raw schemas name s h n =
    let p : SchemaPair = (raw name, s) in
    ap (λ (q : SchemaPair). q.0) (pair_of-set_pair_any schemas name n p)
    ∙ here_or_there (str_eq name n) (λ e. ap raw ((str_eq_iff name n).0 e))
  where
    here_or_there :
        (b : Bool)
        → (b ≡ true → raw name ≡ raw n)
        → (if b then (raw name, s) else pair_of schemas n).0 ≡ raw n
    here_or_there true e = e refl
    here_or_there false e = h n

-- A pair that is found or made.
abbrev Pairs : (QString → QJsonObject) → Option (SchemaPair × Service) → Type 0
Pairs raw none = ⊥
Pairs raw (some (pair, service)) = Holds raw service

module _ (c : SchemaCalls) (raw : QString → QJsonObject) (rank : QString → ℕ)
    (ranked : (name : QString)
      → loads_fields c (λ n. ltb (rank n) (rank name)) (raw name) ≡ true) where
  compiled_pair-Pairs :
      (name : QString) (r : Option (Schema × Compiling))
      → Ends (Holds raw) r
      → Pairs raw (compiled_pair c name (raw name) r)
  unfolding compiled_pair
  compiled_pair-Pairs name none h = h
  compiled_pair-Pairs name (some (s, t)) h = set_pair-Holds raw t.service.schemas name s h

  either-Pairs :
      (b : Bool) (r r' : Option (SchemaPair × Service))
      → Pairs raw r
      → Pairs raw r'
      → Pairs raw (if b then r else r')
  either-Pairs true r r' h k = h
  either-Pairs false r r' h k = k

  ensure_compiled-Pairs :
      (load : QString → Service → Option (Schema × Service)) (name : QString) (service : Service)
      → ((n : QString) (s : Service)
          → ltb (rank n) (rank name) ≡ true
          → Holds raw s
          → Loads (Holds raw) (load n s))
      → Holds raw service
      → Pairs raw (ensure_compiled c load name (pair_of service.schemas name) service)
  unfolding ensure_compiled schema_value
  ensure_compiled-Pairs load name service g h =
      let compiling : Compiling = record { service = service; max_required = 0 } in
      let object = (pair_of service.schemas name).0 in
      either-Pairs (is_valid (pair_of service.schemas name).1) _ _ h (
        subst (λ o. Pairs raw (compiled_pair c name o (compile (checks_of c load o) compiling)))
          (sym (h name))
          (compiled_pair-Pairs name _ (
            compile-Ends c load (λ n. ltb (rank n) (rank name)) (Holds raw) (λ s e k. k) g
              (checks_of c load (raw name)) compiling
              (checks_of-Ends c load (λ n. ltb (rank n) (rank name)) (Holds raw) (λ s e k. k) g
                (raw name) _ (ranked name) h))))

  second-Loads : (r : Option (SchemaPair × Service)) → Pairs raw r → Loads (Holds raw) (second c r)
  second-Loads none h = h
  second-Loads (some (pair, service)) h = h

  get_schema-Loads :
      (fuel : ℕ) (name : QString) (service : Service)
      → rank name < fuel
      → Holds raw service
      → Loads (Holds raw) (get_schema c fuel name service)
  unfolding get_schema
  get_schema-Loads zero name service l h = absurd (omega arith)
  get_schema-Loads (suc fuel) name service l h = second-Loads _ (
      ensure_compiled-Pairs (get_schema c fuel) name service
        (λ n s e k. get_schema-Loads fuel n s (ground (arith, e, l)) k) h)

abbrev pub Answered : SchemaMap → Option (QJsonObject × SchemaMap) → Type 0
Answered schemas answer =
    (e : QJsonObject) × (schemas' : SchemaMap) × (answer ≡ some (e, schemas'))
    × ((n : QString) → schema_value schemas' n ≡ schema_value schemas n)

checked-Answered :
    (c : SchemaCalls) (schemas : SchemaMap) (object : QJsonObject)
    (r : Option (SchemaPair × Service))
    → Pairs (schema_value schemas) r
    → Answered schemas (checked c object r)
unfolding checked
checked-Answered c schemas object none h = absurd h
checked-Answered c schemas object (some (pair, service)) h = (_, service.schemas, refl, h)

either-Answered :
    (schemas : SchemaMap) (b : Bool) (r r' : Option (QJsonObject × SchemaMap))
    → Answered schemas r
    → Answered schemas r'
    → Answered schemas (if b then r else r')
either-Answered schemas true r r' h k = h
either-Answered schemas false r r' h k = k

-- If the schemas have ranks such that each schema loads only schemas of lower rank, then with
-- fuel for the rank of a schema validate answers, and what was inserted under each name is as it
-- was.
pub validate_ends :
    (c : SchemaCalls) (fuel : ℕ) (schemas : SchemaMap) (rank : QString → ℕ) (name : QString)
    (object : QJsonObject)
    → ((n : QString) → loads_fields c (λ m. ltb (rank m) (rank n)) (schema_value schemas n) ≡ true)
    → rank name ≤ fuel
    → Answered schemas (validate c fuel schemas name object)
unfolding validate
validate_ends c fuel schemas rank name object ranked enough =
    let service : Service = record { schemas = schemas; error = no_fields } in
    let raw = schema_value schemas in
    either-Answered schemas (contains_schema schemas name) _ _
      (checked-Answered c schemas object _ (
        ensure_compiled-Pairs c raw rank ranked (get_schema c fuel) name service
          (λ n s less kept.
            get_schema-Loads c raw rank ranked fuel n s (ground (arith, less, enough)) kept)
          (λ n. refl)))
      (no_fields, schemas, refl, λ n. refl)

-- ===== src/Schema/Manager/Validate.antt =====
-- src/partition/jsondbschemamanager_impl_p.h: what validate answers, for the first time and later.
use qtjsondb.Prelude.{
  ℕ, ◌≡◌, refl, sym, ◌∙◌, subst, Bool, true, false, arith, [], ◌∷◌, Option, none, some,
  if◌then◌else◌,
}
use qtjsondb.Qt.Text.{QString, str_eq_refl}
use qtjsondb.Qt.Json.{QJsonObject, no_fields, is_empty_object}
use qtjsondb.Schema.Handle.{SchemaCalls, property, root_map}
use qtjsondb.Schema.Compile.{Schema, is_valid, Service, Compiling}
use qtjsondb.Schema.Check.{Checking, check_schema}
use qtjsondb.Schema.Check.Meaning.{conforms}
use qtjsondb.Schema.Check.Errors.{check_schema-error}
use qtjsondb.Schema.Manager.{
  SchemaMap, SchemaPair, contains_schema, pair_of, set_pair, ensure_compiled, compiled_pair,
  get_schema, checked, validate,
}

pub pair_of-set_pair :
    (schemas : SchemaMap) (name : QString) (p : SchemaPair)
    → (pair_of (set_pair schemas name p) name ≡ p)
      × (contains_schema (set_pair schemas name p) name ≡ true)
unfolding pair_of set_pair contains_schema
pair_of-set_pair [] name p = rw (str_eq_refl name) (refl, refl)
pair_of-set_pair ((n, e) ∷ schemas) name p =
    ground (arith, pair_of-set_pair schemas name p, str_eq_refl name)

module _ (c : SchemaCalls) where
  -- What validate answers, once the schema is compiled to s by a service that has no error.
  abbrev pub Answers : Schema → QJsonObject → SchemaMap → Option (QJsonObject × SchemaMap) → Type 0
  Answers s object schemas answer =
      (e : QJsonObject) × ((answer ≡ some (e, schemas))
        × (is_empty_object e ≡ conforms c s (root_map object)))

  -- If a schema is known and compiled, then validate answers with any fuel, leaves the schemas
  -- as they are, and its error is empty exactly if the object conforms to the compiled schema.
  pub validate_compiled :
      (fuel : ℕ) (schemas : SchemaMap) (name : QString) (object : QJsonObject)
      → contains_schema schemas name ≡ true
      → is_valid (pair_of schemas name).1 ≡ true
      → Answers (pair_of schemas name).1 object schemas (validate c fuel schemas name object)
  unfolding validate ensure_compiled property checked
  validate_compiled fuel schemas name object known valid =
      let s : Checking = record { error = no_fields; required_count = 0 } in
      let inner = (pair_of schemas name).1 in
      rw (known, valid)
        (
          (check_schema c inner (root_map object) s).1.error,
          (refl, check_schema-error c inner (root_map object) s),
        )

  -- The pair is what the manager holds under the name.
  abbrev IsStored : QString → Option (SchemaPair × Service) → Type 0
  IsStored name none = Unit
  IsStored name (some (pair, service)) =
      (pair_of service.schemas name ≡ pair) × (contains_schema service.schemas name ≡ true)

  compiled_pair-IsStored :
      (name : QString) (object : QJsonObject) (r : Option (Schema × Compiling))
      → IsStored name (compiled_pair c name object r)
  unfolding compiled_pair
  compiled_pair-IsStored name object none = tt
  compiled_pair-IsStored name object (some (s, t)) =
      pair_of-set_pair t.service.schemas name (object, s)

  either-IsStored :
      (name : QString) (b : Bool) (r r' : Option (SchemaPair × Service))
      → IsStored name r
      → IsStored name r'
      → IsStored name (if b then r else r')
  either-IsStored name true r r' h k = h
  either-IsStored name false r r' h k = k

  ensure_compiled-IsStored :
      (load : QString → Service → Option (Schema × Service)) (name : QString) (service : Service)
      → contains_schema service.schemas name ≡ true
      → IsStored name (ensure_compiled c load name (pair_of service.schemas name) service)
  unfolding ensure_compiled
  ensure_compiled-IsStored load name service known =
      either-IsStored name (is_valid (pair_of service.schemas name).1) _ _ (refl, known)
        (compiled_pair-IsStored name (pair_of service.schemas name).0 _)

  -- What an answer says of the schema that it leaves in the manager, and of a later answer.
  abbrev pub Settles :
      ℕ → QString → QJsonObject → QJsonObject → Option (QJsonObject × SchemaMap) → Type 0
  Settles fuel name object later none = Unit
  Settles fuel name object later (some (e, schemas)) =
      let s = (pair_of schemas name).1 in
      is_valid s ≡ true
      → (is_empty_object e ≡ true → conforms c s (root_map object) ≡ true)
        × Answers s later schemas (validate c fuel schemas name later)

  checked-Settles :
      (fuel : ℕ) (name : QString) (object later : QJsonObject) (r : Option (SchemaPair × Service))
      → IsStored name r
      → Settles fuel name object later (checked c object r)
  unfolding checked property
  checked-Settles fuel name object later none h = tt
  checked-Settles fuel name object later (some (pair, service)) h = λ valid.
      let s : Checking = record { error = service.error; required_count = 0 } in
      (
        (λ e. ground (
          arith,
          check_schema-error c (pair_of service.schemas name).1 (root_map object) s,
          h.0,
        )),
        validate_compiled fuel service.schemas name later h.1 valid,
      )

  -- Let validate of a known schema answer, and leave it with at least one check. If its error
  -- is empty, the object conforms to the compiled schema. And every later validate of this
  -- schema answers, with any fuel, changes no schema, and gives an empty error exactly if its
  -- object conforms to the compiled schema.
  pub validate_again :
      (fuel fuel' : ℕ) (schemas schemas' : SchemaMap) (name : QString)
      (object later e : QJsonObject)
      → contains_schema schemas name ≡ true
      → validate c fuel schemas name object ≡ some (e, schemas')
      → is_valid (pair_of schemas' name).1 ≡ true
      → let s = (pair_of schemas' name).1 in
        (is_empty_object e ≡ true → conforms c s (root_map object) ≡ true)
        × Answers s later schemas' (validate c fuel' schemas' name later)
  unfolding validate
  validate_again fuel fuel' schemas schemas' name object later e known first valid =
      let service : Service = record { schemas = schemas; error = no_fields } in
      let r = ensure_compiled c (get_schema c fuel) name (pair_of schemas name) service in
      let first' : checked c object r ≡ some (e, schemas') = sym (rw known refl) ∙ first in
      subst (Settles fuel' name object later) first'
        (checked-Settles fuel' name object later r
          (ensure_compiled-IsStored (get_schema c fuel) name service known))
        valid

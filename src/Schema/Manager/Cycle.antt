-- ===== src/Schema/Manager/Cycle.antt =====
-- src/partition/jsondbschemamanager_impl_p.h: a schema whose first check loads the schema itself.
use qtjsondb.Prelude.{ℕ, zero, suc, ◌≡◌, refl, true, false, Option, none}
use qtjsondb.Qt.Text.{QString}
use qtjsondb.Qt.Json.{str, QJsonObject, Fields, field, no_fields}
use qtjsondb.Schema.Handle.{SchemaCalls}
use qtjsondb.Schema.Keyword.{ref_key, keyword_of}
use qtjsondb.Schema.Compile.{Schema, Service, Compiling, is_valid, checks_of, compile, load_schema}
use qtjsondb.Schema.Manager.{
  SchemaMap, contains_schema, pair_of, ensure_compiled, compiled_pair, get_schema, checked,
  validate,
}

module _ (c : SchemaCalls) where
  self_check :
      (load : QString → Service → Option (Schema × Service)) (key name : QString) (rest : Fields)
      (s : Compiling)
      → keyword_of (c.to_lower key) ≡ ref_key
      → load name s.service ≡ none
      → checks_of c load (field key (str name) rest) s ≡ none
  unfolding checks_of load_schema
  self_check load key name rest s k stop = rw (k, stop) refl

  self_compile :
      (load : QString → Service → Option (Schema × Service)) (key name : QString) (rest : Fields)
      (s : Compiling)
      → keyword_of (c.to_lower key) ≡ ref_key
      → load name s.service ≡ none
      → compile (checks_of c load (field key (str name) rest)) s ≡ none
  unfolding compile
  self_compile load key name rest s k stop =
      rw (self_check load key name rest (record s { max_required = 0 }) k stop) refl

  -- ensureCompiled does not return where loading the schema again does not.
  stuck :
      (load : QString → Service → Option (Schema × Service)) (key name : QString) (rest : Fields)
      (inner : Schema) (service : Service)
      → keyword_of (c.to_lower key) ≡ ref_key
      → is_valid inner ≡ false
      → load name service ≡ none
      → ensure_compiled c load name (field key (str name) rest, inner) service ≡ none
  unfolding ensure_compiled compiled_pair
  stuck load key name rest inner service k invalid stop =
      rw
        (
          invalid,
          self_compile load key name rest (record { service = service; max_required = 0 }) k stop,
        )
        refl

  get_schema_stuck :
      (fuel : ℕ) (key name : QString) (rest : Fields) (inner : Schema) (service : Service)
      → keyword_of (c.to_lower key) ≡ ref_key
      → pair_of service.schemas name ≡ (field key (str name) rest, inner)
      → is_valid inner ≡ false
      → get_schema c fuel name service ≡ none
  unfolding get_schema
  get_schema_stuck zero key name rest inner service k o invalid = refl
  get_schema_stuck (suc fuel) key name rest inner service k o invalid =
      rw
        (
          o,
          stuck (get_schema c fuel) key name rest inner service k invalid
              (get_schema_stuck fuel key name rest inner service k o invalid),
        )
        refl

  -- If the first check of a known schema that is not compiled loads the schema itself, then no
  -- fuel is enough for validate.
  pub validate_stuck :
      (fuel : ℕ) (schemas : SchemaMap) (key name : QString) (rest : Fields) (inner : Schema)
      (object : QJsonObject)
      → keyword_of (c.to_lower key) ≡ ref_key
      → contains_schema schemas name ≡ true
      → pair_of schemas name ≡ (field key (str name) rest, inner)
      → is_valid inner ≡ false
      → validate c fuel schemas name object ≡ none
  unfolding validate checked
  validate_stuck fuel schemas key name rest inner object k known o invalid =
      let service : Service = record { schemas = schemas; error = no_fields } in
      rw
        (
          known,
          o,
          stuck (get_schema c fuel) key name rest inner service k invalid
              (get_schema_stuck fuel key name rest inner service k o invalid),
        )
        refl

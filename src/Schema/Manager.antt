-- ===== src/Schema/Manager.antt =====
-- src/partition/jsondbschemamanager_impl_p.h: the schemas by name, which are compiled when they are
-- first asked for. A schema that is loaded while another is compiled is compiled inside it: `fuel`
-- is how deep that goes, and none says that it was not enough.
pub mod Validate
pub mod Depth
pub mod Cycle
use qtjsondb.Prelude.{
  ℕ, suc, zero, Bool, true, false, ◌||◌, List, [], ◌∷◌, Option, none, some, if◌then◌else◌,
}
use qtjsondb.Qt.Text.{QString, str_eq}
use qtjsondb.Qt.Json.{QJsonObject, no_fields}
use qtjsondb.Schema.Handle.{SchemaCalls, property}
use qtjsondb.Schema.Compile.{
  no_checks, Schema, schema, is_valid, Service, Compiling, compile, checks_of,
}
use qtjsondb.Schema.Check.{Checking, check_schema}

-- QJsonObjectSchemaPair, and m_schemas
abbrev pub SchemaPair : Type 0
SchemaPair = QJsonObject × Schema

abbrev pub SchemaMap : Type 0
SchemaMap = List (QString × SchemaPair)

abbrev pub new_pair : SchemaPair
new_pair = (no_fields, schema no_checks 0)

unfoldable pub contains_schema : SchemaMap → QString → Bool
contains_schema [] name = false
contains_schema ((n, pair) ∷ schemas) name = str_eq n name || contains_schema schemas name

-- QMap::value, whose default is an empty object and a schema without checks
unfoldable pub pair_of : SchemaMap → QString → SchemaPair
pair_of [] name = new_pair
pair_of ((n, pair) ∷ schemas) name = if str_eq n name then pair else pair_of schemas name

unfoldable pub set_pair : SchemaMap → QString → SchemaPair → SchemaMap
set_pair [] name pair = (name, pair) ∷ []
set_pair ((n, p) ∷ schemas) name pair =
    let rest = set_pair schemas name pair in
    if str_eq n name then (name, pair) ∷ schemas else (n, p) ∷ rest

unfoldable pub remove_pair : SchemaMap → QString → SchemaMap
remove_pair [] name = []
remove_pair ((n, p) ∷ schemas) name =
    let rest = remove_pair schemas name in if str_eq n name then rest else (n, p) ∷ rest

-- JsonDbSchemaManager::value, take and insert
unfoldable pub schema_value : SchemaMap → QString → QJsonObject
unfolding pair_of
schema_value schemas name = (pair_of schemas name).0

unfoldable pub take_schema : SchemaMap → QString → QJsonObject × SchemaMap
unfolding pair_of remove_pair
take_schema schemas name = ((pair_of schemas name).0, remove_pair schemas name)

unfoldable pub insert_schema : SchemaMap → QString → QJsonObject → SchemaMap
unfolding set_pair
insert_schema schemas name object = set_pair schemas name (object, schema no_checks 0)

module _ (c : SchemaCalls) where
  unfoldable pub compiled_pair :
      QString → QJsonObject → Option (Schema × Compiling) → Option (SchemaPair × Service)
  unfolding set_pair
  compiled_pair name object none = none
  compiled_pair name object (some (compiled, s)) =
      let pair : SchemaPair = (object, compiled) in
      some (pair, record s.service { schemas = set_pair s.service.schemas name pair })

  -- ensureCompiled: a schema without checks is compiled, each time.
  unfoldable pub ensure_compiled :
      (QString → Service → Option (Schema × Service))
      → QString
      → SchemaPair
      → Service
      → Option (SchemaPair × Service)
  unfolding is_valid compile checks_of compiled_pair
  ensure_compiled load name pair service =
      let compiling : Compiling = record { service = service; max_required = 0 } in
      if is_valid pair.1
      then some (pair, service)
      else compiled_pair name pair.0 (compile (checks_of c load pair.0) compiling)

  abbrev pub second : Option (SchemaPair × Service) → Option (Schema × Service)
  second none = none
  second (some (pair, service)) = some (pair.1, service)

  -- JsonDbSchemaManager::schema, which Service::loadSchema calls.
  unfoldable pub get_schema : ℕ → QString → Service → Option (Schema × Service)
  unfolding ensure_compiled pair_of
  get_schema zero name service = none
  get_schema (suc fuel) name service =
      second (ensure_compiled (get_schema fuel) name (pair_of service.schemas name) service)

  unfoldable pub checked :
      QJsonObject → Option (SchemaPair × Service) → Option (QJsonObject × SchemaMap)
  unfolding check_schema property
  checked object none = none
  checked object (some (pair, service)) =
      let s : Checking = record { error = service.error; required_count = 0 } in
      some ((check_schema c pair.1 (property [] object) s).1.error, service.schemas)

  -- JsonDbSchemaManager::validate: the error, which is empty where the object is valid.
  unfoldable pub validate : ℕ → SchemaMap → QString → QJsonObject → Option (QJsonObject × SchemaMap)
  unfolding contains_schema pair_of ensure_compiled get_schema checked
  validate fuel schemas name object =
      let service : Service = record { schemas = schemas; error = no_fields } in
      if contains_schema schemas name
      then checked object (ensure_compiled (get_schema fuel) name (pair_of schemas name) service)
      else some (no_fields, schemas)

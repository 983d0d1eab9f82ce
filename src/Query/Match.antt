-- ===== src/Query/Match.antt =====
-- src/partition/jsondbquery.cpp: JsonDbQuery::match. The cache of joined objects is passed on
-- from call to call; `fetch` is what JsonDbPartition::getObject makes of the object it is handed.
pub mod Plain
use qtjsondb.Prelude.{
  Bool, true, false, ◌&&◌, ◌||◌, List, [], ◌∷◌, Option, none, some, is_empty, if◌then◌else◌, not,
}
use qtjsondb.Qt.Text.{QString, codes, str_eq, starts_with}
use qtjsondb.Qt.Json.{Value, undefined, null, QJsonObject, to_string, to_array, is_string, value}
use qtjsondb.Qt.Calls.{QtCalls}
use qtjsondb.Object.Path.{value_by_keys, value_by_path}
use qtjsondb.Query.Compare.{value_eq, contains_value, less_than, greater_than}
use qtjsondb.Query.Term.{
  JsonDbQueryTerm, JsonDbOrQueryTerm, JsonDbQuery, has_property_name, is_undefined, term_value,
  binding,
}

-- A QHash from uuids to objects; none for a null pointer.
abbrev pub ObjectCache : Type 0
ObjectCache = Option (List (QString × QJsonObject))

abbrev pub Fetch : Type 0
Fetch = Option (QString → QJsonObject → QJsonObject)

unfoldable pub find_cached : List (QString × QJsonObject) → QString → Option QJsonObject
find_cached [] uuid = none
find_cached ((u, o) ∷ cache) uuid = if str_eq u uuid then some o else find_cached cache uuid

abbrev pub cached : ObjectCache → QString → Option QJsonObject
cached none uuid = none
cached (some cache) uuid = find_cached cache uuid

abbrev pub remember : ObjectCache → QString → QJsonObject → ObjectCache
remember none uuid o = none
remember (some cache) uuid o = some ((uuid, o) ∷ cache)

abbrev pub resolve :
    Option QJsonObject → Fetch → ObjectCache → QString → QJsonObject → QJsonObject × ObjectCache
resolve (some o) fetch cache uuid joined = (o, cache)
resolve none none cache uuid joined = (joined, cache)
resolve none (some get) cache uuid joined = let o = get uuid joined in (o, remember cache uuid o)

module _ (q : QtCalls) where
  -- The loop over the join paths.
  unfoldable pub join :
      Fetch → ObjectCache → List (List QString) → QJsonObject → QJsonObject × ObjectCache
  join fetch cache [] joined = (joined, cache)
  join fetch cache (path ∷ paths) joined =
      let uuid = to_string (value_by_keys q joined path) in
      let (o, cache') = resolve (cached cache uuid) fetch cache uuid joined in
      join fetch cache' paths o

  -- The value of the object that a term is about. A variable that is not bound gives Null.
  unfoldable pub field_value :
      Fetch → JsonDbQuery → JsonDbQueryTerm → QJsonObject → ObjectCache → Value × ObjectCache
  field_value fetch query t object cache =
      if not (is_empty t.join_field)
      then (let (o, cache') = join fetch cache t.join_paths object in
          (value_by_path q o t.property_name, cache'))
      else if has_property_name t
      then (value_by_path q object t.property_name, cache)
      else (binding query.bindings t.property_variable null, cache)

  -- The chain of operators. One that is not handled does not match.
  unfoldable pub op_matches : JsonDbQueryTerm → Value → Value → Bool
  op_matches t field v =
      let is = λ (o : QString). str_eq t.op o in
      if is (codes "=") || is (codes "==")
      then value_eq q field v
      else if is (codes "<>") || is (codes "!=")
      then not (value_eq q field v)
      else if is (codes "=~")
      then q.exact_match t.reg_exp (to_string field)
      else if is (codes "!=~")
      then not (q.exact_match t.reg_exp (to_string field))
      else if is (codes "<=")
      then less_than q field v || value_eq q field v
      else if is (codes "<")
      then less_than q field v
      else if is (codes ">=")
      then greater_than q field v || value_eq q field v
      else if is (codes ">")
      then greater_than q field v
      else if is (codes "exists")
      then not (is_undefined field)
      else if is (codes "notExists")
      then is_undefined field
      else if is (codes "in")
      then contains_value q (to_array v) field
      else if is (codes "notIn")
      then not (contains_value q (to_array v) field)
      else if is (codes "contains")
      then contains_value q (to_array field) v
      else if is (codes "notContains")
      then not (contains_value q (to_array field) v)
      else if is (codes "startsWith")
      then is_string field && starts_with (to_string field) (to_string v)
      else false

  -- The loop over the terms of a disjunction, which stops at the first that matches.
  unfoldable pub match_or :
      Fetch → JsonDbQuery → JsonDbOrQueryTerm → QJsonObject → ObjectCache → Bool × ObjectCache
  match_or fetch query [] object cache = (false, cache)
  match_or fetch query (t ∷ terms) object cache =
      let (field, cache') = field_value fetch query t object cache in
      let rest = match_or fetch query terms object cache' in
      if op_matches t field (term_value query t) then (true, cache') else rest

  -- The loop over the disjunctions, which stops at the first that does not match.
  unfoldable pub match_all :
      Fetch → JsonDbQuery → List JsonDbOrQueryTerm → QJsonObject → ObjectCache → Bool × ObjectCache
  match_all fetch query [] object cache = (true, cache)
  match_all fetch query (terms ∷ more) object cache =
      let found = match_or fetch query terms object cache in
      let rest = match_all fetch query more object found.1 in
      if found.0 then rest else (false, found.1)

  -- What match returns, and the cache after it.
  unfoldable pub match : Fetch → JsonDbQuery → QJsonObject → ObjectCache → Bool × ObjectCache
  match fetch query object cache = match_all fetch query query.query_terms object cache

-- ===== src/Partition/Query.antt =====
-- src/partition/jsondbpartition.cpp: the objects that a compiled query gives, and resultObject of
-- src/partition/jsondbindexquery.cpp. The entries are those of the index in ascending order, and
-- `get_object` is what JsonDbPartition::getObject returns and makes of the object it is handed.
-- A query by uuid, whose cursor is that of the table and has no keys, is not among these. That limit
-- and offset stay ints while they are counted down is not modelled.
pub mod Page
pub mod Rounds
pub mod Compile
mod Tests
use qtjsondb.Prelude.{
  ℕ, zero, suc, ◌%◌, Bool, true, false, ◌&&◌, List, [], ◌∷◌, ◌++◌, Option, none, some, ℤ, pos,
  negsuc, pos_part, ◌-◌, is_empty, if◌then◌else◌, not, ◌==◌, length, map,
}
use qtjsondb.Qt.Text.{QString, codes, str_eq, split}
use qtjsondb.Qt.Json.{
  Value, undefined, num, QJsonObject, no_fields, to_string, insert, is_empty_object,
}
use qtjsondb.Qt.Calls.{QtCalls}
use qtjsondb.Object.Path.{value_by_keys}
use qtjsondb.Strings.{index_value_str}
use qtjsondb.Owner.{JsonDbOwner, is_allowed}
use qtjsondb.Query.Term.{split_arrow}
use qtjsondb.Query.Match.{ObjectCache, Fetch, cached, remember}
use qtjsondb.Query.Compile.{IndexQuery}
use qtjsondb.Query.Scan.{Entry, Filter, Outcome, first, next, seek}
use qtjsondb.Index.Offsets.{OffsetCache, lower_bound_key, add_offset_to_cache}

abbrev pub pred : ℤ → ℤ
pred (pos zero) = negsuc 0
pred (pos (suc n)) = pos n
pred (negsuc n) = negsuc (suc n)

abbrev pub is_nonzero : ℤ → Bool
is_nonzero (pos zero) = false
is_nonzero _ = true

abbrev pub is_positive : ℤ → Bool
is_positive (pos (suc n)) = true
is_positive _ = false

-- The results, limit, offset, count, cacheOffset, and the cache of offsets of the index.
pub record QueryState : Type 0 where
  pub results : List QJsonObject
  pub limit : ℤ
  pub offset : ℤ
  pub count : ℕ
  pub cache_offset : ℕ
  pub offset_cache : OffsetCache

-- offset--
abbrev pub next_offset : QueryState → QueryState
next_offset s = record s { offset = pred s.offset }

-- What getObject returns and makes of the object that it is handed.
abbrev pub GetObject : Type 0
GetObject = QString → QJsonObject → Bool × QJsonObject

abbrev pub is_empty_found : Option Entry → Bool
is_empty_found none = true
is_empty_found (some e) = is_empty_object e.object

module _ (q : QtCalls) (get_object : GetObject) where
  abbrev pub fetch_object : Fetch
  fetch_object = some (λ uuid o. (get_object uuid o).1)

  abbrev looked_up :
      Option QJsonObject → ObjectCache → QString → QJsonObject → QJsonObject × ObjectCache
  looked_up (some o) cache uuid object = (o, cache)
  looked_up none cache uuid object =
      let (ok, o) = get_object uuid object in (o, if ok then remember cache uuid o else cache)

  -- The value of an expression: the loop over its joins, and then the last path.
  unfoldable pub follow : ObjectCache → List (List QString) → QJsonObject → Value × ObjectCache
  follow cache [] object = (undefined, cache)
  follow cache (path ∷ []) object = (value_by_keys q object path, cache)
  follow cache (path ∷ more ∷ paths) object =
      let uuid = to_string (value_by_keys q object path) in
      let (o, cache') =
        if is_empty uuid
        then (no_fields, cache)
        else looked_up (cached cache uuid) cache uuid object in
      follow cache' (more ∷ paths) o

  -- The loop over the expressions and their keys.
  unfoldable pub mapped :
      ObjectCache
      → QJsonObject
      → List QString
      → List QString
      → QJsonObject
      → QJsonObject × ObjectCache
  unfolding follow split_arrow split
  mapped cache base (key ∷ keys) (expression ∷ expressions) result =
      let (v, cache') = follow cache (map (split b'.') (split_arrow [] expression)) base in
      mapped cache' base keys expressions (insert result key v)
  mapped cache base keys expressions result = (result, cache)

  -- resultObject
  unfoldable pub result_object :
      IndexQuery → QJsonObject → Value → ObjectCache → QJsonObject × ObjectCache
  unfolding mapped
  result_object iq object field_value cache =
      let base = insert object index_value_str field_value in
      if is_empty iq.query.map_key_list
      then (base, cache)
      else mapped cache base iq.query.map_key_list iq.query.map_expression_list no_fields

  abbrev pub is_count : IndexQuery → Bool
  is_count iq = str_eq iq.query.aggregate_operation (codes "count")

  -- The part of a round that appends a result, for an object that may be read.
  unfoldable pub take_object :
      IndexQuery → QJsonObject → Value → ObjectCache → QueryState → QueryState × ObjectCache
  unfolding result_object
  take_object iq object field_value cache s =
      let (result, cache') = result_object iq object field_value cache in
      let counted = record s { limit = pred s.limit; count = suc s.count } in
      if is_nonzero s.limit && not (is_positive s.offset)
      then (if is_count iq
          then (counted, cache)
          else (record counted { results = s.results ++ result ∷ [] }, cache'))
      else (s, cache)

module _ (q : QtCalls) (get_object : GetObject) (owner : JsonDbOwner)
    (enforce_access_control : Bool) (partition : QString) (offset_cache_size max_queries : ℕ)
    (has_index : Bool) (iq : IndexQuery) (f : Filter) where
  -- isAllowed of an object for reading.
  abbrev pub read_of : QJsonObject → Bool × QJsonObject
  read_of object = is_allowed q owner enforce_access_control object partition (codes "read")

  abbrev add_offset : Bool → QueryState → List ℕ → QueryState
  add_offset test s key =
      if has_index && test
      then record s {
        offset_cache =
            add_offset_to_cache offset_cache_size max_queries s.offset_cache iq.query.query
              s.cache_offset key;
      }
      else s

  -- The end of a round that is not the last.
  unfoldable pub advance : QueryState → List ℕ → QueryState
  advance s key =
      let s' = add_offset (not (s.cache_offset == 0) && (s.cache_offset % 50 == 0)) s key in
      record s' { cache_offset = suc s'.cache_offset }

  -- A round of the loop on what was found, and the rounds after it.
  unfoldable pub visit :
      (Outcome → QueryState → QueryState × List ℕ)
      → Outcome
      → QueryState
      → Option Entry
      → QueryState × List ℕ
  visit continue o s none = (s, o.key)
  visit continue o s (some e) =
      let (allowed, object) = read_of e.object in
      let (s', cache') =
        if allowed
        then take_object q get_object iq object o.field_value o.cache s
        else (s, o.cache) in
      let after = next q (fetch_object q get_object) iq f o.key o.rest cache' in
      let s'' = if allowed then advance (next_offset s') o.key else s in
      let rest = continue after s'' in
      if is_empty_object e.object
      then (s, o.key)
      else if allowed && not (is_nonzero s'.limit)
      then (next_offset s', o.key)
      else rest

  -- The loop, which takes an entry at least in each round.
  unfoldable pub collect_results : ℕ → Outcome → QueryState → QueryState × List ℕ
  unfolding visit
  collect_results zero o s = (s, o.key)
  collect_results (suc n) o s = visit (collect_results n) o s o.found

  -- The first object with the offset that is left and cacheOffset: it is looked for at the key of
  -- a cached offset.
  unfoldable pub start_query : List Entry → ℤ → OffsetCache → Outcome × ℤ × ℕ
  unfolding lower_bound_key
  start_query entries offset cache =
      let fetch = fetch_object q get_object in
      let (key, at) = lower_bound_key cache iq.query.query (pos_part offset) in
      let found = seek q fetch iq f key entries (some []) in
      let begun : Outcome × ℤ × ℕ = (first q fetch iq f [] entries (some []), offset, 0) in
      if has_index && is_positive offset
      then (if is_empty key
          then begun
          else if is_empty_found found.found
          then (first q fetch iq f key entries found.cache, offset, 0)
          else (found, pos (pos_part offset - at), at))
      else begun

  -- doIndexQuery
  unfoldable pub do_index_query : List Entry → ℤ → ℤ → OffsetCache → QueryState
  unfolding collect_results start_query
  do_index_query entries limit offset cache =
      let (o, left, cache_offset) = start_query entries offset cache in
      let (s, key) = collect_results (suc (length entries)) o (record {
        results = [];
        limit = limit;
        offset = left;
        count = 0;
        cache_offset = cache_offset;
        offset_cache = cache;
      }) in
      let s' = add_offset true s key in
      if is_count q get_object iq
      then record s' {
        results =
            s'.results
            ++ insert no_fields (codes "count") (num (q.double_of_int (pos s'.count))) ∷ [];
      }
      else s'

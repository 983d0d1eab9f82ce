-- ===== src/Query/Scan.antt =====
-- src/partition/jsondbindexquery.cpp: scanning an index. The cursor is the list of the entries in
-- front of it, in the order in which it moves; an entry is a key with the object that
-- currentObjectAndTypeNumber gives at it.
pub mod Found
pub mod Steps
mod Tests
use qtjsondb.Prelude.{
  ℕ, Bool, true, false, ◌&&◌, ◌||◌, not, List, [], ◌∷◌, ◌++◌, Option, none, some, any, is_empty,
  if◌then◌else◌,
}
use qtjsondb.Qt.Text.{QString}
use qtjsondb.Qt.Json.{Value, null, QJsonObject}
use qtjsondb.Qt.Calls.{QtCalls}
use qtjsondb.Object.Version.{type, is_deleted}
use qtjsondb.Index.Key.{make_forward_key, forward_key_split}
use qtjsondb.Index.Compare.{index_compare}
use qtjsondb.Index.Compare.Order.{is_negative, is_zero}
use qtjsondb.Query.Term.{JsonDbQuery, is_undefined, is_ascending, is_empty_query, has_name}
use qtjsondb.Query.Match.{ObjectCache, Fetch, match}
use qtjsondb.Query.Constraint.{sparse_match_possible, matches}
use qtjsondb.Query.Compile.{IndexQuery}

pub record Entry : Type 0 where
  pub key : List ℕ
  pub object : QJsonObject

-- The members that filter the objects at the entries.
pub record Filter : Type 0 where
  pub type_names : List QString
  pub residual_query : JsonDbQuery

unfoldable pub reversed : List Entry → List Entry
reversed [] = []
reversed (e ∷ entries) = reversed entries ++ e ∷ []

-- What a call finds, the entries in front of the cursor, the cache, mFieldValue and the key.
pub record Outcome : Type 0 where
  pub found : Option Entry
  pub rest : List Entry
  pub cache : ObjectCache
  pub field_value : Value
  pub key : List ℕ

abbrev pub new_outcome : Option Entry → List Entry → ObjectCache → Value → List ℕ → Outcome
new_outcome found rest cache field_value key = record {
  found = found;
  rest = rest;
  cache = cache;
  field_value = field_value;
  key = key;
}

module _ (q : QtCalls) where
  -- seekRange: the entries from the first whose key is not below the given one.
  unfoldable pub seek_range : List ℕ → List Entry → List Entry
  seek_range key [] = []
  seek_range key (e ∷ entries) =
      let later = seek_range key entries in
      if is_negative (index_compare q e.key key) then later else e ∷ entries

  -- seekToStart, given the entries of the index in ascending order.
  unfoldable pub seek_to_start : IndexQuery → List Entry → List Entry
  unfolding seek_range reversed is_ascending
  seek_to_start iq entries =
      let found = seek_range (make_forward_key iq.min_value 0) entries in
      if is_ascending iq.query
      then (if is_undefined iq.min_value || is_empty found then entries else found)
      else reversed entries

  -- mSparseMatchPossible
  unfoldable pub is_sparse : IndexQuery → Bool
  unfolding sparse_match_possible
  is_sparse iq = any sparse_match_possible iq.query_constraints

  abbrev pub is_candidate : Filter → QJsonObject → Bool
  is_candidate f object =
      not (is_deleted object) && (is_empty f.type_names || has_name f.type_names (type object))

  -- The tests on the object at an entry that matches the constraints.
  unfoldable pub accept : Fetch → Filter → QJsonObject → ObjectCache → Bool × ObjectCache
  accept fetch f object cache =
      if not (is_candidate f object)
      then (false, cache)
      else if is_empty_query f.residual_query
      then (true, cache)
      else match q fetch f.residual_query object cache

  -- The loops of first and next, which differ in whether a field value that does not match ends
  -- them. `old` is the field value before the round, and `key` the key.
  unfoldable pub scan :
      Fetch → IndexQuery → Filter → Bool → Value → List ℕ → List Entry → ObjectCache → Outcome
  scan fetch iq f ends old key [] cache = new_outcome none [] cache old key
  scan fetch iq f ends old key (e ∷ entries) cache =
      let field_value = (forward_key_split old e.key).0 in
      let (accepted, cache') = accept fetch f e.object cache in
      let skipped = scan fetch iq f ends field_value e.key entries cache in
      let rejected = scan fetch iq f ends field_value e.key entries cache' in
      if matches q iq.query_constraints field_value
      then (if accepted then new_outcome (some e) entries cache' field_value e.key else rejected)
      else if ends
      then new_outcome none entries cache field_value e.key
      else skipped

  -- first
  unfoldable pub first : Fetch → IndexQuery → Filter → List ℕ → List Entry → ObjectCache → Outcome
  unfolding scan seek_to_start
  first fetch iq f key entries cache =
      scan fetch iq f false null key (seek_to_start iq entries) cache

  -- next, from the entries in front of the cursor.
  unfoldable pub next : Fetch → IndexQuery → Filter → List ℕ → List Entry → ObjectCache → Outcome
  unfolding scan is_sparse
  next fetch iq f key entries cache = scan fetch iq f (not (is_sparse iq)) null key entries cache

  -- seekTo: the entries from the one with this very key, in the order in which the cursor moves.
  unfoldable pub seek_to : List ℕ → List Entry → List Entry
  seek_to key [] = []
  seek_to key (e ∷ entries) =
      let later = seek_to key entries in
      if is_zero (index_compare q e.key key) then e ∷ entries else later

  -- The tests of seek on the object at an entry: one that fails ends it.
  unfoldable pub seek_at : Fetch → IndexQuery → Filter → List ℕ → List Entry → ObjectCache → Outcome
  seek_at fetch iq f key [] cache = new_outcome none [] cache null key
  seek_at fetch iq f key (e ∷ entries) cache =
      let field_value = (forward_key_split null key).0 in
      let (accepted, cache') = accept fetch f e.object cache in
      if matches q iq.query_constraints field_value
      then new_outcome (if accepted then some e else none) entries cache' field_value key
      else new_outcome none entries cache field_value key

  -- seek
  unfoldable pub seek : Fetch → IndexQuery → Filter → List ℕ → List Entry → ObjectCache → Outcome
  unfolding seek_to seek_at reversed
  seek fetch iq f key entries cache =
      seek_at fetch iq f key
        (seek_to key (if is_ascending iq.query then entries else reversed entries)) cache

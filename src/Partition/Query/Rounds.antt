-- ===== src/Partition/Query/Rounds.antt =====
-- src/partition/jsondbpartition.cpp: the results of a query are a page of the objects that its scan
-- reaches and the owner may read.
use qtjsondb.Prelude.{
  ℕ, zero, suc, ◌<◌, ◌≡◌, refl, sym, Bool, true, false, ◌&&◌, not, List, [], ◌∷◌, ◌++◌, some, ℤ,
  pos_part, arith, is_empty, if◌then◌else◌, length, map, append_nil, append_assoc, Bool-cases, ◌∙◌,
  inl, inr,
}
use qtjsondb.Qt.Text.{QString}
use qtjsondb.Qt.Json.{Value, null, QJsonObject, insert, is_empty_object}
use qtjsondb.Qt.Calls.{QtCalls}
use qtjsondb.Strings.{index_value_str}
use qtjsondb.Owner.{JsonDbOwner}
use qtjsondb.Index.Key.{forward_key_split}
use qtjsondb.Index.Offsets.{OffsetCache, lower_bound_key}
use qtjsondb.Query.Term.{is_empty_query}
use qtjsondb.Query.Match.{ObjectCache, Fetch}
use qtjsondb.Query.Constraint.{matches}
use qtjsondb.Query.Compile.{IndexQuery}
use qtjsondb.Query.Scan.{
  Entry, Filter, Outcome, new_outcome, is_candidate, is_sparse, scan, first, next, seek_to_start,
}
use qtjsondb.Query.Scan.Steps.{scan_cons, seek_to_start_short}
use qtjsondb.Query.Scan.Found.{AllMade, is_hit}
use qtjsondb.Partition.Query.{
  GetObject, QueryState, pred, is_nonzero, is_positive, fetch_object, result_object, take_object,
  is_count, read_of, next_offset, advance, visit, collect_results, start_query, do_index_query,
}
use qtjsondb.Partition.Query.Page.{page, page_nil, page_cons, page_ended}

-- The objects at the entries are not empty.
abbrev pub AllStored : List Entry → Type 0
AllStored [] = Unit
AllStored (e ∷ entries) = (is_empty_object e.object ≡ false) × AllStored entries

-- The results, the limit and the offset are the same.
abbrev HasSame : QueryState → QueryState → Type 0
HasSame t s = (t.results ≡ s.results) × (t.limit ≡ s.limit) × (t.offset ≡ s.offset)

if-HasSame : (b : Bool) (t s : QueryState) → HasSame t s → HasSame (if b then t else s) s
if-HasSame true t s h = h
if-HasSame false t s h = (refl, refl, refl)

module _ (q : QtCalls) (get_object : GetObject) (owner : JsonDbOwner)
    (enforce_access_control : Bool) (partition : QString) (offset_cache_size max_queries : ℕ)
    (has_index : Bool) (iq : IndexQuery) (f : Filter) where
  abbrev the_fetch : Fetch
  the_fetch = fetch_object q get_object

  abbrev may_read : QJsonObject → Bool × QJsonObject
  may_read =
      read_of q get_object owner enforce_access_control partition offset_cache_size max_queries
        has_index iq f

  abbrev goes_on : QueryState → List ℕ → QueryState
  goes_on =
      advance q get_object owner enforce_access_control partition offset_cache_size max_queries
        has_index iq f

  abbrev rounds : ℕ → Outcome → QueryState → QueryState × List ℕ
  rounds =
      collect_results q get_object owner enforce_access_control partition offset_cache_size
        max_queries has_index iq f

  -- The entries that the loops find. With `ends`, a value that does not match is the end; after the
  -- first that is found it is, unless a constraint allows for sparse matches.
  abbrev pub reached : Bool → List Entry → List Entry
  reached ends [] = []
  reached ends (e ∷ entries) =
      if is_hit q the_fetch iq f e
      then e ∷ reached (not (is_sparse q iq)) entries
      else if not (matches q iq.query_constraints (forward_key_split null e.key).0) && ends
      then []
      else reached ends entries

  -- Those whose objects the owner may read.
  abbrev pub readable : List Entry → List Entry
  readable [] = []
  readable (e ∷ entries) = if (may_read e.object).0 then e ∷ readable entries else readable entries

  -- The result of an entry: the object with the value of the index.
  abbrev pub shown : Entry → QJsonObject
  shown e = insert (may_read e.object).1 index_value_str (forward_key_split null e.key).0

  result_object_lem :
      (object : QJsonObject) (v : Value) (cache : ObjectCache)
      → is_empty iq.query.map_key_list ≡ true
      → result_object q get_object iq object v cache ≡ (insert object index_value_str v, cache)
  unfolding result_object
  result_object_lem object v cache no_map = rw no_map refl

  -- A result is taken while the limit is not used up, from the offset on.
  take_object_lem :
      (object : QJsonObject) (v : Value) (cache : ObjectCache) (s : QueryState)
      → is_count q get_object iq ≡ false
      → is_empty iq.query.map_key_list ≡ true
      → take_object q get_object iq object v cache s ≡ (
          if is_nonzero s.limit && not (is_positive s.offset)
          then (
            record s {
              limit = pred s.limit;
              count = suc s.count;
              results = s.results ++ insert object index_value_str v ∷ [];
            },
            cache,
          )
          else (s, cache))
  unfolding take_object
  take_object_lem object v cache s no_count no_map =
      rw (result_object_lem object v cache no_map, no_count) refl

  advance_lem : (s : QueryState) (key : List ℕ) → HasSame (goes_on s key) s
  unfolding advance
  advance_lem s key = if-HasSame _ _ s (refl, refl, refl)

  abbrev Adds : List Entry → QueryState → QueryState → Type 0
  Adds xs s t = t.results ≡ s.results ++ map shown (page s.limit s.offset xs)

  -- The results after some entries.
  abbrev Gives : List Entry → QueryState → QueryState → Type 0
  Gives entries s t = Adds (readable entries) s t

  Adds-same : (xs : List Entry) (s t u : QueryState) → HasSame t s → Adds xs t u → Adds xs s u
  Adds-same xs s t u same h = cc

  -- An entry that is taken, and the others after it.
  Adds-taken :
      (e : Entry) (xs : List Entry) (s t u : QueryState)
      → (is_nonzero s.limit && not (is_positive s.offset)) ≡ true
      → t.results ≡ s.results ++ shown e ∷ []
      → t.limit ≡ pred s.limit
      → t.offset ≡ pred s.offset
      → Adds xs t u
      → Adds (e ∷ xs) s u
  Adds-taken e xs s t u due results limit offset h =
      rw (page_cons s.limit s.offset e xs, due, h, results, limit, offset)
        (append_assoc s.results (shown e ∷ []) (map shown (page (pred s.limit) (pred s.offset) xs)))

  Adds-skipped :
      (e : Entry) (xs : List Entry) (s t u : QueryState)
      → (is_nonzero s.limit && not (is_positive s.offset)) ≡ false
      → t.results ≡ s.results
      → t.limit ≡ s.limit
      → t.offset ≡ pred s.offset
      → Adds xs t u
      → Adds (e ∷ xs) s u
  Adds-skipped e xs s t u not_due results limit offset h =
      rw (page_cons s.limit s.offset e xs, not_due, h, results, limit, offset) refl

  -- Where the limit is used up, nothing more is added.
  Adds-nothing : (xs : List Entry) (s : QueryState) → is_nonzero s.limit ≡ false → Adds xs s s
  Adds-nothing xs s h = rw (page_ended s.limit s.offset xs h) (sym (append_nil s.results))

  -- The loop ends where the limit is used up, and goes on otherwise.
  Adds-stop_or :
      (xs : List Entry) (s : QueryState) (stopped continued : QueryState × List ℕ)
      → HasSame stopped.0 s
      → Adds xs s continued.0
      → Adds xs s (if not (is_nonzero s.limit) then stopped else continued).0
  Adds-stop_or xs s stopped continued same h = elim (Bool-cases (is_nonzero s.limit)) [
    | inl more ↦ rw more h
    | inr used_up ↦ rw used_up (let e = Adds-nothing xs s used_up in cc)
  ]

  -- A round, given what the rounds after it do.
  visit_lem :
      (k : Outcome → QueryState → QueryState × List ℕ) (e : Entry) (entries : List Entry)
      (cache : ObjectCache) (s : QueryState)
      → is_count q get_object iq ≡ false
      → is_empty iq.query.map_key_list ≡ true
      → is_empty_object e.object ≡ false
      → ((cache' : ObjectCache) (t : QueryState)
          → Gives
              (reached (not (is_sparse q iq)) entries)
              t
              (k (next q the_fetch iq f e.key entries cache') t).0)
      → Gives
          (e ∷ reached (not (is_sparse q iq)) entries)
          s
          (visit q get_object owner enforce_access_control partition offset_cache_size max_queries
            has_index iq f k
            (new_outcome (some e) entries cache (forward_key_split null e.key).0 e.key)
            s
            (some e)).0
  unfolding visit
  visit_lem k e entries cache s no_count no_map stored ih =
      let xs = readable (reached (not (is_sparse q iq)) entries) in
      let rest =
        λ (t : QueryState). k (next q the_fetch iq f e.key entries cache) (goes_on t e.key) in
      let ended = λ (t : QueryState). (if not (is_nonzero t.limit) then (t, e.key) else rest t).0 in
      let round_end = λ (t : QueryState).
        Adds-stop_or xs t (t, e.key) (rest t) (refl, refl, refl)
          (Adds-same xs t (goes_on t e.key) (rest t).0 (advance_lem t e.key)
            (ih cache (goes_on t e.key))) in
      let object = (may_read e.object).1 in
      let v = (forward_key_split null e.key).0 in
      rw stored (elim (Bool-cases (may_read e.object).0) [
        | inr forbidden ↦ rw forbidden (ih cache s)
        | inl allowed ↦
            rw (allowed, take_object_lem object v cache s no_count no_map)
              (elim (Bool-cases (is_nonzero s.limit && not (is_positive s.offset))) [
                | inl due ↦ rw due (
                    let taken : QueryState = record s {
                      limit = pred s.limit;
                      count = suc s.count;
                      results = s.results ++ shown e ∷ [];
                    } in
                    Adds-taken e xs s (next_offset taken) (ended (next_offset taken)) due refl refl
                      refl (round_end (next_offset taken)))
                | inr not_due ↦ rw not_due (
                    Adds-skipped e xs s (next_offset s) (ended (next_offset s)) not_due refl refl
                      refl (round_end (next_offset s)))
              ])
      ])

  -- With a round for every entry the rounds give the page.
  rounds_lem :
      (n : ℕ) (entries : List Entry) (ends : Bool) (old : Value) (key : List ℕ)
      (cache : ObjectCache) (s : QueryState)
      → is_count q get_object iq ≡ false
      → is_empty iq.query.map_key_list ≡ true
      → is_empty_query f.residual_query ≡ true
      → length entries < n
      → AllMade entries
      → AllStored entries
      → Gives
          (reached ends entries)
          s
          (rounds n (scan q the_fetch iq f ends old key entries cache) s).0
  unfolding collect_results next
  rounds_lem zero entries ends old key cache s no_count no_map plain enough made stored =
      absurd (omega arith)
  rounds_lem (suc n) [] ends old key cache s no_count no_map plain enough made stored =
      unfold scan visit in rw (page_nil {A = Entry} s.limit s.offset) (sym (append_nil s.results))
  rounds_lem (suc n) (e ∷ entries) ends old key cache s no_count no_map plain enough made stored =
      let v = (forward_key_split null e.key).0 in
      let go = λ (b : Bool) (c : ObjectCache) (t : QueryState).
        rounds_lem n entries b null e.key c t no_count no_map plain (omega arith) made.1 stored.1 in
      let later = λ (b : Bool).
        rounds_lem (suc n) entries b v e.key cache s no_count no_map plain (omega arith) made.1
          stored.1 in
      rw (scan_cons q the_fetch iq f e entries ends old key cache plain made)
        (elim (Bool-cases (matches q iq.query_constraints v)) [
          | inl match_there ↦ rw match_there (elim (Bool-cases (is_candidate q f e.object)) [
            | inl candidate ↦ rw candidate (
                visit_lem (rounds n) e entries cache s no_count no_map stored.0
                  (go (not (is_sparse q iq))))
            | inr other ↦ rw other (later ends)
          ])
          | inr no_match ↦ rw no_match (elim (Bool-cases ends) [
            | inl last ↦ rw last (
                unfold visit in
                rw (page_nil {A = Entry} s.limit s.offset) (sym (append_nil s.results)))
            | inr more ↦ rw more (later false)
          ])
        ])

  -- Without a key of a cached offset the query starts at the first object.
  start_query-first :
      (entries : List Entry) (offset : ℤ) (cache : OffsetCache)
      → (lower_bound_key cache iq.query.query (pos_part offset)).0 ≡ []
      → start_query q get_object owner enforce_access_control partition offset_cache_size
          max_queries has_index iq f entries offset cache
        ≡ (first q the_fetch iq f [] entries (some []), offset, 0)
  unfolding start_query
  start_query-first entries offset cache no_key =
      rw no_key (elim (Bool-cases (has_index && is_positive offset)) [
        | inl h ↦ rw h refl
        | inr h ↦ rw h refl
      ])

  -- If a query has no map and does not count, its index query has no residual query, the keys
  -- from the start of its scan are made from values and the objects there are not empty, and
  -- lowerBoundKey has no key for the offset, then doIndexQuery gives the page of this offset
  -- and limit of the objects that the scan reaches and the owner may read, each with the value
  -- of the index.
  pub do_index_query-page :
      (entries : List Entry) (limit offset : ℤ) (cache : OffsetCache)
      → is_count q get_object iq ≡ false
      → is_empty iq.query.map_key_list ≡ true
      → is_empty_query f.residual_query ≡ true
      → AllMade (seek_to_start q iq entries)
      → AllStored (seek_to_start q iq entries)
      → (lower_bound_key cache iq.query.query (pos_part offset)).0 ≡ []
      → (do_index_query q get_object owner enforce_access_control partition offset_cache_size
          max_queries has_index iq f entries limit offset cache).results
        ≡ map shown (page limit offset (readable (reached false (seek_to_start q iq entries))))
  unfolding do_index_query first
  do_index_query-page entries limit offset cache no_count no_map plain made stored no_key =
      rw (start_query-first entries offset cache no_key, no_count)
        ((if-HasSame _ _ _ (refl, refl, refl)).0
          ∙ rounds_lem (suc (length entries)) (seek_to_start q iq entries) false null [] (some []) _
              no_count no_map plain (seek_to_start_short q the_fetch iq f entries) made stored)

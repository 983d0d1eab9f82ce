-- ===== src/Query/Scan/Steps.antt =====
-- src/partition/jsondbindexquery.cpp: the rounds of first and next without a residual query, and how long a scan is.
use qtjsondb.Prelude.{
  ℕ, suc, ◌<◌, ◌≡◌, refl, Bool, true, List, [], ◌∷◌, none, some, arith, if◌then◌else◌, length,
  Bool-cases, length-append, ◌≤◌, inl, inr,
}
use qtjsondb.Qt.Json.{Value, null, QJsonObject}
use qtjsondb.Qt.Calls.{QtCalls}
use qtjsondb.Index.Key.{forward_key_split, make_forward_key}
use qtjsondb.Query.Term.{is_empty_query}
use qtjsondb.Query.Match.{ObjectCache, Fetch}
use qtjsondb.Query.Constraint.{matches}
use qtjsondb.Query.Compile.{IndexQuery}
use qtjsondb.Query.Scan.{
  Entry, Filter, new_outcome, accept, is_candidate, scan, seek_to_start, reversed, seek_range,
}
use qtjsondb.Query.Scan.Found.{AllMade, field_value_made}

module _ (q : QtCalls) (fetch : Fetch) (iq : IndexQuery) (f : Filter) where
  accept_plain :
      (object : QJsonObject) (cache : ObjectCache)
      → is_empty_query f.residual_query ≡ true
      → accept q fetch f object cache ≡ (is_candidate q f object, cache)
  unfolding accept
  accept_plain object cache plain = elim (Bool-cases (is_candidate q f object)) [
    | inl c ↦ rw (c, plain) refl
    | inr c ↦ rw c refl
  ]

  -- A round of first or next.
  pub scan_cons :
      (e : Entry) (entries : List Entry) (ends : Bool) (old : Value) (key : List ℕ)
      (cache : ObjectCache)
      → is_empty_query f.residual_query ≡ true
      → AllMade (e ∷ entries)
      → let v = (forward_key_split null e.key).0 in
        let skipped = scan q fetch iq f ends v e.key entries cache in
        scan q fetch iq f ends old key (e ∷ entries) cache ≡ (
          if matches q iq.query_constraints v
          then (if is_candidate q f e.object
              then new_outcome (some e) entries cache v e.key
              else skipped)
          else if ends
          then new_outcome none entries cache v e.key
          else skipped)
  unfolding scan
  scan_cons e entries ends old key cache plain made =
      rw (field_value_made e entries old made, accept_plain e.object cache plain) refl

  reversed_long : (entries : List Entry) → length (reversed entries) ≡ length entries
  unfolding reversed
  reversed_long [] = refl
  reversed_long (e ∷ entries) =
      omega (arith, length-append (reversed entries) (e ∷ []), reversed_long entries)

  seek_range_short :
      (key : List ℕ) (entries : List Entry) → length (seek_range q key entries) ≤ length entries
  unfolding seek_range
  seek_range_short key [] = omega arith
  seek_range_short key (e ∷ entries) = ground (arith, seek_range_short key entries)

  pub seek_to_start_short :
      (entries : List Entry) → length (seek_to_start q iq entries) < suc (length entries)
  unfolding seek_to_start
  seek_to_start_short entries =
      ground
        (arith, reversed_long entries, seek_range_short (make_forward_key iq.min_value 0) entries)

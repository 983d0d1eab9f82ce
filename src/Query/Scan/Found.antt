-- ===== src/Query/Scan/Found.antt =====
-- What first and next find.
use qtjsondb.Prelude.{
  ℕ, ◌<◌, ◌^◌, ◌≡◌, refl, Bool, true, false, ◌&&◌, ◌||◌, not, List, [], ◌∷◌, Option, none, some,
  arith, if◌then◌else◌,
}
use qtjsondb.Qt.Json.{Value, null, QJsonObject}
use qtjsondb.Qt.Calls.{QtCalls}
use qtjsondb.Index.Key.{make_forward_key, forward_key_split}
use qtjsondb.Index.Key.RoundTrip.{IsKeyValue, forward_key_split-make_forward_key}
use qtjsondb.Query.Term.{is_empty_query}
use qtjsondb.Query.Match.{Fetch, ObjectCache}
use qtjsondb.Query.Constraint.{matches}
use qtjsondb.Query.Compile.{IndexQuery}
use qtjsondb.Query.Scan.{
  Entry, Filter, seek_to_start, is_sparse, is_candidate, accept, scan, first, next,
}

-- The entries have keys that are made from values and object keys.
abbrev pub AllMade : List Entry → Type 0
AllMade [] = Unit
AllMade (e ∷ entries) =
    ((v : Value) × (k : ℕ) × IsKeyValue v × (k < 256 ^ 16) × (e.key ≡ make_forward_key v k))
    × AllMade entries

-- The value of such a key does not depend on the one before.
pub field_value_made :
    (e : Entry) (entries : List Entry) (old : Value)
    → AllMade (e ∷ entries)
    → (forward_key_split old e.key).0 ≡ (forward_key_split null e.key).0
field_value_made e entries old ((v, k, h, small, made), rest) =
    rw
      (
        made,
        forward_key_split-make_forward_key old v k h small,
        forward_key_split-make_forward_key null v k h small,
      )
      refl

module _ (q : QtCalls) (fetch : Fetch) (iq : IndexQuery) (f : Filter) where
  -- An entry whose value matches the constraints and whose object passes the filter.
  abbrev pub is_hit : Entry → Bool
  is_hit e =
      matches q iq.query_constraints (forward_key_split null e.key).0 && is_candidate q f e.object

  abbrev pub first_hit : List Entry → Option Entry
  first_hit [] = none
  first_hit (e ∷ entries) = if is_hit e then some e else first_hit entries

  scan_finds :
      (old : Value) (key : List ℕ) (entries : List Entry) (cache : ObjectCache)
      → is_empty_query f.residual_query ≡ true
      → AllMade entries
      → (scan q fetch iq f false old key entries cache).found ≡ first_hit entries
  unfolding scan accept
  scan_finds old key [] cache plain made = refl
  scan_finds old key (e ∷ entries) cache plain made =
      let value = (forward_key_split null e.key).0 in
      let ih = scan_finds value e.key entries cache plain made.1 in
      rw (field_value_made e entries old made, plain) (ground (arith, ih))

  abbrev pub is_hit_if_any : Option Entry → Bool
  is_hit_if_any none = true
  is_hit_if_any (some e) = is_hit e

  accept_candidate :
      (object : QJsonObject) (cache : ObjectCache)
      → (not (accept q fetch f object cache).0 || is_candidate q f object) ≡ true
  unfolding accept
  accept_candidate object cache = ground arith

  scan_hits :
      (ends : Bool) (old : Value) (key : List ℕ) (entries : List Entry) (cache : ObjectCache)
      → AllMade entries
      → is_hit_if_any (scan q fetch iq f ends old key entries cache).found ≡ true
  unfolding scan
  scan_hits ends old key [] cache made = refl
  scan_hits ends old key (e ∷ entries) cache made =
      let value = (forward_key_split null e.key).0 in
      let after = (accept q fetch f e.object cache).1 in
      let skipped = scan_hits ends value e.key entries cache made.1 in
      let rejected = scan_hits ends value e.key entries after made.1 in
      rw (field_value_made e entries old made)
        (ground (arith, skipped, rejected, accept_candidate e.object cache))

  -- If there is no residual query and the keys from the start of the scan are made from values,
  -- then first finds the first entry from there whose value matches the constraints and whose
  -- object is not deleted and has one of the types, or nothing where there is none.
  pub first_finds :
      (key : List ℕ) (entries : List Entry) (cache : ObjectCache)
      → is_empty_query f.residual_query ≡ true
      → AllMade (seek_to_start q iq entries)
      → (first q fetch iq f key entries cache).found ≡ first_hit (seek_to_start q iq entries)
  unfolding first
  first_finds key entries cache plain made =
      scan_finds null key (seek_to_start q iq entries) cache plain made

  -- If there is no residual query, a constraint allows for sparse matches and the keys in front
  -- of the cursor are made from values, then next finds the first entry in front of the cursor
  -- whose value matches the constraints and whose object is not deleted and has one of the
  -- types, or nothing where there is none.
  pub next_finds :
      (key : List ℕ) (entries : List Entry) (cache : ObjectCache)
      → is_empty_query f.residual_query ≡ true
      → is_sparse q iq ≡ true
      → AllMade entries
      → (next q fetch iq f key entries cache).found ≡ first_hit entries
  unfolding next
  next_finds key entries cache plain sparse made =
      rw sparse (scan_finds null key entries cache plain made)

  -- If the keys in front of the cursor are made from values, then what next finds, if anything,
  -- matches the constraints by its value, is not deleted and has one of the types, whatever the
  -- residual query and the cache are.
  pub next_hits :
      (key : List ℕ) (entries : List Entry) (cache : ObjectCache)
      → AllMade entries
      → is_hit_if_any (next q fetch iq f key entries cache).found ≡ true
  unfolding next
  next_hits key entries cache made = scan_hits (not (is_sparse q iq)) null key entries cache made

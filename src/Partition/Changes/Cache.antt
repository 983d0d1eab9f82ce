-- ===== src/Partition/Changes/Cache.antt =====
-- src/partition/jsondbobjecttable.cpp: the changes of one state in mChangeCache after changesSince
-- has read what it lacks.
use qtjsondb.Prelude.{
  ℕ, zero, suc, ◌+◌, ◌≡◌, refl, sym, ◌∙◌, Bool, true, false, ◌&&◌, not, List, [], ◌∷◌, ◌++◌, arith,
  ◌==◌, leb, ltb, any, is_empty, if◌then◌else◌, append_assoc, append_nil, Bool-cases, ==_iff, inl,
  inr, subst,
}
use qtjsondb.Partition.{Action, JsonDbUpdate, JsonDbObjectTable}
use qtjsondb.Partition.Changes.{
  ChangeLog, insert_multi, contains_state, entries_at, or_no_entries, read_change, fetch_entries,
  fetch_states,
}

-- The changes of a state in the order of the cache.
unfoldable pub changes_at : List (ℕ × JsonDbUpdate) → ℕ → List JsonDbUpdate
changes_at [] n = []
changes_at ((m, u) ∷ cache) n = let rest = changes_at cache n in if m == n then u ∷ rest else rest

-- The entries of a state as changes, the last entry first.
unfoldable pub read_back : JsonDbObjectTable → ChangeLog → ℕ → List (ℕ × Action) → List JsonDbUpdate
read_back table log n [] = []
read_back table log n (entry ∷ entries) =
    read_back table log n entries ++ read_change table log n entry ∷ []

changes_at-insert_multi :
    (cache : List (ℕ × JsonDbUpdate)) (n i : ℕ) (u : JsonDbUpdate)
    → changes_at (insert_multi cache n u) i
      ≡ (if n == i then u ∷ changes_at cache i else changes_at cache i)
unfolding changes_at insert_multi
changes_at-insert_multi [] n i u = refl
changes_at-insert_multi ((m, v) ∷ cache) n i u = ground (arith, changes_at-insert_multi cache n i u)

contains_state_changes :
    (cache : List (ℕ × JsonDbUpdate)) (n : ℕ)
    → contains_state cache n ≡ not (is_empty (changes_at cache n))
unfolding contains_state changes_at any
contains_state_changes [] n = refl
contains_state_changes ((m, v) ∷ cache) n = ground (arith, contains_state_changes cache n)

one_more :
    (n i count : ℕ) (xs xs' back r : List JsonDbUpdate)
    → xs' ≡ (if (n == i) && is_empty xs then back else xs)
    → r ≡ (if (leb (suc n) i && ltb i (suc n + count)) && is_empty xs' then back else xs')
    → r ≡ (if (leb n i && ltb i (n + suc count)) && is_empty xs then back else xs)
one_more n i count xs xs' back r h k = ground (arith, h, k)

module _ (table : JsonDbObjectTable) (log : ChangeLog) where
  changes_at-fetch_entries :
      (n i : ℕ) (entries : List (ℕ × Action)) (cache : List (ℕ × JsonDbUpdate))
      → changes_at (fetch_entries table log n entries cache) i ≡ (
          if n == i
          then read_back table log n entries ++ changes_at cache i
          else changes_at cache i)
  unfolding fetch_entries read_back
  changes_at-fetch_entries n i [] cache = ground arith
  changes_at-fetch_entries n i (entry ∷ entries) cache =
      let u = read_change table log n entry in
      let step = changes_at-fetch_entries n i entries (insert_multi cache n u) in
      step ∙ put_after (n == i) (changes_at-insert_multi cache n i u)
    where
      put_after :
          (b : Bool)
          → changes_at (insert_multi cache n (read_change table log n entry)) i
            ≡ (if b then read_change table log n entry ∷ changes_at cache i else changes_at cache i)
          → (if b
              then read_back table log n entries
                ++ changes_at (insert_multi cache n (read_change table log n entry)) i
              else changes_at (insert_multi cache n (read_change table log n entry)) i)
            ≡ (if b
                then (read_back table log n entries ++ read_change table log n entry ∷ [])
                  ++ changes_at cache i
                else changes_at cache i)
      put_after true e = rw e (
          sym (
            append_assoc (read_back table log n entries) (read_change table log n entry ∷ [])
              (changes_at cache i)))
      put_after false e = e

  abbrev entries_for : ℕ → List (ℕ × Action)
  entries_for n = or_no_entries (entries_at log.states n)

  -- The cache after the loop has been at state n.
  abbrev filled : List (ℕ × JsonDbUpdate) → ℕ → List (ℕ × JsonDbUpdate)
  filled cache n =
      if contains_state cache n then cache else fetch_entries table log n (entries_for n) cache

  changes_at-filled :
      (cache : List (ℕ × JsonDbUpdate)) (n i : ℕ)
      → changes_at (filled cache n) i ≡ (
          if (n == i) && is_empty (changes_at cache i)
          then read_back table log i (entries_for i)
          else changes_at cache i)
  changes_at-filled cache n i =
      let fetched = changes_at-fetch_entries n i (entries_for n) cache in
      elim (Bool-cases (n == i)) [
        | inl e ↦
            subst
              (λ j. changes_at (filled cache n) j ≡ (
                if (n == j) && is_empty (changes_at cache j)
                then read_back table log j (entries_for j)
                else changes_at cache j))
              ((==_iff n i).0 e)
              (at_state (changes_at cache n) (contains_state cache n)
                (contains_state_changes cache n) refl
                (changes_at-fetch_entries n n (entries_for n) cache))
        | inr e ↦ elsewhere (contains_state cache n) e fetched
      ]
    where
      at_state :
          (xs : List JsonDbUpdate) (b : Bool)
          → b ≡ not (is_empty xs)
          → changes_at cache n ≡ xs
          → changes_at (fetch_entries table log n (entries_for n) cache) n
            ≡ (if n == n then read_back table log n (entries_for n) ++ xs else xs)
          → changes_at (if b then cache else fetch_entries table log n (entries_for n) cache) n
            ≡ (if (n == n) && is_empty xs then read_back table log n (entries_for n) else xs)
      at_state [] b h e f =
          let same = (==_iff n n).1 refl in
          rw (h, same) (f ∙ rw (same, append_nil (read_back table log n (entries_for n))) refl)
      at_state (x ∷ xs) b h e f = rw (h, (==_iff n n).1 refl) e

      elsewhere :
          (b : Bool)
          → (n == i) ≡ false
          → changes_at (fetch_entries table log n (entries_for n) cache) i ≡ (
              if n == i
              then read_back table log n (entries_for n) ++ changes_at cache i
              else changes_at cache i)
          → changes_at (if b then cache else fetch_entries table log n (entries_for n) cache) i ≡ (
              if (n == i) && is_empty (changes_at cache i)
              then read_back table log i (entries_for i)
              else changes_at cache i)
      elsewhere b e f = ground (arith, e, f)

  -- After the loop over the states from n on, a state among them of which the cache had no
  -- change has its entries in the table as changes, the last entry first; every other state has
  -- the changes that the cache had.
  pub changes_at-fetch_states :
      (count n i : ℕ) (cache : List (ℕ × JsonDbUpdate))
      → changes_at (fetch_states table log count n cache) i ≡ (
          if (leb n i && ltb i (n + count)) && is_empty (changes_at cache i)
          then read_back table log i (entries_for i)
          else changes_at cache i)
  unfolding fetch_states
  changes_at-fetch_states zero n i cache = ground arith
  changes_at-fetch_states (suc count) n i cache =
      one_more n i count (changes_at cache i) (changes_at (filled cache n) i)
        (read_back table log i (entries_for i))
        (changes_at (fetch_states table log count (suc n) (filled cache n)) i)
        (changes_at-filled cache n i) (changes_at-fetch_states count (suc n) i (filled cache n))

-- ===== src/Index/Offsets/Order.antt =====
-- src/partition/jsondbindex.cpp: the cached offsets are in order, and the one that is found is the
-- last that is not above the one that is asked for.
use qtjsondb.Prelude.{
  ℕ, ◌≤◌, ◌<◌, ◌≡◌, refl, Bool, true, false, List, [], ◌∷◌, Option, none, some, arith, Bool-cases,
  ltb→lt, ◌⊎◌, inl, inr, if◌then◌else◌, ltb, leb, ◌==◌, length, any,
}
use qtjsondb.Qt.Text.{QString}
use qtjsondb.Index.Offsets.{
  OffsetCacheMap, OffsetCache, offsets_of, set_offsets, offset_before, lower_bound_key, has_offset,
  insert_offset, erase_every_other, with_offset, with_query, add_offset_to_cache,
}

-- The offsets are above `low` and ascending.
abbrev pub IsAscending : ℕ → OffsetCacheMap → Type 0
IsAscending low [] = Unit
IsAscending low ((o, key) ∷ offs) = (low < o) × IsAscending o offs

abbrev pub AreAscending : OffsetCache → Type 0
AreAscending [] = Unit
AreAscending ((s, offs) ∷ cache) = IsAscending 0 offs × AreAscending cache

IsAscending-below :
    (low high : ℕ) (offs : OffsetCacheMap)
    → low ≤ high
    → IsAscending high offs
    → IsAscending low offs
IsAscending-below low high [] le h = tt
IsAscending-below low high ((o, key) ∷ offs) le h = (omega (arith, h.0), h.1)

insert_offset-IsAscending :
    (low offset : ℕ) (key : List ℕ) (offs : OffsetCacheMap)
    → low < offset
    → has_offset offs offset ≡ false
    → IsAscending low offs
    → IsAscending low (insert_offset offs offset key)
unfolding insert_offset any
insert_offset-IsAscending low offset key [] lt missing h = (lt, tt)
insert_offset-IsAscending low offset key ((o, k) ∷ offs) lt missing h =
    ground (arith, insert_offset-IsAscending o offset key offs)

erase-IsAscending :
    (erase : Bool) (low : ℕ) (offs : OffsetCacheMap)
    → IsAscending low offs
    → IsAscending low (erase_every_other erase offs)
unfolding erase_every_other
erase-IsAscending erase low [] h = tt
erase-IsAscending true low ((o, key) ∷ offs) h =
    erase-IsAscending false low offs (IsAscending-below low o offs (omega (arith, h.0)) h.1)
erase-IsAscending false low ((o, key) ∷ offs) h = (h.0, erase-IsAscending true o offs h.1)

erase_missing :
    (erase : Bool) (offset : ℕ) (offs : OffsetCacheMap)
    → has_offset offs offset ≡ false
    → has_offset (erase_every_other erase offs) offset ≡ false
unfolding erase_every_other any
erase_missing erase offset [] h = refl
erase_missing true offset ((o, key) ∷ offs) h = ground (arith, erase_missing false offset offs)
erase_missing false offset ((o, key) ∷ offs) h = ground (arith, erase_missing true offset offs)

offsets_of-IsAscending :
    (cache : OffsetCache) (query : QString)
    → AreAscending cache
    → IsAscending 0 (offsets_of cache query)
unfolding offsets_of
offsets_of-IsAscending [] query h = tt
offsets_of-IsAscending ((s, offs) ∷ cache) query h =
    ground (arith, offsets_of-IsAscending cache query h.1)

set_offsets-AreAscending :
    (cache : OffsetCache) (query : QString) (offs : OffsetCacheMap)
    → IsAscending 0 offs
    → AreAscending cache
    → AreAscending (set_offsets cache query offs)
unfolding set_offsets
set_offsets-AreAscending [] query offs a h = (a, tt)
set_offsets-AreAscending ((s, old) ∷ cache) query offs a h =
    ground (arith, set_offsets-AreAscending cache query offs a h.1)

module _ (offset_cache_size max_queries : ℕ) where
  with_offset-IsAscending :
      (offs : OffsetCacheMap) (offset : ℕ) (key : List ℕ)
      → 0 < offset
      → has_offset offs offset ≡ false
      → IsAscending 0 offs
      → IsAscending 0 (with_offset offset_cache_size max_queries offs offset key)
  unfolding with_offset
  with_offset-IsAscending offs offset key lt missing h =
      elim (leb offset_cache_size (length offs))
        as (λ b.
          IsAscending 0
            (insert_offset (if b then erase_every_other false offs else offs) offset key)) [
              | true ↦
                  insert_offset-IsAscending 0 offset key (erase_every_other false offs) lt
                    (erase_missing false offset offs missing) (erase-IsAscending false 0 offs h)
              | false ↦ insert_offset-IsAscending 0 offset key offs lt missing h
            ]

  with_query-AreAscending :
      (cache : OffsetCache) (query : QString) (offset : ℕ) (key : List ℕ)
      → 0 < offset
      → AreAscending cache
      → AreAscending (with_query offset_cache_size max_queries cache query offset key)
  unfolding with_query
  with_query-AreAscending cache query offset key lt h =
      elim (leb max_queries (length (set_offsets cache query [])))
        as (λ b.
          AreAscending (
            set_offsets (if b then [] else set_offsets cache query []) query
              ((offset, key) ∷ []))) [
                | true ↦ set_offsets-AreAscending [] query ((offset, key) ∷ []) (lt, tt) tt
                | false ↦
                    set_offsets-AreAscending (set_offsets cache query []) query ((offset, key) ∷ [])
                      (lt, tt) (set_offsets-AreAscending cache query [] tt h)
              ]

  -- If the offsets of every query are positive and ascending, then they are so after an offset
  -- is added, of any query and with any key, also where others are erased to make room.
  pub add_offset_to_cache-AreAscending :
      (cache : OffsetCache) (query : QString) (offset : ℕ) (key : List ℕ)
      → AreAscending cache
      → AreAscending (add_offset_to_cache offset_cache_size max_queries cache query offset key)
  unfolding add_offset_to_cache
  add_offset_to_cache-AreAscending cache query offset key h =
      let offs = offsets_of cache query in
      let ordered = offsets_of-IsAscending cache query h in
      ground (
        arith,
        with_query-AreAscending cache query offset key,
        λ (lt : 0 < offset) (missing : has_offset offs offset ≡ false).
            set_offsets-AreAscending cache query
              (with_offset offset_cache_size max_queries offs offset key)
              (with_offset-IsAscending offs offset key lt missing ordered) h,
      )

-- The key at an offset.
abbrev pub key_at : OffsetCacheMap → ℕ → Option (List ℕ)
key_at [] offset = none
key_at ((o, key) ∷ offs) offset = if o == offset then some key else key_at offs offset

-- An offset that is not above the one asked for, with its key, such that none between has a key;
-- or the one asked for with no key, if there are only later ones.
abbrev pub IsBest : OffsetCacheMap → ℕ → List ℕ × ℕ → Type 0
IsBest offs offset (key, o) =
    ((key_at offs o ≡ some key)
      × (o ≤ offset)
      × ((p : ℕ) → o < p → p ≤ offset → key_at offs p ≡ none))
    ⊎ ((key ≡ []) × (o ≡ offset) × ((p : ℕ) → p ≤ offset → key_at offs p ≡ none))

key_at_low :
    (low p : ℕ) (offs : OffsetCacheMap) → p ≤ low → IsAscending low offs → key_at offs p ≡ none
key_at_low low p [] le h = refl
key_at_low low p ((o, key) ∷ offs) le h = ground (arith, key_at_low o p offs)

abbrev NoneUpTo : OffsetCacheMap → ℕ → ℕ → Type 0
NoneUpTo offs low offset = (p : ℕ) → low < p → p ≤ offset → key_at offs p ≡ none

-- What offset_before gives, for entries above `low`: what it was handed, or an entry.
abbrev IsBound : OffsetCacheMap → ℕ → ℕ → List ℕ × ℕ → List ℕ × ℕ → Type 0
IsBound offs low offset before r =
    ((r ≡ before) × NoneUpTo offs low offset)
    ⊎ ((low < r.1) × (r.1 ≤ offset) × (key_at offs r.1 ≡ some r.0) × NoneUpTo offs r.1 offset)

skip_first :
    (o : ℕ) (key : List ℕ) (offs : OffsetCacheMap) (low offset : ℕ)
    → o ≤ low
    → NoneUpTo offs low offset
    → NoneUpTo ((o, key) ∷ offs) low offset
skip_first o key offs low offset le none_there p lt at_most = ground (arith, none_there p)

offset_before-IsBound :
    (low offset : ℕ) (before : List ℕ × ℕ) (offs : OffsetCacheMap)
    → IsAscending low offs
    → IsBound offs low offset before (offset_before offs offset before)
unfolding offset_before
offset_before-IsBound low offset before [] h = inl (refl, λ p lt le. refl)
offset_before-IsBound low offset before ((o, key) ∷ offs) h = elim (Bool-cases (ltb o offset)) [
  | inl less ↦ rw less (elim (offset_before-IsBound o offset (key, o) offs h.1) [
    | inl (e, none_there) ↦ rw e (
        inr (
          h.0,
          omega (arith, ltb→lt o offset less),
          ground arith,
          skip_first o key offs o offset (omega arith) none_there,
        ))
    | inr (above, le, found, none_there) ↦ inr (
      omega (arith, h.0),
      le,
      ground (arith, found),
      skip_first o key offs (offset_before offs offset (key, o)).1 offset (omega arith) none_there,
    )
  ])
  | inr not_less ↦ rw not_less (elim (Bool-cases (o == offset)) [
    | inl same ↦ rw same (inr (h.0, ground arith, ground arith, λ p lt le. absurd (ground arith)))
    | inr other ↦ rw other (inl (refl, λ p lt le. ground (arith, key_at_low o p offs)))
  ])
]

offset_before-IsBest :
    (offset : ℕ) (offs : OffsetCacheMap)
    → IsAscending 0 offs
    → IsBest offs offset (offset_before offs offset ([], offset))
offset_before-IsBest offset offs h = elim (offset_before-IsBound 0 offset ([], offset) offs h) [
  | inl (e, none_there) ↦
      rw e (inr (refl, refl, λ p le. ground (arith, none_there p, key_at_low 0 p offs)))
  | inr (above, le, found, none_there) ↦ inl (found, le, none_there)
]

-- If the offsets of every query are positive and ascending, then lowerBoundKey gives the last
-- offset that is not above the one asked for and has a key, with this key; or no key and the
-- offset asked for, where there is none.
pub lower_bound_key-IsBest :
    (cache : OffsetCache) (query : QString) (offset : ℕ)
    → AreAscending cache
    → IsBest (offsets_of cache query) offset (lower_bound_key cache query offset)
unfolding lower_bound_key
lower_bound_key-IsBest cache query offset h =
    let offs = offsets_of cache query in
    let ordered = offsets_of-IsAscending cache query h in
    elim (Bool-cases (offset == 0)) [
      | inl z ↦ rw z (inr (refl, refl, λ p le. key_at_low 0 p offs (ground arith) ordered))
      | inr nz ↦ rw nz (offset_before-IsBest offset offs ordered)
    ]

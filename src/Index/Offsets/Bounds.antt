-- ===== src/Index/Offsets/Bounds.antt =====
-- src/partition/jsondbindex.cpp: how large the cache of offsets grows.
use qtjsondb.Prelude.{
  ℕ, suc, ◌+◌, ◌≤◌, ◌≡◌, refl, true, false, List, [], ◌∷◌, arith, length, is_empty, max,
}
use qtjsondb.Qt.Text.{QString, str_eq_refl}
use qtjsondb.Index.Offsets.{
  OffsetCacheMap, OffsetCache, offsets_of, set_offsets, insert_offset, erase_every_other,
  with_offset, with_query, add_offset_to_cache,
}

-- No query has more offsets than a bound.
abbrev pub AreShort : ℕ → OffsetCache → Type 0
AreShort bound [] = Unit
AreShort bound ((s, offs) ∷ cache) = (length offs ≤ bound) × AreShort bound cache

length-insert_offset :
    (offs : OffsetCacheMap) (offset : ℕ) (key : List ℕ)
    → length (insert_offset offs offset key) ≡ suc (length offs)
unfolding insert_offset
length-insert_offset [] offset key = refl
length-insert_offset ((o, k) ∷ offs) offset key =
    ground (arith, length-insert_offset offs offset key)

length-erase :
    (offs : OffsetCacheMap)
    → (length (erase_every_other true offs) + length (erase_every_other true offs) ≤ length offs)
      × (length (erase_every_other false offs) + length (erase_every_other false offs)
          ≤ suc (length offs))
unfolding erase_every_other
length-erase [] = omega arith
length-erase (e ∷ offs) = omega (arith, length-erase offs)

offsets_of_short :
    (bound : ℕ) (cache : OffsetCache) (query : QString)
    → AreShort bound cache
    → length (offsets_of cache query) ≤ bound
unfolding offsets_of
offsets_of_short bound [] query h = omega arith
offsets_of_short bound ((s, offs) ∷ cache) query h =
    ground (arith, offsets_of_short bound cache query h.1)

set_offsets-AreShort :
    (bound : ℕ) (cache : OffsetCache) (query : QString) (offs : OffsetCacheMap)
    → length offs ≤ bound
    → AreShort bound cache
    → AreShort bound (set_offsets cache query offs)
unfolding set_offsets
set_offsets-AreShort bound [] query offs le h = (le, tt)
set_offsets-AreShort bound ((s, old) ∷ cache) query offs le h =
    ground (arith, set_offsets-AreShort bound cache query offs le h.1)

-- A query that has offsets is there.
length-set_offsets :
    (cache : OffsetCache) (query : QString) (offs : OffsetCacheMap)
    → is_empty (offsets_of cache query) ≡ false
    → length (set_offsets cache query offs) ≡ length cache
unfolding offsets_of set_offsets
length-set_offsets [] query offs h = absurd (cc)
length-set_offsets ((s, old) ∷ cache) query offs h =
    ground (arith, length-set_offsets cache query offs)

-- Writing a query twice adds it once.
length-set_offsets_twice :
    (cache : OffsetCache) (query : QString) (a b : OffsetCacheMap)
    → length (set_offsets (set_offsets cache query a) query b) ≡ length (set_offsets cache query a)
unfolding set_offsets
length-set_offsets_twice [] query a b = ground (arith, str_eq_refl query)
length-set_offsets_twice ((s, old) ∷ cache) query a b =
    ground (arith, length-set_offsets_twice cache query a b)

length_fresh : (query : QString) (offs : OffsetCacheMap) → length (set_offsets [] query offs) ≡ 1
unfolding set_offsets
length_fresh query offs = refl

module _ (offset_cache_size max_queries : ℕ) where
  length-with_offset :
      (offs : OffsetCacheMap) (offset : ℕ) (key : List ℕ)
      → length offs ≤ max offset_cache_size 2
      → length (with_offset offset_cache_size max_queries offs offset key) ≤ max offset_cache_size 2
  unfolding with_offset
  length-with_offset offs offset key le = ground (
    arith,
    length-erase offs,
    length-insert_offset (erase_every_other false offs) offset key,
    length-insert_offset offs offset key,
  )

  with_query_bounds :
      (bound : ℕ) (cache : OffsetCache) (query : QString) (offset : ℕ) (key : List ℕ)
      → 1 ≤ bound
      → AreShort bound cache
      → AreShort bound (with_query offset_cache_size max_queries cache query offset key)
        × (length (with_query offset_cache_size max_queries cache query offset key)
            ≤ max max_queries 1)
  unfolding with_query
  with_query_bounds bound cache query offset key le h =
      let added = set_offsets cache query [] in
      let entry : OffsetCacheMap = (offset, key) ∷ [] in
      ground (
        arith,
        set_offsets-AreShort bound [] query entry le tt,
        set_offsets-AreShort bound added query entry le
            (set_offsets-AreShort bound cache query [] (omega arith) h),
        length-set_offsets_twice cache query [] entry,
        length_fresh query entry,
      )

  -- If no query has more than offsetCacheSize offsets, or two if that is more, and there are no
  -- more than maxQueriesInOffsetCache queries, or one if that is more, then so it is after an
  -- offset is added.
  pub add_offset_to_cache_bounds :
      (cache : OffsetCache) (query : QString) (offset : ℕ) (key : List ℕ)
      → AreShort (max offset_cache_size 2) cache
      → length cache ≤ max max_queries 1
      → AreShort
          (max offset_cache_size 2)
          (add_offset_to_cache offset_cache_size max_queries cache query offset key)
        × (length (add_offset_to_cache offset_cache_size max_queries cache query offset key)
            ≤ max max_queries 1)
  unfolding add_offset_to_cache
  add_offset_to_cache_bounds cache query offset key h few =
      let offs = offsets_of cache query in
      let bound = max offset_cache_size 2 in
      let longer = with_offset offset_cache_size max_queries offs offset key in
      ground (
        arith,
        with_query_bounds bound cache query offset key (omega arith) h,
        set_offsets-AreShort bound cache query longer
            (length-with_offset offs offset key (offsets_of_short bound cache query h)) h,
        length-set_offsets cache query longer,
      )

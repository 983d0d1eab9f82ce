-- ===== src/Index/Offsets.antt =====
-- src/partition/jsondbindex.cpp and jsondbindex_p.h: the cache of the offsets of a query's objects.
-- A QMap is its entries in ascending order of their keys. The settings offsetCacheSize and
-- maxQueriesInOffsetCache are arguments. Where lowerBoundKey reads the key at the end of the map,
-- that key is taken to be none.
pub mod Bounds
pub mod Order
mod Tests
use qtjsondb.Prelude.{
  ℕ, Bool, true, false, List, [], ◌∷◌, any, is_empty, if◌then◌else◌, not, ltb, leb, length, ◌==◌,
}
use qtjsondb.Qt.Text.{QString, str_eq}

-- Offsets with the keys of the entries there.
abbrev pub OffsetCacheMap : Type 0
OffsetCacheMap = List (ℕ × List ℕ)

abbrev pub OffsetCache : Type 0
OffsetCache = List (QString × OffsetCacheMap)

-- mOffsetCache[query], empty where the query is missing.
unfoldable pub offsets_of : OffsetCache → QString → OffsetCacheMap
offsets_of [] query = []
offsets_of ((s, offs) ∷ cache) query = if str_eq s query then offs else offsets_of cache query

unfoldable pub set_offsets : OffsetCache → QString → OffsetCacheMap → OffsetCache
set_offsets [] query offs = (query, offs) ∷ []
set_offsets ((s, old) ∷ cache) query offs =
    let rest = set_offsets cache query offs in
    if str_eq s query then (s, offs) ∷ cache else (s, old) ∷ rest

-- The entry of the offset, or the one before it, or what is given where there is none.
unfoldable pub offset_before : OffsetCacheMap → ℕ → List ℕ × ℕ → List ℕ × ℕ
offset_before [] offset before = before
offset_before ((o, key) ∷ offs) offset before =
    let rest = offset_before offs offset (key, o) in
    if ltb o offset then rest else if o == offset then (key, o) else before

-- lowerBoundKey: the key, and the offset after the call.
unfoldable pub lower_bound_key : OffsetCache → QString → ℕ → List ℕ × ℕ
unfolding offset_before offsets_of
lower_bound_key cache query offset =
    if offset == 0 then ([], offset) else offset_before (offsets_of cache query) offset ([], offset)

-- offs.contains(offset)
abbrev pub has_offset : OffsetCacheMap → ℕ → Bool
has_offset offs offset = any (λ (e : ℕ × List ℕ). e.0 == offset) offs

-- offs.insert(offset, key), where the offset is missing.
unfoldable pub insert_offset : OffsetCacheMap → ℕ → List ℕ → OffsetCacheMap
insert_offset [] offset key = (offset, key) ∷ []
insert_offset ((o, k) ∷ offs) offset key =
    let rest = insert_offset offs offset key in
    if ltb o offset then (o, k) ∷ rest else (offset, key) ∷ (o, k) ∷ offs

-- The loop that erases every other entry.
unfoldable pub erase_every_other : Bool → OffsetCacheMap → OffsetCacheMap
erase_every_other erase [] = []
erase_every_other true (e ∷ offs) = erase_every_other false offs
erase_every_other false (e ∷ offs) = e ∷ erase_every_other true offs

module _ (offset_cache_size max_queries : ℕ) where
  -- The map of a query after an offset that it does not have is added.
  unfoldable pub with_offset : OffsetCacheMap → ℕ → List ℕ → OffsetCacheMap
  unfolding insert_offset erase_every_other
  with_offset offs offset key =
      insert_offset
        (if leb offset_cache_size (length offs) then erase_every_other false offs else offs) offset
        key

  -- The cache after the first offset of a query is added; mOffsetCache[query] has added the query.
  unfoldable pub with_query : OffsetCache → QString → ℕ → List ℕ → OffsetCache
  unfolding set_offsets
  with_query cache query offset key =
      let added = set_offsets cache query [] in
      set_offsets (if leb max_queries (length added) then [] else added) query ((offset, key) ∷ [])

  -- addOffsetToCache
  unfoldable pub add_offset_to_cache : OffsetCache → QString → ℕ → List ℕ → OffsetCache
  unfolding with_offset with_query offsets_of set_offsets
  add_offset_to_cache cache query offset key =
      let offs = offsets_of cache query in
      if offset == 0
      then cache
      else if is_empty offs
      then with_query cache query offset key
      else if has_offset offs offset
      then cache
      else set_offsets cache query (with_offset offs offset key)

-- ===== src/Index/Offsets/Tests.antt =====
-- src/partition/jsondbindex.cpp: the cache of offsets on some offsets.
use qtjsondb.Prelude.{◌≡◌, refl, [], ◌∷◌, max, length, ◌≤◌, arith}
use qtjsondb.Qt.Text.{codes, str_eq}
use qtjsondb.Index.Offsets.Order.{
  AreAscending, IsBest, add_offset_to_cache-AreAscending, lower_bound_key-IsBest,
}
use qtjsondb.Index.Offsets.Bounds.{AreShort, add_offset_to_cache_bounds}
use qtjsondb.Index.Offsets.{
  add_offset_to_cache, OffsetCache, lower_bound_key, offset_before, offsets_of, erase_every_other,
  with_offset, insert_offset,
}

abbrev sample_cache : OffsetCache
sample_cache = (codes "q", (2, 7 ∷ []) ∷ (50, 8 ∷ []) ∷ (100, 9 ∷ []) ∷ []) ∷ []

lower_bound_between : lower_bound_key sample_cache (codes "q") 60 ≡ (8 ∷ [], 50)
unfolding lower_bound_key offset_before offsets_of str_eq
lower_bound_between = refl

lower_bound_before : lower_bound_key sample_cache (codes "q") 1 ≡ ([], 1)
unfolding lower_bound_key offset_before offsets_of str_eq
lower_bound_before = refl

room_made :
    with_offset 3 16 ((2, 7 ∷ []) ∷ (50, 8 ∷ []) ∷ (100, 9 ∷ []) ∷ []) 60 (4 ∷ [])
    ≡ (2, 7 ∷ []) ∷ (60, 4 ∷ []) ∷ (100, 9 ∷ []) ∷ []
unfolding with_offset erase_every_other insert_offset
room_made = refl

sample-AreAscending : AreAscending sample_cache
sample-AreAscending = ((omega arith, (omega arith, (omega arith, tt))), tt)

add_offset_to_cache-AreAscending_example :
    AreAscending (add_offset_to_cache 3 16 sample_cache (codes "q") 60 (4 ∷ []))
add_offset_to_cache-AreAscending_example =
    add_offset_to_cache-AreAscending 3 16 sample_cache (codes "q") 60 (4 ∷ []) sample-AreAscending

lower_bound_key-IsBest_example :
    IsBest (offsets_of sample_cache (codes "q")) 60 (lower_bound_key sample_cache (codes "q") 60)
lower_bound_key-IsBest_example =
    lower_bound_key-IsBest sample_cache (codes "q") 60 sample-AreAscending

add_offset_to_cache_bounds_example :
    AreShort (max 3 2) (add_offset_to_cache 3 16 sample_cache (codes "q") 60 (4 ∷ []))
    × (length (add_offset_to_cache 3 16 sample_cache (codes "q") 60 (4 ∷ [])) ≤ max 16 1)
add_offset_to_cache_bounds_example =
    add_offset_to_cache_bounds 3 16 sample_cache (codes "q") 60 (4 ∷ []) (omega arith, tt)
      (omega arith)

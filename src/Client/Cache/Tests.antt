-- ===== src/Client/Cache/Tests.antt =====
-- Pages on which the statements about the cache of a model are evaluated.
use qtjsondb.Prelude.{
  ◌<◌, ℕ, ◌*◌, ◌≤◌, ◌≡◌, refl, true, false, ◌||◌, List, [], ◌∷◌, arith, ◌==◌, any,
}
use qtjsondb.Qt.Text.{codes}
use qtjsondb.Qt.Json.{no_fields}
use qtjsondb.Client.Cache.{
  shift_up, change_first, page_insert, count_pages, split_page, drop_lru_pages, transfer, lru_of,
  put_lru, drop_places, ModelPage, ModelCache, has_index, takes,
}
use qtjsondb.Client.Cache.Operations.{
  max_items, insert, split_first, with_page, insert_pages, remove_pages, set_page_size,
}
use qtjsondb.Client.Cache.Places.{
  covers, IsDisjoint, before, covers-remove_pages, set_page_size-bounds,
}
use qtjsondb.Client.Cache.Inserted.{behind, unshifted, covers-insert_pages}
use qtjsondb.Client.Cache.Insertion.{moved, takes_item, covers-insert, insert-covers_only}

abbrev page : ℕ → ℕ → ModelPage
page index count = record { index = index; count = count; counter = 1; objects = [] }

abbrev pages : List ModelPage
pages = page 0 2 ∷ page 5 3 ∷ []

pages-IsDisjoint : IsDisjoint pages
unfolding covers has_index
pages-IsDisjoint = ((λ p h. ground (arith, h)), ((λ p h. refl), tt))

covers-remove_pages_example :
    covers (remove_pages 1 2 (codes "k") pages).1 4 ≡ covers pages (before 1 4)
covers-remove_pages_example = covers-remove_pages 1 4 2 (codes "k") pages pages-IsDisjoint

some_takes : any (λ p. takes p 2) pages ≡ true
unfolding any takes
some_takes = refl

none_behind : covers (behind 2 pages) 2 ≡ false
unfolding covers behind
none_behind = refl

covers-insert_pages_run :
    covers (insert_pages 2 2 (codes "k") no_fields pages).1 6
    ≡ ((6 == 2) || covers pages (unshifted 2 6))
covers-insert_pages_run =
    covers-insert_pages 2 6 2 (codes "k") no_fields pages some_takes none_behind

-- Pages of two items, the first of which is split when it takes a third one.
abbrev small : ModelCache
small = record { pages = pages; current_counter = 1; page_size = 2; max_pages = 5 }

has_room : count_pages small.pages < max_items small
unfolding count_pages
has_room = omega arith

covers-insert_example :
    let after = insert small 2 (codes "k") no_fields (codes "a" ∷ codes "b" ∷ codes "k" ∷ []) in
    let found = takes_item small 2 in
    (after.0 ≡ found) × (covers after.1.pages 6 ≡ moved found 2 small.pages 6)
covers-insert_example =
    covers-insert small 2 6 (codes "k") no_fields (codes "a" ∷ codes "b" ∷ codes "k" ∷ [])
      none_behind has_room

-- No more than two pages of two items: the page that was read last before is dropped after the split.
abbrev narrow : ModelCache
narrow = record small { max_pages = 2 }

abbrev after_drop : ModelCache
after_drop = (insert narrow 2 (codes "k") no_fields (codes "a" ∷ codes "b" ∷ codes "k" ∷ [])).1

still_there : covers after_drop.pages 1 ≡ true
unfolding covers has_index insert with_page insert_pages change_first takes page_insert shift_up
    split_first split_page transfer count_pages drop_lru_pages lru_of put_lru drop_places any
still_there = refl

dropped : covers after_drop.pages 6 ≡ false
unfolding covers has_index insert with_page insert_pages change_first takes page_insert shift_up
    split_first split_page transfer count_pages drop_lru_pages lru_of put_lru drop_places any
dropped = refl

insert-covers_only_example : moved (takes_item narrow 2) 2 narrow.pages 1 ≡ true
insert-covers_only_example =
    insert-covers_only narrow 2 1 (codes "k") no_fields (codes "a" ∷ codes "b" ∷ codes "k" ∷ [])
      none_behind still_there

abbrev cache : ModelCache
cache = record { pages = pages; current_counter = 1; page_size = 50; max_pages = 5 }

set_page_size-bounds_run :
    let c = set_page_size cache 270 in
    (25 ≤ c.page_size) × (c.page_size ≤ 100) × (2 ≤ c.max_pages) × (270 ≤ c.page_size * c.max_pages)
set_page_size-bounds_run = set_page_size-bounds cache 270

-- An item between two pages that touch goes into the first, and the second one stays where it was:
-- both have its position then.
overlap :
    any
      (λ p. has_index p 2)
      (behind 2 (insert_pages 2 2 (codes "k") no_fields (page 0 2 ∷ page 2 2 ∷ [])).1)
    ≡ true
unfolding any has_index insert_pages behind
overlap = refl

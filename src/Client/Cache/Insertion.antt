-- ===== src/Client/Cache/Insertion.antt =====
-- src/client/qjsondbmodelcache_p.cpp: which positions the pages have after ModelCache::insert, with the
-- split of a page and the drop of one.
use qtjsondb.Prelude.{
  ℕ, ◌+◌, ◌<◌, ◌≡◌, refl, sym, Bool, true, false, ◌&&◌, ◌||◌, not, List, [], ◌∷◌, arith, any,
  is_empty, length, ltb, if◌then◌else◌, Bool-cases, inl, inr, ◌==◌, ◌∙◌,
}
use qtjsondb.Qt.Text.{QString}
use qtjsondb.Qt.Json.{QJsonObject}
use qtjsondb.Client.Cache.{
  ModelPage, ModelCache, has_index, takes, change_first, page_insert, count_pages, drop_lru_pages,
}
use qtjsondb.Client.Cache.Operations.{insert, insert_pages, split_first, with_page, max_items}
use qtjsondb.Client.Cache.Places.{covers}
use qtjsondb.Client.Cache.Inserted.{
  behind, unshifted, all_had, not_taken, covers-shift_up, covers-insert_pages,
}
use qtjsondb.Client.Cache.Split.{
  covers-split_first, count_pages-split_first, count_pages-insert_pages, covers-drop_lru_pages,
}

-- Pages that have a position after an item was inserted at `at`, whether a page took it or not.
abbrev pub moved : Bool → ℕ → List ModelPage → ℕ → Bool
moved found at pages p =
    if found
    then (p == at) || covers pages (unshifted at p)
    else not (p == at) && covers pages (unshifted at p)

-- A cache takes an item if it has no pages or a page takes it.
abbrev pub takes_item : ModelCache → ℕ → Bool
takes_item cache at = is_empty cache.pages || any (λ page. takes page at) cache.pages

untaken :
    (at n : ℕ) (key : QString) (o : QJsonObject) (pages : List ModelPage)
    → any (λ page. takes page at) pages ≡ false
    → (covers pages at ≡ false)
      × ((change_first (λ p. takes p at) (λ p. page_insert p n key o) pages).0 ≡ false)
      × ((change_first (λ p. takes p at) (λ p. page_insert p n key o) pages).1 ≡ pages)
unfolding change_first covers any
untaken at n key o [] h = (refl, refl, refl)
untaken at n key o (page ∷ pages) h =
    let here : takes page at ≡ false = ground (arith, h) in
    let later = untaken at n key o pages (ground (arith, h)) in
    rw (here, not_taken at page here) (later.0, later.1, rw later.2 refl)

-- Without a page that takes the item the others move up.
covers-insert_pages-untaken :
    (at p n : ℕ) (key : QString) (o : QJsonObject) (pages : List ModelPage)
    → any (λ page. takes page at) pages ≡ false
    → ((insert_pages at n key o pages).0 ≡ false)
      × (covers (insert_pages at n key o pages).1 p ≡ all_had at p pages)
unfolding insert_pages
covers-insert_pages-untaken at p n key o pages h =
    let none_takes = untaken at n key o pages h in
    (none_takes.1, rw none_takes.2 (covers-shift_up at p pages none_takes.0))

behind_one : (at : ℕ) (page : ModelPage) → covers (behind at (page ∷ [])) at ≡ false
unfolding covers behind
behind_one at page = elim (Bool-cases (takes page at)) [ inl e ↦ rw e refl | inr e ↦ rw e refl ]

-- A page without items, which a cache without pages gets, has no position.
with_page_lem :
    (cache : ModelCache) (at p : ℕ) (pages : List ModelPage)
    → cache.pages ≡ pages
    → let start = (with_page cache at).pages in
      (any (λ page. takes page at) start ≡ takes_item cache at)
      × (covers start p ≡ covers cache.pages p)
      × (covers (behind at cache.pages) at ≡ false → covers (behind at start) at ≡ false)
      × (count_pages start ≡ count_pages cache.pages)
unfolding with_page covers has_index takes any behind count_pages
with_page_lem cache at p [] e = rw e (
  ground arith,
  ground arith,
  (λ h.
      behind_one at
        (record { index = at; count = 0; counter = cache.current_counter + 1; objects = [] })),
  refl,
)
with_page_lem cache at p (page ∷ pages) e = rw e (refl, refl, (λ h. h), refl)

-- The pages after the item, before and after one is split, and after one is dropped.
inserted_pages :
    (at p n : ℕ) (key : QString) (o : QJsonObject) (pages : List ModelPage)
    → covers (behind at pages) at ≡ false
    → let after = insert_pages at n key o pages in
      let found = any (λ page. takes page at) pages in
      (after.0 ≡ found)
      × (covers after.1 p ≡ moved found at pages p)
      × (found ≡ true → count_pages after.1 ≡ count_pages pages + 1)
inserted_pages at p n key o pages apart = elim (Bool-cases (any (λ page. takes page at) pages)) [
  | inl e ↦
      let counted = count_pages-insert_pages at n key o pages e in
      rw e (counted.0, covers-insert_pages at p n key o pages e apart, λ h. counted.1)
  | inr e ↦
      let none_takes = covers-insert_pages-untaken at p n key o pages e in
      rw e (none_takes.0, none_takes.1, λ h. absurd (cc))
]

-- Of pages that are not over the items of the cache none is dropped.
none_dropped :
    (b : Bool) (items p : ℕ) (pages : List ModelPage)
    → ltb items (count_pages pages) ≡ false
    → covers (if b && ltb items (count_pages pages) then drop_lru_pages 1 pages else pages) p
      ≡ covers pages p
none_dropped true items p pages h = rw h refl
none_dropped false items p pages h = refl

-- Let a cache have fewer items than its pages may have, and let no page behind the first that
-- takes an item at a position have that position. ModelCache::insert at this position returns
-- true exactly if the cache is empty or a page takes the item. If it returns true, the pages then
-- have the position, the positions below it that they had, and those above it that they had one
-- lower, also where a page was split; otherwise they have these without the position.
pub covers-insert :
    (cache : ModelCache) (at p : ℕ) (key : QString) (o : QJsonObject) (uuids : List QString)
    → covers (behind at cache.pages) at ≡ false
    → count_pages cache.pages < max_items cache
    → let after = insert cache at key o uuids in
      let found = takes_item cache at in
      (after.0 ≡ found) × (covers after.1.pages p ≡ moved found at cache.pages p)
unfolding insert
covers-insert cache at p key o uuids apart room =
    let start = with_page cache at in
    let n = start.current_counter + 1 in
    let first = with_page_lem cache at p cache.pages refl in
    let before = with_page_lem cache at (unshifted at p) cache.pages refl in
    let steps = inserted_pages at p n key o start.pages (first.2 apart) in
    let pages = (insert_pages at n key o start.pages).1 in
    let halves = (split_first (λ page. page.counter == n) cache.page_size uuids pages n).0 in
    let at_halves =
      covers-split_first (λ page. page.counter == n) cache.page_size uuids pages n p in
    let counted =
      count_pages-split_first (λ page. page.counter == n) cache.page_size uuids pages n in
    elim (Bool-cases (takes_item cache at)) [
      | inl e ↦
          let found : any (λ page. takes page at) start.pages ≡ true = first.0 ∙ e in
          let kept =
            none_dropped (ltb (length pages) (length halves)) (max_items cache) p halves
              (ground (arith, counted, steps.2 found, first.3, room)) in
          rw (steps.0 ∙ found, e) (refl, kept ∙ at_halves ∙ steps.1 ∙ rw (found, before.1) refl)
      | inr e ↦
          let refused : any (λ page. takes page at) start.pages ≡ false = first.0 ∙ e in
          rw (steps.0 ∙ refused, e) (refl, steps.1 ∙ rw (refused, before.1) refl)
    ]

not_more :
    (b : Bool) (p : ℕ) (pages : List ModelPage)
    → covers (if b then drop_lru_pages 1 pages else pages) p ≡ true
    → covers pages p ≡ true
not_more true p pages h = covers-drop_lru_pages 1 p pages h
not_more false p pages h = h

-- Let no page behind the first that takes an item at a position have that position. However many
-- items the cache has, after ModelCache::insert, which may split a page and drop one, the pages
-- have no other positions than the inserted one, where a page took the item, those below it that
-- they had, and those above it that they had one lower.
pub insert-covers_only :
    (cache : ModelCache) (at p : ℕ) (key : QString) (o : QJsonObject) (uuids : List QString)
    → covers (behind at cache.pages) at ≡ false
    → covers (insert cache at key o uuids).1.pages p ≡ true
    → moved (takes_item cache at) at cache.pages p ≡ true
unfolding insert
insert-covers_only cache at p key o uuids apart =
    let start = with_page cache at in
    let n = start.current_counter + 1 in
    let first = with_page_lem cache at p cache.pages refl in
    let before = with_page_lem cache at (unshifted at p) cache.pages refl in
    let steps = inserted_pages at p n key o start.pages (first.2 apart) in
    let pages = (insert_pages at n key o start.pages).1 in
    let halves = (split_first (λ page. page.counter == n) cache.page_size uuids pages n).0 in
    let at_halves =
      covers-split_first (λ page. page.counter == n) cache.page_size uuids pages n p in
    elim (Bool-cases (takes_item cache at)) [
      | inl e ↦
          let found : any (λ page. takes page at) start.pages ≡ true = first.0 ∙ e in
          let same : covers halves p ≡ moved true at cache.pages p =
            at_halves ∙ steps.1 ∙ rw (found, before.1) refl in
          rw (steps.0 ∙ found, e)
            (λ h.
              sym same
              ∙ not_more
                  (ltb (length pages) (length halves) && ltb (max_items cache) (count_pages halves))
                  p halves h)
      | inr e ↦
          let refused : any (λ page. takes page at) start.pages ≡ false = first.0 ∙ e in
          rw (steps.0 ∙ refused, e) (λ h. sym (steps.1 ∙ rw (refused, before.1) refl) ∙ h)
    ]

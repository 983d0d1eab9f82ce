-- ===== src/Client/Cache/Split.antt =====
-- src/client/qjsondbmodelcache_p.cpp: what the split of a page, and the drop of one, do to the
-- positions of the pages and to how many there are.
use qtjsondb.Prelude.{
  ℕ, suc, ◌+◌, ◌-◌, ◌/◌, ◌≤◌, ◌≡◌, refl, Bool, true, ◌&&◌, ◌||◌, List, [], ◌∷◌, ◌++◌, arith, leb,
  ltb, any, take, drop, Bool-cases, inl, inr, ◌==◌, ◌∙◌,
}
use qtjsondb.Qt.Text.{QString}
use qtjsondb.Qt.Json.{QJsonObject}
use qtjsondb.Client.Cache.{
  ObjectMap, ModelPage, has_index, takes, change_first, page_insert, shift_up, count_pages,
  transfer, split_page, drop_places, drop_lru_pages,
}
use qtjsondb.Client.Cache.Operations.{insert_pages, split_first}
use qtjsondb.Client.Cache.Places.{covers}

-- The transfer of items changes neither where a page starts nor its count.
transfer_keeps :
    (keys : List QString) (page : ModelPage) (moved : ObjectMap) (n : ℕ)
    → let kept = (transfer keys (page, moved) n).0.0 in
      (kept.index ≡ page.index) × (kept.count ≡ page.count)
unfolding transfer
transfer_keeps [] page moved n = (refl, refl)
transfer_keeps (key ∷ keys) page moved n = transfer_keeps keys _ _ (n + 1)

halves :
    (i c h p : ℕ)
    → h ≤ c
    → ((leb i p && ltb p (i + (c - (c - (i + h - i)))))
        || (leb (i + h) p && ltb p (i + h + (c - (i + h - i)))))
      ≡ (leb i p && ltb p (i + c))
halves i c h p le = ground arith

half_counts : (i c h : ℕ) → (c - (c - (i + h - i))) + (c - (i + h - i)) ≡ c
half_counts i c h = omega arith

-- The two halves of a page have its positions, and its items between them.
split_page_halves :
    (page : ModelPage) (uuids : List QString) (n p : ℕ)
    → let two = (split_page page uuids n).0 in
      ((has_index two.0 p || has_index two.1 p) ≡ has_index page p)
      × (two.0.count + two.1.count ≡ page.count)
unfolding split_page has_index
split_page_halves page uuids n p =
    let half = page.index + page.count / 2 in
    let half_count = page.count - (half - page.index) in
    let moved = transfer_keeps (take half_count (drop half uuids)) page [] n in
    (
      rw moved.0 (halves page.index page.count (page.count / 2) p (omega arith)),
      half_counts page.index page.count (page.count / 2),
    )

covers-append :
    (pages : List ModelPage) (page : ModelPage) (p : ℕ)
    → covers (pages ++ page ∷ []) p ≡ (covers pages p || has_index page p)
unfolding covers
covers-append [] page p = ground arith
covers-append (other ∷ pages) page p = ground (arith, covers-append pages page p)

count_pages-append :
    (pages : List ModelPage) (page : ModelPage)
    → count_pages (pages ++ page ∷ []) ≡ count_pages pages + page.count
unfolding count_pages
count_pages-append [] page = omega arith
count_pages-append (other ∷ pages) page = omega (arith, count_pages-append pages page)

-- Splitting pages leaves the positions that they have.
pub covers-split_first :
    (b : ModelPage → Bool) (size : ℕ) (uuids : List QString) (pages : List ModelPage) (n p : ℕ)
    → covers (split_first b size uuids pages n).0 p ≡ covers pages p
unfolding split_first covers
covers-split_first b size uuids [] n p = refl
covers-split_first b size uuids (page ∷ pages) n p =
    let two = (split_page page uuids n).0 in
    elim (Bool-cases (b page)) [
      | inl here ↦ rw here (elim (Bool-cases (ltb size page.count)) [
        | inl large ↦ rw large (
            rw (covers-append pages two.1 p) (ground (arith, (split_page_halves page uuids n p).0)))
        | inr small ↦ rw small refl
      ])
      | inr later ↦ rw (later, covers-split_first b size uuids pages n p) refl
    ]

-- Splitting pages leaves the number of items in them.
pub count_pages-split_first :
    (b : ModelPage → Bool) (size : ℕ) (uuids : List QString) (pages : List ModelPage) (n : ℕ)
    → count_pages (split_first b size uuids pages n).0 ≡ count_pages pages
unfolding split_first count_pages
count_pages-split_first b size uuids [] n = refl
count_pages-split_first b size uuids (page ∷ pages) n =
    let two = (split_page page uuids n).0 in
    elim (Bool-cases (b page)) [
      | inl here ↦ rw here (elim (Bool-cases (ltb size page.count)) [
        | inl large ↦ rw large (
            rw (count_pages-append pages two.1)
              (omega (arith, (split_page_halves page uuids n 0).1)))
        | inr small ↦ rw small refl
      ])
      | inr later ↦ rw (later, count_pages-split_first b size uuids pages n) refl
    ]

count_pages-shift_up :
    (at : ℕ) (pages : List ModelPage) → count_pages (shift_up at pages) ≡ count_pages pages
unfolding count_pages shift_up
count_pages-shift_up at [] = refl
count_pages-shift_up at (page ∷ pages) = elim (Bool-cases (ltb at page.index)) [
  | inl e ↦ rw (e, count_pages-shift_up at pages) refl
  | inr e ↦ rw (e, count_pages-shift_up at pages) refl
]

count_pages-change_first :
    (at n : ℕ) (key : QString) (o : QJsonObject) (pages : List ModelPage)
    → any (λ page. takes page at) pages ≡ true
    → let after = change_first (λ p. takes p at) (λ p. page_insert p n key o) pages in
      (after.0 ≡ true) × (count_pages after.1 ≡ count_pages pages + 1)
unfolding change_first count_pages page_insert any
count_pages-change_first at n key o [] some = absurd (ground arith)
count_pages-change_first at n key o (page ∷ pages) some = elim (Bool-cases (takes page at)) [
  | inl e ↦ rw e (refl, omega arith)
  | inr e ↦
      let later = count_pages-change_first at n key o pages (ground (arith, some, e)) in
      rw e (later.0, omega (arith, later.1))
]

-- An item that a page takes is one more in the pages.
pub count_pages-insert_pages :
    (at n : ℕ) (key : QString) (o : QJsonObject) (pages : List ModelPage)
    → any (λ page. takes page at) pages ≡ true
    → ((insert_pages at n key o pages).0 ≡ true)
      × (count_pages (insert_pages at n key o pages).1 ≡ count_pages pages + 1)
unfolding insert_pages
count_pages-insert_pages at n key o pages some =
    let changed = change_first (λ p. takes p at) (λ p. page_insert p n key o) pages in
    let done = count_pages-change_first at n key o pages some in
    (done.0, count_pages-shift_up at changed.1 ∙ done.1)

covers-drop_places :
    (p : ℕ) (dropped : List (ℕ × ℕ)) (pages : List ModelPage) (place : ℕ)
    → covers (drop_places dropped pages place) p ≡ true
    → covers pages p ≡ true
unfolding drop_places covers
covers-drop_places p dropped [] place = λ h. h
covers-drop_places p dropped (page ∷ pages) place =
    let later = covers-drop_places p dropped pages (suc place) in
    elim (Bool-cases (any (λ e. e.1 == place) dropped)) [
      | inl e ↦ rw e (λ h. ground (arith, later h))
      | inr e ↦ rw e (λ h. elim (Bool-cases (has_index page p)) [
        | inl here ↦ ground (arith, here)
        | inr apart ↦ ground (arith, later (ground (arith, h, apart)))
      ])
    ]

-- Pages that are left after others are dropped have no other positions.
pub covers-drop_lru_pages :
    (n p : ℕ) (pages : List ModelPage)
    → covers (drop_lru_pages n pages) p ≡ true
    → covers pages p ≡ true
unfolding drop_lru_pages
covers-drop_lru_pages n p pages h = covers-drop_places p _ pages 0 h

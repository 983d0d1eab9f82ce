-- ===== src/Client/Cache/Places.antt =====
-- src/client/qjsondbmodelcache_p.cpp: which positions the pages have after an item is removed.
use Prim.Native.Nat.{min}
use native.Mathlib.Nat.{div-add-mod, mod-lt, mul-le-mul_left}
use qtjsondb.Prelude.{
  ==_iff, ℕ, ◌+◌, ◌-◌, ◌*◌, ◌≤◌, ◌≡◌, refl, Bool, true, false, ◌&&◌, ◌||◌, List, [], ◌∷◌, arith,
  ltb, leb, max, if◌then◌else◌, ltb→lt, ◌/◌, ◌%◌, ◌<◌, ◌==◌, Bool-cases, inl, inr,
}
use qtjsondb.Qt.Text.{QString}
use qtjsondb.Client.Cache.{ModelPage, ModelCache, has_index, page_remove, change_first, shift_down}
use qtjsondb.Client.Cache.Operations.{remove_pages, set_page_size}

unfoldable pub covers : List ModelPage → ℕ → Bool
unfolding has_index
covers [] p = false
covers (page ∷ pages) p = has_index page p || covers pages p

-- No position is in two pages.
abbrev pub IsDisjoint : List ModelPage → Type 0
IsDisjoint [] = Unit
IsDisjoint (page ∷ pages) =
    ((p : ℕ) → has_index page p ≡ true → covers pages p ≡ false) × IsDisjoint pages

-- Where a position was before an item at `at` was removed.
abbrev pub before : ℕ → ℕ → ℕ
before at p = if ltb p at then p else p + 1

moved_down :
    (i c at p : ℕ)
    → at < i
    → (leb (i - 1) p && ltb p (i - 1 + c)) ≡ (leb i (before at p) && ltb (before at p) (i + c))
moved_down i c at p h = ground arith

stays :
    (i c at p : ℕ)
    → i ≤ at
    → (leb i at && ltb at (i + c)) ≡ false
    → (leb i p && ltb p (i + c)) ≡ (leb i (before at p) && ltb (before at p) (i + c))
stays i c at p h k = ground arith

one_less :
    (i c at p : ℕ)
    → (leb i at && ltb at (i + c)) ≡ true
    → (leb i p && ltb p (i + (c - 1))) ≡ (leb i (before at p) && ltb (before at p) (i + c))
one_less i c at p h = ground arith

shifted_page :
    (at p : ℕ) (page : ModelPage)
    → has_index page at ≡ false
    → has_index (if ltb at page.index then record page { index = page.index - 1 } else page) p
      ≡ has_index page (before at p)
unfolding has_index
shifted_page at p page h = elim (Bool-cases (ltb at page.index)) [
  | inl e ↦ rw e (moved_down page.index page.count at p (ltb→lt at page.index e))
  | inr e ↦ rw e (stays page.index page.count at p (ground (arith, e)) h)
]

removed_page :
    (at p n : ℕ) (key : QString) (page : ModelPage)
    → has_index page at ≡ true
    → has_index
        (if ltb at page.index
          then record (page_remove page n key) { index = page.index - 1 }
          else page_remove page n key)
        p
      ≡ has_index page (before at p)
unfolding has_index page_remove
removed_page at p n key page h =
    let e : ltb at page.index ≡ false = not_before page.index page.count h in
    rw e (one_less page.index page.count at p h)
  where
    not_before : (i c : ℕ) → (leb i at && ltb at (i + c)) ≡ true → ltb at i ≡ false
    not_before i c h = ground arith

covers-shift_down :
    (at p : ℕ) (pages : List ModelPage)
    → covers pages at ≡ false
    → covers (shift_down at pages) p ≡ covers pages (before at p)
unfolding covers shift_down
covers-shift_down at p [] h = refl
covers-shift_down at p (page ∷ pages) h =
    let both = or_false (has_index page at) (covers pages at) h in
    rw (shifted_page at p page both.0, covers-shift_down at p pages both.1) refl
  where
    or_false : (a b : Bool) → (a || b) ≡ false → (a ≡ false) × (b ≡ false)
    or_false a b h = ground arith

-- If no position is in two pages, then after an item is removed at a position the pages have the
-- positions below it that they had, and from it on those that they had one higher.
pub covers-remove_pages :
    (at p n : ℕ) (key : QString) (pages : List ModelPage)
    → IsDisjoint pages
    → covers (remove_pages at n key pages).1 p ≡ covers pages (before at p)
unfolding covers remove_pages change_first shift_down
covers-remove_pages at p n key [] h = refl
covers-remove_pages at p n key (page ∷ pages) h = elim (Bool-cases (has_index page at)) [
  | inl e ↦ rw (e, removed_page at p n key page e, covers-shift_down at p pages (h.0 at e)) refl
  | inr e ↦ rw (e, shifted_page at p page e, covers-remove_pages at p n key pages h.1) refl
]

enough_pages :
    (items s : ℕ) → 0 < s → items ≤ s * max (items / s + (if items % s == 0 then 0 else 1)) 2
enough_pages items s h =
    let q = items / s in
    let r = items % s in
    elim (Bool-cases (r == 0)) [
      | inl e ↦
          let grows : s * (q + 0) ≤ s * max (q + 0) 2 = mul-le-mul_left s (omega arith) in
          rw e (omega (arith, grows, div-add-mod items s, (==_iff r 0).0 e))
      | inr e ↦
          let grows : s * (q + 1) ≤ s * max (q + 1) 2 = mul-le-mul_left s (omega arith) in
          rw e (omega (arith, grows, div-add-mod items s, mod-lt items h))
    ]

-- For every number of items, setPageSize gives pages of 25 to 100 items, two pages at least, and
-- room for that many items in all of them.
pub set_page_size-bounds :
    (cache : ModelCache) (items : ℕ)
    → let c = set_page_size cache items in
      (25 ≤ c.page_size)
      × (c.page_size ≤ 100)
      × (2 ≤ c.max_pages)
      × (items ≤ c.page_size * c.max_pages)
unfolding set_page_size
set_page_size-bounds cache items =
    let size = max (min 100 (items / 4)) 25 in
    (ground arith, ground arith, ground arith, enough_pages items size (ground arith))

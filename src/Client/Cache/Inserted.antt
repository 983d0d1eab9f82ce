-- ===== src/Client/Cache/Inserted.antt =====
-- src/client/qjsondbmodelcache_p.cpp: which positions the pages have after an item is inserted.
use qtjsondb.Prelude.{
  ℕ, ◌+◌, ◌-◌, ◌≤◌, ◌<◌, ◌≡◌, Bool, true, false, ◌&&◌, ◌||◌, List, [], ◌∷◌, arith, ltb, leb, ltb→lt,
  not, any, ◌==◌, if◌then◌else◌, Bool-cases, inl, inr,
}
use qtjsondb.Qt.Text.{QString}
use qtjsondb.Qt.Json.{QJsonObject}
use qtjsondb.Client.Cache.{ModelPage, has_index, takes, page_insert, change_first, shift_up}
use qtjsondb.Client.Cache.Operations.{insert_pages}
use qtjsondb.Client.Cache.Places.{covers}

-- The pages behind the first one that takes an item at a position.
unfoldable pub behind : ℕ → List ModelPage → List ModelPage
unfolding takes
behind at [] = []
behind at (page ∷ pages) = let rest = behind at pages in if takes page at then pages else rest

-- Where a position was before an item at `at` was inserted, unless it is this position.
abbrev pub unshifted : ℕ → ℕ → ℕ
unshifted at p = if ltb p at then p else p - 1

moved_up :
    (i c at p : ℕ)
    → at < i
    → (leb (i + 1) p && ltb p (i + 1 + c))
      ≡ (not (p == at) && (leb i (unshifted at p) && ltb (unshifted at p) (i + c)))
moved_up i c at p h = ground arith

stays :
    (i c at p : ℕ)
    → i ≤ at
    → (leb i at && ltb at (i + c)) ≡ false
    → (leb i p && ltb p (i + c))
      ≡ (not (p == at) && (leb i (unshifted at p) && ltb (unshifted at p) (i + c)))
stays i c at p h k = ground arith

one_more :
    (i c at p : ℕ)
    → (leb i at && leb at (i + c)) ≡ true
    → (leb i p && ltb p (i + (c + 1)))
      ≡ ((p == at) || (leb i (unshifted at p) && ltb (unshifted at p) (i + c)))
one_more i c at p h = ground arith

-- What a page has of an unshifted position, other than the one that is inserted at.
abbrev had : ℕ → ℕ → ModelPage → Bool
had at p page = not (p == at) && has_index page (unshifted at p)

abbrev pub all_had : ℕ → ℕ → List ModelPage → Bool
all_had at p pages = not (p == at) && covers pages (unshifted at p)

shifted_page :
    (at p : ℕ) (page : ModelPage)
    → has_index page at ≡ false
    → has_index (if ltb at page.index then record page { index = page.index + 1 } else page) p
      ≡ had at p page
unfolding has_index
shifted_page at p page h = elim (Bool-cases (ltb at page.index)) [
  | inl e ↦ rw e (moved_up page.index page.count at p (ltb→lt at page.index e))
  | inr e ↦ rw e (stays page.index page.count at p (ground (arith, e)) h)
]

grown_page :
    (at p n : ℕ) (key : QString) (o : QJsonObject) (page : ModelPage)
    → takes page at ≡ true
    → has_index
        (if ltb at page.index
          then record (page_insert page n key o) { index = page.index + 1 }
          else page_insert page n key o)
        p
      ≡ ((p == at) || has_index page (unshifted at p))
unfolding has_index page_insert takes
grown_page at p n key o page h =
    let e : ltb at page.index ≡ false = not_before page.index page.count h in
    rw e (one_more page.index page.count at p h)
  where
    not_before : (i c : ℕ) → (leb i at && leb at (i + c)) ≡ true → ltb at i ≡ false
    not_before i c h = ground arith

or_false : (a b : Bool) → (a || b) ≡ false → (a ≡ false) × (b ≡ false)
or_false a b h = ground arith

pub covers-shift_up :
    (at p : ℕ) (pages : List ModelPage)
    → covers pages at ≡ false
    → covers (shift_up at pages) p ≡ all_had at p pages
unfolding covers shift_up
covers-shift_up at p [] h = ground arith
covers-shift_up at p (page ∷ pages) h =
    let both = or_false (has_index page at) (covers pages at) h in
    rw (shifted_page at p page both.0, covers-shift_up at p pages both.1)
      (together (not (p == at)) (has_index page (unshifted at p)) (covers pages (unshifted at p)))
  where
    together : (e a b : Bool) → ((e && a) || (e && b)) ≡ (e && (a || b))
    together e a b = ground arith

pub not_taken : (at : ℕ) (page : ModelPage) → takes page at ≡ false → has_index page at ≡ false
unfolding takes has_index
not_taken at page h = number page.index page.count h
  where
    number : (i c : ℕ) → (leb i at && leb at (i + c)) ≡ false → (leb i at && ltb at (i + c)) ≡ false
    number i c h = ground arith

-- Let a page take the item that is inserted at a position, and let no page behind the first that
-- takes it have that position. Then the pages have the position, the positions below it that they
-- had, and those above it that they had one lower.
pub covers-insert_pages :
    (at p n : ℕ) (key : QString) (o : QJsonObject) (pages : List ModelPage)
    → any (λ page. takes page at) pages ≡ true
    → covers (behind at pages) at ≡ false
    → covers (insert_pages at n key o pages).1 p ≡ ((p == at) || covers pages (unshifted at p))
unfolding covers insert_pages change_first shift_up behind any
covers-insert_pages at p n key o [] some h = absurd (ground arith)
covers-insert_pages at p n key o (page ∷ pages) some h = elim (Bool-cases (takes page at)) [
  | inl e ↦
      let h' : covers pages at ≡ false = chosen_left (takes page at) e h in
      rw (e, grown_page at p n key o page e, covers-shift_up at p pages h')
        (here (p == at) (has_index page (unshifted at p)) (covers pages (unshifted at p)))
  | inr e ↦
      let h' : covers (behind at pages) at ≡ false = chosen_right (takes page at) e h in
      rw
        (
          e,
          shifted_page at p page (not_taken at page e),
          covers-insert_pages at p n key o pages (ground (arith, some, e)) h',
        )
        (later (p == at) (has_index page (unshifted at p)) (covers pages (unshifted at p)))
]
  where
    here : (e a b : Bool) → ((e || a) || (not e && b)) ≡ (e || (a || b))
    here e a b = ground arith

    later : (e a b : Bool) → ((not e && a) || (e || b)) ≡ (e || (a || b))
    later e a b = ground arith

    chosen_left :
        (b : Bool)
        → b ≡ true
        → covers (if b then pages else behind at pages) at ≡ false
        → covers pages at ≡ false
    chosen_left true e g = g
    chosen_left false e g = absurd (ground arith)

    chosen_right :
        (b : Bool)
        → b ≡ false
        → covers (if b then pages else behind at pages) at ≡ false
        → covers (behind at pages) at ≡ false
    chosen_right true e g = absurd (ground arith)
    chosen_right false e g = g

-- ===== src/Object/History/Hashes.antt =====
-- One entry of a history: the hashes of one update count, in ascending order.
use qtjsondb.Prelude.{◌≡◌, refl, inl, inr, true, false, ◌||◌, [], ◌∷◌, Option, none, some, arith}
use qtjsondb.Qt.Text.{
  QString, str_eq, str_lt, str_eq_iff, str_lt_trans, str_lt_irrefl, str_lt_ne, str_lt_asymm,
  str_eq_comm, str_trichotomy,
}
use qtjsondb.Qt.Json.{
  Value, null, str, arr, QJsonArray, to_list, to_string, is_string, contains_str, to_list-of_list,
}
use qtjsondb.Object.History.{place_at, place, or_prepend, add_hash, is_known}

-- Every text of the list is above `s`.
abbrev pub Above : QString → QJsonArray → Type 0
Above s [] = Unit
Above s (v ∷ vs) = (str_lt s (to_string v) ≡ true) × Above s vs

abbrev pub Ascending : QJsonArray → Type 0
Ascending [] = Unit
Ascending (v ∷ vs) = (is_string v ≡ true) × Above (to_string v) vs × Ascending vs

abbrev pub IsEntry : Value → Type 0
IsEntry null = Unit
IsEntry (str s) = Unit
IsEntry (arr xs) = Ascending (to_list xs)
IsEntry _ = ⊥

Above-trans : (s t : QString) (vs : QJsonArray) → str_lt s t ≡ true → Above t vs → Above s vs
Above-trans s t [] h a = tt
Above-trans s t (v ∷ vs) h a = (str_lt_trans s t (to_string v) h a.0, Above-trans s t vs h a.1)

-- What the loop leaves: the hash is in, or it is below every entry.
abbrev Placed : QJsonArray → QString → Option QJsonArray → Type 0
Placed vs h none = Above h vs
Placed vs h (some r) =
    Ascending r
    × ((s : QString) → contains_str r s ≡ (contains_str vs s || str_eq h s))
    × ((s : QString) → Above s vs → Above s r)

contains-Above :
    (h : QString) (vs : QJsonArray) → Ascending vs → Above h vs → contains_str vs h ≡ false
unfolding contains_str
contains-Above h [] a b = refl
contains-Above h (str t ∷ vs) a b =
    ground (arith, contains-Above h vs a.2 b.1, str_eq_iff t h, str_lt_irrefl h)
contains-Above h (_ ∷ vs) a b = cc

-- One round of the loop, over an entry that is a text.
place_at-Placed :
    (t : QString) (vs : QJsonArray) (h : QString) (o : Option QJsonArray)
    → Above t vs
    → Ascending vs
    → Placed vs h o
    → Placed (str t ∷ vs) h (place_at (str t) vs h o)
unfolding contains_str
place_at-Placed t vs h (some r) above sorted p =
    ((refl, p.2 t above, p.0), λ s. ground (arith, p.1 s), λ s a. (a.0, p.2 s a.1))
place_at-Placed t vs h none above sorted p = elim (str_trichotomy t h) [
  | inl lt ↦
      rw (str_lt_ne t h lt, lt)
        (
          (refl, (lt, above), (refl, p, sorted)),
          λ s. ground arith,
          λ s a. (a.0, (str_lt_trans s t h a.0 lt, a.1)),
        )
  | inr (inl e) ↦
      rw ((str_eq_iff t h).1 e) ((refl, above, sorted), λ s. rw (← e) (ground arith), λ s a. a)
  | inr (inr gt) ↦ rw (str_eq_comm t h, str_lt_ne h t gt, str_lt_asymm h t gt) (gt, p)
]

place-Placed : (vs : QJsonArray) (h : QString) → Ascending vs → Placed vs h (place vs h)
unfolding place
place-Placed [] h a = tt
place-Placed (str t ∷ vs) h a = place_at-Placed t vs h (place vs h) a.1 a.2 (place-Placed vs h a.2)
place-Placed (_ ∷ vs) h a = cc

or_prepend-Ascending :
    (vs : QJsonArray) (h : QString) (o : Option QJsonArray)
    → Ascending vs
    → Placed vs h o
    → Ascending (or_prepend o vs h)
      × ((s : QString) → contains_str (or_prepend o vs h) s ≡ (contains_str vs s || str_eq h s))
unfolding contains_str
or_prepend-Ascending vs h none sorted p = ((refl, p, sorted), λ s. ground arith)
or_prepend-Ascending vs h (some r) sorted p = (p.0, p.1)

-- The hashes of an entry stay in ascending order.
pub add_hash-IsEntry : (v : Value) (h : QString) → IsEntry v → IsEntry (add_hash v h)
unfolding add_hash
add_hash-IsEntry (str t) h e = elim (str_trichotomy t h) [
  | inl lt ↦ rw (str_lt_ne t h lt, lt) (refl, (lt, tt), (refl, tt, tt))
  | inr (inl eq) ↦ rw ((str_eq_iff t h).1 eq) tt
  | inr (inr gt) ↦
      rw (str_eq_comm t h, str_lt_ne h t gt, str_lt_asymm h t gt, gt)
        (refl, (gt, tt), (refl, tt, tt))
]
add_hash-IsEntry (arr xs) h e =
    rw to_list-of_list (or_prepend-Ascending _ h _ e (place-Placed (to_list xs) h e)).0
add_hash-IsEntry null h e = tt
add_hash-IsEntry _ h e = absurd e

-- The new entry knows the hash, and what the old one knew.
pub is_known-add_hash :
    (v : Value) (h s : QString)
    → IsEntry v
    → is_known (add_hash v h) s ≡ (is_known v s || str_eq h s)
unfolding add_hash is_known contains_str
is_known-add_hash (str t) h s e = elim (str_trichotomy t h) [
  | inl lt ↦ rw (str_lt_ne t h lt, lt) (ground arith)
  | inr (inl eq) ↦ rw ((str_eq_iff t h).1 eq, ← eq) (ground arith)
  | inr (inr gt) ↦ rw (str_eq_comm t h, str_lt_ne h t gt, str_lt_asymm h t gt, gt) (ground arith)
]
is_known-add_hash (arr xs) h s e =
    rw to_list-of_list ((or_prepend-Ascending _ h _ e (place-Placed (to_list xs) h e)).1 s)
is_known-add_hash null h s e = refl
is_known-add_hash _ h s e = absurd e

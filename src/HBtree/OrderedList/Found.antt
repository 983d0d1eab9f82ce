-- ===== src/HBtree/OrderedList/Found.antt =====
-- A key that is found, and one that is removed.
use qtjsondb.Prelude.{
  ℕ, zero, suc, ◌≡◌, refl, sym, ap, subst, ◌∙◌, Bool, true, false, List, [], ◌∷◌, Option, none,
  some, ◌==◌, ==_iff, length, get_elem?, not, if◌then◌else◌, arith, Bool-cases, inl, inr,
}
use qtjsondb.HBtree.OrderedList.{Searches, remove_at, remove}
use qtjsondb.HBtree.OrderedList.Laws.{
  KeyLaws, AllAbove, IsSorted, IsFound, lookup, same_refl, not_same, lookup_above,
}

abbrev pub value_of : {K V : Type 0} → Option (K × V) → Option V
value_of none = none
value_of (some p) = some p.1

abbrev pub is_some : {A : Type 0} → Option A → Bool
is_some none = false
is_some (some a) = true

module _ {K V : Type 0} (s : Searches K V) (keys : KeyLaws s) where
  pub lookup-remove_at :
      (i : ℕ) (pairs : List (K × V)) (key j : K)
      → IsFound s i key pairs
      → IsSorted s pairs
      → lookup s (remove_at i pairs) j ≡ (if s.same key j then none else lookup s pairs j)
  unfolding lookup remove_at
  lookup-remove_at zero [] key j h sorted = ground arith
  lookup-remove_at zero (p ∷ pairs) key j h sorted = elim (Bool-cases (s.same key j)) [
    | inl e ↦ rw e (
        lookup_above s keys pairs j
          (subst (λ k. AllAbove s k pairs) (h ∙ (keys.same_iff key j).0 e) sorted.0))
    | inr e ↦ rw (h, e) refl
  ]
  lookup-remove_at (suc i) [] key j h sorted = absurd h
  lookup-remove_at (suc i) (p ∷ pairs) key j h sorted =
      rw (lookup-remove_at i pairs key j h.1 sorted.1) (elim (Bool-cases (s.same key j)) [
        | inl e ↦
            let other : s.same p.0 j ≡ false =
              not_same s keys p.0 j (λ g. h.0 (g ∙ sym ((keys.same_iff key j).0 e))) in
            rw (e, other) refl
        | inr e ↦ rw e refl
      ])

  AllAbove-remove_at :
      (a : K) (i : ℕ) (pairs : List (K × V)) → AllAbove s a pairs → AllAbove s a (remove_at i pairs)
  unfolding remove_at
  AllAbove-remove_at a i [] above = tt
  AllAbove-remove_at a zero (p ∷ pairs) above = above.1
  AllAbove-remove_at a (suc i) (p ∷ pairs) above = (above.0, AllAbove-remove_at a i pairs above.1)

  pub remove_at-IsSorted :
      (i : ℕ) (pairs : List (K × V)) → IsSorted s pairs → IsSorted s (remove_at i pairs)
  unfolding remove_at
  remove_at-IsSorted i [] sorted = tt
  remove_at-IsSorted zero (p ∷ pairs) sorted = sorted.1
  remove_at-IsSorted (suc i) (p ∷ pairs) sorted =
      (AllAbove-remove_at p.0 i pairs sorted.0, remove_at-IsSorted i pairs sorted.1)

  remove_at-end : (pairs : List (K × V)) → remove_at (length pairs) pairs ≡ pairs
  unfolding remove_at
  remove_at-end [] = refl
  remove_at-end (p ∷ pairs) = ap (◌∷◌ p) (remove_at-end pairs)

  pub remove-remove_at :
      (pairs : List (K × V)) (key : K)
      → remove s pairs key ≡ remove_at (s.binary_find pairs key) pairs
  unfolding remove
  remove-remove_at pairs key = elim (Bool-cases (s.binary_find pairs key == length pairs)) [
    | inl e ↦ rw (e, (==_iff _ _).0 e) (sym (remove_at-end pairs))
    | inr e ↦ rw e refl
  ]

  pub found_lookup :
      (i : ℕ) (pairs : List (K × V)) (key : K)
      → IsFound s i key pairs
      → lookup s pairs key ≡ value_of (get_elem? pairs i)
  unfolding lookup
  found_lookup zero [] key h = refl
  found_lookup zero (p ∷ pairs) key h = rw (h, same_refl s keys key) refl
  found_lookup (suc i) [] key h = absurd h
  found_lookup (suc i) (p ∷ pairs) key h =
      rw (not_same s keys p.0 key h.0) (found_lookup i pairs key h.1)

  pub found_end :
      (i : ℕ) (pairs : List (K × V)) (key : K)
      → IsFound s i key pairs
      → not (i == length pairs) ≡ is_some (value_of (get_elem? pairs i))
  found_end zero [] key h = refl
  found_end zero (p ∷ pairs) key h = ground arith
  found_end (suc i) [] key h = absurd h
  found_end (suc i) (p ∷ pairs) key h = ground (arith, found_end i pairs key h.1)

-- ===== src/HBtree/OrderedList/Place.antt =====
-- A pair that is placed at the position of its key.
use qtjsondb.Prelude.{
  ℕ, zero, suc, ◌≡◌, refl, sym, ap, subst, true, List, [], ◌∷◌, Option, none, some, get_elem?,
  if◌then◌else◌, arith, Bool-cases, inl, inr,
}
use qtjsondb.HBtree.OrderedList.{Searches, replace_at, insert_at, put_pair, ensure}
use qtjsondb.HBtree.OrderedList.Laws.{
  KeyLaws, AllAbove, IsSorted, IsLowerBound, lookup, less-same, AllAbove-trans,
}

module _ {K V : Type 0} (s : Searches K V) (keys : KeyLaws s) where
  put_pair-suc :
      (p : K × V) (pairs : List (K × V)) (i : ℕ) (key : K) (v : V) (o : Option (K × V))
      → put_pair s (p ∷ pairs) (suc i) key v o ≡ p ∷ put_pair s pairs i key v o
  unfolding replace_at insert_at
  put_pair-suc p pairs i key v none = refl
  put_pair-suc p pairs i key v (some pair) = elim (Bool-cases (s.same pair.0 key)) [
    | inl e ↦ rw e refl
    | inr e ↦ rw e refl
  ]

  pub lookup-put_pair :
      (i : ℕ) (pairs : List (K × V)) (key : K) (v : V) (j : K)
      → IsLowerBound s i key pairs
      → lookup s (put_pair s pairs i key v (get_elem? pairs i)) j
        ≡ (if s.same key j then some v else lookup s pairs j)
  unfolding lookup replace_at insert_at
  lookup-put_pair zero [] key v j h = refl
  lookup-put_pair zero (p ∷ pairs) key v j h = elim (Bool-cases (s.same p.0 key)) [
    | inl e ↦ rw (e, (keys.same_iff p.0 key).0 e) (ground arith)
    | inr e ↦ rw e refl
  ]
  lookup-put_pair (suc i) [] key v j h = absurd h
  lookup-put_pair (suc i) (p ∷ pairs) key v j h =
      rw (put_pair-suc p pairs i key v (get_elem? pairs i), lookup-put_pair i pairs key v j h.1)
        (elim (Bool-cases (s.same key j)) [
          | inl e ↦ rw (e, sym ((keys.same_iff key j).0 e), less-same s keys p.0 key h.0) refl
          | inr e ↦ rw e refl
        ])

  AllAbove-put_pair :
      (a : K) (i : ℕ) (pairs : List (K × V)) (key : K) (v : V)
      → s.less a key ≡ true
      → AllAbove s a pairs
      → AllAbove s a (put_pair s pairs i key v (get_elem? pairs i))
  unfolding replace_at insert_at
  AllAbove-put_pair a i [] key v h above = (h, tt)
  AllAbove-put_pair a zero (p ∷ pairs) key v h above = elim (Bool-cases (s.same p.0 key)) [
    | inl e ↦ rw e (h, above.1)
    | inr e ↦ rw e (h, above)
  ]
  AllAbove-put_pair a (suc i) (p ∷ pairs) key v h above =
      rw (put_pair-suc p pairs i key v (get_elem? pairs i))
        (above.0, AllAbove-put_pair a i pairs key v h above.1)

  pub put_pair-IsSorted :
      (i : ℕ) (pairs : List (K × V)) (key : K) (v : V)
      → IsLowerBound s i key pairs
      → IsSorted s pairs
      → IsSorted s (put_pair s pairs i key v (get_elem? pairs i))
  unfolding replace_at insert_at
  put_pair-IsSorted zero [] key v h sorted = (tt, tt)
  put_pair-IsSorted zero (p ∷ pairs) key v h sorted = elim (Bool-cases (s.same p.0 key)) [
    | inl e ↦
        rw e (subst (λ k. AllAbove s k pairs) ((keys.same_iff p.0 key).0 e) sorted.0, sorted.1)
    | inr e ↦
        let above = keys.less_total p.0 key h e in
        rw e ((above, AllAbove-trans s keys key p.0 pairs above sorted.0), sorted)
  ]
  put_pair-IsSorted (suc i) [] key v h sorted = absurd h
  put_pair-IsSorted (suc i) (p ∷ pairs) key v h sorted =
      rw (put_pair-suc p pairs i key v (get_elem? pairs i)) (
        AllAbove-put_pair p.0 i pairs key v h.0 sorted.0,
        put_pair-IsSorted i pairs key v h.1 sorted.1,
      )

  -- The assignment through operator [] is an insertion.
  ensure-suc :
      (p : K × V) (pairs : List (K × V)) (i : ℕ) (key : K) (o : Option (K × V))
      → ensure s (p ∷ pairs) (suc i) key o ≡ p ∷ ensure s pairs i key o
  unfolding insert_at
  ensure-suc p pairs i key none = refl
  ensure-suc p pairs i key (some pair) = elim (Bool-cases (s.same pair.0 key)) [
    | inl e ↦ rw e refl
    | inr e ↦ rw e refl
  ]

  pub replace_at-ensure :
      (i : ℕ) (pairs : List (K × V)) (key : K) (v : V)
      → IsLowerBound s i key pairs
      → replace_at i (key, v) (ensure s pairs i key (get_elem? pairs i))
        ≡ put_pair s pairs i key v (get_elem? pairs i)
  unfolding replace_at insert_at
  replace_at-ensure zero [] key v h = refl
  replace_at-ensure zero (p ∷ pairs) key v h = elim (Bool-cases (s.same p.0 key)) [
    | inl e ↦ rw e refl
    | inr e ↦ rw e refl
  ]
  replace_at-ensure (suc i) [] key v h = absurd h
  replace_at-ensure (suc i) (p ∷ pairs) key v h =
      rw
        (
          put_pair-suc p pairs i key v (get_elem? pairs i),
          ensure-suc p pairs i key (get_elem? pairs i),
        )
        (ap (◌∷◌ p) (replace_at-ensure i pairs key v h.1))

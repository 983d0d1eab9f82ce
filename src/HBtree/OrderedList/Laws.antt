-- ===== src/HBtree/OrderedList/Laws.antt =====
-- Sorted lists of keys, what Qt's searches find in them, and the finite map that one stands for.
use qtjsondb.Prelude.{
  ℕ, zero, suc, ◌≡◌, ◌≢◌, ◌↔◌, refl, sym, subst, true, false, List, [], ◌∷◌, Option, none, some,
  if◌then◌else◌, arith, Bool-cases, inl, inr,
}
use qtjsondb.HBtree.OrderedList.{Searches}

module _ {K V : Type 0} (s : Searches K V) where
  -- The keys are totally ordered.
  pub record KeyLaws : Type 0 where
    pub same_iff : (a b : K) → (s.same a b ≡ true) ↔ (a ≡ b)
    pub less_irrefl : (a : K) → s.less a a ≡ false
    pub less_trans : (a b c : K) → s.less a b ≡ true → s.less b c ≡ true → s.less a c ≡ true
    pub less_total : (a b : K) → s.less a b ≡ false → s.same a b ≡ false → s.less b a ≡ true

  abbrev pub AllAbove : K → List (K × V) → Type 0
  AllAbove key [] = Unit {0}
  AllAbove key (p ∷ pairs) = (s.less key p.0 ≡ true) × AllAbove key pairs

  abbrev pub IsSorted : List (K × V) → Type 0
  IsSorted [] = Unit {0}
  IsSorted (p ∷ pairs) = AllAbove p.0 pairs × IsSorted pairs

  -- The position of the first key that is not below.
  abbrev pub IsLowerBound : ℕ → K → List (K × V) → Type 0
  IsLowerBound zero key [] = Unit {0}
  IsLowerBound zero key (p ∷ pairs) = s.less p.0 key ≡ false
  IsLowerBound (suc i) key [] = ⊥
  IsLowerBound (suc i) key (p ∷ pairs) = (s.less p.0 key ≡ true) × IsLowerBound i key pairs

  -- The position of the key, or the end where there is none.
  abbrev pub IsFound : ℕ → K → List (K × V) → Type 0
  IsFound zero key [] = Unit {0}
  IsFound zero key (p ∷ pairs) = p.0 ≡ key
  IsFound (suc i) key [] = ⊥
  IsFound (suc i) key (p ∷ pairs) = (p.0 ≢ key) × IsFound i key pairs

  -- What Qt's documentation says of the searches in a list that is sorted, here without equal keys.
  pub record SearchLaws : Type 0 where
    pub lower_bound-IsLowerBound :
        (pairs : List (K × V)) (key : K)
        → IsSorted pairs
        → IsLowerBound (s.lower_bound pairs key) key pairs
    pub binary_find-IsFound :
        (pairs : List (K × V)) (key : K)
        → IsSorted pairs
        → IsFound (s.binary_find pairs key) key pairs

  -- The finite map that a list stands for.
  unfoldable pub lookup : List (K × V) → K → Option V
  lookup [] key = none
  lookup (p ∷ pairs) key = if s.same p.0 key then some p.1 else lookup pairs key

  module _ (keys : KeyLaws) where
    pub same_refl : (a : K) → s.same a a ≡ true
    same_refl a = (keys.same_iff a a).1 refl

    pub same_comm : (a b : K) → s.same a b ≡ s.same b a
    same_comm a b = ground (arith, keys.same_iff a b, keys.same_iff b a)

    pub less-same : (a b : K) → s.less a b ≡ true → s.same a b ≡ false
    less-same a b h = elim (Bool-cases (s.same a b)) [
      | inl e ↦
          let h' = subst (λ x. s.less a x ≡ true) (sym ((keys.same_iff a b).0 e)) h in
          let i = keys.less_irrefl a in absurd cc
      | inr e ↦ e
    ]

    pub not_same : (a b : K) → a ≢ b → s.same a b ≡ false
    not_same a b ne = elim (Bool-cases (s.same a b)) [
      | inl e ↦ absurd (ne ((keys.same_iff a b).0 e))
      | inr e ↦ e
    ]

    pub AllAbove-trans :
        (a b : K) (pairs : List (K × V)) → s.less a b ≡ true → AllAbove b pairs → AllAbove a pairs
    AllAbove-trans a b [] h above = tt
    AllAbove-trans a b (p ∷ pairs) h above =
        (keys.less_trans a b p.0 h above.0, AllAbove-trans a b pairs h above.1)

    pub lookup_above :
        (pairs : List (K × V)) (key : K) → AllAbove key pairs → lookup pairs key ≡ none
    unfolding lookup
    lookup_above [] key above = refl
    lookup_above (p ∷ pairs) key above =
        rw (same_comm p.0 key, less-same key p.0 above.0) (lookup_above pairs key above.1)

-- ===== src/Prelude/Pieces.antt =====
-- Lists that are put together and cut.
use Prim.Native.Nat.{ℕ, zero, suc, ◌≤◌, ◌<◌}
use mathlib.Core.Path.{◌≡◌, refl, ap}
use mathlib.Core.Logic.{◌⊎◌, inl, inr}
use mathlib.Core.List.{List, [], ◌∷◌, ◌++◌}
use native.Mathlib.Omega.{arith}
use qtjsondb.Prelude.Lists.{length, take, drop}

module _ {ℓ} {A : Type ℓ} where
  pub append_nil : (xs : List A) → xs ++ [] ≡ xs
  append_nil [] = refl
  append_nil (x ∷ xs) = ap (◌∷◌ x) (append_nil xs)

  pub nil_of_append : (xs ys : List A) → xs ++ ys ≡ [] → xs ≡ []
  nil_of_append [] ys h = refl
  nil_of_append (x ∷ xs) ys h = cc

  pub cuts :
      (a b c d : List A)
      → a ++ b ≡ c ++ d
      → ((m : List A) × ((a ≡ c ++ m) × (m ++ b ≡ d)))
        ⊎ ((a ≡ take (length a) c) × (length a < length c))
  cuts a b [] d e = inl (a, (refl, e))
  cuts [] b (y ∷ c) d e = inr (refl, omega arith)
  cuts (x ∷ a) b (y ∷ c) d e =
      let same : x ≡ y = cc in
      elim (cuts a b c d cc) [
        | inl (m, (h, g)) ↦ inl (m, (cc, g))
        | inr (h, l) ↦ inr (cc, omega arith)
      ]

  pub take-append : (n : ℕ) (a b : List A) → n ≤ length a → take n (a ++ b) ≡ take n a
  take-append zero a b h = refl
  take-append (suc n) [] b h = absurd (omega arith)
  take-append (suc n) (x ∷ a) b h = ap (◌∷◌ x) (take-append n a b (omega arith))

  pub drop-append : (a b : List A) → drop (length a) (a ++ b) ≡ b
  drop-append [] b = refl
  drop-append (x ∷ a) b = drop-append a b

  pub take-drop : (n : ℕ) (xs : List A) → take n xs ++ drop n xs ≡ xs
  take-drop zero xs = refl
  take-drop (suc n) [] = refl
  take-drop (suc n) (x ∷ xs) = ap (◌∷◌ x) (take-drop n xs)

  pub drop_short : (n k : ℕ) (xs : List A) → k ≤ n → drop n (take k xs) ≡ []
  drop_short zero zero xs h = refl
  drop_short zero (suc k) xs h = absurd (omega arith)
  drop_short (suc n) zero xs h = refl
  drop_short (suc n) (suc k) [] h = refl
  drop_short (suc n) (suc k) (x ∷ xs) h = drop_short n k xs (omega arith)

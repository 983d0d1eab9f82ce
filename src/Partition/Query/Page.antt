-- ===== src/Partition/Query/Page.antt =====
-- src/partition/jsondbpartition.cpp: the page that an offset and a limit cut out of a list.
use qtjsondb.Prelude.{
  zero, suc, ◌≡◌, refl, false, ◌&&◌, not, List, [], ◌∷◌, ℤ, pos, negsuc, pos_part, if◌then◌else◌,
  take, drop,
}
use qtjsondb.Partition.Query.{pred, is_nonzero, is_positive}

-- As many as the limit allows, from the offset on; all from there if the limit is negative.
abbrev limited {ℓ} : {A : Type ℓ} → ℤ → List A → List A
limited (pos n) xs = take n xs
limited (negsuc n) xs = xs

abbrev pub page {ℓ} : {A : Type ℓ} → ℤ → ℤ → List A → List A
page limit offset xs = limited limit (drop (pos_part offset) xs)

pub page_nil {ℓ} : {A : Type ℓ} (limit offset : ℤ) → page {A = A} limit offset [] ≡ []
page_nil (pos zero) (pos zero) = refl
page_nil (pos zero) (pos (suc k)) = refl
page_nil (pos zero) (negsuc k) = refl
page_nil (pos (suc n)) (pos zero) = refl
page_nil (pos (suc n)) (pos (suc k)) = refl
page_nil (pos (suc n)) (negsuc k) = refl
page_nil (negsuc n) (pos zero) = refl
page_nil (negsuc n) (pos (suc k)) = refl
page_nil (negsuc n) (negsuc k) = refl

-- A page by its first object, as the loop makes it.
pub page_cons {ℓ} :
    {A : Type ℓ} (limit offset : ℤ) (x : A) (xs : List A)
    → page limit offset (x ∷ xs) ≡ (
        if is_nonzero limit && not (is_positive offset)
        then x ∷ page (pred limit) (pred offset) xs
        else page limit (pred offset) xs)
page_cons (pos zero) (pos zero) x xs = refl
page_cons (pos zero) (pos (suc k)) x xs = refl
page_cons (pos zero) (negsuc k) x xs = refl
page_cons (pos (suc n)) (pos zero) x xs = refl
page_cons (pos (suc n)) (pos (suc k)) x xs = refl
page_cons (pos (suc n)) (negsuc k) x xs = refl
page_cons (negsuc n) (pos zero) x xs = refl
page_cons (negsuc n) (pos (suc k)) x xs = refl
page_cons (negsuc n) (negsuc k) x xs = refl

pub page_ended {ℓ} :
    {A : Type ℓ} (limit offset : ℤ) (xs : List A)
    → is_nonzero limit ≡ false
    → page limit offset xs ≡ []
page_ended (pos zero) offset xs h = refl
page_ended (pos (suc n)) offset xs h = absurd (cc)
page_ended (negsuc n) offset xs h = absurd (cc)

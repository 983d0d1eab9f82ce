-- ===== src/Qt/Text.antt =====
-- QString as the list of its UTF-16 code units, with the operations that the sources call:
-- `==`, `<` (by code units), `split` at one character, `startsWith`, `join`, `contains`.
use Prim.Native.Char.{code}
use Prim.Native.String.{String}
use qtjsondb.Prelude.{
  ℕ, ◌≡◌, refl, ◌↔◌, ◌⊎◌, inl, inr, Bool, true, false, ◌&&◌, ◌||◌, List, [], ◌∷◌, ◌++◌, arith, ltb,
  ◌==◌, if◌then◌else◌,
}

abbrev pub QString : Type 0
QString = List ℕ

-- The code units of a literal of ASCII characters.
abbrev pub codes : String → QString
codes String.[] = []
codes (String.◌∷◌ c s) = code c ∷ codes s

unfoldable pub str_eq : QString → QString → Bool
str_eq [] [] = true
str_eq [] (b ∷ t) = false
str_eq (a ∷ s) [] = false
str_eq (a ∷ s) (b ∷ t) = (a == b) && str_eq s t

unfoldable pub str_lt : QString → QString → Bool
str_lt s [] = false
str_lt [] (b ∷ t) = true
str_lt (a ∷ s) (b ∷ t) = ltb a b || ((a == b) && str_lt s t)

unfoldable pub starts_with : QString → QString → Bool
starts_with s [] = true
starts_with [] (c ∷ p) = false
starts_with (a ∷ s) (c ∷ p) = (a == c) && starts_with s p

abbrev add_unit : ℕ → List QString → List QString
add_unit c [] = (c ∷ []) ∷ []
add_unit c (part ∷ parts) = (c ∷ part) ∷ parts

-- split(QChar), which keeps empty parts: a text with n separators has n + 1 parts.
unfoldable pub split : ℕ → QString → List QString
split sep [] = [] ∷ []
split sep (c ∷ s) = let rest = split sep s in if c == sep then [] ∷ rest else add_unit c rest

unfoldable pub has_unit : ℕ → QString → Bool
has_unit sep [] = false
has_unit sep (c ∷ s) = (c == sep) || has_unit sep s

pub str_eq_iff : (s t : QString) → (str_eq s t ≡ true) ↔ (s ≡ t)
unfolding str_eq
str_eq_iff [] [] = ground arith
str_eq_iff [] (b ∷ t) = ground arith
str_eq_iff (a ∷ s) [] = ground arith
str_eq_iff (a ∷ s) (b ∷ t) = ground (arith, str_eq_iff s t)

pub str_eq_refl : (s : QString) → str_eq s s ≡ true
str_eq_refl s = (str_eq_iff s s).1 refl

pub str_lt_irrefl : (s : QString) → str_lt s s ≡ false
unfolding str_lt
str_lt_irrefl [] = refl
str_lt_irrefl (a ∷ s) = ground (arith, str_lt_irrefl s)

pub str_lt_trans : (s t u : QString) → str_lt s t ≡ true → str_lt t u ≡ true → str_lt s u ≡ true
unfolding str_lt
str_lt_trans s t [] h k = ground arith
str_lt_trans s [] (c ∷ u) h k = ground arith
str_lt_trans [] (b ∷ t) (c ∷ u) h k = refl
str_lt_trans (a ∷ s) (b ∷ t) (c ∷ u) h k = ground (arith, str_lt_trans s t u)

pub str_lt_ne : (s t : QString) → str_lt s t ≡ true → str_eq s t ≡ false
unfolding str_lt str_eq
str_lt_ne s [] h = ground arith
str_lt_ne [] (b ∷ t) h = refl
str_lt_ne (a ∷ s) (b ∷ t) h = ground (arith, str_lt_ne s t)

pub str_lt_asymm : (s t : QString) → str_lt s t ≡ true → str_lt t s ≡ false
unfolding str_lt
str_lt_asymm s [] h = ground arith
str_lt_asymm [] (b ∷ t) h = refl
str_lt_asymm (a ∷ s) (b ∷ t) h = ground (arith, str_lt_asymm s t)

pub str_eq_comm : (s t : QString) → str_eq s t ≡ str_eq t s
unfolding str_eq
str_eq_comm [] [] = refl
str_eq_comm [] (b ∷ t) = refl
str_eq_comm (a ∷ s) [] = refl
str_eq_comm (a ∷ s) (b ∷ t) = ground (arith, str_eq_comm s t)

-- Of two texts one is less, or they are equal.
pub str_trichotomy : (s t : QString) → (str_lt s t ≡ true) ⊎ ((s ≡ t) ⊎ (str_lt t s ≡ true))
unfolding str_lt
str_trichotomy [] [] = inr (inl refl)
str_trichotomy [] (b ∷ t) = inl refl
str_trichotomy (a ∷ s) [] = inr (inr refl)
str_trichotomy (a ∷ s) (b ∷ t) = ground (arith, str_trichotomy s t)

-- A text without the separator is one part.
pub split_none : (sep : ℕ) (s : QString) → has_unit sep s ≡ false → split sep s ≡ s ∷ []
unfolding split has_unit
split_none sep [] h = refl
split_none sep (c ∷ s) h = ground (arith, split_none sep s)

-- A text with one separator is the two parts around it.
pub split_once :
    (sep : ℕ) (s t : QString)
    → has_unit sep s ≡ false
    → has_unit sep t ≡ false
    → split sep (s ++ sep ∷ t) ≡ s ∷ t ∷ []
unfolding split has_unit
split_once sep [] t h k = ground (arith, split_none sep t)
split_once sep (c ∷ s) t h k = ground (arith, split_once sep s t)

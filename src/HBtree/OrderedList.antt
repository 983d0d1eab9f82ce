-- ===== src/HBtree/OrderedList.antt =====
-- src/hbtree/orderedlist_p.h: a map that is kept as a list of pairs in the order of the keys. The
-- iterators are positions in the list. Qt's binary searches are parameters, with none of the
-- order's laws assumed.
pub mod Laws
pub mod Place
pub mod Found
pub mod Refines
mod Tests
use qtjsondb.Prelude.{
  ℕ, zero, suc, Bool, true, false, List, [], ◌∷◌, ◌++◌, Option, none, some, ◌==◌, length, get_elem?,
  not, if◌then◌else◌,
}

-- The comparison cmp_, == on keys, and Qt's qLowerBound and qBinaryFind, which give positions.
pub record Searches (K V : Type 0) : Type 0 where
  pub less : K → K → Bool
  pub same : K → K → Bool
  pub lower_bound : List (K × V) → K → ℕ
  pub binary_find : List (K × V) → K → ℕ
  -- value_type()
  pub default_value : V

-- QList::replace, insert and removeAt.
module _ {A : Type 0} where
  unfoldable pub replace_at : ℕ → A → List A → List A
  replace_at i x [] = []
  replace_at zero x (y ∷ ys) = x ∷ ys
  replace_at (suc i) x (y ∷ ys) = y ∷ replace_at i x ys

  unfoldable pub insert_at : ℕ → A → List A → List A
  insert_at zero x ys = x ∷ ys
  insert_at (suc i) x [] = []
  insert_at (suc i) x (y ∷ ys) = y ∷ insert_at i x ys

  unfoldable pub remove_at : ℕ → List A → List A
  remove_at i [] = []
  remove_at zero (y ∷ ys) = ys
  remove_at (suc i) (y ∷ ys) = y ∷ remove_at i ys

module _ {K V : Type 0} (s : Searches K V) where
  -- The pair at a position, and none at the end.
  abbrev pub put_pair : List (K × V) → ℕ → K → V → Option (K × V) → List (K × V)
  put_pair pairs i key v none = pairs ++ (key, v) ∷ []
  put_pair pairs i key v (some pair) =
      if s.same pair.0 key then replace_at i (key, v) pairs else insert_at i (key, v) pairs

  unfoldable pub insert : List (K × V) → K → V → List (K × V)
  unfolding replace_at insert_at
  insert pairs key v = let i = s.lower_bound pairs key in put_pair pairs i key v (get_elem? pairs i)

  unfoldable pub contains : List (K × V) → K → Bool
  contains pairs key = not (s.binary_find pairs key == length pairs)

  abbrev pub ensure : List (K × V) → ℕ → K → Option (K × V) → List (K × V)
  ensure pairs i key none = pairs ++ (key, s.default_value) ∷ []
  ensure pairs i key (some pair) =
      if s.same pair.0 key then pairs else insert_at i (key, s.default_value) pairs

  -- operator [], and the assignment to the reference that it gives.
  unfoldable pub assign : List (K × V) → K → V → List (K × V)
  unfolding replace_at insert_at
  assign pairs key v =
      let i = s.lower_bound pairs key in
      replace_at i (key, v) (ensure pairs i key (get_elem? pairs i))

  abbrev pub value_at : V → Option (K × V) → V
  value_at default none = default
  value_at default (some pair) = pair.1

  -- value, with a default.
  unfoldable pub value : List (K × V) → K → V → V
  value pairs key default = value_at default (get_elem? pairs (s.binary_find pairs key))

  unfoldable pub remove : List (K × V) → K → List (K × V)
  unfolding remove_at
  remove pairs key =
      let i = s.binary_find pairs key in
      if not (i == length pairs) then remove_at i pairs else pairs

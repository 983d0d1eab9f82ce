-- ===== src/HBtree/OrderedList/Tests.antt =====
-- src/hbtree/orderedlist_p.h on numbers, with searches that go from the front.
use qtjsondb.Prelude.{
  ℕ, suc, ◌≡◌, List, [], ◌∷◌, none, ◌==◌, ltb, if◌then◌else◌, arith, Bool-cases, inl, inr,
}
use qtjsondb.HBtree.OrderedList.{Searches, contains, value}
use qtjsondb.HBtree.OrderedList.Laws.{KeyLaws, SearchLaws, IsLowerBound, IsFound}
use qtjsondb.HBtree.OrderedList.Found.{is_some}
use qtjsondb.HBtree.OrderedList.Refines.{
  Operation, inserts, assigns, removes, run_operations, updates, value_or, run_operations_refine,
}

unfoldable lower : List (ℕ × ℕ) → ℕ → ℕ
lower [] key = 0
lower (p ∷ pairs) key = let rest = lower pairs key in if ltb p.0 key then suc rest else 0

unfoldable search_key : List (ℕ × ℕ) → ℕ → ℕ
search_key [] key = 0
search_key (p ∷ pairs) key = let rest = search_key pairs key in if p.0 == key then 0 else suc rest

abbrev numbers : Searches ℕ ℕ
numbers = record {
  less = ltb;
  same = λ a b. a == b;
  lower_bound = lower;
  binary_find = search_key;
  default_value = 0;
}

numbers-KeyLaws : KeyLaws numbers
numbers-KeyLaws = record {
  same_iff = λ a b. ground arith;
  less_irrefl = λ a. ground arith;
  less_trans = λ a b c h g. ground arith;
  less_total = λ a b h g. ground arith;
}

lower-IsLowerBound :
    (pairs : List (ℕ × ℕ)) (key : ℕ) → IsLowerBound numbers (lower pairs key) key pairs
unfolding lower
lower-IsLowerBound [] key = tt
lower-IsLowerBound (p ∷ pairs) key = elim (Bool-cases (ltb p.0 key)) [
  | inl e ↦ rw e (e, lower-IsLowerBound pairs key)
  | inr e ↦ rw e e
]

search_key-IsFound :
    (pairs : List (ℕ × ℕ)) (key : ℕ) → IsFound numbers (search_key pairs key) key pairs
unfolding search_key
search_key-IsFound [] key = tt
search_key-IsFound (p ∷ pairs) key = elim (Bool-cases (p.0 == key)) [
  | inl e ↦ rw e (ground arith)
  | inr e ↦ rw e ((λ h. ground arith), search_key-IsFound pairs key)
]

numbers-SearchLaws : SearchLaws numbers
numbers-SearchLaws = record {
  lower_bound-IsLowerBound = λ pairs key sorted. lower-IsLowerBound pairs key;
  binary_find-IsFound = λ pairs key sorted. search_key-IsFound pairs key;
}

abbrev operations : List (Operation ℕ ℕ)
operations = inserts 5 50 ∷ assigns 3 30 ∷ inserts 5 51 ∷ removes 3 ∷ assigns 4 40 ∷ []

run_operations_refine_example :
    (contains numbers (run_operations numbers [] operations) 5
      ≡ is_some (updates numbers (λ j. none) operations 5))
    × (value numbers (run_operations numbers [] operations) 5 7
        ≡ value_or 7 (updates numbers (λ j. none) operations 5))
run_operations_refine_example =
    run_operations_refine numbers numbers-KeyLaws numbers-SearchLaws operations 5 7

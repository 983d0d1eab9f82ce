-- ===== src/HBtree/OrderedList/Refines.antt =====
-- An ordered list implements a finite map.
use qtjsondb.Prelude.{
  ◌≡◌, refl, sym, ap, ◌∙◌, List, [], ◌∷◌, Option, none, some, get_elem?, if◌then◌else◌,
}
use qtjsondb.HBtree.OrderedList.{Searches, insert, contains, assign, value_at, value, remove}
use qtjsondb.HBtree.OrderedList.Laws.{KeyLaws, SearchLaws, IsSorted, lookup}
use qtjsondb.HBtree.OrderedList.Place.{lookup-put_pair, put_pair-IsSorted, replace_at-ensure}
use qtjsondb.HBtree.OrderedList.Found.{
  value_of, is_some, lookup-remove_at, remove_at-IsSorted, remove-remove_at, found_lookup,
  found_end,
}

-- What changes a list.
pub data Operation (K V : Type 0) : Type 0 where
  inserts assigns : K → V → Operation K V
  removes : K → Operation K V

abbrev pub value_or : {V : Type 0} → V → Option V → V
value_or default none = default
value_or default (some v) = v

value_at-value_of :
    {K V : Type 0} (s : Searches K V) (default : V) (o : Option (K × V))
    → value_at s default o ≡ value_or default (value_of o)
value_at-value_of s default none = refl
value_at-value_of s default (some p) = refl

module _ {K V : Type 0} (s : Searches K V) where
  unfoldable pub on_operation : List (K × V) → Operation K V → List (K × V)
  unfolding insert assign remove
  on_operation pairs (inserts key v) = insert s pairs key v
  on_operation pairs (assigns key v) = assign s pairs key v
  on_operation pairs (removes key) = remove s pairs key

  unfoldable pub run_operations : List (K × V) → List (Operation K V) → List (K × V)
  run_operations pairs [] = pairs
  run_operations pairs (o ∷ operations) = run_operations (on_operation pairs o) operations

  -- The finite map that is meant.
  unfoldable pub update : (K → Option V) → Operation K V → K → Option V
  update map (inserts key v) j = if s.same key j then some v else map j
  update map (assigns key v) j = if s.same key j then some v else map j
  update map (removes key) j = if s.same key j then none else map j

  unfoldable pub updates : (K → Option V) → List (Operation K V) → K → Option V
  unfolding update
  updates map [] = map
  updates map (o ∷ operations) = updates (update map o) operations

  module _ (keys : KeyLaws s) (laws : SearchLaws s) where
    insert_lem :
        (pairs : List (K × V)) (key : K) (v : V)
        → IsSorted s pairs
        → IsSorted s (insert s pairs key v)
          × ((j : K)
              → lookup s (insert s pairs key v) j
                ≡ (if s.same key j then some v else lookup s pairs j))
    unfolding insert
    insert_lem pairs key v sorted =
        let i = s.lower_bound pairs key in
        let h = laws.lower_bound-IsLowerBound pairs key sorted in
        (
          put_pair-IsSorted s keys i pairs key v h sorted,
          λ j. lookup-put_pair s keys i pairs key v j h,
        )

    assign-insert :
        (pairs : List (K × V)) (key : K) (v : V)
        → IsSorted s pairs
        → assign s pairs key v ≡ insert s pairs key v
    unfolding insert assign
    assign-insert pairs key v sorted =
        replace_at-ensure s keys (s.lower_bound pairs key) pairs key v
          (laws.lower_bound-IsLowerBound pairs key sorted)

    remove_lem :
        (pairs : List (K × V)) (key : K)
        → IsSorted s pairs
        → IsSorted s (remove s pairs key)
          × ((j : K)
              → lookup s (remove s pairs key) j ≡ (if s.same key j then none else lookup s pairs j))
    remove_lem pairs key sorted = rw (remove-remove_at s keys pairs key) (
      remove_at-IsSorted s keys (s.binary_find pairs key) pairs sorted,
      λ j.
          lookup-remove_at s keys (s.binary_find pairs key) pairs key j
            (laws.binary_find-IsFound pairs key sorted) sorted,
    )

    abbrev Implements : List (K × V) → (K → Option V) → Type 0
    Implements pairs map = IsSorted s pairs × ((j : K) → lookup s pairs j ≡ map j)

    on_operation-Implements :
        (o : Operation K V) (pairs : List (K × V)) (map : K → Option V)
        → Implements pairs map
        → Implements (on_operation pairs o) (update map o)
    unfolding on_operation update
    on_operation-Implements (inserts key v) pairs map (sorted, same) =
        let l = insert_lem pairs key v sorted in
        (l.0, λ j. l.1 j ∙ ap (λ o. if s.same key j then some v else o) (same j))
    on_operation-Implements (assigns key v) pairs map (sorted, same) =
        let l = insert_lem pairs key v sorted in
        rw (assign-insert pairs key v sorted)
          (l.0, λ j. l.1 j ∙ ap (λ o. if s.same key j then some v else o) (same j))
    on_operation-Implements (removes key) pairs map (sorted, same) =
        let l = remove_lem pairs key sorted in
        (l.0, λ j. l.1 j ∙ ap (λ o. if s.same key j then none else o) (same j))

    run_operations-Implements :
        (operations : List (Operation K V)) (pairs : List (K × V)) (map : K → Option V)
        → Implements pairs map
        → Implements (run_operations pairs operations) (updates map operations)
    unfolding run_operations updates
    run_operations-Implements [] pairs map h = h
    run_operations-Implements (o ∷ operations) pairs map h =
        run_operations-Implements operations (on_operation pairs o) (update map o)
          (on_operation-Implements o pairs map h)

    -- If the keys are totally ordered and the searches find what is documented, then any
    -- operations on an empty list leave its keys in ascending order, none of them twice.
    pub run_operations-IsSorted :
        (operations : List (Operation K V)) → IsSorted s (run_operations [] operations)
    unfolding lookup
    run_operations-IsSorted operations =
        (run_operations-Implements operations [] (λ j. none) (tt, λ j. refl)).0

    -- If the keys are totally ordered and the searches find what is documented, then after
    -- any operations on an empty list, contains and value answer for every key as the finite
    -- map that the operations describe.
    pub run_operations_refine :
        (operations : List (Operation K V)) (key : K) (default : V)
        → (contains s (run_operations [] operations) key
            ≡ is_some (updates (λ j. none) operations key))
          × (value s (run_operations [] operations) key default
              ≡ value_or default (updates (λ j. none) operations key))
    unfolding contains value lookup
    run_operations_refine operations key default =
        let pairs = run_operations [] operations in
        let h = run_operations-Implements operations [] (λ j. none) (tt, λ j. refl) in
        let found = laws.binary_find-IsFound pairs key h.0 in
        let i = s.binary_find pairs key in
        let same : value_of (get_elem? pairs i) ≡ updates (λ j. none) operations key =
          sym (found_lookup s keys i pairs key found) ∙ h.1 key in
        (
          found_end s keys i pairs key found ∙ ap is_some same,
          value_at-value_of s default (get_elem? pairs i) ∙ ap (value_or default) same,
        )

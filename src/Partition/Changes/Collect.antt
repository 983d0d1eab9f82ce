-- ===== src/Partition/Changes/Collect.antt =====
-- src/partition/jsondbobjecttable.cpp: changesSince collects one change for each object.
use qtjsondb.Prelude.{
  ℕ, ◌≡◌, refl, ap, ◌∙◌, Bool, true, false, ◌&&◌, List, [], ◌∷◌, Option, none, some, arith, ◌==◌,
  if◌then◌else◌,
}
use qtjsondb.Qt.Calls.{QtCalls}
use qtjsondb.Object.Version.{uuid}
use qtjsondb.Partition.{update, remove, JsonDbUpdate}
use qtjsondb.Partition.Changes.{
  ChangeMap, is_create, is_remove, change_of, put_change, remove_change, combined, merge_change,
  collect,
}

change_of-put_change :
    (q : QtCalls) (m : ChangeMap) (key j : ℕ) (u : JsonDbUpdate)
    → change_of (put_change q m key u) j ≡ (if key == j then some u else change_of m j)
unfolding change_of put_change
change_of-put_change q [] key j u = refl
change_of-put_change q ((k, c) ∷ m) key j u = ground (arith, change_of-put_change q m key j u)

change_of-remove_change :
    (m : ChangeMap) (key j : ℕ)
    → change_of (remove_change m key) j ≡ (if key == j then none else change_of m j)
unfolding change_of remove_change
change_of-remove_change [] key j = ground arith
change_of-remove_change ((k, c) ∷ m) key j = ground (arith, change_of-remove_change m key j)

-- The changes of one object.
unfoldable pub changes_of : QtCalls → ℕ → List JsonDbUpdate → List JsonDbUpdate
changes_of q key [] = []
changes_of q key (u ∷ us) =
    let rest = changes_of q key us in if uuid q u.new_object == key then u ∷ rest else rest

-- How a change goes with what was collected for its object.
abbrev pub merged : Option JsonDbUpdate → JsonDbUpdate → Option JsonDbUpdate
merged none u = some u
merged (some o) u = if is_create o.action && is_remove u.action then none else some (combined o u)

abbrev pub merged_all : Option JsonDbUpdate → List JsonDbUpdate → Option JsonDbUpdate
merged_all m [] = m
merged_all m (u ∷ us) = merged_all (merged m u) us

change_of-merge_change :
    (q : QtCalls) (m : ChangeMap) (key j : ℕ) (u : JsonDbUpdate) (o : Option JsonDbUpdate)
    → change_of (merge_change q m key u o) j ≡ (if key == j then merged o u else change_of m j)
unfolding merge_change
change_of-merge_change q m key j u none = change_of-put_change q m key j u
change_of-merge_change q m key j u (some o) =
    ground (arith, change_of-put_change q m key j (combined o u), change_of-remove_change m key j)

pub change_of-collect :
    (q : QtCalls) (us : List JsonDbUpdate) (m : ChangeMap) (j : ℕ)
    → change_of (collect q us m) j ≡ merged_all (change_of m j) (changes_of q j us)
unfolding collect changes_of
change_of-collect q [] m j = refl
change_of-collect q (u ∷ us) m j =
    let key = uuid q u.new_object in
    let m' = merge_change q m key u (change_of m key) in
    change_of-collect q us m' j
    ∙ ap (λ o. merged_all o (changes_of q j us))
        (change_of-merge_change q m key j u (change_of m key))
    ∙ by_key key (key == j) (λ e. ground arith)
  where
    by_key :
        (key : ℕ) (b : Bool)
        → (b ≡ true → key ≡ j)
        → merged_all (if b then merged (change_of m key) u else change_of m j) (changes_of q j us)
          ≡ merged_all (change_of m j) (if b then u ∷ changes_of q j us else changes_of q j us)
    by_key key true e = ap (λ k. merged_all (merged (change_of m k) u) (changes_of q j us)) (e refl)
    by_key key false e = refl

-- The last change, after u.
abbrev pub last_of : JsonDbUpdate → List JsonDbUpdate → JsonDbUpdate
last_of u [] = u
last_of u (v ∷ us) = last_of v us

-- One change from the state before u to the state after the last one.
abbrev pub spanning : JsonDbUpdate → List JsonDbUpdate → JsonDbUpdate
spanning u [] = u
spanning u (v ∷ us) = combined u (last_of v us)

pub combined_existing : (o v : JsonDbUpdate) → is_create (combined o v).action ≡ false
unfolding combined
combined_existing o v =
    elim (is_remove v.action) as (λ b. is_create (if b then remove else update) ≡ false) [
      | true ↦ refl
      | false ↦ refl
    ]

combined_old : (o u v : JsonDbUpdate) → o.old_object ≡ u.old_object → combined o v ≡ combined u v
unfolding combined
combined_old o u v e = rw e refl

merged_all-spanning :
    (u o : JsonDbUpdate) (us : List JsonDbUpdate)
    → o.old_object ≡ u.old_object
    → is_create o.action ≡ false
    → (v : JsonDbUpdate) → merged_all (some o) (v ∷ us) ≡ some (combined u (last_of v us))
merged_all-spanning u o [] e h v = rw h (ap some (combined_old o u v e))
merged_all-spanning u o (w ∷ us) e h v =
    rw h (merged_all-spanning u (combined o v) us (unfold combined in e) (combined_existing o v) w)

-- If the first change of an object is no creation, then changesSince collects one change for it:
-- the only one, or one from the old object of the first to the new object of the last, which is a
-- removal if the last one is, and an update otherwise.
pub collect_existing :
    (q : QtCalls) (us : List JsonDbUpdate) (key : ℕ) (u : JsonDbUpdate) (rest : List JsonDbUpdate)
    → changes_of q key us ≡ u ∷ rest
    → is_create u.action ≡ false
    → change_of (collect q us []) key ≡ some (spanning u rest)
unfolding change_of
collect_existing q us key u [] h e = change_of-collect q us [] key ∙ ap (merged_all none) h
collect_existing q us key u (v ∷ rest) h e =
    change_of-collect q us [] key ∙ ap (merged_all none) h ∙ merged_all-spanning u u rest refl e v

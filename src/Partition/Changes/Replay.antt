-- ===== src/Partition/Changes/Replay.antt =====
-- src/partition/jsondbobjecttable.cpp: the collected changes do to an object what all the changes
-- do one after the other.
use qtjsondb.Prelude.{
  ℕ, ◌≡◌, refl, ap, sym, ◌∙◌, Bool, true, false, ◌&&◌, List, [], ◌∷◌, Option, none, some, arith,
  if◌then◌else◌,
}
use qtjsondb.Qt.Json.{QJsonObject}
use qtjsondb.Qt.Calls.{QtCalls}
use qtjsondb.Partition.{update, remove, JsonDbUpdate}
use qtjsondb.Partition.Changes.{is_create, is_remove, change_of, combined, collect}
use qtjsondb.Partition.Changes.Collect.{
  changes_of, merged, merged_all, change_of-collect, combined_existing,
}

-- What a change makes of an object, which is there or not.
abbrev pub apply : Option QJsonObject → JsonDbUpdate → Option QJsonObject
apply o u = if is_remove u.action then none else some u.new_object

abbrev pub apply_all : Option QJsonObject → List JsonDbUpdate → Option QJsonObject
apply_all o [] = o
apply_all o (u ∷ us) = apply_all (apply o u) us

abbrev pub apply_change : Option QJsonObject → Option JsonDbUpdate → Option QJsonObject
apply_change o none = o
apply_change o (some u) = apply o u

-- An object is created only where it is not there.
abbrev pub CreatesAbsent : Option QJsonObject → List JsonDbUpdate → Type 0
CreatesAbsent o [] = Unit
CreatesAbsent o (u ∷ us) = (is_create u.action ≡ true → o ≡ none) × CreatesAbsent (apply o u) us

-- What was collected for an object that was `start` stands for its present state.
abbrev Stands : Option QJsonObject → Option QJsonObject → Option JsonDbUpdate → Type 0
Stands start now none = now ≡ start
Stands start now (some u) = (now ≡ apply start u) × (is_create u.action ≡ true → start ≡ none)

combined-Stands :
    (start : Option QJsonObject) (o u : JsonDbUpdate)
    → Stands start (apply (apply start o) u) (some (combined o u))
unfolding combined
combined-Stands start o u = (
  elim (is_remove u.action)
      as (λ b.
        (if b then none else some u.new_object)
        ≡ (if is_remove (if b then remove else update) then none else some u.new_object)) [
          | true ↦ refl
          | false ↦ refl
        ],
  λ e. absurd (ground (arith, combined_existing o u, e)),
)

merged-Stands :
    (start now : Option QJsonObject) (m : Option JsonDbUpdate) (u : JsonDbUpdate)
    → Stands start now m
    → (is_create u.action ≡ true → now ≡ none)
    → Stands start (apply now u) (merged m u)
merged-Stands start now none u h k = (ap (λ x. apply x u) h, λ e. sym h ∙ k e)
merged-Stands start now (some o) u h k =
    cancelled (is_create o.action) (is_remove u.action) h.1 (combined-Stands start o u)
  where
    cancelled :
        (a b : Bool)
        → (a ≡ true → start ≡ none)
        → Stands start (if b then none else some u.new_object) (some (combined o u))
        → Stands start
            (if b then none else some u.new_object)
            (if a && b then none else some (combined o u))
    cancelled true true f g = sym (f refl)
    cancelled true false f g = g
    cancelled false b f g = g

merged_all-Stands :
    (start now : Option QJsonObject) (m : Option JsonDbUpdate) (us : List JsonDbUpdate)
    → Stands start now m
    → CreatesAbsent now us
    → Stands start (apply_all now us) (merged_all m us)
merged_all-Stands start now m [] h k = h
merged_all-Stands start now m (u ∷ us) h k =
    merged_all-Stands start (apply now u) (merged m u) us (merged-Stands start now m u h k.0) k.1

Stands-apply_change :
    (start now : Option QJsonObject) (m : Option JsonDbUpdate)
    → Stands start now m
    → apply_change start m ≡ now
Stands-apply_change start now none h = sym h
Stands-apply_change start now (some u) h = sym h.0

-- If an object is created only where it is not there, then the change that is collected for it,
-- or none, makes of it what all its changes make of it one after the other.
pub collect_replays :
    (q : QtCalls) (us : List JsonDbUpdate) (key : ℕ) (start : Option QJsonObject)
    → CreatesAbsent start (changes_of q key us)
    → apply_change start (change_of (collect q us []) key) ≡ apply_all start (changes_of q key us)
unfolding change_of
collect_replays q us key start h =
    ap (apply_change start) (change_of-collect q us [] key)
    ∙ Stands-apply_change start (apply_all start (changes_of q key us)) _
        (merged_all-Stands start start none (changes_of q key us) refl h)

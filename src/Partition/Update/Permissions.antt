-- ===== src/Partition/Update/Permissions.antt =====
-- A stored object that a writer has no right on is not changed.
use qtjsondb.Prelude.{
  ℕ, ◌≡◌, ◌≢◌, refl, sym, ap, subst, ◌∙◌, Bool, true, false, List, [], ◌∷◌, Option, none, some,
  ◌==◌, ==_iff, if◌then◌else◌, Bool-cases, inl, inr, arith,
}
use qtjsondb.Qt.Text.{QString, codes}
use qtjsondb.Qt.Json.{QJsonObject, no_fields, to_string}
use qtjsondb.Qt.Calls.{QtCalls}
use qtjsondb.Object.Version.{uuid, type, is_deleted}
use qtjsondb.Partition.{
  get_one, put_one, get, store_state_change, Definitions, Partition, is_view, find_object_table,
  set_object_table, get_object,
}
use qtjsondb.Partition.Attempt.{Writing, ConflictResolutionMode, Request, Writer, Checked, Prepared}
use qtjsondb.Partition.Update.{
  allowed, or_empty, is_creation, put, store, write_object, update_objects,
}
use qtjsondb.Partition.Update.Checks.{
  Passes, Passes-bind, SameKey, IsChecked, check_object-IsChecked,
}
use qtjsondb.Partition.Update.Masters.{Writes, prepare_write-Writes}
use qtjsondb.Partition.Update.Keyed.{IsKeyed, KeyedAt, get_object-KeyedAt, store-IsKeyed}
use qtjsondb.Partition.Update.Keeps.{update_objects_keep}

no_contradiction : true ≢ false
no_contradiction h = cc

not_equal : (j k : ℕ) → j ≢ k → (j == k) ≡ false
not_equal j k ne = ground arith

get_one-put_one :
    (objects : List (ℕ × QJsonObject)) (j : ℕ) (x : QJsonObject) (k : ℕ)
    → j ≢ k
    → get_one (put_one objects j x) k ≡ get_one objects k
unfolding get_one put_one
get_one-put_one [] j x k ne = rw (not_equal j k ne) refl
get_one-put_one ((i, o) ∷ objects) j x k ne = elim (Bool-cases (i == j)) [
  | inl e ↦ rw (e, (==_iff i j).0 e, not_equal j k ne) refl
  | inr e ↦ rw e (ap (λ rest. if i == k then some o else rest) (get_one-put_one objects j x k ne))
]

module _ (q : QtCalls) (w : Writer) {D : Type 0} (d : Definitions D) (name : QString) (k : ℕ)
    (o : QJsonObject) where
  -- The object is in the partition's own table.
  abbrev Stored : Partition D → Type 0
  Stored p = IsKeyed q p × ((p.name ≡ name) × (get_one p.object_table.objects k ≡ some o))

  module _ (alive : is_deleted o ≡ false) (has_uuid : k ≢ uuid q no_fields)
      (forbidden : (allowed q w name o (codes "write")).0 ≡ false) where
    found_here :
        (p : Partition D) (t : QString)
        → Stored p
        → is_view d p t ≡ false
        → get_object d p k t true ≡ some o
    unfolding get_object find_object_table get
    found_here p t h e = rw (e, h.1.1) refl

    known_other :
        (p : Partition D) (c : Checked) (mode : ConflictResolutionMode)
        → Stored p
        → IsChecked q w d mode p c
        → is_view d p (type c.object) ≡ false
        → uuid q c.object ≢ k
    known_other p c mode h ch e same =
        let known : ch.known ≡ some o =
          sym ch.is_known
          ∙ (ap (λ n. get_object d p n (type c.object) true) same
              ∙ found_here p (type c.object) h e) in
        let creation : c.for_creation ≡ false =
          ch.creation ∙ (ap (is_creation q w) known ∙ alive) in
        let may : (allowed q w name o (codes "write")).0 ≡ true =
          sym (
            ap (λ n. (allowed q w p.name (or_empty q w n) (codes "write")).0) known
            ∙ ap (λ n. (allowed q w n o (codes "write")).0) h.1.0)
          ∙ ch.may_write_known creation in
        absurd (no_contradiction (sym may ∙ forbidden))

    uuid_same : (x y : QJsonObject) → SameKey x y → uuid q x ≡ uuid q y
    unfolding uuid
    uuid_same x y h = ap (λ v. q.parse_uuid (to_string v)) h.0

    master_known :
        (p : Partition D) (c : Checked) (mode : ConflictResolutionMode) (known : Option QJsonObject)
        → Stored p
        → (ch : IsChecked q w d mode p c) → is_view d p (type c.object) ≡ false
        → uuid q (or_empty q w known) ≡ k
        → KeyedAt q (uuid q c.object) known
        → ⊥
    master_known p c mode none h ch e same at = has_uuid (sym same)
    master_known p c mode (some x) h ch e same at = known_other p c mode h ch e (sym at ∙ same)

    master_other :
        (p : Partition D) (c : Checked) (mode : ConflictResolutionMode)
        → Stored p
        → IsChecked q w d mode p c
        → is_view d p (type c.object) ≡ false
        → uuid q c.master ≢ k
    master_other p c mode h ch e same =
        master_known p c mode ch.known h ch e (sym (uuid_same c.master _ ch.same_master) ∙ same) (
          subst (KeyedAt q (uuid q c.object)) ch.is_known
            (get_object-KeyedAt q d p (uuid q c.object) (type c.object) true h.0))

    put_other :
        (p : Partition D) (ok : Bool) (j : ℕ) (x : QJsonObject)
        → Stored p
        → j ≢ k
        → get_one (put q w d ok j x p.object_table).objects k ≡ some o
    put_other p true j x h ne = get_one-put_one p.object_table.objects j x k ne ∙ h.1.1
    put_other p false j x h ne = h.1.1

    written_other :
        (p : Partition D) (c : Checked) (mode : ConflictResolutionMode) (x : Prepared)
        → Stored p
        → IsChecked q w d mode p c
        → is_view d p (type c.object) ≡ false
        → Writes q w d c x
        → uuid q x.master ≢ k
    written_other p c mode x h ch e (inl g) same = known_other p c mode h ch e (sym g ∙ same)
    written_other p c mode x h ch e (inr g) same = master_other p c mode h ch e (sym g ∙ same)

    store-Stored :
        (p : Partition D) (c : Checked) (mode : ConflictResolutionMode) (r : Request) (x : Prepared)
        → Stored p
        → IsChecked q w d mode p c
        → Writes q w d c x
        → Stored (store q w d p r (type c.object) x).0
    unfolding store store_state_change set_object_table find_object_table
    store-Stored p c mode r x h ch wr =
        let keyed = store-IsKeyed q d w p r (type c.object) x h.0 in
        (
          keyed,
          elim (Bool-cases (is_view d p (type c.object))) [
            | inl e ↦ rw e h.1
            | inr e ↦ rw e (
              h.1.0,
              put_other p r.put_ok (uuid q x.master) x.master h
                  (written_other p c mode x h ch e wr),
            )
          ],
        )

    write_object-Stored :
        (mode : ConflictResolutionMode) (s : Writing D) (r : Request)
        → Stored s.partition
        → Passes (λ s'. Stored s'.partition) (write_object q w d mode s r)
    unfolding write_object
    write_object-Stored mode s r h =
        Passes-bind (IsChecked q w d mode s.partition) (λ s'. Stored s'.partition) _ _
          (check_object-IsChecked q w d mode s.partition r)
          (λ c ch.
            Passes-bind (Writes q w d c) (λ s'. Stored s'.partition) _ _
              (prepare_write-Writes q w d mode s.partition c)
              (λ x wr. store-Stored s.partition c mode r x h ch wr))

  -- Let the partition's own table hold an object under its uuid, which is not that of an object
  -- without one, let the object not be deleted, and let the writer have no right to write it.
  -- If the objects of every table stand under their uuids, then updateObjects, in any mode and
  -- with any objects, leaves that object as it is stored.
  pub update_objects_forbidden :
      (p : Partition D) (mode : ConflictResolutionMode) (requests : List Request)
      → IsKeyed q p
      → p.name ≡ name
      → get_one p.object_table.objects k ≡ some o
      → is_deleted o ≡ false
      → k ≢ uuid q no_fields
      → (allowed q w name o (codes "write")).0 ≡ false
      → get_one (update_objects q w d mode p requests).partition.object_table.objects k ≡ some o
  update_objects_forbidden p mode requests keyed named there alive has_uuid forbidden =
      (update_objects_keep q w d mode Stored (write_object-Stored alive has_uuid forbidden mode) p
        requests (keyed, (named, there))).1.1

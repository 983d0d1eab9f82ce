-- ===== src/Partition/Update/Masters.antt =====
-- The object that updateObjects stores has the uuid of the one received, or of the stored one.
use qtjsondb.Prelude.{
  ◌≡◌, refl, ap, ◌∙◌, Bool, true, false, ◌&&◌, ◌||◌, if◌then◌else◌, not, Bool-cases, inl, inr, ◌⊎◌,
  arith, is_empty,
}
use qtjsondb.Qt.Text.{QString, str_eq}
use qtjsondb.Qt.Json.{Value, QJsonObject, no_fields, to_string, value, insert, value-insert}
use qtjsondb.Qt.Calls.{QtCalls}
use qtjsondb.Strings.{uuid_str, type_str, version_str, meta_str}
use qtjsondb.Object.Version.{version, is_deleted, uuid}
use qtjsondb.Object.Optimistic.{
  Update, Write, prepare, resolve_conflict, progress_head, resurrect, keep_books, accept_replay,
  run_update, update_version_optimistic, compute_own_version,
}
use qtjsondb.Object.Replicate.{update_version_replicating}
use qtjsondb.Object.Replicate.Accepted.{replicating_uuid}
use qtjsondb.Partition.{Definitions, Partition}
use qtjsondb.Partition.Attempt.{
  ConflictResolutionMode, reject_stale, replace_object, replicated_write, view_object, Writer,
  Checked, Prepared, has_null_type,
}
use qtjsondb.Partition.Update.{update_master, prepare_write, with_type}
use qtjsondb.Partition.Update.Checks.{Passes, Passes-bind, Passes-next}

-- The member _uuid is that of one of two objects.
abbrev pub UuidOf : QJsonObject → QJsonObject → QJsonObject → Type 0
UuidOf x o other = (value x uuid_str ≡ value other uuid_str) ⊎ (value x uuid_str ≡ value o uuid_str)

insert_uuid :
    (x : QJsonObject) (k : QString) (v : Value)
    → str_eq k uuid_str ≡ false
    → value (insert x k v) uuid_str ≡ value x uuid_str
insert_uuid x k v h = value-insert x k uuid_str v ∙ rw h refl

insert-UuidOf :
    (x o other : QJsonObject) (k : QString) (v : Value)
    → str_eq k uuid_str ≡ false
    → UuidOf x o other
    → UuidOf (insert x k v) o other
insert-UuidOf x o other k v h (inl e) = inl (insert_uuid x k v h ∙ e)
insert-UuidOf x o other k v h (inr e) = inr (insert_uuid x k v h ∙ e)

module _ (q : QtCalls) (o : QJsonObject) where
  abbrev Heads : Update → Write → Type 0
  Heads u w = UuidOf w.head o u.other

  resolve_conflict-Heads : (u : Update) (w : Write) → Heads u w → Heads u (resolve_conflict q u w)
  unfolding resolve_conflict
  resolve_conflict-Heads u w h = ground arith

  head_or_other :
      (b : Bool) (head other : QJsonObject)
      → UuidOf head o other
      → UuidOf (if b then head else other) o other
  head_or_other true head other h = h
  head_or_other false head other h = inl refl

  progress_head-Heads : (u : Update) (w : Write) → Heads u w → Heads u (progress_head q u w)
  unfolding progress_head
  progress_head-Heads u w h =
      elim (Bool-cases (is_empty (version w.head) || str_eq (version w.head) u.replaced_version)) [
        | inl e ↦ rw e (
            insert-UuidOf (if u.is_replay then w.head else u.other) o u.other version_str _
              (unfold str_eq in refl) (head_or_other u.is_replay w.head u.other h))
        | inr e ↦ rw e h
      ]

  resurrect-Heads : (u : Update) (w : Write) → Heads u w → Heads u (resurrect q u w)
  unfolding resurrect
  resurrect-Heads u w h = elim (Bool-cases (not w.is_valid && is_deleted w.head)) [
    | inl e ↦
        rw e (insert-UuidOf u.other o u.other version_str _ (unfold str_eq in refl) (inl refl))
    | inr e ↦ rw e h
  ]

  keep_books-Heads : (u : Update) (w : Write) → Heads u w → Heads u (keep_books q u w)
  unfolding keep_books
  keep_books-Heads u w h = elim (Bool-cases (w.is_valid && not u.is_replay)) [
    | inl e ↦ rw e (insert-UuidOf w.head o u.other meta_str _ (unfold str_eq in refl) h)
    | inr e ↦ rw e h
  ]

  accept_replay-Heads : (u : Update) (w : Write) → Heads u w → Heads u (accept_replay q u w)
  unfolding accept_replay
  accept_replay-Heads u w h = ground arith

  pub optimistic-UuidOf :
      (other : QJsonObject) (track : Bool)
      → UuidOf (update_version_optimistic q o other track).head o other
  unfolding update_version_optimistic run_update prepare
  optimistic-UuidOf other track =
      let u = (prepare q o other track).0 in
      let w1 = (prepare q o other track).1 in
      let w2 = resolve_conflict q u w1 in
      let w3 = progress_head q u w2 in
      let w4 = resurrect q u w3 in
      let w5 = keep_books q u w4 in
      accept_replay-Heads u w5 (
        keep_books-Heads u w4 (
          resurrect-Heads u w3 (progress_head-Heads u w2 (resolve_conflict-Heads u w1 (inr refl)))))

module _ (q : QtCalls) where
  abbrev pub SameUuid : QJsonObject → QJsonObject → QJsonObject → Type 0
  SameUuid x o other = (uuid q x ≡ uuid q other) ⊎ (uuid q x ≡ uuid q o)

  uuids : (x o other : QJsonObject) → UuidOf x o other → SameUuid x o other
  unfolding uuid
  uuids x o other (inl e) = inl (ap (λ v. q.parse_uuid (to_string v)) e)
  uuids x o other (inr e) = inr (ap (λ v. q.parse_uuid (to_string v)) e)

  own_uuid :
      (object : QJsonObject) (track : Bool)
      → uuid q (compute_own_version q object track).0 ≡ uuid q object
  unfolding compute_own_version
  own_uuid object track = elim (uuids _ object object (optimistic-UuidOf q object object track)) [
    | inl e ↦ e
    | inr e ↦ e
  ]

  module _ (w : Writer) where
    pub update_master-SameUuid :
        (mode : ConflictResolutionMode) (master object : QJsonObject)
        → Passes
            (λ updated. SameUuid updated.0 master object)
            (update_master q w mode master object)
    unfolding update_master
    update_master-SameUuid reject_stale master object =
        elim (Bool-cases (update_version_optimistic q master object true).is_valid) [
          | inl e ↦ rw e (uuids _ master object (optimistic-UuidOf q master object true))
          | inr e ↦ rw e tt
        ]
    update_master-SameUuid view_object master object = inl (own_uuid object false)
    update_master-SameUuid replace_object master object = inl (own_uuid object true)
    update_master-SameUuid replicated_write master object =
        elim (Bool-cases (update_version_replicating q master object).1) [
          | inl e ↦ rw e (inl (replicating_uuid q master object e).0)
          | inr e ↦ rw e tt
        ]

    module _ {D : Type 0} (d : Definitions D) where
      uuid-with_type :
          (master old_master : QJsonObject)
          → uuid q (with_type q w d master old_master) ≡ uuid q master
      unfolding uuid
      uuid-with_type master old_master = elim (Bool-cases (has_null_type (value master type_str))) [
        | inl e ↦ rw e (
            ap (λ v. q.parse_uuid (to_string v))
              (insert_uuid master type_str _ (unfold str_eq in refl)))
        | inr e ↦ rw e refl
      ]

      typed :
          (m o other old_master : QJsonObject)
          → SameUuid m o other
          → SameUuid (with_type q w d m old_master) o other
      typed m o other old_master (inl e) = inl (uuid-with_type m old_master ∙ e)
      typed m o other old_master (inr e) = inr (uuid-with_type m old_master ∙ e)

      abbrev pub Writes : Checked → Prepared → Type 0
      Writes c r = SameUuid r.master c.master c.object

      pub prepare_write-Writes :
          (mode : ConflictResolutionMode) (p : Partition D) (c : Checked)
          → Passes (Writes c) (prepare_write q w d mode p c)
      unfolding prepare_write
      prepare_write-Writes mode p c =
          let old_master = if c.for_creation then no_fields else c.master in
          Passes-bind (λ updated. SameUuid updated.0 c.master c.object) (Writes c) _ _
            (update_master-SameUuid mode c.master c.object)
            (λ updated h. Passes-next (Writes c) _ _ (λ u1. Passes-next (Writes c) _ _ (λ u2.
              Passes-next (Writes c) _ _ (λ u3. typed updated.0 c.master c.object old_master h))))

-- ===== src/Object/Replicate/Accepted.antt =====
-- What an accepted replicating write promises about the object it leaves.
use qtjsondb.Prelude.{
  ℕ, ◌<◌, ◌≡◌, ◌∙◌, sym, Bool, true, false, ◌||◌, List, [], arith, if◌then◌else◌, any,
}
use qtjsondb.Qt.Json.{QJsonObject, is_empty_object, no_fields, field}
use qtjsondb.Qt.Text.{QString}
use qtjsondb.Qt.Calls.{QtCalls}
use qtjsondb.Object.Version.{version, uuid, tokenize_version, version_lt}
use qtjsondb.Object.History.{history_of}
use qtjsondb.Object.History.Members.{IsHistory}
use qtjsondb.Object.Optimistic.{conflicts_of}
use qtjsondb.Object.Replicate.{
  is_valid_source, merge_documents, populate_merge, update_version_replicating,
}
use qtjsondb.Object.Replicate.Documents.{Reaches}
use qtjsondb.Object.Replicate.Versions.{
  has_tokens, IsCollection, populate_merge-IsCollection, is_valid_source-uuid,
}
use qtjsondb.Object.Replicate.Outcome.{
  keeps, outcome, outcome_ge, uuid-outcome, outcome_keeps, outcome-IsHistory,
}

module _ (q : QtCalls) where
  -- The conflicts of the stored object have its uuid.
  abbrev pub is_consistent : QJsonObject → Bool
  is_consistent o = (populate_merge q [] (uuid q o) o false).1

  -- The uuid of the merged documents.
  abbrev merge_uuid : QJsonObject → QJsonObject → ℕ
  merge_uuid o other = if is_empty_object o then uuid q other else uuid q o

  -- The documents hold the local object, where there is one, and the remote one.
  record Holds (o other : QJsonObject) (ds : List QJsonObject) : Type 0 where
    collection : IsCollection q (merge_uuid o other) ds
    remote : Reaches q ds other
    remote_tokens : any (has_tokens q (tokenize_version q (version other))) ds ≡ true
    remote_valid : is_valid_source q (merge_uuid o other) other true ≡ true
    local :
        is_empty_object o ≡ false
        → is_consistent o ≡ true
        → Reaches q ds o × (any (has_tokens q (tokenize_version q (version o))) ds ≡ true)

  empty-IsCollection : (id : ℕ) → IsCollection q id []
  empty-IsCollection id = record { sorted = tt; same_uuid = tt }

  merge_documents-Holds :
      (o other : QJsonObject)
      → (merge_documents q o other).1 ≡ true
      → Holds o other (merge_documents q o other).0
  merge_documents-Holds no_fields other v =
      let p = populate_merge-IsCollection q [] (uuid q other) other true (empty-IsCollection _) in
      let found = p.2 v in
      record {
        collection = p.0;
        remote = found.0;
        remote_tokens = found.1;
        remote_valid = found.2;
        local = λ e c. cc;
      }
  merge_documents-Holds (field k w fs) other v =
      let o = field k w fs in
      let first = populate_merge-IsCollection q [] (uuid q o) o false (empty-IsCollection _) in
      let own = (populate_merge q [] (uuid q o) o false).0 in
      let p = populate_merge-IsCollection q own (uuid q o) other true first.0 in
      let found = p.2 v in
      record {
        collection = p.0;
        remote = found.0;
        remote_tokens = found.1;
        remote_valid = found.2;
        local = λ e c. let mine = first.2 c in (p.1.reaches o mine.0, p.1.versions _ mine.1);
      }

  accepted :
      (o other : QJsonObject)
      → (update_version_replicating q o other).1 ≡ true
      → ((merge_documents q o other).1 ≡ true)
        × ((update_version_replicating q o other).0 ≡ outcome q (merge_documents q o other).0 o)
  unfolding update_version_replicating
  accepted o other h = ground arith

  valid_source_count :
      (id : ℕ) (source : QJsonObject)
      → is_valid_source q id source true ≡ true
      → 0 < (tokenize_version q (version source)).0
  unfolding is_valid_source
  valid_source_count id source h = ground arith

  -- If a replicating write is accepted, the version of the object left is not below that of the
  -- received one.
  pub replicating_winner :
      (o other : QJsonObject)
      → (update_version_replicating q o other).1 ≡ true
      → version_lt q (update_version_replicating q o other).0 other ≡ false
  replicating_winner o other h =
      let a = accepted o other h in
      let held = merge_documents-Holds o other a.0 in
      rw a.1 (outcome_ge q (merge_documents q o other).0 o other held.collection.sorted held.remote)

  -- If a replicating write is accepted, the local object is not empty and its uuid is that of
  -- its conflicts, then the version of the object left is not below that of the local one.
  pub replicating_winner_local :
      (o other : QJsonObject)
      → (update_version_replicating q o other).1 ≡ true
      → is_empty_object o ≡ false
      → is_consistent o ≡ true
      → version_lt q (update_version_replicating q o other).0 o ≡ false
  replicating_winner_local o other h e c =
      let a = accepted o other h in
      let held = merge_documents-Holds o other a.0 in
      rw a.1
        (outcome_ge q (merge_documents q o other).0 o o held.collection.sorted (held.local e c).0)

  -- If a replicating write is accepted, the object left has the uuid of the received one, and
  -- so has the local one if it is not empty.
  pub replicating_uuid :
      (o other : QJsonObject)
      → (update_version_replicating q o other).1 ≡ true
      → (uuid q (update_version_replicating q o other).0 ≡ uuid q other)
        × ((if is_empty_object o then uuid q other else uuid q o) ≡ uuid q other)
  replicating_uuid o other h =
      let a = accepted o other h in
      let held = merge_documents-Holds o other a.0 in
      let id = merge_uuid o other in
      let same = is_valid_source-uuid q id other true held.remote_valid in
      let left =
        uuid-outcome q id (merge_documents q o other).0 o other held.collection.same_uuid
          held.remote in
      (rw a.1 (left ∙ sym same), sym same)

  -- The object has the version t, or its conflicts or its history have.
  abbrev pub knows : ℕ × QString → QJsonObject → Bool
  knows t r = has_tokens q t r || keeps q t (history_of r) (conflicts_of r)

  -- If a replicating write is accepted, the version of the received object is not forgotten: it
  -- is that of the object left, or of one of its conflicts, or a version of its history.
  pub replicating_keeps :
      (o other : QJsonObject)
      → (update_version_replicating q o other).1 ≡ true
      → knows (tokenize_version q (version other)) (update_version_replicating q o other).0 ≡ true
  replicating_keeps o other h =
      let a = accepted o other h in
      let held = merge_documents-Holds o other a.0 in
      rw a.1 (
        outcome_keeps q (tokenize_version q (version other)) (merge_documents q o other).0 o
          (valid_source_count (merge_uuid o other) other held.remote_valid) held.remote_tokens)

  -- If a replicating write is accepted, the local object is not empty, its uuid is that of its
  -- conflicts, and its version has a positive count, then its version is not forgotten: it is
  -- that of the object left, or of one of its conflicts, or a version of its history.
  pub replicating_keeps_local :
      (o other : QJsonObject)
      → (update_version_replicating q o other).1 ≡ true
      → is_empty_object o ≡ false
      → is_consistent o ≡ true
      → 0 < (tokenize_version q (version o)).0
      → knows (tokenize_version q (version o)) (update_version_replicating q o other).0 ≡ true
  replicating_keeps_local o other h e c pos =
      let a = accepted o other h in
      let held = merge_documents-Holds o other a.0 in
      rw a.1 (
        outcome_keeps q (tokenize_version q (version o)) (merge_documents q o other).0 o pos
          (held.local e c).1)

  -- If a replicating write is accepted, the history of the object left is well formed, whatever
  -- was received.
  pub replicating-IsHistory :
      (o other : QJsonObject)
      → (update_version_replicating q o other).1 ≡ true
      → IsHistory (history_of (update_version_replicating q o other).0)
  replicating-IsHistory o other h =
      rw (accepted o other h).1 (outcome-IsHistory q (merge_documents q o other).0 o)

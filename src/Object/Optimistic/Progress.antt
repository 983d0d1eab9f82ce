-- ===== src/Object/Optimistic/Progress.antt =====
-- A write that replaces the current version of an object by a changed content, and meets no
-- conflict of that version: what the object holds afterwards.
use qtjsondb.Prelude.{
  ℕ, ◌+◌, ◌<◌, ◌≡◌, refl, ◌∙◌, Bool, true, false, ◌&&◌, ◌||◌, [], arith, ◌==◌, if◌then◌else◌, not,
  any, is_empty,
}
use qtjsondb.Qt.Text.{QString, str_eq, str_eq_refl}
use qtjsondb.Qt.Json.{QJsonObject, to_object, to_bool, value, value-insert}
use qtjsondb.Qt.Calls.{QtCalls}
use qtjsondb.Strings.{version_str, meta_str, local_str}
use qtjsondb.Object.Version.{version, tokenize_version, version_as_string, content_hash}
use qtjsondb.Object.History.{history_of, is_in_history, add_ancestor, is_ancestor_of}
use qtjsondb.Object.History.Members.{IsHistory, is_in_history-add_ancestor}
use qtjsondb.Object.Optimistic.{
  Update, Write, conflicts_of, eliminate, new_meta, prepare, update_version_optimistic,
}
use qtjsondb.Object.Optimistic.Accept.{
  has_version, is_own_version, prepare_hash, prepare_count, eliminate_none,
}
use qtjsondb.Object.Optimistic.Head.{
  written_head, to_object-meta_value, new_meta_members, update_version_optimistic_head,
}

module _ (q : QtCalls) (u : Update) (w : Write) where
  version-written_head : version (written_head q u w) ≡ version_as_string q w.update_count u.hash
  unfolding version str_eq
  version-written_head = simp value-insert

  value-written_head :
      (j : QString)
      → str_eq version_str j ≡ false
      → str_eq meta_str j ≡ false
      → value (written_head q u w) j ≡ value u.other j
  value-written_head j a b = simp (value-insert, a, b)

  meta-written_head :
      to_object (value (written_head q u w) meta_str)
      ≡ new_meta u.track_history
          (add_ancestor w.history w.replaced_count w.replaced_hash)
          (eliminate u.is_replay u.replaced_version w.conflicts).0
  meta-written_head = rw (value-insert, str_eq_refl meta_str) (to_object-meta_value _)

  history-written_head :
      history_of (written_head q u w)
      ≡ (if u.track_history then add_ancestor w.history w.replaced_count w.replaced_hash else [])
  unfolding history_of
  history-written_head = rw meta-written_head (new_meta_members u.track_history _ _).0

  conflicts-written_head : conflicts_of (written_head q u w) ≡ (
      if is_empty (eliminate u.is_replay u.replaced_version w.conflicts).0
      then []
      else add_ancestor w.history w.replaced_count w.replaced_hash)
  unfolding conflicts_of
  conflicts-written_head = rw meta-written_head (new_meta_members u.track_history _ _).1

-- The version that the write gives.
abbrev pub next_version : QtCalls → QJsonObject → QString
next_version q other =
    version_as_string q ((tokenize_version q (version other)).0 + 1) (content_hash q other)

module _ (q : QtCalls) (o other : QJsonObject) (track : Bool) (new : is_own_version q other ≡ false)
    (clean : any (has_version (version other)) (conflicts_of o) ≡ false)
    (current : (is_empty (version o) || str_eq (version o) (version other)) ≡ true) where
  next-written :
      version_as_string q (prepare q o other track).1.update_count (prepare q o other track).0.hash
      ≡ next_version q other
  next-written = rw (prepare_count q o other track, prepare_hash q o other track, new) refl

  -- Let `other`, whose content is not that of the version it carries, be written over an object
  -- that has this version or none, and no conflict of this version. The write is accepted; its
  -- version and that of the object are the count after the one carried with the hash of the
  -- content; and a member that is neither _version nor _meta is that of `other`.
  pub update_version_optimistic_progress :
      (j : QString)
      → str_eq version_str j ≡ false
      → str_eq meta_str j ≡ false
      → ((update_version_optimistic q o other track).is_valid ≡ true)
        × ((update_version_optimistic q o other track).version_written ≡ next_version q other)
        × (version (update_version_optimistic q o other track).head ≡ next_version q other)
        × (value (update_version_optimistic q o other track).head j ≡ value other j)
  update_version_optimistic_progress j a b =
      let r = update_version_optimistic_head q o other track new clean current in
      let (u, w) = prepare q o other track in
      (
        r.1,
        r.2 ∙ next-written,
        rw r.0 (version-written_head q u w ∙ next-written),
        rw r.0 (value-written_head q u w j a b ∙ unfold prepare in refl),
      )

  history_after :
      (track && not (to_bool (value o local_str))) ≡ true
      → history_of (update_version_optimistic q o other track).head
        ≡ (let (n, h) = tokenize_version q (version other) in add_ancestor (history_of o) n h)
  history_after tracked =
      let r = update_version_optimistic_head q o other track new clean current in
      let (u, w) = prepare q o other track in
      rw (r.0, history-written_head q u w) (unfold prepare in rw tracked)

  -- Let `other`, whose content is not that of the version it carries, be written over an object
  -- that has this version or none, and no conflict of this version. If the history of the
  -- object is well formed, the version carried has a positive count and history is tracked,
  -- then the history afterwards has the versions it had and the version carried, and no others.
  pub history_progress :
      (m : ℕ) (s : QString)
      → IsHistory (history_of o)
      → 0 < (tokenize_version q (version other)).0
      → (track && not (to_bool (value o local_str))) ≡ true
      → is_in_history (history_of (update_version_optimistic q o other track).head) m s ≡ (
          is_in_history (history_of o) m s
          || (((tokenize_version q (version other)).0 == m)
              && str_eq (tokenize_version q (version other)).1 s))
  history_progress m s formed pos tracked =
      let (n, h) = tokenize_version q (version other) in
      rw (history_after tracked) (is_in_history-add_ancestor (history_of o) n m h s formed pos)

  -- Let `other`, whose content is not that of the version it carries, be written over an object
  -- that has this version or none, and no conflict of this version. If the object has the
  -- version carried, a well-formed history and a positive count, and history is tracked, then
  -- it is an ancestor of the object after the write.
  pub is_ancestor_of_progress :
      version o ≡ version other
      → IsHistory (history_of o)
      → 0 < (tokenize_version q (version other)).0
      → (track && not (to_bool (value o local_str))) ≡ true
      → is_ancestor_of q o (update_version_optimistic q o other track).head ≡ true
  unfolding is_ancestor_of
  is_ancestor_of_progress same formed pos tracked =
      let (n, h) = tokenize_version q (version other) in
      rw (same, history_progress n h formed pos tracked) (ground (arith, str_eq_refl h))

  -- Let `other`, whose content is not that of the version it carries, be written over an object
  -- that has this version or none, and no conflict of this version. The conflicts afterwards
  -- are none if there were none; otherwise they are the history with the version carried, so
  -- the conflicts that are left unresolved are lost.
  pub conflicts_progress : conflicts_of (update_version_optimistic q o other track).head ≡ (
      let (n, h) = tokenize_version q (version other) in
      if is_empty (conflicts_of o) then [] else add_ancestor (history_of o) n h)
  conflicts_progress =
      let r = update_version_optimistic_head q o other track new clean current in
      let (u, w) = prepare q o other track in
      rw (r.0, conflicts-written_head q u w)
        (unfold prepare in rw (eliminate_none _ (version other) (conflicts_of o) clean) refl)

-- ===== src/Object/Optimistic/Resurrect.antt =====
-- Writing an object again after its deletion.
use qtjsondb.Prelude.{◌+◌, ◌≡◌, refl, ap, ◌∙◌, Bool, true, false, ◌||◌, arith, any, is_empty}
use qtjsondb.Qt.Text.{QString, str_eq, str_eq_refl}
use qtjsondb.Qt.Json.{str, QJsonObject, to_string, value, insert, value-insert}
use qtjsondb.Qt.Calls.{QtCalls}
use qtjsondb.Strings.{version_str, meta_str}
use qtjsondb.Object.Version.{version, is_deleted, tokenize_version, version_as_string, content_hash}
use qtjsondb.Object.Optimistic.{
  Update, Write, conflicts_of, eliminate, new_meta, prepare, run_update, resolve_conflict,
  progress_head, resurrect, keep_books, accept_replay, update_version_optimistic,
}
use qtjsondb.Object.History.{add_ancestor}
use qtjsondb.Object.Optimistic.Head.{meta_value}
use qtjsondb.Object.Optimistic.Accept.{has_version, prepare_hash, eliminate_found}

module _ (q : QtCalls) where
  resurrected :
      (u : Update) (w : Write)
      → w.is_valid ≡ false
      → (eliminate u.is_replay u.replaced_version w.conflicts).1 ≡ false
      → (is_empty (version w.head) || str_eq (version w.head) u.replaced_version) ≡ false
      → is_deleted w.head ≡ true
      → let written = version_as_string q ((tokenize_version q (version w.head)).0 + 1) u.hash in
        let z = resurrect q u (progress_head q u (resolve_conflict q u w)) in
        (z.is_valid ≡ true)
        × (z.version_written ≡ written)
        × (z.head ≡ insert u.other version_str (str written))
  unfolding resolve_conflict progress_head resurrect
  resurrected u w fresh clean stale deleted = ground arith

  -- What follows changes _meta only.
  books_closed :
      (u : Update) (z : Write)
      → z.is_valid ≡ true
      → let w = accept_replay q u (keep_books q u z) in
        (w.is_valid ≡ true)
        × (w.version_written ≡ z.version_written)
        × ((j : QString) → str_eq meta_str j ≡ false → value w.head j ≡ value z.head j)
  unfolding keep_books accept_replay
  books_closed u z valid = (
    ground arith,
    ground arith,
    λ j ne. ground (
      arith,
      value-insert z.head meta_str j (
          meta_value (
            new_meta u.track_history (add_ancestor z.history z.replaced_count z.replaced_hash)
              z.conflicts)),
    ),
  )

  run_update_resurrect :
      (u : Update) (w : Write) (j : QString)
      → w.is_valid ≡ false
      → (eliminate u.is_replay u.replaced_version w.conflicts).1 ≡ false
      → (is_empty (version w.head) || str_eq (version w.head) u.replaced_version) ≡ false
      → is_deleted w.head ≡ true
      → str_eq meta_str j ≡ false
      → let written = version_as_string q ((tokenize_version q (version w.head)).0 + 1) u.hash in
        ((run_update q u w).is_valid ≡ true)
        × ((run_update q u w).version_written ≡ written)
        × (value (run_update q u w).head j ≡ value (insert u.other version_str (str written)) j)
  unfolding run_update
  run_update_resurrect u w j fresh clean stale deleted ne =
      let r = resurrected u w fresh clean stale deleted in
      let z = resurrect q u (progress_head q u (resolve_conflict q u w)) in
      let k = books_closed u z r.0 in
      (k.0, k.1 ∙ r.1, k.2 j ne ∙ ap (λ (o : QJsonObject). value o j) r.2)

  -- Let `other` be written over a deleted object that has another version, and no conflict of
  -- the version that `other` carries. The write is accepted; its version and that of the object
  -- are the count after the deleted object's with the hash of the content; and a member that is
  -- neither _version nor _meta is that of `other`.
  pub update_version_optimistic_resurrect :
      (o other : QJsonObject) (track : Bool) (j : QString)
      → any (has_version (version other)) (conflicts_of o) ≡ false
      → (is_empty (version o) || str_eq (version o) (version other)) ≡ false
      → is_deleted o ≡ true
      → str_eq version_str j ≡ false
      → str_eq meta_str j ≡ false
      → let written =
          version_as_string q ((tokenize_version q (version o)).0 + 1) (content_hash q other) in
        ((update_version_optimistic q o other track).is_valid ≡ true)
        × ((update_version_optimistic q o other track).version_written ≡ written)
        × (version (update_version_optimistic q o other track).head ≡ written)
        × (value (update_version_optimistic q o other track).head j ≡ value other j)
  update_version_optimistic_resurrect o other track j clean stale deleted ne_version ne_meta =
      let (u, w) = prepare q o other track in
      let found : (eliminate u.is_replay u.replaced_version w.conflicts).1 ≡ false =
        eliminate_found u.is_replay u.replaced_version w.conflicts ∙ unfold prepare in clean in
      let at = λ (i : QString) (ne : str_eq meta_str i ≡ false).
        run_update_resurrect u w i (unfold prepare in refl) found (unfold prepare in stale)
          (unfold prepare in deleted) ne in
      let same : version_as_string q ((tokenize_version q (version w.head)).0 + 1) u.hash
          ≡ version_as_string q ((tokenize_version q (version o)).0 + 1) (content_hash q other) =
        rw (prepare_hash q o other track) (unfold prepare in refl) in
      let of_version = at version_str (unfold str_eq in refl) in
      let of_j = at j ne_meta in
      unfold update_version_optimistic in
      (
        of_j.0,
        of_j.1 ∙ same,
        (unfold version in
            ap to_string of_version.2 ∙ rw (value-insert, str_eq_refl version_str) same),
        of_j.2 ∙ rw (value-insert, ne_version) (unfold prepare in refl),
      )

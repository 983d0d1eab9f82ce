-- ===== src/Object/Optimistic/Replay.antt =====
-- Writes that carry the hash of their own content.
use qtjsondb.Prelude.{◌≡◌, refl, ◌∙◌, Bool, true, false, ◌||◌, arith, any, is_empty}
use qtjsondb.Qt.Text.{QString, str_eq}
use qtjsondb.Qt.Json.{undefined, str, QJsonObject, no_fields, value, insert, value-insert}
use qtjsondb.Qt.Calls.{QtCalls}
use qtjsondb.Strings.{version_str}
use qtjsondb.Object.Version.{version, version_as_string}
use qtjsondb.Object.Optimistic.{
  Update, Write, conflicts_of, eliminate, prepare, run_update, resolve_conflict, progress_head,
  resurrect, keep_books, accept_replay, update_version_optimistic,
}
use qtjsondb.Object.Optimistic.Accept.{has_version, is_own_version, prepare_replay, eliminate_found}

module _ (q : QtCalls) where
  run_update_replay :
      (u : Update) (w : Write)
      → w.is_valid ≡ false
      → u.is_replay ≡ true
      → (eliminate u.is_replay u.replaced_version w.conflicts).1 ≡ false
      → (is_empty (version w.head) || str_eq (version w.head) u.replaced_version) ≡ true
      → ((run_update q u w).is_valid ≡ true)
        × ((run_update q u w).head
            ≡ insert w.head version_str (str (version_as_string q w.update_count u.hash)))
  unfolding run_update resolve_conflict progress_head resurrect keep_books accept_replay
  run_update_replay u w fresh old clean current = ground arith

  -- If an object carries the version of its content, and is written over one that has this
  -- version or none, and no conflict of this version, then the write is accepted and changes no
  -- member but _version.
  pub update_version_optimistic_replay :
      (o other : QJsonObject) (track : Bool) (j : QString)
      → is_own_version q other ≡ true
      → any (has_version (version other)) (conflicts_of o) ≡ false
      → (is_empty (version o) || str_eq (version o) (version other)) ≡ true
      → str_eq version_str j ≡ false
      → ((update_version_optimistic q o other track).is_valid ≡ true)
        × (value (update_version_optimistic q o other track).head j ≡ value o j)
  unfolding update_version_optimistic
  update_version_optimistic_replay o other track j old clean current ne =
      let (u, w) = prepare q o other track in
      let r =
        run_update_replay u w (unfold prepare in refl) (prepare_replay q o other track ∙ old)
          (eliminate_found u.is_replay u.replaced_version w.conflicts ∙ unfold prepare in clean)
          (unfold prepare in current) in
      (r.0, rw (r.1, value-insert, ne) (unfold prepare in refl))

  -- Writing an object that carries the version of its content over an empty object is accepted,
  -- and no member but _version is stored.
  pub creation_loses_members :
      (other : QJsonObject) (track : Bool) (j : QString)
      → is_own_version q other ≡ true
      → str_eq version_str j ≡ false
      → ((update_version_optimistic q no_fields other track).is_valid ≡ true)
        × (value (update_version_optimistic q no_fields other track).head j ≡ undefined)
  unfolding value conflicts_of version any
  creation_loses_members other track j old ne =
      update_version_optimistic_replay no_fields other track j old refl refl ne

-- ===== src/Object/Optimistic/Head.antt =====
-- What an accepted optimistic write makes of the object.
use qtjsondb.Prelude.{
  ◌≡◌, refl, ◌∙◌, Bool, true, false, ◌||◌, [], arith, if◌then◌else◌, any, is_empty,
}
use qtjsondb.Qt.Text.{str_eq, str_lt}
use qtjsondb.Qt.Json.{
  Value, undefined, str, obj, QJsonArray, QJsonObject, no_fields, field, to_array, to_object, value,
  is_empty_object, insert, put, remove, to_list-of_list,
}
use qtjsondb.Qt.Calls.{QtCalls}
use qtjsondb.Strings.{version_str, meta_str, history_str, conflicts_str}
use qtjsondb.Object.Version.{version, version_as_string}
use qtjsondb.Object.History.{add_ancestor}
use qtjsondb.Object.Optimistic.{
  Update, Write, conflicts_of, eliminate, new_meta, prepare, run_update, resolve_conflict,
  progress_head, resurrect, keep_books, accept_replay, update_version_optimistic,
}
use qtjsondb.Object.Optimistic.Accept.{has_version, is_own_version, eliminate_found, prepare_replay}

abbrev pub meta_value : QJsonObject → Value
meta_value meta = if is_empty_object meta then undefined else obj meta

pub to_object-meta_value : (meta : QJsonObject) → to_object (meta_value meta) ≡ meta
to_object-meta_value no_fields = refl
to_object-meta_value (field k v fs) = refl

-- The two members of the new _meta: the conflicts that are left do not enter.
pub new_meta_members :
    (track : Bool) (history conflicts : QJsonArray)
    → (to_array (value (new_meta track history conflicts) history_str)
        ≡ (if track then history else []))
      × (to_array (value (new_meta track history conflicts) conflicts_str)
          ≡ (if is_empty conflicts then [] else history))
unfolding new_meta value str_eq str_lt insert put remove
new_meta_members track history conflicts = ground (arith, to_list-of_list history)

abbrev pub written_head : QtCalls → Update → Write → QJsonObject
written_head q u w =
    insert (insert u.other version_str (str (version_as_string q w.update_count u.hash))) meta_str (
      meta_value (
        new_meta u.track_history (add_ancestor w.history w.replaced_count w.replaced_hash)
          (eliminate u.is_replay u.replaced_version w.conflicts).0))

module _ (q : QtCalls) where
  run_update_head :
      (u : Update) (w : Write)
      → w.is_valid ≡ false
      → u.is_replay ≡ false
      → (eliminate u.is_replay u.replaced_version w.conflicts).1 ≡ false
      → (is_empty (version w.head) || str_eq (version w.head) u.replaced_version) ≡ true
      → ((run_update q u w).head ≡ written_head q u w)
        × ((run_update q u w).is_valid ≡ true)
        × ((run_update q u w).version_written ≡ version_as_string q w.update_count u.hash)
  unfolding run_update resolve_conflict progress_head resurrect keep_books accept_replay
  run_update_head u w fresh new clean current = ground arith

  -- The object after a write that replaces the current version by a changed content.
  pub update_version_optimistic_head :
      (o other : QJsonObject) (track : Bool)
      → is_own_version q other ≡ false
      → any (has_version (version other)) (conflicts_of o) ≡ false
      → (is_empty (version o) || str_eq (version o) (version other)) ≡ true
      → let p = prepare q o other track in
        let w = update_version_optimistic q o other track in
        (w.head ≡ written_head q p.0 p.1)
        × (w.is_valid ≡ true)
        × (w.version_written ≡ version_as_string q p.1.update_count p.0.hash)
  unfolding update_version_optimistic
  update_version_optimistic_head o other track new clean current =
      let (u, w) = prepare q o other track in
      run_update_head u w (unfold prepare in refl) (prepare_replay q o other track ∙ new)
        (eliminate_found u.is_replay u.replaced_version w.conflicts ∙ unfold prepare in clean)
        (unfold prepare in current)

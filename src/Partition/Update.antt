-- ===== src/Partition/Update.antt =====
-- src/partition/jsondbpartition.cpp: updateObjects. The checks of an object are attempts, which a
-- refusal ends. The messages of the errors, and which code the checks of a built-in type give, are
-- left out. checkNaturalObjectType only sets a code that a later refusal replaces. The changes are
-- committed at the end, also after a refusal, by the destructor of the transaction.
pub mod Checks
pub mod Masters
pub mod Keeps
pub mod Keyed
pub mod Permissions
pub mod Stops
mod Tests
use qtjsondb.Prelude.{
  ℕ, Bool, true, false, ◌&&◌, ◌||◌, List, [], ◌∷◌, ◌++◌, Option, none, some, any, is_empty,
  if◌then◌else◌, not,
}
use qtjsondb.Qt.Text.{QString, codes, str_eq}
use qtjsondb.Qt.Json.{
  Value, null, str, QJsonObject, no_fields, to_bool, to_string, value, contains, insert,
}
use qtjsondb.Qt.Calls.{QtCalls}
use qtjsondb.Strings.{uuid_str, type_str, version_str, deleted_str}
use qtjsondb.Owner.{JsonDbOwner, is_allowed}
use qtjsondb.Object.Version.{version, type, is_deleted, uuid, generate_uuid}
use qtjsondb.Object.Optimistic.{update_version_optimistic, compute_own_version}
use qtjsondb.Object.Replicate.{update_version_replicating}
use qtjsondb.Partition.{
  Action, create, update, remove, JsonDbUpdate, JsonDbObjectTable, put_one, store_state_change,
  Definitions, Partition, find_object_table, set_object_table, get_object,
}
use qtjsondb.Partition.Attempt.{
  Writing, ConflictResolutionMode, ErrorCode, Attempt, ◌>>=◌, ◌>>◌, require, is_view_object,
  is_replicated, is_null, has_null_type, owner_str, Request, Writer, Checked, Prepared,
  reject_stale, replace_object, replicated_write, view_object, no_error, partition_unavailable,
  out_of_space, missing_uuid, missing_type, failed_schema_validation, invalid_type, missing_object,
  operation_not_permitted, invalid_request, updating_stale_version, invalid_definition,
  database_error, passed, refused,
}

module _ (q : QtCalls) (w : Writer) where
  abbrev pub allowed : QString → QJsonObject → QString → Bool × QJsonObject
  allowed name object op = is_allowed q w.rights w.enforces object name op

  -- The owner of a new object, and its uuid.
  unfoldable pub set_owner : QString → QJsonObject → QJsonObject
  set_owner name object =
      if not (contains object owner_str)
      then insert object owner_str (str w.owner_id)
      else if str_eq (to_string (value object owner_str)) w.owner_id
      then object
      else let (ok, object') = allowed name object (codes "setOwner") in
        if ok then object' else insert object' owner_str (str w.owner_id)

  unfoldable pub identify : QString → Bool → Request → Attempt QJsonObject
  unfolding set_owner generate_uuid
  identify name for_removal r =
      if not (contains r.object uuid_str) || is_null (value r.object uuid_str)
      then (if for_removal
          then refused missing_uuid
          else passed (generate_uuid q r.fresh_uuid (set_owner name r.object)))
      else passed r.object

  -- A write needs the right on the object; the check may change it.
  unfoldable pub may_write : Bool → QString → QJsonObject → Attempt QJsonObject
  may_write exempt name object =
      if exempt
      then passed object
      else let (ok, object') = allowed name object (codes "write") in
        if ok then passed object' else refused operation_not_permitted

  unfoldable pub keep_owner : Bool → QJsonObject → QJsonObject → QJsonObject
  keep_owner for_creation master object =
      if not for_creation && not (is_empty (to_string (value master owner_str)))
      then insert object owner_str (value master owner_str)
      else if is_empty (to_string (value object owner_str))
      then insert object owner_str (str w.owner_id)
      else object

  abbrev pub or_empty : Option QJsonObject → QJsonObject
  or_empty none = no_fields
  or_empty (some o) = o

  abbrev pub is_creation : Option QJsonObject → Bool
  is_creation none = true
  is_creation (some o) = is_deleted o

  -- The update of the master by the mode, and the version written.
  unfoldable pub update_master :
      ConflictResolutionMode → QJsonObject → QJsonObject → Attempt (QJsonObject × QString)
  update_master reject_stale master object =
      let u = update_version_optimistic q master object true in
      if u.is_valid then passed (u.head, u.version_written) else refused updating_stale_version
  update_master view_object master object = passed (compute_own_version q object false)
  update_master replace_object master object = passed (compute_own_version q object true)
  update_master replicated_write master object =
      let (master', ok) = update_version_replicating q master object in
      if ok then passed (master', version master') else refused invalid_request

  module _ {D : Type 0} (d : Definitions D) where
    -- The checks before the update.
    unfoldable pub check_object : ConflictResolutionMode → Partition D → Request → Attempt Checked
    unfolding identify may_write keep_owner get_object require
    check_object mode p r =
        let for_removal = to_bool (value r.object deleted_str) in
        identify p.name for_removal r >>= λ object.
        require (for_removal || not (is_empty (to_string (value object type_str)))) missing_type
        >>= λ _.
            require (for_removal || d.validate_schema p.definitions (type object) object)
              failed_schema_validation
            >>= λ _.
                require
                  (is_view_object mode
                    || not (any (λ n. str_eq n (type object)) (d.view_types p.definitions)))
                  invalid_type
                >>= λ _.
                    let known = get_object d p (uuid q object) (type object) true in
                    let for_creation = is_creation known in
                    require (is_replicated mode || (not for_creation || not for_removal))
                      missing_object
                    >>= λ _. may_write for_creation p.name (or_empty known) >>= λ master.
                        may_write for_removal p.name (keep_owner for_creation master object)
                        >>= λ object'. passed (record {
                          object = object';
                          master = master;
                          for_creation = for_creation;
                          for_removal = for_removal;
                        })

    abbrev pub with_type : QJsonObject → QJsonObject → QJsonObject
    with_type master old_master =
        if has_null_type (value master type_str)
        then insert master type_str (str (type old_master))
        else master

    -- The update, and the checks of a change that is visible.
    unfoldable pub prepare_write : ConflictResolutionMode → Partition D → Checked → Attempt Prepared
    unfolding update_master require
    prepare_write mode p c =
        let old_master = if c.for_creation then no_fields else c.master in
        update_master mode c.master c.object >>= λ updated.
        let for_removal = is_deleted updated.0 in
        let master = with_type updated.0 old_master in
        let hidden = str_eq (version old_master) (version master) in
        require (hidden || (for_removal || d.check_validity p.definitions master old_master))
          invalid_definition
        >>= λ _.
            require
              (hidden
                || (not (str_eq (type old_master) (codes "_schemaType"))
                    || d.check_can_remove_schema p.definitions old_master))
              invalid_definition
            >>= λ _.
                require
                  (hidden || d.check_access_control p.definitions c.for_creation master old_master)
                  operation_not_permitted
                >>= λ _. passed (record {
                  master = master;
                  old_master = old_master;
                  version_written = updated.1;
                  for_creation = c.for_creation;
                  for_removal = for_removal;
                })

    abbrev action_of : Prepared → Action
    action_of w = if w.for_removal then remove else if w.for_creation then create else update

    abbrev pub written_update : Prepared → JsonDbUpdate
    written_update w = record {
      old_object = w.old_master;
      new_object = w.master;
      action = action_of w;
    }

    abbrev pub put : Bool → ℕ → QJsonObject → JsonDbObjectTable → JsonDbObjectTable
    put ok key object table =
        if ok then record table { objects = put_one table.objects key object } else table

    -- The change of the tables, the indexes and the definitions. The table is that of the type
    -- of the object that was to be written.
    unfoldable pub store : Partition D → Request → QString → Prepared → Partition D × ℕ
    unfolding put_one store_state_change find_object_table set_object_table
    store p r object_type w =
        let key = uuid q w.master in
        let table = find_object_table d p object_type in
        let (table', state) =
          store_state_change (put r.put_ok key w.master table) key (written_update w) in
        let p' = set_object_table d p object_type table' in
        let deindexed =
          if w.for_creation then p.definitions else d.deindex_object p.definitions w.old_master in
        let indexed = if w.for_removal then deindexed else d.index_object deindexed w.master in
        (record p' { definitions = d.update_built_in_types indexed w.master w.old_master }, state)

    abbrev pub stored : Writing D → Request → Prepared → Partition D × ℕ → Writing D
    stored s r w (p, state) = record {
      partition = p;
      code = if r.put_ok then s.code else database_error;
      state = state;
      objects_written =
          s.objects_written ++ insert w.master version_str (str w.version_written) ∷ [];
      updated = s.updated ++ written_update w ∷ [];
    }

    -- A round of the loop: the write of an object.
    unfoldable pub write_object : ConflictResolutionMode → Writing D → Request → Attempt (Writing D)
    unfolding check_object prepare_write store
    write_object mode s r = check_object mode s.partition r >>= λ c.
        prepare_write mode s.partition c >>= λ w.
        passed (stored s r w (store s.partition r (type c.object) w))

    abbrev pub end_write : (Writing D → Writing D) → Writing D → Attempt (Writing D) → Writing D
    end_write loop s (passed s') = loop s'
    end_write loop s (refused code) = record s { code = code }

    unfoldable pub write_objects : ConflictResolutionMode → Writing D → List Request → Writing D
    unfolding write_object
    write_objects mode s [] = s
    write_objects mode s (r ∷ requests) =
        end_write (λ s'. write_objects mode s' requests) s (write_object mode s r)

    abbrev pub begin : Partition D → Writing D
    begin p = record {
      partition = p;
      code = no_error;
      state = 0;
      objects_written = [];
      updated = [];
    }

    unfoldable pub update_objects : ConflictResolutionMode → Partition D → List Request → Writing D
    unfolding write_objects
    update_objects mode p requests =
        if not p.is_open
        then record (begin p) { code = partition_unavailable }
        else if not p.has_space
        then record (begin p) { code = out_of_space }
        else write_objects mode (begin p) requests

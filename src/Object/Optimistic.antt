-- ===== src/Object/Optimistic.antt =====
-- src/partition/jsondbobject.cpp: updateVersionOptimistic, one definition for each of its steps.
pub mod Accept
pub mod Head
pub mod Progress
pub mod Replay
pub mod Resurrect
use qtjsondb.Prelude.{
  ℕ, ◌+◌, Bool, true, false, ◌&&◌, ◌||◌, [], ◌∷◌, Option, none, some, if◌then◌else◌, is_empty, not,
}
use qtjsondb.Qt.Text.{QString, str_eq}
use qtjsondb.Qt.Json.{
  undefined, str, obj, QJsonArray, QJsonObject, no_fields, to_bool, to_array, to_object,
  array_value, is_empty_object, value, insert,
}
use qtjsondb.Qt.Calls.{QtCalls}
use qtjsondb.Strings.{version_str, meta_str, conflicts_str, history_str, local_str}
use qtjsondb.Object.Version.{
  version, is_deleted, tokenize_version, version_as_string, compute_version,
}
use qtjsondb.Object.History.{add_ancestor, is_in_history, history_of}

-- What does not change during a call.
pub record Update : Type 0 where
  pub other : QJsonObject
  pub replaced_version : QString
  pub is_replay : Bool
  pub hash : QString
  pub track_history : Bool

-- The object and the local variables of a call.
pub record Write : Type 0 where
  pub head : QJsonObject
  pub history : QJsonArray
  pub conflicts : QJsonArray
  pub replaced_count : ℕ
  pub replaced_hash : QString
  pub update_count : ℕ
  pub version_written : QString
  pub is_valid : Bool

unfoldable pub conflicts_of : QJsonObject → QJsonArray
conflicts_of o = to_array (value (to_object (value o meta_str)) conflicts_str)

-- The loop over the conflicts: those that are left, and whether one had the replaced version.
-- The iterator moves on after removeAt, so the conflict behind a removed one is not looked at.
unfoldable pub eliminate : Bool → QString → QJsonArray → QJsonArray × Bool
eliminate is_replay replaced [] = ([], false)
eliminate is_replay replaced (c ∷ []) =
    let hit = str_eq (version (to_object c)) replaced in
    (if hit && not is_replay then [] else c ∷ [], hit)
eliminate is_replay replaced (c ∷ d ∷ rest) =
    let hit = str_eq (version (to_object c)) replaced in
    let skipped = eliminate is_replay replaced rest in
    let later = eliminate is_replay replaced (d ∷ rest) in
    if hit && not is_replay then (d ∷ skipped.0, true) else (c ∷ later.0, hit || later.1)

-- The conflicts member is given the history, as in the source.
unfoldable pub new_meta : Bool → QJsonArray → QJsonArray → QJsonObject
new_meta track_history history conflicts =
    let with_history =
      if track_history && not (is_empty history)
      then insert no_fields history_str (array_value history)
      else no_fields in
    if not (is_empty conflicts)
    then insert with_history conflicts_str (array_value history)
    else with_history

module _ (q : QtCalls) where
  unfoldable pub resolve_conflict : Update → Write → Write
  resolve_conflict u w =
      let (left, found) = eliminate u.is_replay u.replaced_version w.conflicts in
      if found
      then record w {
        conflicts = left;
        history = add_ancestor w.history w.update_count u.hash;
        version_written = version_as_string q w.update_count u.hash;
        is_valid = true;
      }
      else record w { conflicts = left }

  -- The written version is that of the conflict, if one was resolved.
  unfoldable pub progress_head : Update → Write → Write
  progress_head u w =
      let written =
        if w.is_valid then w.version_written else version_as_string q w.update_count u.hash in
      if is_empty (version w.head) || str_eq (version w.head) u.replaced_version
      then record w {
        head = insert (if u.is_replay then w.head else u.other) version_str (str written);
        version_written = written;
        is_valid = true;
      }
      else w

  unfoldable pub resurrect : Update → Write → Write
  resurrect u w =
      let (count, hash) = tokenize_version q (version w.head) in
      let written = version_as_string q (count + 1) u.hash in
      if not w.is_valid && is_deleted w.head
      then record w {
        history =
            if u.is_replay
            then w.history
            else add_ancestor w.history w.replaced_count w.replaced_hash;
        replaced_count = count;
        replaced_hash = hash;
        update_count = count + 1;
        version_written = written;
        head = insert u.other version_str (str written);
        is_valid = true;
      }
      else w

  unfoldable pub keep_books : Update → Write → Write
  keep_books u w =
      let history = add_ancestor w.history w.replaced_count w.replaced_hash in
      let meta = new_meta u.track_history history w.conflicts in
      if w.is_valid && not u.is_replay
      then record w {
        history = history;
        head = insert w.head meta_str (if is_empty_object meta then undefined else obj meta);
      }
      else w

  unfoldable pub accept_replay : Update → Write → Write
  accept_replay u w =
      if not w.is_valid && is_in_history w.history w.update_count u.hash
      then record w { is_valid = true; version_written = version_as_string q w.update_count u.hash }
      else w

  abbrev pub or_replay : Option (ℕ × QString) → ℕ × QString → Bool × ℕ × QString
  or_replay none (count, hash) = (true, count, hash)
  or_replay (some (count, hash)) old = (false, count, hash)

  unfoldable pub prepare : QJsonObject → QJsonObject → Bool → Update × Write
  prepare o other track_history =
      let (replaced_count, replaced_hash) = tokenize_version q (version other) in
      let (is_replay, update_count, hash) =
        or_replay (compute_version q other replaced_count replaced_hash)
          (replaced_count, replaced_hash) in
      (
        record {
          other = other;
          replaced_version = version other;
          is_replay = is_replay;
          hash = hash;
          track_history = track_history && not (to_bool (value o local_str));
        },
        record {
          head = o;
          history = history_of o;
          conflicts = conflicts_of o;
          replaced_count = replaced_count;
          replaced_hash = replaced_hash;
          update_count = update_count;
          version_written = [];
          is_valid = false;
        },
      )

  unfoldable pub run_update : Update → Write → Write
  run_update u w =
      accept_replay u (keep_books u (resurrect u (progress_head u (resolve_conflict u w))))

  -- The result's `head` is the object after the call, `is_valid` what the call returns, and
  -- `version_written` what it stores through the pointer.
  unfoldable pub update_version_optimistic : QJsonObject → QJsonObject → Bool → Write
  update_version_optimistic o other track_history =
      let (u, w) = prepare o other track_history in run_update u w

  -- computeVersion(bool): the object's own update.
  unfoldable pub compute_own_version : QJsonObject → Bool → QJsonObject × QString
  compute_own_version o track_history =
      let w = update_version_optimistic o o track_history in (w.head, w.version_written)

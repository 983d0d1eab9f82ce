-- ===== src/Object/Replicate.antt =====
-- src/partition/jsondbobject.cpp: updateVersionReplicating and populateMerge. `documents`, a QMap
-- ordered by operator <, is the list of its keys in order.
pub mod Documents
pub mod Versions
pub mod Outcome
pub mod Accepted
pub mod Source
use qtjsondb.Prelude.{
  ℕ, Bool, true, false, ◌&&◌, ◌||◌, List, [], ◌∷◌, ◌++◌, Option, none, some, ◌==◌, if◌then◌else◌,
  is_empty, not, any,
}
use qtjsondb.Qt.Json.{
  obj, QJsonArray, QJsonObject, no_fields, to_object, array_value, is_empty_object, contains,
  remove, insert,
}
use qtjsondb.Qt.Calls.{QtCalls}
use qtjsondb.Strings.{meta_str, conflicts_str, history_str}
use qtjsondb.Object.Version.{
  version, is_deleted, uuid, tokenize_version, compute_version, version_lt,
}
use qtjsondb.Object.History.{is_ancestor_of, populate_history}
use qtjsondb.Object.Optimistic.{conflicts_of}

abbrev pub is_some {ℓ} : {A : Type ℓ} → Option A → Bool
is_some none = false
is_some (some a) = true

-- What the final _meta is made of.
pub record Merge : Type 0 where
  pub head : QJsonObject
  pub history : QJsonArray
  pub conflicts : QJsonArray

unfoldable pub write_meta : Merge → QJsonObject
write_meta m =
    let with_history =
      if is_empty m.history
      then no_fields
      else insert no_fields history_str (array_value m.history) in
    let meta =
      if is_empty m.conflicts
      then with_history
      else insert with_history conflicts_str (array_value m.conflicts) in
    if not (is_empty m.history) || not (is_empty m.conflicts)
    then insert m.head meta_str (obj meta)
    else remove m.head meta_str

module _ (q : QtCalls) where
  -- QMap::insert keeps the key that is there, if it is neither less nor greater.
  unfoldable pub insert_document : List QJsonObject → QJsonObject → List QJsonObject
  insert_document [] doc = doc ∷ []
  insert_document (d ∷ documents) doc =
      let later = insert_document documents doc in
      if version_lt q d doc
      then d ∷ later
      else if version_lt q doc d
      then doc ∷ d ∷ documents
      else d ∷ documents

  -- The checks on one source: the uuid, and where asked that the version is that of the content.
  unfoldable pub is_valid_source : ℕ → QJsonObject → Bool → Bool
  is_valid_source id source validate_source =
      let (count, hash) = tokenize_version q (version source) in
      (uuid q source == id)
      && (not validate_source
          || not ((count == 0) || is_some (compute_version q source count hash)))

  abbrev pub add_valid : Bool → List QJsonObject → QJsonObject → List QJsonObject
  add_valid valid documents source = if valid then insert_document documents source else documents

  -- The loop over the conflicts, which calls populateMerge without `recurse`.
  unfoldable pub merge_conflicts :
      List QJsonObject → ℕ → QJsonArray → Bool → List QJsonObject × Bool
  merge_conflicts documents id [] validate_source = (documents, true)
  merge_conflicts documents id (c ∷ conflicts) validate_source =
      let valid = is_valid_source id (to_object c) validate_source in
      let rest =
        merge_conflicts (add_valid valid documents (to_object c)) id conflicts validate_source in
      (rest.0, valid && rest.1)

  unfoldable pub populate_merge :
      List QJsonObject → ℕ → QJsonObject → Bool → List QJsonObject × Bool
  populate_merge documents id source validate_source =
      let found = if contains source meta_str then conflicts_of source else [] in
      let merged = merge_conflicts documents id found validate_source in
      let valid = is_valid_source id source validate_source && merged.1 in
      (add_valid valid merged.0 source, valid)

  -- A document that is not the winner: a conflict without _meta if it is alive, and otherwise
  -- only a part of the history.
  unfoldable pub leave : QJsonObject → Bool → Merge → Merge
  leave d alive m =
      if alive
      then record m { conflicts = m.conflicts ++ obj (remove d meta_str) ∷ [] }
      else record m { history = populate_history q m.history d true }

  -- The loop over the documents: the last one is the winner, and alive is what is neither deleted
  -- nor an ancestor of a later one.
  unfoldable pub sort_out : List QJsonObject → Merge → Merge
  sort_out [] m = m
  sort_out (d ∷ []) m = record m { head = d; history = populate_history q m.history d false }
  sort_out (d ∷ e ∷ documents) m =
      let alive = not (is_deleted d) && not (any (is_ancestor_of q d) (e ∷ documents)) in
      sort_out (e ∷ documents) (leave d alive m)

  abbrev pub merge_documents : QJsonObject → QJsonObject → List QJsonObject × Bool
  merge_documents o other =
      if is_empty_object o
      then populate_merge [] (uuid q other) other true
      else populate_merge (populate_merge [] (uuid q o) o false).0 (uuid q o) other true

  -- The object after the call, and what the call returns.
  unfoldable pub update_version_replicating : QJsonObject → QJsonObject → QJsonObject × Bool
  update_version_replicating o other =
      let (documents, valid) = merge_documents o other in
      if valid
      then (
        write_meta (sort_out documents (record { head = o; history = []; conflicts = [] })),
        true,
      )
      else (o, false)

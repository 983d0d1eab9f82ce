-- ===== src/Object/History.antt =====
-- src/partition/jsondbobject.cpp: _meta.history. The entry at index n - 1 holds the replaced
-- versions of update count n: null for none, a text for one hash, an array for several.
pub mod Hashes
pub mod Members
pub mod Merge
use qtjsondb.Prelude.{
  ℕ, zero, suc, ◌-◌, Bool, false, [], ◌∷◌, ◌++◌, Option, none, some, ltb, if◌then◌else◌, length,
}
use qtjsondb.Qt.Text.{QString, str_eq, str_lt}
use qtjsondb.Qt.Json.{
  Value, undefined, null, str, arr, QJsonArray, QJsonObject, to_list, to_string, to_array,
  to_object, array_value, contains_str, value,
}
use qtjsondb.Qt.Calls.{QtCalls}
use qtjsondb.Strings.{meta_str, history_str}
use qtjsondb.Object.Version.{version, tokenize_version}

-- QJsonArray::at, with Undefined out of range, and QJsonArray::replace.
unfoldable pub at : QJsonArray → ℕ → Value
at [] i = undefined
at (v ∷ vs) zero = v
at (v ∷ vs) (suc i) = at vs i

unfoldable pub replace : QJsonArray → ℕ → Value → QJsonArray
replace [] i w = []
replace (v ∷ vs) zero w = w ∷ vs
replace (v ∷ vs) (suc i) w = v ∷ replace vs i w

unfoldable pub append_nulls : ℕ → QJsonArray → QJsonArray
append_nulls zero vs = vs
append_nulls (suc n) vs = append_nulls n (vs ++ null ∷ [])

-- One round of the loop over `multi`, given the outcome for the entries behind `v`.
abbrev pub place_at : Value → QJsonArray → QString → Option QJsonArray → Option QJsonArray
place_at v vs hash (some placed) = some (v ∷ placed)
place_at v vs hash none =
    if str_eq (to_string v) hash
    then some (v ∷ vs)
    else if str_lt (to_string v) hash
    then some (v ∷ str hash ∷ vs)
    else none

-- The loop goes from the last index down, so it looks at an entry after the entries behind it:
-- none where no entry is equal to the hash or below it.
unfoldable pub place : QJsonArray → QString → Option QJsonArray
place [] hash = none
place (v ∷ vs) hash = place_at v vs hash (place vs hash)

abbrev pub or_prepend : Option QJsonArray → QJsonArray → QString → QJsonArray
or_prepend none multi hash = str hash ∷ multi
or_prepend (some placed) multi hash = placed

-- The new entry of the history for one more hash.
unfoldable pub add_hash : Value → QString → Value
add_hash (arr xs) hash = array_value (or_prepend (place (to_list xs) hash) (to_list xs) hash)
add_hash (str old_hash) hash =
    if str_eq old_hash hash
    then str old_hash
    else if str_lt old_hash hash
    then array_value (str old_hash ∷ str hash ∷ [])
    else if str_lt hash old_hash
    then array_value (str hash ∷ str old_hash ∷ [])
    else array_value []
add_hash _ hash = str hash

unfoldable pub add_ancestor : QJsonArray → ℕ → QString → QJsonArray
add_ancestor history zero hash = history
add_ancestor history (suc pos) hash =
    let padded = append_nulls (suc pos - length history) history in
    replace padded pos (add_hash (at padded pos) hash)

unfoldable pub is_known : Value → QString → Bool
is_known (str known_hash) hash = str_eq known_hash hash
is_known (arr xs) hash = contains_str (to_list xs) hash
is_known _ hash = false

-- isAncestorOf(QJsonArray, int, QString)
unfoldable pub is_in_history : QJsonArray → ℕ → QString → Bool
is_in_history history zero hash = false
is_in_history history (suc pos) hash =
    if ltb (length history) (suc pos) then false else is_known (at history pos) hash

unfoldable pub history_of : QJsonObject → QJsonArray
history_of o = to_array (value (to_object (value o meta_str)) history_str)

module _ (q : QtCalls) where
  -- isAncestorOf(JsonDbObject)
  unfoldable pub is_ancestor_of : QJsonObject → QJsonObject → Bool
  is_ancestor_of o other =
      let (update_count, hash) = tokenize_version q (version o) in
      is_in_history (history_of other) update_count hash

  unfoldable pub add_strings : QJsonArray → ℕ → QJsonArray → QJsonArray
  add_strings history n [] = history
  add_strings history n (str hash ∷ vs) = add_strings (add_ancestor history n hash) n vs
  add_strings history n (v ∷ vs) = add_strings history n vs

  -- One entry of another history, at the update count n.
  unfoldable pub add_entry : QJsonArray → ℕ → Value → QJsonArray
  unfolding add_strings
  add_entry history n (str hash) = add_ancestor history n hash
  add_entry history n (arr xs) = add_strings history n (to_list xs)
  add_entry history n _ = history

  unfoldable pub add_versions : QJsonArray → ℕ → QJsonArray → QJsonArray
  unfolding add_entry
  add_versions history n [] = history
  add_versions history n (v ∷ versions) = add_versions (add_entry history n v) (suc n) versions

  unfoldable pub populate_history : QJsonArray → QJsonObject → Bool → QJsonArray
  unfolding add_versions
  populate_history history doc include_current =
      let merged = add_versions history 1 (history_of doc) in
      let (update_count, hash) = tokenize_version q (version doc) in
      if include_current then add_ancestor merged update_count hash else merged

-- ===== src/Object/Tests/Rewriting.antt =====
-- src/partition/jsondbobject.cpp on small objects: writes after a deletion, writes of a known
-- version, histories, versions and paths.
use qtjsondb.Prelude.{◌≡◌, refl, true, false, ◌||◌, ◌&&◌, ltb, [], ◌∷◌, arith, is_empty, any, ◌==◌}
use qtjsondb.Qt.Text.{codes, str_eq, str_lt, split, has_unit}
use qtjsondb.Qt.Json.{
  undefined, bool, str, obj, null, QJsonArray, QJsonObject, no_fields, field, value, array_value,
}
use qtjsondb.Qt.Sample.{sample, sample-NumberLaws}
use qtjsondb.Strings.{meta_str, deleted_str}
use qtjsondb.Object.Version.{
  version, is_deleted, tokenize_version, version_as_string, is_unhashed, version_lt,
}
use qtjsondb.Object.Version.Tokens.{tokenize_version-version_as_string}
use qtjsondb.Object.History.{add_ancestor, is_in_history, history_of, populate_history}
use qtjsondb.Object.History.Members.{IsHistory, is_in_history-add_ancestor}
use qtjsondb.Object.History.Merge.{is_in_history-populate_history}
use qtjsondb.Object.Optimistic.{conflicts_of, update_version_optimistic}
use qtjsondb.Object.Optimistic.Accept.{has_version}
use qtjsondb.Object.Optimistic.Replay.{creation_loses_members}
use qtjsondb.Object.Tests.{hash_a, version_a, object_of, stored, rival, is_own_version-rival, key_b}

-- A deleted object.
abbrev tombstone : QJsonObject
tombstone = field deleted_str (bool true) stored

tombstone_clean : any (has_version (version rival)) (conflicts_of tombstone) ≡ false
unfolding conflicts_of value str_eq any
tombstone_clean = refl

tombstone_stale :
    (is_empty (version tombstone) || str_eq (version tombstone) (version rival)) ≡ false
unfolding version value str_eq
tombstone_stale = refl

tombstone_deleted : is_deleted tombstone ≡ true
unfolding is_deleted value str_eq
tombstone_deleted = refl

rival_clean : any (has_version (version rival)) (conflicts_of rival) ≡ false
unfolding conflicts_of value str_eq any
rival_clean = refl

rival_current : (is_empty (version rival) || str_eq (version rival) (version rival)) ≡ true
unfolding version value str_eq
rival_current = refl

creation_loses_members_run :
    ((update_version_optimistic sample no_fields rival true).is_valid ≡ true)
    × (value (update_version_optimistic sample no_fields rival true).head (codes "b") ≡ undefined)
creation_loses_members_run =
    creation_loses_members sample rival true (codes "b") is_own_version-rival key_b

-- Two hashes of the first update count, and none of the second.
abbrev history : QJsonArray
history = array_value (str (codes "a") ∷ str (codes "c") ∷ []) ∷ null ∷ []

history-IsHistory : IsHistory history
unfolding str_lt
history-IsHistory = ((refl, (refl, tt), (refl, tt, tt)), (tt, tt))

is_in_history-add_ancestor_example :
    is_in_history (add_ancestor history 1 (codes "b")) 1 (codes "c")
    ≡ (is_in_history history 1 (codes "c") || ((1 == 1) && str_eq (codes "b") (codes "c")))
is_in_history-add_ancestor_example =
    is_in_history-add_ancestor history 1 1 (codes "b") (codes "c") history-IsHistory (omega arith)

is_in_history-populate_history_example :
    IsHistory (populate_history sample history stored true)
    × (is_in_history (populate_history sample history stored true) 1 hash_a ≡ (
        is_in_history history 1 hash_a
        || (is_in_history (history_of stored) 1 hash_a
            || (true
                && (ltb 0 (tokenize_version sample (version stored)).0
                    && (((tokenize_version sample (version stored)).0 == 1)
                        && str_eq (tokenize_version sample (version stored)).1 hash_a))))))
is_in_history-populate_history_example =
    is_in_history-populate_history sample history stored true 1 hash_a history-IsHistory

plain_a : has_unit b'-' hash_a ≡ false
unfolding has_unit
plain_a = refl

tokenize_version-version_as_string_example :
    tokenize_version sample (version_as_string sample 3 hash_a) ≡ (3, hash_a)
tokenize_version-version_as_string_example =
    tokenize_version-version_as_string sample sample-NumberLaws 3 hash_a (omega arith) (omega arith)
      plain_a

abbrev later : QJsonObject
later = object_of (b'1' ∷ version_a) (codes "a")

stored_below : version_lt sample stored rival ≡ true
unfolding version_lt tokenize_version version value str_eq split str_lt
stored_below = refl

rival_below : version_lt sample rival later ≡ true
unfolding version_lt tokenize_version version value str_eq split str_lt
rival_below = refl

meta_unhashed : is_unhashed meta_str ≡ true
unfolding is_unhashed str_eq
meta_unhashed = refl

abbrev nested : QJsonObject
nested = field (codes "a") (obj (field (codes "b") (obj rival) no_fields)) no_fields

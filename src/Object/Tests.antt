-- ===== src/Object/Tests.antt =====
-- src/partition/jsondbobject.cpp on small objects: the written, the replicated and the replayed.
mod Rewriting
mod Replicating
use qtjsondb.Prelude.{
  ◌∙◌, ◌≡◌, ℕ, ◌+◌, ◌<◌, refl, Bool, true, false, ◌||◌, ◌&&◌, not, if◌then◌else◌, [], ◌∷◌, List,
  some, none, pos, arith, is_empty, any, take, length, max, ◌==◌, ◌⊎◌,
}
use qtjsondb.Qt.Text.{QString, codes, str_eq, str_lt, split, has_unit}
use qtjsondb.Qt.Json.{
  Value, undefined, bool, str, obj, null, QJsonArray, QJsonObject, no_fields, field, value,
  contains, insert, remove, contains_str, to_bool, array_value,
}
use qtjsondb.Qt.Sample.{sample, sample-NumberLaws}
use qtjsondb.Strings.{
  uuid_str, version_str, meta_str, deleted_str, history_str, conflicts_str, local_str,
}
use qtjsondb.Object.Version.{
  version, uuid, is_deleted, tokenize_version, version_as_string, content_hash, compute_version,
  hash_input, utf16_bytes, le_bytes, type_code, value_bytes, is_unhashed, version_lt,
}
use qtjsondb.Object.History.{
  at, replace, append_nulls, add_hash, place, add_ancestor, is_known, is_in_history, history_of,
  add_strings, add_entry, add_versions, populate_history, is_ancestor_of,
}
use qtjsondb.Object.Optimistic.{conflicts_of, update_version_optimistic}
use qtjsondb.Object.Optimistic.Accept.{
  has_version, is_own_version, next_count, update_version_optimistic-is_valid,
  update_version_optimistic_rejected,
}
use qtjsondb.Object.Optimistic.Progress.{
  next_version, update_version_optimistic_progress, history_progress, is_ancestor_of_progress,
  conflicts_progress,
}
use qtjsondb.Object.History.Members.{IsHistory}

abbrev pub hash_a : QString
hash_a = 97 ∷ 0 ∷ 1 ∷ b'1' ∷ []

abbrev pub hash_b : QString
hash_b = 98 ∷ 0 ∷ 1 ∷ b'1' ∷ []

abbrev pub version_a : QString
version_a = b'1' ∷ b'-' ∷ hash_a

abbrev pub version_b : QString
version_b = b'1' ∷ b'-' ∷ hash_b

abbrev pub object_of : QString → QString → QJsonObject
object_of v key =
    field uuid_str (str (codes "1")) (field version_str (str v) (field key (bool true) no_fields))

-- An object in its first version, its replacement by other content, and a rival first version.
abbrev pub stored : QJsonObject
stored = object_of version_a (codes "a")

abbrev pub changed : QJsonObject
changed = object_of version_a (codes "b")

abbrev pub rival : QJsonObject
rival = object_of version_b (codes "b")

content_hash-stored : content_hash sample stored ≡ hash_a
unfolding content_hash hash_input is_unhashed str_eq utf16_bytes value_bytes type_code
content_hash-stored = refl

pub is_own_version-rival : is_own_version sample rival ≡ true
unfolding content_hash hash_input is_unhashed str_eq utf16_bytes value_bytes type_code
    tokenize_version version value split
is_own_version-rival = refl

pub new_content : is_own_version sample changed ≡ false
unfolding content_hash hash_input is_unhashed str_eq utf16_bytes value_bytes type_code
    tokenize_version version value split
new_content = refl

pub no_conflict : (v : QString) → any (has_version v) (conflicts_of stored) ≡ false
unfolding conflicts_of value str_eq any
no_conflict v = refl

pub is_current : (is_empty (version stored) || str_eq (version stored) (version changed)) ≡ true
unfolding version value str_eq
is_current = refl

stale : (is_empty (version stored) || str_eq (version stored) (version rival)) ≡ false
unfolding version value str_eq
stale = refl

update_version_optimistic-is_valid_example :
    (update_version_optimistic sample stored rival true).is_valid ≡ (
      any (has_version (version rival)) (conflicts_of stored)
      || (is_empty (version stored)
          || (str_eq (version stored) (version rival)
              || (is_deleted stored
                  || is_in_history
                      (history_of stored)
                      (next_count sample rival)
                      (content_hash sample rival)))))
update_version_optimistic-is_valid_example =
    update_version_optimistic-is_valid sample stored rival true

rejected : (update_version_optimistic sample stored rival true).is_valid ≡ false
unfolding conflicts_of version value str_eq any is_deleted is_in_history history_of content_hash
    hash_input is_unhashed utf16_bytes tokenize_version split type_code value_bytes
rejected = update_version_optimistic-is_valid sample stored rival true ∙ refl

abbrev version_2b : QString
version_2b = b'1' ∷ b'1' ∷ b'-' ∷ hash_b

next_version-changed : next_version sample changed ≡ version_2b
unfolding content_hash hash_input is_unhashed str_eq utf16_bytes value_bytes type_code
    tokenize_version version value split version_as_string
next_version-changed = refl

pub key_b : str_eq version_str (codes "b") ≡ false
unfolding str_eq
key_b = refl

pub meta_b : str_eq meta_str (codes "b") ≡ false
unfolding str_eq
meta_b = refl

update_version_optimistic_progress_example :
    ((update_version_optimistic sample stored changed true).is_valid ≡ true)
    × ((update_version_optimistic sample stored changed true).version_written
        ≡ next_version sample changed)
    × (version (update_version_optimistic sample stored changed true).head
        ≡ next_version sample changed)
    × (value (update_version_optimistic sample stored changed true).head (codes "b")
        ≡ value changed (codes "b"))
update_version_optimistic_progress_example =
    update_version_optimistic_progress sample stored changed true new_content
      (no_conflict (version changed)) is_current (codes "b") key_b meta_b

pub no-IsHistory : IsHistory (history_of stored)
unfolding history_of value str_eq
no-IsHistory = tt

pub positive : 0 < (tokenize_version sample (version changed)).0
unfolding tokenize_version version value str_eq split
positive = omega arith

tracked : (true && not (to_bool (value stored local_str))) ≡ true
unfolding value str_eq
tracked = refl

pub same_version : version stored ≡ version changed
unfolding version value str_eq
same_version = refl

is_ancestor_of_progress_example :
    is_ancestor_of sample stored (update_version_optimistic sample stored changed true).head ≡ true
is_ancestor_of_progress_example =
    is_ancestor_of_progress sample stored changed true new_content (no_conflict (version changed))
      is_current same_version no-IsHistory positive tracked

-- The stored object with the rival as a conflict.
abbrev pub contested : QJsonObject
contested =
    field meta_str (obj (field conflicts_str (array_value (obj rival ∷ [])) no_fields)) stored

contested_clean : any (has_version (version changed)) (conflicts_of contested) ≡ false
unfolding conflicts_of version value str_eq any
contested_clean = refl

contested_current :
    (is_empty (version contested) || str_eq (version contested) (version changed)) ≡ true
unfolding version value str_eq
contested_current = refl

conflicts_progress_example :
    conflicts_of (update_version_optimistic sample contested changed true).head ≡ (
      let (n, h) = tokenize_version sample (version changed) in
      if is_empty (conflicts_of contested) then [] else add_ancestor (history_of contested) n h)
conflicts_progress_example =
    conflicts_progress sample contested changed true new_content contested_clean contested_current

-- The rival, and all that is left of the conflicts is the hash of the replaced version.
conflicts-contested :
    (conflicts_of contested ≡ obj rival ∷ [])
    × (conflicts_of (update_version_optimistic sample contested changed true).head
        ≡ str hash_a ∷ [])
unfolding conflicts_of version value str_eq any tokenize_version split add_ancestor append_nulls
    replace at add_hash history_of
conflicts-contested = (refl, conflicts_progress_example)

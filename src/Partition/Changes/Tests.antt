-- ===== src/Partition/Changes/Tests.antt =====
-- Changes of three states on which the statements about them are evaluated. A uuid is the length of
-- its text here.
use qtjsondb.Prelude.{
  ◌+◌, ◌≡◌, refl, true, ◌&&◌, List, [], ◌∷◌, none, some, leb, ltb, is_empty, if◌then◌else◌, all_of,
  arith,
}
use qtjsondb.Qt.Text.{QString, codes, str_eq}
use qtjsondb.Qt.Json.{str, QJsonObject, no_fields, field, value}
use qtjsondb.Qt.Sample.{sample}
use qtjsondb.Object.Version.{uuid}
use qtjsondb.Partition.{create, update, remove, JsonDbUpdate, JsonDbObjectTable}
use qtjsondb.Partition.Changes.{
  ChangeLog, change_of, collect, or_no_entries, entries_at, fetch_states, split_changes, commit,
  changes_from,
}
use qtjsondb.Partition.Changes.Collect.{changes_of, spanning, collect_existing}
use qtjsondb.Partition.Changes.Replay.{CreatesAbsent, apply_change, apply_all, collect_replays}
use qtjsondb.Partition.Changes.Cache.{changes_at, read_back, changes_at-fetch_states}
use qtjsondb.Partition.Changes.Split.{concerns, split_changes-concerns}

abbrev object : QString → QString → QJsonObject
object type id = field (codes "_type") (str type) (field (codes "_uuid") (str id) no_fields)

abbrev first : QJsonObject
first = object (codes "A") (codes "u")

abbrev second : QJsonObject
second = object (codes "B") (codes "u")

abbrev made : JsonDbUpdate
made = record { old_object = no_fields; new_object = first; action = create }

abbrev changed : JsonDbUpdate
changed = record { old_object = first; new_object = second; action = update }

abbrev removed : JsonDbUpdate
removed = record { old_object = second; new_object = second; action = remove }

abbrev history : List JsonDbUpdate
history = made ∷ changed ∷ removed ∷ []

history-CreatesAbsent : CreatesAbsent none (changes_of sample 1 history)
unfolding changes_of uuid value str_eq
history-CreatesAbsent =
    ((λ e. refl), ((λ e. absurd (ground arith)), ((λ e. absurd (ground arith)), tt)))

collect_replays_example :
    apply_change none (change_of (collect sample history []) 1)
    ≡ apply_all none (changes_of sample 1 history)
collect_replays_example = collect_replays sample history 1 none history-CreatesAbsent

-- A creation that is followed by an update and a removal does not cancel out.
removal_is_left :
    change_of (collect sample history []) 1
    ≡ some (record { old_object = no_fields; new_object = second; action = remove })
unfolding collect change_of uuid value str_eq
removal_is_left = refl

-- A creation that is followed by an update is given as an update.
creation_is_update :
    change_of (collect sample (made ∷ changed ∷ []) []) 1
    ≡ some (record { old_object = no_fields; new_object = second; action = update })
unfolding collect change_of uuid value str_eq
creation_is_update = refl

abbrev table : JsonDbObjectTable
table = record {
  objects = (1, first) ∷ [];
  state_number = 3;
  state_object_changes = (1, made) ∷ (1, changed) ∷ [];
}

abbrev log : ChangeLog
log = record {
  cache = (3, removed) ∷ [];
  states = (2, (1, create) ∷ (1, update) ∷ []) ∷ [];
  old_objects = [];
}

-- The changes of one state that commit adds to the cache come in the reverse order.
committed_in_reverse : changes_from (commit sample 4 table log).1.cache 4 ≡ changed ∷ made ∷ []
unfolding commit changes_from
committed_in_reverse = refl

changes_at-fetch_states_run : changes_at (fetch_states table log 2 2 log.cache) 2 ≡ (
    if (leb 2 2 && ltb 2 (2 + 2)) && is_empty (changes_at log.cache 2)
    then read_back table log 2 (or_no_entries (entries_at log.states 2))
    else changes_at log.cache 2)
changes_at-fetch_states_run = changes_at-fetch_states table log 2 2 2 log.cache

split_changes-concerns_run :
    all_of (concerns (codes "B" ∷ [])) (split_changes (codes "B" ∷ []) true ((1, changed) ∷ []))
    ≡ true
split_changes-concerns_run = split_changes-concerns (codes "B" ∷ []) true ((1, changed) ∷ [])

changed_and_removed : changes_of sample 1 (changed ∷ removed ∷ []) ≡ changed ∷ removed ∷ []
unfolding changes_of uuid value str_eq
changed_and_removed = refl

collect_existing_run :
    change_of (collect sample (changed ∷ removed ∷ []) []) 1
    ≡ some (spanning changed (removed ∷ []))
collect_existing_run =
    collect_existing sample (changed ∷ removed ∷ []) 1 changed (removed ∷ []) changed_and_removed
      refl

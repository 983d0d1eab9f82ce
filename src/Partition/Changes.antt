-- ===== src/Partition/Changes.antt =====
-- src/partition/jsondbobjecttable.cpp: the changes of the states, which commit stores and
-- changesSince collects. A state is stored as the list of its entries, and an old object under its
-- state and key. mChangeCache is a QMultiMap: the list of its pairs in the order of its iterator,
-- which goes through the values of one key from the last inserted. Logging is left out.
pub mod Collect
pub mod Replay
mod Tests
pub mod Cache
pub mod Split
use qtjsondb.Prelude.{
  ℕ, zero, suc, ◌+◌, ◌-◌, ◌%◌, ◌^◌, max, Bool, true, false, ◌&&◌, ◌||◌, List, [], ◌∷◌, ◌++◌, Option,
  none, some, ◌==◌, ltb, leb, any, is_empty, if◌then◌else◌, not,
}
use qtjsondb.Qt.Text.{QString, str_eq}
use qtjsondb.Qt.Json.{
  Value, bool, QJsonObject, no_fields, to_string, value, insert, is_empty_object,
}
use qtjsondb.Qt.Calls.{QtCalls}
use qtjsondb.Strings.{type_str, deleted_str}
use qtjsondb.Object.Version.{uuid}
use qtjsondb.Partition.{Action, create, update, remove, JsonDbUpdate, JsonDbObjectTable, get_one}

abbrev pub is_create : Action → Bool
is_create create = true
is_create _ = false

abbrev pub is_remove : Action → Bool
is_remove remove = true
is_remove _ = false

-- mChangeCache, the entries of each state in the table, and the old objects.
pub record ChangeLog : Type 0 where
  pub cache : List (ℕ × JsonDbUpdate)
  pub states : List (ℕ × List (ℕ × Action))
  pub old_objects : List (ℕ × (ℕ × QJsonObject))

-- QMultiMap::insert
unfoldable pub insert_multi : List (ℕ × JsonDbUpdate) → ℕ → JsonDbUpdate → List (ℕ × JsonDbUpdate)
insert_multi [] n change = (n, change) ∷ []
insert_multi ((m, c) ∷ cache) n change =
    let rest = insert_multi cache n change in
    if leb n m then (n, change) ∷ (m, c) ∷ cache else (m, c) ∷ rest

unfoldable pub contains_state : List (ℕ × JsonDbUpdate) → ℕ → Bool
contains_state cache n = any (λ e. e.0 == n) cache

-- The entries of mStateChanges, which storeStateChange appends.
unfoldable pub entries_of : List (ℕ × JsonDbUpdate) → List (ℕ × Action)
entries_of [] = []
entries_of ((key, change) ∷ changes) = (key, change.action) ∷ entries_of changes

-- The loop of commit over the changes.
unfoldable pub store_changes : QtCalls → ℕ → List (ℕ × JsonDbUpdate) → ChangeLog → ChangeLog
unfolding insert_multi
store_changes q n [] log = log
store_changes q n ((key, change) ∷ changes) log =
    let old = change.old_object in
    let olds =
      if is_empty_object old then log.old_objects else (n, (uuid q old, old)) ∷ log.old_objects in
    let cache = if is_empty log.cache then log.cache else insert_multi log.cache n change in
    store_changes q n changes (record log { old_objects = olds; cache = cache })

-- JsonDbObjectTable::commit, where the database commits.
unfoldable pub commit : QtCalls → ℕ → JsonDbObjectTable → ChangeLog → JsonDbObjectTable × ChangeLog
unfolding entries_of store_changes
commit q n table log =
    let changes = table.state_object_changes in
    (
      record table { state_object_changes = []; state_number = n },
      store_changes q n changes (record log { states = (n, entries_of changes) ∷ log.states }),
    )

-- JsonDbObjectTable::abort
unfoldable pub abort : JsonDbObjectTable → JsonDbObjectTable
abort table = record table { state_object_changes = [] }

-- Drops the states that are older than the kept versions.
unfoldable pub prune : ℕ → ℕ → List (ℕ × JsonDbUpdate) → List (ℕ × JsonDbUpdate)
prune first end [] = []
prune first end ((n, change) ∷ cache) =
    let rest = prune first end cache in
    if leb first n && ltb n end then rest else (n, change) ∷ rest

unfoldable pub prune_cache : ℕ → ℕ → List (ℕ × JsonDbUpdate) → List (ℕ × JsonDbUpdate)
unfolding prune
prune_cache extra start [] = []
prune_cache extra start ((first, change) ∷ cache) =
    if ltb (first + extra) start
    then prune first (start - extra) ((first, change) ∷ cache)
    else (first, change) ∷ cache

unfoldable pub entries_at : List (ℕ × List (ℕ × Action)) → ℕ → Option (List (ℕ × Action))
entries_at [] n = none
entries_at ((m, entries) ∷ states) n = if m == n then some entries else entries_at states n

unfoldable pub old_at : List (ℕ × (ℕ × QJsonObject)) → ℕ → ℕ → Option QJsonObject
old_at [] n key = none
old_at ((m, (k, o)) ∷ olds) n key = if (m == n) && (k == key) then some o else old_at olds n key

abbrev or_else : Option QJsonObject → QJsonObject → QJsonObject
or_else none o = o
or_else (some p) o = p

-- A change that is read back: where the object is not in the table, the old one is read again.
unfoldable pub read_change : JsonDbObjectTable → ChangeLog → ℕ → ℕ × Action → JsonDbUpdate
unfolding old_at get_one
read_change table log n (key, action) =
    let old =
      if is_create action then no_fields else or_else (old_at log.old_objects n key) no_fields in
    record {
      old_object = old;
      new_object = or_else (get_one table.objects key) old;
      action = action;
    }

unfoldable pub fetch_entries :
    JsonDbObjectTable
    → ChangeLog
    → ℕ
    → List (ℕ × Action)
    → List (ℕ × JsonDbUpdate)
    → List (ℕ × JsonDbUpdate)
unfolding read_change insert_multi
fetch_entries table log n [] cache = cache
fetch_entries table log n (entry ∷ entries) cache =
    fetch_entries table log n entries (insert_multi cache n (read_change table log n entry))

abbrev or_no_entries : Option (List (ℕ × Action)) → List (ℕ × Action)
or_no_entries none = []
or_no_entries (some entries) = entries

-- The loop over the states from n on, of which there are `count`.
unfoldable pub fetch_states :
    JsonDbObjectTable → ChangeLog → ℕ → ℕ → List (ℕ × JsonDbUpdate) → List (ℕ × JsonDbUpdate)
unfolding contains_state fetch_entries entries_at
fetch_states table log zero n cache = cache
fetch_states table log (suc count) n cache = fetch_states table log count (suc n) (
    if contains_state cache n
    then cache
    else fetch_entries table log n (or_no_entries (entries_at log.states n)) cache)

-- QMap<ObjectKey, JsonDbUpdate>, in the order of its keys.
abbrev pub ChangeMap : Type 0
ChangeMap = List (ℕ × JsonDbUpdate)

unfoldable pub change_of : ChangeMap → ℕ → Option JsonDbUpdate
change_of [] key = none
change_of ((k, change) ∷ changes) key = if k == key then some change else change_of changes key

unfoldable pub put_change : QtCalls → ChangeMap → ℕ → JsonDbUpdate → ChangeMap
put_change q [] key change = (key, change) ∷ []
put_change q ((k, c) ∷ changes) key change =
    let rest = put_change q changes key change in
    if k == key
    then (key, change) ∷ changes
    else if q.uuid_lt key k
    then (key, change) ∷ (k, c) ∷ changes
    else (k, c) ∷ rest

unfoldable pub remove_change : ChangeMap → ℕ → ChangeMap
remove_change [] key = []
remove_change ((k, c) ∷ changes) key =
    let rest = remove_change changes key in if k == key then rest else (k, c) ∷ rest

unfoldable pub combined : JsonDbUpdate → JsonDbUpdate → JsonDbUpdate
combined old_change change = record {
  old_object = old_change.old_object;
  new_object = change.new_object;
  action = if is_remove change.action then remove else update;
}

unfoldable pub merge_change :
    QtCalls → ChangeMap → ℕ → JsonDbUpdate → Option JsonDbUpdate → ChangeMap
unfolding put_change remove_change combined
merge_change q changes key change none = put_change q changes key change
merge_change q changes key change (some old_change) =
    if is_create old_change.action && is_remove change.action
    then remove_change changes key
    else put_change q changes key (combined old_change change)

-- One change per uuid.
unfoldable pub collect : QtCalls → List JsonDbUpdate → ChangeMap → ChangeMap
unfolding merge_change change_of
collect q [] changes = changes
collect q (change ∷ rest) changes =
    let key = uuid q change.new_object in
    collect q rest (merge_change q changes key change (change_of changes key))

-- The changes from lowerBound on.
unfoldable pub changes_from : List (ℕ × JsonDbUpdate) → ℕ → List JsonDbUpdate
changes_from [] start = []
changes_from ((n, change) ∷ cache) start =
    let rest = changes_from cache start in if ltb n start then rest else change ∷ rest

abbrev pub start_after : ℕ → ℕ
start_after n = max 1 ((n + 1) % 2 ^ 32)

-- mChangeCache after changesSince
unfoldable pub fill_cache : ℕ → JsonDbObjectTable → ChangeLog → ℕ → List (ℕ × JsonDbUpdate)
unfolding prune_cache fetch_states
fill_cache extra table log n =
    let start = start_after n in
    fetch_states table log (suc table.state_number - start) start
      (prune_cache extra start log.cache)

-- JsonDbObjectTable::changesSince: the changes, and the log with its new cache.
unfoldable pub changes_since :
    QtCalls → ℕ → JsonDbObjectTable → ChangeLog → ℕ → ChangeMap × ChangeLog
unfolding fill_cache changes_from collect
changes_since q extra table log n =
    let cache = fill_cache extra table log n in
    (collect q (changes_from cache (start_after n)) [], record log { cache = cache })

abbrev pub type_of : QJsonObject → QString
type_of o = to_string (value o type_str)

-- allTypes, or limitTypes contains the type.
unfoldable pub has_type : List QString → QString → Bool
has_type limit t = is_empty limit || any (λ l. str_eq l t) limit

abbrev pub when : Bool → JsonDbUpdate → List JsonDbUpdate
when b u = if b then u ∷ [] else []

module _ (limit : List QString) (splits : Bool) where
  -- A change of type becomes the removal of the old object and the creation of the new one.
  unfoldable pub split_update : JsonDbUpdate → List JsonDbUpdate
  unfolding has_type
  split_update u =
      let old = u.old_object in
      let new = u.new_object in
      let tombstone = insert old deleted_str (bool true) in
      if not (is_empty_object old) && (not (str_eq (type_of old) (type_of new)) && splits)
      then when (has_type limit (type_of old))
          (record { old_object = old; new_object = tombstone; action = remove })
        ++ when (has_type limit (type_of new))
            (record { old_object = no_fields; new_object = new; action = create })
      else when (has_type limit (type_of old) || has_type limit (type_of new)) u

  -- The loop of the second changesSince over the collected changes.
  unfoldable pub split_changes : ChangeMap → List JsonDbUpdate
  unfolding split_update
  split_changes [] = []
  split_changes ((key, u) ∷ changes) = split_update u ++ split_changes changes

  unfoldable pub typed_changes_since :
      QtCalls → ℕ → JsonDbObjectTable → ChangeLog → ℕ → List JsonDbUpdate × ChangeLog
  unfolding changes_since split_changes
  typed_changes_since q extra table log n =
      let (changes, log') = changes_since q extra table log n in (split_changes changes, log')

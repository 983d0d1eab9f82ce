-- ===== src/Partition.antt =====
-- src/partition/jsondbpartition.cpp and jsondbobjecttable.cpp: the objects that a partition stores,
-- in its own table and in those of its views.
pub mod Attempt
pub mod Update
pub mod Changes
pub mod Query
use qtjsondb.Prelude.{
  ℕ, suc, Bool, true, false, ◌&&◌, List, [], ◌∷◌, ◌++◌, Option, none, some, ◌==◌, any,
  if◌then◌else◌, not,
}
use qtjsondb.Qt.Text.{QString, str_eq}
use qtjsondb.Qt.Json.{QJsonObject}
use qtjsondb.Object.Version.{is_deleted}

pub data Action : Type 0 where
  create update remove : Action

pub record JsonDbUpdate : Type 0 where
  pub old_object : QJsonObject
  pub new_object : QJsonObject
  pub action : Action

-- The objects by their keys, the state, and the changes since it.
pub record JsonDbObjectTable : Type 0 where
  pub objects : List (ℕ × QJsonObject)
  pub state_number : ℕ
  pub state_object_changes : List (ℕ × JsonDbUpdate)

abbrev pub new_table : JsonDbObjectTable
new_table = record { objects = []; state_number = 0; state_object_changes = [] }

-- getOne
unfoldable pub get_one : List (ℕ × QJsonObject) → ℕ → Option QJsonObject
get_one [] key = none
get_one ((k, o) ∷ objects) key = if k == key then some o else get_one objects key

-- putOne, where it succeeds.
unfoldable pub put_one : List (ℕ × QJsonObject) → ℕ → QJsonObject → List (ℕ × QJsonObject)
put_one [] key object = (key, object) ∷ []
put_one ((k, o) ∷ objects) key object =
    let rest = put_one objects key object in
    if k == key then (key, object) ∷ objects else (k, o) ∷ rest

abbrev pub kept : Bool → Option QJsonObject → Option QJsonObject
kept include_deleted none = none
kept include_deleted (some o) = if not include_deleted && is_deleted o then none else some o

-- JsonDbObjectTable::get
unfoldable pub get : JsonDbObjectTable → ℕ → Bool → Option QJsonObject
unfolding get_one
get table key include_deleted = kept include_deleted (get_one table.objects key)

-- JsonDbObjectTable::storeStateChange, which gives the state number too.
unfoldable pub store_state_change : JsonDbObjectTable → ℕ → JsonDbUpdate → JsonDbObjectTable × ℕ
store_state_change table key change = (
  record table { state_object_changes = table.state_object_changes ++ (key, change) ∷ [] },
  suc table.state_number,
)

-- The schemas, indexes and views that the objects of built-in types define, and the functions on
-- them that are not modelled: what they say of an object, and how they change.
pub record Definitions (D : Type 0) : Type 0 where
  -- mViewTypes, and the types of the views with a table, in the order of mViews
  pub view_types : D → List QString
  pub views : D → List QString
  pub validate_schema : D → QString → QJsonObject → Bool
  -- checkBuiltInTypeValidity on the new and the old object
  pub check_validity : D → QJsonObject → QJsonObject → Bool
  pub check_can_remove_schema : D → QJsonObject → Bool
  -- checkBuiltInTypeAccessControl, with forCreation
  pub check_access_control : D → Bool → QJsonObject → QJsonObject → Bool
  pub deindex_object : D → QJsonObject → D
  pub index_object : D → QJsonObject → D
  pub update_built_in_types : D → QJsonObject → QJsonObject → D

pub record Partition (D : Type 0) : Type 0 where
  pub is_open : Bool
  pub has_space : Bool
  pub name : QString
  pub object_table : JsonDbObjectTable
  -- the tables of the views, by their types
  pub view_tables : List (QString × JsonDbObjectTable)
  pub definitions : D

unfoldable pub table_of : List (QString × JsonDbObjectTable) → QString → JsonDbObjectTable
table_of [] name = new_table
table_of ((n, t) ∷ tables) name = if str_eq n name then t else table_of tables name

unfoldable pub set_table :
    List (QString × JsonDbObjectTable)
    → QString
    → JsonDbObjectTable
    → List (QString × JsonDbObjectTable)
set_table [] name table = (name, table) ∷ []
set_table ((n, t) ∷ tables) name table =
    let rest = set_table tables name table in
    if str_eq n name then (name, table) ∷ tables else (n, t) ∷ rest

module _ {D : Type 0} (d : Definitions D) where
  abbrev pub is_view : Partition D → QString → Bool
  is_view p object_type = any (λ n. str_eq n object_type) (d.views p.definitions)

  unfoldable pub find_object_table : Partition D → QString → JsonDbObjectTable
  unfolding table_of
  find_object_table p object_type =
      if is_view p object_type then table_of p.view_tables object_type else p.object_table

  -- The table that findObjectTable gives, after a change.
  unfoldable pub set_object_table : Partition D → QString → JsonDbObjectTable → Partition D
  unfolding set_table
  set_object_table p object_type table =
      if is_view p object_type
      then record p { view_tables = set_table p.view_tables object_type table }
      else record p { object_table = table }

  abbrev pub first_view : Partition D → ℕ → List QString → Option QJsonObject
  first_view p key [] = none
  first_view p key (n ∷ names) = get (table_of p.view_tables n) key false

  abbrev pub or_else : Option QJsonObject → Option QJsonObject → Option QJsonObject
  or_else (some o) other = some o
  or_else none other = other

  -- getObject: the first view is asked where the table of the type has no object.
  unfoldable pub get_object : Partition D → ℕ → QString → Bool → Option QJsonObject
  unfolding find_object_table get
  get_object p key object_type include_deleted =
      or_else (get (find_object_table p object_type) key include_deleted)
        (first_view p key (d.views p.definitions))

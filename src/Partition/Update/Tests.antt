-- ===== src/Partition/Update/Tests.antt =====
-- src/partition/jsondbpartition.cpp: updateObjects on a partition with one object.
use qtjsondb.Prelude.{◌≡◌, ◌≢◌, refl, true, false, List, [], ◌∷◌, ◌++◌, some, any}
use qtjsondb.Qt.Text.{codes, str_eq, str_lt}
use qtjsondb.Qt.Json.{insert, put, remove, str, QJsonObject, no_fields, field, value, contains}
use qtjsondb.Qt.Sample.{sample}
use qtjsondb.Strings.{uuid_str, type_str}
use qtjsondb.Owner.{allowed_queries, is_allowed}
use qtjsondb.Object.Version.{
  is_unhashed, utf16_bytes, version, type, compute_version, content_hash, hash_input,
  tokenize_version, version_as_string, uuid, is_deleted,
}
use qtjsondb.Object.History.{history_of, add_ancestor, is_in_history}
use qtjsondb.Object.Optimistic.{
  compute_own_version, update_version_optimistic, run_update, resolve_conflict, progress_head,
  resurrect, keep_books, accept_replay, prepare, conflicts_of, eliminate, new_meta,
}
use qtjsondb.Partition.{
  get_one, get, get_object, find_object_table, new_table, Definitions, Partition,
}
use qtjsondb.Partition.Attempt.{
  ◌>>=◌, require, reject_stale, replace_object, missing_type, refused, Request, Writer,
}
use qtjsondb.Partition.Update.{
  identify, check_object, prepare_write, update_master, may_write, keep_owner, write_object,
  update_objects, begin, allowed,
}
use qtjsondb.Partition.Update.Keyed.{IsKeyed, update_objects-IsKeyed}
use qtjsondb.Partition.Update.Permissions.{update_objects_forbidden}
use qtjsondb.Partition.Update.Stops.{AllPass, update_objects_stop}

abbrev note : QJsonObject
note = field type_str (str (codes "Note")) (field uuid_str (str (codes "abc")) no_fields)

abbrev plain : Definitions (Unit {0})
plain = record {
  view_types = λ s. [];
  views = λ s. [];
  validate_schema = λ s t o. true;
  check_validity = λ s o old. true;
  check_can_remove_schema = λ s o. true;
  check_access_control = λ s creation o old. true;
  deindex_object = λ s o. s;
  index_object = λ s o. s;
  update_built_in_types = λ s o old. s;
}

abbrev partition : Partition (Unit {0})
partition = record {
  is_open = true;
  has_space = true;
  name = codes "p";
  object_table = record new_table { objects = (3, note) ∷ [] };
  view_tables = [];
  definitions = tt;
}

abbrev stranger : Writer
stranger = record {
  owner_id = codes "me";
  rights = record { allow_all = false; allowed_object_queries = [] };
  enforces = true;
}

abbrev request : QJsonObject → Request
request o = record { object = o; fresh_uuid = 9; put_ok = true }

abbrev requests : List Request
requests = request note ∷ request (field type_str (str (codes "Note")) no_fields) ∷ []

keyed : IsKeyed sample partition
unfolding uuid value str_eq
keyed = ((refl, tt), tt)

update_objects-IsKeyed_example :
    IsKeyed sample (update_objects sample stranger plain reject_stale partition requests).partition
update_objects-IsKeyed_example =
    update_objects-IsKeyed sample plain stranger reject_stale partition requests keyed

stored : get_one partition.object_table.objects 3 ≡ some note
unfolding get_one
stored = refl

alive : is_deleted note ≡ false
unfolding is_deleted value str_eq
alive = refl

has_uuid : 3 ≢ uuid sample no_fields
unfolding uuid value
has_uuid h = cc

forbidden : (allowed sample stranger (codes "p") note (codes "write")).0 ≡ false
unfolding is_allowed allowed_queries any
forbidden = refl

update_objects_forbidden_example :
    get_one
      (update_objects sample stranger plain reject_stale partition
        requests).partition.object_table.objects
      3
    ≡ some note
update_objects_forbidden_example =
    update_objects_forbidden sample stranger plain (codes "p") 3 note partition reject_stale
      requests keyed refl stored alive has_uuid forbidden

abbrev untyped : QJsonObject
untyped = field uuid_str (str (codes "ab")) no_fields

abbrev trusted : Writer
trusted = record stranger { enforces = false }

abbrev fresh_note : QJsonObject
fresh_note = field type_str (str (codes "Note")) (field uuid_str (str (codes "abcd")) no_fields)

abbrev first : List Request
first = request fresh_note ∷ []

passes : AllPass sample trusted plain replace_object first (begin sample trusted plain partition)
unfolding write_object check_object prepare_write update_master may_write keep_owner identify
    require ◌>>=◌ get_object get find_object_table get_one compute_own_version
    update_version_optimistic run_update resolve_conflict progress_head resurrect keep_books
    accept_replay prepare conflicts_of eliminate new_meta history_of add_ancestor is_in_history
    compute_version content_hash hash_input tokenize_version version_as_string version type
    is_deleted uuid is_allowed insert put remove value contains str_eq str_lt any is_unhashed
    utf16_bytes
passes = tt

refuses :
    write_object sample trusted plain replace_object
      (update_objects sample trusted plain replace_object partition first)
      (request untyped)
    ≡ refused missing_type
unfolding write_object check_object identify require ◌>>=◌ value contains str_eq
refuses = refl

update_objects_stop_example :
    update_objects sample trusted plain replace_object partition
      (first ++ request untyped ∷ requests)
    ≡ record (update_objects sample trusted plain replace_object partition first) {
      code = missing_type;
    }
update_objects_stop_example =
    update_objects_stop sample trusted plain replace_object partition first (request untyped)
      requests missing_type refl refl passes refuses

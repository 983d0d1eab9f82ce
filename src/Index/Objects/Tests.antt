-- ===== src/Index/Objects/Tests.antt =====
-- src/partition/jsondbindex.cpp: an index on a name, whose calls of the B-tree all succeed.
use qtjsondb.Query.Compile.{make_field_value}
use qtjsondb.Object.Path.{value_by_keys}
use qtjsondb.Prelude.{◌≡◌, refl, Bool, true, [], none, some, if◌then◌else◌}
use qtjsondb.Qt.Text.{QString, codes, str_eq, split}
use qtjsondb.Qt.Json.{str, QJsonObject, no_fields, field, value}
use qtjsondb.Qt.Sample.{sample}
use qtjsondb.Object.Version.{uuid}
use qtjsondb.Index.Key.{make_forward_key, make_forward_value}
use qtjsondb.Index.Spec.{JsonDbIndexSpec, new_spec}
use qtjsondb.Index.Objects.{
  IndexCalls, Replies, written, call_tree, JsonDbIndex, index_object, deindex_object, is_indexed,
  index_values, remove_values, put_values,
}
use qtjsondb.Index.Objects.Keys.{has_key, find-index_object-deindex_object}

abbrev all_succeed : Replies
all_succeed t c = true

abbrev on_name : JsonDbIndexSpec
on_name = record new_spec {
  name = codes "name";
  property_name = codes "name";
  property_type = codes "string";
}

abbrev no_calls : IndexCalls
no_calls = record { to_lower = λ s. s; sort_key = none; emitted = none }

abbrev person : QString → QJsonObject
person name = field (codes "name") (str name) no_fields

abbrev empty_index : JsonDbIndex
empty_index = record { tree = []; offset_cache = [] }

abbrev ann_indexed : JsonDbIndex
ann_indexed =
    (index_object sample no_calls 512 on_name all_succeed empty_index (person (codes "Ann"))).1

abbrev ann_gone : Bool × JsonDbIndex
ann_gone = deindex_object sample no_calls 512 on_name all_succeed ann_indexed (person (codes "Ann"))

gone : ann_gone.0 ≡ true
unfolding call_tree deindex_object is_indexed str_eq index_values split value_by_keys value
    remove_values make_field_value
gone = refl

bob_there :
    (index_object sample no_calls 512 on_name all_succeed ann_gone.1 (person (codes "Bob"))).0
    ≡ true
unfolding call_tree index_object is_indexed str_eq index_values split value_by_keys value put_values
    make_field_value
bob_there = refl

find-index_object-deindex_object_example :
    written sample
      (index_object sample no_calls 512 on_name all_succeed ann_gone.1
        (person (codes "Bob"))).1.tree
      (make_forward_key (str (codes "Ann")) 0)
    ≡ (if has_key sample no_calls 512 on_name
          (person (codes "Bob"))
          (make_forward_key (str (codes "Ann")) 0)
        then some (make_forward_value (uuid sample (person (codes "Bob"))))
        else if has_key sample no_calls 512 on_name
            (person (codes "Ann"))
            (make_forward_key (str (codes "Ann")) 0)
        then none
        else written sample ann_indexed.tree (make_forward_key (str (codes "Ann")) 0))
find-index_object-deindex_object_example =
    find-index_object-deindex_object sample no_calls 512 on_name all_succeed ann_indexed
      (person (codes "Ann")) (person (codes "Bob")) (make_forward_key (str (codes "Ann")) 0) gone
      bob_there

-- ===== src/Partition/Query/Tests.antt =====
-- src/partition/jsondbpartition.cpp: queries on an index of three entries.
use qtjsondb.Object.Path.{value_by_path}
use qtjsondb.Query.Compare.{value_eq, greater_than}
use qtjsondb.Index.Compare.{index_compare}
use qtjsondb.Object.Version.{is_deleted, uuid}
use qtjsondb.Prelude.{
  ◌<◌, ◌^◌, inl, ℕ, ◌≡◌, refl, true, false, List, [], ◌∷◌, none, some, pos, arith, any, map,
  if◌then◌else◌,
}
use qtjsondb.Qt.Text.{split, QString, codes, str_eq, str_lt}
use qtjsondb.Qt.Json.{Value, value, undefined, str, num, QJsonObject, no_fields, field, insert, put}
use qtjsondb.Qt.Sample.{sample, sample-DoubleLaws}
use qtjsondb.Strings.{type_str}
use qtjsondb.Owner.{JsonDbOwner, is_allowed}
use qtjsondb.Index.Key.{make_forward_key, forward_key_split}
use qtjsondb.Index.Key.RoundTrip.{IsKeyValue}
use qtjsondb.Index.Offsets.{
  OffsetCache, offsets_of, offset_before, lower_bound_key, add_offset_to_cache,
}
use qtjsondb.Query.Term.{
  JsonDbQuery, JsonDbQueryTerm, new_query, new_term, is_empty_query, term_value, has_value,
  find_unindexable_property_names, has_property_name,
}
use qtjsondb.Query.Constraint.{matches, constraint_matches}
use qtjsondb.Query.Match.{match, match_all, match_or, op_matches, field_value}
use qtjsondb.Query.Compile.{
  IndexQuery, compile_or_query_term, set_min, set_max, add_constraint, make_field_value,
  truncate_field_value,
}
use qtjsondb.Query.Compile.Agrees.{IndexOp}
use qtjsondb.Query.Scan.{Entry, Filter, seek_to_start, first, accept, next, seek}
use qtjsondb.Query.Scan.Found.{AllMade}
use qtjsondb.Partition.Query.{GetObject, QueryState, is_count, do_index_query, take_object, advance}
use qtjsondb.Partition.Query.Page.{page}
use qtjsondb.Partition.Query.Rounds.{AllStored, reached, readable, shown, do_index_query-page}
use qtjsondb.Partition.Query.Compile.{Indexes, compile_index_query}
use qtjsondb.Partition.Query.Compile.Answers.{AllAnswered}
use qtjsondb.Partition.Query.Compile.Accepted.{
  IsOneOf, IsIndexOf, IsKept, read_value, compile_index_query_accepted,
}
use qtjsondb.Index.Spec.{JsonDbIndexSpec, new_spec}
use qtjsondb.Index.Objects.{IndexCalls, path_of, index_value, index_values}
use qtjsondb.Object.Path.{value_by_keys}

abbrev all_names : JsonDbQuery
all_names = record new_query { query = codes "[*]" }

abbrev name_query : IndexQuery
name_query = record {
  property_name = codes "name";
  property_type = codes "string";
  min_value = undefined;
  max_value = undefined;
  query_constraints = [];
  query = all_names;
}

abbrev no_filter : Filter
no_filter = record { type_names = []; residual_query = new_query }

abbrev named : QString → QJsonObject
named name =
    field (codes "name") (str name) (field type_str (str (codes "com.test.Note")) no_fields)

abbrev entry : QString → ℕ → Entry
entry name key = record { key = make_forward_key (str name) key; object = named name }

abbrev names : List Entry
names = entry (codes "a") 1 ∷ entry (codes "b") 2 ∷ entry (codes "c") 3 ∷ []

abbrev anyone : JsonDbOwner
anyone = record { allow_all = true; allowed_object_queries = [] }

abbrev no_object : GetObject
no_object uuid o = (false, o)

abbrev run_query : ℕ → ℕ → OffsetCache → QueryState
run_query limit offset cache =
    do_index_query sample no_object anyone true (codes "main") 50 16 true name_query no_filter names
      (pos limit) (pos offset) cache

abbrev name_of : QJsonObject → Value
name_of o = value o (codes "name")

-- Nothing is behind the last object.
nothing_behind : (run_query 1 3 []).results ≡ []
unfolding do_index_query str_eq first matches accept is_deleted value is_empty_query is_allowed
    take_object next advance
nothing_behind = refl

-- The same query again starts at the key that was cached for the offset, that of the last object.
again_behind :
    map name_of (run_query 1 3 (run_query 1 3 []).offset_cache).results ≡ str (codes "c") ∷ []
unfolding do_index_query str_eq add_offset_to_cache first matches accept is_deleted value
    is_empty_query is_allowed take_object next advance make_forward_key seek index_compare insert
    forward_key_split put str_lt
again_behind = refl

names-AllMade : AllMade (seek_to_start sample name_query names)
unfolding seek_to_start
names-AllMade = (
  (str (codes "a"), 1, ((omega arith, tt), omega arith), omega arith, refl),
  (
    (str (codes "b"), 2, ((omega arith, tt), omega arith), omega arith, refl),
    ((str (codes "c"), 3, ((omega arith, tt), omega arith), omega arith, refl), tt),
  ),
)

no_residual : is_empty_query new_query ≡ true
unfolding is_empty_query
no_residual = refl

names-AllStored : AllStored (seek_to_start sample name_query names)
unfolding seek_to_start
names-AllStored = (refl, (refl, (refl, tt)))

no_key : (lower_bound_key [] (codes "[*]") 1).0 ≡ []
unfolding lower_bound_key offsets_of offset_before
no_key = refl

no_count : is_count sample no_object name_query ≡ false
unfolding str_eq
no_count = refl

do_index_query-page_example :
    (run_query 1 1 []).results
    ≡ map (shown sample no_object anyone true (codes "main") 50 16 true name_query no_filter) (
        page (pos 1) (pos 1) (
          readable sample no_object anyone true (codes "main") 50 16 true name_query no_filter (
            reached sample no_object anyone true
              (codes "main")
              50
              16
              true
              name_query
              no_filter
              false
              (seek_to_start sample name_query names))))
do_index_query-page_example =
    do_index_query-page sample no_object anyone true (codes "main") 50 16 true name_query no_filter
      names (pos 1) (pos 1) [] no_count refl no_residual names-AllMade names-AllStored no_key

-- A table with an index on the names.
abbrev by_name : Indexes
by_name view name = if str_eq name (codes "name") then some (codes "string") else none

abbrev after_a : JsonDbQueryTerm
after_a = record new_term { property_name = codes "name"; op = codes ">"; value = str (codes "a") }

abbrev has_type : JsonDbQueryTerm
has_type = record new_term {
  property_name = type_str;
  op = codes "=";
  value = str (codes "com.test.Note");
}

abbrev notes : JsonDbQuery
notes = record new_query { query_terms = (has_type ∷ []) ∷ (after_a ∷ []) ∷ [] }

notes-AllAnswered : AllAnswered 512 notes notes.query_terms
unfolding term_value has_value
notes-AllAnswered = (
  λ e. ((IndexOp.equal, refl), omega arith, refl),
  (λ e. ((IndexOp.greater, refl), omega arith, refl), tt),
)

residual_matches :
    (match sample none
      (compile_index_query sample 512 [] by_name notes).filter.residual_query
      (named (codes "b"))
      none).0
    ≡ true
unfolding compile_index_query match match_all str_eq any find_unindexable_property_names match_or
    op_matches value_eq field_value has_property_name value_by_path value term_value
residual_matches = refl

abbrev no_calls : IndexCalls
no_calls = record { to_lower = λ s. s; sort_key = none; emitted = none }

abbrev on_name : JsonDbIndexSpec
on_name = record new_spec {
  name = codes "name";
  property_name = codes "name";
  property_type = codes "string";
}

abbrev compiled_notes : IndexQuery
compiled_notes = (compile_index_query sample 512 [] by_name notes).index_query

index_passes :
    matches sample compiled_notes.query_constraints (
      read_value sample no_calls 512 undefined on_name
        (str (codes "b"))
        (uuid sample (named (codes "b"))))
    ≡ true
unfolding compile_index_query matches str_eq any find_unindexable_property_names
    compile_or_query_term set_min add_constraint constraint_matches greater_than value_by_path value
    term_value str_lt forward_key_split make_forward_key
index_passes = refl

name-IsKept :
    let v = value_by_path sample (named (codes "b")) compiled_notes.property_name in
    IsKept 512 compiled_notes.property_type v × IsKeyValue v
unfolding compile_index_query str_eq find_unindexable_property_names value_by_path value any
    compile_or_query_term set_min add_constraint
name-IsKept = ((refl, omega arith), ((omega arith, tt), omega arith))

on_name-IsIndexOf : IsIndexOf on_name compiled_notes
unfolding compile_index_query str_eq find_unindexable_property_names value_by_path value any
    compile_or_query_term set_min add_constraint path_of split
on_name-IsIndexOf = record {
  same_name = refl;
  same_type = refl;
  no_function = refl;
  no_star = refl;
  case_sensitive = refl;
  no_collation = refl;
}

b_indexed : IsOneOf (str (codes "b")) (index_values sample no_calls 512 on_name (named (codes "b")))
unfolding index_values path_of split value_by_keys value str_eq index_value
b_indexed = inl refl

has_key : uuid sample (named (codes "b")) < 256 ^ 16
unfolding uuid value str_eq
has_key = omega arith

compile_index_query_accepted_example : (match sample none notes (named (codes "b")) none).0 ≡ true
compile_index_query_accepted_example =
    compile_index_query_accepted sample no_calls 512 sample-DoubleLaws [] by_name notes on_name
      (named (codes "b")) undefined (str (codes "b")) notes-AllAnswered on_name-IsIndexOf
      name-IsKept.0 name-IsKept.1 has_key b_indexed index_passes residual_matches

-- An index of texts has a number as a text, so the index query takes it for the text that the query
-- asks for, which is not what the query matches.
abbrev of_number : QJsonObject
of_number = field (codes "name") (num 5) no_fields

abbrev is_text : JsonDbQueryTerm
is_text = record new_term {
  property_name = codes "name";
  op = codes "=";
  value = str (sample.number_of_double 5);
}

abbrev texts : JsonDbQuery
texts = record new_query { query_terms = (is_text ∷ []) ∷ [] }

number_accepted :
    let r = compile_index_query sample 512 [] by_name texts in
    (matches sample r.index_query.query_constraints
        (read_value sample no_calls 512 undefined on_name (num 5) (uuid sample of_number))
      ≡ true)
    × ((match sample none r.filter.residual_query of_number none).0 ≡ true)
    × ((match sample none texts of_number none).0 ≡ false)
unfolding match match_all match_or op_matches field_value has_property_name has_value matches
    compile_index_query str_eq any find_unindexable_property_names compile_or_query_term set_max
    set_min add_constraint constraint_matches value_eq forward_key_split make_forward_key
    make_field_value truncate_field_value value_by_path value term_value is_empty_query
number_accepted = (refl, refl, refl)

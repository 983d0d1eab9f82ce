-- ===== src/Query/Scan/Tests.antt =====
-- src/partition/jsondbindexquery.cpp: scanning an index of two entries.
use qtjsondb.Prelude.{◌≡◌, refl, true, List, [], ◌∷◌, none, any, arith}
use qtjsondb.Qt.Text.{codes}
use qtjsondb.Qt.Json.{undefined, str, no_fields, field}
use qtjsondb.Qt.Sample.{sample}
use qtjsondb.Index.Key.{make_forward_key}
use qtjsondb.Query.Term.{JsonDbQuery, is_empty_query}
use qtjsondb.Query.Constraint.{begins_with, sparse_match_possible}
use qtjsondb.Query.Compile.{IndexQuery}
use qtjsondb.Query.Scan.{Entry, Filter, seek_to_start, is_sparse, first}
use qtjsondb.Query.Scan.Found.{AllMade, first_hit, first_finds}

abbrev query : JsonDbQuery
query = record {
  query_terms = [];
  order_terms = [];
  query = [];
  map_expression_list = [];
  map_key_list = [];
  aggregate_operation = [];
  bindings = [];
  matched_types = [];
}

-- Names that begin with b.
abbrev index_query : IndexQuery
index_query = record {
  property_name = codes "name";
  property_type = codes "string";
  min_value = undefined;
  max_value = undefined;
  query_constraints = begins_with (codes "b") ∷ [];
  query = query;
}

abbrev filter : Filter
filter = record { type_names = []; residual_query = query }

abbrev entries : List Entry
entries =
    record {
      key = make_forward_key (str (codes "a")) 1;
      object = field (codes "name") (str (codes "a")) no_fields;
    }
    ∷ record {
      key = make_forward_key (str (codes "b")) 2;
      object = field (codes "name") (str (codes "b")) no_fields;
    }
    ∷ []

no_residual : is_empty_query filter.residual_query ≡ true
unfolding is_empty_query
no_residual = refl

entries-AllMade : AllMade entries
entries-AllMade = (
  (str (codes "a"), 1, ((omega arith, tt), omega arith), omega arith, refl),
  ((str (codes "b"), 2, ((omega arith, tt), omega arith), omega arith, refl), tt),
)

start-AllMade : AllMade (seek_to_start sample index_query entries)
unfolding seek_to_start
start-AllMade = entries-AllMade

is_sparse-index_query : is_sparse sample index_query ≡ true
unfolding is_sparse sparse_match_possible any
is_sparse-index_query = refl

first_finds_run :
    (first sample none index_query filter [] entries none).found
    ≡ first_hit sample none index_query filter (seek_to_start sample index_query entries)
first_finds_run =
    first_finds sample none index_query filter [] entries none no_residual start-AllMade

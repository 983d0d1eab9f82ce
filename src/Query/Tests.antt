-- ===== src/Query/Tests.antt =====
-- src/partition/jsondbquery.cpp, jsondbquerytokenizer.cpp and jsondbindexquery.cpp on a small
-- query.
use qtjsondb.Prelude.{◌≡◌, ◌≢◌, refl, ◌&&◌, [], ◌∷◌, some, length, suc}
use qtjsondb.Qt.Text.{QString, codes, str_eq}
use qtjsondb.Qt.Json.{undefined, str, QJsonObject, no_fields, field}
use qtjsondb.Qt.Sample.{sample, sample-DoubleLaws}
use qtjsondb.Query.Term.{JsonDbQuery, JsonDbQueryTerm, new_term, term_value}
use qtjsondb.Query.Match.{op_matches}
use qtjsondb.Query.Constraint.{matches}
use qtjsondb.Query.Compile.{IndexQuery, truncate_field_value, compile_or_query_term}
use qtjsondb.Query.Compile.Agrees.{less, with_op, matches-compile_or_query_term}
use qtjsondb.Query.Tokenizer.{next_token, get_next_token, next_round}
use qtjsondb.Query.Tokenizer.Progress.{Takes, get_next_token-Takes}

-- a < "m"
abbrev term : JsonDbQueryTerm
term = record new_term { property_name = codes "a"; op = codes "<"; value = str (codes "m") }

abbrev query : JsonDbQuery
query = record {
  query_terms = (term ∷ []) ∷ [];
  order_terms = [];
  query = [];
  map_expression_list = [];
  map_key_list = [];
  aggregate_operation = [];
  bindings = [];
  matched_types = [];
}

abbrev object : QJsonObject
object = field (codes "a") (str (codes "b")) no_fields

abbrev index_query : IndexQuery
index_query = record {
  property_name = codes "a";
  property_type = codes "string";
  min_value = undefined;
  max_value = undefined;
  query_constraints = [];
  query = query;
}

short :
    truncate_field_value 512 index_query.property_type
      (term_value index_query.query (with_op term less))
    ≡ term_value index_query.query (with_op term less)
unfolding truncate_field_value term_value str_eq
short = refl

matches-compile_or_query_term_example :
    matches sample
      (compile_or_query_term sample 512 index_query (with_op term less)).query_constraints
      (str (codes "b"))
    ≡ (matches sample index_query.query_constraints (str (codes "b"))
        && op_matches sample
            (with_op term less)
            (str (codes "b"))
            (term_value index_query.query (with_op term less)))
matches-compile_or_query_term_example =
    matches-compile_or_query_term sample sample-DoubleLaws 512 index_query term less
      (str (codes "b")) short

abbrev text : QString
text = codes "[?a[*].b<=\"x y\"]"

get_next_token-Takes_example :
    (next_token sample (suc (length text)) [] text ≡ some (get_next_token sample text))
    × Takes sample text (get_next_token sample text).0 (get_next_token sample text).1
get_next_token-Takes_example = get_next_token-Takes sample text

-- An index expression is a part of the token.
first_token : get_next_token sample (codes " a[*].b<=3]") ≡ (codes "a[*].b", codes "<=3]")
unfolding get_next_token next_token next_round
first_token = refl

is_token : (get_next_token sample text).0 ≢ []
unfolding get_next_token
is_token = λ e. cc

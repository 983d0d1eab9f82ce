-- ===== src/Query/Parser.antt =====
-- src/partition/jsondbqueryparser.cpp: the parser of queries.
pub mod Reader
pub mod Json
pub mod Terms
pub mod Map
pub mod Sections
pub mod Results
mod Tests
use qtjsondb.Prelude.{
  ℕ, suc, Bool, true, false, ◌&&◌, ◌||◌, List, [], ◌∷◌, ◌++◌, Option, none, some, is_empty, length,
  map, not, if◌then◌else◌,
}
use qtjsondb.Qt.Text.{QString, codes, str_eq, starts_with}
use qtjsondb.Qt.Json.{Value, undefined, to_array, to_string}
use qtjsondb.Qt.Calls.{QtCalls}
use qtjsondb.Query.Tokenizer.{Tokenizer, new_tokenizer}
use qtjsondb.Query.Term.{
  JsonDbQuery, JsonDbQueryTerm, JsonDbOrQueryTerm, Bindings, new_query, has_name, has_value,
  binding, is_empty_query,
}
use qtjsondb.Query.Parser.Terms.{Progress, Explanation}
use qtjsondb.Query.Parser.Sections.{read_sections}

-- JsonDbQueryParserPrivate. The error string is kept as the list of messages that it joins.
pub record JsonDbQueryParser : Type 0 where
  pub query : QString
  pub bindings : Bindings
  pub spec : JsonDbQuery
  pub error_string : List Explanation

-- QSet::insert, for each name.
unfoldable pub insert_names : List QString → List QString → List QString
insert_names names [] = names
insert_names names (n ∷ more) =
    insert_names (if has_name names n then names else names ++ n ∷ []) more

-- JsonDbQueryParserPrivate::termValue, by the bindings of the parser.
unfoldable pub own_value : Bindings → JsonDbQueryTerm → Value
unfolding has_value binding
own_value bindings term =
    if has_value term then term.value else binding bindings term.variable undefined

-- The types that a term names.
unfoldable pub named_types : Bindings → JsonDbQueryTerm → List QString
unfolding own_value
named_types bindings term =
    if not (str_eq term.property_name (codes "_type"))
    then []
    else if str_eq term.op (codes "=") || str_eq term.op (codes "!=")
    then to_string (own_value bindings term) ∷ []
    else if str_eq term.op (codes "in")
    then map to_string (to_array (own_value bindings term))
    else []

unfoldable pub term_types : Bindings → List QString → JsonDbOrQueryTerm → List QString
unfolding insert_names named_types
term_types bindings types [] = types
term_types bindings types (t ∷ terms) =
    term_types bindings (insert_names types (named_types bindings t)) terms

unfoldable pub query_types : Bindings → List QString → List JsonDbOrQueryTerm → List QString
unfolding term_types
query_types bindings types [] = types
query_types bindings types (oqt ∷ more) = query_types bindings (term_types bindings types oqt) more

-- A query without terms and order sorts on the type.
unfoldable pub add_default_order : JsonDbQuery → JsonDbQuery
unfolding is_empty_query
add_default_order spec =
    if is_empty_query spec
    then record spec {
      order_terms = record { property_name = codes "_type"; ascending = true } ∷ [];
    }
    else spec

-- The end of parse, behind its loop.
unfoldable pub finish : JsonDbQueryParser → Progress → Bool × JsonDbQueryParser
unfolding query_types add_default_order
finish parser p =
    if p.parse_error
    then (false, record parser { spec = new_query; error_string = p.explanation })
    else (
      true,
      record parser {
        spec = add_default_order (record p.spec {
          matched_types = query_types parser.bindings p.spec.matched_types p.spec.query_terms;
        });
      },
    )

abbrev pub start : JsonDbQueryParser → Progress
start parser = record {
  spec = record new_query { query = parser.query; bindings = parser.bindings };
  explanation = [];
  parse_error = false;
}

abbrev pub finished :
    JsonDbQueryParser → Option (Progress × Tokenizer) → Option (Bool × JsonDbQueryParser)
finished parser none = none
finished parser (some (p, tk)) = some (finish parser p)

-- parse(), with fuel for each unit of the query. There is none if that were not enough.
unfoldable pub parse : QtCalls → JsonDbQueryParser → Option (Bool × JsonDbQueryParser)
unfolding finish read_sections starts_with
parse q parser =
    if not (starts_with parser.query (b'[' ∷ []))
    then some (false, record parser { spec = new_query })
    else finished parser (
        read_sections q (suc (length parser.query)) parser.bindings (start parser)
          (new_tokenizer parser.query))

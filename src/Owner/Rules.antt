-- ===== src/Owner/Rules.antt =====
-- src/partition/jsondbowner.cpp: setAllowedObjects, in a build without assertions. The texts of the
-- rules, which the owner keeps too, are left out.
pub mod Unparsed
use qtjsondb.Prelude.{Bool, List, [], ◌∷◌, Option, none, some, map, if◌then◌else◌}
use qtjsondb.Qt.Text.{QString, codes, str_eq}
use qtjsondb.Qt.Json.{str}
use qtjsondb.Qt.Calls.{QtCalls}
use qtjsondb.Query.Term.{JsonDbQuery, Bindings, new_query, bind}
use qtjsondb.Query.Parser.{JsonDbQueryParser, parse}
use qtjsondb.Owner.{JsonDbOwner, QueriesByOp}

-- mAllowedObjectQueries[partition][op] = queries
unfoldable pub set_queries_of_op : QueriesByOp → QString → List JsonDbQuery → QueriesByOp
set_queries_of_op [] op queries = (op, queries) ∷ []
set_queries_of_op ((o, old) ∷ more) op queries =
    let rest = set_queries_of_op more op queries in
    if str_eq o op then (op, queries) ∷ more else (o, old) ∷ rest

unfoldable pub set_queries :
    List (QString × QueriesByOp)
    → QString
    → QString
    → List JsonDbQuery
    → List (QString × QueriesByOp)
unfolding set_queries_of_op
set_queries [] partition op queries = (partition, set_queries_of_op [] op queries) ∷ []
set_queries ((p, by_op) ∷ more) partition op queries =
    let rest = set_queries more partition op queries in
    if str_eq p partition
    then (partition, set_queries_of_op by_op op queries) ∷ more
    else (p, by_op) ∷ rest

abbrev pub rule_bindings : QString → QString → Bindings
rule_bindings domain owner_id =
    bind (bind [] (codes "domain") (str domain)) (codes "owner") (str owner_id)

abbrev pub parser_of : Bindings → QString → JsonDbQueryParser
parser_of bindings query = record {
  query = query;
  bindings = bindings;
  spec = new_query;
  error_string = [];
}

-- result(), whatever parse returned.
abbrev pub result : Option (Bool × JsonDbQueryParser) → JsonDbQuery
result none = new_query
result (some (ok, parser)) = parser.spec

unfoldable pub parse_rule : QtCalls → Bindings → QString → JsonDbQuery
unfolding parse bind
parse_rule q bindings query = result (parse q (parser_of bindings query))

unfoldable pub set_allowed_objects :
    QtCalls → JsonDbOwner → QString → QString → QString → QString → List QString → JsonDbOwner
unfolding set_queries parse_rule
set_allowed_objects q owner domain owner_id partition op queries = record owner {
  allowed_object_queries =
      set_queries owner.allowed_object_queries partition op
        (map (parse_rule q (rule_bindings domain owner_id)) queries);
}

-- ===== src/Query/Parser/Tests.antt =====
-- src/partition/jsondbqueryparser.cpp on small queries.
use qtjsondb.Prelude.{◌≡◌, Bool, [], some}
use qtjsondb.Qt.Text.{QString, codes}
use qtjsondb.Qt.Sample.{sample}
use qtjsondb.Query.Term.{new_query}
use qtjsondb.Query.Parser.{JsonDbQueryParser, parse}
use qtjsondb.Query.Parser.Results.{IsResult, parse-IsResult}

abbrev parser_of : QString → JsonDbQueryParser
parser_of query = record { query = query; bindings = []; spec = new_query; error_string = [] }

abbrev right : JsonDbQueryParser
right = parser_of (codes "[?a < \"m\"][/a]")

parse-IsResult_example :
    (r : Bool × JsonDbQueryParser) × ((parse sample right ≡ some r) × IsResult right r)
parse-IsResult_example = parse-IsResult sample right

-- ===== src/Query/Parser/Json/Total.antt =====
-- Reading a value ends, given fuel for the tokens in front of it.
use qtjsondb.Prelude.{ℕ, zero, suc, Bool}
use qtjsondb.Qt.Text.{QString}
use qtjsondb.Qt.Json.{QJsonArray, QJsonObject}
use qtjsondb.Qt.Calls.{QtCalls}
use qtjsondb.Query.Parser.Reader.Runs.{Runs, Runs-none, Runs-pure, runs_rules}
use qtjsondb.Query.Parser.Reader.Tokens.{Runs-pop, Runs-identifier, Runs-pop_token}
use qtjsondb.Query.Parser.Json.{
  ArrayReader, ObjectReader, json_value, array_round, object_round, parse_json_array,
  parse_json_object,
}

module _ (q : QtCalls) where
  abbrev ArrayRuns : ℕ → ArrayReader → Type 0
  ArrayRuns n arrays = (array : QJsonArray) (ok : Bool) → Runs n (arrays array ok)

  abbrev ObjectRuns : ℕ → ObjectReader → Type 0
  ObjectRuns n objects = (object : QJsonObject) (ok : Bool) → Runs n (objects object ok)

  module _ (n : ℕ) (arrays : ArrayReader) (objects : ObjectReader) (ra : ArrayRuns n arrays)
      (ro : ObjectRuns n objects) where
    pub json_value-Runs : (token : QString) → Runs n (json_value q arrays objects token)
    unfolding json_value
    json_value-Runs token = search (runs_rules, ra, ro)

    array_round-Runs :
        (array : QJsonArray) (token : QString) (ok : Bool)
        → Runs n (array_round q arrays objects array token ok)
    unfolding array_round
    array_round-Runs array token ok =
        search (runs_rules, Runs-pop_token q, ra, json_value-Runs) depth 16

    object_round-Runs :
        (object : QJsonObject) (key : QString) (ok : Bool)
        → Runs n (object_round q arrays objects object key ok)
    unfolding object_round
    object_round-Runs object key ok =
        search (runs_rules, Runs-pop_token q, ro, json_value-Runs) depth 24

  mutual
    unfolding parse_json_array parse_json_object array_round object_round

    pub parse_json_array-Runs : (fuel : ℕ) → ArrayRuns fuel (parse_json_array q fuel)
    parse_json_array-Runs zero array ok = Runs-none _
    parse_json_array-Runs (suc fuel) array ok =
        Runs-pop q fuel _
          (λ t ne.
            array_round-Runs fuel (parse_json_array q fuel) (parse_json_object q fuel)
              (parse_json_array-Runs fuel) (parse_json_object-Runs fuel) array t ok)
          (Runs-pure (suc fuel) _)

    pub parse_json_object-Runs : (fuel : ℕ) → ObjectRuns fuel (parse_json_object q fuel)
    parse_json_object-Runs zero object ok = Runs-none _
    parse_json_object-Runs (suc fuel) object ok =
        Runs-identifier q fuel _
          (λ t ne.
            object_round-Runs fuel (parse_json_array q fuel) (parse_json_object q fuel)
              (parse_json_array-Runs fuel) (parse_json_object-Runs fuel) object t ok)
          (Runs-pure (suc fuel) _)

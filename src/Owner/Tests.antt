-- ===== src/Owner/Tests.antt =====
-- src/partition/jsondbowner.cpp with one rule.
use qtjsondb.Prelude.{◌≡◌, refl, true, false, ◌||◌, not, any, ◌++◌, [], ◌∷◌, some}
use qtjsondb.Qt.Text.{QString, codes, starts_with}
use qtjsondb.Qt.Json.{str, QJsonObject, no_fields, field}
use qtjsondb.Qt.Sample.{sample}
use qtjsondb.Strings.{type_str}
use qtjsondb.Query.Term.{JsonDbQuery, new_term}
use qtjsondb.Query.Parser.{parse}
use qtjsondb.Owner.Rules.{parser_of, rule_bindings, set_allowed_objects}
use qtjsondb.Owner.Rules.Unparsed.{is_allowed-set_allowed_objects}
use qtjsondb.Owner.{JsonDbOwner, allowed_queries, is_allowed}
use qtjsondb.Owner.Allowed.{permits, is_allowed_verdict}

abbrev rule : JsonDbQuery
rule = record {
  query_terms =
      (record new_term {
        property_name = type_str;
        op = codes "=";
        value = str (codes "com.test.Note");
      }
        ∷ [])
      ∷ [];
  order_terms = [];
  query = [];
  map_expression_list = [];
  map_key_list = [];
  aggregate_operation = [];
  bindings = [];
  matched_types = [];
}

abbrev owner : JsonDbOwner
owner = record {
  allow_all = false;
  allowed_object_queries = (codes "all", (codes "read", rule ∷ []) ∷ []) ∷ [];
}

abbrev note : QJsonObject
note = field type_str (str (codes "com.test.Note")) no_fields

is_allowed_verdict_example :
    (is_allowed sample owner true note (codes "system") (codes "read")).0 ≡ (
      owner.allow_all
      || (not true
          || any (permits sample note) (
              allowed_queries owner.allowed_object_queries (codes "system") (codes "read")
              ++ allowed_queries owner.allowed_object_queries (codes "all") (codes "read"))))
is_allowed_verdict_example =
    is_allowed_verdict sample owner true note (codes "system") (codes "read")

-- A rule whose brackets were forgotten.
abbrev wrong : QString
wrong = codes "?_type=1"

wrong_refused :
    parse sample (parser_of (rule_bindings (codes "d") (codes "o")) wrong)
    ≡ some (false, parser_of (rule_bindings (codes "d") (codes "o")) wrong)
unfolding parse starts_with
wrong_refused = refl

is_allowed-set_allowed_objects_example :
    (is_allowed sample
      (set_allowed_objects sample owner
        (codes "d")
        (codes "o")
        (codes "system")
        (codes "write")
        ([] ++ wrong ∷ []))
      true
      note
      (codes "system")
      (codes "write")).0
    ≡ true
is_allowed-set_allowed_objects_example =
    is_allowed-set_allowed_objects sample owner (codes "d") (codes "o") (codes "system")
      (codes "write") [] wrong [] (parser_of (rule_bindings (codes "d") (codes "o")) wrong)
      wrong_refused true note

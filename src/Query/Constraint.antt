-- ===== src/Query/Constraint.antt =====
-- src/partition/jsondbindexquery.cpp: the constraints on the value of an index.
use qtjsondb.Prelude.{Bool, true, false, ◌&&◌, ◌||◌, List, [], ◌∷◌, if◌then◌else◌, not}
use qtjsondb.Qt.Text.{QString, starts_with}
use qtjsondb.Qt.Json.{Value, QJsonArray, to_string, is_string}
use qtjsondb.Qt.Calls.{QtCalls, QRegExp}
use qtjsondb.Query.Compare.{value_eq, contains_value, less_than, greater_than}
use qtjsondb.Query.Term.{is_undefined}

-- The subclasses of JsonDbQueryConstraint.
pub data QueryConstraint : Type 0 where
  gt ge lt le eq ne : Value → QueryConstraint
  exists not_exists : QueryConstraint
  is_in not_in : QJsonArray → QueryConstraint
  begins_with : QString → QueryConstraint
  reg_exp : QRegExp → Bool → QueryConstraint

unfoldable pub sparse_match_possible : QueryConstraint → Bool
sparse_match_possible (ne v) = true
sparse_match_possible (is_in vs) = true
sparse_match_possible (not_in vs) = true
sparse_match_possible (begins_with s) = true
sparse_match_possible (reg_exp re negated) = true
sparse_match_possible _ = false

module _ (q : QtCalls) where
  unfoldable pub constraint_matches : QueryConstraint → Value → Bool
  constraint_matches (gt w) v = greater_than q v w
  constraint_matches (ge w) v = greater_than q v w || value_eq q v w
  constraint_matches (lt w) v = less_than q v w
  constraint_matches (le w) v = less_than q v w || value_eq q v w
  constraint_matches (eq w) v = value_eq q v w
  constraint_matches (ne w) v = not (value_eq q v w)
  constraint_matches exists v = not (is_undefined v)
  constraint_matches not_exists v = is_undefined v
  constraint_matches (is_in ws) v = contains_value q ws v
  constraint_matches (not_in ws) v = not (contains_value q ws v)
  constraint_matches (begins_with s) v = is_string v && starts_with (to_string v) s
  constraint_matches (reg_exp re negated) v =
      if negated then not (q.exact_match re (to_string v)) else q.exact_match re (to_string v)

  -- matches(fieldValue): all constraints do.
  unfoldable pub matches : List QueryConstraint → Value → Bool
  matches [] v = true
  matches (c ∷ cs) v = constraint_matches c v && matches cs v

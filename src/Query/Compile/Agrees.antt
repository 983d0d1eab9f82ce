-- ===== src/Query/Compile/Agrees.antt =====
-- The constraints of an index query mean what the terms mean to JsonDbQuery::match.
use qtjsondb.Prelude.{
  ℕ, ◌≡◌, refl, Bool, true, false, ◌&&◌, List, [], ◌∷◌, ◌++◌, arith, if◌then◌else◌,
}
use qtjsondb.Qt.Text.{QString, codes, str_eq}
use qtjsondb.Qt.Json.{Value, QJsonArray}
use qtjsondb.Qt.Calls.{QtCalls, DoubleLaws}
use qtjsondb.Query.Compare.{contains_value}
use qtjsondb.Query.Compare.Symmetry.{value_eq_comm}
use qtjsondb.Query.Term.{JsonDbQueryTerm, term_value}
use qtjsondb.Query.Match.{op_matches}
use qtjsondb.Query.Constraint.{QueryConstraint, reg_exp, constraint_matches, matches}
use qtjsondb.Query.Compile.{
  IndexQuery, in_constraint, add_constraint, set_min, set_max, truncate_field_value,
  compile_or_query_term,
}

-- The operators that an index query has a constraint for.
pub data IndexOp : Type 0 where
  less less_eq greater greater_eq equal unequal like unlike exists not_exists is_in not_in
        begins_with :
      IndexOp

abbrev pub op_text : IndexOp → QString
op_text less = codes "<"
op_text less_eq = codes "<="
op_text greater = codes ">"
op_text greater_eq = codes ">="
op_text equal = codes "="
op_text unequal = codes "!="
op_text like = codes "=~"
op_text unlike = codes "!=~"
op_text exists = codes "exists"
op_text not_exists = codes "notExists"
op_text is_in = codes "in"
op_text not_in = codes "notIn"
op_text begins_with = codes "startsWith"

abbrev pub with_op : JsonDbQueryTerm → IndexOp → JsonDbQueryTerm
with_op t o = record t { op = op_text o }

module _ (q : QtCalls) where
  pub matches-append :
      (cs : List QueryConstraint) (c : QueryConstraint) (v : Value)
      → matches q (cs ++ c ∷ []) v ≡ (matches q cs v && constraint_matches q c v)
  unfolding matches
  matches-append [] c v = ground arith
  matches-append (d ∷ cs) c v = ground (arith, matches-append cs c v)

  in_constraint_matches :
      (laws : DoubleLaws q) (vs : QJsonArray) (v : Value)
      → constraint_matches q (in_constraint vs) v ≡ contains_value q vs v
  unfolding constraint_matches contains_value
  in_constraint_matches laws [] v = refl
  in_constraint_matches laws (w ∷ []) v = ground (arith, value_eq_comm q laws v w)
  in_constraint_matches laws (w ∷ x ∷ vs) v = refl

if_same {ℓ} : {A : Type ℓ} (b : Bool) (x : A) → (if b then x else x) ≡ x
if_same true x = refl
if_same false x = refl

constraints_if :
    (b : Bool) (x y : IndexQuery)
    → (if b then x else y).query_constraints
      ≡ (if b then x.query_constraints else y.query_constraints)
constraints_if true x y = refl
constraints_if false x y = refl

module _ (q : QtCalls) (laws : DoubleLaws q) (size : ℕ) where
  -- If comparing doubles is symmetric and the value of a term is not truncated, then compiling
  -- the term, with any of the operators that an index query has a constraint for, narrows the
  -- values that the query accepts to those that the operator accepts in match.
  pub matches-compile_or_query_term :
      (iq : IndexQuery) (t : JsonDbQueryTerm) (o : IndexOp) (v : Value)
      → truncate_field_value size iq.property_type (term_value iq.query (with_op t o))
        ≡ term_value iq.query (with_op t o)
      → matches q (compile_or_query_term q size iq (with_op t o)).query_constraints v ≡ (
          matches q iq.query_constraints v
          && op_matches q (with_op t o) v (term_value iq.query (with_op t o)))
  unfolding compile_or_query_term str_eq add_constraint set_min set_max op_matches
      constraint_matches
  matches-compile_or_query_term iq t less v short = rw matches-append (rw (short, if_same) refl)
  matches-compile_or_query_term iq t less_eq v short = rw matches-append (rw (short, if_same) refl)
  matches-compile_or_query_term iq t greater v short = rw matches-append (rw (short, if_same) refl)
  matches-compile_or_query_term iq t greater_eq v short =
      rw matches-append (rw (short, if_same) refl)
  matches-compile_or_query_term iq t equal v short = rw matches-append (rw (short, if_same) refl)
  matches-compile_or_query_term iq t unequal v short = rw matches-append (rw (short, if_same) refl)
  matches-compile_or_query_term iq t like v short =
      ground (arith, matches-append q iq.query_constraints (reg_exp t.reg_exp false) v)
  matches-compile_or_query_term iq t unlike v short =
      ground (arith, matches-append q iq.query_constraints (reg_exp t.reg_exp true) v)
  matches-compile_or_query_term iq t is_in v short =
      rw matches-append (rw (in_constraint_matches q laws) refl)
  matches-compile_or_query_term iq t _ v short = rw matches-append refl

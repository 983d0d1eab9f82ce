-- ===== src/Query/Parser/Terms/Total.antt =====
-- Reading the terms of a disjunction ends: a round that goes on has taken a token.
use qtjsondb.Prelude.{ℕ, zero, suc, ◌≡◌, refl, [], List, if◌then◌else◌}
use qtjsondb.Qt.Text.{QString, str_eq}
use qtjsondb.Qt.Calls.{QtCalls}
use qtjsondb.Query.Term.{JsonDbQueryTerm, Bindings}
use qtjsondb.Query.Parser.Reader.{◌>>=◌, pure, pop_token, next_identifier}
use qtjsondb.Query.Parser.Reader.Runs.{
  Runs, Runs-none, Runs-pure, Runs-bind, Runs-if, Runs-pure_bind, Runs-bind_assoc, runs_rules,
}
use qtjsondb.Query.Parser.Reader.Tokens.{
  Runs-pop, Runs-pop_token, Runs-next_identifier, Runs-peek_token,
}
use qtjsondb.Query.Parser.Json.{is_bracket, parse_json_literal}
use qtjsondb.Query.Parser.Json.Total.{parse_json_array-Runs, parse_json_object-Runs}
use qtjsondb.Query.Parser.Terms.{
  Progress, Step, adds, breaks, is_arrow, begin_term, read_joins, read_value, read_operand,
  next_term, read_terms,
}

module _ (q : QtCalls) where
  read_joins-none :
      (fuel : ℕ) (fields : List QString) (field : QString)
      → read_joins q fuel fields field [] ≡ pure (fields, field, [])
  unfolding read_joins str_eq
  read_joins-none zero fields field = refl
  read_joins-none (suc fuel) fields field = refl

  read_joins-Runs :
      (fuel : ℕ) (fields : List QString) (field op : QString)
      → Runs fuel (read_joins q fuel fields field op)
  unfolding read_joins
  read_joins-Runs zero fields field op = Runs-none _
  read_joins-Runs (suc fuel) fields field op =
      Runs-if (suc fuel) (is_arrow op) _ _
        (Runs-bind (suc fuel) (next_identifier q) _ (Runs-next_identifier q (suc fuel)) (λ field'.
          Runs-pop q fuel _ (λ t ne. read_joins-Runs fuel _ field' t)
            (rw read_joins-none (Runs-pure (suc fuel) _))))
        (Runs-pure (suc fuel) _)

  read_value-Runs :
      (fuel : ℕ) (p : Progress) (term : JsonDbQueryTerm) (field token : QString)
      → Runs fuel (read_value q fuel p term field token)
  unfolding read_value
  read_value-Runs fuel p term field token =
      let arrays = parse_json_array-Runs q fuel in
      let objects = parse_json_object-Runs q fuel in search (runs_rules, arrays, objects) depth 12

  read_operand-Runs :
      (fuel : ℕ) (bindings : Bindings) (p : Progress) (term : JsonDbQueryTerm) (field : QString)
      → Runs fuel (read_operand q fuel bindings p term field)
  unfolding read_operand
  read_operand-Runs fuel bindings p term field =
      search (runs_rules, Runs-pop_token q, read_value-Runs) depth 12

  module _ (fuel : ℕ) (bindings : Bindings)
      (ih : (p : Progress) (oqt : List JsonDbQueryTerm)
        → Runs fuel (read_terms q fuel bindings p oqt)) where
    next_term-Runs :
        (oqt : List JsonDbQueryTerm) (step : Step)
        → Runs fuel (next_term q (read_terms q fuel bindings) oqt step)
    unfolding next_term
    next_term-Runs oqt (breaks p) = Runs-pure fuel _
    next_term-Runs oqt (adds p term) = search (runs_rules, Runs-peek_token q, ih) depth 8

    -- What follows the operator of a term.
    operand_Runs :
        (p : Progress) (oqt : List JsonDbQueryTerm) (joins : List QString × QString × QString)
        → Runs fuel (
            let begun = begin_term bindings p joins.0 joins.1 joins.2 in
            read_operand q fuel bindings begun.0 begun.1 joins.1 >>= λ step.
            next_term q (read_terms q fuel bindings) oqt step)
    operand_Runs p oqt joins =
        Runs-bind fuel _ _ (read_operand-Runs fuel bindings _ _ _) (next_term-Runs oqt)

    -- Without an operator there has to be a value.
    no_operator-Runs :
        (p : Progress) (oqt : List JsonDbQueryTerm) (fields : List QString) (field : QString)
        → Runs (suc fuel) (
            let begun = begin_term bindings p fields field [] in
            read_operand q fuel bindings begun.0 begun.1 field >>= λ step.
            next_term q (read_terms q fuel bindings) oqt step)
    unfolding read_operand begin_term str_eq read_value parse_json_literal next_term
    no_operator-Runs p oqt fields field = Runs-bind_assoc (suc fuel) (pop_token q) _ _ (
        Runs-pop q fuel _
          (λ t ne. Runs-bind fuel _ _ (read_value-Runs fuel _ _ field t) (next_term-Runs oqt))
          (Runs-pure_bind (suc fuel) _ _ (Runs-pure (suc fuel) _)))

  pub read_terms-Runs :
      (fuel : ℕ) (bindings : Bindings) (p : Progress) (oqt : List JsonDbQueryTerm)
      → Runs fuel (read_terms q fuel bindings p oqt)
  unfolding read_terms
  read_terms-Runs zero bindings p oqt = Runs-none _
  read_terms-Runs (suc fuel) bindings p oqt =
      let ih = read_terms-Runs fuel bindings in
      let first : (n : ℕ)
          → Runs n (
              next_identifier q >>= λ first.
              if is_bracket b'|' first then next_identifier q else pure first) =
        λ n. search (runs_rules, Runs-next_identifier q) depth 8 in
      Runs-bind (suc fuel) _ _ (first (suc fuel)) (λ field.
        Runs-pop q fuel _
          (λ op ne.
            Runs-bind fuel _ _ (read_joins-Runs fuel [] field op)
              (operand_Runs fuel bindings ih p oqt))
          (rw read_joins-none
            (Runs-pure_bind (suc fuel) _ _ (no_operator-Runs fuel bindings ih p oqt [] field))))

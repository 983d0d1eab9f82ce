-- ===== src/Query/Parser/Terms.antt =====
-- src/partition/jsondbqueryparser.cpp, the loop of parse over the terms of a disjunction.
pub mod Total
use qtjsondb.Prelude.{
  ℕ, zero, suc, Bool, true, false, ◌&&◌, ◌||◌, List, [], ◌∷◌, ◌++◌, Option, none, some, ◌==◌,
  is_empty, drop, any, if◌then◌else◌, not,
}
use qtjsondb.Qt.Text.{QString, codes, str_eq, starts_with, has_unit}
use qtjsondb.Qt.Json.{Value, undefined, no_fields, obj, array_value, to_string}
use qtjsondb.Qt.Calls.{QtCalls, QRegExp}
use qtjsondb.Query.Tokenizer.{drop_last}
use qtjsondb.Query.Term.{
  JsonDbQueryTerm, JsonDbQuery, Bindings, new_term, set_join_field, no_reg_exp, is_undefined,
  binding, bind,
}
use qtjsondb.Query.Parser.Reader.{
  Reader, ◌>>=◌, pure, out_of_fuel, pop_token, peek_token, next_identifier,
}
use qtjsondb.Query.Parser.Json.{is_bracket, parse_json_literal, parse_json_array, parse_json_object}

-- The messages of queryExplanation, with what they quote.
pub data Explanation : Type 0 where
  bad_reg_exp bad_value : QString → QString → QString → Explanation
  expecting : QString → QString → Explanation

-- The members and the local variables of parse that its sections change.
pub record Progress : Type 0 where
  pub spec : JsonDbQuery
  pub explanation : List Explanation
  pub parse_error : Bool

-- A parse error with a message.
abbrev pub fails : Progress → Explanation → Progress
fails p e = record p { explanation = p.explanation ++ e ∷ []; parse_error = true }

abbrev pub has_binding : Bindings → QString → Bool
has_binding bindings name = any (λ b. str_eq b.0 name) bindings

abbrev extend_body : ℕ → Option (QString × QString) → Option (QString × QString)
extend_body c none = none
extend_body c (some (body, rest)) = some (c ∷ body, rest)

-- The loop for the end of a regular expression: the first separator that has no backslash before
-- it, with what stands before and behind it.
unfoldable pub find_end : ℕ → ℕ → QString → Option (QString × QString)
find_end sep before [] = none
find_end sep before (c ∷ s) =
    let later = find_end sep c s in
    if (c == sep) && not (before == 92) then some ([], s) else extend_body c later

-- The pattern and the modifiers of tvs, and whether the end was found. If it was not, `eor` is -1;
-- there is no character at sepPos only if tvs is that short.
abbrev reg_exp_parts : QString → Bool → Option (QString × QString) → QString × QString × Bool
reg_exp_parts tvs quoted none =
    (drop (if quoted then 2 else 1) tvs, if quoted then drop_last tvs else tvs, false)
reg_exp_parts tvs quoted (some (body, rest)) = (body, if quoted then drop_last rest else rest, true)

abbrev end_from : QString → Option (QString × QString)
end_from [] = none
end_from (sep ∷ s) = find_end sep sep s

-- With `quoted`, sepPos is 1, and otherwise 0.
unfoldable pub split_reg_exp : QString → Bool → QString × QString × Bool
unfolding find_end
split_reg_exp tvs quoted = reg_exp_parts tvs quoted (end_from (drop (if quoted then 1 else 0) tvs))

-- What is left of the loop after a part of a term: a term to add, or a break.
pub data Step : Type 0 where
  adds : Progress → JsonDbQueryTerm → Step
  breaks : Progress → Step

abbrev pub reg_exp_step : Progress → JsonDbQueryTerm → QString × QString × Bool → Step
reg_exp_step p term (pattern, modifiers, found) =
    adds (if found then p else record p { parse_error = true }) (record term {
      reg_exp = record {
        pattern = pattern;
        is_wildcard = has_unit b'w' modifiers;
        ignores_case = has_unit b'i' modifiers;
      };
    })

-- The value of an operator =~ or !=~: a text, or a variable that is bound to one.
unfoldable pub read_reg_exp : Bindings → Progress → JsonDbQueryTerm → QString → QString → Step
unfolding split_reg_exp has_unit
read_reg_exp bindings p term field tvs =
    if starts_with tvs (b'%' ∷ [])
    then (if has_binding bindings (drop 1 tvs)
        then reg_exp_step p term
            (split_reg_exp (to_string (binding bindings (drop 1 tvs) undefined)) false)
        else reg_exp_step p term (split_reg_exp tvs true))
    else if not (starts_with tvs (34 ∷ []))
    then breaks (fails p (bad_reg_exp tvs field term.op))
    else reg_exp_step p term (split_reg_exp tvs true)

abbrev pub value_step : Progress → JsonDbQueryTerm → QString → QString → Value → Bool → Step
value_step p term field token v ok =
    if ok
    then adds p (record term { value = v })
    else breaks (fails p (bad_value token field term.op))

abbrev set_variable : JsonDbQueryTerm → Option QString → JsonDbQueryTerm
set_variable term none = term
set_variable term (some name) = record term { variable = name }

-- The name of the property, or the variable that stands for it.
unfoldable pub set_field :
    Bindings → Progress → JsonDbQueryTerm → QString → Progress × JsonDbQueryTerm
set_field bindings p term field =
    let name = drop 1 field in
    let v = binding bindings name undefined in
    if starts_with field (b'%' ∷ [])
    then (
      if is_undefined v
          then p
          else record p { spec = record p.spec { bindings = bind p.spec.bindings name v } },
      record term { property_variable = name },
    )
    else (p, record term { property_name = field })

abbrev pub is_arrow : QString → Bool
is_arrow token = str_eq token (codes "->")

-- joinFields.join("->")
unfoldable pub join_arrows : List QString → QString
join_arrows [] = []
join_arrows (f ∷ []) = f
join_arrows (f ∷ g ∷ fields) = f ++ (codes "->" ++ join_arrows (g ∷ fields))

abbrev pub is_match_op : QString → Bool
is_match_op op = str_eq op (codes "=~") || str_eq op (codes "!=~")

abbrev pub has_no_value : QString → Bool
has_no_value op = str_eq op (codes "exists") || str_eq op (codes "notExists")

-- A term with its join field, its property and its operator.
unfoldable pub begin_term :
    Bindings → Progress → List QString → QString → QString → Progress × JsonDbQueryTerm
unfolding set_field join_arrows set_join_field
begin_term bindings p join_fields field op =
    let joined =
      if is_empty (join_arrows join_fields)
      then new_term
      else set_join_field new_term (join_arrows join_fields) in
    let (p', term) = set_field bindings p joined field in (p', record term { op = op })

module _ (q : QtCalls) where
  -- The loop over the fields of a join: they, the field of the term and its operator.
  unfoldable pub read_joins :
      ℕ → List QString → QString → QString → Reader (List QString × QString × QString)
  read_joins zero fields field op = if is_arrow op then out_of_fuel else pure (fields, field, op)
  read_joins (suc fuel) fields field op =
      if is_arrow op
      then (do
        field' ← next_identifier q
        op' ← pop_token q
        read_joins fuel (fields ++ field ∷ []) field' op')
      else pure (fields, field, op)

  unfoldable pub read_value : ℕ → Progress → JsonDbQueryTerm → QString → QString → Reader Step
  read_value fuel p term field token =
      if is_bracket b'[' token
      then (do
        (array, ok) ← parse_json_array q fuel [] true
        pure (value_step p term field token (array_value array) ok))
      else if is_bracket b'{' token
      then (do
        (object, ok) ← parse_json_object q fuel no_fields true
        pure (value_step p term field token (obj object) ok))
      else let l = parse_json_literal q token in
        pure (value_step p (set_variable term l.variable) field token l.value l.ok)

  -- The value of a term, by its operator.
  unfoldable pub read_operand : ℕ → Bindings → Progress → JsonDbQueryTerm → QString → Reader Step
  read_operand fuel bindings p term field =
      if is_match_op term.op
      then (do tvs ← pop_token q; pure (read_reg_exp bindings p term field tvs))
      else if has_no_value term.op
      then pure (adds p term)
      else pop_token q >>= λ token. read_value fuel p term field token

  abbrev TermsReader : Type 0
  TermsReader = Progress → List JsonDbQueryTerm → Reader (Progress × List JsonDbQueryTerm)

  -- The end of a round: the loop goes on unless ] stands next.
  unfoldable pub next_term :
      TermsReader → List JsonDbQueryTerm → Step → Reader (Progress × List JsonDbQueryTerm)
  next_term terms oqt (breaks p) = pure (p, oqt)
  next_term terms oqt (adds p term) = peek_token q >>= λ next.
      if is_bracket b']' next then pure (p, oqt ++ term ∷ []) else terms p (oqt ++ term ∷ [])

  unfoldable pub read_terms : ℕ → Bindings → TermsReader
  read_terms zero bindings p oqt = out_of_fuel
  read_terms (suc fuel) bindings p oqt =
      (next_identifier q >>= λ first.
      if is_bracket b'|' first then next_identifier q else pure first)
      >>= λ field0. pop_token q >>= λ op0. read_joins fuel [] field0 op0 >>= λ joins.
          let begun = begin_term bindings p joins.0 joins.1 joins.2 in
          read_operand fuel bindings begun.0 begun.1 joins.1 >>= λ step.
          next_term (read_terms fuel bindings) oqt step

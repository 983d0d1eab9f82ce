-- ===== src/Query/Parser/Sections.antt =====
-- src/partition/jsondbqueryparser.cpp, the loop of parse over the sections of a query.
pub mod Total
use qtjsondb.Prelude.{
  ℕ, zero, suc, Bool, true, false, ◌||◌, List, ◌++◌, [], ◌∷◌, is_empty, not, if◌then◌else◌,
}
use qtjsondb.Qt.Text.{QString, codes, str_eq}
use qtjsondb.Qt.Calls.{QtCalls}
use qtjsondb.Query.Term.{JsonDbQueryTerm, JsonDbOrderTerm, Bindings}
use qtjsondb.Query.Parser.Reader.{Reader, ◌>>=◌, pure, out_of_fuel, pop_token, next_identifier}
use qtjsondb.Query.Parser.Json.{is_bracket}
use qtjsondb.Query.Parser.Terms.{Progress, Explanation, expecting, fails, read_terms}
use qtjsondb.Query.Parser.Map.{read_map}

abbrev pub add_terms : Progress → List JsonDbQueryTerm → Progress
add_terms p oqt = record p { spec = record p.spec { query_terms = p.spec.query_terms ++ oqt ∷ [] } }

abbrev pub is_ordering : QString → Bool
is_ordering token =
    (is_bracket b'/' token || is_bracket 92 token)
    || (is_bracket b'>' token || is_bracket b'<' token)

abbrev order_term : QString → QString → JsonDbOrderTerm
order_term ordering name = record {
  property_name = name;
  ascending = is_bracket b'/' ordering || is_bracket b'>' ordering;
}

abbrev pub add_order : Progress → QString → QString → Progress
add_order p ordering name = record p {
  spec = record p.spec { order_terms = p.spec.order_terms ++ order_term ordering name ∷ [] };
}

abbrev pub set_count : Progress → Progress
set_count p = record p { spec = record p.spec { aggregate_operation = codes "count" } }

abbrev pub expected_sections : QString
expected_sections = codes "'?', '/', '" ++ (92 ∷ codes "', or 'count'")

-- The end of a section: the loop breaks, or the closing bracket is due.
pub data Section : Type 0 where
  closes stops : Progress → Section

module _ (q : QtCalls) where
  -- A section, by the token behind its opening bracket.
  unfoldable pub read_section : ℕ → Bindings → Progress → QString → Reader Section
  read_section fuel bindings p token =
      if is_bracket b'?' token
      then (read_terms q fuel bindings p [] >>= λ read. pure (closes (add_terms read.0 read.1)))
      else if is_bracket b'=' token
      then (pop_token q >>= λ curly.
          if not (is_bracket b'{' curly)
          then pure (stops (fails p (expecting (codes "'{'") curly)))
          else (read_map q fuel p >>= λ p'. pure (closes p')))
      else if is_ordering token
      then (next_identifier q >>= λ name. pure (closes (add_order p token name)))
      else if str_eq token (codes "count")
      then pure (closes (set_count p))
      else if is_bracket b'*' token
      then pure (closes p)
      else pure (stops (fails p (expecting expected_sections token)))

  unfoldable pub close_section : (Progress → Reader Progress) → Section → Reader Progress
  close_section sections (stops p) = pure p
  close_section sections (closes p) = pop_token q >>= λ close.
      if not (is_bracket b']' close)
      then pure (fails p (expecting (codes "']'") close))
      else sections p

  unfoldable pub read_sections : ℕ → Bindings → Progress → Reader Progress
  read_sections zero bindings p = out_of_fuel
  read_sections (suc fuel) bindings p =
      if p.parse_error
      then pure p
      else (pop_token q >>= λ token.
          if is_empty token
          then pure p
          else if not (is_bracket b'[' token)
          then pure p
          else (pop_token q >>= λ kind. read_section fuel bindings p kind >>= λ section.
              close_section (read_sections fuel bindings) section))

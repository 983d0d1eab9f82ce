-- ===== src/Query/Parser/Map.antt =====
-- src/partition/jsondbqueryparser.cpp, the section of parse with the map of a query.
pub mod Total
use qtjsondb.Prelude.{ℕ, zero, suc, Bool, ◌++◌, [], ◌∷◌, is_empty, not, if◌then◌else◌}
use qtjsondb.Qt.Text.{QString, codes}
use qtjsondb.Qt.Calls.{QtCalls}
use qtjsondb.Query.Parser.Reader.{
  Reader, ◌>>=◌, ◌>>◌, pure, out_of_fuel, push_token, pop_token, peek_token, next_identifier,
}
use qtjsondb.Query.Parser.Json.{is_bracket}
use qtjsondb.Query.Parser.Terms.{Progress, Explanation, expecting, fails, is_arrow}

abbrev pub add_key : Progress → QString → Progress
add_key p key = record p { spec = record p.spec { map_key_list = p.spec.map_key_list ++ key ∷ [] } }

abbrev pub add_expression : Progress → QString → Progress
add_expression p expression = record p {
  spec = record p.spec { map_expression_list = p.spec.map_expression_list ++ expression ∷ [] };
}

module _ (q : QtCalls) where
  -- The loop over the arrows of an expression.
  unfoldable pub read_arrows : ℕ → QString → Reader QString
  read_arrows zero token = out_of_fuel
  read_arrows (suc fuel) token = peek_token q >>= λ next.
      if is_arrow next
      then (do op ← pop_token q; name ← next_identifier q; read_arrows fuel ((token ++ op) ++ name))
      else pure token

  -- What follows an expression: the loop goes on behind a comma, and before the brace that was put
  -- back.
  abbrev pub map_end : (Progress → Reader Progress) → Progress → QString → Reader Progress
  map_end entries p comma =
      if is_bracket b'}' comma
      then push_token comma >> entries p
      else if not (is_bracket b',' comma)
      then pure (fails p (expecting (codes "',', or '}'") comma))
      else entries p

  unfoldable pub map_entry : ℕ → (Progress → Reader Progress) → Progress → QString → Reader Progress
  map_entry fuel entries p key = pop_token q >>= λ colon.
      if not (is_bracket b':' colon)
      then pure (fails (add_key p key) (expecting (codes "':'") colon))
      else (do
        name ← next_identifier q
        expression ← read_arrows fuel name
        comma ← pop_token q
        map_end entries (add_expression (add_key p key) expression) comma)

  unfoldable pub read_map : ℕ → Progress → Reader Progress
  read_map zero p = out_of_fuel
  read_map (suc fuel) p = next_identifier q >>= λ key.
      if is_empty key
      then pure p
      else if is_bracket b'}' key
      then pure p
      else map_entry fuel (read_map fuel) p key

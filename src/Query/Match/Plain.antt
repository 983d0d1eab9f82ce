-- ===== src/Query/Match/Plain.antt =====
-- Matching without a cache and without a partition to fetch joined objects from.
use qtjsondb.Prelude.{
  ◌≡◌, refl, Bool, List, [], ◌∷◌, none, arith, any, all_of, Bool-cases, inl, inr,
}
use qtjsondb.Qt.Text.{QString}
use qtjsondb.Qt.Json.{Value, QJsonObject}
use qtjsondb.Qt.Calls.{QtCalls}
use qtjsondb.Query.Term.{JsonDbQueryTerm, JsonDbOrQueryTerm, JsonDbQuery, term_value}
use qtjsondb.Query.Match.{join, field_value, op_matches, match_or, match_all, match}

module _ (q : QtCalls) where
  -- The value that a term looks at, and its verdict.
  abbrev pub plain_value : JsonDbQuery → QJsonObject → JsonDbQueryTerm → Value
  plain_value query object t = (field_value q none query t object none).0

  abbrev pub term_matches : JsonDbQuery → QJsonObject → JsonDbQueryTerm → Bool
  term_matches query object t = op_matches q t (plain_value query object t) (term_value query t)

  join_plain :
      (paths : List (List QString)) (o : QJsonObject) → join q none none paths o ≡ (o, none)
  unfolding join
  join_plain [] o = refl
  join_plain (path ∷ paths) o = join_plain paths o

  field_value_plain :
      (query : JsonDbQuery) (t : JsonDbQueryTerm) (object : QJsonObject)
      → (field_value q none query t object none).1 ≡ none
  unfolding field_value
  field_value_plain query t object = ground (arith, join_plain t.join_paths object)

  match_or_plain :
      (query : JsonDbQuery) (terms : JsonDbOrQueryTerm) (object : QJsonObject)
      → match_or q none query terms object none ≡ (any (term_matches query object) terms, none)
  unfolding match_or any
  match_or_plain query [] object = refl
  match_or_plain query (t ∷ terms) object =
      rw field_value_plain (elim (Bool-cases (term_matches query object t)) [
        | inl h ↦ rw h refl
        | inr h ↦ rw h (match_or_plain query terms object)
      ])

  match_all_plain :
      (query : JsonDbQuery) (all : List JsonDbOrQueryTerm) (object : QJsonObject)
      → match_all q none query all object none
        ≡ (all_of (λ terms. any (term_matches query object) terms) all, none)
  unfolding match_all all_of
  match_all_plain query [] object = refl
  match_all_plain query (terms ∷ all) object =
      rw match_or_plain (elim (Bool-cases (any (term_matches query object) terms)) [
        | inl h ↦ rw h (match_all_plain query all object)
        | inr h ↦ rw h refl
      ])

  -- Without a cache and a partition an object matches a query exactly if each disjunction has a
  -- term that matches, and there is no cache afterwards.
  pub match_plain :
      (query : JsonDbQuery) (object : QJsonObject)
      → match q none query object none
        ≡ (all_of (λ terms. any (term_matches query object) terms) query.query_terms, none)
  unfolding match
  match_plain query object = match_all_plain query query.query_terms object

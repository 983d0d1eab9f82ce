-- ===== src/Partition/Query/Compile/Sound.antt =====
-- src/partition/jsondbpartition.cpp: what passes a compiled query matches the query.
use qtjsondb.Prelude.{
  ℕ, ◌≡◌, refl, sym, ap, subst, Bool, true, false, ◌&&◌, ◌||◌, not, List, [], ◌∷◌, ◌++◌, Option,
  none, some, arith, is_empty, any, all_of, if◌then◌else◌, Bool-cases, inl, inr, ◌∙◌, ◌⊎◌,
}
use qtjsondb.Qt.Text.{QString, str_eq, str_eq_iff}
use qtjsondb.Qt.Json.{QJsonObject}
use qtjsondb.Qt.Calls.{QtCalls, DoubleLaws}
use qtjsondb.Strings.{type_str}
use qtjsondb.Object.Path.{value_by_path}
use qtjsondb.Query.Term.{
  JsonDbQueryTerm, JsonDbOrQueryTerm, JsonDbQuery, has_name, term_value, JsonDbOrderTerm,
}
use qtjsondb.Query.Match.{ObjectCache, field_value, match}
use qtjsondb.Query.Match.Plain.{term_matches, match_plain}
use qtjsondb.Query.Constraint.{matches}
use qtjsondb.Query.Compile.{IndexQuery, compile_or_query_term}
use qtjsondb.Partition.Query.Compile.{
  Indexes, Compiling, is_some_type, leave_order, order_found, leave_terms, after_join, without_join,
  compile_single, compiled_into, new_index_query, compile_terms, compile_order, or_default,
  residual_of, view_of, name_types, unindexable_names, compile_index_query,
}
use qtjsondb.Partition.Query.Compile.Answers.{AllAnswered, IsAnswered, compiled_term}
use qtjsondb.Partition.Query.Compile.Narrows.{Narrows, compile_or_query_term-Narrows}

all_of-append {ℓ} :
    {A : Type ℓ} (p : A → Bool) (xs : List A) (x : A)
    → all_of p (xs ++ x ∷ []) ≡ (all_of p xs && p x)
unfolding all_of
all_of-append p [] x = ground arith
all_of-append p (y ∷ xs) x = ground (arith, all_of-append p xs x)

module _ (q : QtCalls) (laws : DoubleLaws q) (size : ℕ) (views : List QString) (indexes : Indexes)
    (query : JsonDbQuery) (object : QJsonObject) where
  -- A disjunction has a term that matches.
  abbrev pub meets : JsonDbOrQueryTerm → Bool
  meets terms = any (term_matches q query object) terms

  -- The value of the object for an index query matches its constraints.
  abbrev pub passes : IndexQuery → Bool
  passes iq = matches q iq.query_constraints (value_by_path q object iq.property_name)

  abbrev PassesAny : Option IndexQuery → Type 0
  PassesAny none = Unit
  PassesAny (some iq) = passes iq ≡ true

  abbrev IsOfQuery : Option IndexQuery → Type 0
  IsOfQuery none = Unit
  IsOfQuery (some iq) = iq.query ≡ query

  -- The object passes what is compiled so far.
  record Holds (c : Compiling) : Type 0 where
    terms : all_of meets c.residual_terms ≡ true
    index : PassesAny c.index_query

  passes-Narrows : (iq jq : IndexQuery) → Narrows q iq jq → passes jq ≡ true → passes iq ≡ true
  passes-Narrows iq jq n h = n.keeps (value_by_path q object iq.property_name) (
      subst (λ name. matches q jq.query_constraints (value_by_path q object name) ≡ true)
        n.same_name h)

  left_over :
      (c : Compiling) (terms : JsonDbOrQueryTerm)
      → Holds (leave_terms q size views indexes query c terms)
      → Holds c × (meets terms ≡ true)
  left_over c terms h =
      let both = all_of-append meets c.residual_terms terms in
      (
        record { terms = ground (arith, both, h.terms); index = h.index },
        ground (arith, both, h.terms),
      )

  -- A term of its own is left, or compiled into an index query of its property, which is the one
  -- there is, if there is one.
  IsLeft : JsonDbQueryTerm → JsonDbQueryTerm → Compiling → Compiling → Type 0
  IsLeft whole t c d =
      (d ≡ leave_terms q size views indexes query c (t ∷ []))
      ⊎ (d ≡ leave_terms q size views indexes query c (whole ∷ []))

  IsCompiled : JsonDbQueryTerm → Compiling → Compiling → Type 0
  IsCompiled t c d =
      (iq : IndexQuery) × (iq.query ≡ query)
      × (iq.property_name ≡ t.property_name)
      × (passes iq ≡ true → PassesAny c.index_query)
      × (d ≡ compiled_into q size views indexes query c iq t)

  single_cases :
      (view : Option QString) (unindexable : List QString) (whole t : JsonDbQueryTerm)
      (c : Compiling) (o : Option IndexQuery)
      → c.index_query ≡ o
      → IsOfQuery o
      → let d = compile_single q size views indexes query view unindexable whole t c o in
        IsLeft whole t c d ⊎ IsCompiled t c d
  unfolding compile_single IsLeft IsCompiled
  single_cases view unindexable whole t c (some iq) e same =
      let type = indexes view t.property_name in
      elim (Bool-cases (not (is_some_type type) || not (str_eq iq.property_name t.property_name))) [
        | inl h ↦ rw h (inl (inl refl))
        | inr h ↦ rw h (
            inr (
              iq,
              same,
              (str_eq_iff iq.property_name t.property_name).0 (ground (arith, h)),
              λ p. subst PassesAny (sym e) p,
              refl,
            ))
      ]
  single_cases view unindexable whole t c none e same =
      let type = indexes view t.property_name in
      elim (Bool-cases (not (is_some_type type))) [
        | inl h ↦ rw h (inl (inl refl))
        | inr h ↦
            rw h
              (elim (Bool-cases (
                not (str_eq t.property_name type_str)
                && not (has_name unindexable t.property_name))) [
                  | inl g ↦ rw g (
                      inr (
                        new_index_query query t.property_name type,
                        refl,
                        refl,
                        λ p. subst PassesAny (sym e) tt,
                        refl,
                      ))
                  | inr g ↦ rw g (inl (inr refl))
                ])
      ]

  after_join-IsOfQuery :
      (c : Compiling) (t : JsonDbQueryTerm)
      → IsOfQuery c.index_query
      → IsOfQuery (after_join q size views indexes query c t).index_query
  after_join-IsOfQuery c t same =
      elim (is_empty t.join_field)
        as (λ b.
          IsOfQuery
            (if b then c else leave_terms q size views indexes query c (t ∷ [])).index_query) [
              | true ↦ same
              | false ↦ same
            ]

  step-IsOfQuery :
      (whole t : JsonDbQueryTerm) (c d : Compiling)
      → IsOfQuery c.index_query
      → IsLeft whole t c d ⊎ IsCompiled t c d
      → IsOfQuery d.index_query
  unfolding IsLeft IsCompiled
  step-IsOfQuery whole t c d same (inl (inl e)) = rw e same
  step-IsOfQuery whole t c d same (inl (inr e)) = rw e same
  step-IsOfQuery whole t c d same (inr (iq, of, name, before, e)) =
      rw e ((compile_or_query_term-Narrows q size iq t).same_query ∙ of)

  step_keeps :
      (whole t : JsonDbQueryTerm) (c d : Compiling)
      → IsLeft whole t c d ⊎ IsCompiled t c d
      → Holds d
      → Holds c
  unfolding IsLeft IsCompiled
  step_keeps whole t c d (inl (inl e)) h = (left_over c (t ∷ []) (subst Holds e h)).0
  step_keeps whole t c d (inl (inr e)) h = (left_over c (whole ∷ []) (subst Holds e h)).0
  step_keeps whole t c d (inr (iq, of, name, before, e)) h =
      let g = subst Holds e h in
      record {
        terms = g.terms;
        index = before (
            passes-Narrows iq (compile_or_query_term q size iq t)
              (compile_or_query_term-Narrows q size iq t) g.index);
      }

  step_meets :
      (t : JsonDbQueryTerm) (c d : Compiling)
      → is_empty t.join_field ≡ true
      → IsAnswered size query t
      → IsLeft t t c d ⊎ IsCompiled t c d
      → Holds d
      → meets (t ∷ []) ≡ true
  unfolding IsLeft IsCompiled
  step_meets t c d no_join answered (inl (inl e)) h = (left_over c (t ∷ []) (subst Holds e h)).1
  step_meets t c d no_join answered (inl (inr e)) h = (left_over c (t ∷ []) (subst Holds e h)).1
  step_meets t c d no_join answered (inr (iq, of, name, before, e)) h =
      let matched =
        compiled_term q laws size query object iq t of name no_join answered
          (subst Holds e h).index in
      unfold any in ground (arith, matched)

  -- A round on a term of its own.
  step_sound :
      (t : JsonDbQueryTerm) (c d : Compiling)
      → IsLeft t
          (without_join q size views indexes query t)
          (after_join q size views indexes query c t)
          d
        ⊎ IsCompiled
            (without_join q size views indexes query t)
            (after_join q size views indexes query c t)
            d
      → (is_empty t.join_field ≡ true → IsAnswered size query t)
      → Holds d
      → Holds c × (meets (t ∷ []) ≡ true)
  unfolding without_join
  step_sound t c d cases answered h =
      let W = without_join q size views indexes query t in
      let A = after_join q size views indexes query c t in
      elim (Bool-cases (is_empty t.join_field)) [
        | inl no_join ↦
            let w : W ≡ t = rw no_join refl in
            let a : A ≡ c = rw no_join refl in
            let plain : IsLeft t t c d ⊎ IsCompiled t c d =
              subst (λ u. IsLeft t u c d ⊎ IsCompiled u c d) w
                (subst (λ b. IsLeft t W b d ⊎ IsCompiled W b d) a cases) in
            (step_keeps t t c d plain h, step_meets t c d no_join (answered no_join) plain h)
        | inr joined ↦
            let a : A ≡ leave_terms q size views indexes query c (t ∷ []) = rw joined refl in
            left_over c (t ∷ []) (subst Holds a (step_keeps t W A d cases h))
      ]

  -- What passes the compiled terms passes what there was before, and meets every disjunction.
  compile_terms_sound :
      (view : Option QString) (unindexable : List QString) (terms : List JsonDbOrQueryTerm)
      (c : Compiling)
      → IsOfQuery c.index_query
      → AllAnswered size query terms
      → Holds (compile_terms q size views indexes query view unindexable terms c)
      → Holds c × (all_of meets terms ≡ true)
  unfolding compile_terms all_of
  compile_terms_sound view unindexable [] c same answered h = (h, refl)
  compile_terms_sound view unindexable ([] ∷ more) c same answered h =
      let after = compile_terms_sound view unindexable more _ same answered h in
      let here = left_over c [] after.0 in (here.0, ground (arith, here.1, after.1))
  compile_terms_sound view unindexable ((t ∷ u ∷ terms) ∷ more) c same answered h =
      let after = compile_terms_sound view unindexable more _ same answered h in
      let here = left_over c (t ∷ u ∷ terms) after.0 in (here.0, ground (arith, here.1, after.1))
  compile_terms_sound view unindexable ((t ∷ []) ∷ more) c same answered h =
      let d = after_join q size views indexes query c t in
      let of_d = after_join-IsOfQuery c t same in
      let stepped =
        compile_single q size views indexes query view unindexable t
          (without_join q size views indexes query t) d d.index_query in
      let cases =
        single_cases view unindexable t (without_join q size views indexes query t) d d.index_query
          refl of_d in
      let after =
        compile_terms_sound view unindexable more stepped
          (step-IsOfQuery t (without_join q size views indexes query t) d stepped of_d cases)
          answered.1 h in
      let here = step_sound t c stepped cases answered.0 after.0 in
      (here.0, ground (arith, here.1, after.1))

  order_step-IsOfQuery :
      (type : Option QString) (left : Bool) (t : JsonDbOrderTerm) (c : Compiling)
      (o : Option IndexQuery)
      → IsOfQuery c.index_query
      → IsOfQuery
          (if left
            then leave_order q size views indexes query c t
            else order_found q size views indexes query c o type t).index_query
  order_step-IsOfQuery type true t c o same = same
  order_step-IsOfQuery type false t c none same = refl
  order_step-IsOfQuery type false t c (some iq) same =
      elim (not (str_eq iq.property_name t.property_name))
        as (λ b.
          IsOfQuery (if b then leave_order q size views indexes query c t else c).index_query) [
            | true ↦ same
            | false ↦ same
          ]

  compile_order-IsOfQuery :
      (view : Option QString) (unindexable : List QString) (terms : List JsonDbOrderTerm)
      (c : Compiling)
      → IsOfQuery c.index_query
      → IsOfQuery (compile_order q size views indexes query view unindexable terms c).index_query
  unfolding compile_order
  compile_order-IsOfQuery view unindexable [] c same = same
  compile_order-IsOfQuery view unindexable (t ∷ terms) c same =
      compile_order-IsOfQuery view unindexable terms _
        (order_step-IsOfQuery (indexes view t.property_name) _ t c c.index_query same)

  chosen :
      (o : Option IndexQuery) (names : List QString) (view : Option QString)
      → passes (or_default q size views indexes query o names view) ≡ true
      → PassesAny o
  chosen none names view h = tt
  chosen (some iq) names view h = h

  -- The residual query has the bindings of the query.
  residual_meets :
      (terms : List JsonDbOrQueryTerm) (order : List JsonDbOrderTerm)
      → (match q none (residual_of q size views indexes query terms order) object none).0 ≡ true
      → all_of meets terms ≡ true
  unfolding field_value term_value
  residual_meets terms order h =
      sym (
        ap (λ (m : Bool × ObjectCache). m.0)
          (match_plain q (residual_of q size views indexes query terms order) object))
      ∙ h

  -- If comparing doubles is symmetric, let each term of the query that stands alone and has no
  -- join name a property, have an operator that an index query has a constraint for, and have
  -- no text that an index truncates. If an object matches the residual query of the compiled
  -- query, and its value for the property of the index query matches the constraints, then it
  -- matches the query. Joined objects are not fetched.
  pub passes_sound :
      AllAnswered size query query.query_terms
      → let r = compile_index_query q size views indexes query in
        (match q none r.filter.residual_query object none).0 ≡ true
        → passes r.index_query ≡ true
        → (match q none query object none).0 ≡ true
  unfolding compile_index_query
  passes_sound answered residual index =
      let (names, view') = name_types q size views indexes query query.query_terms [] none in
      let view = view_of views names view' in
      let unindexable = unindexable_names query.query_terms in
      let start : Compiling = record {
        index_query = none;
        residual_terms = [];
        residual_order = [];
      } in
      let ordered =
        compile_order q size views indexes query view unindexable query.order_terms start in
      let c = compile_terms q size views indexes query view unindexable query.query_terms ordered in
      let of_query = compile_order-IsOfQuery view unindexable query.order_terms start tt in
      let holds : Holds c = record {
        terms = residual_meets c.residual_terms c.residual_order residual;
        index = chosen c.index_query names view index;
      } in
      let met =
        compile_terms_sound view unindexable query.query_terms ordered of_query answered holds in
      ap (λ (m : Bool × ObjectCache). m.0) (match_plain q query object) ∙ met.1

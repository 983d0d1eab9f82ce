-- ===== src/Query/Parser/Results/Loops.antt =====
-- Each loop of parse keeps the query and the bindings in the specification.
use qtjsondb.Prelude.{ℕ, zero, suc, ◌≡◌, ◌∙◌, ap, refl, Bool, List, [], not}
use qtjsondb.Qt.Text.{QString, codes, str_eq}
use qtjsondb.Qt.Json.{Value, undefined}
use qtjsondb.Qt.Calls.{QtCalls}
use qtjsondb.Query.Term.{JsonDbQueryTerm, Bindings, binding}
use qtjsondb.Query.Parser.Reader.{Reader, ◌>>=◌, pure}
use qtjsondb.Query.Parser.Json.{is_bracket}
use qtjsondb.Query.Parser.Terms.{
  Progress, Step, adds, breaks, value_step, read_value, read_operand, next_term, read_terms,
}
use qtjsondb.Query.Parser.Map.{map_entry, read_map}
use qtjsondb.Query.Parser.Sections.{
  Section, closes, stops, read_section, add_terms, is_ordering, add_order, set_count, close_section,
  read_sections,
}
use qtjsondb.Query.Parser.Results.Gives.{
  Gives, Gives-bind, Gives-next, Gives-pure, Gives-none, Gives-if,
}
use qtjsondb.Query.Parser.Results.Kept.{
  Good, GoodStep, GoodSection, begin_term-Good, read_reg_exp-Good, value_step-Good,
}

module _ (query : QString) (bindings : Bindings) where
  abbrev Kept : Progress → Type 0
  Kept = Good query bindings

  abbrev KeptStep : Step → Type 0
  KeptStep = GoodStep query bindings

  abbrev KeptSection : Section → Type 0
  KeptSection = GoodSection query bindings

  module _ (q : QtCalls) where
    read_value-Gives :
        (fuel : ℕ) (p : Progress) (term : JsonDbQueryTerm) (field token : QString)
        → Kept p
        → Gives KeptStep (read_value q fuel p term field token)
    unfolding read_value
    read_value-Gives fuel p term field token h =
        let step : (term' : JsonDbQueryTerm) (v : Value) (ok : Bool)
            → KeptStep (value_step p term' field token v ok) =
          λ term' v ok. value_step-Good query bindings p term' field token v ok h in
        search (Gives-if, Gives-next, Gives-pure, step) depth 10

    read_operand-Gives :
        (fuel : ℕ) (p : Progress) (term : JsonDbQueryTerm) (field : QString)
        → Kept p
        → Gives KeptStep (read_operand q fuel bindings p term field)
    unfolding read_operand
    read_operand-Gives fuel p term field h =
        search
          (Gives-if, Gives-next, Gives-pure, read_reg_exp-Good query bindings, read_value-Gives, h)
          depth 10

    abbrev KeptTerms : Progress × List JsonDbQueryTerm → Type 0
    KeptTerms (p, oqt) = Kept p

    next_term-Gives :
        (terms : Progress → List JsonDbQueryTerm → Reader (Progress × List JsonDbQueryTerm))
        → ((p : Progress) (oqt : List JsonDbQueryTerm) → Kept p → Gives KeptTerms (terms p oqt))
        → (oqt : List JsonDbQueryTerm) (step : Step) → KeptStep step
        → Gives KeptTerms (next_term q terms oqt step)
    unfolding next_term
    next_term-Gives terms ih oqt (breaks p) h = Gives-pure KeptTerms _ h
    next_term-Gives terms ih oqt (adds p term) h =
        search (Gives-if, Gives-next, Gives-pure, ih, h) depth 10

    read_terms-Gives :
        (fuel : ℕ) (p : Progress) (oqt : List JsonDbQueryTerm)
        → Kept p
        → Gives KeptTerms (read_terms q fuel bindings p oqt)
    unfolding read_terms
    read_terms-Gives zero p oqt h = Gives-none _
    read_terms-Gives (suc fuel) p oqt h =
        let next = next_term-Gives (read_terms q fuel bindings) (read_terms-Gives fuel) oqt in
        Gives-next KeptTerms _ _ (λ field0. Gives-next KeptTerms _ _ (λ op0.
          Gives-next KeptTerms _ _ (λ joins.
            Gives-bind KeptStep KeptTerms _ _
              (read_operand-Gives fuel _ _ _
                (begin_term-Good query bindings p joins.0 joins.1 joins.2 h))
              next)))

    map_entry-Gives :
        (fuel : ℕ) (entries : Progress → Reader Progress)
        → ((p : Progress) → Kept p → Gives Kept (entries p))
        → (p : Progress) (key : QString) → Kept p
        → Gives Kept (map_entry q fuel entries p key)
    unfolding map_entry
    map_entry-Gives fuel entries ih p key h =
        let more : (p' : Progress)
            → p'.spec.query ≡ p.spec.query
            → p'.spec.bindings ≡ p.spec.bindings
            → p'.spec.matched_types ≡ p.spec.matched_types
            → Kept p' =
          λ p' e e' e2. record {
            same_query = e ∙ h.same_query;
            same_bindings = λ m. ap (λ b. binding b m undefined) e' ∙ h.same_bindings m;
            no_types = e2 ∙ h.no_types;
          } in
        search (Gives-if, Gives-next, Gives-pure, ih, more, refl) depth 14

    read_map-Gives : (fuel : ℕ) (p : Progress) → Kept p → Gives Kept (read_map q fuel p)
    unfolding read_map
    read_map-Gives zero p h = Gives-none _
    read_map-Gives (suc fuel) p h =
        let entry = map_entry-Gives fuel (read_map q fuel) (read_map-Gives fuel) in
        search (Gives-if, Gives-next, Gives-pure, entry, h) depth 10

    read_section-Gives :
        (fuel : ℕ) (p : Progress) (token : QString)
        → Kept p
        → Gives KeptSection (read_section q fuel bindings p token)
    unfolding read_section
    read_section-Gives fuel p token h =
        let more : (p' : Progress)
            → p'.spec.query ≡ p.spec.query
            → p'.spec.bindings ≡ p.spec.bindings
            → p'.spec.matched_types ≡ p.spec.matched_types
            → Kept p' =
          λ p' e e' e2. record {
            same_query = e ∙ h.same_query;
            same_bindings = λ m. ap (λ b. binding b m undefined) e' ∙ h.same_bindings m;
            no_types = e2 ∙ h.no_types;
          } in
        let terms : Gives KeptSection
            (read_terms q fuel bindings p [] >>= λ read. pure (closes (add_terms read.0 read.1))) =
          Gives-bind KeptTerms KeptSection _ _ (read_terms-Gives fuel p [] h) (λ read g.
            Gives-pure KeptSection _ (record {
              same_query = g.same_query;
              same_bindings = g.same_bindings;
              no_types = g.no_types;
            })) in
        let map : Gives KeptSection (read_map q fuel p >>= λ p'. pure (closes p')) =
          Gives-bind Kept KeptSection _ _ (read_map-Gives fuel p h)
            (λ p' g. Gives-pure KeptSection _ g) in
        Gives-if KeptSection (is_bracket b'?' token) _ _ terms (
          Gives-if KeptSection (is_bracket b'=' token) _ _
            (Gives-next KeptSection _ _ (λ curly.
              Gives-if KeptSection (not (is_bracket b'{' curly)) _ _ (Gives-pure KeptSection _ h)
                map))
            (Gives-if KeptSection (is_ordering token) _ _
              (Gives-next KeptSection _ _
                (λ name. Gives-pure KeptSection _ (more (add_order p token name) refl refl refl)))
              (Gives-if KeptSection (str_eq token (codes "count")) _ _
                (Gives-pure KeptSection _ (more (set_count p) refl refl refl))
                (search (Gives-if, Gives-pure, h)))))

    close_section-Gives :
        (sections : Progress → Reader Progress)
        → ((p : Progress) → Kept p → Gives Kept (sections p))
        → (section : Section) → KeptSection section
        → Gives Kept (close_section q sections section)
    unfolding close_section
    close_section-Gives sections ih (stops p) h = Gives-pure Kept p h
    close_section-Gives sections ih (closes p) h = Gives-next Kept _ _ (λ close.
        Gives-if Kept (not (is_bracket b']' close)) _ _
          (Gives-pure Kept _ (record {
            same_query = h.same_query;
            same_bindings = h.same_bindings;
            no_types = h.no_types;
          }))
          (ih p h))

    pub read_sections-Gives :
        (fuel : ℕ) (p : Progress)
        → Kept p
        → Gives (Good query bindings) (read_sections q fuel bindings p)
    unfolding read_sections
    read_sections-Gives zero p h = Gives-none _
    read_sections-Gives (suc fuel) p h =
        let rest : (kind : QString)
            → Gives Kept (
                read_section q fuel bindings p kind >>= λ section.
                close_section q (read_sections q fuel bindings) section) =
          λ kind.
            Gives-bind KeptSection Kept _ _ (read_section-Gives fuel p kind h)
              (close_section-Gives _ (read_sections-Gives fuel)) in
        search (rest, Gives-if, Gives-next, Gives-pure, h) depth 10

-- ===== src/Query/Parser/Results.antt =====
-- What parse of src/partition/jsondbqueryparser.cpp leaves: it ends, and its specification carries
-- the query and the bindings.
pub mod Gives
pub mod Kept
pub mod Loops
pub mod Types
use qtjsondb.Prelude.{
  ℕ, zero, suc, ◌≡◌, ◌≢◌, ◌∙◌, ap, sym, subst, refl, Bool, true, false, ◌&&◌, ◌||◌, List, [], ◌∷◌,
  ◌++◌, Option, none, some, is_empty, any, drop, length, arith, not, if◌then◌else◌, Bool-cases, inl,
  inr,
}
use qtjsondb.Qt.Text.{QString, codes, str_eq, str_eq_iff, str_eq_comm, starts_with}
use qtjsondb.Qt.Json.{Value, undefined}
use qtjsondb.Qt.Calls.{QtCalls}
use qtjsondb.Query.Tokenizer.{Tokenizer, new_tokenizer}
use qtjsondb.Query.Term.{
  JsonDbQuery, JsonDbQueryTerm, JsonDbOrQueryTerm, Bindings, has_name, binding, bind, is_undefined,
  new_query, is_empty_query,
}
use qtjsondb.Query.Parser.Reader.{
  Reader, ◌>>=◌, pure, out_of_fuel, push_token, pop_token, next_identifier,
}
use qtjsondb.Query.Parser.Reader.Runs.{Runs, Ends, measure}
use qtjsondb.Query.Parser.Json.{is_bracket}
use qtjsondb.Query.Parser.Terms.{
  Progress, Explanation, Step, adds, breaks, Explanation, begin_term, has_binding, set_field,
  reg_exp_step, value_step, read_reg_exp, read_value, read_operand, next_term, read_terms,
}
use qtjsondb.Query.Parser.Map.{map_entry, read_map}
use qtjsondb.Query.Parser.Sections.{
  Section, closes, stops, read_section, add_terms, is_ordering, add_order, set_count, close_section,
  read_sections,
}
use qtjsondb.Query.Parser.Sections.Total.{read_sections-Runs}
use qtjsondb.Query.Parser.{
  JsonDbQueryParser, start, finish, finished, add_default_order, insert_names, named_types,
  term_types, query_types, parse,
}
use qtjsondb.Query.Parser.Results.Kept.{Carries}
use qtjsondb.Query.Parser.Results.Loops.{read_sections-Gives}
use qtjsondb.Query.Parser.Results.Types.{names_type, has_name-query_types}

-- The specification of a query that is right.
pub record IsSpec (parser : JsonDbQueryParser) (spec : JsonDbQuery) : Type 0 where
  pub same_query : spec.query ≡ parser.query
  pub same_bindings :
      (name : QString)
      → binding spec.bindings name undefined ≡ binding parser.bindings name undefined
  pub not_empty : is_empty_query spec ≡ false
  pub types :
      (name : QString)
      → has_name spec.matched_types name ≡ names_type parser.bindings spec.query_terms name

-- What the parser is left with, by the value that parse returns.
pub record IsResult (parser : JsonDbQueryParser) (r : Bool × JsonDbQueryParser) : Type 0 where
  pub refuses : r.0 ≡ false → r.1.spec ≡ new_query
  pub gives : r.0 ≡ true → IsSpec parser r.1.spec

default_order-IsSpec :
    (parser : JsonDbQueryParser) (spec : JsonDbQuery)
    → spec.query ≡ parser.query
    → ((name : QString)
        → binding spec.bindings name undefined ≡ binding parser.bindings name undefined)
    → ((name : QString)
        → has_name spec.matched_types name ≡ names_type parser.bindings spec.query_terms name)
    → IsSpec parser (add_default_order spec)
unfolding add_default_order
default_order-IsSpec parser spec hq hb ht = elim (Bool-cases (is_empty_query spec)) [
  | inl e ↦ rw e (record {
    same_query = hq;
    same_bindings = hb;
    not_empty = unfold is_empty_query in ground arith;
    types = ht;
  })
  | inr e ↦ rw e (record { same_query = hq; same_bindings = hb; not_empty = e; types = ht })
]

finish-IsResult :
    (parser : JsonDbQueryParser) (p : Progress)
    → Carries parser.query parser.bindings p.spec
    → IsResult parser (finish parser p)
unfolding finish any
finish-IsResult parser p h = elim (Bool-cases p.parse_error) [
  | inl e ↦ rw e (record { refuses = λ h'. refl; gives = λ h'. cc })
  | inr e ↦ rw e (record {
    refuses = λ h'. cc;
    gives = λ h'.
        default_order-IsSpec parser
          (record p.spec {
            matched_types = query_types parser.bindings p.spec.matched_types p.spec.query_terms;
          })
          h.same_query h.same_bindings
          (λ name.
            has_name-query_types parser.bindings p.spec.matched_types p.spec.query_terms name
            ∙ ap (λ ts. has_name ts name || names_type parser.bindings p.spec.query_terms name)
                h.no_types);
  })
]

finished-IsResult :
    (q : QtCalls) (parser : JsonDbQueryParser) (fuel : ℕ) (tk : Tokenizer)
    (o : Option (Progress × Tokenizer))
    → read_sections q fuel parser.bindings (start parser) tk ≡ o
    → Ends (measure tk) o
    → (r : Bool × JsonDbQueryParser) × ((finished parser o ≡ some r) × IsResult parser r)
finished-IsResult q parser fuel tk none e h = absurd h
finished-IsResult q parser fuel tk (some (p, tk')) e h =
    let good =
      (read_sections-Gives parser.query parser.bindings q fuel (start parser)
          (record { same_query = refl; same_bindings = λ m. refl; no_types = refl })).at
        tk p tk' e in
    (finish parser p, (refl, finish-IsResult parser p good))

-- Parsing ends within its fuel, for every text and all bindings. If it returns false, the
-- specification is that of an empty query. If it returns true, the specification has the query; a
-- name is bound in it as it is for the parser; it has terms or an order; and a type is among the
-- matched ones exactly if a term names it.
pub parse-IsResult :
    (q : QtCalls) (parser : JsonDbQueryParser)
    → (r : Bool × JsonDbQueryParser) × ((parse q parser ≡ some r) × IsResult parser r)
unfolding parse
parse-IsResult q parser = elim (Bool-cases (not (starts_with parser.query (b'[' ∷ [])))) [
  | inl e ↦ rw e (
    (false, record parser { spec = new_query }),
    (refl, record { refuses = λ h. refl; gives = λ h. cc }),
  )
  | inr e ↦ rw e (
      finished-IsResult q parser (suc (length parser.query)) (new_tokenizer parser.query) _ refl (
        (read_sections-Runs q (suc (length parser.query)) parser.bindings (start parser)).at
          (new_tokenizer parser.query) (omega arith)))
]

-- ===== src/Partition/Query/Compile/Answers.antt =====
-- src/partition/jsondbpartition.cpp: a term that is compiled into an index query is answered by it as by
-- match.
use qtjsondb.Prelude.{
  ℕ, ◌/◌, ◌≤◌, ◌≡◌, refl, sym, subst, Bool, true, false, ◌&&◌, List, [], ◌∷◌, none, arith, is_empty,
  length, ◌∙◌,
}
use qtjsondb.Qt.Text.{QString}
use qtjsondb.Qt.Json.{Value, null, bool, num, str, arr, obj, undefined, QJsonObject}
use qtjsondb.Qt.Calls.{QtCalls, DoubleLaws}
use qtjsondb.Object.Path.{value_by_path}
use qtjsondb.Query.Term.{
  JsonDbQueryTerm, JsonDbOrQueryTerm, JsonDbQuery, has_property_name, term_value,
}
use qtjsondb.Query.Match.{field_value}
use qtjsondb.Query.Match.Plain.{term_matches}
use qtjsondb.Query.Constraint.{matches}
use qtjsondb.Query.Compile.{IndexQuery, truncate_field_value, compile_or_query_term}
use qtjsondb.Query.Compile.Agrees.{IndexOp, op_text, with_op, matches-compile_or_query_term}
use qtjsondb.Partition.Query.Compile.Narrows.{compile_or_query_term-Narrows}

-- A text that an index does not truncate.
abbrev pub IsShort : ℕ → Value → Type 0
IsShort size (str s) = length s ≤ size / 2
IsShort size v = Unit

truncate_short :
    (size : ℕ) (type : QString) (v : Value) → IsShort size v → truncate_field_value size type v ≡ v
unfolding truncate_field_value
truncate_short size type undefined h = refl
truncate_short size type null h = refl
truncate_short size type (bool b) h = refl
truncate_short size type (num n) h = refl
truncate_short size type (str s) h = ground arith
truncate_short size type (arr xs) h = refl
truncate_short size type (obj fs) h = refl

-- A term of its own that an index answers as match does, if it is compiled.
abbrev pub IsAnswered : ℕ → JsonDbQuery → JsonDbQueryTerm → Type 0
IsAnswered size query t =
    ((o : IndexOp) × (t.op ≡ op_text o))
    × IsShort size (term_value query t)
    × (is_empty t.property_name ≡ false)

-- All of the terms of their own that have no join are answered.
abbrev pub AllAnswered : ℕ → JsonDbQuery → List JsonDbOrQueryTerm → Type 0
AllAnswered size query [] = Unit
AllAnswered size query ((t ∷ []) ∷ more) =
    (is_empty t.join_field ≡ true → IsAnswered size query t) × AllAnswered size query more
AllAnswered size query (terms ∷ more) = AllAnswered size query more

module _ (q : QtCalls) (laws : DoubleLaws q) (size : ℕ) (query : JsonDbQuery)
    (object : QJsonObject) where
  -- The value of the object for an index query matches its constraints.
  abbrev pub passes : IndexQuery → Bool
  passes iq = matches q iq.query_constraints (value_by_path q object iq.property_name)

  plain_field :
      (t : JsonDbQueryTerm)
      → is_empty t.join_field ≡ true
      → is_empty t.property_name ≡ false
      → (field_value q none query t object none).0 ≡ value_by_path q object t.property_name
  unfolding field_value has_property_name
  plain_field t no_join named = rw (no_join, named) refl

  right_of : (a b : Bool) → (a && b) ≡ true → b ≡ true
  right_of true b h = h
  right_of false b h = absurd (cc)

  compiled_op :
      (iq : IndexQuery) (t : JsonDbQueryTerm) (o : IndexOp)
      → iq.query ≡ query
      → iq.property_name ≡ t.property_name
      → is_empty t.join_field ≡ true
      → IsShort size (term_value query (with_op t o))
      → is_empty t.property_name ≡ false
      → passes (compile_or_query_term q size iq (with_op t o)) ≡ true
      → term_matches q query object (with_op t o) ≡ true
  compiled_op iq t o same name no_join short named h =
      let compiled = compile_or_query_term q size iq (with_op t o) in
      let v = value_by_path q object t.property_name in
      let n = compile_or_query_term-Narrows q size iq (with_op t o) in
      let there : matches q compiled.query_constraints v ≡ true =
        subst (λ p. matches q compiled.query_constraints (value_by_path q object p) ≡ true)
          (n.same_name ∙ name) h in
      let whole : truncate_field_value size iq.property_type (term_value iq.query (with_op t o))
          ≡ term_value iq.query (with_op t o) =
        rw same (truncate_short size iq.property_type (term_value query (with_op t o)) short) in
      let met =
        right_of _ _ (sym (matches-compile_or_query_term q laws size iq t o v whole) ∙ there) in
      rw (plain_field (with_op t o) no_join named, ← same) met

  -- A compiled term matches.
  pub compiled_term :
      (iq : IndexQuery) (t : JsonDbQueryTerm)
      → iq.query ≡ query
      → iq.property_name ≡ t.property_name
      → is_empty t.join_field ≡ true
      → IsAnswered size query t
      → passes (compile_or_query_term q size iq t) ≡ true
      → term_matches q query object t ≡ true
  compiled_term iq t same name no_join ((o, e), short, named) =
      subst
        (λ (u : JsonDbQueryTerm).
          IsShort size (term_value query u)
          → passes (compile_or_query_term q size iq u) ≡ true
          → term_matches q query object u ≡ true)
        (λ i. record t { op = sym e i }) (λ s h. compiled_op iq t o same name no_join s named h)
        short

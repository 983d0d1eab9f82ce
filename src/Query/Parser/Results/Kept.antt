-- ===== src/Query/Parser/Results/Kept.antt =====
-- The loops of parse keep the query and the bindings in the specification.
use qtjsondb.Prelude.{
  ◌≡◌, ◌∙◌, ap, sym, refl, Bool, true, false, List, [], ◌∷◌, drop, arith, if◌then◌else◌, Bool-cases,
  inl, inr,
}
use qtjsondb.Qt.Text.{QString, str_eq, str_eq_iff, str_eq_comm, starts_with}
use qtjsondb.Qt.Json.{Value, undefined}
use qtjsondb.Query.Term.{JsonDbQuery, JsonDbQueryTerm, Bindings, binding, bind, is_undefined}
use qtjsondb.Query.Parser.Terms.{
  Progress, Step, adds, breaks, begin_term, set_field, reg_exp_step, value_step, read_reg_exp,
}
use qtjsondb.Query.Parser.Sections.{Section, closes, stops}

-- In the loop, the specification has the query and, looked up by name, the bindings.
pub record Carries (query : QString) (bindings : Bindings) (spec : JsonDbQuery) : Type 0 where
  pub same_query : spec.query ≡ query
  pub same_bindings :
      (name : QString) → binding spec.bindings name undefined ≡ binding bindings name undefined
  pub no_types : spec.matched_types ≡ []

binding-bind :
    (bindings : Bindings) (n : QString) (v : Value) (m : QString)
    → binding (bind bindings n v) m undefined
      ≡ (if str_eq n m then v else binding bindings m undefined)
unfolding binding bind
binding-bind [] n v m = refl
binding-bind ((k, w) ∷ bindings) n v m = elim (Bool-cases (str_eq k n)) [
  | inl h ↦
      let e : str_eq k m ≡ str_eq n m = ap (λ x. str_eq x m) ((str_eq_iff k n).0 h) in
      rw h (rw e (ground arith))
  | inr h ↦ rw h (elim (Bool-cases (str_eq k m)) [
    | inl g ↦
        let ne : str_eq n m ≡ false =
          ap (str_eq n) (sym ((str_eq_iff k m).0 g)) ∙ (str_eq_comm n k ∙ h) in
        rw (g, ne) refl
    | inr g ↦ rw g (binding-bind bindings n v m)
  ])
]

pub bound :
    (bindings spec : Bindings) (n : QString)
    → ((m : QString) → binding spec m undefined ≡ binding bindings m undefined)
    → (m : QString)
    → binding (bind spec n (binding bindings n undefined)) m undefined
      ≡ binding bindings m undefined
bound bindings spec n h m = elim (Bool-cases (str_eq n m)) [
  | inl e ↦ binding-bind spec n _ m ∙ rw (e, (str_eq_iff n m).0 e) refl
  | inr e ↦ binding-bind spec n _ m ∙ rw e (h m)
]

module _ (query : QString) (bindings : Bindings) where
  abbrev pub Good : Progress → Type 0
  Good p = Carries query bindings p.spec

  abbrev pub GoodStep : Step → Type 0
  GoodStep (adds p term) = Good p
  GoodStep (breaks p) = Good p

  abbrev pub GoodSection : Section → Type 0
  GoodSection (closes p) = Good p
  GoodSection (stops p) = Good p

  Good-if : (b : Bool) (p p' : Progress) → Good p → Good p' → Good (if b then p else p')
  Good-if true p p' h h' = h
  Good-if false p p' h h' = h'

  bind-Good :
      (p : Progress) (name : QString)
      → Good p
      → Good (record p {
        spec = record p.spec {
          bindings = bind p.spec.bindings name (binding bindings name undefined);
        };
      })
  bind-Good p name h = record {
    same_query = h.same_query;
    same_bindings = bound bindings p.spec.bindings name h.same_bindings;
    no_types = h.no_types;
  }

  set_field-Good :
      (p : Progress) (term : JsonDbQueryTerm) (field : QString)
      → Good p
      → Good (set_field bindings p term field).0
  unfolding set_field
  set_field-Good p term field h = elim (Bool-cases (starts_with field (b'%' ∷ []))) [
    | inl e ↦ rw e (
        Good-if (is_undefined (binding bindings (drop 1 field) undefined)) p _ h
          (bind-Good p (drop 1 field) h))
    | inr e ↦ rw e h
  ]

  pub begin_term-Good :
      (p : Progress) (join_fields : List QString) (field op : QString)
      → Good p
      → Good (begin_term bindings p join_fields field op).0
  unfolding begin_term
  begin_term-Good p join_fields field op h = set_field-Good p _ field h

  reg_exp_step-Good :
      (p : Progress) (term : JsonDbQueryTerm) (parts : QString × QString × Bool)
      → Good p
      → GoodStep (reg_exp_step p term parts)
  reg_exp_step-Good p term (pattern, modifiers, true) h = h
  reg_exp_step-Good p term (pattern, modifiers, false) h = record {
    same_query = h.same_query;
    same_bindings = h.same_bindings;
    no_types = h.no_types;
  }

  GoodStep-if : (b : Bool) (s s' : Step) → GoodStep s → GoodStep s' → GoodStep (if b then s else s')
  GoodStep-if true s s' h h' = h
  GoodStep-if false s s' h h' = h'

  pub read_reg_exp-Good :
      (p : Progress) (term : JsonDbQueryTerm) (field tvs : QString)
      → Good p
      → GoodStep (read_reg_exp bindings p term field tvs)
  unfolding read_reg_exp
  read_reg_exp-Good p term field tvs h = search (reg_exp_step-Good, GoodStep-if, h) depth 8

  pub value_step-Good :
      (p : Progress) (term : JsonDbQueryTerm) (field token : QString) (v : Value) (ok : Bool)
      → Good p
      → GoodStep (value_step p term field token v ok)
  value_step-Good p term field token v true h = h
  value_step-Good p term field token v false h = h

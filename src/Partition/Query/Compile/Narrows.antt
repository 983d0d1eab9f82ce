-- ===== src/Partition/Query/Compile/Narrows.antt =====
-- src/partition/jsondbindexquery.cpp: compiling a term keeps the constraints that there are.
use qtjsondb.Prelude.{
  ℕ, ◌≡◌, refl, subst, true, ◌||◌, not, [], ◌∷◌, ◌++◌, arith, Bool-cases, inl, inr,
}
use qtjsondb.Qt.Text.{QString, codes, str_eq}
use qtjsondb.Qt.Json.{Value}
use qtjsondb.Qt.Calls.{QtCalls}
use qtjsondb.Query.Term.{JsonDbQueryTerm}
use qtjsondb.Query.Constraint.{QueryConstraint, matches}
use qtjsondb.Query.Compile.{IndexQuery, compile_or_query_term, add_constraint, set_min, set_max}
use qtjsondb.Query.Compile.Agrees.{matches-append}

module _ (q : QtCalls) where
  -- The constraints of one are among those of the other, which is about the same property.
  pub record Narrows (iq jq : IndexQuery) : Type 0 where
    pub keeps :
        (v : Value)
        → matches q jq.query_constraints v ≡ true
        → matches q iq.query_constraints v ≡ true
    pub same_name : jq.property_name ≡ iq.property_name
    pub same_query : jq.query ≡ iq.query

  added_constraint :
      (iq jq : IndexQuery) (c : QueryConstraint)
      → jq.query_constraints ≡ iq.query_constraints ++ c ∷ []
      → jq.property_name ≡ iq.property_name
      → jq.query ≡ iq.query
      → Narrows iq jq
  added_constraint iq jq c e name query = record {
    keeps = λ v h. narrower v (subst (λ cs. matches q cs v ≡ true) e h);
    same_name = name;
    same_query = query;
  }
    where
      narrower :
          (v : Value)
          → matches q (iq.query_constraints ++ c ∷ []) v ≡ true
          → matches q iq.query_constraints v ≡ true
      narrower v h = ground (arith, matches-append q iq.query_constraints c v)

  same-Narrows : (iq : IndexQuery) → Narrows iq iq
  same-Narrows iq = record { keeps = λ v h. h; same_name = refl; same_query = refl }

  pub compile_or_query_term-Narrows :
      (size : ℕ) (iq : IndexQuery) (t : JsonDbQueryTerm)
      → Narrows iq (compile_or_query_term q size iq t)
  unfolding compile_or_query_term add_constraint set_min set_max
  compile_or_query_term-Narrows size iq t =
      let is = λ (o : QString). str_eq t.op o in
      elim (Bool-cases (is (codes ">"))) [
        | inl e ↦ rw e (added_constraint iq _ _ refl refl refl)
        | inr e ↦ rw e (elim (Bool-cases (is (codes ">="))) [
          | inl e ↦ rw e (added_constraint iq _ _ refl refl refl)
          | inr e ↦ rw e (elim (Bool-cases (is (codes "<"))) [
            | inl e ↦ rw e (added_constraint iq _ _ refl refl refl)
            | inr e ↦ rw e (elim (Bool-cases (is (codes "<="))) [
              | inl e ↦ rw e (added_constraint iq _ _ refl refl refl)
              | inr e ↦ rw e (elim (Bool-cases (is (codes "="))) [
                | inl e ↦ rw e (added_constraint iq _ _ refl refl refl)
                | inr e ↦ rw e (elim (Bool-cases (is (codes "=~") || is (codes "!=~"))) [
                  | inl e ↦ rw e (elim (Bool-cases (not t.reg_exp.ignores_case)) [
                    | inl c ↦ rw c (added_constraint iq _ _ refl refl refl)
                    | inr c ↦ rw c (added_constraint iq _ _ refl refl refl)
                  ])
                  | inr e ↦ rw e (elim (Bool-cases (is (codes "!="))) [
                    | inl e ↦ rw e (added_constraint iq _ _ refl refl refl)
                    | inr e ↦ rw e (elim (Bool-cases (is (codes "exists"))) [
                      | inl e ↦ rw e (added_constraint iq _ _ refl refl refl)
                      | inr e ↦ rw e (elim (Bool-cases (is (codes "notExists"))) [
                        | inl e ↦ rw e (added_constraint iq _ _ refl refl refl)
                        | inr e ↦ rw e (elim (Bool-cases (is (codes "in"))) [
                          | inl e ↦ rw e (added_constraint iq _ _ refl refl refl)
                          | inr e ↦ rw e (elim (Bool-cases (is (codes "notIn"))) [
                            | inl e ↦ rw e (added_constraint iq _ _ refl refl refl)
                            | inr e ↦ rw e (elim (Bool-cases (is (codes "startsWith"))) [
                              | inl e ↦ rw e (added_constraint iq _ _ refl refl refl)
                              | inr e ↦ rw e (same-Narrows iq)
                            ])
                          ])
                        ])
                      ])
                    ])
                  ])
                ])
              ])
            ])
          ])
        ])
      ]

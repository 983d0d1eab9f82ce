-- ===== src/Query/Parser/Results/Types.antt =====
-- The types that the terms of a query name.
use qtjsondb.Prelude.{
  ◌≡◌, ◌∙◌, subst, refl, Bool, true, ◌||◌, List, [], ◌∷◌, ◌++◌, any, arith, Bool-cases, inl, inr,
}
use qtjsondb.Qt.Text.{QString, str_eq, str_eq_iff}
use qtjsondb.Query.Term.{JsonDbQueryTerm, JsonDbOrQueryTerm, Bindings, has_name}
use qtjsondb.Query.Parser.{insert_names, named_types, term_types, query_types}

abbrev pub names_type : Bindings → List JsonDbOrQueryTerm → QString → Bool
names_type bindings terms name =
    any (λ oqt. any (λ t. has_name (named_types bindings t) name) oqt) terms

has_name-append :
    (xs ys : List QString) (name : QString)
    → has_name (xs ++ ys) name ≡ (has_name xs name || has_name ys name)
unfolding any
has_name-append [] ys name = refl
has_name-append (x ∷ xs) ys name = ground (arith, has_name-append xs ys name)

has_name-insert_names :
    (types more : List QString) (name : QString)
    → has_name (insert_names types more) name ≡ (has_name types name || has_name more name)
unfolding any insert_names
has_name-insert_names types [] name = ground arith
has_name-insert_names types (n ∷ more) name = elim (Bool-cases (has_name types n)) [
  | inl e ↦ rw e (
      has_name-insert_names types more name ∙ elim (Bool-cases (str_eq n name)) [
        | inl g ↦ rw (g, subst (λ m. has_name types m ≡ true) ((str_eq_iff n name).0 g) e) refl
        | inr g ↦ rw g refl
      ])
  | inr e ↦ rw e (
      has_name-insert_names (types ++ n ∷ []) more name
      ∙ ground (arith, has_name-append types (n ∷ []) name))
]

has_name-term_types :
    (bindings : Bindings) (types : List QString) (oqt : List JsonDbQueryTerm) (name : QString)
    → has_name (term_types bindings types oqt) name
      ≡ (has_name types name || any (λ t. has_name (named_types bindings t) name) oqt)
unfolding any term_types
has_name-term_types bindings types [] name = ground arith
has_name-term_types bindings types (t ∷ oqt) name = ground (
  arith,
  has_name-term_types bindings (insert_names types (named_types bindings t)) oqt name,
  has_name-insert_names types (named_types bindings t) name,
)

pub has_name-query_types :
    (bindings : Bindings) (types : List QString) (terms : List JsonDbOrQueryTerm) (name : QString)
    → has_name (query_types bindings types terms) name
      ≡ (has_name types name || names_type bindings terms name)
unfolding any query_types
has_name-query_types bindings types [] name = ground arith
has_name-query_types bindings types (oqt ∷ terms) name = ground (
  arith,
  has_name-query_types bindings (term_types bindings types oqt) terms name,
  has_name-term_types bindings types oqt name,
)

-- ===== src/Owner/Rules/Unparsed.antt =====
-- The queries that rules set, and what a rule permits that does not parse.
use qtjsondb.Prelude.{
  ◌≡◌, refl, sym, ap, ◌∙◌, Bool, true, false, ◌||◌, List, [], ◌∷◌, ◌++◌, Option, none, some, map,
  any, all_of, not, if◌then◌else◌, Bool-cases, inl, inr, arith,
}
use qtjsondb.Qt.Text.{QString, str_eq, str_eq_iff, str_eq_refl, str_eq_comm}
use qtjsondb.Qt.Json.{QJsonObject, to_string}
use qtjsondb.Qt.Calls.{QtCalls}
use qtjsondb.Query.Term.{JsonDbQuery, new_query}
use qtjsondb.Query.Match.Plain.{match_plain}
use qtjsondb.Query.Parser.{JsonDbQueryParser, parse}
use qtjsondb.Query.Parser.Results.{parse-IsResult}
use qtjsondb.Owner.{
  JsonDbOwner, QueriesByOp, queries_of_op, allowed_queries, allows, is_allowed, subscript,
  type_domain,
}
use qtjsondb.Strings.{type_str}
use qtjsondb.Owner.Rules.{
  set_queries_of_op, set_queries, parse_rule, parser_of, result, rule_bindings, set_allowed_objects,
}

queries_of_op-set_queries_of_op :
    (by_op : QueriesByOp) (op : QString) (queries : List JsonDbQuery) (o : QString)
    → queries_of_op (set_queries_of_op by_op op queries) o
      ≡ (if str_eq op o then queries else queries_of_op by_op o)
unfolding queries_of_op set_queries_of_op
queries_of_op-set_queries_of_op [] op queries o = refl
queries_of_op-set_queries_of_op ((o', old) ∷ more) op queries o = elim (Bool-cases (str_eq o' op)) [
  | inl e ↦
      rw (e, (str_eq_iff o' op).0 e)
        (elim (Bool-cases (str_eq op o)) [ inl g ↦ rw g refl | inr g ↦ rw g refl ])
  | inr e ↦ rw e (
      rw (queries_of_op-set_queries_of_op more op queries o) (elim (Bool-cases (str_eq o' o)) [
        | inl g ↦
            let other : str_eq op o ≡ false =
              ap (str_eq op) (sym ((str_eq_iff o' o).0 g)) ∙ (str_eq_comm op o' ∙ e) in
            rw (g, other) refl
        | inr g ↦ rw g refl
      ]))
]

-- The rules of an operation on a partition are those that were set for it.
allowed_queries-set_queries :
    (rules : List (QString × QueriesByOp)) (partition op : QString) (queries : List JsonDbQuery)
    → allowed_queries (set_queries rules partition op queries) partition op ≡ queries
unfolding allowed_queries set_queries
allowed_queries-set_queries [] partition op queries =
    rw str_eq_refl (queries_of_op-set_queries_of_op [] op queries op ∙ rw str_eq_refl refl)
allowed_queries-set_queries ((p, by_op) ∷ more) partition op queries =
    elim (Bool-cases (str_eq p partition)) [
      | inl e ↦
          rw (e, str_eq_refl)
            (queries_of_op-set_queries_of_op by_op op queries op ∙ rw str_eq_refl refl)
      | inr e ↦ rw (e, e) (allowed_queries-set_queries more partition op queries)
    ]

module _ (q : QtCalls) where
  allows_anything :
      (domain : QString) (object : QJsonObject) → allows q domain object new_query ≡ true
  unfolding allows
  allows_anything domain object = ap (λ r. r.0) (match_plain q _ object) ∙ (unfold all_of in refl)

  any-map :
      {A B : Type 0} (p : B → Bool) (f : A → B) (before : List A) (x : A) (after : List A)
      → p (f x) ≡ true
      → any p (map f (before ++ x ∷ after)) ≡ true
  unfolding any
  any-map p f [] x after h = rw h refl
  any-map p f (y ∷ before) x after h = rw (any-map p f before x after h) (ground arith)

  abbrev verdict : Option (Bool × JsonDbQueryParser) → Bool
  verdict none = true
  verdict (some r) = r.0

  unparsed_rule :
      (parser : JsonDbQueryParser) (left : JsonDbQueryParser)
      → parse q parser ≡ some (false, left)
      → result (parse q parser) ≡ new_query
  unparsed_rule parser left e =
      let (r, (gives, h)) = parse-IsResult q parser in
      ap result gives ∙ h.refuses (ap verdict (sym gives ∙ e))

  -- If one of the rules that are set for an operation on a partition is refused by the parser,
  -- then that operation is allowed on every object of the partition.
  pub is_allowed-set_allowed_objects :
      (owner : JsonDbOwner) (domain owner_id partition op : QString) (before : List QString)
      (query : QString) (after : List QString) (left : JsonDbQueryParser)
      → parse q (parser_of (rule_bindings domain owner_id) query) ≡ some (false, left)
      → (enforce : Bool) (object : QJsonObject)
      → (is_allowed q
          (set_allowed_objects q owner domain owner_id partition op (before ++ query ∷ after))
          enforce
          object
          partition
          op).0
        ≡ true
  unfolding is_allowed set_allowed_objects
  is_allowed-set_allowed_objects owner domain owner_id partition op before query after left e
        enforce object =
      let (t, object') = subscript object type_str in
      let permits = allows q (type_domain (to_string t)) object' in
      let bindings = rule_bindings domain owner_id in
      let here : any permits (
            allowed_queries
              (set_queries owner.allowed_object_queries partition op
                (map (parse_rule q bindings) (before ++ query ∷ after)))
              partition op)
          ≡ true =
        ap (any permits) (
          allowed_queries-set_queries owner.allowed_object_queries partition op
            (map (parse_rule q bindings) (before ++ query ∷ after)))
        ∙ any-map permits (parse_rule q bindings) before query after (
            ap permits (unfold parse_rule in unparsed_rule (parser_of bindings query) left e)
            ∙ allows_anything _ object') in
      elim (Bool-cases (owner.allow_all || not enforce)) [
        | inl a ↦ rw a refl
        | inr a ↦ rw (a, here) refl
      ]

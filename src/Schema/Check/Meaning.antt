-- ===== src/Schema/Check/Meaning.antt =====
-- src/partition/jsondbcheckpoints_p.h: what the checks of a schema say of a value, without the
-- state of the schema that is checked.
use qtjsondb.Prelude.{
  ℕ, ◌+◌, ◌≡◌, refl, Bool, true, ◌&&◌, List, [], ◌∷◌, arith, ◌==◌, if◌then◌else◌, all_of,
}
use qtjsondb.Qt.Text.{QString, str_eq}
use qtjsondb.Schema.Handle.{SchemaCalls, Handle, property, to_items, to_map, property_names}
use qtjsondb.Schema.Compile.{
  Check, properties_check, items_check, required_check, extends_check, ref_check, Checks, no_checks,
  check_and, Properties, no_properties, named, Schema, schema, Schemas, no_schemas, schema_and,
}
use qtjsondb.Schema.Check.{items_from, accepts}

unfoldable pub sum_of {ℓ} : {A : Type ℓ} → (A → ℕ) → List A → ℕ
sum_of f [] = 0
sum_of f (x ∷ xs) = f x + sum_of f xs

pub sum_of_none {ℓ} : {A : Type ℓ} (xs : List A) → sum_of (λ x. 0) xs ≡ 0
unfolding sum_of
sum_of_none [] = refl
sum_of_none (x ∷ xs) = omega (arith, sum_of_none xs)

-- The required checks that are reached: those of the properties that the value has.
unfoldable mutual
  unfolding sum_of property property_names to_map

  pub reached : Check → Handle → ℕ
  reached (properties_check ps) v =
      let object = (to_map v).0 in
      sum_of (λ key. reached_property ps key (property key object)) (property_names object)
  reached (required_check true) v = 1
  reached _ v = 0

  pub reached_checks : Checks → Handle → ℕ
  reached_checks no_checks v = 0
  reached_checks (check_and check cs) v = reached check v + reached_checks cs v

  pub reached_property : Properties → QString → Handle → ℕ
  reached_property no_properties key v = 0
  reached_property (named name cs ps) key v =
      let rest = reached_property ps key v in if str_eq name key then reached_checks cs v else rest

module _ (c : SchemaCalls) where
  unfoldable mutual
    unfolding reached accepts items_from property property_names to_map to_items all_of

    -- Whether a check accepts a value.
    pub holds : Check → Handle → Bool
    holds (properties_check ps) v =
        let (object, ok) = to_map v in
        ok && all_of (λ key. holds_property ps key (property key object)) (property_names object)
    holds (items_check inner) v =
        let (array, ok) = to_items v in
        ok && all_of (λ h. conforms inner h) (items_from array 0 array)
    holds (extends_check ss) v = conforms_all ss v
    holds (ref_check inner) v = conforms inner v
    holds check v = accepts c check v

    pub holds_checks : Checks → Handle → Bool
    holds_checks no_checks v = true
    holds_checks (check_and check cs) v = holds check v && holds_checks cs v

    pub holds_property : Properties → QString → Handle → Bool
    holds_property no_properties key v = true
    holds_property (named name cs ps) key v =
        let rest = holds_property ps key v in if str_eq name key then holds_checks cs v else rest

    -- Every check accepts the value, and every required check is reached, by their number.
    pub conforms : Schema → Handle → Bool
    conforms (schema cs max) v = holds_checks cs v && (reached_checks cs v == max)

    pub conforms_all : Schemas → Handle → Bool
    conforms_all no_schemas v = true
    conforms_all (schema_and inner ss) v = conforms inner v && conforms_all ss v

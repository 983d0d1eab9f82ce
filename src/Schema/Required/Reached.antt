-- ===== src/Schema/Required/Reached.antt =====
-- src/partition/jsondbcheckpoints_p.h: m_requiredCount never exceeds m_maxRequired, and stays below
-- it where an object lacks a property with a required check.
use qtjsondb.Prelude.{
  ℕ, zero, Bool-cases, ◌⊎◌, inl, inr, suc, ◌+◌, ◌≤◌, ◌<◌, ◌≡◌, refl, ◌∙◌, subst, Bool, true, false,
  ◌&&◌, ◌||◌, not, List, [], ◌∷◌, arith, if◌then◌else◌,
}
use qtjsondb.Qt.Text.{QString, str_eq, str_eq_iff}
use qtjsondb.Qt.Json.{Value, obj, Fields, no_fields, field, contains, value, to_object, QJsonObject}
use qtjsondb.Schema.Handle.{
  Handle, map_member, list_item, root_map, property, held, to_map, property_names,
}
use qtjsondb.Schema.Compile.{
  Check, null_check, type_check, properties_check, items_check, required_check, minimum_check,
  maximum_check, exclusive_minimum_check, exclusive_maximum_check, min_items_check, max_items_check,
  min_length_check, max_length_check, pattern_check, format_check, extends_check, ref_check, Checks,
  no_checks, check_and, Properties, no_properties, named,
}
use qtjsondb.Schema.Check.Meaning.{sum_of, sum_of_none, reached, reached_checks, reached_property}
use qtjsondb.Schema.Required.{
  required_in, required_checks, required_properties, required_named, required_below,
  has_unique_keys, fields_unique,
}

unfoldable pub has_name : QString → List QString → Bool
has_name n [] = false
has_name n (x ∷ xs) = str_eq x n || has_name n xs

unfoldable pub names_unique : List QString → Bool
unfolding has_name
names_unique [] = true
names_unique (x ∷ xs) = not (has_name x xs) && names_unique xs

sum_absent :
    (n : QString) (f g : QString → ℕ) (xs : List QString)
    → has_name n xs ≡ false
    → sum_of (λ key. if str_eq n key then f key else g key) xs ≡ sum_of g xs
unfolding sum_of has_name
sum_absent n f g [] h = refl
sum_absent n f g (x ∷ xs) h = ground (arith, sum_absent n f g xs, str_eq_iff n x, str_eq_iff x n)

sum_chosen :
    (n : QString) (f g : QString → ℕ) (k : ℕ)
    → ((key : QString) → f key ≤ k)
    → (xs : List QString) → names_unique xs ≡ true
    → sum_of (λ key. if str_eq n key then f key else g key) xs ≤ k + sum_of g xs
unfolding sum_of names_unique has_name
sum_chosen n f g k p [] u = omega arith
sum_chosen n f g k p (x ∷ xs) u =
    ground (arith, sum_chosen n f g k p xs, sum_absent n f g xs, p x, str_eq_iff n x)

has_name-property_names :
    (k : QString) (o : QJsonObject) → has_name k (property_names o) ≡ contains o k
unfolding has_name property_names contains
has_name-property_names k no_fields = refl
has_name-property_names k (field j v fs) = rw (has_name-property_names k fs)

unique_parts :
    (k : QString) (v : Value) (fs : Fields)
    → fields_unique (field k v fs) ≡ true
    → (contains fs k ≡ false) × (has_unique_keys v ≡ true) × (fields_unique fs ≡ true)
unfolding fields_unique
unique_parts k v fs u = and3 (contains fs k) (has_unique_keys v) (fields_unique fs) u
  where
    and3 : (a b c : Bool) → (not a && (b && c)) ≡ true → (a ≡ false) × (b ≡ true) × (c ≡ true)
    and3 a b c h = ground arith

pub names_unique-property_names :
    (o : QJsonObject) → fields_unique o ≡ true → names_unique (property_names o) ≡ true
unfolding names_unique property_names
names_unique-property_names no_fields u = refl
names_unique-property_names (field k v fs) u =
    let (fresh, _, rest) = unique_parts k v fs u in
    rw (has_name-property_names k fs, fresh, names_unique-property_names fs rest)

value_unique :
    (o : QJsonObject) (k : QString) → fields_unique o ≡ true → has_unique_keys (value o k) ≡ true
unfolding has_unique_keys value
value_unique no_fields k u = refl
value_unique (field j v fs) k u =
    let (_, here, rest) = unique_parts j v fs u in
    chosen (str_eq j k) v (value fs k) here (value_unique fs k rest)
  where
    chosen :
        (b : Bool) (v w : Value)
        → has_unique_keys v ≡ true
        → has_unique_keys w ≡ true
        → has_unique_keys (if b then v else w) ≡ true
    chosen true v w h k = h
    chosen false v w h k = k

-- A handle on a value without a repeated key.
abbrev pub IsUnique : Handle → Type 0
IsUnique v = has_unique_keys (held v) ≡ true

property-IsUnique :
    (key : QString) (o : QJsonObject) → fields_unique o ≡ true → IsUnique (property key o)
unfolding property held has_unique_keys
property-IsUnique [] o u = u
property-IsUnique (a ∷ key) o u = value_unique o (a ∷ key) u

to_object_unique : (v : Value) → has_unique_keys v ≡ true → fields_unique (to_object v) ≡ true
unfolding has_unique_keys
to_object_unique (obj fs) u = u
to_object_unique v u = refl

to_map_unique : (v : Handle) → IsUnique v → fields_unique (to_map v).0 ≡ true
unfolding to_map held has_unique_keys
to_map_unique (map_member name map) u = to_object_unique (value map name) u
to_map_unique (list_item i list) u = to_object_unique (held (list_item i list)) u
to_map_unique (root_map map) u = u

mutual
  unfolding reached reached_checks reached_property required_in required_checks required_properties
      sum_of

  pub reached-le : (check : Check) (v : Handle) → IsUnique v → reached check v ≤ required_in check
  reached-le (properties_check ps) v u =
      let o = (to_map v).0 in
      let unique = to_map_unique v u in
      properties-le ps (λ key. property key o) (property_names o)
        (names_unique-property_names o unique) (λ key. property-IsUnique key o unique)
  reached-le (required_check true) v u = omega arith
  reached-le (required_check false) v u = omega arith
  reached-le null_check v u = omega arith
  reached-le (type_check n) v u = omega arith
  reached-le (items_check n) v u = omega arith
  reached-le (minimum_check n) v u = omega arith
  reached-le (maximum_check n) v u = omega arith
  reached-le (exclusive_minimum_check n) v u = omega arith
  reached-le (exclusive_maximum_check n) v u = omega arith
  reached-le (min_items_check n) v u = omega arith
  reached-le (max_items_check n) v u = omega arith
  reached-le (min_length_check n) v u = omega arith
  reached-le (max_length_check n) v u = omega arith
  reached-le (pattern_check n) v u = omega arith
  reached-le (format_check n) v u = omega arith
  reached-le (extends_check n) v u = omega arith
  reached-le (ref_check n) v u = omega arith

  pub reached_checks-le :
      (cs : Checks) (v : Handle) → IsUnique v → reached_checks cs v ≤ required_checks cs
  reached_checks-le no_checks v u = omega arith
  reached_checks-le (check_and check cs) v u =
      omega (arith, reached-le check v u, reached_checks-le cs v u)

  properties-le :
      (ps : Properties) (h : QString → Handle) (names : List QString)
      → names_unique names ≡ true
      → ((key : QString) → IsUnique (h key))
      → sum_of (λ key. reached_property ps key (h key)) names ≤ required_properties ps
  properties-le no_properties h names u k = omega (arith, sum_of_none names)
  properties-le (named n cs ps) h names u k = omega (
    arith,
    sum_chosen n (λ key. reached_checks cs (h key)) (λ key. reached_property ps key (h key))
        (required_checks cs) (λ key. reached_checks-le cs (h key) (k key)) names u,
    properties-le ps h names u k,
  )

zero_or_more : (n : ℕ) → (n ≡ 0) ⊎ (0 < n)
zero_or_more zero = inl refl
zero_or_more (suc n) = inr (omega arith)

properties-lt :
    (ps : Properties) (name : QString) (h : QString → Handle) (names : List QString)
    → names_unique names ≡ true
    → ((key : QString) → IsUnique (h key))
    → has_name name names ≡ false
    → 0 < required_named ps name
    → sum_of (λ key. reached_property ps key (h key)) names < required_properties ps
unfolding required_named reached_property required_properties
properties-lt no_properties name h names u k absent some = absurd (omega arith)
properties-lt (named n cs ps) name h names u k absent some =
    let f : QString → ℕ = λ key. reached_checks cs (h key) in
    let g : QString → ℕ = λ key. reached_property ps key (h key) in
    let chosen =
      sum_chosen n f g (required_checks cs) (λ key. reached_checks-le cs (h key) (k key)) names u in
    let rest = properties-le ps h names u k in
    elim (Bool-cases (str_eq n name)) [
      | inl e ↦
          let absent' : has_name n names ≡ false = rw ((str_eq_iff n name).0 e) absent in
          let some' : 0 < required_checks cs =
            subst (λ b. 0 < (if b then required_checks cs else required_named ps name)) e some in
          omega (arith, sum_absent n f g names absent', rest, some')
      | inr e ↦
          let some' : 0 < required_named ps name =
            subst (λ b. 0 < (if b then required_checks cs else required_named ps name)) e some in
          omega (arith, chosen, properties-lt ps name h names u k absent some')
    ]

-- A value without a property that has required checks reaches fewer than there are.
pub reached_checks-lt :
    (cs : Checks) (name : QString) (v : Handle)
    → IsUnique v
    → contains (to_map v).0 name ≡ false
    → 0 < required_below cs name
    → reached_checks cs v < required_checks cs
unfolding reached_checks required_checks required_below reached required_in
reached_checks-lt no_checks name v u absent some = absurd (omega arith)
reached_checks-lt (check_and (properties_check ps) cs) name v u absent some =
    let o = (to_map v).0 in
    let unique = to_map_unique v u in
    let names = names_unique-property_names o unique in
    let h : QString → Handle = λ key. property key o in
    elim (zero_or_more (required_named ps name)) [
      | inl e ↦ omega (
        arith,
        e,
        some,
        reached-le (properties_check ps) v u,
        reached_checks-lt cs name v u absent (omega (arith, e, some)),
      )
      | inr more ↦ omega (
        arith,
        properties-lt ps name h (property_names o) names (λ key. property-IsUnique key o unique)
            (has_name-property_names name o ∙ absent) more,
        reached_checks-le cs v u,
      )
    ]
reached_checks-lt (check_and check cs) name v u absent some =
    omega (arith, reached-le check v u, reached_checks-lt cs name v u absent some)

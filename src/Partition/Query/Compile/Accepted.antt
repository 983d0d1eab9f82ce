-- ===== src/Partition/Query/Compile/Accepted.antt =====
-- src/partition/jsondbindexquery.cpp: what a compiled query accepts by the value that it reads from a
-- key of the index matches the query.
use qtjsondb.Prelude.{
  [], ◌∷◌, ◌⊎◌, inl, inr, is_empty, Option, some, ℕ, ◌/◌, ◌^◌, ◌<◌, ◌≤◌, ◌≡◌, refl, ap, subst, true,
  false, List, none, arith, length, ◌∙◌,
}
use qtjsondb.Qt.Text.{QString, split}
use qtjsondb.Object.Version.{uuid}
use qtjsondb.Index.Spec.{JsonDbIndexSpec}
use qtjsondb.Index.Objects.{
  IndexCalls, path_of, index_value, index_values, stored_value, key_of, collated, value_if_any,
}
use qtjsondb.Qt.Json.{Value, undefined, null, bool, num, str, arr, obj, QJsonObject}
use qtjsondb.Qt.Calls.{QtCalls, DoubleLaws}
use qtjsondb.Object.Path.{value_by_path}
use qtjsondb.Query.Term.{JsonDbQuery}
use qtjsondb.Query.Match.{match}
use qtjsondb.Query.Constraint.{matches}
use qtjsondb.Query.Compile.{
  IndexQuery, is_string_type, is_number_type, make_field_value, truncate_field_value,
}
use qtjsondb.Index.Key.{make_forward_key, forward_key_split}
use qtjsondb.Index.Key.RoundTrip.{IsKeyValue, forward_key_split-make_forward_key}
use qtjsondb.Partition.Query.Compile.{Indexes, compile_index_query}
use qtjsondb.Partition.Query.Compile.Answers.{AllAnswered}
use qtjsondb.Partition.Query.Compile.Sound.{passes_sound}

-- A value that an index of a type keeps as it is: a text that is not truncated for texts, and a
-- number for numbers.
abbrev pub IsKept : ℕ → QString → Value → Type 0
IsKept size type (str s) = (is_string_type type ≡ true) × (length s ≤ size / 2)
IsKept size type (num d) = (is_string_type type ≡ false) × (is_number_type type ≡ true)
IsKept size type v = ⊥

abbrev pub IsOneOf : Value → List Value → Type 0
IsOneOf u [] = ⊥
IsOneOf u (v ∷ vs) = (u ≡ v) ⊎ IsOneOf u vs

only_one : (u v : Value) → IsOneOf u (v ∷ []) → u ≡ v
only_one u v (inl e) = e
only_one u v (inr h) = absurd h

-- An index for an index query that has the values of its property as they are.
pub record IsIndexOf (spec : JsonDbIndexSpec) (iq : IndexQuery) : Type 0 where
  pub same_name : spec.property_name ≡ iq.property_name
  pub same_type : spec.property_type ≡ iq.property_type
  pub no_function : is_empty spec.property_function ≡ true
  pub no_star : path_of (split b'.' spec.property_name) ≡ (split b'.' spec.property_name, false)
  pub case_sensitive : spec.is_case_sensitive ≡ true
  pub no_collation : is_empty spec.collation ≡ true

module _ (q : QtCalls) (calls : IndexCalls) (size : ℕ) where
  stored_value_lem :
      (spec : JsonDbIndexSpec) (v : Value)
      → IsKept size spec.property_type v
      → stored_value q calls size spec v ≡ v
  unfolding make_field_value truncate_field_value
  stored_value_lem spec (str s) (e, short) = rw e (ground arith)
  stored_value_lem spec (num d) (e, number) = rw (e, number) refl
  stored_value_lem spec undefined h = absurd h
  stored_value_lem spec null h = absurd h
  stored_value_lem spec (bool b) h = absurd h
  stored_value_lem spec (arr xs) h = absurd h
  stored_value_lem spec (obj fs) h = absurd h

  collated_lem :
      (spec : JsonDbIndexSpec) (key : Option (QString → List ℕ)) (s plain : QString)
      → is_empty spec.collation ≡ true
      → collated q calls size spec key s plain ≡ plain
  collated_lem spec none s plain h = refl
  collated_lem spec (some key) s plain h = rw h refl

  -- A value that is kept is indexed, and as it is.
  value_if_any_lem :
      (spec : JsonDbIndexSpec) (v u : Value)
      → IsKept size spec.property_type v
      → spec.is_case_sensitive ≡ true
      → is_empty spec.collation ≡ true
      → IsOneOf u (value_if_any q calls size spec v)
      → u ≡ v
  unfolding index_value
  value_if_any_lem spec (str s) u kept c h =
      λ m. only_one u _ m ∙ ap str (collated_lem spec calls.sort_key s _ h ∙ rw c refl)
  value_if_any_lem spec (num d) u kept c h = λ m. only_one u (num d) m
  value_if_any_lem spec undefined u kept c h = absurd kept
  value_if_any_lem spec null u kept c h = absurd kept
  value_if_any_lem spec (bool b) u kept c h = absurd kept
  value_if_any_lem spec (arr xs) u kept c h = absurd kept
  value_if_any_lem spec (obj fs) u kept c h = absurd kept

  -- The value that such an index has for an object is that of the property.
  index_values_lem :
      (spec : JsonDbIndexSpec) (iq : IndexQuery) (object : QJsonObject) (u : Value)
      → IsIndexOf spec iq
      → IsKept size spec.property_type (value_by_path q object spec.property_name)
      → IsOneOf u (index_values q calls size spec object)
      → u ≡ value_by_path q object spec.property_name
  unfolding index_values value_by_path
  index_values_lem spec iq object u same kept =
      rw (same.no_function, same.no_star)
        (value_if_any_lem spec (value_by_path q object spec.property_name) u kept
          same.case_sensitive same.no_collation)

  -- The value that is read from the key of an object for one of its values.
  abbrev pub read_value : Value → JsonDbIndexSpec → Value → ℕ → Value
  read_value old spec u k = (forward_key_split old (key_of q calls size spec k u)).0

  -- If comparing doubles is symmetric, let each term of the query that stands alone and has no
  -- join name a property, have an operator that an index query has a constraint for, and have
  -- no text that an index truncates. Let an index be on the property of the index query, of its
  -- type, case sensitive, and without a function, a star and a collation. Let the object's
  -- value for the property be of the type of the index, a number or a text that is not
  -- truncated, and one that a key keeps, and let its uuid have 16 bytes. If the value that is
  -- read from a key that the index has for the object matches the constraints of the index
  -- query, and the object matches the residual query, then it matches the query. An index query
  -- by uuid does not read its values from such keys; joined objects are not fetched.
  pub compile_index_query_accepted :
      (laws : DoubleLaws q) (views : List QString) (indexes : Indexes) (query : JsonDbQuery)
      (spec : JsonDbIndexSpec) (object : QJsonObject) (old u : Value)
      → AllAnswered size query query.query_terms
      → let r = compile_index_query q size views indexes query in
        let v = value_by_path q object r.index_query.property_name in
        IsIndexOf spec r.index_query
        → IsKept size r.index_query.property_type v
        → IsKeyValue v
        → uuid q object < 256 ^ 16
        → IsOneOf u (index_values q calls size spec object)
        → matches q r.index_query.query_constraints (read_value old spec u (uuid q object)) ≡ true
        → (match q none r.filter.residual_query object none).0 ≡ true
        → (match q none query object none).0 ≡ true
  compile_index_query_accepted laws views indexes query spec object old u answered same kept key
        small indexed met residual =
      let iq = (compile_index_query q size views indexes query).index_query in
      let v = value_by_path q object iq.property_name in
      let k = uuid q object in
      let kept' : IsKept size spec.property_type v = rw same.same_type kept in
      let is_v : u ≡ v =
        index_values_lem spec iq object u same (rw same.same_name kept') indexed
        ∙ ap (value_by_path q object) same.same_name in
      let stored : stored_value q calls size spec u ≡ v = rw is_v (stored_value_lem spec v kept') in
      let read : read_value old spec u k ≡ v =
        ap (λ w. (forward_key_split old (make_forward_key w k)).0) stored
        ∙ ap (λ p. p.0) (forward_key_split-make_forward_key old v k key small) in
      passes_sound q laws size views indexes query object answered residual
        (subst (λ w. matches q iq.query_constraints w ≡ true) read met)

-- ===== src/Query/Compile.antt =====
-- src/partition/jsondbindexquery.cpp: what an index query is told by the terms on its property, and
-- the values of an index, of src/partition/jsondbindex.cpp. The setting indexFieldValueSize is an
-- argument.
pub mod Agrees
use qtjsondb.Prelude.{
  ℕ, ◌/◌, Bool, true, false, ◌&&◌, ◌||◌, List, [], ◌∷◌, ◌++◌, Option, none, some, ℤ, pos, is_empty,
  if◌then◌else◌, not, ltb, length, take, ◌==◌,
}
use qtjsondb.Qt.Text.{QString, codes, str_eq}
use qtjsondb.Qt.Json.{
  Value, Items, undefined, null, bool, num, str, arr, obj, no_items, item, QJsonArray, to_string,
  to_array,
}
use qtjsondb.Qt.Calls.{QtCalls, QRegExp}
use qtjsondb.Strings.{uuid_str}
use qtjsondb.Query.Term.{JsonDbQueryTerm, JsonDbQuery, term_value}
use qtjsondb.Query.Constraint.{
  QueryConstraint, gt, ge, lt, le, eq, ne, exists, not_exists, is_in, not_in, begins_with, reg_exp,
}

abbrev pub is_string_type : QString → Bool
is_string_type type = is_empty type || str_eq type (codes "string")

abbrev pub is_number_type : QString → Bool
is_number_type type = str_eq type (codes "number") || str_eq type (codes "integer")

-- truncateFieldValue, with the setting indexFieldValueSize.
unfoldable pub truncate_field_value : ℕ → QString → Value → Value
truncate_field_value size type (str s) =
    let max_size = size / 2 in
    if is_string_type type && ltb max_size (length s) then str (take max_size s) else str s
truncate_field_value size type v = v

-- The characters before which the prefix of a wildcard pattern ends: * ? [ ] and the backslash.
unfoldable pub is_wild : ℕ → Bool
is_wild c = (c == b'*') || ((c == b'?') || ((c == b'[') || ((c == b']') || (c == 92))))

-- cap(1) of the expression ([^*?\[\]\\]+).* at a pattern, and empty where it does not match.
unfoldable pub wildcard_prefix : QString → QString
wildcard_prefix [] = []
wildcard_prefix (c ∷ s) = let rest = wildcard_prefix s in if is_wild c then [] else c ∷ rest

abbrev pub in_constraint : QJsonArray → QueryConstraint
in_constraint (v ∷ []) = eq v
in_constraint vs = is_in vs

-- The members of JsonDbIndexQuery that compiling a term reads or writes.
pub record IndexQuery : Type 0 where
  pub property_name : QString
  pub property_type : QString
  pub min_value : Value
  pub max_value : Value
  pub query_constraints : List QueryConstraint
  pub query : JsonDbQuery

unfoldable pub add_constraint : IndexQuery → QueryConstraint → IndexQuery
add_constraint iq c = record iq { query_constraints = iq.query_constraints ++ c ∷ [] }

module _ (q : QtCalls) (size : ℕ) where
  abbrev number_of_text : QString → Option ℕ → Option ℤ → Value
  number_of_text s (some d) i = num d
  number_of_text s none (some i) = num (q.double_of_int i)
  number_of_text s none none = undefined

  -- The value that an index of this type has for a value: an array of one element gives that of
  -- its element.
  unfoldable pub make_field_value : Value → QString → Value
  make_field_value null type =
      if is_string_type type
      then str (codes "null")
      else if is_number_type type
      then num (q.double_of_int (pos 0))
      else undefined
  make_field_value (bool b) type =
      if is_string_type type
      then str (if b then codes "true" else codes "false")
      else if is_number_type type
      then num (q.double_of_int (if b then pos 1 else pos 0))
      else undefined
  make_field_value (num d) type =
      if is_string_type type
      then str (q.number_of_double d)
      else if is_number_type type
      then num d
      else undefined
  make_field_value (str s) type =
      if is_string_type type
      then str s
      else if is_number_type type
      then number_of_text s (q.to_double s) (q.to_int s)
      else undefined
  make_field_value (arr (item v no_items)) type =
      let inner = make_field_value v type in
      if is_string_type type || is_number_type type then inner else undefined
  make_field_value _ type = undefined

  abbrev bound : IndexQuery → Value → Value
  bound iq v =
      let made = make_field_value v iq.property_type in
      if not (str_eq iq.property_name uuid_str)
      then truncate_field_value size iq.property_type made
      else made

  unfoldable pub set_min : IndexQuery → Value → IndexQuery
  unfolding make_field_value truncate_field_value
  set_min iq v = record iq { min_value = bound iq v }

  unfoldable pub set_max : IndexQuery → Value → IndexQuery
  unfolding make_field_value truncate_field_value
  set_max iq v = record iq { max_value = bound iq v }

  -- compileOrQueryTerm
  unfoldable pub compile_or_query_term : IndexQuery → JsonDbQueryTerm → IndexQuery
  compile_or_query_term iq t =
      let is = λ (o : QString). str_eq t.op o in
      let whole = term_value iq.query t in
      let field =
        if not (str_eq iq.property_name uuid_str)
        then truncate_field_value size iq.property_type whole
        else whole in
      let re = add_constraint iq (reg_exp t.reg_exp (not (is (codes "=~")))) in
      let prefix = if t.reg_exp.is_wildcard then wildcard_prefix t.reg_exp.pattern else [] in
      if is (codes ">")
      then set_min (add_constraint iq (gt field)) field
      else if is (codes ">=")
      then set_min (add_constraint iq (ge field)) field
      else if is (codes "<")
      then set_max (add_constraint iq (lt field)) field
      else if is (codes "<=")
      then set_max (add_constraint iq (le field)) field
      else if is (codes "=")
      then set_max (set_min (add_constraint iq (eq field)) field) field
      else if is (codes "=~") || is (codes "!=~")
      then (if not t.reg_exp.ignores_case
          then set_max (set_min re (str prefix)) (str prefix)
          else re)
      else if is (codes "!=")
      then add_constraint iq (ne field)
      else if is (codes "exists")
      then add_constraint iq exists
      else if is (codes "notExists")
      then add_constraint iq not_exists
      else if is (codes "in")
      then add_constraint iq (in_constraint (to_array whole))
      else if is (codes "notIn")
      then add_constraint iq (not_in (to_array whole))
      else if is (codes "startsWith")
      then add_constraint iq (begins_with (to_string whole))
      else iq

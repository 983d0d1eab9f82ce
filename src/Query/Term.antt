-- ===== src/Query/Term.antt =====
-- src/partition/jsondbquery.h and jsondbquery.cpp: the terms of a query. The member mFieldPath,
-- which nothing reads, is left out.
use qtjsondb.Prelude.{
  Bool, true, false, ◌&&◌, ◌||◌, List, [], ◌∷◌, ◌++◌, map, any, is_empty, if◌then◌else◌, not, ◌==◌,
}
use qtjsondb.Qt.Text.{QString, codes, str_eq, split}
use qtjsondb.Qt.Json.{Value, undefined}
use qtjsondb.Qt.Calls.{QRegExp}

pub record JsonDbQueryTerm : Type 0 where
  pub property_variable : QString
  pub property_name : QString
  pub variable : QString
  pub value : Value
  pub reg_exp : QRegExp
  pub op : QString
  pub join_field : QString
  pub join_paths : List (List QString)

abbrev pub no_reg_exp : QRegExp
no_reg_exp = record { pattern = []; is_wildcard = false; ignores_case = false }

-- A term as its constructor leaves it.
abbrev pub new_term : JsonDbQueryTerm
new_term = record {
  property_variable = [];
  property_name = [];
  variable = [];
  value = undefined;
  reg_exp = no_reg_exp;
  op = [];
  join_field = [];
  join_paths = [];
}

unfoldable pub has_property_name : JsonDbQueryTerm → Bool
has_property_name t = not (is_empty t.property_name)

abbrev pub is_undefined : Value → Bool
is_undefined undefined = true
is_undefined _ = false

unfoldable pub has_value : JsonDbQueryTerm → Bool
has_value t = not (is_undefined t.value)

abbrev cons_part : QString → List QString → List QString
cons_part part parts = part ∷ parts

-- split("->"), given the unit before the rest of the text.
unfoldable pub split_arrow : QString → QString → List QString
split_arrow part [] = part ∷ []
split_arrow part (c ∷ []) = (part ++ c ∷ []) ∷ []
split_arrow part (c ∷ d ∷ s) =
    let after = split_arrow [] s in
    let within = split_arrow (part ++ c ∷ []) (d ∷ s) in
    if (c == b'-') && (d == b'>') then part ∷ after else within

unfoldable pub set_join_field : JsonDbQueryTerm → QString → JsonDbQueryTerm
unfolding split_arrow split
set_join_field t join_field =
    if is_empty join_field then record t { join_field = join_field } else record t {
      join_field = join_field;
      join_paths = map (split b'.') (split_arrow [] join_field);
    }

abbrev pub JsonDbOrQueryTerm : Type 0
JsonDbOrQueryTerm = List JsonDbQueryTerm

abbrev pub has_name : List QString → QString → Bool
has_name names name = any (λ n. str_eq n name) names

unfoldable pub add_names : List QString → JsonDbOrQueryTerm → List QString
add_names names [] = names
add_names names (t ∷ terms) =
    add_names (if has_name names t.property_name then names else names ++ t.property_name ∷ [])
      terms

-- propertyNames()
unfoldable pub property_names : JsonDbOrQueryTerm → List QString
unfolding add_names
property_names terms = add_names [] terms

-- There is no value to index, or the index has no array values.
unfoldable pub is_unindexable_op : QString → Bool
is_unindexable_op op =
    str_eq op (codes "notExists")
    || (str_eq op (codes "contains") || str_eq op (codes "notContains"))

unfoldable pub add_unindexable : QString → List QString → JsonDbOrQueryTerm → List QString
add_unindexable first names [] = names
add_unindexable first names (t ∷ terms) =
    let by_op =
      if is_unindexable_op t.op && not (has_name names t.property_name)
      then names ++ t.property_name ∷ []
      else names in
    add_unindexable first
      (if not (str_eq t.property_name first) then by_op ++ t.property_name ∷ [] else by_op) terms

abbrev pub first_name : JsonDbOrQueryTerm → QString
first_name [] = []
first_name (t ∷ terms) = t.property_name

-- findUnindexablePropertyNames()
unfoldable pub find_unindexable_property_names : JsonDbOrQueryTerm → List QString
unfolding add_unindexable is_unindexable_op
find_unindexable_property_names terms = add_unindexable (first_name terms) [] terms

pub record JsonDbOrderTerm : Type 0 where
  pub property_name : QString
  pub ascending : Bool

-- A QMap from names to values.
abbrev pub Bindings : Type 0
Bindings = List (QString × Value)

pub record JsonDbQuery : Type 0 where
  pub query_terms : List JsonDbOrQueryTerm
  pub order_terms : List JsonDbOrderTerm
  pub query : QString
  pub map_expression_list : List QString
  pub map_key_list : List QString
  pub aggregate_operation : QString
  pub bindings : Bindings
  pub matched_types : List QString

-- A query as its constructor leaves it.
abbrev pub new_query : JsonDbQuery
new_query = record {
  query_terms = [];
  order_terms = [];
  query = [];
  map_expression_list = [];
  map_key_list = [];
  aggregate_operation = [];
  bindings = [];
  matched_types = [];
}

unfoldable pub is_empty_query : JsonDbQuery → Bool
is_empty_query query = is_empty query.query_terms && is_empty query.order_terms

abbrev first_ascending : List JsonDbOrderTerm → Bool
first_ascending [] = true
first_ascending (t ∷ terms) = t.ascending

unfoldable pub is_ascending : JsonDbQuery → Bool
is_ascending query = first_ascending query.order_terms

-- QMap::value with a default, and QMap::insert.
unfoldable pub binding : Bindings → QString → Value → Value
binding [] name default = default
binding ((n, v) ∷ bindings) name default =
    if str_eq n name then v else binding bindings name default

unfoldable pub bind : Bindings → QString → Value → Bindings
bind [] name v = (name, v) ∷ []
bind ((n, w) ∷ bindings) name v =
    let rest = bind bindings name v in if str_eq n name then (name, v) ∷ bindings else (n, w) ∷ rest

unfoldable pub term_value : JsonDbQuery → JsonDbQueryTerm → Value
unfolding has_value binding
term_value query t = if has_value t then t.value else binding query.bindings t.variable undefined

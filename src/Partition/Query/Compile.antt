-- ===== src/Partition/Query/Compile.antt =====
-- src/partition/jsondbpartition.cpp: compileIndexQuery, which chooses the index that a query scans and
-- leaves to the residual query what the index does not answer. The indexes of the partition's own
-- table and of those of the views are an argument: the type of the property of an index by its
-- name. updateView, which writes the table of a view, and indexCandidate, which nothing reads, are
-- left out; an index has a name.
pub mod Narrows
pub mod Answers
pub mod Sound
pub mod Accepted
use qtjsondb.Prelude.{
  ℕ, Bool, true, false, ◌&&◌, ◌||◌, List, [], ◌∷◌, ◌++◌, Option, none, some, is_empty,
  if◌then◌else◌, not, ◌==◌, length,
}
use qtjsondb.Qt.Text.{QString, codes, str_eq}
use qtjsondb.Qt.Json.{undefined, QJsonArray, to_string, to_array}
use qtjsondb.Qt.Calls.{QtCalls}
use qtjsondb.Strings.{uuid_str, type_str}
use qtjsondb.Query.Term.{
  JsonDbQueryTerm, JsonDbOrQueryTerm, JsonDbOrderTerm, JsonDbQuery, new_query, has_name,
  property_names, find_unindexable_property_names, term_value, set_join_field,
}
use qtjsondb.Query.Compile.{IndexQuery, compile_or_query_term}
use qtjsondb.Query.Scan.{Filter}

-- table->index(name) of a view's table, or of the partition's own: the propertyType of its spec.
abbrev pub Indexes : Type 0
Indexes = Option QString → QString → Option QString

-- The index query, if there is one, and what the residual query has.
pub record Compiling : Type 0 where
  pub index_query : Option IndexQuery
  pub residual_terms : List JsonDbOrQueryTerm
  pub residual_order : List JsonDbOrderTerm

pub record Compiled : Type 0 where
  pub index_query : IndexQuery
  pub filter : Filter
  pub view : Option QString

abbrev pub is_some_type : Option QString → Bool
is_some_type none = false
is_some_type (some t) = true

abbrev type_or_empty : Option QString → QString
type_or_empty none = []
type_or_empty (some t) = t

-- JsonDbIndexQuery::indexQuery: a query by uuid has strings.
abbrev pub new_index_query : JsonDbQuery → QString → Option QString → IndexQuery
new_index_query query name type = record {
  property_name = name;
  property_type = if str_eq name uuid_str then codes "string" else type_or_empty type;
  min_value = undefined;
  max_value = undefined;
  query_constraints = [];
  query = query;
}

abbrev add_type : List QString → QString → List QString
add_type types t = if has_name types t then types else types ++ t ∷ []

unfoldable pub add_items : List QString → QJsonArray → List QString
add_items types [] = types
add_items types (v ∷ vs) = add_items (add_type types (to_string v)) vs

unfoldable pub intersect : List QString → List QString → List QString
intersect [] types = []
intersect (n ∷ names) types =
    let rest = intersect names types in if has_name types n then n ∷ rest else rest

abbrev narrow : List QString → Option (List QString) → List QString
narrow names none = names
narrow names (some types) =
    if is_empty names || is_empty (intersect names types) then types else intersect names types

-- The type of a view, if it is the only one.
abbrev pub view_of : List QString → List QString → Option QString → Option QString
view_of views (name ∷ []) view = if has_name views name then some name else view
view_of views _ view = view

-- The names of all disjunctions for which no index can be used.
unfoldable pub unindexable_names : List JsonDbOrQueryTerm → List QString
unindexable_names [] = []
unindexable_names (terms ∷ more) = find_unindexable_property_names terms ++ unindexable_names more

module _ (q : QtCalls) (size : ℕ) (views : List QString) (indexes : Indexes)
    (query : JsonDbQuery) where
  -- The types of the other terms of a disjunction, the first of which is about equality.
  unfoldable pub equal_types : List QString → JsonDbOrQueryTerm → List QString
  equal_types types [] = types
  equal_types types (t ∷ terms) =
      equal_types
        (if str_eq t.property_name type_str && str_eq t.op (codes "=")
          then add_type types (to_string (term_value query t))
          else types)
        terms

  -- The types that a disjunction about _type allows.
  unfoldable pub types_named : JsonDbQueryTerm → JsonDbOrQueryTerm → Option (List QString)
  unfolding equal_types add_items
  types_named t terms =
      if not (str_eq t.property_name type_str)
      then none
      else if str_eq t.op (codes "=")
      then some (equal_types (to_string (term_value query t) ∷ []) terms)
      else if str_eq t.op (codes "in")
      then some (add_items [] (to_array (term_value query t)))
      else none

  -- The first pass: typeNames and the view.
  unfoldable pub name_types :
      List JsonDbOrQueryTerm → List QString → Option QString → List QString × Option QString
  unfolding types_named intersect property_names
  name_types [] names view = (names, view)
  name_types ([] ∷ more) names view = name_types more names view
  name_types ((t ∷ terms) ∷ more) names view =
      let is_one = length (property_names (t ∷ terms)) == 1 in
      name_types more (if is_one then narrow names (types_named t terms) else names)
        (if is_one then view_of views names view else view)

  abbrev pub leave_order : Compiling → JsonDbOrderTerm → Compiling
  leave_order c t = record c { residual_order = c.residual_order ++ t ∷ [] }

  abbrev pub order_found :
      Compiling → Option IndexQuery → Option QString → JsonDbOrderTerm → Compiling
  order_found c none type t = record c {
    index_query = some (new_index_query query t.property_name type);
  }
  order_found c (some iq) type t =
      if not (str_eq iq.property_name t.property_name) then leave_order c t else c

  -- The loop over the order terms.
  unfoldable pub compile_order :
      Option QString → List QString → List JsonDbOrderTerm → Compiling → Compiling
  compile_order view unindexable [] c = c
  compile_order view unindexable (t ∷ terms) c =
      let type = indexes view t.property_name in
      compile_order view unindexable terms (
        if not (is_some_type type) || has_name unindexable t.property_name
        then leave_order c t
        else order_found c c.index_query type t)

  abbrev pub leave_terms : Compiling → JsonDbOrQueryTerm → Compiling
  leave_terms c terms = record c { residual_terms = c.residual_terms ++ terms ∷ [] }

  -- The term that an index can answer of a term with a join, which is residual itself.
  unfoldable pub without_join : JsonDbQueryTerm → JsonDbQueryTerm
  unfolding set_join_field
  without_join t =
      if is_empty t.join_field
      then t
      else set_join_field (record t { property_name = t.join_field; op = codes "exists" }) []

  abbrev pub after_join : Compiling → JsonDbQueryTerm → Compiling
  after_join c t = if is_empty t.join_field then c else leave_terms c (t ∷ [])

  abbrev pub compiled_into : Compiling → IndexQuery → JsonDbQueryTerm → Compiling
  compiled_into c iq t = record c { index_query = some (compile_or_query_term q size iq t) }

  -- A term of its own, given what the index query is. `whole` is the term with its join.
  unfoldable pub compile_single :
      Option QString
      → List QString
      → JsonDbQueryTerm
      → JsonDbQueryTerm
      → Compiling
      → Option IndexQuery
      → Compiling
  compile_single view unindexable whole t c (some iq) =
      if not (is_some_type (indexes view t.property_name))
        || not (str_eq iq.property_name t.property_name)
      then leave_terms c (t ∷ [])
      else compiled_into c iq t
  compile_single view unindexable whole t c none =
      let type = indexes view t.property_name in
      if not (is_some_type type)
      then leave_terms c (t ∷ [])
      else if not (str_eq t.property_name type_str) && not (has_name unindexable t.property_name)
      then compiled_into c (new_index_query query t.property_name type) t
      else leave_terms c (whole ∷ [])

  -- The loop over the disjunctions.
  unfoldable pub compile_terms :
      Option QString → List QString → List JsonDbOrQueryTerm → Compiling → Compiling
  unfolding compile_single without_join
  compile_terms view unindexable [] c = c
  compile_terms view unindexable ((t ∷ []) ∷ more) c =
      let c' = after_join c t in
      compile_terms view unindexable more
        (compile_single view unindexable t (without_join t) c' c'.index_query)
  compile_terms view unindexable (terms ∷ more) c =
      compile_terms view unindexable more (leave_terms c terms)

  -- The first term of its own about _type is compiled.
  unfoldable pub compile_type : List JsonDbOrQueryTerm → IndexQuery → IndexQuery
  compile_type [] iq = iq
  compile_type ((t ∷ []) ∷ more) iq =
      let rest = compile_type more iq in
      if str_eq t.property_name type_str then compile_or_query_term q size iq t else rest
  compile_type (terms ∷ more) iq = compile_type more iq

  abbrev is_view : List QString → Bool
  is_view (name ∷ []) = has_name views name
  is_view _ = false

  -- The index query where no term has chosen one.
  unfoldable pub default_query : List QString → Option QString → IndexQuery
  unfolding compile_type
  default_query names view =
      let by_type =
        compile_type query.query_terms (new_index_query query type_str (indexes view type_str)) in
      if is_empty names || is_view names
      then new_index_query query uuid_str (indexes (view_of views names view) uuid_str)
      else by_type

  abbrev pub or_default : Option IndexQuery → List QString → Option QString → IndexQuery
  or_default none names view = default_query names view
  or_default (some iq) names view = iq

  abbrev pub residual_of : List JsonDbOrQueryTerm → List JsonDbOrderTerm → JsonDbQuery
  residual_of terms order = record new_query {
    query_terms = terms;
    order_terms = order;
    query = query.query;
    bindings = query.bindings;
  }

  -- compileIndexQuery
  unfoldable pub compile_index_query : Compiled
  unfolding name_types unindexable_names compile_order compile_terms default_query
  compile_index_query =
      let (names, view') = name_types query.query_terms [] none in
      let view = view_of views names view' in
      let unindexable = unindexable_names query.query_terms in
      let c = compile_terms view unindexable query.query_terms (
        compile_order view unindexable query.order_terms
          (record { index_query = none; residual_terms = []; residual_order = [] })) in
      record {
        index_query = or_default c.index_query names view;
        filter = record {
          type_names = names;
          residual_query = residual_of c.residual_terms c.residual_order;
        };
        view = view;
      }

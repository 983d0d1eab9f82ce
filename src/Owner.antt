-- ===== src/Owner.antt =====
-- src/partition/jsondbowner.cpp: what the owner of a connection may do with an object.
pub mod Allowed
pub mod Rules
pub mod Capabilities
mod Tests
use qtjsondb.Prelude.{
  ℕ, ◌<◌, Bool, true, false, ◌&&◌, ◌||◌, List, [], ◌∷◌, ◌++◌, Option, none, some, any, is_empty,
  if◌then◌else◌, not, ltb, length, ◌==◌,
}
use qtjsondb.Qt.Text.{QString, codes, str_eq, split, has_unit}
use qtjsondb.Qt.Json.{Value, null, str, QJsonObject, to_string, value, contains, insert}
use qtjsondb.Qt.Calls.{QtCalls}
use qtjsondb.Strings.{type_str}
use qtjsondb.Query.Term.{JsonDbQuery, bind}
use qtjsondb.Query.Match.{match}

-- A QMap from partitions to a QMap from operations to queries.
abbrev pub QueriesByOp : Type 0
QueriesByOp = List (QString × List JsonDbQuery)

pub record JsonDbOwner : Type 0 where
  pub allow_all : Bool
  pub allowed_object_queries : List (QString × QueriesByOp)

unfoldable pub queries_of_op : QueriesByOp → QString → List JsonDbQuery
queries_of_op [] op = []
queries_of_op ((o, queries) ∷ more) op = if str_eq o op then queries else queries_of_op more op

-- mAllowedObjectQueries[partition][op], empty where a key is missing.
unfoldable pub allowed_queries : List (QString × QueriesByOp) → QString → QString → List JsonDbQuery
unfolding queries_of_op
allowed_queries [] partition op = []
allowed_queries ((p, by_op) ∷ more) partition op =
    if str_eq p partition then queries_of_op by_op op else allowed_queries more partition op

-- The non-const operator [] of an object: a missing key is added with the value Null.
unfoldable pub subscript : QJsonObject → QString → Value × QJsonObject
subscript o k = if contains o k then (value o k, o) else (null, insert o k null)

abbrev pub non_empty : List QString → List QString
non_empty [] = []
non_empty (part ∷ parts) = if is_empty part then non_empty parts else part ∷ non_empty parts

-- left(lastIndexOf('.') + 1): empty where there is no dot.
unfoldable pub through_last_dot : QString → QString
through_last_dot [] = []
through_last_dot (c ∷ s) =
    let rest = through_last_dot s in if (c == b'.') || has_unit b'.' s then c ∷ rest else []

-- The domain of a type, or one that no rule allows if the type has less than three parts.
unfoldable pub type_domain : QString → QString
unfolding split through_last_dot has_unit
type_domain t =
    if ltb 2 (length (non_empty (split b'.' t)))
    then through_last_dot t
    else codes "public.domain.fail."

module _ (q : QtCalls) where
  unfoldable pub allows : QString → QJsonObject → JsonDbQuery → Bool
  allows domain object query =
      (match q none
        (record query { bindings = bind query.bindings (codes "typeDomain") (str domain) }) object
        none).0

  -- isAllowed, with the setting enforceAccessControl: the verdict, and the object after the call.
  unfoldable pub is_allowed :
      JsonDbOwner → Bool → QJsonObject → QString → QString → Bool × QJsonObject
  is_allowed owner enforce_access_control object partition op =
      let (t, object') = subscript object type_str in
      let domain = type_domain (to_string t) in
      let here =
        any (allows domain object') (allowed_queries owner.allowed_object_queries partition op) in
      let anywhere =
        any (allows domain object')
          (allowed_queries owner.allowed_object_queries (codes "all") op) in
      if owner.allow_all || not enforce_access_control
      then (true, object)
      else (here || anywhere, object')

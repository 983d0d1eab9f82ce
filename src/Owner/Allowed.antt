-- ===== src/Owner/Allowed.antt =====
-- What isAllowed decides, and what it does to the object.
use qtjsondb.Prelude.{
  ◌≡◌, refl, ap, Bool, false, ◌&&◌, ◌||◌, not, List, [], ◌∷◌, ◌++◌, any, any-append, all_of, arith,
  if◌then◌else◌,
}
use qtjsondb.Qt.Text.{QString, codes, str_eq}
use qtjsondb.Qt.Json.{
  undefined, null, str, QJsonObject, no_fields, field, to_string, value, contains, value-insert,
}
use qtjsondb.Qt.Calls.{QtCalls}
use qtjsondb.Strings.{type_str}
use qtjsondb.Query.Term.{JsonDbQuery, bind}
use qtjsondb.Query.Match.{ObjectCache}
use qtjsondb.Query.Match.Plain.{term_matches, match_plain}
use qtjsondb.Owner.{JsonDbOwner, allowed_queries, subscript, type_domain, allows, is_allowed}

pub value_missing : (o : QJsonObject) (k : QString) → contains o k ≡ false → value o k ≡ undefined
unfolding value contains
value_missing no_fields k h = refl
value_missing (field j v fs) k h = ground (arith, value_missing fs k)

index_object_value :
    (o : QJsonObject) (k : QString) → to_string (subscript o k).0 ≡ to_string (value o k)
unfolding subscript
index_object_value o k = ground (arith, value_missing o k)

index_object_members :
    (o : QJsonObject) (k j : QString)
    → value (subscript o k).1 j ≡ (if not (contains o k) && str_eq k j then null else value o j)
unfolding subscript
index_object_members o k j = ground (arith, value-insert o k j null)

module _ (q : QtCalls) where
  -- A query with the type domain of the object bound to a variable.
  abbrev pub with_domain : QJsonObject → JsonDbQuery → JsonDbQuery
  with_domain object query = record query {
    bindings =
        bind query.bindings (codes "typeDomain")
          (str (type_domain (to_string (value object type_str))));
  }

  -- A rule permits an object that has a matching term for each disjunction of its query.
  abbrev pub permits : QJsonObject → JsonDbQuery → Bool
  permits object query =
      all_of
        (λ terms.
          any (term_matches q (with_domain object query) (subscript object type_str).1) terms)
        query.query_terms

  allows-permits :
      (object : QJsonObject) (query : JsonDbQuery)
      → allows q
          (type_domain (to_string (subscript object type_str).0))
          (subscript object type_str).1
          query
        ≡ permits object query
  unfolding allows
  allows-permits object query = rw index_object_value (
      ap (λ (r : Bool × ObjectCache). r.0)
        (match_plain q (with_domain object query) (subscript object type_str).1))

  any-allows :
      (object : QJsonObject) (queries : List JsonDbQuery)
      → any
          (allows q
            (type_domain (to_string (subscript object type_str).0))
            (subscript object type_str).1)
          queries
        ≡ any (permits object) queries
  unfolding any
  any-allows object [] = refl
  any-allows object (query ∷ queries) =
      rw (allows-permits object query, any-allows object queries) refl

  -- An operation is allowed exactly if everything is, or access control is not enforced, or a
  -- rule for the partition or for all partitions permits the object: it has a matching term for
  -- each disjunction, where the type domain of the object is bound.
  pub is_allowed_verdict :
      (owner : JsonDbOwner) (enforce : Bool) (object : QJsonObject) (partition op : QString)
      → (is_allowed q owner enforce object partition op).0 ≡ (
          owner.allow_all
          || (not enforce
              || any (permits object) (
                  allowed_queries owner.allowed_object_queries partition op
                  ++ allowed_queries owner.allowed_object_queries (codes "all") op)))
  unfolding is_allowed
  is_allowed_verdict owner enforce object partition op =
      rw
        (
          any-append,
          ← any-allows object (allowed_queries owner.allowed_object_queries partition op),
          ← any-allows object (allowed_queries owner.allowed_object_queries (codes "all") op),
        )
        (ground arith)

  -- The check adds _type with the value Null to an object that has none, where not everything
  -- is allowed and access control is enforced, and leaves every other member.
  pub is_allowed_object :
      (owner : JsonDbOwner) (enforce : Bool) (object : QJsonObject) (partition op j : QString)
      → value (is_allowed q owner enforce object partition op).1 j ≡ (
          if not (owner.allow_all || not enforce)
            && (not (contains object type_str) && str_eq type_str j)
          then null
          else value object j)
  unfolding is_allowed
  is_allowed_object owner enforce object partition op j =
      ground (arith, index_object_members object type_str j)

-- ===== src/Owner/Capabilities.antt =====
-- src/partition/jsondbowner.cpp: setCapabilities, with the objects of the type Capability that
-- getObjects gives as an argument. QString::replace, QVariant::toString and the order of a QSet are
-- parameters. A QSet is a list without doubles.
use qtjsondb.Prelude.{◌≡◌, refl, false, List, [], ◌∷◌, any, is_empty, if◌then◌else◌}
use qtjsondb.Qt.Text.{QString, codes, str_eq}
use qtjsondb.Qt.Json.{
  Value, QJsonArray, QJsonObject, to_string, to_array, to_object, value, contains,
}
use qtjsondb.Qt.Calls.{QtCalls}
use qtjsondb.Owner.{JsonDbOwner}
use qtjsondb.Owner.Rules.{set_allowed_objects}

pub record CapabilityCalls : Type 0 where
  pub qt : QtCalls
  pub replace : QString → QString → QString → QString
  pub text_of : Value → QString
  pub to_list : List QString → List QString

-- allowedObjects: the rules by the operation.
abbrev pub RulesByOp : Type 0
RulesByOp = List (QString × List QString)

unfoldable pub rules_of : RulesByOp → QString → List QString
rules_of [] op = []
rules_of ((o, rules) ∷ more) op = if str_eq o op then rules else rules_of more op

unfoldable pub set_rules : RulesByOp → QString → List QString → RulesByOp
set_rules [] op rules = (op, rules) ∷ []
set_rules ((o, r) ∷ more) op rules =
    let rest = set_rules more op rules in if str_eq o op then (op, rules) ∷ more else (o, r) ∷ rest

-- QSet::unite with the texts of an array.
unfoldable pub unite : List QString → QJsonArray → List QString
unite rules [] = rules
unite rules (v ∷ vs) =
    let rule = to_string v in
    unite (if any (λ r. str_eq r rule) rules then rules else rule ∷ rules) vs

unfoldable pub ops : List QString
ops = codes "read" ∷ codes "write" ∷ codes "setOwner" ∷ []

-- The loop over the operations that an access type is translated to.
unfoldable pub add_ops : QJsonObject → List QString → RulesByOp → RulesByOp
unfolding rules_of set_rules unite
add_ops translated [] allowed = allowed
add_ops translated (op ∷ more) allowed =
    let united = unite (rules_of allowed op) (to_array (value translated op)) in
    add_ops translated more
      (if contains translated op then set_rules allowed op united else allowed)

module _ (c : CapabilityCalls) where
  -- The loop over the access types that the application has.
  unfoldable pub add_access_types : QJsonObject → QJsonArray → RulesByOp → RulesByOp
  unfolding add_ops ops
  add_access_types rules [] allowed = allowed
  add_access_types rules (access ∷ more) allowed =
      add_access_types rules more (add_ops (to_object (value rules (c.text_of access))) ops allowed)

  module _ (domain : QString) (owner_id : QString) where
    -- The loop that sets the rules of each operation that has some.
    unfoldable pub set_ops : JsonDbOwner → QString → RulesByOp → List QString → JsonDbOwner
    unfolding rules_of set_allowed_objects
    set_ops owner partition allowed [] = owner
    set_ops owner partition allowed (op ∷ more) =
        let rules = rules_of allowed op in
        set_ops
          (if is_empty rules
            then owner
            else set_allowed_objects c.qt owner domain owner_id partition op (c.to_list rules))
          partition allowed more

    unfoldable pub set_capability : QJsonObject → JsonDbOwner → QJsonObject → JsonDbOwner
    unfolding add_access_types set_ops ops
    set_capability capabilities owner translation =
        let name = to_string (value translation (codes "name")) in
        let partition =
          c.replace (to_string (value translation (codes "partition"))) (codes "%owner") owner_id in
        let rules = to_object (value translation (codes "accessRules")) in
        let allowed =
          if contains capabilities name
          then add_access_types rules (to_array (value capabilities name)) []
          else [] in
        set_ops owner partition allowed ops

    -- setCapabilities
    unfoldable pub set_capabilities : QJsonObject → List QJsonObject → JsonDbOwner → JsonDbOwner
    unfolding set_capability
    set_capabilities capabilities [] owner = owner
    set_capabilities capabilities (translation ∷ more) owner =
        set_capabilities capabilities more (set_capability capabilities owner translation)

    -- The application has none of the capabilities.
    abbrev pub HasNone : QJsonObject → List QJsonObject → Type 0
    HasNone capabilities [] = Unit
    HasNone capabilities (translation ∷ more) =
        (contains capabilities (to_string (value translation (codes "name"))) ≡ false)
        × HasNone capabilities more

    -- If the application has none of the capabilities that are translated, setCapabilities
    -- leaves the owner as it is.
    pub set_capabilities_none :
        (capabilities : QJsonObject) (translations : List QJsonObject) (owner : JsonDbOwner)
        → HasNone capabilities translations
        → set_capabilities capabilities translations owner ≡ owner
    unfolding set_capabilities
    set_capabilities_none capabilities [] owner h = refl
    set_capabilities_none capabilities (translation ∷ more) owner h =
        rw h.0 (set_capabilities_none capabilities more owner h.1)

-- ===== src/Partition/Update/Checks.antt =====
-- What the checks of updateObjects leave of the object, and what they know of the stored one.
use qtjsondb.Prelude.{
  ◌≡◌, refl, sym, ap, ◌∙◌, Bool, true, false, ◌||◌, Option, any, if◌then◌else◌, not, Bool-cases,
  inl, inr, arith,
}
use qtjsondb.Qt.Text.{QString, codes, str_eq}
use qtjsondb.Qt.Json.{Value, QJsonObject, to_bool, to_string, value, insert, value-insert}
use qtjsondb.Qt.Calls.{QtCalls}
use qtjsondb.Strings.{uuid_str, type_str, deleted_str}
use qtjsondb.Owner.Allowed.{is_allowed_object, value_missing}
use qtjsondb.Object.Version.{type, uuid}
use qtjsondb.Partition.{Definitions, Partition, get_object}
use qtjsondb.Partition.Attempt.{
  Attempt, passed, refused, ◌>>=◌, require, ConflictResolutionMode, ErrorCode, missing_type,
  failed_schema_validation, invalid_type, missing_object, Request, Writer, Checked, owner_str,
  is_view_object,
}
use qtjsondb.Partition.Update.{
  allowed, identify, may_write, keep_owner, or_empty, is_creation, check_object,
}

-- What passes has the property.
abbrev pub Passes : {A : Type 0} → (A → Type 0) → Attempt A → Type 0
Passes Q (passed a) = Q a
Passes Q (refused code) = Unit {0}

pub Passes-bind :
    {A B : Type 0} (P : A → Type 0) (Q : B → Type 0) (m : Attempt A) (f : A → Attempt B)
    → Passes P m
    → ((a : A) → P a → Passes Q (f a))
    → Passes Q (m >>= f)
unfolding ◌>>=◌
Passes-bind P Q (passed a) f h next = next a h
Passes-bind P Q (refused code) f h next = tt

pub Passes-next :
    {A B : Type 0} (Q : B → Type 0) (m : Attempt A) (f : A → Attempt B)
    → ((a : A) → Passes Q (f a))
    → Passes Q (m >>= f)
unfolding ◌>>=◌
Passes-next Q (passed a) f next = next a
Passes-next Q (refused code) f next = tt

pub Passes-require :
    {B : Type 0} (Q : B → Type 0) (ok : Bool) (code : ErrorCode) (f : Unit {0} → Attempt B)
    → (ok ≡ true → Passes Q (f tt))
    → Passes Q (require ok code >>= f)
unfolding require ◌>>=◌
Passes-require Q true code f next = next refl
Passes-require Q false code f next = tt

-- The uuid and the type are the same.
abbrev pub SameKey : QJsonObject → QJsonObject → Type 0
SameKey x y = (value x uuid_str ≡ value y uuid_str) × (type x ≡ type y)

pub insert-SameKey :
    (x : QJsonObject) (k : QString) (v : Value)
    → str_eq k uuid_str ≡ false
    → str_eq k type_str ≡ false
    → SameKey (insert x k v) x
unfolding type
insert-SameKey x k v h g =
    (value-insert x k uuid_str v ∙ rw h refl, rw (value-insert x k type_str v, g) refl)

SameKey-if :
    (b : Bool) (x y z : QJsonObject) → SameKey x z → SameKey y z → SameKey (if b then x else y) z
SameKey-if true x y z h g = h
SameKey-if false x y z h g = g

pub SameKey-trans : (x y z : QJsonObject) → SameKey x y → SameKey y z → SameKey x z
SameKey-trans x y z h g = (h.0 ∙ g.0, h.1 ∙ g.1)

module _ (q : QtCalls) (w : Writer) where
  allowed-SameKey :
      (name : QString) (object : QJsonObject) (op : QString)
      → SameKey (allowed q w name object op).1 object
  unfolding type str_eq
  allowed-SameKey name object op =
      let left = is_allowed_object q w.rights w.enforces object name op in
      (
        left uuid_str ∙ ground arith,
        ap to_string (left type_str) ∙ ground (arith, value_missing object type_str),
      )

  -- The write may be made, unless it is exempt.
  abbrev MayWrite : Bool → QString → QJsonObject → QJsonObject → Type 0
  MayWrite exempt name object left =
      SameKey left object × (exempt ≡ false → (allowed q w name object (codes "write")).0 ≡ true)

  may_write-MayWrite :
      (exempt : Bool) (name : QString) (object : QJsonObject)
      → Passes (MayWrite exempt name object) (may_write q w exempt name object)
  unfolding may_write
  may_write-MayWrite true name object = ((refl, refl), λ h. cc)
  may_write-MayWrite false name object =
      elim (Bool-cases (allowed q w name object (codes "write")).0) [
        | inl h ↦ rw h (allowed-SameKey name object (codes "write"), λ e. h)
        | inr h ↦ rw h tt
      ]

  keep_owner-SameKey :
      (for_creation : Bool) (master object : QJsonObject)
      → SameKey (keep_owner q w for_creation master object) object
  unfolding keep_owner
  keep_owner-SameKey for_creation master object =
      let kept : (v : Value) → SameKey (insert object owner_str v) object =
        λ v. insert-SameKey object owner_str v (unfold str_eq in refl) (unfold str_eq in refl) in
      let same : SameKey object object = (refl, refl) in search (SameKey-if, kept, same) depth 8

  module _ {D : Type 0} (d : Definitions D) where
    -- The known object is the stored one with the key and the type, it may be written unless it is
    -- deleted, and a removal is not one of an object that is missing.
    pub record IsChecked (mode : ConflictResolutionMode) (p : Partition D) (c : Checked)
        : Type 0 where
      pub known : Option QJsonObject
      pub is_known : get_object d p (uuid q c.object) (type c.object) true ≡ known
      pub same_master : SameKey c.master (or_empty q w known)
      pub creation : c.for_creation ≡ is_creation q w known
      pub may_write_known :
          c.for_creation ≡ false
          → (allowed q w p.name (or_empty q w known) (codes "write")).0 ≡ true
      pub may_write_object :
          c.for_removal ≡ false
          → (x : QJsonObject) × (SameKey x c.object
              × ((allowed q w p.name x (codes "write")).0 ≡ true))
      pub no_view :
          is_view_object mode ≡ false
          → any (λ n. str_eq n (type c.object)) (d.view_types p.definitions) ≡ false

    checked_lem :
        (mode : ConflictResolutionMode) (p : Partition D) (object object' master : QJsonObject)
        (for_removal : Bool)
        → (let known = get_object d p (uuid q object) (type object) true in
            MayWrite (is_creation q w known) p.name (or_empty q w known) master)
        → (let known = get_object d p (uuid q object) (type object) true in
            MayWrite for_removal p.name
              (keep_owner q w (is_creation q w known) master object)
              object')
        → (is_view_object mode
            || not (any (λ n. str_eq n (type object)) (d.view_types p.definitions)))
          ≡ true
        → IsChecked mode p (record {
          object = object';
          master = master;
          for_creation = is_creation q w (get_object d p (uuid q object) (type object) true);
          for_removal = for_removal;
        })
    unfolding uuid
    checked_lem mode p object object' master for_removal hm ho h =
        let known = get_object d p (uuid q object) (type object) true in
        let owned = keep_owner q w (is_creation q w known) master object in
        let same =
          SameKey-trans object' owned object ho.0
            (keep_owner-SameKey (is_creation q w known) master object) in
        record {
          known = known;
          is_known =
              ap (λ v. get_object d p (q.parse_uuid (to_string v)) (type object') true) same.0
              ∙ ap (λ t. get_object d p (uuid q object) t true) same.1;
          same_master = hm.0;
          creation = refl;
          may_write_known = hm.1;
          may_write_object = λ e. (owned, ((sym ho.0.0, sym ho.0.1), ho.1 e));
          no_view = λ e. rw same.1 (ground arith);
        }

    pub check_object-IsChecked :
        (mode : ConflictResolutionMode) (p : Partition D) (r : Request)
        → Passes (IsChecked mode p) (check_object q w d mode p r)
    unfolding check_object
    check_object-IsChecked mode p r =
        let for_removal = to_bool (value r.object deleted_str) in
        Passes-next (IsChecked mode p) (identify q w p.name for_removal r) _ (λ object.
          Passes-require (IsChecked mode p) _ missing_type _ (λ h1.
            Passes-require (IsChecked mode p) _ failed_schema_validation _ (λ h2.
              Passes-require (IsChecked mode p) _ invalid_type _ (λ h3.
                let known = get_object d p (uuid q object) (type object) true in
                let for_creation = is_creation q w known in
                Passes-require (IsChecked mode p) _ missing_object _ (λ h4.
                  Passes-bind (MayWrite for_creation p.name (or_empty q w known)) (IsChecked mode p)
                    _ _ (may_write-MayWrite for_creation p.name (or_empty q w known))
                    (λ master hm.
                      Passes-bind
                        (MayWrite for_removal p.name (keep_owner q w for_creation master object))
                        (IsChecked mode p) _ _
                        (may_write-MayWrite for_removal p.name
                          (keep_owner q w for_creation master object))
                        (λ object' ho.
                          checked_lem mode p object object' master for_removal hm ho h3)))))))

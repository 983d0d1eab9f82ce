-- ===== src/Partition/Changes/Split.antt =====
-- src/partition/jsondbobjecttable.cpp: the changes that the second changesSince gives, by types.
use qtjsondb.Prelude.{
  ◌≡◌, refl, Bool, true, false, ◌&&◌, ◌||◌, not, List, [], ◌∷◌, ◌++◌, Option, arith, if◌then◌else◌,
  all_of,
}
use qtjsondb.Qt.Text.{QString, str_eq, str_eq_iff}
use qtjsondb.Qt.Json.{bool, QJsonObject, no_fields, insert, is_empty_object}
use qtjsondb.Strings.{deleted_str}
use qtjsondb.Partition.{create, remove, JsonDbUpdate}
use qtjsondb.Partition.Changes.{
  ChangeMap, is_remove, split_update, split_changes, when, type_of, has_type,
}
use qtjsondb.Partition.Changes.Replay.{apply, apply_all}

all_of-append {ℓ} :
    {A : Type ℓ} (p : A → Bool) (xs ys : List A)
    → all_of p (xs ++ ys) ≡ (all_of p xs && all_of p ys)
unfolding all_of
all_of-append p [] ys = refl
all_of-append p (x ∷ xs) ys = ground (arith, all_of-append p xs ys)

-- An update is of an object that has a type of the limit, before or after.
abbrev pub concerns : List QString → JsonDbUpdate → Bool
concerns limit u = has_type limit (type_of u.old_object) || has_type limit (type_of u.new_object)

when-concerns :
    (limit : List QString) (b : Bool) (u : JsonDbUpdate)
    → (b ≡ true → concerns limit u ≡ true)
    → all_of (concerns limit) (when b u) ≡ true
unfolding all_of
when-concerns limit true u h = rw (h refl) refl
when-concerns limit false u h = refl

or_left : (a b : Bool) → a ≡ true → (a || b) ≡ true
or_left a b h = ground arith

or_right : (a b : Bool) → b ≡ true → (a || b) ≡ true
or_right a b h = ground arith

both-concerns :
    (limit : List QString) (xs ys : List JsonDbUpdate)
    → all_of (concerns limit) xs ≡ true
    → all_of (concerns limit) ys ≡ true
    → all_of (concerns limit) (xs ++ ys) ≡ true
both-concerns limit xs ys h k = rw (all_of-append (concerns limit) xs ys, h, k) refl

either-concerns :
    (limit : List QString) (b : Bool) (xs ys : List JsonDbUpdate)
    → all_of (concerns limit) xs ≡ true
    → all_of (concerns limit) ys ≡ true
    → all_of (concerns limit) (if b then xs else ys) ≡ true
either-concerns limit true xs ys h k = h
either-concerns limit false xs ys h k = k

split_update-concerns :
    (limit : List QString) (splits : Bool) (u : JsonDbUpdate)
    → all_of (concerns limit) (split_update limit splits u) ≡ true
unfolding split_update
split_update-concerns limit splits u =
    either-concerns limit _ _ _
      (both-concerns limit _ _ (when-concerns limit _ _ (λ e. or_left _ _ e))
        (when-concerns limit _ _ (λ e. or_right _ _ e)))
      (when-concerns limit _ u (λ e. e))

-- Every update that changesSince gives for some types is of an object that has one of them before
-- or after the update; without types all have.
pub split_changes-concerns :
    (limit : List QString) (splits : Bool) (changes : ChangeMap)
    → all_of (concerns limit) (split_changes limit splits changes) ≡ true
unfolding split_changes all_of
split_changes-concerns limit splits [] = refl
split_changes-concerns limit splits ((key, u) ∷ changes) =
    both-concerns limit (split_update limit splits u) (split_changes limit splits changes)
      (split_update-concerns limit splits u) (split_changes-concerns limit splits changes)

no_removal : (r e s t : Bool) → (r ≡ true → s ≡ true) → (e && (not s && t)) ≡ true → r ≡ false
no_removal r e s t h k = ground arith

-- If a removal keeps the type of the object, then splitting an update, for all types, does to an
-- object what the update does.
pub split_update_applies :
    (splits : Bool) (now : Option QJsonObject) (u : JsonDbUpdate)
    → (is_remove u.action ≡ true → type_of u.old_object ≡ type_of u.new_object)
    → apply_all now (split_update [] splits u) ≡ apply now u
unfolding split_update has_type
split_update_applies splits now u same =
    by_case
      (not (is_empty_object u.old_object)
        && (not (str_eq (type_of u.old_object) (type_of u.new_object)) && splits))
      (no_removal (is_remove u.action) (not (is_empty_object u.old_object))
        (str_eq (type_of u.old_object) (type_of u.new_object)) splits
        (λ e. (str_eq_iff (type_of u.old_object) (type_of u.new_object)).1 (same e)))
  where
    by_case :
        (b : Bool)
        → (b ≡ true → is_remove u.action ≡ false)
        → apply_all now (
            if b
            then record {
              old_object = u.old_object;
              new_object = insert u.old_object deleted_str (bool true);
              action = remove;
            }
              ∷ record { old_object = no_fields; new_object = u.new_object; action = create }
              ∷ []
            else u ∷ [])
          ≡ apply now u
    by_case true f = rw (f refl) refl
    by_case false f = refl

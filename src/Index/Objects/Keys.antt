-- ===== src/Index/Objects/Keys.antt =====
-- src/partition/jsondbindex.cpp: the keys in an index after objects are indexed and deindexed.
use qtjsondb.Prelude.{
  ℕ, ◌≡◌, refl, Bool, true, false, ◌&&◌, ◌||◌, not, List, [], ◌∷◌, Option, none, some, any,
  is_empty, if◌then◌else◌, Bool-cases, inl, inr,
}
use qtjsondb.Qt.Json.{Value, QJsonObject}
use qtjsondb.Qt.Calls.{QtCalls}
use qtjsondb.Object.Version.{uuid}
use qtjsondb.Query.Term.{is_undefined}
use qtjsondb.Query.Compile.{make_field_value}
use qtjsondb.Index.Key.{make_forward_value}
use qtjsondb.Index.Spec.{JsonDbIndexSpec}
use qtjsondb.Index.Objects.{
  IndexCalls, Calls, Replies, put, remove, written, call_tree, JsonDbIndex, same_key, key_of,
  index_values, is_indexed, changed_index, put_values, remove_values, index_object, deindex_object,
}

any_empty {ℓ} : {A : Type ℓ} (p : A → Bool) (xs : List A) → is_empty xs ≡ true → any p xs ≡ false
unfolding any
any_empty p [] h = refl
any_empty p (x ∷ xs) h = absurd (cc)

if_or {ℓ} :
    {A : Type ℓ} (here later : Bool) (x y : A)
    → (if later then x else if here then x else y) ≡ (if here || later then x else y)
if_or true true x y = refl
if_or true false x y = refl
if_or false true x y = refl
if_or false false x y = refl

module _ (q : QtCalls) (calls : IndexCalls) (size : ℕ) (spec : JsonDbIndexSpec) where
  -- Some of the values that can be stored has the key.
  abbrev pub gives_key : ℕ → List ℕ → Value → Bool
  gives_key object_key key v =
      not (is_undefined (make_field_value q size v spec.property_type))
      && same_key q (key_of q calls size spec object_key v) key

  -- An index of this kind has the key for the object.
  abbrev pub has_key : QJsonObject → List ℕ → Bool
  has_key object key =
      is_indexed q calls size spec object
      && any (gives_key (uuid q object) key) (index_values q calls size spec object)

  module _ (replies : Replies) where
    find-put_values :
        (object_key : ℕ) (vs : List Value) (t : Calls) (key : List ℕ)
        → (put_values q calls size spec replies object_key vs t).0 ≡ true
        → written q (put_values q calls size spec replies object_key vs t).1 key ≡ (
            if any (gives_key object_key key) vs
            then some (make_forward_value object_key)
            else written q t key)
    unfolding put_values any written call_tree
    find-put_values object_key [] t key = λ h. refl
    find-put_values object_key (v ∷ vs) t key =
        let k = key_of q calls size spec object_key v in
        let w = make_forward_value object_key in
        elim (Bool-cases (is_undefined (make_field_value q size v spec.property_type))) [
          | inl none_stored ↦ rw none_stored (find-put_values object_key vs t key)
          | inr some_stored ↦ rw some_stored (elim (Bool-cases (replies t (put k w))) [
            | inl ok ↦ rw ok (λ h. rw (find-put_values object_key vs (put k w ∷ t) key h) (
                if_or (same_key q k key) (any (gives_key object_key key) vs) (some w)
                  (written q t key)))
            | inr failed ↦ rw failed (λ h. absurd (cc))
          ])
        ]

    find-remove_values :
        (object_key : ℕ) (vs : List Value) (t : Calls) (key : List ℕ)
        → (remove_values q calls size spec replies object_key vs t).0 ≡ true
        → written q (remove_values q calls size spec replies object_key vs t).1 key
          ≡ (if any (gives_key object_key key) vs then none else written q t key)
    unfolding remove_values any written call_tree
    find-remove_values object_key [] t key = λ h. refl
    find-remove_values object_key (v ∷ vs) t key =
        let k = key_of q calls size spec object_key v in
        elim (Bool-cases (is_undefined (make_field_value q size v spec.property_type))) [
          | inl none_stored ↦ rw none_stored (find-remove_values object_key vs t key)
          | inr some_stored ↦ rw some_stored (elim (Bool-cases (replies t (remove k))) [
            | inl ok ↦ rw ok (λ h. rw (find-remove_values object_key vs (remove k ∷ t) key h) (
                if_or (same_key q k key) (any (gives_key object_key key) vs) none
                  (written q t key)))
            | inr failed ↦ rw failed (λ h. absurd (cc))
          ])
        ]

    -- What a loop over the values does to a key, indexing or deindexing the object does.
    find-changed :
        (index : JsonDbIndex) (object : QJsonObject) (loop : List Value → Calls → Bool × Calls)
        (key : List ℕ) (entry : Option (List ℕ))
        → let vs = index_values q calls size spec object in
          ((loop vs index.tree).0 ≡ true
            → written q (loop vs index.tree).1 key ≡ (
                if any (gives_key (uuid q object) key) vs then entry else written q index.tree key))
          → (changed_index q calls size spec replies index object loop).0 ≡ true
          → written q (changed_index q calls size spec replies index object loop).1.tree key
            ≡ (if has_key object key then entry else written q index.tree key)
    find-changed index object loop key entry looped =
        elim (Bool-cases (is_indexed q calls size spec object)) [
          | inl indexed ↦
              rw indexed (elim (Bool-cases (is_empty (index_values q calls size spec object))) [
                | inl e ↦ rw e (rw (any_empty (gives_key (uuid q object) key) _ e) (λ h. refl))
                | inr more ↦ rw more looped
              ])
          | inr other ↦ rw other (λ h. refl)
        ]

    -- Take the calls of the B-tree that succeed, whichever they are, as writes to a map in
    -- which keys are the same if they compare equal. If indexObject succeeds, then the keys
    -- of the object have its uuid in the index, and all others what they had.
    pub find-index_object :
        (index : JsonDbIndex) (object : QJsonObject) (key : List ℕ)
        → (index_object q calls size spec replies index object).0 ≡ true
        → written q (index_object q calls size spec replies index object).1.tree key ≡ (
            if has_key object key
            then some (make_forward_value (uuid q object))
            else written q index.tree key)
    unfolding index_object
    find-index_object index object key =
        find-changed index object (put_values q calls size spec replies (uuid q object)) key
          (some (make_forward_value (uuid q object)))
          (find-put_values (uuid q object) (index_values q calls size spec object) index.tree key)

    -- Take the calls of the B-tree that succeed, whichever they are, as writes to a map in
    -- which keys are the same if they compare equal. If deindexObject succeeds, then the keys
    -- of the object have nothing in the index, and all others what they had.
    pub find-deindex_object :
        (index : JsonDbIndex) (object : QJsonObject) (key : List ℕ)
        → (deindex_object q calls size spec replies index object).0 ≡ true
        → written q (deindex_object q calls size spec replies index object).1.tree key
          ≡ (if has_key object key then none else written q index.tree key)
    unfolding deindex_object
    find-deindex_object index object key =
        find-changed index object (remove_values q calls size spec replies (uuid q object)) key none
          (find-remove_values (uuid q object) (index_values q calls size spec object) index.tree
            key)

    -- Take the calls of the B-tree that succeed, whichever they are, as writes to a map in
    -- which keys are the same if they compare equal. If an object is deindexed and then
    -- another indexed, and both succeed, then a key in the index has the uuid of the second
    -- object if it is a key of it, otherwise nothing if it is a key of the first, and
    -- otherwise what it had.
    pub find-index_object-deindex_object :
        (index : JsonDbIndex) (old new : QJsonObject) (key : List ℕ)
        → let between = (deindex_object q calls size spec replies index old) in
          let after = index_object q calls size spec replies between.1 new in
          between.0 ≡ true
          → after.0 ≡ true
          → written q after.1.tree key ≡ (
              if has_key new key
              then some (make_forward_value (uuid q new))
              else if has_key old key
              then none
              else written q index.tree key)
    find-index_object-deindex_object index old new key deindexed indexed =
        let between = (deindex_object q calls size spec replies index old).1 in
        rw (find-index_object between new key indexed, find-deindex_object index old key deindexed)
          refl

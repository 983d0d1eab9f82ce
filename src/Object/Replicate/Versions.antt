-- ===== src/Object/Replicate/Versions.antt =====
-- Which versions the documents of a merge have, by count and hash.
use qtjsondb.Prelude.{
  ℕ, ◌≡◌, refl, Bool, true, false, ◌&&◌, ◌||◌, List, [], ◌∷◌, arith, ◌==◌, ==_iff, if◌then◌else◌,
  any,
}
use qtjsondb.Qt.Text.{QString, str_eq, str_eq_refl}
use qtjsondb.Qt.Json.{QJsonArray, QJsonObject, to_object, contains}
use qtjsondb.Qt.Calls.{QtCalls}
use qtjsondb.Object.Version.{version, uuid, tokenize_version}
use qtjsondb.Object.Version.Tokens.{version_trichotomy}
use qtjsondb.Strings.{meta_str}
use qtjsondb.Object.Optimistic.{conflicts_of}
use qtjsondb.Object.Replicate.{
  insert_document, is_valid_source, add_valid, merge_conflicts, populate_merge,
}
use qtjsondb.Object.Replicate.Documents.{
  IsSorted, insert_document-IsSorted, Reaches, insert_document-Reaches,
  insert_document-Reaches_self,
}

module _ (q : QtCalls) where
  abbrev pub has_tokens : ℕ × QString → QJsonObject → Bool
  has_tokens t d =
      ((tokenize_version q (version d)).0 == t.0) && str_eq (tokenize_version q (version d)).1 t.1

  pub any-insert_document :
      (t : ℕ × QString) (ds : List QJsonObject) (d : QJsonObject)
      → any (has_tokens t) (insert_document q ds d) ≡ (has_tokens t d || any (has_tokens t) ds)
  unfolding any insert_document
  any-insert_document t [] d = refl
  any-insert_document t (e ∷ ds) d =
      ground (arith, any-insert_document t ds d, version_trichotomy q e d)

  abbrev pub AllUuid : ℕ → List QJsonObject → Type 0
  AllUuid id [] = Unit
  AllUuid id (d ∷ ds) = (uuid q d ≡ id) × AllUuid id ds

  insert_document-AllUuid :
      (id : ℕ) (ds : List QJsonObject) (d : QJsonObject)
      → uuid q d ≡ id
      → AllUuid id ds
      → AllUuid id (insert_document q ds d)
  unfolding insert_document
  insert_document-AllUuid id [] d h a = (h, tt)
  insert_document-AllUuid id (e ∷ ds) d h a = ground (arith, insert_document-AllUuid id ds d h a.1)

  -- What every step of collecting documents keeps.
  pub record IsCollection (id : ℕ) (ds : List QJsonObject) : Type 0 where
    pub sorted : IsSorted q ds
    pub same_uuid : AllUuid id ds

  pub record Extends (ds es : List QJsonObject) : Type 0 where
    pub reaches : (x : QJsonObject) → Reaches q ds x → Reaches q es x
    pub versions : (t : ℕ × QString) → any (has_tokens t) ds ≡ true → any (has_tokens t) es ≡ true

  pub is_valid_source-uuid :
      (id : ℕ) (source : QJsonObject) (b : Bool)
      → is_valid_source q id source b ≡ true
      → uuid q source ≡ id
  unfolding is_valid_source
  is_valid_source-uuid id source b h = ground (arith, ==_iff (uuid q source) id)

  add_valid-IsCollection :
      (id : ℕ) (ds : List QJsonObject) (source : QJsonObject) (b valid : Bool)
      → (valid ≡ true → is_valid_source q id source b ≡ true)
      → IsCollection id ds
      → IsCollection id (add_valid q valid ds source)
  add_valid-IsCollection id ds source b false v c = c
  add_valid-IsCollection id ds source b true v c = record {
    sorted = insert_document-IsSorted q ds source c.sorted;
    same_uuid =
        insert_document-AllUuid id ds source (is_valid_source-uuid id source b (v refl))
          c.same_uuid;
  }

  add_valid-Extends :
      (valid : Bool) (ds : List QJsonObject) (source : QJsonObject)
      → Extends ds (add_valid q valid ds source)
  add_valid-Extends false ds source = record { reaches = λ x r. r; versions = λ t h. h }
  add_valid-Extends true ds source = record {
    reaches = λ x r. insert_document-Reaches q ds source x r;
    versions = λ t h. ground (arith, any-insert_document t ds source);
  }

  Extends-trans : (a b c : List QJsonObject) → Extends a b → Extends b c → Extends a c
  Extends-trans a b c f g = record {
    reaches = λ x r. g.reaches x (f.reaches x r);
    versions = λ t h. g.versions t (f.versions t h);
  }

  merge_conflicts-IsCollection :
      (ds : List QJsonObject) (id : ℕ) (cs : QJsonArray) (b : Bool)
      → IsCollection id ds
      → IsCollection id (merge_conflicts q ds id cs b).0
        × Extends ds (merge_conflicts q ds id cs b).0
  unfolding merge_conflicts
  merge_conflicts-IsCollection ds id [] b c =
      (c, record { reaches = λ x r. r; versions = λ t h. h })
  merge_conflicts-IsCollection ds id (v ∷ cs) b c =
      let valid = is_valid_source q id (to_object v) b in
      let first = add_valid-IsCollection id ds (to_object v) b valid (λ e. e) c in
      let more = add_valid q valid ds (to_object v) in
      let ih = merge_conflicts-IsCollection more id cs b first in
      (ih.0, Extends-trans ds more _ (add_valid-Extends valid ds (to_object v)) ih.1)

  and_left : (a b : Bool) → (a && b) ≡ true → a ≡ true
  and_left a b h = ground arith

  add_valid_found :
      (id : ℕ) (ds : List QJsonObject) (source : QJsonObject) (b valid : Bool)
      → (valid ≡ true → is_valid_source q id source b ≡ true)
      → valid ≡ true
      → Reaches q (add_valid q valid ds source) source
        × (any (has_tokens (tokenize_version q (version source))) (add_valid q valid ds source)
            ≡ true)
        × (is_valid_source q id source b ≡ true)
  add_valid_found id ds source b false v h = cc
  add_valid_found id ds source b true v h =
      let (n, hash) = tokenize_version q (version source) in
      (
        insert_document-Reaches_self q ds source,
        rw any-insert_document (ground (arith, str_eq_refl hash)),
        v refl,
      )

  -- Collecting a source keeps the documents sorted and of one uuid, and loses no version; a valid
  -- source is collected.
  pub populate_merge-IsCollection :
      (ds : List QJsonObject) (id : ℕ) (source : QJsonObject) (b : Bool)
      → IsCollection id ds
      → IsCollection id (populate_merge q ds id source b).0
        × Extends ds (populate_merge q ds id source b).0
        × ((populate_merge q ds id source b).1 ≡ true
            → Reaches q (populate_merge q ds id source b).0 source
              × (any
                    (has_tokens (tokenize_version q (version source)))
                    (populate_merge q ds id source b).0
                  ≡ true)
              × (is_valid_source q id source b ≡ true))
  unfolding populate_merge
  populate_merge-IsCollection ds id source b c =
      let found = if contains source meta_str then conflicts_of source else [] in
      let merged = merge_conflicts q ds id found b in
      let kept = merge_conflicts-IsCollection ds id found b c in
      let valid = is_valid_source q id source b && merged.1 in
      let checked = and_left (is_valid_source q id source b) merged.1 in
      (
        add_valid-IsCollection id merged.0 source b valid checked kept.0,
        Extends-trans ds merged.0 _ kept.1 (add_valid-Extends valid merged.0 source),
        add_valid_found id merged.0 source b valid checked,
      )

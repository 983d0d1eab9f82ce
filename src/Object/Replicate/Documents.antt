-- ===== src/Object/Replicate/Documents.antt =====
-- The documents of a merge: in strictly ascending order of versions, with every inserted version.
use qtjsondb.Prelude.{◌≡◌, ◌⊎◌, inl, inr, true, false, List, [], ◌∷◌, arith, Bool-cases}
use qtjsondb.Qt.Json.{QJsonObject}
use qtjsondb.Qt.Calls.{QtCalls}
use qtjsondb.Object.Version.{version_lt}
use qtjsondb.Object.Version.Tokens.{version_lt_irrefl, version_lt_trans}
use qtjsondb.Object.Replicate.{insert_document}

module _ (q : QtCalls) where
  abbrev pub AllAbove : QJsonObject → List QJsonObject → Type 0
  AllAbove d [] = Unit
  AllAbove d (e ∷ es) = (version_lt q d e ≡ true) × AllAbove d es

  abbrev pub IsSorted : List QJsonObject → Type 0
  IsSorted [] = Unit
  IsSorted (d ∷ ds) = AllAbove d ds × IsSorted ds

  -- Some document has a version that is not below that of `d`.
  abbrev pub Reaches : List QJsonObject → QJsonObject → Type 0
  Reaches [] d = ⊥
  Reaches (e ∷ es) d = (version_lt q e d ≡ false) ⊎ Reaches es d

  -- The winner.
  abbrev pub last : QJsonObject → List QJsonObject → QJsonObject
  last d [] = d
  last d (e ∷ es) = last e es

  AllAbove-trans :
      (a b : QJsonObject) (ds : List QJsonObject)
      → version_lt q a b ≡ true
      → AllAbove b ds
      → AllAbove a ds
  AllAbove-trans a b [] h all = tt
  AllAbove-trans a b (d ∷ ds) h all =
      (version_lt_trans q a b d h all.0, AllAbove-trans a b ds h all.1)

  insert_document-AllAbove :
      (a d : QJsonObject) (ds : List QJsonObject)
      → version_lt q a d ≡ true
      → AllAbove a ds
      → AllAbove a (insert_document q ds d)
  unfolding insert_document
  insert_document-AllAbove a d [] h all = (h, tt)
  insert_document-AllAbove a d (e ∷ ds) h all =
      ground (arith, insert_document-AllAbove a d ds h all.1)

  pub insert_document-IsSorted :
      (ds : List QJsonObject) (d : QJsonObject) → IsSorted ds → IsSorted (insert_document q ds d)
  unfolding insert_document
  insert_document-IsSorted [] d s = (tt, tt)
  insert_document-IsSorted (e ∷ ds) d s = elim (Bool-cases (version_lt q e d)) [
    | inl lt ↦ rw lt (insert_document-AllAbove e d ds lt s.0, insert_document-IsSorted ds d s.1)
    | inr ge ↦ rw ge (elim (Bool-cases (version_lt q d e)) [
      | inl gt ↦ rw gt ((gt, AllAbove-trans d e ds gt s.0), s)
      | inr eq ↦ rw eq s
    ])
  ]

  pub insert_document-Reaches_self :
      (ds : List QJsonObject) (d : QJsonObject) → Reaches (insert_document q ds d) d
  unfolding insert_document
  insert_document-Reaches_self [] d = inl (version_lt_irrefl q d)
  insert_document-Reaches_self (e ∷ ds) d = elim (Bool-cases (version_lt q e d)) [
    | inl lt ↦ rw lt (inr (insert_document-Reaches_self ds d))
    | inr ge ↦ rw ge (elim (Bool-cases (version_lt q d e)) [
      | inl gt ↦ rw gt (inl (version_lt_irrefl q d))
      | inr eq ↦ rw eq (inl ge)
    ])
  ]

  pub insert_document-Reaches :
      (ds : List QJsonObject) (d x : QJsonObject)
      → Reaches ds x
      → Reaches (insert_document q ds d) x
  unfolding insert_document
  insert_document-Reaches [] d x r = absurd r
  insert_document-Reaches (e ∷ ds) d x (inl ge) = ground arith
  insert_document-Reaches (e ∷ ds) d x (inr r) =
      let ih = insert_document-Reaches ds d x r in ground arith

  last_ge :
      (d x : QJsonObject) (ds : List QJsonObject)
      → IsSorted (d ∷ ds)
      → version_lt q d x ≡ false
      → version_lt q (last d ds) x ≡ false
  last_ge d x [] s h = h
  last_ge d x (e ∷ ds) s h = last_ge e x ds s.1 (ground (arith, version_lt_trans q d e x))

  -- The last document is not below any version that the documents reach.
  pub last-Reaches :
      (d x : QJsonObject) (ds : List QJsonObject)
      → IsSorted (d ∷ ds)
      → Reaches (d ∷ ds) x
      → version_lt q (last d ds) x ≡ false
  last-Reaches d x ds s (inl ge) = last_ge d x ds s ge
  last-Reaches d x [] s (inr r) = absurd r
  last-Reaches d x (e ∷ ds) s (inr r) = last-Reaches e x ds s.1 r

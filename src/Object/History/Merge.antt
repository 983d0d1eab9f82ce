-- ===== src/Object/History/Merge.antt =====
-- populateHistory as a union of histories. The other history may have any form.
use qtjsondb.Prelude.{
  ℕ, zero, suc, ◌+◌, ◌<◌, ◌≡◌, refl, sym, ap, ◌∙◌, Bool, true, false, ◌&&◌, ◌||◌, [], ◌∷◌, arith,
  ◌==◌, if◌then◌else◌, ltb,
}
use qtjsondb.Qt.Text.{QString, str_eq}
use qtjsondb.Qt.Json.{
  Value, undefined, null, bool, num, str, arr, obj, QJsonArray, QJsonObject, to_list, contains_str,
}
use qtjsondb.Qt.Calls.{QtCalls}
use qtjsondb.Object.Version.{version, tokenize_version}
use qtjsondb.Object.History.{
  at, is_known, is_in_history, add_ancestor, add_strings, add_entry, add_versions, history_of,
  populate_history,
}
use qtjsondb.Object.History.Members.{
  IsHistory, known_at, is_in_history-known_at, is_in_history-add_ancestor, add_ancestor-IsHistory,
}

-- What a history knows at the update count m, if its entries are counted from n.
known_from : ℕ → QJsonArray → ℕ → QString → Bool
known_from n [] m s = false
known_from n (v ∷ vs) m s = ((n == m) && is_known v s) || known_from (suc n) vs m s

known_from_below :
    (n : ℕ) (vs : QJsonArray) (m : ℕ) (s : QString) → m < n → known_from n vs m s ≡ false
unfolding known_from
known_from_below n [] m s h = refl
known_from_below n (v ∷ vs) m s h = ground (arith, known_from_below (suc n) vs m s)

known_from-known_at :
    (n : ℕ) (vs : QJsonArray) (i : ℕ) (s : QString) → known_from n vs (n + i) s ≡ known_at vs i s
unfolding known_from known_at at is_known
known_from-known_at n [] i s = refl
known_from-known_at n (v ∷ vs) zero s = ground (arith, known_from_below (suc n) vs (n + zero) s)
known_from-known_at n (v ∷ vs) (suc i) s =
    let shift : n + suc i ≡ suc n + i = omega arith in
    ground
      (arith, ap (λ (k : ℕ). known_from (suc n) vs k s) shift, known_from-known_at (suc n) vs i s)

known_from_one :
    (vs : QJsonArray) (m : ℕ) (s : QString) → known_from 1 vs m s ≡ is_in_history vs m s
known_from_one vs zero s =
    rw (known_from_below 1 vs 0 s (omega arith)) (unfold is_in_history in refl)
known_from_one vs (suc i) s =
    let shift : 1 + i ≡ suc i = omega arith in
    rw is_in_history-known_at
      (ap (λ (k : ℕ). known_from 1 vs k s) (sym shift) ∙ known_from-known_at 1 vs i s)

module _ (q : QtCalls) where
  add_strings_known :
      (history : QJsonArray) (n : ℕ) (vs : QJsonArray) (m : ℕ) (s : QString)
      → IsHistory history
      → 0 < n
      → IsHistory (add_strings q history n vs)
        × (is_in_history (add_strings q history n vs) m s
            ≡ (is_in_history history m s || ((n == m) && contains_str vs s)))
  unfolding add_strings contains_str
  add_strings_known history n [] m s h pos = (h, ground arith)
  add_strings_known history n (str t ∷ vs) m s h pos =
      let formed = add_ancestor-IsHistory history n t h in
      let ih = add_strings_known (add_ancestor history n t) n vs m s formed pos in
      (ih.0, ground (arith, ih.1, is_in_history-add_ancestor history n m t s h pos))
  add_strings_known history n (undefined ∷ vs) m s h pos = add_strings_known history n vs m s h pos
  add_strings_known history n (null ∷ vs) m s h pos = add_strings_known history n vs m s h pos
  add_strings_known history n (bool _ ∷ vs) m s h pos = add_strings_known history n vs m s h pos
  add_strings_known history n (num _ ∷ vs) m s h pos = add_strings_known history n vs m s h pos
  add_strings_known history n (arr _ ∷ vs) m s h pos = add_strings_known history n vs m s h pos
  add_strings_known history n (obj _ ∷ vs) m s h pos = add_strings_known history n vs m s h pos

  add_entry_known :
      (history : QJsonArray) (n : ℕ) (v : Value) (m : ℕ) (s : QString)
      → IsHistory history
      → 0 < n
      → IsHistory (add_entry q history n v)
        × (is_in_history (add_entry q history n v) m s
            ≡ (is_in_history history m s || ((n == m) && is_known v s)))
  unfolding add_entry is_known
  add_entry_known history n (str t) m s h pos =
      (add_ancestor-IsHistory history n t h, is_in_history-add_ancestor history n m t s h pos)
  add_entry_known history n (arr xs) m s h pos = add_strings_known history n (to_list xs) m s h pos
  add_entry_known history n _ m s h pos = (h, ground arith)

  add_versions_known :
      (history : QJsonArray) (n : ℕ) (vs : QJsonArray) (m : ℕ) (s : QString)
      → IsHistory history
      → 0 < n
      → IsHistory (add_versions q history n vs)
        × (is_in_history (add_versions q history n vs) m s
            ≡ (is_in_history history m s || known_from n vs m s))
  unfolding add_versions known_from
  add_versions_known history n [] m s h pos = (h, ground arith)
  add_versions_known history n (v ∷ vs) m s h pos =
      let entry = add_entry_known history n v m s h pos in
      let ih = add_versions_known (add_entry q history n v) (suc n) vs m s entry.0 (omega arith) in
      (ih.0, ground (arith, ih.1, entry.1))

  with_current :
      (merged : QJsonArray) (b : Bool) (n m : ℕ) (hash s : QString) (k l : Bool)
      → IsHistory merged
      → is_in_history merged m s ≡ (k || l)
      → IsHistory (if b then add_ancestor merged n hash else merged)
        × (is_in_history (if b then add_ancestor merged n hash else merged) m s
            ≡ (k || (l || (b && (ltb 0 n && ((n == m) && str_eq hash s))))))
  with_current merged false n m hash s k l h e = (h, ground arith)
  with_current merged true zero m hash s k l h e = unfold add_ancestor in (h, ground arith)
  with_current merged true (suc n) m hash s k l h e = (
    add_ancestor-IsHistory merged (suc n) hash h,
    ground (arith, is_in_history-add_ancestor merged (suc n) m hash s h (omega arith)),
  )

  -- Merging the history of a document into a well-formed one gives a well-formed one that has
  -- the versions of both, whatever the document holds, and the document's own version if that
  -- is asked for and has a positive count; and no others.
  pub is_in_history-populate_history :
      (history : QJsonArray) (doc : QJsonObject) (include_current : Bool) (m : ℕ) (s : QString)
      → IsHistory history
      → IsHistory (populate_history q history doc include_current)
        × (is_in_history (populate_history q history doc include_current) m s ≡ (
            is_in_history history m s
            || (is_in_history (history_of doc) m s
                || (include_current
                    && (ltb 0 (tokenize_version q (version doc)).0
                        && (((tokenize_version q (version doc)).0 == m)
                            && str_eq (tokenize_version q (version doc)).1 s))))))
  unfolding populate_history
  is_in_history-populate_history history doc include_current m s h =
      let (count, hash) = tokenize_version q (version doc) in
      let merged = add_versions_known history 1 (history_of doc) m s h (omega arith) in
      let formed = merged.0 in
      let known = rw known_from_one at merged.1 in
      with_current (add_versions q history 1 (history_of doc)) include_current count m hash s _ _
        formed known

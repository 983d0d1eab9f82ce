-- ===== src/Object/Replicate/Outcome.antt =====
-- What a replicating write leaves: the winner, its history and the conflicts.
use qtjsondb.Prelude.{
  ℕ, ◌<◌, ◌≡◌, refl, ap, ◌∙◌, Bool, true, false, ◌&&◌, ◌||◌, not, List, [], ◌∷◌, arith, any,
  any-append,
}
use qtjsondb.Qt.Text.{QString, str_eq}
use qtjsondb.Qt.Json.{
  Value, QJsonArray, QJsonObject, to_object, to_string, value, remove, value-insert, value-remove,
  to_list-of_list,
}
use qtjsondb.Qt.Calls.{QtCalls}
use qtjsondb.Strings.{version_str, uuid_str, meta_str}
use qtjsondb.Object.Version.{version, uuid, is_deleted, version_lt}
use qtjsondb.Object.History.{history_of, is_in_history, is_ancestor_of}
use qtjsondb.Object.History.Members.{IsHistory}
use qtjsondb.Object.History.Merge.{is_in_history-populate_history}
use qtjsondb.Object.Optimistic.{conflicts_of}
use qtjsondb.Object.Replicate.{Merge, leave, sort_out, write_meta}
use qtjsondb.Object.Replicate.Documents.{IsSorted, Reaches, last, last-Reaches}
use qtjsondb.Object.Replicate.Versions.{has_tokens, AllUuid}

version-remove_meta : (d : QJsonObject) → version (remove d meta_str) ≡ version d
unfolding version str_eq
version-remove_meta d = simp value-remove

write_meta_lem :
    (head : QJsonObject) (history conflicts : QJsonArray)
    → let m = write_meta (record { head = head; history = history; conflicts = conflicts }) in
      (history_of m ≡ history)
      × (conflicts_of m ≡ conflicts)
      × ((j : QString) → str_eq meta_str j ≡ false → value m j ≡ value head j)
unfolding write_meta history_of conflicts_of str_eq value
write_meta_lem head [] [] = (simp value-remove, simp value-remove, λ j e. simp (value-remove, e))
write_meta_lem head [] (c ∷ cs) = (
  simp value-insert (unfold value in refl),
  simp value-insert (rw to_list-of_list),
  λ j e. simp (value-insert, e),
)
write_meta_lem head (h ∷ hs) [] = (
  simp value-insert (rw to_list-of_list),
  simp value-insert (unfold value in refl),
  λ j e. simp (value-insert, e),
)
write_meta_lem head (h ∷ hs) (c ∷ cs) = (
  simp value-insert (rw to_list-of_list),
  simp value-insert (rw to_list-of_list),
  λ j e. simp (value-insert, e),
)

module _ (q : QtCalls) where
  sort_out_head :
      (d : QJsonObject) (ds : List QJsonObject) (m : Merge)
      → (sort_out q (d ∷ ds) m).head ≡ last q d ds
  unfolding sort_out
  sort_out_head d [] m = refl
  sort_out_head d (e ∷ ds) m =
      sort_out_head e ds
        (leave q d (not (is_deleted d) && not (any (is_ancestor_of q d) (e ∷ ds))) m)

  leave-IsHistory :
      (d : QJsonObject) (alive : Bool) (m : Merge)
      → IsHistory m.history
      → IsHistory (leave q d alive m).history
  unfolding leave
  leave-IsHistory d true m h = h
  leave-IsHistory d false m h = (is_in_history-populate_history q m.history d true 0 [] h).0

  sort_out-IsHistory :
      (ds : List QJsonObject) (m : Merge)
      → IsHistory m.history
      → IsHistory (sort_out q ds m).history
  unfolding sort_out
  sort_out-IsHistory [] m h = h
  sort_out-IsHistory (d ∷ []) m h = (is_in_history-populate_history q m.history d false 0 [] h).0
  sort_out-IsHistory (d ∷ e ∷ ds) m h = sort_out-IsHistory (e ∷ ds) _ (leave-IsHistory d _ m h)

  -- A version is kept by a merge: in its history or by a conflict.
  abbrev pub keeps : ℕ × QString → QJsonArray → QJsonArray → Bool
  keeps t history conflicts =
      is_in_history history t.0 t.1 || any (λ c. has_tokens q t (to_object c)) conflicts

  leave_keeps :
      (n : ℕ) (s : QString) (d : QJsonObject) (alive : Bool) (m : Merge)
      → 0 < n
      → IsHistory m.history
      → (has_tokens q (n, s) d || keeps (n, s) m.history m.conflicts) ≡ true
      → keeps (n, s) (leave q d alive m).history (leave q d alive m).conflicts ≡ true
  unfolding leave any
  leave_keeps n s d true m pos h k = rw (any-append, version-remove_meta) (ground arith)
  leave_keeps n s d false m pos h k =
      rw (is_in_history-populate_history q m.history d true n s h).1 (ground arith)

  sort_out_keeps :
      (t : ℕ × QString) (d : QJsonObject) (ds : List QJsonObject) (m : Merge)
      → 0 < t.0
      → IsHistory m.history
      → (any (has_tokens q t) (d ∷ ds) || keeps t m.history m.conflicts) ≡ true
      → (has_tokens q t (sort_out q (d ∷ ds) m).head
          || keeps t (sort_out q (d ∷ ds) m).history (sort_out q (d ∷ ds) m).conflicts)
        ≡ true
  unfolding sort_out any
  sort_out_keeps (n, s) d [] m pos h k =
      rw (is_in_history-populate_history q m.history d false n s h).1 (ground arith)
  sort_out_keeps (n, s) d (e ∷ ds) m pos h k =
      let alive = not (is_deleted d) && not (any (is_ancestor_of q d) (e ∷ ds)) in
      sort_out_keeps (n, s) e ds (leave q d alive m) pos (leave-IsHistory d alive m h)
        (ground (arith, leave_keeps n s d alive m pos h))

  -- The object that a merge of documents leaves.
  abbrev pub outcome : List QJsonObject → QJsonObject → QJsonObject
  outcome ds o = write_meta (sort_out q ds (record { head = o; history = []; conflicts = [] }))

  value-outcome :
      (d : QJsonObject) (ds : List QJsonObject) (o : QJsonObject) (j : QString)
      → str_eq meta_str j ≡ false
      → value (outcome (d ∷ ds) o) j ≡ value (last q d ds) j
  value-outcome d ds o j ne =
      let m = sort_out q (d ∷ ds) (record { head = o; history = []; conflicts = [] }) in
      (write_meta_lem m.head m.history m.conflicts).2 j ne
      ∙ ap (λ (w : QJsonObject). value w j) (sort_out_head d ds _)

  version-outcome :
      (d : QJsonObject) (ds : List QJsonObject) (o : QJsonObject)
      → version (outcome (d ∷ ds) o) ≡ version (last q d ds)
  unfolding version
  version-outcome d ds o = ap to_string (value-outcome d ds o version_str (unfold str_eq in refl))

  pub outcome_ge :
      (ds : List QJsonObject) (o x : QJsonObject)
      → IsSorted q ds
      → Reaches q ds x
      → version_lt q (outcome ds o) x ≡ false
  outcome_ge [] o x s r = absurd r
  outcome_ge (d ∷ ds) o x s r =
      unfold version_lt in
      rw (version-outcome d ds o) (unfold version_lt in last-Reaches q d x ds s r)

  last-AllUuid :
      (id : ℕ) (d : QJsonObject) (ds : List QJsonObject)
      → AllUuid q id (d ∷ ds)
      → uuid q (last q d ds) ≡ id
  last-AllUuid id d [] a = a.0
  last-AllUuid id d (e ∷ ds) a = last-AllUuid id e ds a.1

  pub uuid-outcome :
      (id : ℕ) (ds : List QJsonObject) (o x : QJsonObject)
      → AllUuid q id ds
      → Reaches q ds x
      → uuid q (outcome ds o) ≡ id
  uuid-outcome id [] o x a r = absurd r
  uuid-outcome id (d ∷ ds) o x a r =
      unfold uuid in
      (ap (λ (v : Value). q.parse_uuid (to_string v))
          (value-outcome d ds o uuid_str (unfold str_eq in refl))
        ∙ last-AllUuid id d ds a)

  pub outcome_keeps :
      (t : ℕ × QString) (ds : List QJsonObject) (o : QJsonObject)
      → 0 < t.0
      → any (has_tokens q t) ds ≡ true
      → (has_tokens q t (outcome ds o)
          || keeps t (history_of (outcome ds o)) (conflicts_of (outcome ds o)))
        ≡ true
  unfolding any
  outcome_keeps t [] o pos k = cc
  outcome_keeps t (d ∷ ds) o pos k =
      let m = sort_out q (d ∷ ds) (record { head = o; history = []; conflicts = [] }) in
      let after = write_meta_lem m.head m.history m.conflicts in
      let won : version (outcome (d ∷ ds) o) ≡ version m.head =
        unfold version in ap to_string (after.2 version_str (unfold str_eq in refl)) in
      rw (won, after.0, after.1) (sort_out_keeps t d ds _ pos tt (ground (arith, k)))

  -- Whatever the documents are, the history that is written is well formed.
  pub outcome-IsHistory :
      (ds : List QJsonObject) (o : QJsonObject) → IsHistory (history_of (outcome ds o))
  outcome-IsHistory ds o =
      let m = sort_out q ds (record { head = o; history = []; conflicts = [] }) in
      rw (write_meta_lem m.head m.history m.conflicts).0
        (sort_out-IsHistory ds (record { head = o; history = []; conflicts = [] }) tt)

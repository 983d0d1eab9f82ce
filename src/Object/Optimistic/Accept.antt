-- ===== src/Object/Optimistic/Accept.antt =====
-- Which optimistic writes are accepted, and what a rejected one leaves.
use qtjsondb.Prelude.{
  ℕ, ◌+◌, ◌≡◌, refl, ◌∙◌, Bool, false, ◌||◌, [], ◌∷◌, arith, if◌then◌else◌, any, is_empty,
}
use qtjsondb.Qt.Text.{QString, str_eq, str_eq_iff}
use qtjsondb.Qt.Json.{Value, QJsonArray, QJsonObject, to_object}
use qtjsondb.Qt.Calls.{QtCalls}
use qtjsondb.Object.Version.{version, is_deleted, tokenize_version, content_hash, compute_version}
use qtjsondb.Object.History.{history_of, is_in_history}
use qtjsondb.Object.Optimistic.{
  Update, Write, conflicts_of, eliminate, resolve_conflict, progress_head, resurrect, keep_books,
  accept_replay, prepare, run_update, update_version_optimistic,
}

-- A conflict of this version.
abbrev pub has_version : QString → Value → Bool
has_version v c = str_eq (version (to_object c)) v

-- The loop finds a conflict exactly if there is one, though it passes over some.
pub eliminate_found :
    (is_replay : Bool) (replaced : QString) (conflicts : QJsonArray)
    → (eliminate is_replay replaced conflicts).1 ≡ any (has_version replaced) conflicts
unfolding eliminate any
eliminate_found is_replay replaced [] = refl
eliminate_found is_replay replaced (c ∷ []) = ground arith
eliminate_found is_replay replaced (c ∷ d ∷ rest) =
    ground (arith, eliminate_found is_replay replaced (d ∷ rest))

-- If there is none, all conflicts are left.
pub eliminate_none :
    (is_replay : Bool) (replaced : QString) (conflicts : QJsonArray)
    → any (has_version replaced) conflicts ≡ false
    → (eliminate is_replay replaced conflicts).0 ≡ conflicts
unfolding eliminate any
eliminate_none is_replay replaced [] h = refl
eliminate_none is_replay replaced (c ∷ []) h = ground arith
eliminate_none is_replay replaced (c ∷ d ∷ rest) h =
    ground (arith, eliminate_none is_replay replaced (d ∷ rest))

module _ (q : QtCalls) where
  -- Each step keeps a write valid, and adds its own reason.
  run_update_valid :
      (u : Update) (w : Write)
      → w.is_valid ≡ false
      → (run_update q u w).is_valid ≡ (
          (eliminate u.is_replay u.replaced_version w.conflicts).1
          || (is_empty (version w.head)
              || (str_eq (version w.head) u.replaced_version
                  || (is_deleted w.head || is_in_history w.history w.update_count u.hash))))
  unfolding run_update resolve_conflict progress_head resurrect keep_books accept_replay
  run_update_valid u w h = ground arith

  run_update_rejected :
      (u : Update) (w : Write)
      → w.is_valid ≡ false
      → (run_update q u w).is_valid ≡ false
      → ((run_update q u w).head ≡ w.head)
        × ((run_update q u w).version_written ≡ w.version_written)
  unfolding run_update resolve_conflict progress_head resurrect keep_books accept_replay
  run_update_rejected u w h r = ground arith

  -- The version that a write of `other` has: its content's hash, and a count that is one higher
  -- unless that is the hash of the version it carries.
  abbrev pub is_own_version : QJsonObject → Bool
  is_own_version other = str_eq (content_hash q other) (tokenize_version q (version other)).1

  abbrev pub next_count : QJsonObject → ℕ
  next_count other =
      let n = (tokenize_version q (version other)).0 in if is_own_version other then n else n + 1

  pub prepare_replay :
      (o other : QJsonObject) (track : Bool)
      → (prepare q o other track).0.is_replay ≡ is_own_version other
  unfolding prepare compute_version
  prepare_replay o other track = let (n, h) = tokenize_version q (version other) in ground arith

  pub prepare_hash :
      (o other : QJsonObject) (track : Bool)
      → (prepare q o other track).0.hash ≡ content_hash q other
  unfolding prepare compute_version
  prepare_hash o other track =
      ground (arith, str_eq_iff (content_hash q other) (tokenize_version q (version other)).1)

  pub prepare_count :
      (o other : QJsonObject) (track : Bool)
      → (prepare q o other track).1.update_count ≡ next_count other
  unfolding prepare compute_version
  prepare_count o other track = ground arith

  prepare_fresh :
      (o other : QJsonObject) (track : Bool)
      → ((prepare q o other track).1.head ≡ o)
        × ((prepare q o other track).1.version_written ≡ [])
        × ((prepare q o other track).1.is_valid ≡ false)
  unfolding prepare
  prepare_fresh o other track = (refl, refl, refl)

  -- An optimistic write is accepted exactly if a conflict has the version that it carries, or
  -- the object has no version or that one, or is deleted, or has the version that would be
  -- written in its history.
  pub update_version_optimistic-is_valid :
      (o other : QJsonObject) (track : Bool)
      → (update_version_optimistic q o other track).is_valid ≡ (
          any (has_version (version other)) (conflicts_of o)
          || (is_empty (version o)
              || (str_eq (version o) (version other)
                  || (is_deleted o
                      || is_in_history (history_of o) (next_count other) (content_hash q other)))))
  unfolding update_version_optimistic
  update_version_optimistic-is_valid o other track =
      let (u, w) = prepare q o other track in
      rw
        (
          run_update_valid u w (prepare_fresh o other track).2,
          eliminate_found u.is_replay u.replaced_version w.conflicts,
          prepare_hash o other track,
          prepare_count o other track,
        )
        (unfold prepare in refl)

  -- A rejected optimistic write leaves the object as it was, and gives no version.
  pub update_version_optimistic_rejected :
      (o other : QJsonObject) (track : Bool)
      → (update_version_optimistic q o other track).is_valid ≡ false
      → ((update_version_optimistic q o other track).head ≡ o)
        × ((update_version_optimistic q o other track).version_written ≡ [])
  unfolding update_version_optimistic
  update_version_optimistic_rejected o other track r =
      let (u, w) = prepare q o other track in
      let start = prepare_fresh o other track in
      let kept = run_update_rejected u w start.2 r in (kept.0 ∙ start.0, kept.1 ∙ start.1)

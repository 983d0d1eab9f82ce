-- ===== src/Object/History/Members.antt =====
-- A history as a set of versions: what adding one does to the members and to the form.
use qtjsondb.Prelude.{
  ℕ, zero, suc, ◌+◌, ◌-◌, ◌<◌, max, ◌≡◌, refl, Bool, ◌&&◌, ◌||◌, [], ◌∷◌, ◌++◌, arith, ◌==◌,
  if◌then◌else◌, length, length-append,
}
use qtjsondb.Qt.Text.{QString, str_eq}
use qtjsondb.Qt.Json.{Value, null, QJsonArray}
use qtjsondb.Object.History.{
  at, replace, append_nulls, add_hash, add_ancestor, is_known, is_in_history,
}
use qtjsondb.Object.History.Hashes.{IsEntry, add_hash-IsEntry, is_known-add_hash}

-- Every entry is null, a hash, or several hashes in ascending order.
abbrev pub IsHistory : QJsonArray → Type 0
IsHistory [] = Unit
IsHistory (v ∷ vs) = IsEntry v × IsHistory vs

length-append_nulls : (n : ℕ) (vs : QJsonArray) → length (append_nulls n vs) ≡ n + length vs
unfolding append_nulls
length-append_nulls zero vs = omega arith
length-append_nulls (suc n) vs =
    omega (arith, length-append_nulls n (vs ++ null ∷ []), length-append {0} vs (null ∷ []))

length-replace : (vs : QJsonArray) (i : ℕ) (w : Value) → length (replace vs i w) ≡ length vs
unfolding replace
length-replace [] i w = refl
length-replace (v ∷ vs) zero w = refl
length-replace (v ∷ vs) (suc i) w = omega (arith, length-replace vs i w)

append_null-IsHistory : (vs : QJsonArray) → IsHistory vs → IsHistory (vs ++ null ∷ [])
append_null-IsHistory [] h = (tt, tt)
append_null-IsHistory (v ∷ vs) h = (h.0, append_null-IsHistory vs h.1)

append_nulls-IsHistory : (n : ℕ) (vs : QJsonArray) → IsHistory vs → IsHistory (append_nulls n vs)
unfolding append_nulls
append_nulls-IsHistory zero vs h = h
append_nulls-IsHistory (suc n) vs h =
    append_nulls-IsHistory n (vs ++ null ∷ []) (append_null-IsHistory vs h)

replace-IsHistory :
    (vs : QJsonArray) (i : ℕ) (w : Value) → IsHistory vs → IsEntry w → IsHistory (replace vs i w)
unfolding replace
replace-IsHistory [] i w h e = tt
replace-IsHistory (v ∷ vs) zero w h e = (e, h.1)
replace-IsHistory (v ∷ vs) (suc i) w h e = (h.0, replace-IsHistory vs i w h.1 e)

at-IsEntry : (vs : QJsonArray) (i : ℕ) → IsHistory vs → i < length vs → IsEntry (at vs i)
unfolding at
at-IsEntry [] i h lt = elim lt [ ]
at-IsEntry (v ∷ vs) zero h lt = h.0
at-IsEntry (v ∷ vs) (suc i) h lt = at-IsEntry vs i h.1 (omega arith)

-- What is known at an index.
unfoldable pub known_at : QJsonArray → ℕ → QString → Bool
known_at vs i s = is_known (at vs i) s

known_at-append_null :
    (vs : QJsonArray) (i : ℕ) (s : QString) → known_at (vs ++ null ∷ []) i s ≡ known_at vs i s
unfolding known_at at is_known
known_at-append_null [] zero s = refl
known_at-append_null [] (suc i) s = refl
known_at-append_null (v ∷ vs) zero s = refl
known_at-append_null (v ∷ vs) (suc i) s = known_at-append_null vs i s

known_at-append_nulls :
    (n : ℕ) (vs : QJsonArray) (i : ℕ) (s : QString)
    → known_at (append_nulls n vs) i s ≡ known_at vs i s
unfolding append_nulls
known_at-append_nulls zero vs i s = refl
known_at-append_nulls (suc n) vs i s =
    rw (known_at-append_nulls n (vs ++ null ∷ []) i s) (known_at-append_null vs i s)

at-replace :
    (vs : QJsonArray) (i j : ℕ) (w : Value)
    → i < length vs
    → at (replace vs i w) j ≡ (if i == j then w else at vs j)
unfolding at replace
at-replace [] i j w lt = elim lt [ ]
at-replace (v ∷ vs) zero zero w lt = refl
at-replace (v ∷ vs) zero (suc j) w lt = ground arith
at-replace (v ∷ vs) (suc i) zero w lt = ground arith
at-replace (v ∷ vs) (suc i) (suc j) w lt = ground (arith, at-replace vs i j w)

-- Out of range nothing is known, so the test of the range changes nothing.
pub is_in_history-known_at :
    (vs : QJsonArray) (i : ℕ) (s : QString) → is_in_history vs (suc i) s ≡ known_at vs i s
unfolding is_in_history known_at at is_known
is_in_history-known_at [] i s = ground arith
is_in_history-known_at (v ∷ vs) zero s = ground arith
is_in_history-known_at (v ∷ vs) (suc i) s = ground (arith, is_in_history-known_at vs i s)

known_at-add_hash :
    (vs : QJsonArray) (i j : ℕ) (hash s : QString)
    → IsHistory vs
    → i < length vs
    → known_at (replace vs i (add_hash (at vs i) hash)) j s
      ≡ (known_at vs j s || ((i == j) && str_eq hash s))
unfolding known_at
known_at-add_hash vs i j hash s h lt =
    rw (at-replace vs i j (add_hash (at vs i) hash) lt)
      (ground (arith, is_known-add_hash (at vs i) hash s (at-IsEntry vs i h lt)))

padded_length : (n : ℕ) (vs : QJsonArray) → n < length (append_nulls (suc n - length vs) vs)
padded_length n vs = omega (arith, length-append_nulls (suc n - length vs) vs)

-- After adding a version of a positive count to a well-formed history, it has the versions it had
-- and the new one, and no others.
pub is_in_history-add_ancestor :
    (history : QJsonArray) (n m : ℕ) (hash s : QString)
    → IsHistory history
    → 0 < n
    → is_in_history (add_ancestor history n hash) m s
      ≡ (is_in_history history m s || ((n == m) && str_eq hash s))
is_in_history-add_ancestor history zero m hash s h pos = elim pos [ ]
is_in_history-add_ancestor history (suc n) zero hash s h pos = unfold is_in_history in ground arith
is_in_history-add_ancestor history (suc n) (suc m) hash s h pos =
    rw
      (
        is_in_history-known_at (add_ancestor history (suc n) hash) m s,
        is_in_history-known_at history m s,
      )
      (unfold add_ancestor in
        rw
          (
            known_at-add_hash (append_nulls (suc n - length history) history) n m hash s
                (append_nulls-IsHistory (suc n - length history) history h)
                (padded_length n history),
            known_at-append_nulls (suc n - length history) history m s,
          )
          (ground arith))

-- Adding a version to a well-formed history gives a well-formed one.
pub add_ancestor-IsHistory :
    (history : QJsonArray) (n : ℕ) (hash : QString)
    → IsHistory history
    → IsHistory (add_ancestor history n hash)
unfolding add_ancestor
add_ancestor-IsHistory history zero hash h = h
add_ancestor-IsHistory history (suc n) hash h =
    let padded = append_nulls (suc n - length history) history in
    let formed = append_nulls-IsHistory (suc n - length history) history h in
    replace-IsHistory padded n _ formed
      (add_hash-IsEntry (at padded n) hash (at-IsEntry padded n formed (padded_length n history)))

-- Adding a version makes a history as long as its count, if it was shorter, and otherwise leaves
-- its length.
pub length-add_ancestor :
    (history : QJsonArray) (n : ℕ) (hash : QString)
    → length (add_ancestor history n hash) ≡ max (length history) n
unfolding add_ancestor
length-add_ancestor history zero hash = omega arith
length-add_ancestor history (suc n) hash =
    let padded = append_nulls (suc n - length history) history in
    omega (
      arith,
      length-replace padded n (add_hash (at padded n) hash),
      length-append_nulls (suc n - length history) history,
    )

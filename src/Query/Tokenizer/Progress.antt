-- ===== src/Query/Tokenizer/Progress.antt =====
-- Reading tokens ends, moves on, and changes no character.
use qtjsondb.Prelude.{
  ℕ, zero, suc, ◌<◌, ◌≡◌, refl, ap, ◌≢◌, ◌⊎◌, inl, inr, Bool, true, false, ◌&&◌, not, List, [], ◌∷◌,
  ◌++◌, Option, none, some, arith, is_empty, if◌then◌else◌, length, length-append, drop, take, ◌==◌,
  Bool-cases, ==_iff,
}
use mathlib.Core.List.{append_assoc}
use qtjsondb.Qt.Text.{QString, starts_with}
use qtjsondb.Qt.Calls.{QtCalls}
use qtjsondb.Query.Tokenizer.{
  s_tokens, find_token, match_string, extend, Round, token, go_on, quoted, operator_round, proceed,
  read_unit, index_round, next_round, next_token, get_next_token,
}

-- A token of the list, if it is found, is a beginning of the text.
starts_with-take :
    (n : ℕ) (s t : QString) → starts_with (take n s) t ≡ true → s ≡ t ++ drop (length t) s
unfolding starts_with
starts_with-take n s [] h = refl
starts_with-take zero s (c ∷ t) h = cc
starts_with-take (suc n) [] (c ∷ t) h = cc
starts_with-take (suc n) (a ∷ s) (c ∷ t) h = ground (arith, starts_with-take n s t)

-- What was found is a token of the list, so a beginning of the text, and not empty.
abbrev AllPos : List QString → Type 0
AllPos [] = Unit
AllPos (t ∷ ts) = (0 < length t) × AllPos ts

abbrev Found : QString → Option QString → Type 0
Found s none = Unit
Found s (some t) = (0 < length t) × (s ≡ t ++ drop (length t) s)

find_token-Found : (ts : List QString) (s : QString) → AllPos ts → Found s (find_token ts s)
unfolding find_token
find_token-Found [] s a = tt
find_token-Found (t ∷ ts) s a = elim (Bool-cases (starts_with (take 3 s) t)) [
  | inl h ↦ rw h (a.0, starts_with-take 3 s t h)
  | inr h ↦ rw h (find_token-Found ts s a.1)
]

abbrev Cut : QString → Option (QString × QString) → Type 0
Cut s none = Unit
Cut s (some (body, rest)) = s ≡ body ++ rest

extend-Cut :
    (c : ℕ) (s : QString) (o : Option (QString × QString)) → Cut s o → Cut (c ∷ s) (extend c o)
extend-Cut c s none h = tt
extend-Cut c s (some (body, rest)) h = ap (◌∷◌ c) h

match_string-Cut : (escaped : Bool) (s : QString) → Cut s (match_string escaped s)
unfolding match_string
match_string-Cut escaped [] = tt
match_string-Cut escaped (c ∷ s) = elim (Bool-cases (not escaped && (c == 34))) [
  | inl h ↦ rw h refl
  | inr h ↦ rw h (extend-Cut c s (match_string (c == 92) s) (match_string-Cut (c == 92) s))
]

module _ (q : QtCalls) where
  abbrev pub AllSpace : QString → Type 0
  AllSpace [] = Unit
  AllSpace (c ∷ s) = (q.is_space c ≡ true) × AllSpace s

  -- A token with what is left of the text `s`: all of the text is used up, or it is the token
  -- between spaces and what is left.
  abbrev pub Takes : QString → QString → QString → Type 0
  Takes s t rest =
      ((t ≡ []) × (rest ≡ []))
      ⊎ ((lead : QString) × (gap : QString) × AllSpace lead
          × AllSpace gap
          × (0 < length t)
          × (s ≡ lead ++ (t ++ (gap ++ rest))))

  abbrev Splits : QString → QString → Round → Type 0
  Splits result s (token t rest) = Takes (result ++ s) t rest
  Splits result s (go_on result' rest) =
      (length rest < length s)
      × ((result' ++ rest ≡ result ++ s)
          ⊎ ((c : ℕ) × (q.is_space c ≡ true) × (s ≡ c ∷ rest) × (result ≡ []) × (result' ≡ [])))

  operator_round-Splits :
      (result : QString) (c : ℕ) (s : QString) (o : Option QString)
      → Found (c ∷ s) o
      → Splits result (c ∷ s) (operator_round result c s o)
  operator_round-Splits result c s none h = (omega arith, inl (append_assoc result (c ∷ []) s))
  operator_round-Splits [] c s (some t) h = inr ([], [], tt, tt, h.0, h.1)
  operator_round-Splits (r ∷ rs) c s (some t) h = inr ([], [], tt, tt, omega arith, refl)

  read_unit-Splits :
      (result : QString) (c : ℕ) (s : QString) → Splits result (c ∷ s) (read_unit result c s)
  read_unit-Splits result c s =
      operator_round-Splits result c s (find_token s_tokens (c ∷ s))
        (find_token-Found s_tokens (c ∷ s) (omega arith))

  index_round-Splits :
      (result : QString) (c : ℕ) (s : QString) → Splits result (c ∷ s) (index_round result c s)
  unfolding index_round
  index_round-Splits result c [] = read_unit-Splits result c []
  index_round-Splits result c (a ∷ []) = read_unit-Splits result c (a ∷ [])
  index_round-Splits result c (a ∷ b ∷ s) =
      elim (Bool-cases (not (is_empty result) && ((c == b'[') && (b == b']')))) [
        | inl h ↦ rw h (omega arith, inl (append_assoc result (c ∷ a ∷ b ∷ []) s))
        | inr h ↦ rw h (read_unit-Splits result c (a ∷ b ∷ s))
      ]

  quoted-Splits :
      (result : QString) (s : QString) (o : Option (QString × QString))
      → Cut s o
      → Splits result (34 ∷ s) (quoted result o)
  quoted-Splits result s none h = inl (refl, refl)
  quoted-Splits result s (some (body, rest)) h = inr (
    [],
    [],
    tt,
    tt,
    omega (arith, length-append {0} result (34 ∷ body)),
    rw append_assoc (ap (λ (r : QString). result ++ 34 ∷ r) h),
  )

  space_round :
      (result : QString) (c : ℕ) (s : QString)
      → q.is_space c ≡ true
      → Splits result (c ∷ s) (if is_empty result then go_on [] s else token result s)
  space_round [] c s h = (omega arith, inr (c, h, refl, refl, refl))
  space_round (r ∷ rs) c s h = inr ([], c ∷ [], tt, (h, tt), omega arith, refl)

  next_round-Splits :
      (result : QString) (c : ℕ) (s : QString) → Splits result (c ∷ s) (next_round q result c s)
  unfolding next_round
  next_round-Splits result c s = elim (Bool-cases (c == 34)) [
    | inl h ↦ rw (h, (==_iff c 34).0 h) (quoted-Splits result s _ (match_string-Cut false s))
    | inr h ↦ rw h (elim (Bool-cases (q.is_space c)) [
      | inl k ↦ rw k (space_round result c s k)
      | inr k ↦ rw k (index_round-Splits result c s)
    ])
  ]

  -- The outcome of a run on the text `s`.
  abbrev Outcome : QString → Option (QString × QString) → Type 0
  Outcome s o = (t : QString) × (rest : QString) × (o ≡ some (t, rest)) × Takes s t rest

  skip_space :
      (c : ℕ) (s t rest : QString) → q.is_space c ≡ true → Takes s t rest → Takes (c ∷ s) t rest
  skip_space c s t rest h (inl e) = inl e
  skip_space c s t rest h (inr (lead, gap, l, g, pos, e)) =
      inr (c ∷ lead, gap, (h, l), g, pos, ap (◌∷◌ c) e)

  skip_Outcome :
      (c : ℕ) (rest result result' s : QString) (o : Option (QString × QString))
      → q.is_space c ≡ true
      → s ≡ c ∷ rest
      → result ≡ []
      → result' ≡ []
      → Outcome (result' ++ rest) o
      → Outcome (result ++ s) o
  skip_Outcome c rest result result' s o sp es er er' (t, left, e, taken) =
      (t, left, e, rw (er, es) (skip_space c rest t left sp (rw er' at taken)))

  proceed-Outcome :
      (k : QString → QString → Option (QString × QString)) (n : ℕ) (result s : QString) (r : Round)
      → ((result' rest : QString) → length rest < n → Outcome (result' ++ rest) (k result' rest))
      → length s < suc n
      → Splits result s r
      → Outcome (result ++ s) (proceed k r)
  proceed-Outcome k n result s (token t rest) next h taken = (t, rest, refl, taken)
  proceed-Outcome k n result s (go_on result' rest) next h (shorter, inl e) =
      rw (← e) (next result' rest (omega arith))
  proceed-Outcome k n result s (go_on result' rest) next h (shorter, inr (c, sp, es, er, er')) =
      skip_Outcome c rest result result' s _ sp es er er' (next result' rest (omega arith))

  next_token_total :
      (fuel : ℕ) (result s : QString)
      → length s < fuel
      → Outcome (result ++ s) (next_token q fuel result s)
  unfolding next_token
  next_token_total zero result s h = absurd (omega arith)
  next_token_total (suc fuel) result [] h = ([], [], refl, inl (refl, refl))
  next_token_total (suc fuel) result (c ∷ s) h =
      proceed-Outcome (next_token q fuel) fuel result (c ∷ s) (next_round q result c s)
        (next_token_total fuel) h (next_round-Splits result c s)

  -- With fuel for each unit of the input and one more the loop ends. Either its token is empty
  -- and the input is used up, or the token is not empty, stands in the input unchanged after
  -- spaces only, and what is left is what follows it after spaces only.
  pub get_next_token-Takes :
      (input : QString)
      → (next_token q (suc (length input)) [] input ≡ some (get_next_token q input))
        × Takes input (get_next_token q input).0 (get_next_token q input).1
  unfolding get_next_token
  get_next_token-Takes input =
      let (t, rest, e, taken) = next_token_total (suc (length input)) [] input (omega arith) in
      rw e (refl, taken)

  pub Takes-shorter : (s t rest : QString) → t ≢ [] → Takes s t rest → length rest < length s
  Takes-shorter s t rest h (inl e) = absurd (h e.0)
  Takes-shorter s t rest h (inr (lead, gap, l, g, pos, e)) = omega (
    arith,
    ap length e,
    length-append {0} lead (t ++ (gap ++ rest)),
    length-append {0} t (gap ++ rest),
    length-append {0} gap rest,
  )

  -- After reading a token that is not empty less of the input is left.
  pub get_next_token_shorter :
      (input : QString)
      → (get_next_token q input).0 ≢ []
      → length (get_next_token q input).1 < length input
  get_next_token_shorter input h = Takes-shorter input _ _ h (get_next_token-Takes input).1

-- ===== src/Query/Parser/Reader/Tokens.antt =====
-- Reading tokens ends: a token that is not empty leaves less, and one may be looked at or put back.
use qtjsondb.Prelude.{
  ℕ, suc, ap, ◌++◌, length-append, ◌+◌, ◌≤◌, ◌<◌, ◌≡◌, ◌≢◌, refl, Bool, true, false, [], ◌∷◌, arith,
  is_empty, length, if◌then◌else◌, Bool-cases, inl, inr,
}
use qtjsondb.Qt.Text.{QString, starts_with}
use qtjsondb.Qt.Calls.{QtCalls}
use qtjsondb.Query.Tokenizer.{Tokenizer, pop, peek, pop_identifier, push, unquote, get_next_token}
use qtjsondb.Query.Tokenizer.Progress.{
  Takes, get_next_token-Takes, get_next_token_shorter, Takes-shorter,
}
use qtjsondb.Query.Parser.Reader.{Reader, ◌>>=◌, push_token, pop_token, peek_token, next_identifier}
use qtjsondb.Query.Parser.Reader.Runs.{measure, Ends, Ends-le, Runs}

module _ (q : QtCalls) where
  rest_length : (s t rest : QString) → Takes q s t rest → length rest ≤ length s
  rest_length s t rest (inl e) = omega (arith, ap length e.1)
  rest_length s t rest (inr (lead, gap, l, g, pos, e)) = omega (
    arith,
    ap length e,
    length-append {0} lead (t ++ (gap ++ rest)),
    length-append {0} t (gap ++ rest),
    length-append {0} gap rest,
  )

  -- A token that is not empty is taken from what is left.
  pub measure-pop :
      (tk : Tokenizer)
      → (measure (pop q tk).1 ≤ measure tk)
        × ((pop q tk).0 ≢ [] → measure (pop q tk).1 < measure tk)
        × ((pop q tk).1.pushed ≡ [])
  unfolding pop
  measure-pop tk = elim (Bool-cases (is_empty tk.pushed)) [
    | inl h ↦ rw h (
      omega (arith, rest_length tk.input _ _ (get_next_token-Takes q tk.input).1),
      (λ ne. omega (arith, get_next_token_shorter q tk.input ne)),
      refl,
    )
    | inr h ↦ rw h (omega arith, (λ ne. omega arith), refl)
  ]

  -- Reading takes a token from what is left, unless what is read is empty.
  pub record Reads (read : Tokenizer → QString × Tokenizer) : Type 0 where
    pub at_most : (tk : Tokenizer) → measure (read tk).1 ≤ measure tk
    pub takes : (tk : Tokenizer) → (read tk).0 ≢ [] → measure (read tk).1 < measure tk

  pub pop-Reads : Reads (pop q)
  pop-Reads = record { at_most = λ tk. (measure-pop tk).0; takes = λ tk. (measure-pop tk).1 }

  unquote_empty : (t : QString) → t ≡ [] → unquote t ≡ []
  unfolding unquote
  unquote_empty t e = rw e (unfold starts_with in refl)

  pub pop_identifier-Reads : Reads (pop_identifier q)
  unfolding pop_identifier
  pop_identifier-Reads = record {
    at_most = λ tk. (measure-pop tk).0;
    takes = λ tk ne. (measure-pop tk).1 (λ e. ne (unquote_empty _ e));
  }

  peeked :
      (s : QString) (r : QString × QString)
      → Takes q s r.0 r.1
      → length r.1 + (if is_empty r.0 then 0 else 1) ≤ length s + 0
  peeked s ([], rest) h = omega (arith, rest_length s [] rest h)
  peeked s (c ∷ t, rest) h = omega (arith, Takes-shorter q s (c ∷ t) rest (λ e. cc) h)

  measure-peek :
      (tk : Tokenizer)
      → (measure (peek q tk).1 ≤ measure tk) × ((peek q tk).1.pushed ≡ (peek q tk).0)
  unfolding peek
  measure-peek tk = elim (Bool-cases (is_empty tk.pushed)) [
    | inl h ↦
        rw h (peeked tk.input (get_next_token q tk.input) (get_next_token-Takes q tk.input).1, refl)
    | inr h ↦ rw h (ground arith, refl)
  ]

  module _ {A : Type 0} (n : ℕ) (f : QString → Reader A) where
    read_cases :
        (tk tk' : Tokenizer) (t : QString)
        → measure tk < suc n
        → measure tk' ≤ measure tk
        → (t ≢ [] → measure tk' < measure tk)
        → ((t : QString) → t ≢ [] → Runs n (f t))
        → Runs (suc n) (f [])
        → Ends (measure tk) (f t tk')
    read_cases tk tk' [] h le lt some_token no_token =
        Ends-le (measure tk') (measure tk) (f [] tk') le (no_token.at tk' (omega arith))
    read_cases tk tk' (c ∷ t) h le lt some_token no_token =
        let ne : c ∷ t ≢ [] = λ e. cc in
        Ends-le (measure tk') (measure tk) (f (c ∷ t) tk') le
          ((some_token (c ∷ t) ne).at tk' (omega (arith, lt ne)))

    -- After a token there is fuel for one less.
    pub Runs-pop :
        ((t : QString) → t ≢ [] → Runs n (f t))
        → Runs (suc n) (f [])
        → Runs (suc n) (pop_token q >>= f)
    unfolding ◌>>=◌ pop_token
    Runs-pop some_token no_token = record {
      at = λ tk h.
          read_cases tk (pop q tk).1 (pop q tk).0 h (pop-Reads.at_most tk) (pop-Reads.takes tk)
            some_token no_token;
    }

    pub Runs-identifier :
        ((t : QString) → t ≢ [] → Runs n (f t))
        → Runs (suc n) (f [])
        → Runs (suc n) (next_identifier q >>= f)
    unfolding ◌>>=◌ next_identifier
    Runs-identifier some_token no_token = record {
      at = λ tk h.
          read_cases tk (pop_identifier q tk).1 (pop_identifier q tk).0 h
            (pop_identifier-Reads.at_most tk) (pop_identifier-Reads.takes tk) some_token no_token;
    }

  pub Runs-pop_token : (n : ℕ) → Runs n (pop_token q)
  unfolding pop_token
  Runs-pop_token n = record { at = λ tk h. pop-Reads.at_most tk }

  pub Runs-next_identifier : (n : ℕ) → Runs n (next_identifier q)
  unfolding next_identifier
  Runs-next_identifier n = record { at = λ tk h. pop_identifier-Reads.at_most tk }

  pub Runs-peek_token : (n : ℕ) → Runs n (peek_token q)
  unfolding peek_token
  Runs-peek_token n = record { at = λ tk h. (measure-peek tk).0 }

  -- The same where a token was put back.
  pub record Pending {A : Type 0} (n : ℕ) (m : Reader A) : Type 0 where
    pub at : (tk : Tokenizer) → tk.pushed ≢ [] → measure tk < n → Ends (measure tk) (m tk)

  pub Pending-Runs : {A : Type 0} (n : ℕ) (m : Reader A) → Runs n m → Pending n m
  Pending-Runs n m r = record { at = λ tk ne h. r.at tk h }

  pub Pending-if :
      {A : Type 0} (n : ℕ) (b : Bool) (l r : Reader A)
      → Pending n l
      → Pending n r
      → Pending n (if b then l else r)
  Pending-if n true l r pl pr = pl
  Pending-if n false l r pl pr = pr

  is_empty_nil : (t : QString) → is_empty t ≡ true → t ≡ []
  is_empty_nil [] h = refl
  is_empty_nil (c ∷ t) h = cc

  pushed_popped : (tk : Tokenizer) → tk.pushed ≢ [] → (pop q tk).0 ≢ []
  unfolding pop
  pushed_popped tk ne = elim (Bool-cases (is_empty tk.pushed)) [
    | inl h ↦ absurd (ne (is_empty_nil tk.pushed h))
    | inr h ↦ rw h ne
  ]

  peeked_cases :
      {A : Type 0} (n : ℕ) (f : QString → Reader A) (tk tk' : Tokenizer) (t : QString)
      → measure tk < n
      → measure tk' ≤ measure tk
      → tk'.pushed ≡ t
      → ((t : QString) → t ≢ [] → Pending n (f t))
      → Runs n (f [])
      → Ends (measure tk) (f t tk')
  peeked_cases n f tk tk' [] h le e some_token no_token =
      Ends-le (measure tk') (measure tk) (f [] tk') le (no_token.at tk' (omega arith))
  peeked_cases n f tk tk' (c ∷ t) h le e some_token no_token =
      Ends-le (measure tk') (measure tk) (f (c ∷ t) tk') le
        ((some_token (c ∷ t) (λ k. cc)).at tk' (λ k. cc) (omega arith))

  -- A token that was looked at stands ready.
  pub Runs-peek :
      {A : Type 0} (n : ℕ) (f : QString → Reader A)
      → ((t : QString) → t ≢ [] → Pending n (f t))
      → Runs n (f [])
      → Runs n (peek_token q >>= f)
  unfolding ◌>>=◌ peek_token
  Runs-peek n f some_token no_token = record {
    at = λ tk h.
        peeked_cases n f tk (peek q tk).1 (peek q tk).0 h (measure-peek tk).0 (measure-peek tk).1
          some_token no_token;
  }

  pub Pending-pop :
      {A : Type 0} (n : ℕ) (f : QString → Reader A)
      → ((t : QString) → Runs n (f t))
      → Pending (suc n) (pop_token q >>= f)
  unfolding ◌>>=◌ pop_token
  Pending-pop n f next = record {
    at = λ tk ne h.
        let tk' = (pop q tk).1 in
        let lt = pop-Reads.takes tk (pushed_popped tk ne) in
        Ends-le (measure tk') (measure tk) (f (pop q tk).0 tk') (omega (arith, lt))
          ((next (pop q tk).0).at tk' (omega (arith, lt)));
  }

  -- Nothing is put back, and there is room for one token.
  pub record Popped {A : Type 0} (n : ℕ) (m : Reader A) : Type 0 where
    pub at : (tk : Tokenizer) → tk.pushed ≡ [] → measure tk + 1 < n → Ends (measure tk + 1) (m tk)

  pub Popped-Runs : {A : Type 0} (n : ℕ) (m : Reader A) → Runs n m → Popped n m
  Popped-Runs n m r = record {
    at = λ tk e h.
        Ends-le (measure tk) (measure tk + 1) (m tk) (omega arith) (r.at tk (omega arith));
  }

  pub Popped-if :
      {A : Type 0} (n : ℕ) (b : Bool) (l r : Reader A)
      → Popped n l
      → Popped n r
      → Popped n (if b then l else r)
  Popped-if n true l r pl pr = pl
  Popped-if n false l r pl pr = pr

  measure-push :
      (t : QString) (tk : Tokenizer) → tk.pushed ≡ [] → measure (push tk t) ≤ measure tk + 1
  unfolding push
  measure-push t tk e = ground arith

  pub Popped-push :
      {A : Type 0} (n : ℕ) (t : QString) (m : Reader A)
      → Runs n m
      → Popped n (push_token t >>= λ _. m)
  unfolding ◌>>=◌ push_token
  Popped-push n t m r = record {
    at = λ tk e h.
        let le = measure-push t tk e in
        Ends-le (measure (push tk t)) (measure tk + 1) (m (push tk t)) le
          (r.at (push tk t) (omega (arith, le)));
  }

  popped_cases :
      {A : Type 0} (n : ℕ) (f : QString → Reader A) (tk tk' : Tokenizer) (t : QString)
      → measure tk < n
      → measure tk' ≤ measure tk
      → (t ≢ [] → measure tk' < measure tk)
      → tk'.pushed ≡ []
      → ((t : QString) → t ≢ [] → Popped n (f t))
      → Runs n (f [])
      → Ends (measure tk) (f t tk')
  popped_cases n f tk tk' [] h le lt e some_token no_token =
      Ends-le (measure tk') (measure tk) (f [] tk') le (no_token.at tk' (omega arith))
  popped_cases n f tk tk' (c ∷ t) h le lt e some_token no_token =
      let ne : c ∷ t ≢ [] = λ k. cc in
      Ends-le (measure tk' + 1) (measure tk) (f (c ∷ t) tk') (omega (arith, lt ne))
        ((some_token (c ∷ t) ne).at tk' e (omega (arith, lt ne)))

  -- A token that is taken may be put back.
  pub Runs-pop_put :
      {A : Type 0} (n : ℕ) (f : QString → Reader A)
      → ((t : QString) → t ≢ [] → Popped n (f t))
      → Runs n (f [])
      → Runs n (pop_token q >>= f)
  unfolding ◌>>=◌ pop_token
  Runs-pop_put n f some_token no_token = record {
    at = λ tk h.
        let m = measure-pop tk in
        popped_cases n f tk (pop q tk).1 (pop q tk).0 h m.0 m.1 m.2 some_token no_token;
  }

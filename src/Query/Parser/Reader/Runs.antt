-- ===== src/Query/Parser/Reader/Runs.antt =====
-- Actions on the tokenizer that end: with enough fuel for the tokens in front of it they give a
-- result, and never put back more tokens than they took.
use qtjsondb.Prelude.{
  ℕ, suc, ◌+◌, ◌≤◌, ◌<◌, ◌≡◌, refl, Bool, true, false, Option, none, some, arith, is_empty, length,
  if◌then◌else◌,
}
use qtjsondb.Query.Tokenizer.{Tokenizer}
use qtjsondb.Query.Parser.Reader.{Reader, ◌>>=◌, pure}

-- The units that are left, and one for a token that was put back.
abbrev pub measure : Tokenizer → ℕ
measure tk = length tk.input + (if is_empty tk.pushed then 0 else 1)

-- There is a result, and no more is left than `k`.
abbrev pub Ends : {A : Type 0} → ℕ → Option (A × Tokenizer) → Type 0
Ends k none = ⊥
Ends k (some (a, tk)) = measure tk ≤ k

pub record Runs {A : Type 0} (n : ℕ) (m : Reader A) : Type 0 where
  pub at : (tk : Tokenizer) → measure tk < n → Ends (measure tk) (m tk)

pub Ends-le : {A : Type 0} (k l : ℕ) (o : Option (A × Tokenizer)) → k ≤ l → Ends k o → Ends l o
Ends-le k l none le h = absurd h
Ends-le k l (some (a, tk)) le h = omega arith

bind-Ends :
    {A B : Type 0} (k : ℕ) (m : Reader A) (f : A → Reader B) (tk : Tokenizer)
    (o : Option (A × Tokenizer))
    → m tk ≡ o
    → Ends k o
    → ((a : A) (tk' : Tokenizer) → measure tk' ≤ k → Ends k (f a tk'))
    → Ends k ((m >>= f) tk)
unfolding ◌>>=◌
bind-Ends k m f tk none e h next = absurd h
bind-Ends k m f tk (some (a, tk')) e h next = rw (e, ◌>>=◌, Ends) (next a tk' h)

pub Runs-none : {A : Type 0} (m : Reader A) → Runs 0 m
Runs-none m = record { at = λ tk h. absurd (omega arith) }

pub Runs-pure : {A : Type 0} (n : ℕ) (a : A) → Runs n (pure a)
unfolding pure
Runs-pure n a = record { at = λ tk h. omega arith }

pub Runs-bind :
    {A B : Type 0} (n : ℕ) (m : Reader A) (f : A → Reader B)
    → Runs n m
    → ((a : A) → Runs n (f a))
    → Runs n (m >>= f)
Runs-bind n m f rm rf = record {
  at = λ tk h.
      bind-Ends (measure tk) m f tk (m tk) refl (rm.at tk h)
        (λ a tk' le. Ends-le (measure tk') (measure tk) (f a tk') le ((rf a).at tk' (omega arith)));
}

pub Runs-if :
    {A : Type 0} (n : ℕ) (b : Bool) (l r : Reader A)
    → Runs n l
    → Runs n r
    → Runs n (if b then l else r)
Runs-if n true l r rl rr = rl
Runs-if n false l r rl rr = rr

pub ruleset runs_rules = (Runs-pure, Runs-bind, Runs-if)

pub Runs-suc : {A : Type 0} (n : ℕ) (m : Reader A) → Runs (suc n) m → Runs n m
Runs-suc n m r = record { at = λ tk h. r.at tk (omega arith) }

pub Runs-pure_bind :
    {A B : Type 0} (n : ℕ) (a : A) (f : A → Reader B) → Runs n (f a) → Runs n (pure a >>= f)
unfolding ◌>>=◌ pure
Runs-pure_bind n a f r = record { at = λ tk h. r.at tk h }

bind_assoc-Ends :
    {A B C : Type 0} (k : ℕ) (m : Reader A) (f : A → Reader B) (g : B → Reader C) (tk : Tokenizer)
    (o : Option (A × Tokenizer))
    → m tk ≡ o
    → Ends k ((m >>= λ a. f a >>= g) tk)
    → Ends k (((m >>= f) >>= g) tk)
unfolding ◌>>=◌
bind_assoc-Ends k m f g tk none e h = absurd (rw (e, Ends, ◌>>=◌) at h)
bind_assoc-Ends k m f g tk (some (a, tk')) e h = rw (e, Ends, ◌>>=◌) (rw (e, Ends, ◌>>=◌) at h)

pub Runs-bind_assoc :
    {A B C : Type 0} (n : ℕ) (m : Reader A) (f : A → Reader B) (g : B → Reader C)
    → Runs n (m >>= λ a. f a >>= g)
    → Runs n ((m >>= f) >>= g)
Runs-bind_assoc n m f g r = record {
  at = λ tk h. bind_assoc-Ends (measure tk) m f g tk (m tk) refl (r.at tk h);
}

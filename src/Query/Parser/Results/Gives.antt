-- ===== src/Query/Parser/Results/Gives.antt =====
-- Actions on the tokenizer whose results all have a property.
use qtjsondb.Prelude.{◌≡◌, subst, refl, Bool, true, false, Option, none, some, if◌then◌else◌}
use qtjsondb.Query.Tokenizer.{Tokenizer}
use qtjsondb.Query.Parser.Reader.{Reader, ◌>>=◌, pure, out_of_fuel}

-- Every result of an action has the property.
pub record Gives {A : Type 0} (Q : A → Type 0) (m : Reader A) : Type 0 where
  pub at : (tk : Tokenizer) (a : A) (tk' : Tokenizer) → m tk ≡ some (a, tk') → Q a

bind-some :
    {A B : Type 0} (Q : B → Type 0) (m : Reader A) (f : A → Reader B) (tk : Tokenizer)
    (o : Option (A × Tokenizer)) (b : B) (tk' : Tokenizer)
    → ((a : A) (tk' : Tokenizer) → o ≡ some (a, tk') → Gives Q (f a))
    → m tk ≡ o
    → (m >>= f) tk ≡ some (b, tk')
    → Q b
unfolding ◌>>=◌
bind-some Q m f tk none b tk' next e h = let h' = rw (e, ◌>>=◌) at h in cc
bind-some Q m f tk (some (a, tk1)) b tk' next e h =
    (next a tk1 refl).at tk1 b tk' (rw (e, ◌>>=◌) at h)

pub Gives-bind :
    {A B : Type 0} (P : A → Type 0) (Q : B → Type 0) (m : Reader A) (f : A → Reader B)
    → Gives P m
    → ((a : A) → P a → Gives Q (f a))
    → Gives Q (m >>= f)
Gives-bind P Q m f gm gf = record {
  at = λ tk b tk' h. bind-some Q m f tk (m tk) b tk' (λ a tk1 e. gf a (gm.at tk a tk1 e)) refl h;
}

-- What a step before does not matter.
pub Gives-next :
    {A B : Type 0} (Q : B → Type 0) (m : Reader A) (f : A → Reader B)
    → ((a : A) → Gives Q (f a))
    → Gives Q (m >>= f)
Gives-next Q m f gf = record {
  at = λ tk b tk' h. bind-some Q m f tk (m tk) b tk' (λ a tk1 e. gf a) refl h;
}

pub Gives-pure : {A : Type 0} (Q : A → Type 0) (a : A) → Q a → Gives Q (pure a)
unfolding pure
Gives-pure Q a h = record { at = λ tk b tk' e. subst Q (cc) h }

pub Gives-none : {A : Type 0} (Q : A → Type 0) → Gives Q (out_of_fuel {A = A})
unfolding out_of_fuel
Gives-none Q = record { at = λ tk b tk' e. cc }

pub Gives-if :
    {A : Type 0} (Q : A → Type 0) (b : Bool) (l r : Reader A)
    → Gives Q l
    → Gives Q r
    → Gives Q (if b then l else r)
Gives-if Q true l r gl gr = gl
Gives-if Q false l r gl gr = gr

-- ===== src/Schema/Required/Adds.antt =====
-- src/partition/jsondbcheckpoints_p.h: how much the constructors of the checks add to m_maxRequired.
use qtjsondb.Prelude.{
  ℕ, ◌+◌, ◌≡◌, refl, Bool, true, false, Option, none, some, arith, if◌then◌else◌,
}
use qtjsondb.Schema.Compile.{
  Checks, Schema, max_of, checks, Compiling, Compile, ◌>>=◌, done, and_then, own_count,
}
use qtjsondb.Schema.Required.{required_checks}

-- A constructor adds f of what it makes to the count.
abbrev pub Adds : {A : Type 0} → (A → ℕ) → Compiling → Option (A × Compiling) → Type 0
Adds f s none = Unit
Adds f s (some (a, t)) = t.max_required ≡ f a + s.max_required

abbrev pub nothing : {A : Type 0} → A → ℕ
nothing a = 0

-- The count of a schema, and that of the schema around it.
abbrev pub IsCounted : ℕ → Option (Schema × Compiling) → Type 0
IsCounted outer none = Unit
IsCounted outer (some (s, t)) = (max_of s ≡ required_checks (checks s)) × (t.max_required ≡ outer)

pub shift-Adds :
    {A : Type 0} (n : ℕ) (f h : A → ℕ) (s t : Compiling) (r : Option (A × Compiling))
    → t.max_required ≡ n + s.max_required
    → Adds f t r
    → ((a : A) → f a + n ≡ h a)
    → Adds h s r
shift-Adds n f h s t none p q e = tt
shift-Adds n f h s t (some (a, u)) p q e = omega (arith, p, q, e a)

pub and_then-Adds :
    {A B : Type 0} (f : A → ℕ) (g : A → B → ℕ) (h : B → ℕ) (r : Option (A × Compiling))
    (k : A → Compile B) (s : Compiling)
    → Adds f s r
    → ((a : A) (t : Compiling) → Adds (g a) t (k a t))
    → ((a : A) (b : B) → g a b + f a ≡ h b)
    → Adds h s (and_then r k)
and_then-Adds f g h none k s p q e = tt
and_then-Adds f g h (some (a, t)) k s p q e = shift-Adds (f a) (g a) h s t (k a t) p (q a t) (e a)

pub map-Adds :
    {A B : Type 0} (f : A → ℕ) (h : B → ℕ) (k : A → B) (s : Compiling) (r : Option (A × Compiling))
    → Adds f s r
    → ((a : A) → h (k a) ≡ f a)
    → Adds h s (and_then r (λ a. done (k a)))
map-Adds f h k s none p e = tt
map-Adds f h k s (some (a, t)) p e = omega (arith, p, e a)

pub tail-Adds :
    {B C : Type 0} (n : ℕ) (g : B → ℕ) (h : C → ℕ) (k : B → C) (s t : Compiling)
    (r : Option (B × Compiling))
    → t.max_required ≡ n + s.max_required
    → Adds g t r
    → ((b : B) → h (k b) ≡ n + g b)
    → Adds h s (and_then r (λ b. done (k b)))
tail-Adds n g h k s t none p q e = tt
tail-Adds n g h k s t (some (b, u)) p q e = omega (arith, p, q, e b)

pub pair-Adds :
    {A B C : Type 0} (f : A → ℕ) (g : B → ℕ) (h : C → ℕ) (k : A → B → C) (s : Compiling)
    (r : Option (A × Compiling)) (m : Compile B)
    → Adds f s r
    → ((t : Compiling) → Adds g t (m t))
    → ((a : A) (b : B) → h (k a b) ≡ f a + g b)
    → Adds h s (and_then r (λ a. m >>= λ b. done (k a b)))
pair-Adds f g h k s none m p q e = tt
pair-Adds f g h k s (some (a, t)) m p q e = tail-Adds (f a) g h (k a) s t (m t) p (q t) (e a)

pub own_count-Adds :
    (n : ℕ) (s : Compiling) (r : Option (Checks × Compiling))
    → Adds nothing s (own_count s.max_required r)
own_count-Adds n s none = tt
own_count-Adds n s (some (cs, t)) = omega arith

pub own_count-IsCounted :
    (outer : ℕ) (s : Compiling) (r : Option (Checks × Compiling))
    → Adds required_checks (record s { max_required = 0 }) r
    → IsCounted outer (own_count outer r)
own_count-IsCounted outer s none h = tt
own_count-IsCounted outer s (some (cs, t)) h = (omega (arith, h), refl)

pub either-Adds :
    {A : Type 0} (f : A → ℕ) (s : Compiling) (b : Bool) (r r' : Option (A × Compiling))
    → Adds f s r
    → Adds f s r'
    → Adds f s (if b then r else r')
either-Adds f s true r r' p q = p
either-Adds f s false r r' p q = q

pub chosen-Adds :
    (b : Bool) (m m' : Compile Checks)
    → ((s : Compiling) → Adds required_checks s (m s))
    → ((s : Compiling) → Adds required_checks s (m' s))
    → (s : Compiling) → Adds required_checks s ((if b then m else m') s)
chosen-Adds true m m' p q s = p s
chosen-Adds false m m' p q s = q s

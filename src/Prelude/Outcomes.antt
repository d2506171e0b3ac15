-- ===== src/Prelude/Outcomes.antt =====
-- What a kernel routine comes to: it returns, or calls panic() with a message.
use Prim.Native.String.{String}

pub data Outcome {ℓ} (A : Type ℓ) : Type ℓ where
  done : A → Outcome A
  panic : String → Outcome A

infixl 5 ◌>>=◌ ◌>>◌
abbrev pub ◌>>=◌ {ℓ κ} : {A : Type ℓ} {B : Type κ} → Outcome A → (A → Outcome B) → Outcome B
done a >>= f = f a
panic m >>= f = panic m

abbrev pub ◌>>◌ {ℓ} : {B : Type ℓ} → Outcome (Unit {0}) → Outcome B → Outcome B
m >> k = m >>= λ _. k

-- The routine returns, and its result has the property.
abbrev pub Returns {ℓ} : {A : Type ℓ} → (A → Type 0) → Outcome A → Type 0
Returns P (done a) = P a
Returns P (panic m) = ⊥

pub Returns-map :
    {A B : Type 0} {P : A → Type 0} (Q : B → Type 0) (f : A → B) (m : Outcome A)
    → Returns P m
    → ((a : A) → P a → Q (f a))
    → Returns Q (m >>= λ a. done (f a))
Returns-map Q f (done a) p k = k a p
Returns-map Q f (panic m) p k = p

pub Returns-bind :
    {A B : Type 0} {P : A → Type 0} (Q : B → Type 0) (f : A → Outcome B) (m : Outcome A)
    → Returns P m
    → ((a : A) → P a → Returns Q (f a))
    → Returns Q (m >>= f)
Returns-bind Q f (done a) p k = k a p
Returns-bind Q f (panic m) p k = p

pub Returns-mono :
    {A : Type 0} {P : A → Type 0} (Q : A → Type 0) (m : Outcome A)
    → Returns P m
    → ((a : A) → P a → Q a)
    → Returns Q m
Returns-mono Q (done a) p k = k a p
Returns-mono Q (panic m) p k = p

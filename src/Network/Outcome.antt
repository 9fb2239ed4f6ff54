-- ===== src/Network/Outcome.antt =====
-- How a call of the networking code can end, and what it reads from a socket. A connection is the
-- list of the bytes that the other side sends before it closes.
use dag_blockchain.Prelude.{Option, none, refl, some, ℕ, ◌≡◌}

pub data Outcome {ℓ} (A : Type ℓ) : Type ℓ where
  -- The call returned.
  returns : A → Outcome A
  -- The process called `exit(EXIT_FAILURE)`.
  exits : Outcome A
  -- An access outside an array, or other undefined behaviour.
  undefined : Outcome A
  -- The loop was still running when the fuel of the model ran out.
  unfinished : Outcome A

infixl 5 ◌>>=◌
abbrev pub ◌>>=◌ {ℓ κ} : {A : Type ℓ} {B : Type κ} → Outcome A → (A → Outcome B) → Outcome B
returns a >>= f = f a
exits >>= f = exits
undefined >>= f = undefined
unfinished >>= f = unfinished

pub bind_assoc {ℓ κ μ} :
    {A : Type ℓ} {B : Type κ} {C : Type μ} (m : Outcome A) (f : A → Outcome B) (g : B → Outcome C)
    → ((m >>= f) >>= g) ≡ (m >>= λ a. f a >>= g)
bind_assoc (returns a) f g = refl
bind_assoc exits f g = refl
bind_assoc undefined f g = refl
bind_assoc unfinished f g = refl

pub bind_cong {ℓ κ} :
    {A : Type ℓ} {B : Type κ} (m : Outcome A) (f g : A → Outcome B)
    → ((a : A) → f a ≡ g a)
    → (m >>= f) ≡ (m >>= g)
bind_cong (returns a) f g h = h a
bind_cong exits f g h = refl
bind_cong undefined f g h = refl
bind_cong unfinished f g h = refl

-- A partial result of the code that runs inside one process.
abbrev pub lift {ℓ} : {A : Type ℓ} → Option A → Outcome A
lift none = undefined
lift (some a) = returns a

pub bind-eq-returns {ℓ κ} :
    {A : Type ℓ} {B : Type κ} (m : Outcome A) (f : A → Outcome B) {b : B}
    → (m >>= f) ≡ returns b
    → (a : A) × (m ≡ returns a) × (f a ≡ returns b)
bind-eq-returns (returns a) f h = (a, refl, h)
bind-eq-returns exits f h = cc
bind-eq-returns undefined f h = cc
bind-eq-returns unfinished f h = cc

pub lift-eq-returns {ℓ} : {A : Type ℓ} (o : Option A) {a : A} → lift o ≡ returns a → o ≡ some a
lift-eq-returns none h = cc
lift-eq-returns (some a) h = cc

pub returns-injective {ℓ} : {A : Type ℓ} {a b : A} → returns a ≡ returns b → a ≡ b
returns-injective h = cc

abbrev pub max_stream_size : ℕ
max_stream_size = 65536

-- ===== src/Prelude/Throwing.antt =====
-- Results of code that throws.
use mathlib.Core.Path.{◌≡◌, refl}
use mathlib.Core.Bool.{Bool, true, false}

pub data Outcome {ℓ κ} (E : Type ℓ) (A : Type κ) : Type (ℓ ⊔ κ) where
  ok : A → Outcome E A
  throw : E → Outcome E A

infixl 5 ◌>>=◌ ◌>>◌
abbrev pub ◌>>=◌ {ℓ} : {E A B : Type ℓ} → Outcome E A → (A → Outcome E B) → Outcome E B
ok a >>= f = f a
throw e >>= f = throw e

abbrev pub ◌>>◌ : {E B : Type 0} → Outcome E (Unit {0}) → Outcome E B → Outcome E B
m >> k = m >>= λ _. k

-- `if (failed) throw e`
abbrev pub throw_if : {E : Type 0} → Bool → E → Outcome E (Unit {0})
throw_if true e = throw e
throw_if false e = ok tt

-- If a chain ends well, so did its first part, with the value that the rest went on with.
pub bind_inversion :
    {E A B : Type 0} {b : B} (first : Outcome E A) (rest : A → Outcome E B)
    → (first >>= rest) ≡ ok b
    → (a : A) × (first ≡ ok a) × (rest a ≡ ok b)
bind_inversion (throw e) rest done = cc
bind_inversion (ok a) rest done = (a, refl, done)

pub ok-injective : {E A : Type 0} {a b : A} → ◌≡◌ {A = Outcome E A} (ok a) (ok b) → a ≡ b
ok-injective h = cc

abbrev pub is_ok : {E A : Type 0} → Outcome E A → Bool
is_ok (ok a) = true
is_ok (throw e) = false

pub throw_if-ok : {E : Type 0} (x : E) {u : Unit {0}} (b : Bool) → throw_if b x ≡ ok u → b ≡ false
throw_if-ok x true h = cc
throw_if-ok x false h = refl

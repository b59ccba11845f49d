-- ===== src/Prelude/Int.antt =====
-- Signed integers, for differences of times.
use mathlib.Core.Path.{◌≡◌, refl, ap}
use mathlib.Core.Logic.{◌⊎◌, inl, inr}
use mathlib.Core.Bool.{Bool, true, false}
use native.Mathlib.Omega.{arith}
use browshare.Prelude.Tests.{ltb, ◌==◌, Bool-cases}
use Prim.Native.Nat.{ℕ, suc, ◌-◌}
use browshare.Prelude.Tests.{leb, if◌then◌else◌}

-- `negsuc n` is -(n + 1).
pub data ℤ : Type 0 where
  pos : ℕ → ℤ
  negsuc : ℕ → ℤ

abbrev pub pos_part : ℤ → ℕ
pos_part (pos n) = n
pos_part (negsuc n) = 0

abbrev pub neg_part : ℤ → ℕ
neg_part (pos n) = 0
neg_part (negsuc n) = suc n

-- a - b, as an integer.
abbrev pub sub_ℕ : ℕ → ℕ → ℤ
sub_ℕ a b = if leb b a then pos (a - b) else negsuc (b - a - 1)

-- `a < b` and `a === b`
abbrev pub lt_ℤ : ℤ → ℤ → Bool
lt_ℤ (pos a) (pos b) = ltb a b
lt_ℤ (pos a) (negsuc b) = false
lt_ℤ (negsuc a) (pos b) = true
lt_ℤ (negsuc a) (negsuc b) = ltb b a

abbrev pub same_ℤ : ℤ → ℤ → Bool
same_ℤ (pos a) (pos b) = a == b
same_ℤ (negsuc a) (negsuc b) = a == b
same_ℤ _ _ = false

pub same_ℤ-true : (a b : ℤ) → same_ℤ a b ≡ true → a ≡ b
same_ℤ-true (pos a) (pos b) h = ap pos (ground arith)
same_ℤ-true (pos a) (negsuc b) h = cc
same_ℤ-true (negsuc a) (pos b) h = cc
same_ℤ-true (negsuc a) (negsuc b) h = ap negsuc (ground arith)

-- Of two numbers, one is less or they are the same.
pub lt_ℤ-cases : (a b : ℤ) → lt_ℤ a b ≡ false → (lt_ℤ b a ≡ true) ⊎ ((b ≡ a) × (same_ℤ b a ≡ true))
lt_ℤ-cases (pos a) (pos b) h = elim (Bool-cases (b == a)) [
  | inl e ↦ inr (ap pos (ground arith), e)
  | inr n ↦ inl (ground arith)
]
lt_ℤ-cases (pos a) (negsuc b) h = inl refl
lt_ℤ-cases (negsuc a) (pos b) h = cc
lt_ℤ-cases (negsuc a) (negsuc b) h = elim (Bool-cases (b == a)) [
  | inl e ↦ inr (ap negsuc (ground arith), e)
  | inr n ↦ inl (ground arith)
]

pub lt_ℤ-trans : (a b c : ℤ) → lt_ℤ a b ≡ true → lt_ℤ b c ≡ true → lt_ℤ a c ≡ true
lt_ℤ-trans (pos a) (pos b) (pos c) h k = ground arith
lt_ℤ-trans (pos a) (pos b) (negsuc c) h k = cc
lt_ℤ-trans (pos a) (negsuc b) c h k = cc
lt_ℤ-trans (negsuc a) (pos b) (pos c) h k = refl
lt_ℤ-trans (negsuc a) (pos b) (negsuc c) h k = cc
lt_ℤ-trans (negsuc a) (negsuc b) (pos c) h k = refl
lt_ℤ-trans (negsuc a) (negsuc b) (negsuc c) h k = ground arith

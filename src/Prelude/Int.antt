-- ===== src/Prelude/Int.antt =====
-- Signed integers (`i64`) over the native numbers, with the order that the code tests.
use Prim.Native.Nat.{ℕ}
use mathlib.Core.Path.{◌≡◌}
use mathlib.Core.Logic.{◌↔◌}
use mathlib.Core.Bool.{Bool, true, false}
use native.Mathlib.Omega.{arith}
use cli_framework.Prelude.Tests.{ltb, eqb}

-- `negsuc n` is -(n + 1).
pub data ℤ : Type 0 where
  pos : ℕ → ℤ
  negsuc : ℕ → ℤ

abbrev pub ltb_ℤ : ℤ → ℤ → Bool
ltb_ℤ (pos a) (pos b) = ltb a b
ltb_ℤ (pos a) (negsuc b) = false
ltb_ℤ (negsuc a) (pos b) = true
ltb_ℤ (negsuc a) (negsuc b) = ltb b a

abbrev pub eqb_ℤ : ℤ → ℤ → Bool
eqb_ℤ (pos a) (pos b) = eqb a b
eqb_ℤ (negsuc a) (negsuc b) = eqb a b
eqb_ℤ _ _ = false

abbrev pub ◌<ℤ◌ : ℤ → ℤ → Type 0

infix 50 ◌<ℤ◌ ◌≤ℤ◌
a <ℤ b = ltb_ℤ a b ≡ true

abbrev pub ◌≤ℤ◌ : ℤ → ℤ → Type 0
a ≤ℤ b = ltb_ℤ b a ≡ false

pub <ℤ-trans : (a b c : ℤ) → a <ℤ b → b <ℤ c → a <ℤ c
<ℤ-trans (pos a) (pos b) (pos c) h k = ground arith
<ℤ-trans _ _ _ h k = ground arith

pub ≤ℤ-trans : (a b c : ℤ) → a ≤ℤ b → b ≤ℤ c → a ≤ℤ c
≤ℤ-trans (pos a) (pos b) (pos c) h k = ground arith
≤ℤ-trans _ _ _ h k = ground arith

pub eqb_ℤ_iff : (a b : ℤ) → (eqb_ℤ a b ≡ true) ↔ (a ≡ b)
eqb_ℤ_iff (pos a) (pos b) = ground arith
eqb_ℤ_iff _ _ = ground arith

pub ≤ℤ-refl : (a : ℤ) → a ≤ℤ a
≤ℤ-refl (pos a) = ground arith
≤ℤ-refl (negsuc a) = ground arith

pub <ℤ-le : (a b : ℤ) → a <ℤ b → a ≤ℤ b
<ℤ-le (pos a) (pos b) h = ground arith
<ℤ-le _ _ h = ground arith

pub ≤ℤ-antisym : (a b : ℤ) → a ≤ℤ b → b ≤ℤ a → a ≡ b
≤ℤ-antisym (pos a) (pos b) h k = ground arith
≤ℤ-antisym _ _ h k = ground arith

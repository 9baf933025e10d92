-- ===== src/Common/Int.antt =====
-- Go's signed integers over the native numbers. Sums go through the two parts of an integer.
use Prim.Native.Nat.{ℕ, suc, ◌+◌, ◌-◌, ◌≤◌}
use mathlib.Core.Path.{◌≡◌, ap, sym}
use mathlib.Core.Bool.{Bool}
use native.Mathlib.Omega.{arith}
use native.Mathlib.Decide.{ℕ_discrete}
use cs426_spring2022_labs.Common.Tests.{ltb, leb, if◌then◌else◌, Key}

-- `negsuc n` is -(n + 1).
pub data ℤ : Type 0 where
  pos : ℕ → ℤ
  negsuc : ℕ → ℤ

abbrev pub pos_part : ℤ → ℕ
pos_part (pos n) = n
pos_part (negsuc n) = 0

abbrev pub neg_part : ℤ → ℕ
neg_part (pos n) = 0
neg_part (negsuc n) = suc n

abbrev pub sub_ℕ : ℕ → ℕ → ℤ
sub_ℕ a b = if leb b a then pos (a - b) else negsuc (b - a - 1)

infixl 65 ◌+ℤ◌ ◌-ℤ◌
unfoldable pub ◌+ℤ◌ : ℤ → ℤ → ℤ
a +ℤ b = sub_ℕ (pos_part a + pos_part b) (neg_part a + neg_part b)

unfoldable pub ◌-ℤ◌ : ℤ → ℤ → ℤ
a -ℤ b = sub_ℕ (pos_part a + neg_part b) (neg_part a + pos_part b)

infix 50 ◌≤ℤ◌
abbrev pub ◌≤ℤ◌ : ℤ → ℤ → Type 0
a ≤ℤ b = pos_part a + neg_part b ≤ pos_part b + neg_part a

abbrev pub ltb_ℤ : ℤ → ℤ → Bool
ltb_ℤ a b = ltb (pos_part a + neg_part b) (pos_part b + neg_part a)

pub +ℤ_parts :
    (a b : ℤ)
    → pos_part (a +ℤ b) + neg_part a + neg_part b ≡ neg_part (a +ℤ b) + pos_part a + pos_part b
unfolding ◌+ℤ◌
+ℤ_parts a b = ground arith

pub -ℤ_parts :
    (a b : ℤ)
    → pos_part (a -ℤ b) + neg_part a + pos_part b ≡ neg_part (a -ℤ b) + pos_part a + neg_part b
unfolding ◌-ℤ◌
-ℤ_parts a b = ground arith

pub eq_of_parts : (a b : ℤ) → pos_part a + neg_part b ≡ pos_part b + neg_part a → a ≡ b
eq_of_parts a b h = ground arith

pub pos-injective : (m n : ℕ) → pos m ≡ pos n → m ≡ n
pos-injective m n e = ground arith

pub pos-ne-negsuc : (m n : ℕ) → ¬ (pos m ≡ negsuc n)
pos-ne-negsuc m n e = cc

pub negsuc-injective : (m n : ℕ) → negsuc m ≡ negsuc n → m ≡ n
negsuc-injective m n e = ground arith

unfoldable pub int_same : (a b : ℤ) → Dec (a ≡ b)
unfolding ℕ_discrete
int_same (pos m) (pos n) = elim (ℕ_discrete m n) [
  | yes e ↦ yes (ap pos e)
  | no ne ↦ no (λ e. ne (pos-injective m n e))
]
int_same (negsuc m) (negsuc n) = elim (ℕ_discrete m n) [
  | yes e ↦ yes (ap negsuc e)
  | no ne ↦ no (λ e. ne (negsuc-injective m n e))
]
int_same (pos m) (negsuc n) = no (λ e. pos-ne-negsuc _ _ e)
int_same (negsuc m) (pos n) = no (λ e. pos-ne-negsuc _ _ (sym e))

instance abbrev pub int_key : Key ℤ
int_key = record { same = int_same }

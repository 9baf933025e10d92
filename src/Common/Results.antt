-- ===== src/Common/Results.antt =====
-- How a Go call ends: it returns, panics, stops the program (`log.Fatalf`), or blocks for ever.
use mathlib.Core.Path.{◌≡◌, refl}
use mathlib.Core.Logic.{ite, if_pos, if_neg}
use native.Mathlib.Decide.{ℕ_discrete}
use Prim.Native.Nat.{ℕ}

pub data Outcome {ℓ} (A : Type ℓ) : Type ℓ where
  returns : A → Outcome A
  panics exits blocks : Outcome A

infixl 5 ◌>>=◌
abbrev pub ◌>>=◌ {ℓ κ} : {A : Type ℓ} {B : Type κ} → Outcome A → (A → Outcome B) → Outcome B
returns a >>= f = f a
panics >>= f = panics
exits >>= f = exits
blocks >>= f = blocks

-- Inversion of a sequence that returned.
pub >>=-eq-returns {ℓ κ} :
    {A : Type ℓ} {B : Type κ} (m : Outcome A) (f : A → Outcome B) (b : B)
    → (m >>= f) ≡ returns b
    → (a : A) × (m ≡ returns a) × (f a ≡ returns b)
>>=-eq-returns (returns a) f b h = (a, refl, h)
>>=-eq-returns panics f b h = cc
>>=-eq-returns exits f b h = cc
>>=-eq-returns blocks f b h = cc

-- A heap of objects by address.
abbrev pub Heap {ℓ} : Type ℓ → Type ℓ
Heap A = ℕ → A

unfoldable pub write {ℓ} : {A : Type ℓ} → Heap A → ℕ → A → Heap A
write h r a q = ite (ℕ_discrete q r) a (h q)

module _ {ℓ} {A : Type ℓ} (h : Heap A) (r : ℕ) (a : A) where
  pub write_self : write h r a r ≡ a
  unfolding write
  write_self = if_pos (ℕ_discrete r r) refl _ _

  pub write_ne : (q : ℕ) → ¬ (q ≡ r) → write h r a q ≡ h q
  unfolding write
  write_ne q ne = if_neg (ℕ_discrete q r) ne _ _

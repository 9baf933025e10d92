-- ===== src/Common/OneOf.antt =====
-- One element of a list, and the others.
use mathlib.Core.Path.{◌≡◌, refl, ap}
use mathlib.Core.List.{List, ◌∷◌}
use Prim.Native.Nat.{suc}
use cs426_spring2022_labs.Common.Lists.{length}

pub data Pick {ℓ} {A : Type ℓ} (a : A) : List A → List A → Type ℓ where
  first : {rest : List A} → Pick a (a ∷ rest) rest
  later : {b : A} {xs rest : List A} → Pick a xs rest → Pick a (b ∷ xs) (b ∷ rest)

pub Pick-length {ℓ} :
    {A : Type ℓ} {a : A} {xs rest : List A} → Pick a xs rest → length xs ≡ suc (length rest)
Pick-length first = refl
Pick-length (later p) = ap suc (Pick-length p)

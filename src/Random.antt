-- ===== src/Random.antt =====
-- What the services of lab1 use to fill their databases: Go's `math/rand`, the package `gofakeit` and
-- `fmt`, as an interface, and the loop over the coefficients that both services have.
pub mod Tests
use cs426_spring2022_labs.Common.{ℕ, zero, suc, ◌<◌, String, ℤ, pos, int_key}
use cs426_spring2022_labs.Common.GoMap.{GoMap, insert}

-- `R` is the state of the generators. `intn` is `rand.Intn`, `text` a text of `gofakeit` by the name of
-- its function, `sprintf_d` is `fmt.Sprintf` of a format with one `%d`.
pub record Source (R : Type 0) : Type 0 where
  pub seed : ℤ → R
  pub intn : R → ℕ → R × ℕ
  pub text : String → R → R × String
  pub sprintf_d : String → ℕ → String

-- `rand.Intn` returns a number below its argument, if that is positive.
pub record IsRandom {R : Type 0} (source : Source R) : Type 0 where
  pub intn_below : (r : R) (n : ℕ) → 0 < n → (source.intn r n).1 < n

module _ {R : Type 0} (source : Source R) where
  unfoldable pub random_coeffs : ℕ → GoMap ℤ ℕ → R → R × GoMap ℤ ℕ
  random_coeffs zero coeffs r = (r, coeffs)
  random_coeffs (suc n) coeffs r =
      let (r₁, feature) = source.intn r 20 in
      let (r₂, coeff) = source.intn r₁ 500 in random_coeffs n (insert coeffs (pos feature) coeff) r₂

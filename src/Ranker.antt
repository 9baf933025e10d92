-- ===== src/Ranker.antt =====
-- lab1/ranker/ranker.go: the score of a video for a user. The hashes of Go's `hash/fnv`, the formats of
-- `strconv` and `fmt`, and the package `det_bcrypt` are parameters.
pub mod Score
mod Tests
use cs426_spring2022_labs.Common.{◌-◌, ℕ, ◌+◌, ◌*◌, ◌%◌, ◌^◌, none, some, List, [], ◌∷◌, ℤ, int_key}
use cs426_spring2022_labs.Common.GoMap.{GoMap, get}

pub record Hashes : Type 0 where
  -- `strconv.FormatUint(id, 10)` and `fmt.Sprintf("%020d", n)`, as bytes
  pub format_uint : ℕ → List ℕ
  pub sprintf_020 : ℕ → List ℕ
  -- the sums of `fnv.New32` and `fnv.New64` over the bytes
  pub fnv32 : List ℕ → ℕ
  pub fnv64 : List ℕ → ℕ
  -- `det_bcrypt.GenerateFromPassword`, which returns no bytes with an error
  pub generate_from_password : List ℕ → ℕ → List ℕ

-- `det_bcrypt.MinCost` is 4.
unfoldable pub cost_hash : Hashes → ℕ → ℕ
cost_hash h id = h.fnv32 (h.format_uint id) % (6 - 4) + 4

-- The loop of `Rank` over the user's coefficients; the sum wraps.
unfoldable pub dot_from : GoMap ℤ ℕ → ℕ → GoMap ℤ ℕ → ℕ
dot_from video_coeffs dot_product [] = dot_product
dot_from video_coeffs dot_product ((feature_id, user_coeff) ∷ rest) =
    dot_from video_coeffs
      (elim (get video_coeffs feature_id) [
        | none ↦ dot_product
        | some video_coeff ↦ (dot_product + user_coeff * video_coeff % 2 ^ 64) % 2 ^ 64
      ])
      rest

unfoldable pub rank : Hashes → GoMap ℤ ℕ → GoMap ℤ ℕ → ℕ
unfolding dot_from cost_hash
rank h user_coeffs video_coeffs =
    let dot_product = dot_from video_coeffs 0 user_coeffs in
    h.fnv64 (h.generate_from_password (h.sprintf_020 dot_product) (cost_hash h dot_product))

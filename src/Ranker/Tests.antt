-- ===== src/Ranker/Tests.antt =====
-- Two orders of the coefficients of a user, lab1/ranker/ranker.go.
use cs426_spring2022_labs.Common.{ℕ, ◌%◌, ◌≡◌, refl, [], ◌∷◌, ℤ, pos, int_key, int_same, ℕ_discrete}
use cs426_spring2022_labs.Common.GoMap.{GoMap, get}
use cs426_spring2022_labs.Ranker.{Hashes, dot_from, rank}
use cs426_spring2022_labs.Ranker.Score.{swap, rank-Reorders}

-- Hashes for the tests.
abbrev hashes : Hashes
hashes = record {
  format_uint = λ n. n ∷ [];
  sprintf_020 = λ n. n ∷ [];
  fnv32 = λ bytes. elim bytes [ [] ↦ 0 | b ∷ bs ↦ b % 4294967296 ];
  fnv64 = λ bytes. elim bytes [ [] ↦ 0 | b ∷ bs ↦ b ];
  generate_from_password = λ password cost. password;
}

abbrev user_coeffs : GoMap ℤ ℕ
user_coeffs = (pos 1, 2) ∷ (pos 2, 5) ∷ []

abbrev video_coeffs : GoMap ℤ ℕ
video_coeffs = (pos 2, 10) ∷ (pos 1, 7) ∷ []

dot_product_is_64 : dot_from video_coeffs 0 user_coeffs ≡ 64
unfolding dot_from get int_same ℕ_discrete
dot_product_is_64 = refl

rank-Reorders_example :
    rank hashes user_coeffs video_coeffs ≡ rank hashes ((pos 2, 5) ∷ (pos 1, 2) ∷ []) video_coeffs
rank-Reorders_example =
    rank-Reorders user_coeffs ((pos 2, 5) ∷ (pos 1, 2) ∷ []) hashes video_coeffs
      (swap (pos 1, 2) (pos 2, 5) [])

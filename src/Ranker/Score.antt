-- ===== src/Ranker/Score.antt =====
-- The score of lab1/ranker/ranker.go does not depend on the order in which the map is visited.
use cs426_spring2022_labs.Common.{
  ℕ, ◌+◌, ◌*◌, ◌%◌, ◌^◌, ◌≡◌, refl, ap, sym, ◌∙◌, inl, inr, none, some, [], ◌∷◌, ℤ, int_key, arith,
  Option-cases,
}
use cs426_spring2022_labs.Common.GoMap.{GoMap, get}
use cs426_spring2022_labs.Ranker.{Hashes, cost_hash, dot_from, rank}

-- Two orders of the same entries.
pub data Reorders : GoMap ℤ ℕ → GoMap ℤ ℕ → Type 0 where
  done : Reorders [] []
  keep : {m m' : GoMap ℤ ℕ} (e : ℤ × ℕ) → Reorders m m' → Reorders (e ∷ m) (e ∷ m')
  swap : (d e : ℤ × ℕ) (m : GoMap ℤ ℕ) → Reorders (d ∷ e ∷ m) (e ∷ d ∷ m)
  chain : {m m' m'' : GoMap ℤ ℕ} → Reorders m m' → Reorders m' m'' → Reorders m m''

abbrev step : GoMap ℤ ℕ → ℕ → ℤ × ℕ → ℕ
step v d (feature_id, user_coeff) = elim (get v feature_id) [
  | none ↦ d
  | some video_coeff ↦ (d + user_coeff * video_coeff % 2 ^ 64) % 2 ^ 64
]

wrap_swap : (d x y : ℕ) → ((d + x) % 2 ^ 64 + y) % 2 ^ 64 ≡ ((d + y) % 2 ^ 64 + x) % 2 ^ 64
wrap_swap d x y = omega arith

step_swap : (v : GoMap ℤ ℕ) (d : ℕ) (e f : ℤ × ℕ) → step v (step v d e) f ≡ step v (step v d f) e
step_swap v d (i, x) (j, y) = elim (Option-cases (get v i)) [
  | inl p ↦ elim (Option-cases (get v j)) [
    | inl q ↦ ground (arith, p, q)
    | inr (b, q) ↦ ground (arith, p, q)
  ]
  | inr (a, p) ↦ elim (Option-cases (get v j)) [
    | inl q ↦ ground (arith, p, q)
    | inr (b, q) ↦ ground (arith, p, q, wrap_swap d (x * a % 2 ^ 64) (y * b % 2 ^ 64))
  ]
]

dot_from-cons :
    (v : GoMap ℤ ℕ) (d : ℕ) (e : ℤ × ℕ) (m : GoMap ℤ ℕ)
    → dot_from v d (e ∷ m) ≡ dot_from v (step v d e) m
unfolding dot_from
dot_from-cons v d (i, x) m = refl

dot_from-Reorders :
    {m m' : GoMap ℤ ℕ} (v : GoMap ℤ ℕ) (d : ℕ) → Reorders m m' → dot_from v d m ≡ dot_from v d m'
dot_from-Reorders v d done = refl
dot_from-Reorders v d (keep {m} {m'} e r) =
    dot_from-cons v d e m ∙ dot_from-Reorders v (step v d e) r ∙ sym (dot_from-cons v d e m')
dot_from-Reorders v d (swap e f m) =
    dot_from-cons v d e (f ∷ m)
    ∙ dot_from-cons v (step v d e) f m
    ∙ ap (λ x. dot_from v x m) (step_swap v d e f)
    ∙ sym (dot_from-cons v (step v d f) e m)
    ∙ sym (dot_from-cons v d f (e ∷ m))
dot_from-Reorders v d (chain r s) = dot_from-Reorders v d r ∙ dot_from-Reorders v d s

-- The score is the same in whatever order the user's coefficients are visited, overflow included.
pub rank-Reorders :
    (m m' : GoMap ℤ ℕ) (h : Hashes) (video_coeffs : GoMap ℤ ℕ)
    → Reorders m m'
    → rank h m video_coeffs ≡ rank h m' video_coeffs
unfolding rank cost_hash
rank-Reorders m m' h v r =
    ap (λ d. h.fnv64 (h.generate_from_password (h.sprintf_020 d) (cost_hash h d)))
      (dot_from-Reorders v 0 r)

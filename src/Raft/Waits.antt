-- ===== src/Raft/Waits.antt =====
-- lab2/raft/config.go: `wait`. What the harness has recorded, and the terms that `GetState` of the
-- servers returns, at each turn of the loop are arguments.
pub mod Ends
mod Tests
use cs426_spring2022_labs.Common.{
  ℕ, zero, suc, Bool, true, false, ◌&&◌, ◌||◌, Option, none, some, List, [], ◌∷◌, ℤ, negsuc,
  Outcome, returns, exits, ◌>>=◌, if◌then◌else◌, ltb, leb, ltb_ℤ, Key,
}
use cs426_spring2022_labs.Raft.Commits.{Harness, n_committed}

pub record Look (C : Type 0) : Type 0 where
  pub harness : Harness C
  pub terms : List ℤ

-- What is returned: -1, since some server has moved on, or the command.
pub data Waited (C : Type 0) : Type 0 where
  moved_on : Waited C
  agreed : Option C → Waited C

abbrev pub any_later : (start_term : ℤ) → List ℤ → Bool
any_later start_term [] = false
any_later start_term (t ∷ terms) = ltb_ℤ start_term t || any_later start_term terms

module _ {C : Type 0} ⦃k : Key C⦄ where
  -- After the loop; `t.Fatalf` ends the test.
  unfoldable pub give_up_or : (index : ℤ) → (n : ℕ) → Harness C → Outcome (Waited C)
  unfolding n_committed
  give_up_or index n cfg =
      n_committed cfg index >>= λ found. if ltb found.0 n then exits else returns (agreed found.1)

  -- The loop, with `iters` turns to go.
  unfoldable pub wait_from :
      (iters : ℕ)
      → (looks : ℕ → Look C) → (index : ℤ) → (n : ℕ) → (start_term : ℤ) → Outcome (Waited C)
  unfolding give_up_or
  wait_from zero looks index n start_term = give_up_or index n (looks 0).harness
  wait_from (suc iters) looks index n start_term =
      let rest = wait_from iters (λ j. looks (suc j)) index n start_term in
      n_committed (looks 0).harness index >>= λ found.
      if leb n found.0
      then give_up_or index n (looks 1).harness
      else if ltb_ℤ (negsuc 0) start_term && any_later start_term (looks 0).terms
      then returns moved_on
      else rest

  unfoldable pub wait :
      (looks : ℕ → Look C) → (index : ℤ) → (n : ℕ) → (start_term : ℤ) → Outcome (Waited C)
  unfolding wait_from
  wait looks index n start_term = wait_from 30 looks index n start_term

-- ===== src/Stress/Counts.antt =====
-- The counters of the stress tester of lab4/cmd/stress/tester.go, on every step of its goroutines.
use cs426_spring2022_labs.Common.{
  ℕ, suc, ◌+◌, ◌-◌, ◌≤◌, ◌≡◌, refl, String, ite, if_pos, if_neg, true, List, [], ◌∷◌, ℤ, pos,
  returns, >>=-eq-returns, length, Pick, first, later, string_key, arith,
}
use cs426_spring2022_labs.Checker.{Flags, count_at}
use cs426_spring2022_labs.Stress.{StressTester, pick, launch}
use cs426_spring2022_labs.Stress.Runs.{Request, get_launched, get_runs, set_launched, set_runs, Sys}

-- How many writes to a key are under way.
abbrev pub is_write : String → Request → ℕ
is_write key (get_launched k) = 0
is_write key (get_runs k start init pending) = 0
is_write key (set_launched k value) = 0
is_write key (set_runs k value start init) = ite (string_key.same key k) 1 0

abbrev pub writes_to : String → List Request → ℕ
writes_to key [] = 0
writes_to key (r ∷ rs) = is_write key r + writes_to key rs

pub writes_to-Pick :
    (key : String) {r : Request} {rs rest : List Request}
    → Pick r rs rest
    → writes_to key rs ≡ is_write key r + writes_to key rest
writes_to-Pick key first = refl
writes_to-Pick key (later p) = omega (arith, writes_to-Pick key p)

pub is_write_self :
    (j key value : String) (start : ℕ) (init : ℤ)
    → j ≡ key
    → is_write j (set_runs key value start init) ≡ 1
is_write_self j key value start init e = if_pos (string_key.same j key) e _ _

pub is_write_ne :
    (j key value : String) (start : ℕ) (init : ℤ)
    → ¬ (j ≡ key)
    → is_write j (set_runs key value start init) ≡ 0
is_write_ne j key value start init ne = if_neg (string_key.same j key) ne _ _

-- The counters fit: `limit` slots, `n` requests launched.
pub record Inv (flags : Flags) (limit n : ℕ) (s : Sys) : Type 0 where
  pub slots : s.tester.sem + length s.requests ≡ limit
  pub waits : s.tester.wg ≡ length s.requests + s.loops
  pub total : s.tester.gets + s.tester.sets + length s.requests ≡ n
  pub set_errs : s.tester.set_errs ≤ s.tester.sets
  pub wrong : s.tester.inconsistencies ≤ s.tester.cc.checks_run
  pub checked : s.tester.cc.checks_run + s.tester.get_errs ≤ s.tester.gets
  pub writes :
      flags.check_correctness ≡ true
      → (key : String) → count_at s.tester.cc.rc key ≡ pos (writes_to key s.requests)

pub launch_eq :
    (draw : ℕ) (st st' : StressTester) (key : String)
    → launch draw st ≡ returns (st', key)
    → st' ≡ record st { sem = st.sem - 1; wg = suc st.wg }
unfolding launch
launch_eq draw st st' key h =
    let (k, q, r) =
      >>=-eq-returns (pick draw st.keys)
        (λ key. returns (record st { sem = st.sem - 1; wg = suc st.wg }, key)) (st', key) h in
    cc r

-- ===== src/Raft/Commits.antt =====
-- lab2/raft/config.go: what the test harness records of the commands that servers apply, and checks.
-- Commands are compared by Go's `==`, the key instance.
pub mod Mismatch
pub mod Agreement
pub mod Counting
use cs426_spring2022_labs.Common.{
  ℕ, zero, suc, ite, Option, none, some, List, [], ◌∷◌, ℤ, pos, ◌-ℤ◌, Outcome, returns, panics,
  exits, ◌>>=◌, if◌then◌else◌, Bool, true, false, not, ◌&&◌, ltb_ℤ, ltb, get_elem?, set, int_key,
  Key,
}
use cs426_spring2022_labs.Common.GoMap.{GoMap, get, insert}

pub record ApplyMsg (C : Type 0) : Type 0 where
  pub command_valid : Bool
  pub command : C
  pub command_index : ℤ

-- `logs` holds, for each server, the commands it applied by their index.
pub record Harness (C : Type 0) : Type 0 where
  pub logs : List (GoMap ℤ C)
  pub max_index : ℤ

-- The error messages, with what they name.
pub data ApplyError (C : Type 0) : Type 0 where
  mismatch : (index : ℤ) (server : ℕ) (command : C) (other : ℕ) (old : C) → ApplyError C
  out_of_order : (server : ℕ) (index : ℤ) → ApplyError C

pub record Checked (C : Type 0) : Type 0 where
  pub err_msg : Option (ApplyError C)
  pub prevok : Bool
  pub next : Harness C

unfoldable pub empty_logs : {C : Type 0} → ℕ → List (GoMap ℤ C)
empty_logs zero = []
empty_logs (suc n) = [] ∷ empty_logs n

-- What `make_config` starts with for `n` servers.
unfoldable pub make_harness : {C : Type 0} → ℕ → Harness C
unfolding empty_logs
make_harness n = record { logs = empty_logs n; max_index = pos 0 }

abbrev pub is_some : {A : Type 0} → Option A → Bool
is_some none = false
is_some (some a) = true

module _ {C : Type 0} ⦃k : Key C⦄ where
  abbrev pub same : C → C → Bool
  same a b = ite (k.same a b) true false

  -- The loop of `checkLogs` over the servers `j`: the last error stays.
  unfoldable pub find_mismatch :
      ℕ → ApplyMsg C → (j : ℕ) → List (GoMap ℤ C) → Option (ApplyError C) → Option (ApplyError C)
  find_mismatch i m j [] err_msg = err_msg
  find_mismatch i m j (log ∷ logs) err_msg =
      find_mismatch i m (suc j) logs (elim (get log m.command_index) [
        | none ↦ err_msg
        | some old ↦
            if same old m.command
            then err_msg
            else some (mismatch m.command_index i m.command j old)
      ])

  unfoldable pub check_logs : Harness C → ℕ → ApplyMsg C → Outcome (Checked C)
  unfolding find_mismatch
  check_logs cfg i m = elim (get_elem? cfg.logs i) [
    | none ↦ panics
    | some log ↦ returns (record {
      err_msg = find_mismatch i m 0 cfg.logs none;
      prevok = is_some (get log (m.command_index -ℤ pos 1));
      next = record {
        logs = set cfg.logs i (insert log m.command_index m.command);
        max_index = if ltb_ℤ cfg.max_index m.command_index then m.command_index else cfg.max_index;
      };
    })
  ]

  -- One turn of the loop of `applier`: `log.Fatalf` ends the process.
  unfoldable pub apply_msg : Harness C → ℕ → ApplyMsg C → Outcome (Harness C)
  unfolding check_logs
  apply_msg cfg i m = if not m.command_valid then returns cfg else do
    checked ← check_logs cfg i m
    elim (if ltb_ℤ (pos 1) m.command_index && not checked.prevok
        then some (out_of_order i m.command_index)
        else checked.err_msg) [ none ↦ returns checked.next | some err_msg ↦ exits ]

  -- The appliers of all servers, their messages in the order in which the mutex lets them in.
  unfoldable pub apply_all : Harness C → List (ℕ × ApplyMsg C) → Outcome (Harness C)
  unfolding apply_msg
  apply_all cfg [] = returns cfg
  apply_all cfg ((i, m) ∷ messages) = apply_msg cfg i m >>= λ next. apply_all next messages

  abbrev pub differs : Option C → C → Bool
  differs none cmd1 = true
  differs (some cmd) cmd1 = not (same cmd cmd1)

  -- The loop of `nCommitted`; `t.Fatalf` ends the test. `cfg.applyErr` is empty as long as the process
  -- runs, since the applier ends it before it stores an error there.
  unfoldable pub count_committed : List (GoMap ℤ C) → ℤ → ℕ → Option C → Outcome (ℕ × Option C)
  count_committed [] index count cmd = returns (count, cmd)
  count_committed (log ∷ logs) index count cmd = elim (get log index) [
    | none ↦ count_committed logs index count cmd
    | some cmd1 ↦
        if ltb 0 count && differs cmd cmd1
        then exits
        else count_committed logs index (suc count) (some cmd1)
  ]

  unfoldable pub n_committed : Harness C → ℤ → Outcome (ℕ × Option C)
  unfolding count_committed
  n_committed cfg index = count_committed cfg.logs index 0 none

-- ===== src/Checker/FalseAlarm.antt =====
-- A failed first write makes lab4/checker/checker.go report a correct read.
use cs426_spring2022_labs.Common.{
  first, ℕ, ◌≤◌, String, ◌≡◌, refl, ap, ◌∙◌, inl, inr, true, false, none, some, [], ◌∷◌, pos,
  returns, arith, string_key, ◌-ℤ◌,
}
use cs426_spring2022_labs.Common.GoMap.{get, get_or, insert}
use cs426_spring2022_labs.Checker.{
  Flags, StateValue, ConsistencyChecker, make_consistency_checker, at, count_at, begin_write,
  complete_write, begin_read, check_read_correct, check_not_found, new_state_value, record_write,
  unexpired,
}
use cs426_spring2022_labs.Checker.Calls.{begin_write_self, record_write-Writes}
use cs426_spring2022_labs.Checker.Register.{Sys, Reach, here, next, begins, completes, initial}
use cs426_spring2022_labs.Checker.Stale.{zero_plus_one, one_minus_one}
use cs426_spring2022_labs.Checker.Reports.{check_idle, check_not_found_single}

module _ (flags : Flags) (on : flags.check_correctness ≡ true) (key value e : String)
    (now m d : ℕ) where
  abbrev val : StateValue
  val = new_state_value flags now value (some e) m d

  begun : ConsistencyChecker
  begun = (begin_write flags key make_consistency_checker).0

  completed : ConsistencyChecker
  unfolding begun
  completed = record_write key val (pos 0) begun

  begun_values : at begun.values key ≡ []
  unfolding begun begin_write get_or get
  begun_values = rw on

  begun_overwritten : at begun.overwritten_values key ≡ []
  unfolding begun begin_write get_or get
  begun_overwritten = rw on

  nothing_there : get {V = StateValue} [] value ≡ none
  unfolding get
  nothing_there = refl

  first_completes :
      complete_write flags now key value (some e) (pos 0) m d begun ≡ returns completed
  unfolding complete_write completed
  first_completes = ground (arith, begun_values, begun_overwritten, nothing_there)

  begun_version : (begin_write flags key make_consistency_checker).1 ≡ pos 0
  unfolding begin_write get_or
  begun_version = rw on

  -- The store beside the checker: the write was begun, never reached the register, and failed.
  reached : Sys
  unfolding completed
  reached = record { cc = completed; register = none; pending = [] }

  Reach-failed : Reach flags key initial reached
  unfolding reached
  Reach-failed = next (next here (begins value 0 begun_version refl)) (
      completes (record { init = 0; value = value; applied = false }) [] now (some e) m d first
        (λ no_err. absurd (cc no_err)) first_completes refl refl)

  insert_nil : insert [] value val ≡ (value, val) ∷ []
  unfolding insert
  insert_nil = refl

  completed_values : at completed.values key ≡ (value, val) ∷ []
  unfolding completed
  completed_values = elim (record_write-Writes key val (pos 0) begun).values [
    | inl no_err ↦ absurd (cc (no_err.0))
    | inr vals ↦ vals ∙ ap (λ vs. insert vs value val) begun_values ∙ insert_nil
  ]

  completed_rc : count_at completed.rc key ≡ pos 0
  unfolding completed begun get_or
  completed_rc =
      (record_write-Writes key val (pos 0) begun).rc
      ∙ ap (λ z. z -ℤ pos 1)
          ((begin_write_self flags on key make_consistency_checker).1 ∙ zero_plus_one)
      ∙ one_minus_one

  -- A false alarm, with the checks on. Whatever the key, the value, the error and the times: the ideal store can reach a
  -- state in which it holds nothing and no write is pending, and yet the check reports a read that
  -- finds nothing, as long as the failed write's value would not have expired.
  pub false_alarm :
      (now' start : ℕ)
      → now' ≤ m
      → (s : Sys) × Reach flags key initial s
        × (s.register ≡ none)
        × (s.pending ≡ [])
        × ((check_read_correct flags now' key "" false start
              (begin_read flags key s.cc).0
              (begin_read flags key s.cc).1
              s.cc).1
            ≡ some (unexpired (val ∷ [])))
  unfolding reached
  false_alarm now' start h = (
    reached,
    Reach-failed,
    refl,
    refl,
    check_idle flags key "" false now' start completed on completed_rc
        ∙ ap (check_not_found now') completed_values
        ∙ check_not_found_single now' val
        ∙ ground arith,
  )

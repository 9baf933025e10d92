-- ===== src/Checker/Tests.antt =====
-- Runs of lab4/checker/checker.go.
use cs426_spring2022_labs.Common.{
  first, ◌+◌, ◌≡◌, refl, ite, true, false, ◌&&◌, none, some, [], ◌∷◌, ltb, pos, returns, arith,
  if◌then◌else◌, string_key, string_same, string_ne, Bool-cases, String, int_same, ℕ_discrete, ◌+ℤ◌,
  ◌-ℤ◌,
}
use cs426_spring2022_labs.Common.GoMap.{get, get_or, insert}
use cs426_spring2022_labs.Checker.{
  Flags, StateValue, ConsistencyChecker, make_consistency_checker, at, begin_write, complete_write,
  record_write, overwrite_all, is_exclusive, new_state_value, begin_read, check_read_correct,
  unexpired, overwritten, never_written, expired,
}
use cs426_spring2022_labs.Checker.Register.{
  Sys, initial, Reach, Reach.here, Reach.next, Step.begins, Step.applies, Step.completes, IsKnown,
}
use cs426_spring2022_labs.Checker.Sound.{found_not_reported}
use cs426_spring2022_labs.Checker.Stale.{IsKeyed, complete_write-IsKeyed, WroteAlone}
use cs426_spring2022_labs.Checker.Reports.{found_after_write, stale_reported}
use cs426_spring2022_labs.Checker.FalseAlarm.{false_alarm}

abbrev flags : Flags
flags = record { check_correctness = true; check_ttl = false; ttl_check_buffer = 0 }

-- A write of `a` to the key `k`, which begins, is applied, and completes.
abbrev begun : Sys
begun = record {
  cc = record make_consistency_checker { rc = ("k", pos 1) ∷ [] };
  register = none;
  pending = record { init = 0; value = "a"; applied = false } ∷ [];
}

abbrev applied : Sys
applied = record begun {
  register = some "a";
  pending = record { init = 0; value = "a"; applied = true } ∷ [];
}

abbrev a_value : StateValue
a_value = new_state_value flags 1 "a" none 5 10

abbrev a_written : ConsistencyChecker
a_written = record {
  checks_run = 0;
  values = ("k", ("a", a_value) ∷ []) ∷ [];
  overwritten_values = [];
  version = ("k", pos 1) ∷ [];
  rc = ("k", pos 0) ∷ [];
}

abbrev completed : Sys
completed = record { cc = a_written; register = some "a"; pending = [] }

begins_a : (begin_write flags "k" make_consistency_checker).0 ≡ begun.cc
unfolding begin_write get_or get insert ◌+ℤ◌ string_same Bool-cases
begins_a = refl

completes_a : complete_write flags 1 "k" "a" none (pos 0) 5 10 begun.cc ≡ returns a_written
unfolding complete_write record_write overwrite_all is_exclusive get_or get insert ◌+ℤ◌ ◌-ℤ◌
    string_same Bool-cases int_same ℕ_discrete
completes_a = refl

completed-Reach : Reach flags "k" initial completed
unfolding begin_write get_or get insert ◌+ℤ◌ string_same Bool-cases
completed-Reach =
    next {t = applied}
      (next {t = begun} (next here (begins "a" 0 refl refl))
        (applies (record { init = 0; value = "a"; applied = false }) [] first refl))
      (completes (record { init = 0; value = "a"; applied = true }) [] 1 none 5 10 first (λ _. refl)
        completes_a refl refl)

found_not_reported_example :
    (check_read_correct flags 3 "k" "a" true 2
      (begin_read flags "k" a_written).0
      (begin_read flags "k" a_written).1
      a_written).1
    ≡ none
found_not_reported_example =
    found_not_reported flags refl "k" completed completed completed "a" 3 2 refl completed-Reach
      here here refl

a_written-IsKeyed : IsKeyed a_written
unfolding get_or get
a_written-IsKeyed =
    complete_write-IsKeyed flags refl 1 "k" "a" none (pos 0) 5 10 begun.cc a_written completes_a
      (record { values = λ key u x e. absurd (cc e) })

-- A write of `b` after it, alone.
abbrev b_written : ConsistencyChecker
b_written = record {
  checks_run = 0;
  values = ("k", ("b", new_state_value flags 2 "b" none 6 11) ∷ []) ∷ [];
  overwritten_values = ("k", ("a", a_value) ∷ []) ∷ [];
  version = ("k", pos 2) ∷ [];
  rc = ("k", pos 0) ∷ [];
}

b_alone : WroteAlone flags "k" "b" 6 11 a_written b_written
unfolding begin_write complete_write record_write overwrite_all is_exclusive get_or get insert ◌+ℤ◌
    ◌-ℤ◌ string_same Bool-cases int_same ℕ_discrete
b_alone = record { idle = refl; now = 2; completed = refl }

found_after_write_example :
    (check_read_correct flags 4 "k" "a" true 3
      (begin_read flags "k" b_written).0
      (begin_read flags "k" b_written).1
      b_written).1
    ≡ ite
        (string_key.same "a" "b")
        (if flags.check_ttl && ltb (11 + flags.ttl_check_buffer) 3 then some expired else none)
        (elim (get (at b_written.overwritten_values "k") "a") [
          | none ↦ some never_written
          | some _ ↦ some overwritten
        ])
found_after_write_example =
    found_after_write flags refl "k" "b" 6 11 a_written b_written "a" 4 3 b_alone

a-ne-b : ¬ (◌≡◌ {A = String} "a" "b")
a-ne-b = string_ne "a" "b" refl

a-IsKnown : IsKnown (at a_written.values "k") "a"
unfolding get_or get string_same Bool-cases
a-IsKnown e = cc

stale_reported_example :
    (check_read_correct flags 4 "k" "a" true 3
      (begin_read flags "k" b_written).0
      (begin_read flags "k" b_written).1
      b_written).1
    ≡ some overwritten
stale_reported_example =
    stale_reported flags refl "k" "b" 6 11 a_written b_written "a" 4 3 a_written-IsKeyed b_alone
      a-ne-b a-IsKnown

false_alarm_example :
    (s : Sys) × Reach flags "k" initial s
    × (s.register ≡ none)
    × (s.pending ≡ [])
    × ((check_read_correct flags 3 "k" "" false 2
          (begin_read flags "k" s.cc).0
          (begin_read flags "k" s.cc).1
          s.cc).1
        ≡ some (unexpired (new_state_value flags 1 "a" (some "timeout") 5 10 ∷ [])))
false_alarm_example = false_alarm flags refl "k" "a" "timeout" 1 5 10 3 2 (omega arith)

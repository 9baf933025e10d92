-- ===== src/Stress/Tests.antt =====
-- A run of lab4/cmd/stress/tester.go with one write to its only key.
use cs426_spring2022_labs.Common.{
  ◌-ℤ◌, ◌+ℤ◌, ℕ_discrete, int_same, Bool-cases, string_same, ℕ, ◌≤ℤ◌, ◌≡◌, refl, String, true,
  false, none, [], ◌∷◌, pos, returns, panics, first, length, In, arith, string_key,
}
use cs426_spring2022_labs.Common.GoMap.{insert, get_or}
use cs426_spring2022_labs.Checker.{
  is_exclusive, overwrite_all, check_found, check_read_correct, Flags, make_consistency_checker,
  begin_write, complete_write, record_write, new_state_value, begin_read,
}
use cs426_spring2022_labs.Stress.{
  StressTester, fresh_tester, random_letters, random_string, random_keys, make_stress_tester, pick,
  launch, release, finish_set, answers, finish_get,
}
use cs426_spring2022_labs.Stress.Runs.{
  set_launched, set_runs, Sys, main_started, Step.launches_set, Step.begins_set, Step.finishes_set,
  Step.stops, Reach, Reach.here, Reach.next, get_launched, get_runs, Step.launches_get,
  Step.begins_get, Step.finishes_get,
}
use cs426_spring2022_labs.Stress.Keys.{make_stress_tester_lem}
use cs426_spring2022_labs.Stress.Report.{Balanced, results_lem}

abbrev flags : Flags
flags = record { check_correctness = true; check_ttl = false; ttl_check_buffer = 0 }

abbrev zeros : ℕ → ℕ × ℕ
zeros rng = (rng, 0)

abbrev key : String
key = "aaaaaaaaaa"

abbrev fresh : StressTester
fresh = fresh_tester 1 (key ∷ [])

made : make_stress_tester zeros 0 1 (pos 1) ≡ returns fresh
unfolding make_stress_tester random_keys random_string random_letters pick
made = refl

abbrev launched_set : Sys
launched_set = record {
  tester = record fresh { sem = 0; wg = 3 };
  requests = set_launched key "v" ∷ [];
  loops = 2;
}

abbrev begun_set : Sys
begun_set = record launched_set {
  tester = record launched_set.tester { cc = (begin_write flags key make_consistency_checker).0 };
  requests = set_runs key "v" 10 (begin_write flags key make_consistency_checker).1 ∷ [];
}

abbrev written : StressTester
written = record begun_set.tester {
  sets = 1;
  cc = record_write key (new_state_value flags 13 "v" none 12 14) (pos 0) begun_set.tester.cc;
}

finishes :
    finish_set flags 2 none 12 13 key "v" 10
      (begin_write flags key make_consistency_checker).1
      begun_set.tester
    ≡ returns written
unfolding finish_set complete_write begin_write get_or
finishes = refl

abbrev finished_set : Sys
finished_set = record begun_set { tester = release written; requests = [] }

abbrev over : Sys
over = record finished_set { tester = record finished_set.tester { wg = 0 }; loops = 0 }

finished_set-Reach : Reach flags 2 (main_started fresh) 1 finished_set
unfolding launch pick
finished_set-Reach =
    next {t = begun_set}
      (next {t = launched_set}
        (next here
          (launches_set 0 key "v" launched_set.tester (omega arith) (omega arith) refl refl))
        (begins_set key "v" 10 [] first refl))
      (finishes_set key "v" 10 _ none 12 13 [] written first finishes refl)

over-Reach : Reach flags 2 (main_started fresh) 1 over
unfolding launch pick
over-Reach =
    next {t = record finished_set { tester = record finished_set.tester { wg = 1 }; loops = 1 }}
      (next {t = finished_set} finished_set-Reach (stops (omega arith) refl))
      (stops (omega arith) refl)

results_lem_example : Balanced flags 1 1 over.tester
results_lem_example =
    results_lem zeros 0 flags 2 1 (pos 1) 1 fresh over made over-Reach (omega arith) refl

make_stress_tester_lem_example :
    (st : StressTester) × (make_stress_tester zeros 0 1 (pos 1) ≡ returns st)
    × (length st.keys ≡ 1)
    × ((draw : ℕ)
        → pos 1 ≤ℤ pos 1
        → (key : String) × (st' : StressTester) × (launch draw st ≡ returns (st', key))
          × In key st.keys)
    × ((draw : ℕ) → pos 1 ≤ℤ pos 0 → launch draw st ≡ panics)
make_stress_tester_lem_example = make_stress_tester_lem zeros 0 1 (pos 1)

-- The same run with a `Get` before the loops stop, which is answered with a value that was never written
-- while the limiter allows no line.
abbrev launched_get : Sys
launched_get = record {
  tester = record written { gets = 0; sem = 0; wg = 3 };
  requests = get_launched key ∷ [];
  loops = 2;
}

abbrev begun_get : Sys
begun_get = record launched_get {
  requests =
      get_runs key 15 (begin_read flags key written.cc).0 (begin_read flags key written.cc).1 ∷ [];
}

abbrev answered_get : Sys
answered_get = record begun_get {
  tester = release (
      finish_get flags (answers "w" true) false 20 key 15 (begin_read flags key written.cc).0
        (begin_read flags key written.cc).1 begun_get.tester);
  requests = [];
}

abbrev one_stopped : Sys
one_stopped = record answered_get { tester = record answered_get.tester { wg = 1 }; loops = 1 }

abbrev all_stopped : Sys
all_stopped = record one_stopped { tester = record one_stopped.tester { wg = 0 }; loops = 0 }

wrong_answer : Reach flags 2 (main_started fresh) 2 all_stopped
unfolding launch pick finish_get
wrong_answer =
    let g : Reach flags 2 (main_started fresh) 2 answered_get =
      next {t = begun_get}
        (next {t = launched_get}
          (next {t = finished_set} finished_set-Reach
            (launches_get 0 key launched_get.tester (omega arith) (omega arith) refl refl))
          (begins_get key 15 [] first refl))
        (finishes_get key 15 _ _ (answers "w" true) false 20 [] first refl) in
    next {t = one_stopped} (next {t = answered_get} g (stops (omega arith) refl))
      (stops (omega arith) refl)

one_checked : all_stopped.tester.cc.checks_run ≡ 1
unfolding finish_get check_read_correct check_found record_write overwrite_all is_exclusive
    begin_write begin_read get_or insert string_same Bool-cases int_same ℕ_discrete ◌+ℤ◌ ◌-ℤ◌
one_checked = refl

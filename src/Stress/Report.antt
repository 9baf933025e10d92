-- ===== src/Stress/Report.antt =====
-- What the stress tester of lab4/cmd/stress/tester.go prints in the end.
use cs426_spring2022_labs.Common.{
  pos_part, ℤ, pos, ℕ, ◌+◌, ◌≤◌, ◌<◌, ◌^◌, ◌≡◌, refl, ap, ◌∙◌, String, true, List, [], ◌∷◌, pos,
  >>=-eq-returns, returns, length, ℤ, subst, string_key, arith,
}
use cs426_spring2022_labs.Common.GoMap.{get_or}
use cs426_spring2022_labs.Checker.{Flags, count_at}
use cs426_spring2022_labs.Stress.{
  StressTester, fresh_tester, make_stress_tester, random_keys, results, sub,
}
use cs426_spring2022_labs.Stress.Runs.{
  Request, Sys, main_started, Step, Reach, here, next, launched, launches_get, launches_set, stops,
  begins_get, begins_set, finishes_get, finishes_set,
}
use cs426_spring2022_labs.Stress.Counts.{Inv, writes_to}
use cs426_spring2022_labs.Stress.Steps.{Step-Inv}

started-Inv :
    {R : Type 0} (int : R → R × ℕ) (rng : R) (flags : Flags) (limit : ℕ) (num_keys : ℤ)
    (st : StressTester)
    → make_stress_tester int rng limit num_keys ≡ returns st
    → Inv flags limit 0 (main_started st)
unfolding make_stress_tester get_or
started-Inv int rng flags limit num_keys st h =
    let (keys, q, r) =
      >>=-eq-returns (random_keys int rng (pos_part num_keys) 10 [])
        (λ keys. returns (fresh_tester limit keys)) st h in
    let same : fresh_tester limit keys ≡ st = cc r in
    subst (λ st. Inv flags limit 0 (main_started st)) same
      (record {
        slots = omega arith;
        waits = refl;
        total = refl;
        set_errs = omega arith;
        wrong = omega arith;
        checked = omega arith;
        writes = λ on key. refl;
      })

launched-le :
    (flags : Flags) (ttl n : ℕ) (s t : Sys) (step : Step flags ttl s t)
    → n ≤ launched flags ttl n step
launched-le flags ttl n s t (launches_get draw key st l p h e) = omega arith
launched-le flags ttl n s t (launches_set draw key value st l p h e) = omega arith
launched-le flags ttl n s t (stops l e) = omega arith
launched-le flags ttl n s t (begins_get key start rest p e) = omega arith
launched-le flags ttl n s t (begins_set key value start rest p e) = omega arith
launched-le flags ttl n s t (finishes_get key start init pending answer allow now rest p e) =
    omega arith
launched-le flags ttl n s t (finishes_set key value start init err end_time now rest st p h e) =
    omega arith

Reach-Inv :
    (flags : Flags) (ttl limit : ℕ) (s : Sys) (n : ℕ) (t : Sys)
    → Inv flags limit 0 s
    → Reach flags ttl s n t
    → n < 2 ^ 64
    → Inv flags limit n t
Reach-Inv flags ttl limit s n t i here fits = i
Reach-Inv flags ttl limit s m u i (next {n} {t} r step) fits =
    let low : n < 2 ^ 64 = omega (arith, fits, launched-le flags ttl n t u step) in
    Step-Inv flags ttl limit n t u step low (Reach-Inv flags ttl limit s n t i r low)

sub_lem : (a b : ℕ) → b ≤ a → a < 2 ^ 64 → sub a b + b ≡ a
sub_lem a b le fits = omega (arith, le, fits)

-- What is printed is true of the requests: none is lost, none is under way, and no difference wraps.
pub record Balanced (flags : Flags) (limit n : ℕ) (st : StressTester) : Type 0 where
  pub total : (results st).total_requests ≡ n
  pub gets : (results st).gets_succeeded + st.get_errs ≡ st.gets
  pub sets : (results st).sets_succeeded + st.set_errs ≡ st.sets
  pub checks : (results st).correct + st.inconsistencies ≡ st.cc.checks_run
  pub checked : st.cc.checks_run ≤ (results st).gets_succeeded
  pub slots : st.sem ≡ limit
  pub quiet : flags.check_correctness ≡ true → (key : String) → count_at st.cc.rc key ≡ pos 0

-- Whenever `wait` returns, in whatever order the goroutines ran and whatever the cluster answered, and
-- fewer than 2^64 requests were launched: each request is counted once, as a success or as an error; no
-- subtraction in the report wraps; at most the successful gets were checked; the semaphore has all its
-- slots again; and, with the checks on, the checker knows of no write under way.
pub results_lem :
    {R : Type 0} (int : R → R × ℕ) (rng : R) (flags : Flags) (ttl limit : ℕ) (num_keys : ℤ) (n : ℕ)
    (st : StressTester) (t : Sys)
    → make_stress_tester int rng limit num_keys ≡ returns st
    → Reach flags ttl (main_started st) n t
    → n < 2 ^ 64
    → t.tester.wg ≡ 0
    → Balanced flags limit n t.tester
unfolding results
results_lem int rng flags ttl limit num_keys n st t made r fits over =
    let i =
      Reach-Inv flags ttl limit (main_started st) n t
        (started-Inv int rng flags limit num_keys st made) r fits in
    let none_left : length t.requests ≡ 0 = omega (arith, over, i.waits) in
    let gets : sub t.tester.gets t.tester.get_errs + t.tester.get_errs ≡ t.tester.gets =
      sub_lem t.tester.gets t.tester.get_errs (omega (arith, i.checked))
        (omega (arith, fits, i.total)) in
    record {
      total = omega (arith, fits, i.total, none_left);
      gets = gets;
      sets = sub_lem t.tester.sets t.tester.set_errs i.set_errs (omega (arith, fits, i.total));
      checks =
          sub_lem t.tester.cc.checks_run t.tester.inconsistencies i.wrong
            (omega (arith, fits, i.total, i.checked));
      checked = omega (arith, gets, i.checked);
      slots = omega (arith, none_left, i.slots);
      quiet = λ on key. i.writes on key ∙ ap pos (no_writes key t.requests none_left);
    }
  where
    no_writes : (key : String) (rs : List Request) → length rs ≡ 0 → writes_to key rs ≡ 0
    no_writes key [] e = refl
    no_writes key (r ∷ rs) e = absurd (omega (arith, e))

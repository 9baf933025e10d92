-- ===== src/Stress.antt =====
-- lab4/cmd/stress/tester.go: the stress tester. The client of the cluster is known by what its calls
-- answer, the rate limiters and the clock by arguments. What is only logged is left out.
pub mod Runs
pub mod Keys
pub mod Counts
pub mod Finish
pub mod Steps
pub mod Report
pub mod Unlogged
mod Tests
use Prim.Native.String.{◌++◌ as concat}
use cs426_spring2022_labs.Common.{
  pos_part, ℤ, pos, ◌≤ℤ◌, ℕ, zero, suc, ◌+◌, ◌-◌, ◌%◌, ◌^◌, String, Bool, true, false, Option, none,
  some, List, [], ◌∷◌, ◌++◌, ℤ, Outcome, returns, panics, ◌>>=◌, if◌then◌else◌, ◌==◌, length,
  get_elem?, ◌&&◌,
}
use cs426_spring2022_labs.Checker.{
  Flags, ConsistencyChecker, make_consistency_checker, begin_write, complete_write, begin_read,
  check_read_correct,
}

pub record StressTester : Type 0 where
  -- what is left of `sem`, and the counter of `wg`
  pub sem : ℕ
  pub wg : ℕ
  pub keys : List String
  pub gets : ℕ
  pub get_errs : ℕ
  pub sets : ℕ
  pub set_errs : ℕ
  pub inconsistencies : ℕ
  pub cc : ConsistencyChecker

abbrev pub fresh_tester : (max_pending : ℕ) → List String → StressTester
fresh_tester max_pending keys = record {
  sem = max_pending;
  wg = 0;
  keys = keys;
  gets = 0;
  get_errs = 0;
  sets = 0;
  set_errs = 0;
  inconsistencies = 0;
  cc = make_consistency_checker;
}

abbrev pub chars : List String
chars =
    "a" ∷ "b" ∷ "c" ∷ "d" ∷ "e" ∷ "f" ∷ "g" ∷ "h" ∷ "i" ∷ "j" ∷ "k" ∷ "l" ∷ "m" ∷ "n" ∷ "o" ∷ "p"
    ∷ "q" ∷ "r" ∷ "s" ∷ "t" ∷ "u" ∷ "v" ∷ "w" ∷ "x" ∷ "y" ∷ "z" ∷ []

-- `out[rng.Int()%len(out)]`: the remainder by 0, and an index out of range, panic.
unfoldable pub pick : (draw : ℕ) → List String → Outcome String
pick draw out =
    if length out == 0
    then panics
    else elim (get_elem? out (draw % length out)) [ none ↦ panics | some c ↦ returns c ]

module _ {R : Type 0} (int : R → R × ℕ) where
  -- The loop of `randomString`, with `length` letters to go.
  unfoldable pub random_letters : (length : ℕ) → String → R → Outcome (R × String)
  unfolding pick
  random_letters zero out rng = returns (rng, out)
  random_letters (suc n) out rng =
      let (rng', draw) = int rng in pick draw chars >>= λ c. random_letters n (concat out c) rng'

  unfoldable pub random_string : R → (length : ℕ) → Outcome (R × String)
  unfolding random_letters
  random_string rng n = random_letters n "" rng

  -- The loop of `randomKeys`, with `n` keys to go; the generator is seeded from the clock.
  unfoldable pub random_keys : R → (n length : ℕ) → List String → Outcome (List String)
  unfolding random_string
  random_keys rng zero length out = returns out
  random_keys rng (suc n) length out =
      random_string rng length >>= λ drawn. random_keys drawn.0 n length (out ++ drawn.1 ∷ [])

  -- The loop makes no key if the flag is negative.
  unfoldable pub make_stress_tester : R → (max_pending : ℕ) → (num_keys : ℤ) → Outcome StressTester
  unfolding random_keys
  make_stress_tester rng max_pending num_keys = do
    keys ← random_keys rng (pos_part num_keys) 10 []
    returns (fresh_tester max_pending keys)

-- `atomic.AddUint64` of 1
abbrev pub add_one : ℕ → ℕ
add_one n = suc n % 2 ^ 64

-- One turn of `stressLoop` up to the `go` statement, once the semaphore has let it through; with the key
-- it drew.
unfoldable pub launch : (draw : ℕ) → StressTester → Outcome (StressTester × String)
unfolding pick
launch draw st = do
  key ← pick draw st.keys
  returns (record st { sem = st.sem - 1; wg = suc st.wg }, key)

-- The end of the goroutine.
abbrev pub release : StressTester → StressTester
release st = record st { sem = suc st.sem; wg = st.wg - 1 }

-- What `Get` of the client returns.
pub data Answer : Type 0 where
  failed : (err : String) → Answer
  answers : (val : String) → (was_found : Bool) → Answer

abbrev pub is_some : {A : Type 0} → Option A → Bool
is_some none = false
is_some (some a) = true

-- The function of `stressGets` from the return of `Get` on; `allow` is what the limiter of the error log
-- says. Its counters and the checker are locked apart, but nobody reads two of them before the end.
unfoldable pub finish_get :
    Flags
    → Answer
    → (allow : Bool) → (now : ℕ) → (key : String) → (start_time : ℕ) → (initial_version : ℤ)
    → (writes_pending : Bool) → StressTester
    → StressTester
unfolding check_read_correct
finish_get flags (failed err) allow now key start_time initial_version writes_pending st =
    record st { gets = add_one st.gets; get_errs = add_one st.get_errs }
finish_get flags (answers val was_found) allow now key start_time initial_version writes_pending
      st =
    let (cc, err) =
      check_read_correct flags now key val was_found start_time initial_version writes_pending
        st.cc in
    record st {
      gets = add_one st.gets;
      cc = cc;
      inconsistencies =
          if is_some err && allow then add_one st.inconsistencies else st.inconsistencies;
    }

-- The function of `stressSets` from the return of `Set` on, with its error.
unfoldable pub finish_set :
    Flags
    → (ttl : ℕ) → Option String
    → (end_time now : ℕ) → (key value : String) → (start_time : ℕ) → (initial_version : ℤ)
    → StressTester
    → Outcome StressTester
unfolding complete_write
finish_set flags ttl err end_time now key value start_time initial_version st = do
  cc ←
      complete_write flags now key value err initial_version (start_time + ttl) (end_time + ttl)
        st.cc
  returns (record st {
    sets = add_one st.sets;
    set_errs = if is_some err then add_one st.set_errs else st.set_errs;
    cc = cc;
  })

-- What `main` prints.
pub record Results : Type 0 where
  pub gets_succeeded : ℕ
  pub sets_succeeded : ℕ
  pub correct : ℕ
  pub total_requests : ℕ

-- The subtraction of unsigned numbers.
abbrev pub sub : ℕ → ℕ → ℕ
sub a b = (a + 2 ^ 64 - b) % 2 ^ 64

unfoldable pub results : StressTester → Results
results st = record {
  gets_succeeded = sub st.gets st.get_errs;
  sets_succeeded = sub st.sets st.set_errs;
  correct = sub st.cc.checks_run st.inconsistencies;
  total_requests = (st.gets + st.sets) % 2 ^ 64;
}

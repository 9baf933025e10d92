-- ===== src/Stress/Runs.antt =====
-- The goroutines of the stress tester of lab4/cmd/stress/tester.go, their steps in any order.
use cs426_spring2022_labs.Common.{
  ℕ, suc, ◌<◌, ◌-◌, ◌≡◌, String, Bool, Option, Pick, List, [], ◌∷◌, ℤ, returns,
}
use cs426_spring2022_labs.Checker.{Flags, begin_write, begin_read}
use cs426_spring2022_labs.Stress.{StressTester, launch, release, Answer, finish_get, finish_set}

-- A request that was launched: before its function starts, and while the client's call runs.
pub data Request : Type 0 where
  get_launched : (key : String) → Request
  get_runs :
      (key : String) → (start_time : ℕ) → (initial_version : ℤ) → (writes_pending : Bool) → Request
  set_launched : (key value : String) → Request
  set_runs : (key value : String) → (start_time : ℕ) → (initial_version : ℤ) → Request

-- The tester, its goroutines, and how many of its two loops run.
pub record Sys : Type 0 where
  pub tester : StressTester
  pub requests : List Request
  pub loops : ℕ

-- What `main` starts: `tester.wg.Add(2)` and the two loops.
abbrev pub main_started : StressTester → Sys
main_started st = record { tester = record st { wg = suc (suc st.wg) }; requests = []; loops = 2 }

-- A loop goes on only while it runs, and as the semaphore lets it.
module _ (flags : Flags) (ttl : ℕ) where
  pub data Step (s t : Sys) : Type 0 where
    launches_get :
        (draw : ℕ) (key : String) (st : StressTester)
        → 0 < s.loops
        → 0 < s.tester.sem
        → launch draw s.tester ≡ returns (st, key)
        → t ≡ record s { tester = st; requests = get_launched key ∷ s.requests }
        → Step s t
    launches_set :
        (draw : ℕ) (key value : String) (st : StressTester)
        → 0 < s.loops
        → 0 < s.tester.sem
        → launch draw s.tester ≡ returns (st, key)
        → t ≡ record s { tester = st; requests = set_launched key value ∷ s.requests }
        → Step s t
    stops :
        0 < s.loops
        → t ≡ record s { tester = record s.tester { wg = s.tester.wg - 1 }; loops = s.loops - 1 }
        → Step s t
    begins_get :
        (key : String) (start : ℕ) (rest : List Request)
        → Pick (get_launched key) s.requests rest
        → t ≡ record s {
          requests =
              get_runs key start
                (begin_read flags key s.tester.cc).0
                (begin_read flags key s.tester.cc).1
              ∷ rest;
        }
        → Step s t
    begins_set :
        (key value : String) (start : ℕ) (rest : List Request)
        → Pick (set_launched key value) s.requests rest
        → t ≡ record s {
          tester = record s.tester { cc = (begin_write flags key s.tester.cc).0 };
          requests = set_runs key value start (begin_write flags key s.tester.cc).1 ∷ rest;
        }
        → Step s t
    finishes_get :
        (key : String) (start : ℕ) (init : ℤ) (pending : Bool) (answer : Answer) (allow : Bool)
        (now : ℕ) (rest : List Request)
        → Pick (get_runs key start init pending) s.requests rest
        → t ≡ record s {
          tester = release (finish_get flags answer allow now key start init pending s.tester);
          requests = rest;
        }
        → Step s t
    finishes_set :
        (key value : String) (start : ℕ) (init : ℤ) (err : Option String) (end_time now : ℕ)
        (rest : List Request) (st : StressTester)
        → Pick (set_runs key value start init) s.requests rest
        → finish_set flags ttl err end_time now key value start init s.tester ≡ returns st
        → t ≡ record s { tester = release st; requests = rest }
        → Step s t

  -- How many requests are launched after a step.
  abbrev pub launched : {s t : Sys} → ℕ → Step s t → ℕ
  launched n (launches_get draw key st l p h e) = suc n
  launched n (launches_set draw key value st l p h e) = suc n
  launched n (stops l e) = n
  launched n (begins_get key start rest p e) = n
  launched n (begins_set key value start rest p e) = n
  launched n (finishes_get key start init pending answer allow now rest p e) = n
  launched n (finishes_set key value start init err end_time now rest st p h e) = n

  -- A run, with the requests launched so far.
  pub data Reach (s : Sys) : ℕ → Sys → Type 0 where
    here : Reach s 0 s
    next : {n : ℕ} {t u : Sys} → Reach s n t → (step : Step t u) → Reach s (launched n step) u

-- ===== src/Checker/Register.antt =====
-- lab4/checker/checker.go beside an ideal store: one key of it is a register that each pending write
-- sets at most once, at some moment between its `BeginWrite` and its `CompleteWrite`, and that may
-- expire. A write that reports success has set it; one that reports an error may have, or not.
use cs426_spring2022_labs.Common.{
  Pick, string_key, ℕ, ◌≤◌, String, ◌≡◌, ◌≢◌, ◌⊎◌, Bool, true, false, Option, none, some, List, [],
  ◌∷◌, map, ℤ, pos, returns, length, All, In,
}
use cs426_spring2022_labs.Common.GoMap.{get}
use cs426_spring2022_labs.Checker.{
  Flags, ConsistencyChecker, make_consistency_checker, Values, at, count_at, begin_write,
  complete_write, check_read_correct,
}

pub record Write : Type 0 where
  -- the version that `BeginWrite` returned, for a version that counts up from 0
  pub init : ℕ
  pub value : String
  pub applied : Bool

pub record Sys : Type 0 where
  pub cc : ConsistencyChecker
  pub register : Option String
  pub pending : List Write

abbrev pub initial : Sys
initial = record { cc = make_consistency_checker; register = none; pending = [] }

module _ (flags : Flags) (key : String) where
  pub data Step (s t : Sys) : Type 0 where
    begins :
        (v : String) (init : ℕ)
        → (begin_write flags key s.cc).1 ≡ pos init
        → t ≡ record {
          cc = (begin_write flags key s.cc).0;
          register = s.register;
          pending = record { init = init; value = v; applied = false } ∷ s.pending;
        }
        → Step s t
    applies :
        (w : Write) (rest : List Write)
        → Pick w s.pending rest
        → t ≡ record {
          cc = s.cc;
          register = some w.value;
          pending = record w { applied = true } ∷ rest;
        }
        → Step s t
    completes :
        (w : Write) (rest : List Write) (now : ℕ) (err : Option String) (m d : ℕ)
        → Pick w s.pending rest
        → (err ≡ none → w.applied ≡ true)
        → complete_write flags now key w.value err (pos w.init) m d s.cc ≡ returns t.cc
        → t.register ≡ s.register
        → t.pending ≡ rest
        → Step s t
    expires : t ≡ record s { register = none } → Step s t
    begins_other :
        (j : String) → key ≢ j → t ≡ record s { cc = (begin_write flags j s.cc).0 } → Step s t
    completes_other :
        (j value : String) (now : ℕ) (err : Option String) (init : ℤ) (m d : ℕ)
        → key ≢ j
        → complete_write flags now j value err init m d s.cc ≡ returns t.cc
        → t.register ≡ s.register
        → t.pending ≡ s.pending
        → Step s t
    checks :
        (now : ℕ) (j value : String) (found : Bool) (start : ℕ) (init : ℤ) (pending : Bool)
        → t
          ≡ record s { cc = (check_read_correct flags now j value found start init pending s.cc).0 }
        → Step s t

  pub data Reach (s : Sys) : Sys → Type 0 where
    here : Reach s s
    next : {t u : Sys} → Reach s t → Step t u → Reach s u

abbrev pub pending_values : List Write → List String
pending_values = map (λ w. w.value)

-- A value that the checker accepts for the key.
abbrev pub IsKnown : Values → String → Type 0
IsKnown vals v = get vals v ≢ none

pub record Inv (key : String) (completed : ℕ) (s : Sys) : Type 0 where
  pub version : count_at s.cc.version key ≡ pos completed
  pub rc : count_at s.cc.rc key ≡ pos (length s.pending)
  pub begun : All (λ w. w.init ≤ completed) s.pending
  -- a write that was applied, with none completed since it began: the value is a pending one
  pub exclusive :
      All
        (λ w.
          w.applied ≡ true
          → w.init ≡ completed
          → (v : String) → s.register ≡ some v
          → In v (pending_values s.pending))
        s.pending
  pub covered :
      (v : String)
      → s.register ≡ some v
      → IsKnown (at s.cc.values key) v ⊎ In v (pending_values s.pending)

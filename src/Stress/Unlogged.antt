-- ===== src/Stress/Unlogged.antt =====
-- What the stress tester of lab4/cmd/stress/tester.go prints of answers that it could not log.
use cs426_spring2022_labs.Common.{ℕ, ◌≡◌, false, string_key}
use cs426_spring2022_labs.Checker.{Flags}
use cs426_spring2022_labs.Stress.Runs.{
  Sys, Step, Reach, here, next, launches_get, launches_set, stops, begins_get, begins_set,
  finishes_get, finishes_set,
}

module _ (flags : Flags) (ttl : ℕ) where
  -- In this step, or in this run, the limiter of the error log allows no line after a `Get` that was
  -- answered.
  abbrev pub NoLine : {s t : Sys} → Step flags ttl s t → Type 0
  NoLine (launches_get draw key st l p h e) = Unit
  NoLine (launches_set draw key value st l p h e) = Unit
  NoLine (stops l e) = Unit
  NoLine (begins_get key start rest p e) = Unit
  NoLine (begins_set key value start rest p e) = Unit
  NoLine (finishes_get key start init pending answer allow now rest p e) = allow ≡ false
  NoLine (finishes_set key value start init err end_time now rest st p h e) = Unit

  abbrev pub NoLines : {s t : Sys} {n : ℕ} → Reach flags ttl s n t → Type 0
  NoLines here = Unit
  NoLines (next r step) = NoLines r × NoLine step

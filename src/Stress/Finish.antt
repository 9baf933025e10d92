-- ===== src/Stress/Finish.antt =====
-- What the end of a request does to the counters of lab4/cmd/stress/tester.go.
use cs426_spring2022_labs.Common.{
  ℕ, suc, ◌+◌, ◌≤◌, ◌<◌, ◌^◌, ◌≡◌, refl, sym, ap, ◌∙◌, ◌⊎◌, inl, inr, subst, String, Bool, true,
  false, ◌&&◌, Option, none, ℤ, pos, ◌-ℤ◌, returns, >>=-eq-returns, if◌then◌else◌, string_key,
  arith,
}
use cs426_spring2022_labs.Checker.{
  Flags, ConsistencyChecker, count_at, begin_write, record_write, new_state_value, complete_write,
  check_read_correct,
}
use cs426_spring2022_labs.Checker.Calls.{
  complete_write-eq-returns, check_read_correct-SameAt, record_write-Writes, record_write-SameAt,
}
use cs426_spring2022_labs.Stress.{
  StressTester, Answer, failed, answers, add_one, is_some, finish_get, finish_set,
}

pub begin_write_checks :
    (flags : Flags) (key : String) (cc : ConsistencyChecker)
    → (begin_write flags key cc).0.checks_run ≡ cc.checks_run
unfolding begin_write
begin_write_checks flags key c = ground arith

complete_write_checks :
    (flags : Flags) (now : ℕ) (key value : String) (err : Option String) (init : ℤ) (m d : ℕ)
    (c c' : ConsistencyChecker)
    → complete_write flags now key value err init m d c ≡ returns c'
    → c'.checks_run ≡ c.checks_run
unfolding complete_write record_write
complete_write_checks flags now key value err init m d c c' h = ground arith

-- A check is not made, and then finds nothing, or it is counted.
pub check_read_correct_checks :
    (flags : Flags) (now : ℕ) (key val : String) (found : Bool) (start : ℕ) (init : ℤ)
    (pending : Bool) (c : ConsistencyChecker)
    → (((check_read_correct flags now key val found start init pending c).0 ≡ c)
        × ((check_read_correct flags now key val found start init pending c).1 ≡ none))
      ⊎ ((check_read_correct flags now key val found start init pending c).0.checks_run
          ≡ add_one c.checks_run)
unfolding check_read_correct
check_read_correct_checks flags now key val found start init pending c = ground arith

pub add_one_lem : (n : ℕ) → suc n < 2 ^ 64 → add_one n ≡ suc n
add_one_lem n h = omega (arith, h)

-- What the end of a request leaves as it was, or counts.
pub record Finished (n k : ℕ) (st st' : StressTester) : Type 0 where
  pub sem : st'.sem ≡ st.sem
  pub wg : st'.wg ≡ st.wg
  pub gets : st'.gets ≡ n
  pub sets : st'.sets ≡ k
  pub set_errs : st'.set_errs + st.sets ≤ st.set_errs + st'.sets
  pub wrong : st'.inconsistencies ≤ st'.cc.checks_run
  pub checked : st'.cc.checks_run + st'.get_errs ≤ st'.gets

finish_get_failed :
    (flags : Flags) (err : String) (allow : Bool) (now : ℕ) (key : String) (start : ℕ) (init : ℤ)
    (pending : Bool) (st : StressTester)
    → suc st.gets < 2 ^ 64
    → st.inconsistencies ≤ st.cc.checks_run
    → st.cc.checks_run + st.get_errs ≤ st.gets
    → Finished
        (suc st.gets)
        st.sets
        st
        (finish_get flags (failed err) allow now key start init pending st)
unfolding finish_get
finish_get_failed flags err allow now key start init pending st fits wrong checked = record {
  sem = refl;
  wg = refl;
  gets = add_one_lem st.gets fits;
  sets = refl;
  set_errs = omega arith;
  wrong = wrong;
  checked = omega (arith, fits, checked);
}

add_if : (b : Bool) (i n : ℕ) → i ≤ n → suc n < 2 ^ 64 → (if b then add_one i else i) ≤ add_one n
add_if true i n h fits = omega (arith, h, fits)
add_if false i n h fits = omega (arith, h, fits)

finish_get_answers :
    (flags : Flags) (val : String) (found allow : Bool) (now : ℕ) (key : String) (start : ℕ)
    (init : ℤ) (pending : Bool) (st : StressTester)
    → suc st.gets < 2 ^ 64
    → st.inconsistencies ≤ st.cc.checks_run
    → st.cc.checks_run + st.get_errs ≤ st.gets
    → Finished
        (suc st.gets)
        st.sets
        st
        (finish_get flags (answers val found) allow now key start init pending st)
unfolding finish_get
finish_get_answers flags val found allow now key start init pending st fits wrong checked =
    let c = check_read_correct flags now key val found start init pending st.cc in
    let counted = check_read_correct_checks flags now key val found start init pending st.cc in
    record {
      sem = refl;
      wg = refl;
      gets = add_one_lem st.gets fits;
      sets = refl;
      set_errs = omega arith;
      wrong = elim counted [
        | inl (same, nothing) ↦ rw (same, nothing) wrong
        | inr one ↦ rw one (
            add_if (is_some c.1 && allow) st.inconsistencies st.cc.checks_run wrong
              (omega (arith, fits, checked)))
      ];
      checked = elim counted [
        | inl (same, nothing) ↦ rw same (omega (arith, fits, checked))
        | inr one ↦ rw one (omega (arith, fits, checked))
      ];
    }

pub finish_get_lem :
    (flags : Flags) (answer : Answer) (allow : Bool) (now : ℕ) (key : String) (start : ℕ) (init : ℤ)
    (pending : Bool) (st : StressTester)
    → suc st.gets < 2 ^ 64
    → st.inconsistencies ≤ st.cc.checks_run
    → st.cc.checks_run + st.get_errs ≤ st.gets
    → Finished
        (suc st.gets)
        st.sets
        st
        (finish_get flags answer allow now key start init pending st)
finish_get_lem flags (failed err) allow now key start init pending st fits wrong checked =
    finish_get_failed flags err allow now key start init pending st fits wrong checked
finish_get_lem flags (answers val found) allow now key start init pending st fits wrong checked =
    finish_get_answers flags val found allow now key start init pending st fits wrong checked

pub finish_get_rc :
    (flags : Flags) (answer : Answer) (allow : Bool) (now : ℕ) (key : String) (start : ℕ) (init : ℤ)
    (pending : Bool) (st : StressTester) (j : String)
    → flags.check_correctness ≡ true
    → count_at (finish_get flags answer allow now key start init pending st).cc.rc j
      ≡ count_at st.cc.rc j
unfolding finish_get
finish_get_rc flags (failed err) allow now key start init pending st j on = refl
finish_get_rc flags (answers val found) allow now key start init pending st j on =
    (check_read_correct-SameAt flags on now key val found start init pending j st.cc).rc

add_if_le : (b : Bool) (i n : ℕ) → i ≤ n → suc n < 2 ^ 64 → (if b then add_one i else i) ≤ suc i
add_if_le true i n h fits = omega (arith, h, fits)
add_if_le false i n h fits = omega (arith, h, fits)

-- The tester after a write that the checker recorded.
abbrev pub recorded : Option String → ConsistencyChecker → StressTester → StressTester
recorded err c st = record st {
  sets = add_one st.sets;
  set_errs = if is_some err then add_one st.set_errs else st.set_errs;
  cc = c;
}

pub finish_set_eq :
    (flags : Flags) (ttl : ℕ) (err : Option String) (end_time now : ℕ) (key value : String)
    (start : ℕ) (init : ℤ) (st st' : StressTester)
    → finish_set flags ttl err end_time now key value start init st ≡ returns st'
    → (c : ConsistencyChecker) × (complete_write flags now key value err init
          (start + ttl)
          (end_time + ttl)
          st.cc
        ≡ returns c)
      × (st' ≡ recorded err c st)
unfolding finish_set
finish_set_eq flags ttl err end_time now key value start init st st' h =
    let (c, q, r) =
      >>=-eq-returns
        (complete_write flags now key value err init (start + ttl) (end_time + ttl) st.cc)
        (λ c. returns (recorded err c st)) st' h in
    (c, q, cc r)

pub finish_set_lem :
    (flags : Flags) (ttl : ℕ) (err : Option String) (end_time now : ℕ) (key value : String)
    (start : ℕ) (init : ℤ) (st st' : StressTester)
    → finish_set flags ttl err end_time now key value start init st ≡ returns st'
    → suc st.sets < 2 ^ 64
    → st.set_errs ≤ st.sets
    → st.inconsistencies ≤ st.cc.checks_run
    → st.cc.checks_run + st.get_errs ≤ st.gets
    → Finished st.gets (suc st.sets) st st'
finish_set_lem flags ttl err end_time now key value start init st st' h fits errs wrong checked =
    let (c, q, r) = finish_set_eq flags ttl err end_time now key value start init st st' h in
    let same : c.checks_run ≡ st.cc.checks_run =
      complete_write_checks flags now key value err init (start + ttl) (end_time + ttl) st.cc c q in
    subst (Finished st.gets (suc st.sets) st) {x = recorded err c st} (sym r) (record {
      sem = refl;
      wg = refl;
      gets = refl;
      sets = add_one_lem st.sets fits;
      set_errs = omega (arith, add_if_le (is_some err) st.set_errs st.sets errs fits, fits);
      wrong = omega (arith, same, wrong);
      checked = omega (arith, same, checked);
    })

pub finish_set_rc :
    (flags : Flags) (ttl : ℕ) (err : Option String) (end_time now : ℕ) (key value : String)
    (start : ℕ) (init : ℤ) (st st' : StressTester)
    → flags.check_correctness ≡ true
    → finish_set flags ttl err end_time now key value start init st ≡ returns st'
    → (count_at st'.cc.rc key ≡ count_at st.cc.rc key -ℤ pos 1)
      × ((j : String) → ¬ (j ≡ key) → count_at st'.cc.rc j ≡ count_at st.cc.rc j)
finish_set_rc flags ttl err end_time now key value start init st st' on h =
    let (c, q, r) = finish_set_eq flags ttl err end_time now key value start init st st' h in
    let (is, fresh, fresh') =
      complete_write-eq-returns flags on now key value err init (start + ttl) (end_time + ttl) st.cc
        c q in
    let val = new_state_value flags now value err (start + ttl) (end_time + ttl) in
    let same : st'.cc ≡ record_write key val init st.cc = ap (λ (x : StressTester). x.cc) r ∙ is in
    (
      ap (λ (x : ConsistencyChecker). count_at x.rc key) same
          ∙ (record_write-Writes key val init st.cc).rc,
      λ j ne.
          ap (λ (x : ConsistencyChecker). count_at x.rc j) same
          ∙ (record_write-SameAt key j val init st.cc ne).rc,
    )

-- ===== src/Stress/Steps.antt =====
-- Every step of the goroutines of lab4/cmd/stress/tester.go keeps the counters fitting.
use cs426_spring2022_labs.Common.{
  ℕ, suc, ◌+◌, ◌-◌, ◌≤◌, ◌<◌, ◌^◌, ◌≡◌, refl, sym, ap, ◌∙◌, subst, String, true, Option, List, ◌∷◌,
  ℤ, pos, ◌+ℤ◌, ◌-ℤ◌, returns, Pick, Pick-length, string_key, arith,
}
use cs426_spring2022_labs.Checker.{Flags, count_at, begin_write}
use cs426_spring2022_labs.Checker.Calls.{begin_write_self, begin_write-SameAt}
use cs426_spring2022_labs.Checker.Covered.{count_up, count_down}
use cs426_spring2022_labs.Stress.{StressTester, launch, release, finish_get, finish_set}
use cs426_spring2022_labs.Stress.Runs.{
  Request, get_launched, get_runs, set_launched, set_runs, Sys, Step, launches_get, launches_set,
  stops, begins_get, begins_set, finishes_get, finishes_set, launched,
}
use cs426_spring2022_labs.Stress.Counts.{
  is_write, writes_to, writes_to-Pick, is_write_self, is_write_ne, Inv, launch_eq,
}
use cs426_spring2022_labs.Stress.Finish.{
  begin_write_checks, Finished, finish_get_lem, finish_get_rc, finish_set_lem, finish_set_rc,
}

module _ (flags : Flags) (ttl limit : ℕ) where
  launch-Inv :
      (n draw : ℕ) (key : String) (st : StressTester) (r : Request) (s : Sys)
      → 0 < s.tester.sem
      → launch draw s.tester ≡ returns (st, key)
      → ((j : String) → is_write j r ≡ 0)
      → Inv flags limit n s
      → Inv flags limit (suc n) (record s { tester = st; requests = r ∷ s.requests })
  launch-Inv n draw key st r s free h quiet i =
      subst (λ st. Inv flags limit (suc n) (record s { tester = st; requests = r ∷ s.requests }))
        (sym (launch_eq draw s.tester st key h))
        (record {
          slots = omega (arith, free, i.slots);
          waits = omega (arith, i.waits);
          total = omega (arith, i.total);
          set_errs = i.set_errs;
          wrong = i.wrong;
          checked = i.checked;
          writes = λ on j. i.writes on j ∙ ap pos (omega (arith, quiet j));
        })

  stops-Inv :
      (n : ℕ) (s : Sys)
      → 0 < s.loops
      → Inv flags limit n s
      → Inv flags limit n
          (record s { tester = record s.tester { wg = s.tester.wg - 1 }; loops = s.loops - 1 })
  stops-Inv n s running i = record {
    slots = i.slots;
    waits = omega (arith, running, i.waits);
    total = i.total;
    set_errs = i.set_errs;
    wrong = i.wrong;
    checked = i.checked;
    writes = i.writes;
  }

  -- A request that changes, and no write to any key with it.
  begins_get-Inv :
      (n : ℕ) (r r' : Request) (rest : List Request) (s : Sys)
      → Pick r s.requests rest
      → ((j : String) → is_write j r ≡ is_write j r')
      → Inv flags limit n s
      → Inv flags limit n (record s { requests = r' ∷ rest })
  begins_get-Inv n r r' rest s p same i = record {
    slots = omega (arith, Pick-length p, i.slots);
    waits = omega (arith, Pick-length p, i.waits);
    total = omega (arith, Pick-length p, i.total);
    set_errs = i.set_errs;
    wrong = i.wrong;
    checked = i.checked;
    writes = λ on j. i.writes on j ∙ ap pos (omega (arith, writes_to-Pick j p, same j));
  }

  begins_set-Inv :
      (n : ℕ) (key value : String) (start : ℕ) (rest : List Request) (s : Sys)
      → Pick (set_launched key value) s.requests rest
      → Inv flags limit n s
      → Inv flags limit n (record s {
        tester = record s.tester { cc = (begin_write flags key s.tester.cc).0 };
        requests = set_runs key value start (begin_write flags key s.tester.cc).1 ∷ rest;
      })
  begins_set-Inv n key value start rest s p i = record {
    slots = omega (arith, Pick-length p, i.slots);
    waits = omega (arith, Pick-length p, i.waits);
    total = omega (arith, Pick-length p, i.total);
    set_errs = i.set_errs;
    wrong = omega (arith, begin_write_checks flags key s.tester.cc, i.wrong);
    checked = omega (arith, begin_write_checks flags key s.tester.cc, i.checked);
    writes = λ on j. elim (string_key.same j key) [
      | yes e ↦
          let v = (begin_write flags key s.tester.cc).1 in
          let (_, one_more, _, _) = begin_write_self flags on key s.tester.cc in
          ap (count_at (begin_write flags key s.tester.cc).0.rc) e
          ∙ one_more
          ∙ ap (λ z. z +ℤ pos 1) (i.writes on key)
          ∙ count_up (writes_to key s.requests)
          ∙ ap pos (
              omega (
                arith,
                writes_to-Pick key p,
                is_write_self j key value start v e,
                ap (λ k. writes_to k rest) e,
              ))
      | no ne ↦
          let v = (begin_write flags key s.tester.cc).1 in
          (begin_write-SameAt flags on key j s.tester.cc ne).rc
          ∙ i.writes on j
          ∙ ap pos (omega (arith, writes_to-Pick j p, is_write_ne j key value start v ne))
    ];
  }

  -- What is left of the counters when a request is done.
  finishes-Inv :
      (n m k : ℕ) (r : Request) (rest : List Request) (s : Sys) (st : StressTester)
      → Pick r s.requests rest
      → Finished m k s.tester st
      → m + k ≡ suc (s.tester.gets + s.tester.sets)
      → s.tester.sets ≤ k
      → (flags.check_correctness ≡ true
          → (j : String) → count_at st.cc.rc j ≡ pos (writes_to j rest))
      → Inv flags limit n s
      → Inv flags limit n (record s { tester = release st; requests = rest })
  finishes-Inv n m k r rest s st p f one_more grows writes i = record {
    slots = omega (arith, Pick-length p, i.slots, f.sem);
    waits = omega (arith, Pick-length p, i.waits, f.wg);
    total = omega (arith, Pick-length p, i.total, f.gets, f.sets, one_more);
    set_errs = omega (arith, f.set_errs, f.sets, i.set_errs);
    wrong = f.wrong;
    checked = f.checked;
    writes = writes;
  }

  finishes_set-writes :
      (n : ℕ) (key value : String) (start : ℕ) (init : ℤ) (err : Option String) (end_time now : ℕ)
      (rest : List Request) (s : Sys) (st : StressTester)
      → Pick (set_runs key value start init) s.requests rest
      → finish_set flags ttl err end_time now key value start init s.tester ≡ returns st
      → Inv flags limit n s
      → flags.check_correctness ≡ true
      → (j : String) → count_at st.cc.rc j ≡ pos (writes_to j rest)
  finishes_set-writes n key value start init err end_time now rest s st p h i on j =
      let (less, same) =
        finish_set_rc flags ttl err end_time now key value start init s.tester st on h in
      elim (string_key.same j key) [
        | yes e ↦
            ap (count_at st.cc.rc) e
            ∙ less
            ∙ ap (λ z. z -ℤ pos 1)
                (i.writes on key
                  ∙ ap pos (
                      omega (
                        arith,
                        writes_to-Pick key p,
                        is_write_self key key value start init refl,
                        ap (λ k. writes_to k rest) e,
                      )))
            ∙ count_down (writes_to j rest)
        | no ne ↦
            same j ne
            ∙ i.writes on j
            ∙ ap pos (omega (arith, writes_to-Pick j p, is_write_ne j key value start init ne))
      ]

  pub Step-Inv :
      (n : ℕ) (s t : Sys) (step : Step flags ttl s t)
      → n < 2 ^ 64
      → Inv flags limit n s
      → Inv flags limit (launched flags ttl n step) t
  Step-Inv n s t (launches_get draw key st running free h e) fits i =
      rw e (launch-Inv n draw key st (get_launched key) s free h (λ j. refl) i)
  Step-Inv n s t (launches_set draw key value st running free h e) fits i =
      rw e (launch-Inv n draw key st (set_launched key value) s free h (λ j. refl) i)
  Step-Inv n s t (stops running e) fits i = rw e (stops-Inv n s running i)
  Step-Inv n s t (begins_get key start rest p e) fits i =
      rw e (begins_get-Inv n (get_launched key) (get_runs key start _ _) rest s p (λ j. refl) i)
  Step-Inv n s t (begins_set key value start rest p e) fits i =
      rw e (begins_set-Inv n key value start rest s p i)
  Step-Inv n s t (finishes_get key start init pending answer allow now rest p e) fits i =
      let st = finish_get flags answer allow now key start init pending s.tester in
      rw e (
        finishes-Inv n (suc s.tester.gets) s.tester.sets (get_runs key start init pending) rest s st
          p
          (finish_get_lem flags answer allow now key start init pending s.tester
            (omega (arith, fits, i.total, Pick-length p)) i.wrong i.checked)
          (omega arith) (omega arith)
          (λ on j.
            finish_get_rc flags answer allow now key start init pending s.tester j on
            ∙ i.writes on j
            ∙ ap pos (omega (arith, writes_to-Pick j p)))
          i)
  Step-Inv n s t (finishes_set key value start init err end_time now rest st p h e) fits i = rw e (
      finishes-Inv n s.tester.gets (suc s.tester.sets) (set_runs key value start init) rest s st p
        (finish_set_lem flags ttl err end_time now key value start init s.tester st h
          (omega (arith, fits, i.total, Pick-length p)) i.set_errs i.wrong i.checked)
        (omega arith) (omega arith)
        (finishes_set-writes n key value start init err end_time now rest s st p h i) i)

-- ===== src/Checker/Covered.antt =====
-- The invariant of Checker/Register on every step: what the store holds is a value that
-- lab4/checker/checker.go accepts, or the value of a pending write.
use cs426_spring2022_labs.Common.GoMap.{get, insert, get-insert}
use cs426_spring2022_labs.Common.{
  Pick, first, later, Pick-length, ◌+◌, eq_of_parts, +ℤ_parts, pos-injective, -ℤ_parts, ◌-ℤ◌,
  +ℤ_parts, eq_of_parts, ℕ, suc, ◌≤◌, String, ◌≡◌, refl, sym, ap, ◌∙◌, ◌⊎◌, inl, inr, true, false,
  some, List, [], ◌∷◌, pos, ◌+ℤ◌, arith, length, All, In, All-mono, string_key,
}
use cs426_spring2022_labs.Checker.{
  none, Flags, StateValue, Values, at, begin_write, check_read_correct, new_state_value,
}
use cs426_spring2022_labs.Checker.Calls.{
  SameAt, Writes, begin_write_self, begin_write-SameAt, complete_write-eq-returns,
  check_read_correct-SameAt, record_write-Writes, record_write-SameAt,
}
use cs426_spring2022_labs.Checker.Register.{
  checks, completes_other, begins_other, expires, completes, applies, begins, IsKnown, Step, Write,
  Sys, pending_values, Inv,
}

Pick-All {κ} :
    (P : Write → Type κ) {w : Write} {ws rest : List Write}
    → Pick w ws rest
    → All P ws
    → P w × All P rest
Pick-All P first h = h
Pick-All P (later p) (a, h) = let (b, r) = Pick-All P p h in (b, (a, r))

Pick-In :
    (v : String) {w : Write} {ws rest : List Write}
    → Pick w ws rest
    → In v (pending_values ws)
    → (v ≡ w.value) ⊎ In v (pending_values rest)
Pick-In v first (inl e) = inl e
Pick-In v first (inr i) = inr i
Pick-In v (later p) (inl e) = inr (inl e)
Pick-In v (later p) (inr i) = elim (Pick-In v p i) [ inl e ↦ inl e | inr j ↦ inr (inr j) ]

-- A step that leaves all that concerns the key, and the pending writes, keeps the invariant, if the
-- register keeps its value or loses it.
SameAt-Inv :
    (key : String) (n : ℕ) (s t : Sys)
    → SameAt key s.cc t.cc
    → t.pending ≡ s.pending
    → ((v : String) → t.register ≡ some v → s.register ≡ some v)
    → Inv key n s
    → Inv key n t
SameAt-Inv key n s t same p r i = record {
  version = same.version ∙ i.version;
  rc = same.rc ∙ rw p i.rc;
  begun = rw p i.begun;
  exclusive =
      rw p (All-mono _ _ s.pending (λ w h applied init v e. h applied init v (r v e)) i.exclusive);
  covered = λ v e. rw (p, same.values) (i.covered v (r v e));
}

pub count_up : (k : ℕ) → pos k +ℤ pos 1 ≡ pos (suc k)
count_up k = eq_of_parts _ _ (omega (arith, +ℤ_parts (pos k) (pos 1)))

pub count_down : (k : ℕ) → pos (suc k) -ℤ pos 1 ≡ pos k
count_down k = eq_of_parts _ _ (omega (arith, -ℤ_parts (pos (suc k)) (pos 1)))

IsKnown-single : (v : String) (x : StateValue) → IsKnown ((v, x) ∷ []) v
unfolding get
IsKnown-single v x e = ground arith

IsKnown-inserted : (vals : Values) (v : String) (x : StateValue) → IsKnown (insert vals v x) v
IsKnown-inserted vals v x e = ground (arith, get-insert vals v v x)

IsKnown-insert :
    (vals : Values) (u v : String) (x : StateValue) → IsKnown vals v → IsKnown (insert vals u x) v
IsKnown-insert vals u v x h e = h (ground (arith, get-insert vals u v x))

pos-ne : (m n : ℕ) → m ≤ n → ¬ (m ≡ suc n)
pos-ne m n h e = omega arith

module _ (flags : Flags) (on : flags.check_correctness ≡ true) (key : String) where
  begins-Inv :
      (n init : ℕ) (v : String) (s : Sys)
      → (begin_write flags key s.cc).1 ≡ pos init
      → Inv key n s
      → Inv key n (record {
        cc = (begin_write flags key s.cc).0;
        register = s.register;
        pending = record { init = init; value = v; applied = false } ∷ s.pending;
      })
  begins-Inv n init v s b i =
      let (same, rc, version, values) = begin_write_self flags on key s.cc in
      let at_now : init ≡ n = ground (arith, b, same, i.version) in
      record {
        version = version ∙ i.version;
        rc = rc ∙ ap (λ z. z +ℤ pos 1) i.rc ∙ count_up (length s.pending);
        begun = (omega arith, i.begun);
        exclusive = (
          λ applied. cc applied,
          All-mono _ _ s.pending (λ w h applied init v e. inr (h applied init v e)) i.exclusive,
        );
        covered = λ v e. rw values (elim (i.covered v e) [ inl k ↦ inl k | inr j ↦ inr (inr j) ]);
      }

  applies-Inv :
      (n : ℕ) (w : Write) (rest : List Write) (s : Sys)
      → Pick w s.pending rest
      → Inv key n s
      → Inv key n (record {
        cc = s.cc;
        register = some w.value;
        pending = record w { applied = true } ∷ rest;
      })
  applies-Inv n w rest s p i =
      let (old, begun) = Pick-All (λ w. w.init ≤ n) p i.begun in
      let mine : (v : String) → some w.value ≡ some v → In v (w.value ∷ pending_values rest) =
        λ v e. inl (some_eq v w.value (sym e)) in
      record {
        version = i.version;
        rc = i.rc ∙ ap pos (Pick-length p);
        begun = (old, begun);
        exclusive = (λ _ _ v e. mine v e, all_of rest (λ w _ _ v e. mine v e));
        covered = λ v e. inr (mine v e);
      }
    where
      some_eq : (a b : String) → some a ≡ some b → a ≡ b
      some_eq a b e = cc

      all_of : {P : Write → Type 0} (ws : List Write) → ((x : Write) → P x) → All P ws
      all_of [] f = tt
      all_of (x ∷ ws) f = (f x, all_of ws f)

  completes-Inv :
      (n : ℕ) (w : Write) (rest : List Write) (val : StateValue) (s t : Sys)
      → Pick w s.pending rest
      → val.value ≡ w.value
      → (val.err ≡ none → w.applied ≡ true)
      → Writes key val (pos w.init) s.cc t.cc
      → t.register ≡ s.register
      → t.pending ≡ rest
      → Inv key n s
      → Inv key (suc n) t
  completes-Inv n w rest val s t p same_value done written reg pend i =
      let (old, begun) = Pick-All (λ w. w.init ≤ n) p i.begun in
      record {
        version = written.version ∙ ap (λ z. z +ℤ pos 1) i.version ∙ count_up n;
        rc =
            written.rc
            ∙ ap (λ z. z -ℤ pos 1) (i.rc ∙ ap pos (Pick-length p))
            ∙ count_down (length rest)
            ∙ ap (λ l. pos (length l)) (sym pend);
        begun =
            rw pend
              (All-mono (λ w. w.init ≤ n) (λ w. w.init ≤ suc n) rest (λ w h. omega arith) begun);
        exclusive =
            rw pend
              (All-mono (λ w. w.init ≤ n) _ rest (λ w h _ e. absurd (pos-ne w.init n h e)) begun);
        covered = λ v e. rw pend (keep v (sym reg ∙ e));
      }
    where
      keep :
          (v : String)
          → s.register ≡ some v
          → IsKnown (at t.cc.values key) v ⊎ In v (pending_values rest)
      keep v e = elim written.values [
        | inl (no_err, now, one, vals) ↦
            let init : w.init ≡ n = pos-injective w.init n (now ∙ i.version) in
            elim (Pick-In v p ((Pick-All _ p i.exclusive).0 (done no_err) init v e)) [
              | inl q ↦ inl (rw (vals, q, ← same_value) (IsKnown-single val.value val))
              | inr j ↦ inr j
            ]
        | inr vals ↦ elim (i.covered v e) [
          | inl k ↦ inl (rw vals (IsKnown-insert (at s.cc.values key) val.value v val k))
          | inr j ↦ elim (Pick-In v p j) [
            | inl q ↦
                inl
                  (rw (vals, q, ← same_value) (IsKnown-inserted (at s.cc.values key) val.value val))
            | inr l ↦ inr l
          ]
        ]
      ]

  -- Every step keeps the invariant, for a count of completed writes that does not fall.
  pub Step-Inv :
      (n : ℕ) (s t : Sys)
      → Step flags key s t
      → Inv key n s
      → (n' : ℕ) × Inv key n' t × (n ≤ n') × (n + length s.pending ≤ n' + length t.pending)
  Step-Inv n s t (begins v init b e) i =
      (n, rw e (begins-Inv n init v s b i), omega arith, rw e (omega arith))
  Step-Inv n s t (applies w rest p e) i =
      (n, rw e (applies-Inv n w rest s p i), omega arith, rw e (omega (arith, Pick-length p)))
  Step-Inv n s t (completes w rest now err m d p done c reg pend) i =
      let r = complete_write-eq-returns flags on now key w.value err (pos w.init) m d s.cc t.cc c in
      let val : StateValue = new_state_value flags now w.value err m d in
      let written : Writes key val (pos w.init) s.cc t.cc =
        rw r.0 (record_write-Writes key val (pos w.init) s.cc) in
      (
        suc n,
        completes-Inv n w rest val s t p refl done written reg pend i,
        omega arith,
        rw pend (omega (arith, Pick-length p)),
      )
  Step-Inv n s t (expires e) i = (
    n,
    rw e (
        SameAt-Inv key n s (record s { register = none })
          (record { values = refl; overwritten = refl; version = refl; rc = refl }) refl
          (λ v e. cc e) i),
    omega arith,
    rw e (omega arith),
  )
  Step-Inv n s t (begins_other j ne e) i = (
    n,
    rw e (
        SameAt-Inv key n s (record s { cc = (begin_write flags j s.cc).0 })
          (begin_write-SameAt flags on j key s.cc ne) refl (λ v e. e) i),
    omega arith,
    rw e (omega arith),
  )
  Step-Inv n s t (completes_other j value now err init m d ne c reg pend) i =
      let r = complete_write-eq-returns flags on now j value err init m d s.cc t.cc c in
      (
        n,
        SameAt-Inv key n s t
            (rw r.0
              (record_write-SameAt j key (new_state_value flags now value err m d) init s.cc ne))
            pend (λ v e. sym reg ∙ e) i,
        omega arith,
        rw pend (omega arith),
      )
  Step-Inv n s t (checks now j value found start init p e) i = (
    n,
    rw e (
        SameAt-Inv key n s
          (record s { cc = (check_read_correct flags now j value found start init p s.cc).0 })
          (check_read_correct-SameAt flags on now j value found start init p key s.cc) refl
          (λ v e. e) i),
    omega arith,
    rw e (omega arith),
  )

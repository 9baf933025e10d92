-- ===== src/Checker/Reports.antt =====
-- The answers of `CheckReadCorrect`, lab4/checker/checker.go, with no write under way.
use cs426_spring2022_labs.Common.{
  ◌<◌, ◌↔◌, ℕ, ◌+◌, String, ◌≡◌, ◌≢◌, sym, ap, ◌∙◌, inl, inr, ite, if_neg, Bool, true, false, ◌&&◌,
  none, some, [], ◌∷◌, pos, arith, string_key, Option-cases, ltb, if◌then◌else◌,
}
use cs426_spring2022_labs.Common.GoMap.{get, In-of_get}
use cs426_spring2022_labs.Checker.{
  Flags, StateValue, ConsistencyChecker, Values, at, count_at, begin_read, check_read_correct,
  check_found, check_not_found, overwritten, never_written, expired, unexpired,
}
use cs426_spring2022_labs.Checker.Register.{IsKnown}
use cs426_spring2022_labs.Checker.Stale.{IsKeyed, WroteAlone, alone_lem, overwrite_all_has}

-- With no write pending from `BeginRead` to the check, the check is made.
pub check_idle :
    (flags : Flags) (key u : String) (found : Bool) (now start : ℕ) (cc : ConsistencyChecker)
    → flags.check_correctness ≡ true
    → count_at cc.rc key ≡ pos 0
    → (check_read_correct flags now key u found start
        (begin_read flags key cc).0
        (begin_read flags key cc).1
        cc).1
      ≡ (if found
          then check_found flags start u (at cc.values key) (at cc.overwritten_values key)
          else check_not_found now (at cc.values key))
unfolding check_read_correct begin_read
check_idle flags key u found now start cc on idle = ground arith

check_found_single :
    (flags : Flags) (start : ℕ) (u : String) (val : StateValue) (old : Values)
    → val.err ≡ none
    → check_found flags start u ((val.value, val) ∷ []) old
      ≡ ite
          (string_key.same u val.value)
          (if flags.check_ttl && ltb val.definitely_expired_by start then some expired else none)
          (elim (get old u) [ none ↦ some never_written | some _ ↦ some overwritten ])
unfolding check_found get
check_found_single flags start u val old no_err = ground arith

pub check_not_found_single :
    (now : ℕ) (val : StateValue)
    → check_not_found now ((val.value, val) ∷ [])
      ≡ (if ltb val.maybe_expired_by now then none else some (unexpired (val ∷ [])))
unfolding check_not_found
check_not_found_single now val = ground arith

module _ (flags : Flags) (on : flags.check_correctness ≡ true) (key value : String) (m d : ℕ) where
  -- With the checks on, after a write that was alone and succeeded, the check of a found text answers exactly this: of
  -- the written value, that it expired if the TTL check is on and the read began after the upper
  -- bound on its expiry and the buffer, and nothing else; of any other text, that it was overwritten
  -- or never written.
  pub found_after_write :
      (before after : ConsistencyChecker) (u : String) (now start : ℕ)
      → WroteAlone flags key value m d before after
      → (check_read_correct flags now key u true start
          (begin_read flags key after).0
          (begin_read flags key after).1
          after).1
        ≡ ite
            (string_key.same u value)
            (if flags.check_ttl && ltb (d + flags.ttl_check_buffer) start
              then some expired
              else none)
            (elim (get (at after.overwritten_values key) u) [
              | none ↦ some never_written
              | some _ ↦ some overwritten
            ])
  found_after_write before after u now start w =
      let (val, same, no_err, until, _, values, _, idle) =
        alone_lem flags on key value m d before after w in
      check_idle flags key u true now start after on idle
      ∙ ap (λ vals. check_found flags start u vals (at after.overwritten_values key))
          (values ∙ ap (λ t. (t, val) ∷ []) (sym same))
      ∙ check_found_single flags start u val (at after.overwritten_values key) no_err
      ∙ rw (same, until)

  -- With the checks on, after a write that was alone and succeeded, a read that finds nothing is reported
  -- exactly until the lower bound on the value's expiry has passed.
  pub not_found_after_write :
      (before after : ConsistencyChecker) (u : String) (now start : ℕ)
      → WroteAlone flags key value m d before after
      → ((check_read_correct flags now key u false start
            (begin_read flags key after).0
            (begin_read flags key after).1
            after).1
          ≡ none)
        ↔ (m < now)
  not_found_after_write before after u now start w =
      let (val, same, no_err, _, until, values, _, idle) =
        alone_lem flags on key value m d before after w in
      let e =
        check_idle flags key u false now start after on idle
        ∙ ap (check_not_found now) (values ∙ ap (λ t. (t, val) ∷ []) (sym same))
        ∙ check_not_found_single now val in
      (λ h. ground (arith, sym e ∙ h, until), λ h. e ∙ ground (arith, until))

  -- A stale read is caught: with the checks on and each value stored under its own text, after a write that was alone and
  -- succeeded, a read that returns another value, which the checker accepted before, is reported as
  -- overwritten.
  pub stale_reported :
      (before after : ConsistencyChecker) (u : String) (now start : ℕ)
      → IsKeyed before
      → WroteAlone flags key value m d before after
      → u ≢ value
      → IsKnown (at before.values key) u
      → (check_read_correct flags now key u true start
          (begin_read flags key after).0
          (begin_read flags key after).1
          after).1
        ≡ some overwritten
  stale_reported before after u now start keyed w ne known =
      let (val, _, _, _, _, _, old, _) = alone_lem flags on key value m d before after w in
      elim (Option-cases (get (at before.values key) u)) [
        | inl e ↦ absurd (known e)
        | inr (x, e) ↦
            let is_old : IsKnown (at after.overwritten_values key) u = λ q.
              overwrite_all_has key u x (at before.values key) before.overwritten_values
                (In-of_get (at before.values key) u x e)
                (rw (keyed.values key u x e) (ap (λ v. get v u) (sym old) ∙ q)) in
            found_after_write before after u now start w
            ∙ if_neg (string_key.same u value) ne _ _
            ∙ ground (arith, is_old)
      ]

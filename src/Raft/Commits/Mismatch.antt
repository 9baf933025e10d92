-- ===== src/Raft/Commits/Mismatch.antt =====
-- `checkLogs` and one turn of `applier` in lab2/raft/config.go.
use cs426_spring2022_labs.Common.{
  ℕ, suc, ◌≡◌, ◌≢◌, ◌↔◌, refl, ap, sym, ◌∙◌, inl, inr, ite, Option, none, some, List, [], ◌∷◌, ℤ,
  pos, ◌-ℤ◌, ◌≤ℤ◌, returns, if◌then◌else◌, true, false, ltb_ℤ, get_elem?, set, int_key, Key, All,
  arith, Option-cases, Bool-cases,
}
use cs426_spring2022_labs.Common.GoMap.{GoMap, get, insert}
use cs426_spring2022_labs.Raft.Commits.{
  ApplyMsg, Harness, ApplyError, mismatch, find_mismatch, check_logs, apply_msg,
}

-- No log holds another command at the index.
abbrev pub Agrees : {C : Type 0} → ℤ → C → List (GoMap ℤ C) → Type 0
Agrees {C} index v = All (λ log. (old : C) → get log index ≡ some old → old ≡ v)

module _ {C : Type 0} ⦃k : Key C⦄ where
  find_mismatch-eq-none :
      (i : ℕ) (m : ApplyMsg C) (j : ℕ) (logs : List (GoMap ℤ C)) (err_msg : Option (ApplyError C))
      → find_mismatch i m j logs err_msg ≡ none
      → (err_msg ≡ none) × Agrees m.command_index m.command logs
  unfolding find_mismatch
  find_mismatch-eq-none i m j [] err_msg h = (h, tt)
  find_mismatch-eq-none i m j (log ∷ logs) err_msg h =
      elim (Option-cases (get log m.command_index)) [
        | inl e ↦
            let r = find_mismatch-eq-none i m (suc j) logs err_msg (rw (e, find_mismatch) at h) in
            (r.0, ((λ old q. absurd (cc (e, q))), r.1))
        | inr (old, e) ↦
            elim (k.same old m.command)
                as (λ d.
                  (find_mismatch i m (suc j) logs (
                      if ite d true false
                      then err_msg
                      else some (mismatch m.command_index i m.command j old))
                    ≡ none)
                  → (err_msg ≡ none) × Agrees m.command_index m.command (log ∷ logs)) [
                    | yes p ↦ λ g.
                        let r = find_mismatch-eq-none i m (suc j) logs err_msg g in
                        (r.0, ((λ o q. cc (e, q, p)), r.1))
                    | no np ↦ λ g.
                        let r =
                          find_mismatch-eq-none i m (suc j) logs
                            (some (mismatch m.command_index i m.command j old)) g in
                        absurd (cc (r.0))
                  ]
              (rw (e, find_mismatch) at h)
      ]

  find_mismatch_agreed :
      (i : ℕ) (m : ApplyMsg C) (j : ℕ) (logs : List (GoMap ℤ C))
      → Agrees m.command_index m.command logs
      → find_mismatch i m j logs none ≡ none
  unfolding find_mismatch
  find_mismatch_agreed i m j [] a = refl
  find_mismatch_agreed i m j (log ∷ logs) a = elim (Option-cases (get log m.command_index)) [
    | inl e ↦ rw (e, find_mismatch) (find_mismatch_agreed i m (suc j) logs a.1)
    | inr (old, e) ↦
        rw (e, find_mismatch)
          (elim (k.same old m.command)
            as (λ d.
              find_mismatch i m (suc j) logs (
                if ite d true false
                then none
                else some (mismatch m.command_index i m.command j old))
              ≡ none) [
                | yes p ↦ find_mismatch_agreed i m (suc j) logs a.1
                | no np ↦ absurd (np (a.0 old e))
              ])
  ]

  -- What the applier of server `i` has to see of a command for the test to go on.
  pub record IsInOrder (cfg : Harness C) (i : ℕ) (m : ApplyMsg C) : Type 0 where
    pub log : GoMap ℤ C
    pub at : get_elem? cfg.logs i ≡ some log
    pub agrees : Agrees m.command_index m.command cfg.logs
    pub follows : (pos 2 ≤ℤ m.command_index) → get log (m.command_index -ℤ pos 1) ≢ none

  -- The state after a command was recorded.
  abbrev pub record_command : Harness C → ℕ → GoMap ℤ C → ApplyMsg C → Harness C
  record_command cfg i log m = record {
    logs = set cfg.logs i (insert log m.command_index m.command);
    max_index = if ltb_ℤ cfg.max_index m.command_index then m.command_index else cfg.max_index;
  }

  apply_msg-returns :
      (cfg : Harness C) (i : ℕ) (m : ApplyMsg C) (next : Harness C) (log : GoMap ℤ C)
      → m.command_valid ≡ true
      → get_elem? cfg.logs i ≡ some log
      → apply_msg cfg i m ≡ returns next
      → (find_mismatch i m 0 cfg.logs none ≡ none)
        × ((pos 2 ≤ℤ m.command_index) → get log (m.command_index -ℤ pos 1) ≢ none)
        × (next ≡ record_command cfg i log m)
  unfolding apply_msg check_logs
  apply_msg-returns cfg i m next log valid e h =
      elim (Option-cases (find_mismatch i m 0 cfg.logs none)) [
        | inl f ↦ elim (Option-cases (get log (m.command_index -ℤ pos 1))) [
          | inl g ↦ elim (Bool-cases (ltb_ℤ (pos 1) m.command_index)) [
            | inl b ↦ absurd (cc (rw (valid, e, f, g, b, apply_msg, check_logs) at h))
            | inr b ↦ ground (arith, rw (valid, e, f, g, b, apply_msg, check_logs) at h)
          ]
          | inr (w, g) ↦ ground (arith, rw (valid, e, f, g, apply_msg, check_logs) at h)
        ]
        | inr (err, f) ↦ ground (arith, rw (valid, e, f, apply_msg, check_logs) at h)
      ]

  apply_msg-records :
      (cfg : Harness C) (i : ℕ) (m : ApplyMsg C) (log : GoMap ℤ C)
      → m.command_valid ≡ true
      → get_elem? cfg.logs i ≡ some log
      → find_mismatch i m 0 cfg.logs none ≡ none
      → ((pos 2 ≤ℤ m.command_index) → get log (m.command_index -ℤ pos 1) ≢ none)
      → apply_msg cfg i m ≡ returns (record_command cfg i log m)
  unfolding apply_msg check_logs
  apply_msg-records cfg i m log valid e f follows =
      elim (Option-cases (get log (m.command_index -ℤ pos 1))) [
        | inl g ↦ elim (Bool-cases (ltb_ℤ (pos 1) m.command_index)) [
          | inl b ↦ absurd (follows (ground arith) g)
          | inr b ↦ rw (valid, e, f, g, b, apply_msg, check_logs) refl
        ]
        | inr (w, g) ↦ elim (Bool-cases (ltb_ℤ (pos 1) m.command_index)) [
          | inl b ↦ rw (valid, e, f, g, b, apply_msg, check_logs) refl
          | inr b ↦ rw (valid, e, f, g, b, apply_msg, check_logs) refl
        ]
      ]

  -- A server's applied command lets the test go on exactly if the server exists, no log holds another
  -- command at that index, and, past index 1, the server's own log holds the index before it: then the
  -- command is recorded in that server's log, and the largest index is kept.
  pub apply_msg_iff :
      (cfg : Harness C) (i : ℕ) (m : ApplyMsg C) (next : Harness C)
      → m.command_valid ≡ true
      → (apply_msg cfg i m ≡ returns next)
        ↔ ((o : IsInOrder cfg i m) × (next ≡ record_command cfg i o.log m))
  unfolding apply_msg check_logs
  apply_msg_iff cfg i m next valid = (
    λ h. elim (Option-cases (get_elem? cfg.logs i)) [
      | inl e ↦ absurd (cc (rw (valid, e, apply_msg, check_logs) at h))
      | inr (log, e) ↦
          let (f, follows, q) = apply_msg-returns cfg i m next log valid e h in
          (
            record {
              log = log;
              at = e;
              agrees = (find_mismatch-eq-none i m 0 cfg.logs none f).1;
              follows = follows;
            },
            q,
          )
    ],
    λ (o, q).
        apply_msg-records cfg i m o.log valid o.at (find_mismatch_agreed i m 0 cfg.logs o.agrees)
          o.follows
        ∙ ap returns (sym q),
  )

-- ===== src/Raft/Commits/Counting.antt =====
-- What `nCommitted` of lab2/raft/config.go finds after any run of the appliers.
use cs426_spring2022_labs.Common.{
  ℕ, zero, suc, ◌+◌, ◌<◌, ◌≤◌, ◌≡◌, ◌≢◌, refl, ap, sym, ◌∙◌, inl, inr, ite, Option, none, some,
  List, [], ◌∷◌, ℤ, pos, ◌-ℤ◌, returns, true, false, not, ◌&&◌, ltb, int_key, Key, All, In, arith,
  Option-cases, -ℤ_parts, ℕ_discrete,
}
use cs426_spring2022_labs.Common.GoMap.{GoMap, get}
use cs426_spring2022_labs.Raft.Commits.{
  ApplyMsg, Harness, make_harness, differs, apply_all, count_committed, n_committed,
}
use cs426_spring2022_labs.Raft.Commits.Agreement.{Agreed, Gapless, run-Agreed}

-- How many logs hold a command at the index.
abbrev pub holders : {C : Type 0} → List (GoMap ℤ C) → ℤ → ℕ
holders [] index = 0
holders (log ∷ logs) index = elim (get log index) [
  | none ↦ holders logs index
  | some _ ↦ suc (holders logs index)
]

-- Every log that holds a command at the index holds this one.
abbrev pub Committed : {C : Type 0} → List (GoMap ℤ C) → ℤ → Option C → Type 0
Committed {C} logs index cmd = All (λ log. (v : C) → get log index ≡ some v → cmd ≡ some v) logs

Committed-of_Agreed :
    {C : Type 0} (logs : List (GoMap ℤ C)) (index : ℤ) (c : C)
    → ((log : GoMap ℤ C) (v : C) → In log logs → get log index ≡ some v → c ≡ v)
    → Committed logs index (some c)
Committed-of_Agreed [] index c h = tt
Committed-of_Agreed (log ∷ logs) index c h = (
  (λ v g. ap some (h log v (inl refl) g)),
  Committed-of_Agreed logs index c (λ l v m g. h l v (inr m) g),
)

module _ {C : Type 0} ⦃k : Key C⦄ where
  not-differs : (c : C) → differs (some c) c ≡ false
  not-differs c = elim (k.same c c) as (λ d. not (ite d true false) ≡ false) [
    | yes p ↦ refl
    | no np ↦ absurd (np refl)
  ]

  guard-eq-false :
      (count : ℕ) (cmd : Option C) (c : C)
      → (0 < count → cmd ≡ some c)
      → (ltb 0 count && differs cmd c) ≡ false
  guard-eq-false zero cmd c h = refl
  guard-eq-false (suc count) cmd c h = rw (h (omega arith)) (ground (arith, not-differs c))

  count_committed-none :
      (log : GoMap ℤ C) (logs : List (GoMap ℤ C)) (index : ℤ) (count : ℕ) (cmd : Option C)
      → get log index ≡ none
      → (count_committed (log ∷ logs) index count cmd ≡ count_committed logs index count cmd)
        × (holders (log ∷ logs) index ≡ holders logs index)
  unfolding count_committed
  count_committed-none log logs index count cmd e =
      (rw (e, count_committed) refl, ground (arith, e))

  count_committed-some :
      (log : GoMap ℤ C) (logs : List (GoMap ℤ C)) (index : ℤ) (count : ℕ) (cmd : Option C) (c : C)
      → get log index ≡ some c
      → (0 < count → cmd ≡ some c)
      → (count_committed (log ∷ logs) index count cmd
          ≡ count_committed logs index (suc count) (some c))
        × (holders (log ∷ logs) index ≡ suc (holders logs index))
  unfolding count_committed
  count_committed-some log logs index count cmd c e h =
      (rw (e, guard-eq-false count cmd c h, count_committed) refl, ground (arith, e))

  count_committed_lem :
      (logs : List (GoMap ℤ C)) (index : ℤ) (count : ℕ) (cmd : Option C)
      → Agreed logs
      → (0 < count → Committed logs index cmd)
      → (final : Option C) × (count_committed logs index count cmd
          ≡ returns (count + holders logs index, final))
        × Committed logs index final
        × (0 < count → final ≡ cmd)
        × (holders logs index ≡ 0 → final ≡ cmd)
  unfolding count_committed Agreed
  count_committed_lem [] index count cmd a h = (cmd, ground arith, tt, (λ p. refl), (λ p. refl))
  count_committed_lem (log ∷ logs) index count cmd a h = elim (Option-cases (get log index)) [
    | inl e ↦
        let step = count_committed-none log logs index count cmd e in
        let (final, q, all, kept, unseen) =
          count_committed_lem logs index count cmd
            (λ idx l₁ l₂ v w m₁ m₂. a idx l₁ l₂ v w (inr m₁) (inr m₂)) (λ p. (h p).1) in
        (
          final,
          ground (arith, q, step),
          ((λ v g. absurd (cc (e, g))), all),
          kept,
          (λ z. unseen (sym step.1 ∙ z)),
        )
    | inr (c, e) ↦
        let step = count_committed-some log logs index count cmd c e (λ p. (h p).0 c e) in
        let (final, q, all, kept, unseen) =
          count_committed_lem logs index (suc count) (some c)
            (λ idx l₁ l₂ v w m₁ m₂. a idx l₁ l₂ v w (inr m₁) (inr m₂))
            (λ p.
              Committed-of_Agreed logs index c
                (λ l v m g. a index log l c v (inl refl) (inr m) e g)) in
        let now : final ≡ some c = kept (omega arith) in
        (
          final,
          ground (arith, q, step),
          ((λ v g. cc (now, e, g)), all),
          (λ p. now ∙ sym ((h p).0 c e)),
          (λ z. absurd (omega (arith, step.1, z))),
        )
  ]

  -- After any run of the servers' appliers on fresh logs that was not stopped, `nCommitted` does not stop
  -- the test: it returns the number of servers that hold a command at the index, with the one command
  -- that all of them hold, and no command if there is none.
  pub n_committed_lem :
      (n : ℕ) (messages : List (ℕ × ApplyMsg C)) (cfg : Harness C) (index : ℤ)
      → apply_all (make_harness n) messages ≡ returns cfg
      → (cmd : Option C) × (n_committed cfg index ≡ returns (holders cfg.logs index, cmd))
        × Committed cfg.logs index cmd
        × (holders cfg.logs index ≡ 0 → cmd ≡ none)
  unfolding n_committed
  n_committed_lem n messages cfg index h =
      let (cmd, q, all, kept, unseen) =
        count_committed_lem cfg.logs index 0 none (run-Agreed n messages cfg h).0
          (λ p. absurd (omega (arith, p))) in
      (cmd, ground (arith, q), all, unseen)

  -- After any run of the servers' appliers on fresh logs that was not stopped, a server whose log holds
  -- an index holds all indices from 1 up to it.
  pub applied_prefix :
      (n : ℕ) (messages : List (ℕ × ApplyMsg C)) (cfg : Harness C) (log : GoMap ℤ C) (i j : ℕ)
      → apply_all (make_harness n) messages ≡ returns cfg
      → In log cfg.logs
      → 1 ≤ j
      → j ≤ i
      → get log (pos i) ≢ none
      → get log (pos j) ≢ none
  unfolding Gapless
  applied_prefix n messages cfg log zero j h there low le g = absurd (omega (arith, low, le))
  applied_prefix n messages cfg log (suc i) j h there low le g = elim (ℕ_discrete j (suc i)) [
    | yes e ↦ rw e g
    | no ne ↦
        let before : get log (pos (suc i) -ℤ pos 1) ≢ none =
          (run-Agreed n messages cfg h).1 (pos (suc i)) log there (omega (arith, low, le, ne)) g in
        applied_prefix n messages cfg log i j h there low (omega (arith, le, ne))
          (rw (pred i) at before)
  ]
    where
      pred : (m : ℕ) → pos (suc m) -ℤ pos 1 ≡ pos m
      pred m = ground (arith, -ℤ_parts (pos (suc m)) (pos 1))

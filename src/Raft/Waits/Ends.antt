-- ===== src/Raft/Waits/Ends.antt =====
-- How `wait` of lab2/raft/config.go ends.
use cs426_spring2022_labs.Common.{
  ℕ, zero, suc, ◌≤◌, ◌<◌, ◌≡◌, ◌↔◌, refl, sym, ◌∙◌, subst, inl, inr, true, ◌&&◌, Option, List, [],
  ◌∷◌, In, ℤ, pos, negsuc, ◌≤ℤ◌, Outcome, returns, exits, if◌then◌else◌, ltb, leb, ltb_ℤ, Key,
  Bool-cases, arith,
}
use cs426_spring2022_labs.Raft.Commits.{ApplyMsg, make_harness, apply_all}
use cs426_spring2022_labs.Raft.Commits.Counting.{holders, Committed, n_committed_lem}
use cs426_spring2022_labs.Raft.Waits.{
  Look, Waited, moved_on, agreed, any_later, give_up_or, wait_from, wait,
}

-- The start term is not negative, and some server is in a term after it.
abbrev pub Later : (start_term : ℤ) → List ℤ → Type 0
Later start_term terms = (pos 0 ≤ℤ start_term) × (t : ℤ) × In t terms × (¬ (t ≤ℤ start_term))

any_later_iff :
    (start_term : ℤ) (terms : List ℤ)
    → (any_later start_term terms ≡ true) ↔ ((t : ℤ) × In t terms × (¬ (t ≤ℤ start_term)))
any_later_iff start_term [] = ((λ h. absurd (cc h)), λ h. absurd h.1.0)
any_later_iff start_term (t ∷ terms) =
    let rest = any_later_iff start_term terms in
    elim (Bool-cases (ltb_ℤ start_term t)) [
      | inl on ↦ ((λ h. (t, inl refl, λ le. ground (arith, on, le))), λ h. rw on refl)
      | inr off ↦ (
        (λ h. let (x, i, after) = rest.0 (rw off at h) in (x, inr i, after)),
        λ h. rw off (
            rest.1 (
              h.0,
              elim h.1 [ inl e ↦ absurd (h.2 (rw e (ground (arith, off)))) | inr i ↦ i ],
              h.2,
            )),
      )
    ]

Later-iff :
    (start_term : ℤ) (terms : List ℤ)
    → ((ltb_ℤ (negsuc 0) start_term && any_later start_term terms) ≡ true) ↔ Later start_term terms
Later-iff start_term terms =
    let r = any_later_iff start_term terms in
    elim (Bool-cases (ltb_ℤ (negsuc 0) start_term)) [
      | inl on ↦ (
        (λ h. let (t, i, after) = r.0 (rw on at h) in (ground (arith, on), t, i, after)),
        λ h. rw on (r.1 (h.1, h.2, h.3)),
      )
      | inr off ↦ ((λ h. absurd (cc (rw off at h))), λ h. absurd (ground (arith, off, h.0)))
    ]

module _ {C : Type 0} ⦃k : Key C⦄ where
  -- At this look there are too few servers, and none has moved on.
  abbrev pub GoesOn : (looks : ℕ → Look C) (index : ℤ) (n : ℕ) (start_term : ℤ) → ℕ → Type 0
  GoesOn looks index n start_term j =
      (holders (looks j).harness.logs index < n) × (¬ Later start_term (looks j).terms)

  -- The loop is left, with `final` the look after it: at the look before it there were `n` servers, or no
  -- look ended the loop.
  pub data Leaves (iters : ℕ) (looks : ℕ → Look C) (index : ℤ) (n : ℕ) (start_term : ℤ)
      : (final : ℕ) → Type 0 where
    enough :
        (j : ℕ)
        → j < iters
        → ((i : ℕ) → i < j → GoesOn looks index n start_term i)
        → n ≤ holders (looks j).harness.logs index
        → Leaves iters looks index n start_term (suc j)
    times_out :
        ((i : ℕ) → i < iters → GoesOn looks index n start_term i)
        → Leaves iters looks index n start_term iters

  -- The three ways to end. The look after the loop may find fewer servers than the one that ended it.
  pub data WaitEnds (iters : ℕ) (looks : ℕ → Look C) (index : ℤ) (n : ℕ) (start_term : ℤ)
      : Outcome (Waited C) → Type 0 where
    too_few :
        (final : ℕ)
        → Leaves iters looks index n start_term final
        → holders (looks final).harness.logs index < n
        → WaitEnds iters looks index n start_term exits
    moves_on :
        (j : ℕ)
        → j < iters
        → ((i : ℕ) → i < j → GoesOn looks index n start_term i)
        → holders (looks j).harness.logs index < n
        → Later start_term (looks j).terms
        → WaitEnds iters looks index n start_term (returns moved_on)
    agrees :
        (final : ℕ)
        → Leaves iters looks index n start_term final
        → n ≤ holders (looks final).harness.logs index
        → (cmd : Option C) → Committed (looks final).harness.logs index cmd
        → WaitEnds iters looks index n start_term (returns (agreed cmd))

  -- The looks are at runs of the appliers.
  abbrev pub SeesRuns : ℕ → (ℕ → Look C) → Type 0
  SeesRuns servers looks =
      (j : ℕ)
      → (messages : List (ℕ × ApplyMsg C)) × (apply_all (make_harness servers) messages
          ≡ returns (looks j).harness)

  module _ (index : ℤ) (n : ℕ) (start_term : ℤ) where
    one_before :
        (looks : ℕ → Look C) (j : ℕ)
        → GoesOn looks index n start_term 0
        → ((i : ℕ) → i < j → GoesOn (λ i. looks (suc i)) index n start_term i)
        → (i : ℕ) → i < suc j
        → GoesOn looks index n start_term i
    one_before looks j first rest zero lt = first
    one_before looks j first rest (suc i) lt = rest i (omega (arith, lt))

    Leaves-later :
        (iters : ℕ) (looks : ℕ → Look C) (final : ℕ)
        → GoesOn looks index n start_term 0
        → Leaves iters (λ j. looks (suc j)) index n start_term final
        → Leaves (suc iters) looks index n start_term (suc final)
    Leaves-later iters looks final first (enough j lt rest many) =
        enough (suc j) (omega (arith, lt)) (one_before looks j first rest) many
    Leaves-later iters looks final first (times_out rest) =
        times_out (one_before looks iters first rest)

    one_later :
        (iters : ℕ) (looks : ℕ → Look C) (o : Outcome (Waited C))
        → GoesOn looks index n start_term 0
        → WaitEnds iters (λ j. looks (suc j)) index n start_term o
        → WaitEnds (suc iters) looks index n start_term o
    one_later iters looks o first (too_few final leaves few) =
        too_few (suc final) (Leaves-later iters looks final first leaves) few
    one_later iters looks o first (moves_on j lt rest few later) =
        moves_on (suc j) (omega (arith, lt)) (one_before looks j first rest) few later
    one_later iters looks o first (agrees final leaves many cmd c) =
        agrees (suc final) (Leaves-later iters looks final first leaves) many cmd c

    give_up_or-WaitEnds :
        (servers iters : ℕ) (looks : ℕ → Look C) (final : ℕ)
        → SeesRuns servers looks
        → Leaves iters looks index n start_term final
        → WaitEnds iters looks index n start_term (give_up_or index n (looks final).harness)
    unfolding give_up_or
    give_up_or-WaitEnds servers iters looks final runs leaves =
        let (messages, ran) = runs final in
        let (cmd, q, committed, _) =
          n_committed_lem servers messages (looks final).harness index ran in
        let found = holders (looks final).harness.logs index in
        let end : give_up_or index n (looks final).harness
            ≡ (if ltb found n then exits else returns (agreed cmd)) =
          rw (q, give_up_or) refl in
        elim (Bool-cases (ltb found n)) [
          | inl few ↦
              subst (WaitEnds iters looks index n start_term) (sym (end ∙ rw few refl))
                (too_few final leaves (ground (arith, few)))
          | inr many ↦
              subst (WaitEnds iters looks index n start_term) (sym (end ∙ rw many refl))
                (agrees final leaves (ground (arith, many)) cmd committed)
        ]

    nothing_before : (looks : ℕ → Look C) (i : ℕ) → i < 0 → GoesOn looks index n start_term i
    nothing_before looks i lt = absurd (omega (arith, lt))

    wait_from-WaitEnds :
        (servers iters : ℕ) (looks : ℕ → Look C)
        → SeesRuns servers looks
        → WaitEnds iters looks index n start_term (wait_from iters looks index n start_term)
    unfolding wait_from
    wait_from-WaitEnds servers zero looks runs =
        give_up_or-WaitEnds servers 0 looks 0 runs (times_out (nothing_before looks))
    wait_from-WaitEnds servers (suc iters) looks runs =
        let rest = wait_from iters (λ j. looks (suc j)) index n start_term in
        let (messages, ran) = runs 0 in
        let (cmd, q, _, _) = n_committed_lem servers messages (looks 0).harness index ran in
        let found = holders (looks 0).harness.logs index in
        let later = ltb_ℤ (negsuc 0) start_term && any_later start_term (looks 0).terms in
        let is_later = Later-iff start_term (looks 0).terms in
        let end : wait_from (suc iters) looks index n start_term ≡ (
            if leb n found
            then give_up_or index n (looks 1).harness
            else if later
            then returns moved_on
            else rest) =
          rw (q, wait_from) refl in
        elim (Bool-cases (leb n found)) [
          | inl many ↦
              subst (WaitEnds (suc iters) looks index n start_term) (sym (end ∙ rw many refl)) (
                give_up_or-WaitEnds servers (suc iters) looks 1 runs
                  (enough 0 (omega arith) (nothing_before looks) (ground (arith, many))))
          | inr few ↦ elim (Bool-cases later) [
            | inl yes_ ↦
                subst (WaitEnds (suc iters) looks index n start_term)
                  (sym (end ∙ rw (few, yes_) refl))
                  (moves_on 0 (omega arith) (nothing_before looks) (ground (arith, few))
                    (is_later.0 yes_))
            | inr no_ ↦
                subst (WaitEnds (suc iters) looks index n start_term)
                  (sym (end ∙ rw (few, no_) refl))
                  (one_later iters looks rest
                    (ground (arith, few), λ l. absurd (cc (no_, is_later.1 l)))
                    (wait_from-WaitEnds servers iters (λ j. looks (suc j)) (λ j. runs (suc j))))
          ]
        ]

  -- If each look is at a run of the servers' appliers on fresh logs, `wait` ends in one of three ways. It
  -- returns -1 at the first of its 30 looks at which too few servers hold a command at the index and some
  -- server has moved on to a term after the start term, which is not negative; at each look before, too
  -- few do and none has moved on. Or it leaves the loop at the first look at which enough servers
  -- hold one, or after 30 looks without such an end, and looks once more: with enough servers it returns
  -- the command that they hold, and otherwise it ends the test.
  pub wait-WaitEnds :
      (servers : ℕ) (looks : ℕ → Look C) (index : ℤ) (n : ℕ) (start_term : ℤ)
      → SeesRuns servers looks
      → WaitEnds 30 looks index n start_term (wait looks index n start_term)
  unfolding wait
  wait-WaitEnds servers looks index n start_term runs =
      wait_from-WaitEnds index n start_term servers 30 looks runs

-- ===== src/Raft/OneLeader/Looks.antt =====
-- The turns of the loop of `checkOneLeader` of lab2/raft/config.go.
use cs426_spring2022_labs.Common.{
  ℕ, zero, suc, ◌<◌, ◌≡◌, ◌↔◌, refl, sym, ap, ◌∙◌, inl, inr, some, List, Outcome, returns,
  >>=-eq-returns, Option-cases, int_key, arith,
}
use cs426_spring2022_labs.Raft.Leaders.{Peer}
use cs426_spring2022_labs.Raft.OneLeader.{look_once, or_else, look_again, check_one_leader}
use cs426_spring2022_labs.Raft.OneLeader.Alone.{LeadsAlone, look_once-LeadsAlone}
use cs426_spring2022_labs.Raft.OneLeader.Returns.{
  NonNegative, NoLeader, LeadsAlone-look_once, look_once-none, NoLeader-look_once,
}

-- Among the first `n` looks, the first one with an attached leader has the server as its only leader of
-- the largest term, and no term with two leaders.
pub record Found (n : ℕ) (looks : ℕ → List Peer) (i : ℕ) : Type 0 where
  pub look : ℕ
  pub in_time : look < n
  pub before : (k : ℕ) → k < look → NoLeader (looks k)
  pub found : LeadsAlone (looks look) i

look_again-Found :
    (n : ℕ) (looks : ℕ → List Peer) (i : ℕ) → look_again n looks ≡ returns i → Found n looks i
unfolding look_again
look_again-Found zero looks i h = absurd (cc h)
look_again-Found (suc n) looks i h =
    let rest = look_again n (λ k. looks (suc k)) in
    let (o, q, r) = >>=-eq-returns (look_once (looks 0)) (λ o. or_else o rest) i h in
    elim (Option-cases o) [
      | inr (j, e) ↦ record {
        look = 0;
        in_time = omega arith;
        before = λ k lt. absurd (omega (arith, lt));
        found = look_once-LeadsAlone (looks 0) i (
            q
            ∙ ap returns
                (e ∙ ap some (some_first j i rest (ap (λ o. or_else o rest) (sym e) ∙ r))));
      }
      | inl e ↦
          let f =
            look_again-Found n (λ k. looks (suc k)) i (ap (λ o. or_else o rest) (sym e) ∙ r) in
          record {
            look = suc f.look;
            in_time = omega (arith, f.in_time);
            before = λ k lt.
                earlier looks (look_once-none (looks 0) (q ∙ ap returns e)) f.look f.before k lt;
            found = f.found;
          }
    ]
  where
    some_first : (j i : ℕ) (rest : Outcome ℕ) → or_else (some j) rest ≡ returns i → j ≡ i
    some_first j i rest e = cc e

    earlier :
        (looks : ℕ → List Peer)
        → NoLeader (looks 0)
        → (m : ℕ) → ((k : ℕ) → k < m → NoLeader (looks (suc k)))
        → (k : ℕ) → k < suc m
        → NoLeader (looks k)
    earlier looks h m g zero lt = h
    earlier looks h m g (suc k) lt = g k (omega (arith, lt))

Found-look_again :
    (n k : ℕ) (looks : ℕ → List Peer) (i : ℕ)
    → ((j : ℕ) → NonNegative (looks j))
    → k < n
    → ((j : ℕ) → j < k → NoLeader (looks j))
    → LeadsAlone (looks k) i
    → look_again n looks ≡ returns i
unfolding look_again
Found-look_again zero k looks i nn lt before found = absurd (omega (arith, lt))
Found-look_again (suc n) zero looks i nn lt before found =
    rw (LeadsAlone-look_once (looks 0) i (nn 0) found) refl
Found-look_again (suc n) (suc k) looks i nn lt before found =
    rw (NoLeader-look_once (looks 0) (before 0 (omega arith))) (
      Found-look_again n k (λ j. looks (suc j)) i (λ j. nn (suc j)) (omega (arith, lt))
        (λ j lt. before (suc j) (omega (arith, lt))) found)

-- With terms that are not negative, `checkOneLeader` returns a server exactly if, at the first of its ten
-- looks at which any attached server claims to lead, no term has two leaders and the server is the leader
-- of the largest term that has one.
pub check_one_leader_iff :
    (looks : ℕ → List Peer) (i : ℕ)
    → ((k : ℕ) → NonNegative (looks k))
    → (check_one_leader looks ≡ returns i) ↔ Found 10 looks i
unfolding check_one_leader
check_one_leader_iff looks i nn = (
  look_again-Found 10 looks i,
  λ f. Found-look_again 10 f.look looks i nn f.in_time f.before f.found,
)

-- ===== src/Raft/OneLeader.antt =====
-- lab2/raft/config.go: `checkOneLeader`. What `GetState` of the servers returns at each look is an
-- argument, and so are the looks, one for each turn of its loop.
pub mod Collected
pub mod Alone
pub mod Returns
pub mod Looks
mod Tests
use cs426_spring2022_labs.Common.{
  ℕ, zero, suc, Bool, true, false, ◌&&◌, Option, none, some, List, [], ◌∷◌, ◌++◌, ℤ, negsuc,
  Outcome, returns, panics, exits, ◌>>=◌, if◌then◌else◌, ltb, ltb_ℤ, length, int_key,
}
use cs426_spring2022_labs.Common.GoMap.{GoMap, get_or, insert}
use cs426_spring2022_labs.Raft.Leaders.{Peer}

abbrev pub is_leader : Peer → Bool
is_leader p = p.connected && p.leader

-- The loop over the servers from number `i` on, which fills the map from terms to leaders.
unfoldable pub collect_leaders : (i : ℕ) → List Peer → GoMap ℤ (List ℕ) → GoMap ℤ (List ℕ)
collect_leaders i [] leaders = leaders
collect_leaders i (p ∷ ps) leaders =
    collect_leaders (suc i) ps
      (if is_leader p then insert leaders p.term (get_or leaders p.term [] ++ i ∷ []) else leaders)

-- The loop over the map; `t.Fatalf` ends the test.
unfoldable pub last_term : GoMap ℤ (List ℕ) → (last_term_with_leader : ℤ) → Outcome ℤ
last_term [] last_term_with_leader = returns last_term_with_leader
last_term ((term, leaders) ∷ rest) last_term_with_leader =
    if ltb 1 (length leaders)
    then exits
    else last_term rest (if ltb_ℤ last_term_with_leader term then term else last_term_with_leader)

abbrev pub first_of : List ℕ → Outcome ℕ
first_of [] = panics
first_of (i ∷ leaders) = returns i

abbrev pub answer : GoMap ℤ (List ℕ) → ℤ → Outcome (Option ℕ)
answer [] term = returns none
answer (entry ∷ rest) term = first_of (get_or (entry ∷ rest) term []) >>= λ i. returns (some i)

-- One turn; `none` goes on to the next one.
unfoldable pub look_once : List Peer → Outcome (Option ℕ)
unfolding collect_leaders last_term
look_once ps =
    let leaders = collect_leaders 0 ps [] in last_term leaders (negsuc 0) >>= answer leaders

abbrev pub or_else : Option ℕ → Outcome ℕ → Outcome ℕ
or_else none rest = rest
or_else (some i) rest = returns i

-- The loop, with `n` turns to go.
unfoldable pub look_again : (n : ℕ) → (looks : ℕ → List Peer) → Outcome ℕ
unfolding look_once
look_again zero looks = exits
look_again (suc n) looks =
    let rest = look_again n (λ k. looks (suc k)) in look_once (looks 0) >>= λ o. or_else o rest

unfoldable pub check_one_leader : (looks : ℕ → List Peer) → Outcome ℕ
unfolding look_again
check_one_leader looks = look_again 10 looks

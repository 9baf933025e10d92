-- ===== src/Raft/Disks/Machine.antt =====
-- One disk for each server: the abstract machine that the persisters of lab2/raft/config.go stand for.
use cs426_spring2022_labs.Common.{
  ℕ, suc, ◌<◌, Option, none, some, List, [], ◌∷◌, if◌then◌else◌, Heap, write,
}
use cs426_spring2022_labs.Rpc.Network.{option_same}
use cs426_spring2022_labs.Raft.Persister.{Persister}
use cs426_spring2022_labs.Raft.Disks.{Action, crashes, starts, saves}

-- The abstract machine: a disk for each server, and its instance that lives. A crash touches no disk,
-- and only the instance that lives writes to one.
pub record Spec : Type 0 where
  pub disk : Heap Persister
  pub live : Heap (Option ℕ)
  pub next : ℕ

-- Only instances that were made save; `n` of them were made before.
abbrev pub Made : {E : Type 0} → ℕ → List (Action E) → Type 0
Made n [] = Unit {0}
Made n (crashes i ∷ actions) = Made n actions
Made n (starts i names ∷ actions) = Made (suc n) actions
Made n (saves r save ∷ actions) = (r < n) × Made n actions

-- Before the first start.
abbrev pub no_servers : Spec
no_servers = record {
  disk = λ _. record { raft_state = []; snapshot = [] };
  live = λ _. none;
  next = 0;
}

module _ {E : Type 0} where
  abbrev pub spec_act : Spec → Action E → Spec
  spec_act s (crashes i) = record s { live = write s.live i none }
  spec_act s (starts i names) = record s { live = write s.live i (some s.next); next = suc s.next }
  spec_act s (saves r save) = record s {
    disk = λ i. if option_same (s.live i) (some r) then save (s.disk i) else s.disk i;
  }

  abbrev pub spec_act_all : Spec → List (Action E) → Spec
  spec_act_all s [] = s
  spec_act_all s (action ∷ actions) = spec_act_all (spec_act s action) actions

-- ===== src/Raft/Disks.antt =====
-- lab2/raft: the persisters and the instances of the servers, which `crash1` and `start1` of config.go
-- replace, and what raft.go does with an instance. Persisters and instances are objects with an address,
-- since an instance that was killed goes on and keeps its persister.
pub mod Renewed
pub mod Crashes
pub mod Machine
pub mod Refines
use cs426_spring2022_labs.Common.{
  ℕ, zero, suc, Bool, true, false, Option, none, some, List, [], ◌∷◌, Heap, write,
}
use cs426_spring2022_labs.Raft.Persister.{
  Persister, make_persister, copy, read_raft_state, read_snapshot, save_state_and_snapshot,
}

-- The names of the ends are the peers.
pub record Raft (E : Type 0) : Type 0 where
  pub peers : ℕ → E
  pub persister : ℕ
  pub me : ℕ
  pub dead : Bool

-- The fields `saved` and `rafts` of `config`, `none` for nil, and the objects.
pub record Disks (E : Type 0) : Type 0 where
  pub saved : Heap (Option ℕ)
  pub rafts : Heap (Option ℕ)
  pub persisters : Heap Persister
  pub next_persister : ℕ
  pub instances : Heap (Raft E)
  pub next_instance : ℕ

-- What becomes of the servers; an instance saves by a function on its persister.
pub data Action (E : Type 0) : Type 0 where
  crashes : ℕ → Action E
  starts : ℕ → (ℕ → E) → Action E
  saves : (raft : ℕ) → (Persister → Persister) → Action E

module _ {E : Type 0} where
  abbrev pub kill : Raft E → Raft E
  kill rf = record rf { dead = true }

  abbrev pub killed : Raft E → Bool
  killed rf = rf.dead

  -- `Make`, as far as it goes: `read_persist` has nothing to read into.
  abbrev pub make : (peers : ℕ → E) → (me persister : ℕ) → Raft E
  make peers me persister = record { peers = peers; persister = persister; me = me; dead = false }

  -- A server gets a new persister.
  abbrev pub set_saved : Disks E → ℕ → Persister → Disks E
  set_saved d i ps = record d {
    saved = write d.saved i (some d.next_persister);
    persisters = write d.persisters d.next_persister ps;
    next_persister = suc d.next_persister;
  }

  -- `crash1`: the server's persister is copied, if it has one.
  unfoldable pub copy_saved : Disks E → ℕ → Disks E
  unfolding copy
  copy_saved d i = elim (d.saved i) [ none ↦ d | some a ↦ set_saved d i (copy (d.persisters a)) ]

  -- Its instance is killed and forgotten.
  unfoldable pub kill_raft : Disks E → ℕ → Disks E
  kill_raft d i = elim (d.rafts i) [
    | none ↦ d
    | some r ↦ record d {
      instances = write d.instances r (kill (d.instances r));
      rafts = write d.rafts i none;
    }
  ]

  -- What the persister holds is saved in a fresh one.
  unfoldable pub fresh_saved : Disks E → ℕ → Disks E
  unfolding save_state_and_snapshot make_persister read_raft_state read_snapshot
  fresh_saved d i = elim (d.saved i) [
    | none ↦ d
    | some a ↦
        let raftlog = read_raft_state (d.persisters a) in
        let snapshot = read_snapshot (d.persisters a) in
        set_saved d i (save_state_and_snapshot make_persister raftlog snapshot)
  ]

  unfoldable pub crash : Disks E → ℕ → Disks E
  unfolding copy_saved kill_raft fresh_saved
  crash d i = fresh_saved (kill_raft (copy_saved d i) i) i

  -- `start1` after the crash: the persister is copied or made.
  unfoldable pub copy_or_make : Disks E → ℕ → Disks E × ℕ
  unfolding copy make_persister
  copy_or_make d i = elim (d.saved i) [
    | none ↦ (set_saved d i make_persister, d.next_persister)
    | some a ↦ (set_saved d i (copy (d.persisters a)), d.next_persister)
  ]

  unfoldable pub start : Disks E → ℕ → (names : ℕ → E) → Disks E
  unfolding copy_or_make
  start d i names =
      let (d', persister) = copy_or_make d i in
      record d' {
        instances = write d'.instances d'.next_instance (make names i persister);
        next_instance = suc d'.next_instance;
        rafts = write d'.rafts i (some d'.next_instance);
      }

  unfoldable pub act : Disks E → Action E → Disks E
  unfolding crash start
  act d (crashes i) = crash d i
  act d (starts i names) = start (crash d i) i names
  act d (saves r save) =
      let a = (d.instances r).persister in
      record d { persisters = write d.persisters a (save (d.persisters a)) }

  unfoldable pub act_all : Disks E → List (Action E) → Disks E
  unfolding act
  act_all d [] = d
  act_all d (action ∷ actions) = act_all (act d action) actions

  -- Before any server was started; the heaps hold nothing that is pointed to.
  abbrev pub no_disks : Raft E → Disks E
  no_disks rf = record {
    saved = λ _. none;
    rafts = λ _. none;
    persisters = λ _. record { raft_state = []; snapshot = [] };
    next_persister = 0;
    instances = λ _. rf;
    next_instance = 0;
  }

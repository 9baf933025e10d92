-- ===== src/Raft/Disks/Refines.antt =====
-- The persisters of lab2/raft/config.go behave as one disk for each server.
use cs426_spring2022_labs.Common.{
  ℕ, suc, ◌<◌, ◌≡◌, refl, sym, ap, ◌∙◌, ◌⊎◌, ◌⊎◌, inl, inr, if_pos, if_neg, true, false, Option,
  none, some, List, [], ◌∷◌, Heap, write, write_self, write_ne, ℕ_discrete, arith,
}
use cs426_spring2022_labs.Rpc.Network.{option_same}
use cs426_spring2022_labs.Raft.Persister.{Persister}
use cs426_spring2022_labs.Raft.Disks.{
  Raft, Disks, crash, start, Action, crashes, starts, saves, act, act_all, no_disks,
}
use cs426_spring2022_labs.Raft.Disks.Machine.{Spec, no_servers, spec_act, spec_act_all, Made}
use cs426_spring2022_labs.Raft.Disks.Crashes.{crash-Crashed, start-Started}
use cs426_spring2022_labs.Raft.Disks.Renewed.{some_eq, held, content, Owned}

option_same-true : (o : Option ℕ) (r : ℕ) → o ≡ some r → option_same o (some r) ≡ true
option_same-true none r e = absurd (cc e)
option_same-true (some q) r e = if_pos (ℕ_discrete q r) (some_eq e) _ _

option_same-false : (o : Option ℕ) (r : ℕ) → ¬ (o ≡ some r) → option_same o (some r) ≡ false
option_same-false none r ne = refl
option_same-false (some q) r ne = if_neg (ℕ_discrete q r) (λ e. ne (ap some e)) _ _

held_other :
    (o : Option ℕ) (persisters : Heap Persister) (a : ℕ) (ps : Persister)
    → ¬ (o ≡ some a)
    → held o (write persisters a ps) ≡ held o persisters
held_other none persisters a ps ne = refl
held_other (some b) persisters a ps ne = write_ne persisters a ps b (λ e. ne (ap some e))

module _ {E : Type 0} where
  -- The instance that lives has the saved persister.
  Current : Disks E → Type 0
  Current d =
      (i r : ℕ)
      → d.rafts i ≡ some r
      → (r < d.next_instance) × (d.saved i ≡ some (d.instances r).persister)

  record Refines (d : Disks E) (s : Spec) : Type 0 where
    owned : Owned d
    current : Current d
    live : (j : ℕ) → d.rafts j ≡ s.live j
    next : d.next_instance ≡ s.next
    disk : (j : ℕ) → content d j ≡ s.disk j

  crash-Refines :
      (d : Disks E) (s : Spec) (i : ℕ)
      → Refines d s
      → Refines (crash d i) (spec_act {E = E} s (crashes i))
  unfolding Current
  crash-Refines d s i f =
      let c = crash-Crashed d i f.owned in
      record {
        owned = c.owned;
        current = λ j r e. elim (ℕ_discrete j i) [
          | yes here ↦ absurd (cc (sym e ∙ ap (crash d i).rafts here ∙ c.gone))
          | no ne ↦
              let (lt, q) = f.current j r (sym (c.rafts j ne) ∙ e) in
              (omega (arith, lt, c.next), c.saved j ne ∙ q ∙ ap some (sym (c.persister r)))
        ];
        live = λ j. elim (ℕ_discrete j i) [
          | yes here ↦
              ap (crash d i).rafts here
              ∙ c.gone
              ∙ sym (ap (write s.live i none) here ∙ write_self s.live i none)
          | no ne ↦ c.rafts j ne ∙ f.live j ∙ sym (write_ne s.live i none j ne)
        ];
        next = c.next ∙ f.next;
        disk = λ j. c.same j ∙ f.disk j;
      }

  start-Refines :
      (d : Disks E) (s : Spec) (i : ℕ) (names : ℕ → E)
      → Refines d s
      → Refines (start d i names) (spec_act s (starts i names))
  unfolding Current
  start-Refines d s i names f =
      let t = start-Started d i names f.owned in
      record {
        owned = t.owned;
        current = λ j r e. elim (ℕ_discrete j i) [
          | yes here ↦
              let last : d.next_instance ≡ r =
                some_eq (sym t.runs ∙ ap (start d i names).rafts (sym here) ∙ e) in
              (
                omega (arith, last, t.next),
                ap (start d i names).saved here
                    ∙ t.saved_it
                    ∙ ap some (
                        sym (ap (λ (rf : Raft E). rf.persister) t.is)
                        ∙ ap (λ q. ((start d i names).instances q).persister) last),
              )
          | no ne ↦
              let (lt, q) = f.current j r (sym (t.rafts j ne) ∙ e) in
              (
                omega (arith, lt, t.next),
                t.saved j ne ∙ q ∙ ap (λ (rf : Raft E). some rf.persister) (sym (t.others r lt)),
              )
        ];
        live = λ j. elim (ℕ_discrete j i) [
          | yes here ↦
              ap (start d i names).rafts here
              ∙ t.runs
              ∙ ap some f.next
              ∙ sym (ap (write s.live i (some s.next)) here ∙ write_self s.live i (some s.next))
          | no ne ↦ t.rafts j ne ∙ f.live j ∙ sym (write_ne s.live i (some s.next) j ne)
        ];
        next = t.next ∙ ap suc f.next;
        disk = λ j. t.same j ∙ f.disk j;
      }

  restart-Refines :
      (d : Disks E) (s : Spec) (i : ℕ) (names : ℕ → E)
      → Refines d s
      → Refines (start (crash d i) i names) (spec_act s (starts i names))
  restart-Refines d s i names f =
      let g =
        start-Refines (crash d i) (spec_act {E = E} s (crashes i)) i names
          (crash-Refines d s i f) in
      record {
        owned = g.owned;
        current = g.current;
        live = λ j. g.live j ∙ elim (ℕ_discrete j i) [
          | yes here ↦
              ap (write (write s.live i none) i (some s.next)) here
              ∙ write_self (write s.live i none) i (some s.next)
              ∙ sym (ap (write s.live i (some s.next)) here ∙ write_self s.live i (some s.next))
          | no ne ↦
              write_ne (write s.live i none) i (some s.next) j ne
              ∙ write_ne s.live i none j ne
              ∙ sym (write_ne s.live i (some s.next) j ne)
        ];
        next = g.next;
        disk = g.disk;
      }

  save-Refines :
      (d : Disks E) (s : Spec) (r : ℕ) (save : Persister → Persister)
      → r < s.next
      → Refines d s
      → Refines (act d (saves r save)) (spec_act {E = E} s (saves r save))
  unfolding act Current
  save-Refines d s r save lt f =
      let a = (d.instances r).persister in
      let made : r < d.next_instance = omega (arith, lt, f.next) in
      record {
        owned = record {
          below = f.owned.below;
          held_below = f.owned.held_below;
          apart = f.owned.apart;
          owner = f.owned.owner;
        };
        current = f.current;
        live = f.live;
        next = f.next;
        disk = λ j. elim (is_some_same (d.rafts j) r) [
          | inl lives ↦
              let here : d.saved j ≡ some a = (f.current j r lives).1 in
              ap (λ o. held o (write d.persisters a (save (d.persisters a)))) here
              ∙ write_self d.persisters a (save (d.persisters a))
              ∙ ap (λ o. save (held o d.persisters)) (sym here)
              ∙ ap save (f.disk j)
              ∙ rw (option_same-true (s.live j) r (sym (f.live j) ∙ lives)) refl
          | inr ne ↦
              held_other (d.saved j) d.persisters a _ (λ e. ne (f.owned.owner j a r e made refl))
              ∙ f.disk j
              ∙ rw (option_same-false (s.live j) r (λ e. ne (f.live j ∙ e))) refl
        ];
      }
    where
      is_some_same : (o : Option ℕ) (r : ℕ) → (o ≡ some r) ⊎ (¬ (o ≡ some r))
      is_some_same none r = inr (λ e. absurd (cc e))
      is_some_same (some q) r = elim (ℕ_discrete q r) [
        | yes e ↦ inl (ap some e)
        | no ne ↦ inr (λ e. ne (some_eq e))
      ]

  act_all-Refines :
      (d : Disks E) (s : Spec) (actions : List (Action E))
      → Made s.next actions
      → Refines d s
      → Refines (act_all d actions) (spec_act_all s actions)
  unfolding act_all act
  act_all-Refines d s [] m f = f
  act_all-Refines d s (crashes i ∷ actions) m f =
      act_all-Refines (crash d i) _ actions m (crash-Refines d s i f)
  act_all-Refines d s (starts i names ∷ actions) m f =
      act_all-Refines (start (crash d i) i names) _ actions m (restart-Refines d s i names f)
  act_all-Refines d s (saves r save ∷ actions) m f =
      act_all-Refines (act d (saves r save)) _ actions m.1 (save-Refines d s r save m.0 f)

  no_disks-Refines : (rf : Raft E) → Refines (no_disks rf) no_servers
  unfolding Current
  no_disks-Refines rf = record {
    owned = record {
      below = λ i a e. absurd (cc e);
      held_below = λ r lt. absurd (omega (arith, lt));
      apart = λ i j a e e'. absurd (cc e);
      owner = λ i a r e lt p. absurd (cc e);
    };
    current = λ i r e. absurd (cc e);
    live = λ j. refl;
    next = refl;
    disk = λ j. refl;
  }

  -- However servers crash and start, and whichever instances save, also those that were killed: what is
  -- read for a server is what the abstract machine has on the server's disk, which no crash and no start
  -- changes, and which only the instance that lives writes; and the instances that live are the same.
  pub act_all_lem :
      (rf : Raft E) (actions : List (Action E))
      → Made 0 actions
      → (i : ℕ)
      → (content (act_all (no_disks rf) actions) i ≡ (spec_act_all no_servers actions).disk i)
        × ((act_all (no_disks rf) actions).rafts i ≡ (spec_act_all no_servers actions).live i)
  act_all_lem rf actions m i =
      let f = act_all-Refines (no_disks rf) no_servers actions m (no_disks-Refines rf) in
      (f.disk i, f.live i)

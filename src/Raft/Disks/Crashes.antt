-- ===== src/Raft/Disks/Crashes.antt =====
-- What `crash1` and `start1` of lab2/raft/config.go do with the persisters and the instances.
use cs426_spring2022_labs.Common.{
  ℕ, suc, ◌<◌, ◌≡◌, refl, sym, ap, ◌∙◌, subst, ◌⊎◌, inl, inr, true, none, some, Heap, write,
  write_self, write_ne, ℕ_discrete, Option-cases, arith,
}
use cs426_spring2022_labs.Raft.Disks.{
  Raft, Disks, kill, make, copy_saved, kill_raft, crash, copy_or_make, start,
}
use cs426_spring2022_labs.Raft.Disks.Renewed.{
  some_eq, content, Owned, copy_saved-Keeps, fresh_saved-Keeps, copy_or_make-Keeps,
}

module _ {E : Type 0} where
  -- A crash: the instance is dead and forgotten, no instance has what is saved for the server, and the
  -- contents of all servers are as before.
  pub record Crashed (i : ℕ) (d d' : Disks E) : Type 0 where
    pub owned : Owned d'
    pub gone : d'.rafts i ≡ none
    pub killed : (r : ℕ) → d.rafts i ≡ some r → (d'.instances r).dead ≡ true
    pub rafts : (j : ℕ) → ¬ (j ≡ i) → d'.rafts j ≡ d.rafts j
    pub next : d'.next_instance ≡ d.next_instance
    pub persister : (r : ℕ) → (d'.instances r).persister ≡ (d.instances r).persister
    pub same : (j : ℕ) → content d' j ≡ content d j
    pub saved : (j : ℕ) → ¬ (j ≡ i) → d'.saved j ≡ d.saved j
    pub free :
        (a r : ℕ) → d'.saved i ≡ some a → r < d'.next_instance → ¬ ((d'.instances r).persister ≡ a)

  write-persister :
      (h : Heap (Raft E)) (r q : ℕ) → (write h r (kill (h r)) q).persister ≡ (h q).persister
  write-persister h r q = elim (ℕ_discrete q r) [
    | yes e ↦
        ap (λ q. (write h r (kill (h r)) q).persister) e
        ∙ ap (λ (rf : Raft E). rf.persister) (write_self h r (kill (h r)))
        ∙ ap (λ q. (h q).persister) (sym e)
    | no ne ↦ ap (λ (rf : Raft E). rf.persister) (write_ne h r (kill (h r)) q ne)
  ]

  kill_raft_lem :
      (d : Disks E) (i : ℕ)
      → Owned d
      → ((a r : ℕ) → d.saved i ≡ some a → r < d.next_instance → ¬ ((d.instances r).persister ≡ a))
      → Crashed i d (kill_raft d i)
  unfolding kill_raft
  kill_raft_lem d i o free = elim (Option-cases (d.rafts i)) [
    | inl e ↦ subst (Crashed i d) (sym (rw (e, kill_raft) refl)) (record {
      owned = o;
      gone = e;
      killed = λ r e'. absurd (cc (e, e'));
      rafts = λ j ne. refl;
      next = refl;
      persister = λ r. refl;
      same = λ j. refl;
      saved = λ j ne. refl;
      free = free;
    })
    | inr (r, e) ↦
        subst (Crashed i d)
          {x = record d {
            instances = write d.instances r (kill (d.instances r));
            rafts = write d.rafts i none;
          }}
          (sym (rw (e, kill_raft) refl))
          (record {
            owned = record {
              below = o.below;
              held_below =
                  λ q lt. omega (arith, write-persister d.instances r q, o.held_below q lt);
              apart = o.apart;
              owner = λ j a q s lt p.
                  let p' : (d.instances q).persister ≡ a =
                    sym (write-persister d.instances r q) ∙ p in
                  elim (ℕ_discrete j i) [
                    | yes here ↦ absurd (free a q (ap d.saved (sym here) ∙ s) lt p')
                    | no ne ↦ write_ne d.rafts i none j ne ∙ o.owner j a q s lt p'
                  ];
            };
            gone = write_self d.rafts i none;
            killed = λ q e'.
                ap (λ q. (write d.instances r (kill (d.instances r)) q).dead) (some_eq (sym e' ∙ e))
                ∙ ap (λ (rf : Raft E). rf.dead) (write_self d.instances r (kill (d.instances r)));
            rafts = λ j ne. write_ne d.rafts i none j ne;
            next = refl;
            persister = λ q. write-persister d.instances r q;
            same = λ j. refl;
            saved = λ j ne. refl;
            free = λ a q s lt p. free a q s lt (sym (write-persister d.instances r q) ∙ p);
          })
  ]

  pub crash-Crashed : (d : Disks E) (i : ℕ) → Owned d → Crashed i d (crash d i)
  unfolding crash
  crash-Crashed d i o =
      let k = copy_saved-Keeps d i o in
      let d₁ = copy_saved d i in
      let c = kill_raft_lem d₁ i k.owned k.free in
      let d₂ = kill_raft d₁ i in
      let f = fresh_saved-Keeps d₂ i c.owned in
      record {
        owned = f.owned;
        gone = ap (λ h. h i) f.rafts ∙ c.gone;
        killed = λ r e.
            ap (λ (h : Heap (Raft E)). (h r).dead) f.instances
            ∙ c.killed r (ap (λ h. h i) k.rafts ∙ e);
        rafts = λ j ne. ap (λ h. h j) f.rafts ∙ c.rafts j ne ∙ ap (λ h. h j) k.rafts;
        next = f.next ∙ c.next ∙ k.next;
        persister = λ r.
            ap (λ (h : Heap (Raft E)). (h r).persister) f.instances
            ∙ c.persister r
            ∙ ap (λ (h : Heap (Raft E)). (h r).persister) k.instances;
        same = λ j. f.same j ∙ c.same j ∙ k.same j;
        saved = λ j ne. f.others j ne ∙ c.saved j ne ∙ k.others j ne;
        free = f.free;
      }

  new_instance :
      (names : ℕ → E) (i p : ℕ) (h : Heap (Raft E)) (n r : ℕ)
      → r < suc n
      → ((r ≡ n) × ((write h n (make names i p) r).persister ≡ p))
        ⊎ ((r < n) × ((write h n (make names i p) r).persister ≡ (h r).persister))
  new_instance names i p h n r lt = elim (ℕ_discrete r n) [
    | yes e ↦ inl (
      e,
      ap (λ q. (write h n (make names i p) q).persister) e
          ∙ ap (λ (rf : Raft E). rf.persister) (write_self h n (make names i p)),
    )
    | no ne ↦ inr (
      omega (arith, lt, ne),
      ap (λ (rf : Raft E). rf.persister) (write_ne h n (make names i p) r ne),
    )
  ]

  -- A start of a server with no instance: the new one has the saved persister.
  pub record Started (i : ℕ) (names : ℕ → E) (d d' : Disks E) : Type 0 where
    pub persister : ℕ
    pub owned : Owned d'
    pub runs : d'.rafts i ≡ some d.next_instance
    pub is : d'.instances d.next_instance ≡ make names i persister
    pub saved_it : d'.saved i ≡ some persister
    pub rafts : (j : ℕ) → ¬ (j ≡ i) → d'.rafts j ≡ d.rafts j
    pub next : d'.next_instance ≡ suc d.next_instance
    pub others : (r : ℕ) → r < d.next_instance → d'.instances r ≡ d.instances r
    pub same : (j : ℕ) → content d' j ≡ content d j
    pub saved : (j : ℕ) → ¬ (j ≡ i) → d'.saved j ≡ d.saved j

  pub start-Started :
      (d : Disks E) (i : ℕ) (names : ℕ → E) → Owned d → Started i names d (start d i names)
  unfolding start
  start-Started d i names o =
      let (k, s, low) = copy_or_make-Keeps d i o in
      let d₁ = (copy_or_make d i).0 in
      let p = (copy_or_make d i).1 in
      let new = make names i p in
      record {
        persister = p;
        owned = record {
          below = k.owned.below;
          held_below = λ r lt. elim (new_instance names i p d₁.instances d₁.next_instance r lt) [
            | inl (_, q) ↦ omega (arith, q, low)
            | inr (old, q) ↦ omega (arith, q, k.owned.held_below r old)
          ];
          apart = k.owned.apart;
          owner = λ j a r e lt q. elim (new_instance names i p d₁.instances d₁.next_instance r lt) [
            | inl (last, q') ↦
                let here : j ≡ i = k.owned.apart j i a e (s ∙ ap some (sym q' ∙ q)) in
                ap (write d₁.rafts i (some d₁.next_instance)) here
                ∙ write_self d₁.rafts i (some d₁.next_instance)
                ∙ ap some (sym last)
            | inr (old, q') ↦ elim (ℕ_discrete j i) [
              | yes here ↦ absurd (k.free a r (ap d₁.saved (sym here) ∙ e) old (sym q' ∙ q))
              | no ne ↦
                  write_ne d₁.rafts i (some d₁.next_instance) j ne
                  ∙ k.owned.owner j a r e old (sym q' ∙ q)
            ]
          ];
        };
        runs = write_self d₁.rafts i (some d₁.next_instance) ∙ ap some k.next;
        is =
            ap (λ n. write d₁.instances d₁.next_instance new n) (sym k.next)
            ∙ write_self d₁.instances d₁.next_instance new;
        saved_it = s;
        rafts = λ j ne. write_ne d₁.rafts i _ j ne ∙ ap (λ h. h j) k.rafts;
        next = ap suc k.next;
        others = λ r lt.
            write_ne d₁.instances d₁.next_instance new r (λ e. omega (arith, e, lt, k.next))
            ∙ ap (λ h. h r) k.instances;
        same = k.same;
        saved = k.others;
      }

-- ===== src/Raft/Disks/Renewed.antt =====
-- A server of lab2/raft/config.go gets a new persister with the same contents.
use cs426_spring2022_labs.Common.{
  ℕ, ◌<◌, ◌≡◌, refl, sym, ap, ◌∙◌, subst, ◌⊎◌, inl, inr, Option, none, some, [], Heap, write,
  write_self, write_ne, ℕ_discrete, Option-cases, arith,
}
use cs426_spring2022_labs.Raft.Persister.{
  Persister, make_persister, copy, read_raft_state, read_snapshot, save_state_and_snapshot,
}
use cs426_spring2022_labs.Raft.Disks.{Disks, set_saved, copy_saved, fresh_saved, copy_or_make}

pub some_eq : {a b : ℕ} → some a ≡ some b → a ≡ b
some_eq e = cc e

pub write_inv :
    (h : Heap (Option ℕ)) (i : ℕ) (o : Option ℕ) (j a : ℕ)
    → write h i o j ≡ some a
    → ((j ≡ i) × (o ≡ some a)) ⊎ ((¬ (j ≡ i)) × (h j ≡ some a))
write_inv h i o j a e = elim (ℕ_discrete j i) [
  | yes q ↦ inl (q, sym (write_self h i o) ∙ ap (write h i o) (sym q) ∙ e)
  | no ne ↦ inr (ne, sym (write_ne h i o j ne) ∙ e)
]

-- What a persister holds; no persister reads as an empty one.
abbrev pub held : Option ℕ → Heap Persister → Persister
held none persisters = record { raft_state = []; snapshot = [] }
held (some a) persisters = persisters a

held_fresh :
    (o : Option ℕ) (persisters : Heap Persister) (n : ℕ) (ps : Persister)
    → ((a : ℕ) → o ≡ some a → a < n)
    → held o (write persisters n ps) ≡ held o persisters
held_fresh none persisters n ps low = refl
held_fresh (some a) persisters n ps low =
    write_ne persisters n ps a (λ e. omega (arith, e, low a refl))

module _ {E : Type 0} where
  -- What a server would read.
  abbrev pub content : Disks E → ℕ → Persister
  content d i = held (d.saved i) d.persisters

  -- No persister is saved for two servers, and none that is saved belongs to an instance, unless to the
  -- one that lives.
  pub record Owned (d : Disks E) : Type 0 where
    pub below : (i a : ℕ) → d.saved i ≡ some a → a < d.next_persister
    pub held_below : (r : ℕ) → r < d.next_instance → (d.instances r).persister < d.next_persister
    pub apart : (i j a : ℕ) → d.saved i ≡ some a → d.saved j ≡ some a → i ≡ j
    pub owner :
        (i a r : ℕ)
        → d.saved i ≡ some a
        → r < d.next_instance
        → (d.instances r).persister ≡ a
        → d.rafts i ≡ some r

  set_saved-Owned : (d : Disks E) (i : ℕ) (ps : Persister) → Owned d → Owned (set_saved d i ps)
  set_saved-Owned d i ps o = record {
    below = λ j a e. elim (write_inv d.saved i (some d.next_persister) j a e) [
      | inl (q, new) ↦ omega (arith, some_eq new)
      | inr (ne, old) ↦ omega (arith, o.below j a old)
    ];
    held_below = λ r lt. omega (arith, o.held_below r lt);
    apart = λ j k a e f. elim (write_inv d.saved i (some d.next_persister) j a e) [
      | inl (q, new) ↦ elim (write_inv d.saved i (some d.next_persister) k a f) [
        | inl (q', _) ↦ q ∙ sym q'
        | inr (_, old) ↦ absurd (omega (arith, some_eq new, o.below k a old))
      ]
      | inr (_, old) ↦ elim (write_inv d.saved i (some d.next_persister) k a f) [
        | inl (_, new) ↦ absurd (omega (arith, some_eq new, o.below j a old))
        | inr (_, old') ↦ o.apart j k a old old'
      ]
    ];
    owner = λ j a r e lt p. elim (write_inv d.saved i (some d.next_persister) j a e) [
      | inl (_, new) ↦ absurd (omega (arith, some_eq new, o.held_below r lt, p))
      | inr (_, old) ↦ o.owner j a r old lt p
    ];
  }

  -- The same contents, and the same of all that is not saved for the server; no instance has what is
  -- saved for it.
  pub record Keeps (i : ℕ) (d d' : Disks E) : Type 0 where
    pub owned : Owned d'
    pub rafts : d'.rafts ≡ d.rafts
    pub next : d'.next_instance ≡ d.next_instance
    pub instances : d'.instances ≡ d.instances
    pub same : (j : ℕ) → content d' j ≡ content d j
    pub others : (j : ℕ) → ¬ (j ≡ i) → d'.saved j ≡ d.saved j
    pub free :
        (a r : ℕ) → d'.saved i ≡ some a → r < d'.next_instance → ¬ ((d'.instances r).persister ≡ a)

  pub set_saved-Keeps :
      (d : Disks E) (i : ℕ) (ps : Persister)
      → Owned d
      → content d i ≡ ps
      → Keeps i d (set_saved d i ps)
  set_saved-Keeps d i ps o was = record {
    owned = set_saved-Owned d i ps o;
    rafts = refl;
    next = refl;
    instances = refl;
    same = λ j. elim (ℕ_discrete j i) [
      | yes q ↦
          ap (λ o. held o (write d.persisters d.next_persister ps))
            (ap (write d.saved i (some d.next_persister)) q ∙ write_self d.saved i _)
          ∙ write_self d.persisters d.next_persister ps
          ∙ sym was
          ∙ ap (content d) (sym q)
      | no ne ↦
          ap (λ o. held o (write d.persisters d.next_persister ps)) (write_ne d.saved i _ j ne)
          ∙ held_fresh (d.saved j) d.persisters d.next_persister ps (o.below j)
    ];
    others = λ j ne. write_ne d.saved i (some d.next_persister) j ne;
    free = λ a r e lt p. omega (
      arith,
      some_eq (sym (write_self d.saved i (some d.next_persister)) ∙ e),
      o.held_below r lt,
      p,
    );
  }

  Keeps-refl : (d : Disks E) (i : ℕ) → Owned d → d.saved i ≡ none → Keeps i d d
  Keeps-refl d i o e = record {
    owned = o;
    rafts = refl;
    next = refl;
    instances = refl;
    same = λ j. refl;
    others = λ j ne. refl;
    free = λ a r e' lt p. absurd (cc (e, e'));
  }

  pub copy_saved-Keeps : (d : Disks E) (i : ℕ) → Owned d → Keeps i d (copy_saved d i)
  unfolding copy_saved copy
  copy_saved-Keeps d i o = elim (Option-cases (d.saved i)) [
    | inl e ↦ subst (Keeps i d) (sym (rw (e, copy_saved) refl)) (Keeps-refl d i o e)
    | inr (a, e) ↦
        subst (Keeps i d) (sym (rw (e, copy_saved) refl))
          (set_saved-Keeps d i (d.persisters a) o (ap (λ s. held s d.persisters) e))
  ]

  pub fresh_saved-Keeps : (d : Disks E) (i : ℕ) → Owned d → Keeps i d (fresh_saved d i)
  unfolding fresh_saved save_state_and_snapshot make_persister read_raft_state read_snapshot
  fresh_saved-Keeps d i o = elim (Option-cases (d.saved i)) [
    | inl e ↦ subst (Keeps i d) (sym (rw (e, fresh_saved) refl)) (Keeps-refl d i o e)
    | inr (a, e) ↦
        subst (Keeps i d) (sym (rw (e, fresh_saved) refl))
          (set_saved-Keeps d i (d.persisters a) o (ap (λ s. held s d.persisters) e))
  ]

  -- The persister that the new instance is made with.
  pub copy_or_make-Keeps :
      (d : Disks E) (i : ℕ)
      → Owned d
      → Keeps i d (copy_or_make d i).0
        × ((copy_or_make d i).0.saved i ≡ some (copy_or_make d i).1)
        × ((copy_or_make d i).1 < (copy_or_make d i).0.next_persister)
  unfolding copy_or_make copy make_persister
  copy_or_make-Keeps d i o = elim (Option-cases (d.saved i)) [
    | inl e ↦
        subst
          (λ (x : Disks E × ℕ).
            Keeps i d x.0 × (x.0.saved i ≡ some x.1) × (x.1 < x.0.next_persister))
          (sym (rw (e, copy_or_make) refl))
          (
            set_saved-Keeps d i (held none d.persisters) o (ap (λ s. held s d.persisters) e),
            write_self d.saved i (some d.next_persister),
            omega arith,
          )
    | inr (a, e) ↦
        subst
          (λ (x : Disks E × ℕ).
            Keeps i d x.0 × (x.0.saved i ≡ some x.1) × (x.1 < x.0.next_persister))
          (sym (rw (e, copy_or_make) refl))
          (
            set_saved-Keeps d i (d.persisters a) o (ap (λ s. held s d.persisters) e),
            write_self d.saved i (some d.next_persister),
            omega arith,
          )
  ]

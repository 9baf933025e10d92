-- ===== src/Raft/Commits/Agreement.antt =====
-- What holds of the harness's logs after any run of the appliers, lab2/raft/config.go.
use cs426_spring2022_labs.Common.{
  ℕ, zero, suc, ◌≡◌, ◌≢◌, ◌⊎◌, refl, ap, sym, ◌∙◌, inl, inr, none, some, List, [], ◌∷◌, ℤ, pos,
  ◌-ℤ◌, ◌≤ℤ◌, returns, false, get_elem?, set, int_key, Key, All-In, In, Bool-cases, >>=-eq-returns,
  subst,
}
use cs426_spring2022_labs.Common.GoMap.{GoMap, get, insert, get-insert_self, get-insert_ne}
use cs426_spring2022_labs.Raft.Commits.{
  ApplyMsg, Harness, empty_logs, make_harness, apply_msg, apply_all,
}
use cs426_spring2022_labs.Raft.Commits.Mismatch.{apply_msg_iff, Agrees}

In-set {ℓ} : {A : Type ℓ} (x v : A) (xs : List A) (i : ℕ) → In x (set xs i v) → (x ≡ v) ⊎ In x xs
In-set x v [] i h = absurd h.0
In-set x v (y ∷ ys) zero (inl e) = inl e
In-set x v (y ∷ ys) zero (inr h) = inr (inr h)
In-set x v (y ∷ ys) (suc i) (inl e) = inr (inl e)
In-set x v (y ∷ ys) (suc i) (inr h) = elim (In-set x v ys i h) [
  | inl e ↦ inl e
  | inr l ↦ inr (inr l)
]

In-of_get_elem? {ℓ} : {A : Type ℓ} (x : A) (xs : List A) (i : ℕ) → get_elem? xs i ≡ some x → In x xs
In-of_get_elem? x [] i h = absurd (cc h)
In-of_get_elem? x (y ∷ ys) zero h = inl (cc h)
In-of_get_elem? x (y ∷ ys) (suc i) h = inr (In-of_get_elem? x ys i h)

module _ {C : Type 0} where
  -- No two servers hold different commands at one index.
  unfoldable pub Agreed : List (GoMap ℤ C) → Type 0
  Agreed logs =
      (index : ℤ) (log₁ log₂ : GoMap ℤ C) (v w : C)
      → In log₁ logs
      → In log₂ logs
      → get log₁ index ≡ some v
      → get log₂ index ≡ some w
      → v ≡ w

  -- No log has a gap: past index 1, an index is there only if the one before it is.
  unfoldable pub Gapless : List (GoMap ℤ C) → Type 0
  Gapless logs =
      (index : ℤ) (log : GoMap ℤ C)
      → In log logs
      → (pos 2 ≤ℤ index)
      → get log index ≢ none
      → get log (index -ℤ pos 1) ≢ none

  Agreed-set :
      (logs : List (GoMap ℤ C)) (i : ℕ) (log : GoMap ℤ C) (index : ℤ) (v : C)
      → In log logs
      → Agrees index v logs
      → Agreed logs
      → Agreed (set logs i (insert log index v))
  unfolding Agreed
  Agreed-set logs i log index v there agrees a idx l₁ l₂ v₁ v₂ h₁ h₂ g₁ g₂ =
      elim (int_key.same idx index) [
        | yes p ↦ here l₁ v₁ h₁ (rw p at g₁) ∙ sym (here l₂ v₂ h₂ (rw p at g₂))
        | no np ↦
            let (o₁, m₁, q₁) = before l₁ v₁ h₁ np g₁ in
            let (o₂, m₂, q₂) = before l₂ v₂ h₂ np g₂ in a idx o₁ o₂ v₁ v₂ m₁ m₂ q₁ q₂
      ]
    where
      here :
          (l : GoMap ℤ C) (w : C)
          → In l (set logs i (insert log index v))
          → get l index ≡ some w
          → w ≡ v
      here l w h g = elim (In-set l (insert log index v) logs i h) [
        | inl e ↦ cc (get-insert_self log index v, e, g)
        | inr m ↦ All-In (λ log. (old : C) → get log index ≡ some old → old ≡ v) l logs agrees m w g
      ]

      before :
          (l : GoMap ℤ C) (w : C)
          → In l (set logs i (insert log index v))
          → ¬ (idx ≡ index)
          → get l idx ≡ some w
          → (o : GoMap ℤ C) × In o logs × (get o idx ≡ some w)
      before l w h np g = elim (In-set l (insert log index v) logs i h) [
        | inl e ↦ (log, there, cc (get-insert_ne log index idx v np, e, g))
        | inr m ↦ (l, m, g)
      ]

  Gapless-set :
      (logs : List (GoMap ℤ C)) (i : ℕ) (log : GoMap ℤ C) (index : ℤ) (v : C)
      → In log logs
      → ((pos 2 ≤ℤ index) → get log (index -ℤ pos 1) ≢ none)
      → Gapless logs
      → Gapless (set logs i (insert log index v))
  unfolding Gapless
  Gapless-set logs i log index v there follows a idx l h low g none_before =
      elim (In-set l (insert log index v) logs i h) [
        | inr m ↦ a idx l m low g none_before
        | inl e ↦
            let before : get log (idx -ℤ pos 1) ≡ none = still_none (rw e at none_before) in
            elim (int_key.same idx index) [
              | yes p ↦ follows (rw p at low) (rw p at before)
              | no np ↦
                  a idx log there low (λ n. g (cc (e, n, get-insert_ne log index idx v np))) before
            ]
      ]
    where
      still_none : get (insert log index v) (idx -ℤ pos 1) ≡ none → get log (idx -ℤ pos 1) ≡ none
      still_none n = elim (int_key.same (idx -ℤ pos 1) index) [
        | yes p ↦ absurd (cc (get-insert_self log index v, p, n))
        | no np ↦ cc (get-insert_ne log index (idx -ℤ pos 1) v np, n)
      ]

In-empty_logs : {C : Type 0} (log : GoMap ℤ C) (n : ℕ) → In log (empty_logs n) → log ≡ []
unfolding empty_logs
In-empty_logs log zero h = absurd h.0
In-empty_logs log (suc n) (inl e) = e
In-empty_logs log (suc n) (inr h) = In-empty_logs log n h

module _ {C : Type 0} ⦃k : Key C⦄ where
  ignored :
      (cfg : Harness C) (i : ℕ) (m : ApplyMsg C) (next : Harness C)
      → m.command_valid ≡ false
      → apply_msg cfg i m ≡ returns next
      → cfg ≡ next
  unfolding apply_msg
  ignored cfg i m next e h = cc (rw (e, apply_msg) at h)

  apply_all-keeps :
      (cfg : Harness C) (messages : List (ℕ × ApplyMsg C)) (next : Harness C)
      → Agreed cfg.logs
      → Gapless cfg.logs
      → apply_all cfg messages ≡ returns next
      → Agreed next.logs × Gapless next.logs
  unfolding apply_all
  apply_all-keeps cfg [] next a g h =
      subst (λ c. Agreed c.logs × Gapless c.logs) (returns_injective cfg next h) (a, g)
    where
      returns_injective : (x y : Harness C) → returns x ≡ returns y → x ≡ y
      returns_injective x y e = cc
  apply_all-keeps cfg ((i, m) ∷ messages) next a g h =
      let (mid, first, rest) =
        >>=-eq-returns (apply_msg cfg i m) (λ mid. apply_all mid messages) next h in
      elim (Bool-cases m.command_valid) [
        | inl valid ↦
            let (o, q) = (apply_msg_iff cfg i m mid valid).0 first in
            let there = In-of_get_elem? o.log cfg.logs i o.at in
            let logs : mid.logs ≡ set cfg.logs i (insert o.log m.command_index m.command) =
              ap (λ (c : Harness C). c.logs) q in
            apply_all-keeps mid messages next
              (subst Agreed (sym logs)
                (Agreed-set cfg.logs i o.log m.command_index m.command there o.agrees a))
              (subst Gapless (sym logs)
                (Gapless-set cfg.logs i o.log m.command_index m.command there o.follows g))
              rest
        | inr invalid ↦
            let q : cfg ≡ mid = ignored cfg i m mid invalid first in
            apply_all-keeps mid messages next (subst (λ c. Agreed c.logs) q a)
              (subst (λ c. Gapless c.logs) q g) rest
      ]

  pub run-Agreed :
      (n : ℕ) (messages : List (ℕ × ApplyMsg C)) (cfg : Harness C)
      → apply_all (make_harness n) messages ≡ returns cfg
      → Agreed cfg.logs × Gapless cfg.logs
  unfolding make_harness Agreed Gapless get
  run-Agreed n messages cfg =
      apply_all-keeps (make_harness n) messages cfg
        (λ index l₁ l₂ v w h₁ h₂ g₁ g₂. absurd (empty l₁ index v h₁ g₁))
        (λ index log h low g. absurd (g (rw (In-empty_logs log n h) refl)))
    where
      empty : (l : GoMap ℤ C) (index : ℤ) (v : C) → In l (empty_logs n) → ¬ (get l index ≡ some v)
      empty l index v h g = cc (rw (In-empty_logs l n h) at g)

-- ===== src/Checker/Sound.antt =====
-- When lab4/checker/checker.go reports a read of the ideal store of Checker/Register as incorrect.
use cs426_spring2022_labs.Common.{
  Pick, Pick-length, ℕ, ◌+◌, ◌≤◌, String, ◌≡◌, refl, sym, ap, ◌∙◌, ◌⊎◌, inl, inr, true, false, none,
  some, List, [], ◌∷◌, pos, pos-injective, arith, length, In, string_key,
}
use cs426_spring2022_labs.Common.GoMap.{get_or}
use cs426_spring2022_labs.Checker.{
  Flags, at, count_at, begin_read, check_read_correct, new_state_value,
}
use cs426_spring2022_labs.Checker.Calls.{
  begin_write-SameAt, complete_write-eq-returns, check_read_correct-SameAt, record_write-SameAt,
}
use cs426_spring2022_labs.Checker.Register.{
  Write, Sys, initial, Step, begins, applies, completes, expires, begins_other, completes_other,
  checks, Reach, here, next, pending_values, IsKnown, Inv,
}
use cs426_spring2022_labs.Checker.Covered.{Step-Inv}

initial-Inv : (key : String) → Inv key 0 initial
unfolding get_or
initial-Inv key = record {
  version = refl;
  rc = refl;
  begun = tt;
  exclusive = tt;
  covered = λ v e. cc e;
}

no-Pick : {w : Write} {ws rest : List Write} → Pick w ws rest → ¬ (length ws ≡ 0)
no-Pick p h = omega (arith, Pick-length p)

module _ (flags : Flags) (on : flags.check_correctness ≡ true) (key : String) where
  Reach-Inv :
      (n : ℕ) {s t : Sys}
      → Reach flags key s t
      → Inv key n s
      → (n' : ℕ) × Inv key n' t × (n ≤ n') × (n + length s.pending ≤ n' + length t.pending)
  Reach-Inv n here i = (n, i, omega arith, omega arith)
  Reach-Inv n (next {t} {u} r st) i =
      let (k, j, p, q) = Reach-Inv n r i in
      let (k', j', p', q') = Step-Inv flags on key k t u st j in (k', j', omega arith, omega arith)

  -- With no write pending before or after it, a step changes no value of the key.
  Step-quiet :
      (s t : Sys)
      → Step flags key s t
      → length s.pending ≡ 0
      → length t.pending ≡ 0
      → at t.cc.values key ≡ at s.cc.values key
  Step-quiet s t (begins v init b e) p q = absurd (omega (arith, ap (λ s. length s.pending) e))
  Step-quiet s t (applies w rest pick e) p q = absurd (no-Pick pick p)
  Step-quiet s t (completes w rest now err m d pick done c reg pend) p q = absurd (no-Pick pick p)
  Step-quiet s t (expires e) p q = ap (λ s. at s.cc.values key) e
  Step-quiet s t (begins_other j ne e) p q =
      ap (λ s. at s.cc.values key) e ∙ (begin_write-SameAt flags on j key s.cc ne).values
  Step-quiet s t (completes_other j value now err init m d ne c reg pend) p q =
      let r = complete_write-eq-returns flags on now j value err init m d s.cc t.cc c in
      ap (λ c. at c.values key) r.0
      ∙ (record_write-SameAt j key (new_state_value flags now value err m d) init s.cc ne).values
  Step-quiet s t (checks now j value found start init pending e) p q =
      ap (λ s. at s.cc.values key) e
      ∙ (check_read_correct-SameAt flags on now j value found start init pending key s.cc).values

  same_count : (m n : ℕ) (s : Sys) → Inv key m s → Inv key n s → m ≡ n
  same_count m n s i j = pos-injective m n (sym i.version ∙ j.version)

  -- If no write was pending at both ends, and none completed between, the values did not change.
  Reach-quiet :
      (n : ℕ) {s t : Sys}
      → Reach flags key s t
      → Inv key n s
      → Inv key n t
      → length s.pending ≡ 0
      → length t.pending ≡ 0
      → at t.cc.values key ≡ at s.cc.values key
  Reach-quiet n here i j p q = refl
  Reach-quiet n {s} (next {t} {u} r st) i j p q =
      let (k, it, a, b) = Reach-Inv n r i in
      let (k', iu, a', b') = Step-Inv flags on key k t u st it in
      let e : k' ≡ n = same_count k' n u iu j in
      let e' : k ≡ n = omega arith in
      let idle : length t.pending ≡ 0 = omega arith in
      Step-quiet t u st idle q ∙ Reach-quiet n r i (rw e' at it) p idle

  IsKnown-if_quiet :
      (s₁ s₂ s₃ : Sys) (v : String)
      → Reach flags key initial s₁
      → Reach flags key s₁ s₂
      → Reach flags key s₂ s₃
      → s₂.register ≡ some v
      → count_at s₃.cc.version key ≡ count_at s₁.cc.version key
      → count_at s₁.cc.rc key ≡ pos 0
      → count_at s₃.cc.rc key ≡ pos 0
      → IsKnown (at s₃.cc.values key) v
  IsKnown-if_quiet s₁ s₂ s₃ v r₁ r₂ r₃ reg same zero₁ zero₃ =
      let (n₁, i₁, a₁, b₁) = Reach-Inv 0 r₁ (initial-Inv key) in
      let (n₂, i₂, a₂, b₂) = Reach-Inv n₁ r₂ i₁ in
      let (n₃, i₃, a₃, b₃) = Reach-Inv n₂ r₃ i₂ in
      let e : n₃ ≡ n₁ = pos-injective n₃ n₁ (sym i₃.version ∙ same ∙ i₁.version) in
      let idle₁ : length s₁.pending ≡ 0 = pos-injective _ 0 (sym i₁.rc ∙ zero₁) in
      let idle₃ : length s₃.pending ≡ 0 = pos-injective _ 0 (sym i₃.rc ∙ zero₃) in
      let idle₂ : length s₂.pending ≡ 0 = omega arith in
      let e₂ : n₃ ≡ n₂ = omega arith in
      rw (Reach-quiet n₂ r₃ i₂ (rw e₂ at i₃) idle₂ idle₃)
        (known s₂.pending (i₂.covered v reg) idle₂)
    where
      known : {K : Type 0} (ws : List Write) → K ⊎ In v (pending_values ws) → length ws ≡ 0 → K
      known ws (inl k) h = k
      known [] (inr i) h = absurd i.0
      known (w ∷ ws) (inr i) h = absurd (omega arith)

  -- No false alarm on a value that was found: with the checks on but the TTL check off, whatever writes, failed
  -- writes, expirations and calls on other keys run beside it, a read that returns what the store
  -- holds at some moment between its `BeginRead` and its check is not reported.
  pub found_not_reported :
      (s₁ s₂ s₃ : Sys) (v : String) (now start : ℕ)
      → flags.check_ttl ≡ false
      → Reach flags key initial s₁
      → Reach flags key s₁ s₂
      → Reach flags key s₂ s₃
      → s₂.register ≡ some v
      → (check_read_correct flags now key v true start
          (begin_read flags key s₁.cc).0
          (begin_read flags key s₁.cc).1
          s₃.cc).1
        ≡ none
  unfolding check_read_correct begin_read
  found_not_reported s₁ s₂ s₃ v now start off r₁ r₂ r₃ reg =
      ground (arith, IsKnown-if_quiet s₁ s₂ s₃ v r₁ r₂ r₃ reg)

-- ===== src/Labgob/Visits.antt =====
-- What a part of the search of lab2/labgob/labgob.go does to the marks and the count.
use cs426_spring2022_labs.Common.{
  All-mono, subst, ℕ, suc, ◌+◌, ◌≡◌, ◌⊎◌, refl, sym, ◌∙◌, inl, inr, true, false, List, [], ◌∷◌,
  ◌++◌, if◌then◌else◌, nat_key, Bool-cases, All, All-append, All-In, In, In-append_left,
  In-append_right, Distinct, arith,
}
use cs426_spring2022_labs.Labgob.{Field, Types, State, is_checked, mark, report}
use cs426_spring2022_labs.Labgob.Marks.{
  through, lower, parts, Reaches, counted, here, through, is_checked-mark_self, is_checked-mark_ne,
  is_checked-mark, counted-mark,
}

pub Reaches-through_first :
    {types : Types} {t u v : ℕ} → In u (parts (types t)) → Reaches types u v → Reaches types t v
Reaches-through_first i here = through here i
Reaches-through_first i (through r j) = through (Reaches-through_first i r) j

counted-error_count :
    (types : Types) (ts : List ℕ) (s : State) (n : ℕ)
    → counted types ts (record s { error_count = n }) ≡ counted types ts s
unfolding counted
counted-error_count types [] s n = refl
counted-error_count types (t ∷ ts) s n = ground (arith, counted-error_count types ts s n)

module _ (types : Types) (universe : List ℕ) where
  -- What a part of the search did that was called on `roots`, with `extra` fields counted on the way.
  pub record Visits (roots : List ℕ) (extra : ℕ) (s s' : State) : Type 0 where
    pub keeps : (u : ℕ) → is_checked s u ≡ true → is_checked s' u ≡ true
    pub closed :
        (u v : ℕ)
        → is_checked s' u ≡ true
        → is_checked s u ≡ false
        → In v (parts (types u))
        → is_checked s' v ≡ true
    pub only :
        (u : ℕ)
        → is_checked s' u ≡ true
        → (is_checked s u ≡ true) ⊎ ((w : ℕ) × In w roots × Reaches types w u)
    pub errors :
        s'.error_count + counted types universe s
        ≡ s.error_count + counted types universe s' + extra
    pub arrived : All (λ t. is_checked s' t ≡ true) roots

  pub Visits-nil : (s : State) → Visits [] 0 s s
  Visits-nil s = record {
    keeps = λ u h. h;
    closed = λ u v h n i. absurd (cc (h, n));
    only = λ u h. inl h;
    errors = omega arith;
    arrived = tt;
  }

  pub Visits-append :
      (xs ys : List ℕ) (m n k : ℕ) (s s₁ s₂ : State)
      → k ≡ m + n
      → Visits xs m s s₁
      → Visits ys n s₁ s₂
      → Visits (xs ++ ys) k s s₂
  Visits-append xs ys m n k s s₁ s₂ sum a b = record {
    keeps = λ u h. b.keeps u (a.keeps u h);
    closed = λ u v h nu i. elim (Bool-cases (is_checked s₁ u)) [
      | inl y ↦ b.keeps v (a.closed u v y nu i)
      | inr z ↦ b.closed u v h z i
    ];
    only = λ u h. elim (b.only u h) [
      | inr (w, i, r) ↦ inr (w, In-append_right w xs ys i, r)
      | inl g ↦ elim (a.only u g) [
        | inl f ↦ inl f
        | inr (w, i, r) ↦ inr (w, In-append_left w xs ys i, r)
      ]
    ];
    errors = omega (arith, sum, a.errors, b.errors);
    arrived =
        All-append (λ t. is_checked s₂ t ≡ true) xs ys
          (All-mono (λ t. is_checked s₁ t ≡ true) (λ t. is_checked s₂ t ≡ true) xs b.keeps
            a.arrived)
          b.arrived;
  }

  pub Visits-report :
      (roots : List ℕ) (n : ℕ) (f : Field) (s s' : State)
      → Visits roots n (report f s) s'
      → Visits roots ((if f.is_upper then 0 else 1) + n) s s'
  Visits-report roots n f s s' a = elim (Bool-cases f.is_upper) [
    | inl e ↦
        let same : report f s ≡ s = ground (arith, e) in
        let a' : Visits roots n s s' = subst (λ x. Visits roots n x s') same a in
        record {
          keeps = a'.keeps;
          closed = a'.closed;
          only = a'.only;
          errors = ground (arith, e, a'.errors);
          arrived = a'.arrived;
        }
    | inr e ↦
        let same : report f s ≡ record s { error_count = suc s.error_count } = ground (arith, e) in
        let a' : Visits roots n (record s { error_count = suc s.error_count }) s' =
          subst (λ x. Visits roots n x s') same a in
        let more : s'.error_count + counted types universe s
            ≡ suc s.error_count + counted types universe s' + n =
          omega (arith, a'.errors, counted-error_count types universe s (suc s.error_count)) in
        record {
          keeps = a'.keeps;
          closed = a'.closed;
          only = a'.only;
          errors = ground (arith, e, more);
          arrived = a'.arrived;
        }
  ]

  -- The visit of a type that was not checked, from the visit of its parts.
  pub Visits-mark :
      (t : ℕ) (s s' : State)
      → Distinct universe
      → In t universe
      → is_checked s t ≡ false
      → Visits (parts (types t)) (lower (types t)) (mark s t) s'
      → Visits (t ∷ []) 0 s s'
  Visits-mark t s s' d i off a = record {
    keeps = λ u h. a.keeps u (is_checked-mark s t u h);
    closed = λ u v h nu m. elim (nat_key.same u t) [
      | yes e ↦ All-In (λ x. is_checked s' x ≡ true) v (parts (types t)) a.arrived (rw e at m)
      | no ne ↦ a.closed u v h (is_checked-mark_ne s t u ne ∙ nu) m
    ];
    only = λ u h. elim (nat_key.same u t) [
      | yes e ↦ inr (t, inl refl, rw e here)
      | no ne ↦ elim (a.only u h) [
        | inl g ↦ inl (sym (is_checked-mark_ne s t u ne) ∙ g)
        | inr (w, j, r) ↦ inr (t, inl refl, Reaches-through_first j r)
      ]
    ];
    errors = omega (arith, a.errors, counted-mark types universe s t d i off);
    arrived = (a.keeps t (is_checked-mark_self s t), tt);
  }

  pub Visits-again : (t : ℕ) (s : State) → is_checked s t ≡ true → Visits (t ∷ []) 0 s s
  Visits-again t s h = record {
    keeps = λ u g. g;
    closed = λ u v g n i. absurd (cc (g, n));
    only = λ u g. inl g;
    errors = omega arith;
    arrived = (h, tt);
  }

-- ===== src/Raft/OneLeader/Alone.antt =====
-- Which server `checkOneLeader` of lab2/raft/config.go returns.
use cs426_spring2022_labs.Common.{
  ℕ, ◌≤◌, ◌≡◌, refl, sym, ap, ◌∙◌, subst, ◌⊎◌, inl, inr, false, some, List, [], ◌∷◌, ℤ, negsuc,
  ◌≤ℤ◌, returns, >>=-eq-returns, ltb, ltb_ℤ, length, All, All-In, In, Bool-cases, Option-cases,
  int_key, arith,
}
use cs426_spring2022_labs.Common.GoMap.{GoMap, keys, get, get_or, In-of_get}
use cs426_spring2022_labs.Raft.Leaders.{Peer}
use cs426_spring2022_labs.Raft.OneLeader.{collect_leaders, last_term, first_of, answer, look_once}
use cs426_spring2022_labs.Raft.OneLeader.Collected.{
  leaders_in, LeadsAt, collect_leaders_lem, leaders_in-LeadsAt, LeadsAt-leaders_in,
}

-- The map has one number at most for each term.
abbrev pub Single : GoMap ℤ (List ℕ) → Type 0
Single = All (λ e. length e.1 ≤ 1)

abbrev pub Below : ℤ → GoMap ℤ (List ℕ) → Type 0
Below x = All (λ e. e.0 ≤ℤ x)

last_term-Single : (m : GoMap ℤ (List ℕ)) (t x : ℤ) → last_term m t ≡ returns x → Single m
unfolding last_term
last_term-Single [] t x h = tt
last_term-Single ((term, leaders) ∷ m) t x h = elim (Bool-cases (ltb 1 (length leaders))) [
  | inl more ↦ absurd (cc (rw (more, last_term) at h))
  | inr few ↦ (ground (arith, few), last_term-Single m _ x (rw (few, last_term) at h))
]

pub last_term_lem :
    (m : GoMap ℤ (List ℕ)) (t : ℤ)
    → Single m
    → (x : ℤ) × (last_term m t ≡ returns x) × Below x m × (t ≤ℤ x) × ((x ≡ t) ⊎ In x (keys m))
unfolding last_term
last_term_lem [] t s = (t, refl, tt, omega arith, inl refl)
last_term_lem ((term, leaders) ∷ m) t s =
    let few : ltb 1 (length leaders) ≡ false = ground (arith, s.0) in
    elim (Bool-cases (ltb_ℤ t term)) [
      | inl grows ↦
          let (x, q, below, le, from) = last_term_lem m term s.1 in
          (
            x,
            rw (few, grows, last_term) q,
            (le, below),
            ground (arith, le, grows),
            elim from [ inl e ↦ inr (inl e) | inr i ↦ inr (inr i) ],
          )
      | inr stays ↦
          let (x, q, below, le, from) = last_term_lem m t s.1 in
          (
            x,
            rw (few, stays, last_term) q,
            (ground (arith, le, stays), below),
            le,
            elim from [ inl e ↦ inl e | inr i ↦ inr (inr i) ],
          )
    ]

pub All-of_In :
    {P : ℤ × List ℕ → Type 0} (m : GoMap ℤ (List ℕ)) → ((e : ℤ × List ℕ) → In e m → P e) → All P m
All-of_In [] h = tt
All-of_In (e ∷ m) h = (h e (inl refl), All-of_In m (λ f i. h f (inr i)))

-- A number that is looked up comes from an entry.
pub In-get_or :
    (m : GoMap ℤ (List ℕ)) (t : ℤ) (j : ℕ) → In j (get_or m t []) → In (t, get_or m t []) m
unfolding get_or
In-get_or m t j i = elim (Option-cases (get m t)) [
  | inl e ↦ absurd ((rw (e, get_or) at i).0)
  | inr (l, e) ↦ rw (e, get_or) (In-of_get m t l e)
]

single_eq : (l : List ℕ) (j k : ℕ) → length l ≤ 1 → In j l → In k l → j ≡ k
single_eq [] j k h a b = absurd a.0
single_eq (x ∷ []) j k h (inl a) (inl b) = a ∙ sym b
single_eq (x ∷ []) j k h (inr a) b = absurd a.0
single_eq (x ∷ []) j k h (inl a) (inr b) = absurd b.0
single_eq (x ∷ y ∷ l) j k h a b = absurd (omega (arith, h))

-- Server `i` is an attached leader; no attached leader has a larger term, and no two have the same.
pub record LeadsAlone (ps : List Peer) (i : ℕ) : Type 0 where
  pub term : ℤ
  pub leads : LeadsAt term ps i
  pub largest : (t : ℤ) (j : ℕ) → LeadsAt t ps j → t ≤ℤ term
  pub alone : (t : ℤ) (j k : ℕ) → LeadsAt t ps j → LeadsAt t ps k → j ≡ k

abbrev pub collected : List Peer → GoMap ℤ (List ℕ)
collected ps = collect_leaders 0 ps []

pub leaders_of : (ps : List Peer) (t : ℤ) → get_or (collected ps) t [] ≡ leaders_in t 0 ps
unfolding get_or get
leaders_of ps t = collect_leaders_lem t 0 ps []

pub LeadsAt-In :
    (ps : List Peer) (t : ℤ) (j : ℕ) → LeadsAt t ps j → In j (get_or (collected ps) t [])
LeadsAt-In ps t j l =
    subst (In j) (sym (leaders_of ps t))
      (subst (λ k. In k (leaders_in t 0 ps)) (omega arith) (LeadsAt-leaders_in t 0 j ps l))

first_of-eq-returns : (l : List ℕ) (i : ℕ) → first_of l ≡ returns i → In i l
first_of-eq-returns [] i h = absurd (cc h)
first_of-eq-returns (x ∷ l) i h = inl (cc h)

answer-some :
    (m : GoMap ℤ (List ℕ)) (x : ℤ) (i : ℕ) → answer m x ≡ returns (some i) → In i (get_or m x [])
answer-some [] x i h = absurd (cc h)
answer-some (e ∷ m) x i h =
    let (j, q, r) =
      >>=-eq-returns (first_of (get_or (e ∷ m) x [])) (λ i. returns (some i)) (some i) h in
    let same : j ≡ i = cc r in first_of-eq-returns (get_or (e ∷ m) x []) i (q ∙ ap returns same)

pub look_once-LeadsAlone :
    (ps : List Peer) (i : ℕ) → look_once ps ≡ returns (some i) → LeadsAlone ps i
unfolding look_once
look_once-LeadsAlone ps i h =
    let m = collected ps in
    let (x, q, r) = >>=-eq-returns (last_term m (negsuc 0)) (answer m) (some i) h in
    let single = last_term-Single m (negsuc 0) x q in
    let (x', q', below, _, _) = last_term_lem m (negsuc 0) single in
    let same : x' ≡ x = cc (q, q') in
    let (d, e, l) =
      leaders_in-LeadsAt x 0 i ps (subst (In i) (leaders_of ps x) (answer-some m x i r)) in
    record {
      term = x;
      leads = subst (LeadsAt x ps) (omega (arith, e)) l;
      largest = λ t j l.
          subst (λ x. t ≤ℤ x) same
            (All-In _ (t, get_or m t []) m below (In-get_or m t j (LeadsAt-In ps t j l)));
      alone = λ t j k a b.
          let i = LeadsAt-In ps t j a in
          single_eq (get_or m t []) j k (All-In _ (t, get_or m t []) m single (In-get_or m t j i)) i
            (LeadsAt-In ps t k b);
    }

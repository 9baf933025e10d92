-- ===== src/Raft/OneLeader/Returns.antt =====
-- When one turn of `checkOneLeader` of lab2/raft/config.go returns.
use cs426_spring2022_labs.Common.{
  ℕ, zero, suc, ◌≤◌, ◌≡◌, refl, sym, ap, ◌∙◌, subst, ◌⊎◌, inl, inr, none, some, List, [], ◌∷◌, ◌++◌,
  ℤ, pos, negsuc, ◌≤ℤ◌, eq_of_parts, returns, ◌>>=◌, >>=-eq-returns, length, All, All-In, In,
  Bool-cases, int_key, arith,
}
use cs426_spring2022_labs.Common.GoMap.{
  GoMap, keys, get, get_or, insert, Unique, In-keys-insert, get_of_In,
}
use cs426_spring2022_labs.Raft.Leaders.{Peer}
use cs426_spring2022_labs.Raft.OneLeader.{
  is_leader, collect_leaders, last_term, first_of, answer, look_once,
}
use cs426_spring2022_labs.Raft.OneLeader.Collected.{
  leaders_in, LeadsAt, collect_leaders-Unique, leaders_in-LeadsAt, length-leaders_in,
}
use cs426_spring2022_labs.Raft.OneLeader.Alone.{
  Single, last_term_lem, All-of_In, In-get_or, LeadsAlone, collected, leaders_of, LeadsAt-In,
}

abbrev pub NonNegative : List Peer → Type 0
NonNegative = All (λ p. pos 0 ≤ℤ p.term)

-- No server is an attached leader.
abbrev pub NoLeader : List Peer → Type 0
NoLeader ps = (t : ℤ) (j : ℕ) → ¬ LeadsAt t ps j

non_negative : (ps : List Peer) (t : ℤ) (d : ℕ) → NonNegative ps → LeadsAt t ps d → pos 0 ≤ℤ t
non_negative [] t d h l = absurd (cc l.at)
non_negative (p ∷ ps) t zero h l =
    let same : p ≡ l.peer = cc l.at in
    subst (λ t. pos 0 ≤ℤ t) (ap (λ (p : Peer). p.term) same ∙ l.term) h.0
non_negative (p ∷ ps) t (suc d) h l =
    non_negative ps t d h.1 (record { peer = l.peer; at = l.at; leads = l.leads; term = l.term })

next_LeadsAt :
    (p : Peer) (ps : List Peer) (t : ℤ) (d : ℕ) → LeadsAt t ps d → LeadsAt t (p ∷ ps) (suc d)
next_LeadsAt p ps t d l = record { peer = l.peer; at = l.at; leads = l.leads; term = l.term }

-- A term of the map is that of an attached leader.
keys-LeadsAt :
    (i : ℕ) (ps : List Peer) (m : GoMap ℤ (List ℕ)) (x : ℤ)
    → In x (keys (collect_leaders i ps m))
    → In x (keys m) ⊎ ((d : ℕ) × LeadsAt x ps d)
unfolding collect_leaders
keys-LeadsAt i [] m x h = inl h
keys-LeadsAt i (p ∷ ps) m x h = elim (Bool-cases (is_leader p)) [
  | inr off ↦ elim (keys-LeadsAt (suc i) ps m x (rw (off, collect_leaders) at h)) [
    | inl old ↦ inl old
    | inr (d, l) ↦ inr (suc d, next_LeadsAt p ps x d l)
  ]
  | inl on ↦
      elim (keys-LeadsAt (suc i) ps (insert m p.term (get_or m p.term [] ++ i ∷ [])) x
        (rw (on, collect_leaders) at h)) [
          | inr (d, l) ↦ inr (suc d, next_LeadsAt p ps x d l)
          | inl mid ↦ elim (In-keys-insert m p.term x (get_or m p.term [] ++ i ∷ []) mid) [
            | inl e ↦ inr (0, record { peer = p; at = refl; leads = on; term = sym e })
            | inr old ↦ inl old
          ]
        ]
]

collected-Unique : (ps : List Peer) → Unique (collected ps)
collected-Unique ps = collect_leaders-Unique 0 ps [] tt

-- With no two leaders in a term, each entry has one number at most.
collected-Single :
    (ps : List Peer)
    → ((t : ℤ) (j k : ℕ) → LeadsAt t ps j → LeadsAt t ps k → j ≡ k)
    → Single (collected ps)
unfolding get_or
collected-Single ps alone = All-of_In (collected ps) (λ e i.
    let found : get (collected ps) e.0 ≡ some e.1 =
      get_of_In (collected ps) e.0 e.1 (collected-Unique ps) i in
    let is : e.1 ≡ leaders_in e.0 0 ps = sym (rw (found, get_or) refl) ∙ leaders_of ps e.0 in
    subst (λ l. length l ≤ 1) (sym is)
      (length-leaders_in e.0 0 ps (λ j k a b.
        let (d, p, l) = leaders_in-LeadsAt e.0 0 j ps a in
        let (d', p', l') = leaders_in-LeadsAt e.0 0 k ps b in
        omega (arith, p, p', alone e.0 d d' l l'))))

first_of_lem : (l : List ℕ) (i : ℕ) → In i l → ((j : ℕ) → In j l → j ≡ i) → first_of l ≡ returns i
first_of_lem [] i h same = absurd h.0
first_of_lem (x ∷ l) i h same = ap returns (same x (inl refl))

answer_lem :
    (m : GoMap ℤ (List ℕ)) (x : ℤ) (i : ℕ)
    → In i (get_or m x [])
    → first_of (get_or m x []) ≡ returns i
    → answer m x ≡ returns (some i)
unfolding get_or get
answer_lem [] x i h q = absurd h.0
answer_lem (e ∷ m) x i h q = rw q refl

antisym : (a b : ℤ) → a ≤ℤ b → b ≤ℤ a → a ≡ b
antisym a b p q = eq_of_parts a b (omega (arith, p, q))

pub LeadsAlone-look_once :
    (ps : List Peer) (i : ℕ) → NonNegative ps → LeadsAlone ps i → look_once ps ≡ returns (some i)
unfolding look_once
LeadsAlone-look_once ps i nn a =
    let m = collected ps in
    let (x, q, below, _, from) = last_term_lem m (negsuc 0) (collected-Single ps a.alone) in
    let mine = LeadsAt-In ps a.term i a.leads in
    let low : a.term ≤ℤ x =
      All-In _ (a.term, get_or m a.term []) m below (In-get_or m a.term i mine) in
    let high : x ≤ℤ a.term = elim from [
      | inl e ↦ absurd (below_zero x a.term e low (non_negative ps a.term i nn a.leads))
      | inr k ↦ elim (keys-LeadsAt 0 ps [] x k) [
        | inl b ↦ absurd b.0
        | inr (d, l) ↦ a.largest x d l
      ]
    ] in
    let same : a.term ≡ x = antisym a.term x low high in
    ap (λ o. o >>= answer m) q
    ∙ ap (answer m) (sym same)
    ∙ answer_lem m a.term i mine (
        first_of_lem (get_or m a.term []) i mine (λ j h.
          let (d, e, l) =
            leaders_in-LeadsAt a.term 0 j ps (subst (In j) (leaders_of ps a.term) h) in
          omega (arith, e, a.alone a.term d i l a.leads)))
  where
    below_zero : (x t : ℤ) → x ≡ negsuc 0 → t ≤ℤ x → pos 0 ≤ℤ t → ⊥
    below_zero x t e p q = absurd (omega (arith, subst (λ x. t ≤ℤ x) e p, q))

no_keys : (m : GoMap ℤ (List ℕ)) → ((x : ℤ) → ¬ In x (keys m)) → m ≡ []
no_keys [] h = refl
no_keys (e ∷ m) h = absurd (h e.0 (inl refl))

answer-none : (m : GoMap ℤ (List ℕ)) (x : ℤ) → answer m x ≡ returns none → m ≡ []
answer-none [] x h = refl
answer-none (e ∷ m) x h =
    let (j, q, r) =
      >>=-eq-returns (first_of (get_or (e ∷ m) x [])) (λ i. returns (some i)) none h in
    absurd (cc r)

pub look_once-none : (ps : List Peer) → look_once ps ≡ returns none → NoLeader ps
unfolding look_once get_or get
look_once-none ps h t j l =
    let (x, q, r) =
      >>=-eq-returns (last_term (collected ps) (negsuc 0)) (answer (collected ps)) none h in
    (subst (λ m. In j (get_or m t [])) (answer-none (collected ps) x r) (LeadsAt-In ps t j l)).0

pub NoLeader-look_once : (ps : List Peer) → NoLeader ps → look_once ps ≡ returns none
unfolding look_once last_term
NoLeader-look_once ps h =
    let empty : collected ps ≡ [] =
      no_keys (collected ps)
        (λ x i. elim (keys-LeadsAt 0 ps [] x i) [ inl b ↦ b.0 | inr (d, l) ↦ h x d l ]) in
    ap (λ m. last_term m (negsuc 0) >>= answer m) empty

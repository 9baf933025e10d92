-- ===== src/Raft/OneLeader/Collected.antt =====
-- The map from terms to leaders in `checkOneLeader` of lab2/raft/config.go.
use cs426_spring2022_labs.Common.{
  ℕ, zero, suc, ◌+◌, ◌≤◌, ◌≡◌, refl, sym, ap, ◌∙◌, subst, ◌⊎◌, inl, inr, ite, if_pos, if_neg, true,
  some, List, [], ◌∷◌, ◌++◌, ℤ, if◌then◌else◌, length, get_elem?, In, Bool-cases, int_key, int_same,
  arith,
}
use cs426_spring2022_labs.Common.GoMap.{
  GoMap, get_or, insert, get_or-insert_self, get_or-insert_ne, Unique, insert-Unique,
}
use cs426_spring2022_labs.Raft.Leaders.{Peer}
use cs426_spring2022_labs.Raft.OneLeader.{is_leader, collect_leaders}

-- The numbers of the attached leaders of a term, counted from `i`.
unfoldable pub leaders_in : ℤ → (i : ℕ) → List Peer → List ℕ
leaders_in t i [] = []
leaders_in t i (p ∷ ps) =
    if is_leader p
    then ite (int_same t p.term) (i ∷ leaders_in t (suc i) ps) (leaders_in t (suc i) ps)
    else leaders_in t (suc i) ps

-- The server of a number is an attached leader of the term.
pub record LeadsAt (t : ℤ) (ps : List Peer) (d : ℕ) : Type 0 where
  pub peer : Peer
  pub at : get_elem? ps d ≡ some peer
  pub leads : is_leader peer ≡ true
  pub term : peer.term ≡ t

append_assoc : (xs ys zs : List ℕ) → (xs ++ ys) ++ zs ≡ xs ++ (ys ++ zs)
append_assoc [] ys zs = refl
append_assoc (x ∷ xs) ys zs = ap (λ l. x ∷ l) (append_assoc xs ys zs)

append_nil : (xs : List ℕ) → xs ++ [] ≡ xs
append_nil [] = refl
append_nil (x ∷ xs) = ap (λ l. x ∷ l) (append_nil xs)

leaders_in_cases :
    (t : ℤ) (i : ℕ) (p : Peer) (ps : List Peer)
    → ((is_leader p ≡ true)
        × (t ≡ p.term)
        × (leaders_in t i (p ∷ ps) ≡ i ∷ leaders_in t (suc i) ps))
      ⊎ ((¬ ((is_leader p ≡ true) × (t ≡ p.term)))
          × (leaders_in t i (p ∷ ps) ≡ leaders_in t (suc i) ps))
unfolding leaders_in
leaders_in_cases t i p ps = elim (Bool-cases (is_leader p)) [
  | inr off ↦ inr ((λ h. cc (off, h.0)), rw (off, leaders_in) refl)
  | inl on ↦ elim (int_same t p.term) [
    | yes e ↦ inl (on, e, rw (on, leaders_in) (if_pos (int_same t p.term) e _ _))
    | no ne ↦ inr ((λ h. ne h.1), rw (on, leaders_in) (if_neg (int_same t p.term) ne _ _))
  ]
]

-- The map after one server.
abbrev add_leader : ℕ → Peer → GoMap ℤ (List ℕ) → GoMap ℤ (List ℕ)
add_leader i p m = if is_leader p then insert m p.term (get_or m p.term [] ++ i ∷ []) else m

get_or-add_leader :
    (t : ℤ) (i : ℕ) (p : Peer) (m : GoMap ℤ (List ℕ))
    → ((is_leader p ≡ true) → t ≡ p.term → get_or (add_leader i p m) t [] ≡ get_or m t [] ++ i ∷ [])
      × (¬ ((is_leader p ≡ true) × (t ≡ p.term)) → get_or (add_leader i p m) t [] ≡ get_or m t [])
get_or-add_leader t i p m = (
  λ on e. rw (on, e) (get_or-insert_self m p.term (get_or m p.term [] ++ i ∷ []) []),
  λ h. elim (Bool-cases (is_leader p)) [
    | inr off ↦ rw off refl
    | inl on ↦
        rw on (get_or-insert_ne m p.term t (get_or m p.term [] ++ i ∷ []) [] (λ e. h (on, e)))
  ],
)

pub collect_leaders_lem :
    (t : ℤ) (i : ℕ) (ps : List Peer) (m : GoMap ℤ (List ℕ))
    → get_or (collect_leaders i ps m) t [] ≡ get_or m t [] ++ leaders_in t i ps
unfolding collect_leaders leaders_in
collect_leaders_lem t i [] m = sym (append_nil (get_or m t []))
collect_leaders_lem t i (p ∷ ps) m =
    collect_leaders_lem t (suc i) ps (add_leader i p m) ∙ elim (leaders_in_cases t i p ps) [
      | inl (on, e, q) ↦
          ap (λ l. l ++ leaders_in t (suc i) ps) ((get_or-add_leader t i p m).0 on e)
          ∙ append_assoc (get_or m t []) (i ∷ []) (leaders_in t (suc i) ps)
          ∙ ap (λ l. get_or m t [] ++ l) (sym q)
      | inr (h, q) ↦
          ap (λ l. l ++ leaders_in t (suc i) ps) ((get_or-add_leader t i p m).1 h)
          ∙ ap (λ l. get_or m t [] ++ l) (sym q)
    ]

-- A number in the list is that of an attached leader of the term, and the other way round.
pub leaders_in-LeadsAt :
    (t : ℤ) (i j : ℕ) (ps : List Peer)
    → In j (leaders_in t i ps)
    → (d : ℕ) × (j ≡ i + d) × LeadsAt t ps d
unfolding leaders_in
leaders_in-LeadsAt t i j [] h = absurd h.0
leaders_in-LeadsAt t i j (p ∷ ps) h = elim (leaders_in_cases t i p ps) [
  | inl (on, e, q) ↦ elim (subst (In j) q h) [
    | inl here ↦ (0, omega (arith, here), record { peer = p; at = refl; leads = on; term = sym e })
    | inr there ↦ later t i j p ps (leaders_in-LeadsAt t (suc i) j ps there)
  ]
  | inr (_, q) ↦ later t i j p ps (leaders_in-LeadsAt t (suc i) j ps (subst (In j) q h))
]
  where
    later :
        (t : ℤ) (i j : ℕ) (p : Peer) (ps : List Peer)
        → (d : ℕ) × (j ≡ suc i + d) × LeadsAt t ps d
        → (d : ℕ) × (j ≡ i + d) × LeadsAt t (p ∷ ps) d
    later t i j p ps (d, e, l) = (
      suc d,
      omega (arith, e),
      record { peer = l.peer; at = l.at; leads = l.leads; term = l.term },
    )

pub LeadsAt-leaders_in :
    (t : ℤ) (i d : ℕ) (ps : List Peer) → LeadsAt t ps d → In (i + d) (leaders_in t i ps)
unfolding leaders_in
LeadsAt-leaders_in t i d [] l = absurd (cc l.at)
LeadsAt-leaders_in t i zero (p ∷ ps) l = elim (leaders_in_cases t i p ps) [
  | inl (on, e, q) ↦ subst (In (i + 0)) (sym q) (inl (omega arith))
  | inr (h, q) ↦
      let same : p ≡ l.peer = cc l.at in
      absurd (h (ap is_leader same ∙ l.leads, sym l.term ∙ sym (ap (λ (p : Peer). p.term) same)))
]
LeadsAt-leaders_in t i (suc d) (p ∷ ps) l =
    let there : In (suc i + d) (leaders_in t (suc i) ps) =
      LeadsAt-leaders_in t (suc i) d ps
        (record { peer = l.peer; at = l.at; leads = l.leads; term = l.term }) in
    let shift : suc i + d ≡ i + suc d = omega arith in
    elim (leaders_in_cases t i p ps) [
      | inl (on, e, q) ↦
          subst (In (i + suc d)) (sym q)
            (inr (subst (λ k. In k (leaders_in t (suc i) ps)) shift there))
      | inr (h, q) ↦
          subst (In (i + suc d)) (sym q) (subst (λ k. In k (leaders_in t (suc i) ps)) shift there)
    ]

-- With one leader at most, the list has one number at most.
pub length-leaders_in :
    (t : ℤ) (i : ℕ) (ps : List Peer)
    → ((j k : ℕ) → In j (leaders_in t i ps) → In k (leaders_in t i ps) → j ≡ k)
    → length (leaders_in t i ps) ≤ 1
unfolding leaders_in
length-leaders_in t i [] h = omega arith
length-leaders_in t i (p ∷ ps) h = elim (leaders_in_cases t i p ps) [
  | inr (_, q) ↦
      subst (λ l. length l ≤ 1) (sym q)
        (length-leaders_in t (suc i) ps
          (λ j k a b. h j k (subst (In j) (sym q) a) (subst (In k) (sym q) b)))
  | inl (on, e, q) ↦
      subst (λ l. length l ≤ 1) (sym q)
        (omega (
          arith,
          ap length (
              none_more (leaders_in t (suc i) ps) (λ j m.
                let (d, e, _) = leaders_in-LeadsAt t (suc i) j ps m in
                let same : i ≡ j =
                  h i j (subst (In i) (sym q) (inl refl)) (subst (In j) (sym q) (inr m)) in
                omega (arith, e, same))),
        ))
]
  where
    none_more : (l : List ℕ) → ((j : ℕ) → In j l → ⊥) → l ≡ []
    none_more [] h = refl
    none_more (x ∷ l) h = absurd (h x (inl refl))

pub collect_leaders-Unique :
    (i : ℕ) (ps : List Peer) (m : GoMap ℤ (List ℕ)) → Unique m → Unique (collect_leaders i ps m)
unfolding collect_leaders
collect_leaders-Unique i [] m u = u
collect_leaders-Unique i (p ∷ ps) m u = elim (Bool-cases (is_leader p)) [
  | inl on ↦
      rw (on, collect_leaders)
        (collect_leaders-Unique (suc i) ps _
          (insert-Unique m p.term (get_or m p.term [] ++ i ∷ []) u))
  | inr off ↦ rw (off, collect_leaders) (collect_leaders-Unique (suc i) ps m u)
]

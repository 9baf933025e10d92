-- ===== src/Raft/Leaders.antt =====
-- lab2/raft/config.go: what the test harness asks of the servers' terms, leaders and logs. What
-- `GetState` of a server returns is a field, since servers are not part of the harness.
use cs426_spring2022_labs.Common.{
  ℕ, ◌≤◌, ◌≡◌, ◌↔◌, ◌⊎◌, refl, ap, sym, subst, ◌∙◌, inl, inr, ite, Bool, true, false, ◌&&◌, List,
  [], ◌∷◌, ℤ, pos, negsuc, pos-injective, ◌≤ℤ◌, Outcome, returns, exits, ◌>>=◌, if◌then◌else◌, ltb,
  int_key, int_same, All, In, arith, Bool-cases,
}
use cs426_spring2022_labs.Raft.Persister.{Persister, raft_state_size}

pub record Peer : Type 0 where
  pub connected : Bool
  pub term : ℤ
  pub leader : Bool

-- One turn of the loop of `checkTerms`; `t.Fatalf` ends the test.
unfoldable pub check_term : ℤ → Peer → Outcome ℤ
check_term term p =
    if p.connected
    then ite (int_same term (negsuc 0)) (returns p.term)
        (ite (int_same term p.term) (returns term) exits)
    else returns term

unfoldable pub check_terms_from : ℤ → List Peer → Outcome ℤ
unfolding check_term
check_terms_from term [] = returns term
check_terms_from term (p ∷ ps) = check_term term p >>= λ next. check_terms_from next ps

unfoldable pub check_terms : List Peer → Outcome ℤ
unfolding check_terms_from
check_terms ps = check_terms_from (negsuc 0) ps

unfoldable pub check_no_leader : List Peer → Outcome (Unit {0})
check_no_leader [] = returns tt
check_no_leader (p ∷ ps) = if p.connected && p.leader then exits else check_no_leader ps

-- The loop of `LogSize`.
unfoldable pub log_size_from : ℕ → List Persister → ℕ
log_size_from logsize [] = logsize
log_size_from logsize (ps ∷ rest) =
    log_size_from (if ltb logsize (raft_state_size ps) then raft_state_size ps else logsize) rest

unfoldable pub log_size : List Persister → ℕ
unfolding log_size_from
log_size saved = log_size_from 0 saved

-- All attached servers are in the term.
abbrev pub InTerm : ℕ → List Peer → Type 0
InTerm t = All (λ p. p.connected ≡ true → p.term ≡ pos t)

-- Some server is attached.
pub record SomeConnected (ps : List Peer) : Type 0 where
  pub peer : Peer
  pub there : In peer ps
  pub connected : peer.connected ≡ true

check_term_off : (term : ℤ) (p : Peer) → p.connected ≡ false → check_term term p ≡ returns term
unfolding check_term
check_term_off term p e = rw (e, check_term) refl

check_term_first : (p : Peer) → p.connected ≡ true → check_term (negsuc 0) p ≡ returns p.term
unfolding check_term int_same
check_term_first p e = ground (arith, e)

check_terms_from_first :
    (p : Peer) (ps : List Peer)
    → p.connected ≡ true
    → check_terms_from (negsuc 0) (p ∷ ps) ≡ check_terms_from p.term ps
unfolding check_terms_from
check_terms_from_first p ps on = rw (check_term_first p on, check_terms_from) refl

check_term_same :
    (t : ℕ) (p : Peer)
    → p.connected ≡ true
    → ((p.term ≡ pos t) × (check_term (pos t) p ≡ returns (pos t)))
      ⊎ ((¬ (p.term ≡ pos t)) × (check_term (pos t) p ≡ exits))
unfolding check_term
check_term_same t p e = elim (int_same (pos t) p.term) [
  | yes q ↦ inl (sym q, ground (arith, e, q))
  | no ne ↦ inr ((λ q. ne (sym q)), ground (arith, e, ne))
]

check_terms_from_lem :
    (t : ℕ) (x : ℤ) (ps : List Peer)
    → (check_terms_from (pos t) ps ≡ returns x) ↔ ((x ≡ pos t) × InTerm t ps)
unfolding check_terms_from
check_terms_from_lem t x [] = ((λ h. (cc h, tt)), λ h. ap returns (sym h.0))
check_terms_from_lem t x (p ∷ ps) = elim (Bool-cases p.connected) [
  | inr off ↦
      let r = check_terms_from_lem t x ps in
      rw (check_term_off (pos t) p off, check_terms_from)
        ((λ h. ((r.0 h).0, ((λ on. absurd (cc (on, off))), (r.0 h).1))), λ h. r.1 (h.0, h.1.1))
  | inl on ↦ elim (check_term_same t p on) [
    | inl (same, q) ↦
        let r = check_terms_from_lem t x ps in
        rw (q, check_terms_from)
          ((λ h. ((r.0 h).0, ((λ _. same), (r.0 h).1))), λ h. r.1 (h.0, h.1.1))
    | inr (differ, q) ↦
        rw (q, check_terms_from) ((λ h. absurd (cc h)), λ h. absurd (differ (h.1.0 on)))
  ]
]

-- With terms that are not negative, `checkTerms` returns a term, not the -1 it starts from, exactly if a
-- server is attached and all attached servers are in that term.
pub check_terms_iff :
    (ps : List Peer) (t : ℕ)
    → All (λ p. pos 0 ≤ℤ p.term) ps
    → (check_terms ps ≡ returns (pos t)) ↔ (SomeConnected ps × InTerm t ps)
unfolding check_terms check_terms_from
check_terms_iff [] t nn = ((λ h. absurd (cc h)), λ h. absurd (h.0.there.0))
check_terms_iff (p ∷ ps) t nn = elim (Bool-cases p.connected) [
  | inr off ↦
      let r = check_terms_iff ps t nn.1 in
      rw (check_term_off (negsuc 0) p off, check_terms, check_terms_from)
        (
          λ h.
              let (s, all) = r.0 h in
              (
                record { peer = s.peer; there = inr s.there; connected = s.connected },
                ((λ on. absurd (cc (on, off))), all),
              ),
          λ h. r.1 (tail_connected p ps off h.0, h.1.1),
        )
  | inl on ↦
      let (u, e) = non_negative p.term nn.0 in
      let r = check_terms_from_lem u (pos t) ps in
      let first : check_terms_from (negsuc 0) (p ∷ ps) ≡ check_terms_from (pos u) ps =
        check_terms_from_first p ps on ∙ ap (λ z. check_terms_from z ps) e in
      (
        λ h.
            let (same, all) = r.0 (sym first ∙ h) in
            (
              record { peer = p; there = inl refl; connected = on },
              ((λ _. e ∙ sym same), subst (λ z. InTerm z ps) (sym (pos-injective t u same)) all),
            ),
        λ h.
            let same : t ≡ u = pos-injective t u (sym (h.1.0 on) ∙ e) in
            first ∙ r.1 (ap pos same, subst (λ z. InTerm z ps) same h.1.1),
      )
]
  where
    tail_connected :
        (p : Peer) (ps : List Peer)
        → p.connected ≡ false
        → SomeConnected (p ∷ ps)
        → SomeConnected ps
    tail_connected p ps off s = elim s.there [
      | inl e ↦ absurd (cc (e, off, s.connected))
      | inr m ↦ record { peer = s.peer; there = m; connected = s.connected }
    ]

    non_negative : (z : ℤ) → pos 0 ≤ℤ z → (u : ℕ) × (z ≡ pos u)
    non_negative (pos u) h = (u, refl)
    non_negative (negsuc u) h = absurd (omega (arith, h))

-- `checkNoLeader` returns exactly if no attached server claims to lead.
pub check_no_leader_iff :
    (ps : List Peer)
    → (check_no_leader ps ≡ returns tt) ↔ All (λ p. p.connected ≡ true → p.leader ≡ false) ps
unfolding check_no_leader
check_no_leader_iff [] = ((λ h. tt), λ h. refl)
check_no_leader_iff (p ∷ ps) =
    let r = check_no_leader_iff ps in
    elim (Bool-cases p.connected) [
      | inr off ↦ rw (off, check_no_leader) ((λ h. ((λ on. absurd (cc on)), r.0 h)), λ h. r.1 h.1)
      | inl on ↦ elim (Bool-cases p.leader) [
        | inl leads ↦ (
          λ h. absurd (cc (rw (on, leads, check_no_leader) at h)),
          λ h. absurd (cc (h.0 on, leads)),
        )
        | inr follows ↦ (
          λ h. ((λ _. follows), r.0 (rw (on, follows, check_no_leader) at h)),
          λ h. rw (on, follows, check_no_leader) (r.1 h.1),
        )
      ]
    ]

-- The number is the largest of the one given and the sizes.
abbrev IsLargest : ℕ → List Persister → ℕ → Type 0
IsLargest logsize saved x =
    (logsize ≤ x)
    × All (λ ps. raft_state_size ps ≤ x) saved
    × ((x ≡ logsize) ⊎ ((ps : Persister) × In ps saved × (raft_state_size ps ≡ x)))

log_size_from_lem :
    (logsize : ℕ) (saved : List Persister) → IsLargest logsize saved (log_size_from logsize saved)
unfolding log_size_from
log_size_from_lem logsize [] = (omega arith, tt, inl refl)
log_size_from_lem logsize (ps ∷ rest) = elim (Bool-cases (ltb logsize (raft_state_size ps))) [
  | inl grows ↦
      let (le, all, attained) = log_size_from_lem (raft_state_size ps) rest in
      let step : log_size_from (raft_state_size ps) rest ≡ log_size_from logsize (ps ∷ rest) =
        rw (grows, log_size_from) refl in
      subst (IsLargest logsize (ps ∷ rest)) step (
        ground (arith, le, grows),
        (le, all),
        elim attained [ inl e ↦ inr (ps, inl refl, sym e) | inr (x, m, e) ↦ inr (x, inr m, e) ],
      )
  | inr stays ↦
      let (le, all, attained) = log_size_from_lem logsize rest in
      let step : log_size_from logsize rest ≡ log_size_from logsize (ps ∷ rest) =
        rw (stays, log_size_from) refl in
      subst (IsLargest logsize (ps ∷ rest)) step (
        le,
        (ground (arith, le, stays), all),
        elim attained [ inl e ↦ inl e | inr (x, m, e) ↦ inr (x, inr m, e) ],
      )
]

-- `LogSize` is the largest size of the servers' saved states: no state is larger, and, unless it is 0,
-- some state has it.
pub log_size_lem :
    (saved : List Persister)
    → All (λ ps. raft_state_size ps ≤ log_size saved) saved
      × ((log_size saved ≡ 0)
          ⊎ ((ps : Persister) × In ps saved × (raft_state_size ps ≡ log_size saved)))
unfolding log_size
log_size_lem saved = let (_, all, attained) = log_size_from_lem 0 saved in (all, attained)

-- ===== src/Raft/Servers/Ends.antt =====
-- The loops of lab2/raft/config.go over ends: what they leave of the network, and what they make.
use cs426_spring2022_labs.Common.{
  ℕ, zero, suc, ◌<◌, ◌≡◌, ◌≢◌, refl, sym, ap, ◌∙◌, inl, inr, Bool, true, false, Option, none, some,
  List, [], ◌∷◌, ◌++◌, returns, >>=-eq-returns, Key, nat_key, Bool-cases, Option-cases, arith,
}
use cs426_spring2022_labs.Common.GoMap.{
  get, get_or, insert, get-insert_ne, get_or-insert_self, get_or-insert_ne,
}
use cs426_spring2022_labs.Rpc.Network.{Network, make_end, connect, enable}
use cs426_spring2022_labs.Raft.Connections.{upto, enable_one, enable_each}
use cs426_spring2022_labs.Raft.Connections.Loops.{is_enabled}
use cs426_spring2022_labs.Raft.Servers.{make_ends}

module _ {E : Type 0} ⦃end_key : Key E⦄ where
  -- The networks differ at most in the ends that are enabled.
  pub record SameWires (net net' : Network E ℕ) : Type 0 where
    pub ends : net'.ends ≡ net.ends
    pub connections : net'.connections ≡ net.connections
    pub servers : net'.servers ≡ net.servers

  SameWires-trans : (a b c : Network E ℕ) → SameWires a b → SameWires b c → SameWires a c
  SameWires-trans a b c p q = record {
    ends = q.ends ∙ p.ends;
    connections = q.connections ∙ p.connections;
    servers = q.servers ∙ p.servers;
  }

  -- No end is enabled.
  abbrev pub AllOff : Network E ℕ → Type 0
  AllOff net = (e : E) → is_enabled net e ≡ false

  pub enable_each-SameWires :
      (test : ℕ → Bool) (endname : ℕ → Option E) (on : Bool) (js : List ℕ) (net net' : Network E ℕ)
      → enable_each test endname on js net ≡ returns net'
      → SameWires net net'
  unfolding enable_each enable_one enable
  enable_each-SameWires test endname on [] net net' h =
      let same : net ≡ net' = cc h in
      rw (← same) (record { ends = refl; connections = refl; servers = refl })
  enable_each-SameWires test endname on (j ∷ js) net net' h = elim (Bool-cases (test j)) [
    | inr off ↦
        enable_each-SameWires test endname on js net net' (rw (off, enable_each, enable_one) at h)
    | inl yes_ ↦ elim (Option-cases (endname j)) [
      | inl e ↦ absurd (cc (rw (yes_, e, enable_each, enable_one) at h))
      | inr (x, e) ↦
          SameWires-trans net (enable net x on) net'
            (record { ends = refl; connections = refl; servers = refl })
            (enable_each-SameWires test endname on js (enable net x on) net'
              (rw (yes_, e, enable_each, enable_one) at h))
    ]
  ]

  -- A loop that disables ends returns if each end that it comes to has a name.
  pub disable_each :
      (test : ℕ → Bool) (endname : ℕ → Option E) (js : List ℕ) (net : Network E ℕ)
      → ((j : ℕ) → test j ≡ true → (e : E) × (endname j ≡ some e))
      → AllOff net
      → (net' : Network E ℕ) × (enable_each test endname false js net ≡ returns net') × AllOff net'
  unfolding enable_each enable_one enable
  disable_each test endname [] net named off = (net, refl, off)
  disable_each test endname (j ∷ js) net named off = elim (Bool-cases (test j)) [
    | inr no_ ↦
        let (net', q, off') = disable_each test endname js net named off in
        (net', rw (no_, enable_each, enable_one) q, off')
    | inl yes_ ↦
        let (x, e) = named j yes_ in
        let still : AllOff (enable net x false) = λ f. elim (end_key.same f x) [
          | yes p ↦ rw p (get_or-insert_self net.enabled x false false)
          | no ne ↦ get_or-insert_ne net.enabled x f false false ne ∙ off f
        ] in
        let (net', q, off') = disable_each test endname js (enable net x false) named still in
        (net', rw (yes_, e, enable_each, enable_one) q, off')
  ]

  -- What `make_ends` makes for the servers below `m`.
  pub record Makes (names : ℕ → E) (m : ℕ) (net net' : Network E ℕ) : Type 0 where
    pub off : AllOff net'
    pub servers : net'.servers ≡ net.servers
    pub connected : (j : ℕ) → j < m → get_or net'.connections (names j) none ≡ some j
    pub taken : (e : E) → ((j : ℕ) → j < m → e ≢ names j) → get net'.ends e ≡ get net.ends e
    pub others :
        (e : E)
        → ((j : ℕ) → j < m → e ≢ names j)
        → get_or net'.connections e none ≡ get_or net.connections e none

  make_ends-append :
      (names : ℕ → E) (js : List ℕ) (k : ℕ) (net mid : Network E ℕ)
      → make_ends names js net ≡ returns mid
      → make_ends names (js ++ k ∷ []) net ≡ make_ends names (k ∷ []) mid
  unfolding make_ends
  make_ends-append names [] k net mid h = ap (make_ends names (k ∷ [])) (cc h)
  make_ends-append names (j ∷ js) k net mid h =
      let (made, q, r) =
        >>=-eq-returns (make_end net (names j))
          (λ made. make_ends names js (connect made (names j) j)) mid h in
      rw q (make_ends-append names js k (connect made (names j) j) mid r)

  with_end : E → ℕ → Network E ℕ → Network E ℕ
  with_end e j net = record net {
    ends = insert net.ends e tt;
    enabled = insert net.enabled e false;
    connections = insert (insert net.connections e none) e (some j);
  }

  make_one :
      (names : ℕ → E) (m : ℕ) (net : Network E ℕ)
      → get net.ends (names m) ≡ none
      → make_ends names (m ∷ []) net ≡ returns (with_end (names m) m net)
  unfolding make_ends make_end connect with_end
  make_one names m net e = rw (e, make_ends, make_end) refl

  pub make_ends_lem :
      (names : ℕ → E) (m : ℕ) (net : Network E ℕ)
      → ((j : ℕ) → j < m → get net.ends (names j) ≡ none)
      → ((j k : ℕ) → j < m → k < m → names j ≡ names k → j ≡ k)
      → AllOff net
      → (net' : Network E ℕ) × (make_ends names (upto m) net ≡ returns net')
        × Makes names m net net'
  unfolding make_ends with_end
  make_ends_lem names zero net fresh apart off = (
    net,
    refl,
    record {
      off = off;
      servers = refl;
      connected = λ j lt. absurd (omega (arith, lt));
      taken = λ e ne. refl;
      others = λ e ne. refl;
    },
  )
  make_ends_lem names (suc m) net fresh apart off =
      let (mid, q, p) =
        make_ends_lem names m net (λ j lt. fresh j (omega (arith, lt)))
          (λ j k lt lt'. apart j k (omega (arith, lt)) (omega (arith, lt'))) off in
      let apart' : (j : ℕ) → j < m → names m ≢ names j =
        λ j lt e. omega (arith, lt, apart m j (omega arith) (omega (arith, lt)) e) in
      let free : get mid.ends (names m) ≡ none = p.taken (names m) apart' ∙ fresh m (omega arith) in
      let net' : Network E ℕ = with_end (names m) m mid in
      (
        net',
        make_ends-append names (upto m) m net mid q ∙ make_one names m mid free,
        record {
          off = λ e. elim (end_key.same e (names m)) [
            | yes s ↦ rw s (get_or-insert_self mid.enabled (names m) false false)
            | no ne ↦ get_or-insert_ne mid.enabled (names m) e false false ne ∙ p.off e
          ];
          servers = p.servers;
          connected = λ j lt. elim (nat_key.same j m) [
            | yes e ↦
                rw e (
                  get_or-insert_self (insert mid.connections (names m) none) (names m) (some m)
                    none)
            | no ne ↦
                let lt' : j < m = omega (arith, lt, ne) in
                let ne' : names j ≢ names m = λ e. apart' j lt' (sym e) in
                get_or-insert_ne (insert mid.connections (names m) none) (names m) (names j)
                  (some m) none ne'
                ∙ get_or-insert_ne mid.connections (names m) (names j) none none ne'
                ∙ p.connected j lt'
          ];
          taken = λ e ne.
              get-insert_ne mid.ends (names m) e tt (ne m (omega arith))
              ∙ p.taken e (λ j lt. ne j (omega (arith, lt)));
          others = λ e ne.
              get_or-insert_ne (insert mid.connections (names m) none) (names m) e (some m) none
                (ne m (omega arith))
              ∙ get_or-insert_ne mid.connections (names m) e none none (ne m (omega arith))
              ∙ p.others e (λ j lt. ne j (omega (arith, lt)));
        },
      )

-- ===== src/Raft/Connections/Attached.antt =====
-- Which ends are enabled after `connect` and `disconnect` of lab2/raft/config.go.
use cs426_spring2022_labs.Common.{
  ℕ, ◌<◌, ◌≡◌, refl, ap, sym, ◌∙◌, inl, inr, Bool, true, false, ◌&&◌, some, returns, Heap, write,
  write_self, write_ne, Key, nat_key, Bool-cases,
}
use cs426_spring2022_labs.Rpc.Network.{Network}
use cs426_spring2022_labs.Raft.Connections.{
  Config, upto, at_index, is_made, enable_each, connect, disconnect,
}
use cs426_spring2022_labs.Raft.Connections.Loops.{In-upto, upto-below, is_enabled, enable_each_lem}

both_true : (x y : Bool) → x ≡ true → y ≡ true → true ≡ (x && y)
both_true x y p q = rw (p, q) refl

left_false : (x y : Bool) → x ≡ false → (x && y) ≡ false
left_false x y p = rw p refl

right_false : (x y : Bool) → y ≡ false → (x && y) ≡ false
right_false true y p = p
right_false false y p = refl

not_self : (conn : Heap Bool) (i j : ℕ) → write conn i true j ≡ false → ¬ (j ≡ i)
not_self conn i j off e = cc (write_self conn i true, e, off)

-- Every server was started, so it has its end names, and no name was drawn twice.
pub record IsWired {E : Type 0} (cfg : Config E) (names : ℕ → ℕ → E) : Type 0 where
  pub made : (i : ℕ) → i < cfg.n → cfg.endnames i ≡ some (names i)
  pub apart :
      (a b c d : ℕ)
      → a < cfg.n
      → b < cfg.n
      → c < cfg.n
      → d < cfg.n
      → names a b ≡ names c d
      → (a ≡ c) × (b ≡ d)

module _ {E : Type 0} ⦃end_key : Key E⦄ where
  -- The end from server `a` to server `b` is enabled exactly if both are attached.
  unfoldable pub Attached : Config E → (ℕ → ℕ → E) → Type 0
  Attached cfg names =
      (a b : ℕ)
      → a < cfg.n
      → b < cfg.n
      → is_enabled cfg.net (names a b) ≡ (cfg.connected a && cfg.connected b)

  -- What the two loops over the ends of server `i` do.
  record Rewires (n : ℕ) (names : ℕ → ℕ → E) (i : ℕ) (out into : ℕ → Bool) (on : Bool)
      (before after : Network E ℕ) : Type 0 where
    outgoing : (b : ℕ) → b < n → out b ≡ true → is_enabled after (names i b) ≡ on
    incoming : (a : ℕ) → a < n → into a ≡ true → is_enabled after (names a i) ≡ on
    others :
        (a b : ℕ)
        → a < n
        → b < n
        → (a ≡ i → out b ≡ false)
        → (b ≡ i → into a ≡ false)
        → is_enabled after (names a b) ≡ is_enabled before (names a b)

  both_loops :
      (cfg : Config E) (names : ℕ → ℕ → E) (i : ℕ) (out into : ℕ → Bool) (on : Bool)
      → IsWired cfg names
      → i < cfg.n
      → (net net' : Network E ℕ) × (enable_each out
            (at_index (cfg.endnames i))
            on
            (upto cfg.n)
            cfg.net
          ≡ returns net)
        × (enable_each into (λ j. at_index (cfg.endnames j) i) on (upto cfg.n) net ≡ returns net')
        × Rewires cfg.n names i out into on cfg.net net'
  both_loops cfg names i out into on w below =
      let (net, q, s) =
        enable_each_lem out (at_index (cfg.endnames i)) (names i) on (upto cfg.n) cfg.net
          (λ j m. ap (λ o. at_index o j) (w.made i below)) in
      let (net', q', s') =
        enable_each_lem into (λ j. at_index (cfg.endnames j) i) (λ j. names j i) on (upto cfg.n) net
          (λ j m. ap (λ o. at_index o i) (w.made j (upto-below j cfg.n m))) in
      (
        net,
        net',
        q,
        q',
        record {
          outgoing = λ b lt t. s'.stays (names i b) (s.hit b (In-upto b cfg.n lt) t);
          incoming = λ a lt t. s'.hit a (In-upto a cfg.n lt) t;
          others = λ a b la lb no_out no_into.
              s'.miss (names a b) (λ j m t e.
                let (p, r) = w.apart a b j i la lb (upto-below j cfg.n m) below e in
                cc (no_into r, p, t))
              ∙ s.miss (names a b) (λ j m t e.
                let (p, r) = w.apart a b i j la lb below (upto-below j cfg.n m) e in
                cc (no_out p, r, t));
        },
      )

  connect_ends :
      (n : ℕ) (names : ℕ → ℕ → E) (i : ℕ) (conn : Heap Bool) (before after : Network E ℕ)
      → Rewires n names i (write conn i true) (write conn i true) true before after
      → (a b : ℕ) → a < n
      → b < n
      → is_enabled before (names a b) ≡ (conn a && conn b)
      → is_enabled after (names a b) ≡ (write conn i true a && write conn i true b)
  connect_ends n names i conn before after r a b la lb old =
      elim (Bool-cases (write conn i true a)) [
        | inl at_a ↦ elim (Bool-cases (write conn i true b)) [
          | inl at_b ↦ elim (nat_key.same a i) [
            | yes p ↦ rw p (r.outgoing b lb at_b) ∙ both_true _ _ at_a at_b
            | no np ↦ elim (nat_key.same b i) [
              | yes p ↦ rw p (r.incoming a la at_a) ∙ both_true _ _ at_a at_b
              | no nq ↦
                  r.others a b la lb (λ e. absurd (np e)) (λ e. absurd (nq e))
                  ∙ old
                  ∙ cc (write_ne conn i true a np, write_ne conn i true b nq)
            ]
          ]
          | inr off_b ↦
              let nq = not_self conn i b off_b in
              r.others a b la lb (λ e. off_b) (λ e. absurd (nq e))
              ∙ old
              ∙ right_false _ _ (sym (write_ne conn i true b nq) ∙ off_b)
              ∙ sym (right_false _ _ off_b)
        ]
        | inr off_a ↦
            let np = not_self conn i a off_a in
            r.others a b la lb (λ e. absurd (np e)) (λ e. off_a)
            ∙ old
            ∙ left_false _ _ (sym (write_ne conn i true a np) ∙ off_a)
            ∙ sym (left_false _ _ off_a)
      ]

  disconnect_ends :
      (n : ℕ) (names : ℕ → ℕ → E) (i : ℕ) (conn : Heap Bool) (before after : Network E ℕ)
      (out into : ℕ → Bool)
      → ((j : ℕ) → j < n → out j ≡ true)
      → ((j : ℕ) → j < n → into j ≡ true)
      → Rewires n names i out into false before after
      → (a b : ℕ) → a < n
      → b < n
      → is_enabled before (names a b) ≡ (conn a && conn b)
      → is_enabled after (names a b) ≡ (write conn i false a && write conn i false b)
  disconnect_ends n names i conn before after out into all_out all_in r a b la lb old =
      elim (nat_key.same a i) [
        | yes p ↦
            rw p (r.outgoing b lb (all_out b lb) ∙ sym (left_false _ _ (write_self conn i false)))
        | no np ↦ elim (nat_key.same b i) [
          | yes p ↦
              rw p (r.incoming a la (all_in a la) ∙ sym (right_false _ _ (write_self conn i false)))
          | no nq ↦
              r.others a b la lb (λ e. absurd (np e)) (λ e. absurd (nq e))
              ∙ old
              ∙ cc (write_ne conn i false a np, write_ne conn i false b nq)
        ]
      ]

  -- With every server started, all end names different, and exactly the ends between attached servers
  -- enabled, `connect` of one of the servers returns, that server is attached, and all this holds again.
  pub connect_lem :
      (cfg : Config E) (names : ℕ → ℕ → E) (i : ℕ)
      → IsWired cfg names
      → Attached cfg names
      → i < cfg.n
      → (cfg' : Config E) × (connect cfg i ≡ returns cfg')
        × (cfg'.connected i ≡ true)
        × IsWired cfg' names
        × Attached cfg' names
  unfolding connect Attached
  connect_lem cfg names i w att below =
      let connected : Heap Bool = write cfg.connected i true in
      let (net, net', q, q', r) = both_loops cfg names i connected connected true w below in
      (
        record cfg { connected = connected; net = net' },
        rw (q, q') refl,
        write_self cfg.connected i true,
        record { made = w.made; apart = w.apart },
        λ a b la lb.
            connect_ends cfg.n names i cfg.connected cfg.net net' r a b la lb (att a b la lb),
      )

  -- With every server started, all end names different, and exactly the ends between attached servers
  -- enabled, `disconnect` of one of the servers returns, that server is detached, and all this holds
  -- again.
  pub disconnect_lem :
      (cfg : Config E) (names : ℕ → ℕ → E) (i : ℕ)
      → IsWired cfg names
      → Attached cfg names
      → i < cfg.n
      → (cfg' : Config E) × (disconnect cfg i ≡ returns cfg')
        × (cfg'.connected i ≡ false)
        × IsWired cfg' names
        × Attached cfg' names
  unfolding disconnect Attached
  disconnect_lem cfg names i w att below =
      let out : ℕ → Bool = λ j. is_made (cfg.endnames i) in
      let into : ℕ → Bool = λ j. is_made (cfg.endnames j) in
      let (net, net', q, q', r) = both_loops cfg names i out into false w below in
      (
        record cfg { connected = write cfg.connected i false; net = net' },
        rw (q, q') refl,
        write_self cfg.connected i false,
        record { made = w.made; apart = w.apart },
        λ a b la lb.
            disconnect_ends cfg.n names i cfg.connected cfg.net net' out into
              (λ j lt. ap is_made (w.made i below)) (λ j lt. ap is_made (w.made j lt)) r a b la lb
              (att a b la lb),
      )

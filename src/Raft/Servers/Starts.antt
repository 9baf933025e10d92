-- ===== src/Raft/Servers/Starts.antt =====
-- One more server is started, lab2/raft/config.go.
use cs426_spring2022_labs.Common.{
  ℕ, suc, ◌<◌, ◌≤◌, ◌≡◌, refl, sym, ap, ◌∙◌, inl, inr, true, false, none, some, returns, write,
  write_self, write_ne, Key, nat_key, Option-cases, ℕ_discrete, arith,
}
use cs426_spring2022_labs.Common.GoMap.{get, get_or, get_or-insert_self, get_or-insert_ne}
use cs426_spring2022_labs.Rpc.Network.{Network, add_server, delete_server}
use cs426_spring2022_labs.Raft.Disks.{crash, start}
use cs426_spring2022_labs.Raft.Connections.{Config, upto, is_made, at_index, disconnect}
use cs426_spring2022_labs.Raft.Servers.{Cluster, crash1, make_ends, start1}
use cs426_spring2022_labs.Raft.Servers.Ends.{
  SameWires, enable_each-SameWires, AllOff, disable_each, make_ends_lem,
}

-- No name is drawn twice for `n` servers.
pub record Apart {E : Type 0} (n : ℕ) (names : ℕ → ℕ → E) : Type 0 where
  pub apart :
      (a b c d : ℕ) → a < n → b < n → c < n → d < n → names a b ≡ names c d → (a ≡ c) × (b ≡ d)

module _ {E : Type 0} ⦃end_key : Key E⦄ (n : ℕ) (names : ℕ → ℕ → E) (srv : ℕ → ℕ) where
  -- The servers below `k` were started, and none is connected.
  pub record Inv (k : ℕ) (cfg : Config E) : Type 0 where
    pub servers_count : cfg.n ≡ n
    pub detached : (j : ℕ) → cfg.connected j ≡ false
    pub made : (i : ℕ) → i < k → cfg.endnames i ≡ some (names i)
    pub nil : (i : ℕ) → k ≤ i → cfg.endnames i ≡ none
    pub off : AllOff cfg.net
    pub untaken : (a b : ℕ) → k ≤ a → a < n → b < n → get cfg.net.ends (names a b) ≡ none
    pub connected : (a b : ℕ) → a < k → b < n → get_or cfg.net.connections (names a b) none ≡ some b
    pub there : (b : ℕ) → b < k → get_or cfg.net.servers b none ≡ some (srv b)

  named_out :
      (cfg : Config E) (k j : ℕ)
      → is_made (cfg.endnames k) ≡ true
      → (e : E) × (at_index (cfg.endnames k) j ≡ some e)
  named_out cfg k j h = elim (Option-cases (cfg.endnames k)) [
    | inl e ↦ absurd (cc (sym h ∙ ap is_made e))
    | inr (f, e) ↦ (f j, ap (λ o. at_index o j) e)
  ]

  -- The crash before the start detaches the server once more.
  disconnect_off :
      (k : ℕ) (cfg : Config E)
      → Inv k cfg
      → (net : Network E ℕ) × (disconnect cfg k
          ≡ returns (record cfg { net = net; connected = write cfg.connected k false }))
        × AllOff net
        × SameWires cfg.net net
  unfolding disconnect
  disconnect_off k cfg i =
      let (net, q, off) =
        disable_each (λ j. is_made (cfg.endnames k)) (at_index (cfg.endnames k)) (upto cfg.n)
          cfg.net (λ j h. named_out cfg k j h) i.off in
      let (net', q', off') =
        disable_each (λ j. is_made (cfg.endnames j)) (λ j. at_index (cfg.endnames j) k) (upto cfg.n)
          net (λ j h. named_out cfg j k h) off in
      let w = enable_each-SameWires _ _ false (upto cfg.n) cfg.net net q in
      let w' = enable_each-SameWires _ _ false (upto cfg.n) net net' q' in
      (
        net',
        rw (q, q') refl,
        off',
        record {
          ends = w'.ends ∙ w.ends;
          connections = w'.connections ∙ w.connections;
          servers = w'.servers ∙ w.servers;
        },
      )

  start1_eq :
      (k : ℕ) (c : Cluster E) (cfg : Config E) (net : Network E ℕ)
      → disconnect c.cfg k ≡ returns cfg
      → make_ends (names k) (upto cfg.n) (delete_server cfg.net k) ≡ returns net
      → start1 c k (names k) (srv k)
        ≡ returns (record {
          cfg = record cfg {
            endnames = write cfg.endnames k (some (names k));
            net = add_server net k (srv k);
          };
          disks = start (crash c.disks k) k (names k);
        })
  unfolding start1 crash1
  start1_eq k c cfg net q q' = rw (q, q') refl

  pub start1-Inv :
      (k : ℕ) (c : Cluster E)
      → Apart n names
      → k < n
      → Inv k c.cfg
      → (c' : Cluster E) × (start1 c k (names k) (srv k) ≡ returns c') × Inv (suc k) c'.cfg
  unfolding start1 crash1 add_server delete_server
  start1-Inv k c d below i =
      let (net, q, off, w) = disconnect_off k c.cfg i in
      let deleted : Network E ℕ = delete_server net k in
      let (net', q', m) =
        make_ends_lem (names k) n deleted
          (λ j lt. ap (λ m. get m (names k j)) w.ends ∙ i.untaken k j (omega arith) below lt)
          (λ j l lt lt' e. (d.apart k j k l below lt below lt' e).1) off in
      let q'' : make_ends (names k) (upto c.cfg.n) deleted ≡ returns net' =
        ap (λ m. make_ends (names k) (upto m) deleted) i.servers_count ∙ q' in
      let c' : Cluster E = record {
        cfg = record c.cfg {
          connected = write c.cfg.connected k false;
          endnames = write c.cfg.endnames k (some (names k));
          net = add_server net' k (srv k);
        };
        disks = start (crash c.disks k) k (names k);
      } in
      (
        c',
        start1_eq k c (record c.cfg { net = net; connected = write c.cfg.connected k false }) net' q
            q'',
        record {
          servers_count = i.servers_count;
          detached = λ j. elim (ℕ_discrete j k) [
            | yes e ↦ rw e (write_self c.cfg.connected k false)
            | no ne ↦ write_ne c.cfg.connected k false j ne ∙ i.detached j
          ];
          made = λ j lt. elim (ℕ_discrete j k) [
            | yes e ↦ rw e (write_self c.cfg.endnames k (some (names k)))
            | no ne ↦
                write_ne c.cfg.endnames k (some (names k)) j ne ∙ i.made j (omega (arith, lt, ne))
          ];
          nil = λ j le.
              write_ne c.cfg.endnames k (some (names k)) j (λ e. omega (arith, e, le))
              ∙ i.nil j (omega (arith, le));
          off = m.off;
          untaken = λ a b le la lb.
              m.taken (names a b)
                (λ j lt e. omega (arith, le, (d.apart a b k j la lb below lt e).0))
              ∙ ap (λ m. get m (names a b)) w.ends
              ∙ i.untaken a b (omega (arith, le)) la lb;
          connected = λ a b lt lb. elim (ℕ_discrete a k) [
            | yes e ↦ rw e (m.connected b lb)
            | no ne ↦
                let lt' : a < k = omega (arith, lt, ne) in
                m.others (names a b)
                  (λ j lt'' e. ne (d.apart a b k j (omega (arith, lt', below)) lb below lt'' e).0)
                ∙ ap (λ m. get_or m (names a b) none) w.connections
                ∙ i.connected a b lt' lb
          ];
          there = λ b lt. elim (ℕ_discrete b k) [
            | yes e ↦ rw e (get_or-insert_self net'.servers k (some (srv k)) none)
            | no ne ↦
                get_or-insert_ne net'.servers k b (some (srv k)) none ne
                ∙ ap (λ m. get_or m b none) m.servers
                ∙ get_or-insert_ne net.servers k b none none ne
                ∙ ap (λ m. get_or m b none) w.servers
                ∙ i.there b (omega (arith, lt, ne))
          ];
        },
      )

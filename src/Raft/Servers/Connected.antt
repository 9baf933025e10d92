-- ===== src/Raft/Servers/Connected.antt =====
-- The network after `make_config` of lab2/raft/config.go.
use cs426_spring2022_labs.Common.{
  ℕ, zero, suc, ◌<◌, ◌≤◌, ◌≡◌, refl, ap, ◌∙◌, subst, Bool, true, none, some, List, [], ◌∷◌, ◌++◌,
  returns, ◌>>=◌, >>=-eq-returns, write, write_ne, Key, nat_key, ℕ_discrete, arith,
}
use cs426_spring2022_labs.Common.GoMap.{get, get_or}
use cs426_spring2022_labs.Rpc.Network.{read_endname_info}
use cs426_spring2022_labs.Rpc.Network.Reachable.{Reaches}
use cs426_spring2022_labs.Raft.Disks.{Raft, no_disks}
use cs426_spring2022_labs.Raft.Connections.{Config, upto, at_index, enable_each, connect}
use cs426_spring2022_labs.Raft.Connections.Attached.{IsWired, Attached, connect_lem}
use cs426_spring2022_labs.Raft.Servers.{
  Cluster, start1, start_each, connect_each, empty_config, make_config,
}
use cs426_spring2022_labs.Raft.Servers.Ends.{SameWires, enable_each-SameWires}
use cs426_spring2022_labs.Raft.Servers.Starts.{Apart, Inv, start1-Inv}

module _ {E : Type 0} ⦃end_key : Key E⦄ (n : ℕ) (names : ℕ → ℕ → E) (srv : ℕ → ℕ) where
  start_each-append :
      (js : List ℕ) (k : ℕ) (c mid last : Cluster E)
      → start_each names srv js c ≡ returns mid
      → start1 mid k (names k) (srv k) ≡ returns last
      → start_each names srv (js ++ k ∷ []) c ≡ returns last
  unfolding start_each
  start_each-append [] k c mid last h q =
      let same : c ≡ mid = cc h in
      ap (λ c. start1 c k (names k) (srv k) >>= start_each names srv []) same ∙ rw q refl
  start_each-append (j ∷ js) k c mid last h q =
      let (next, p, r) =
        >>=-eq-returns (start1 c j (names j) (srv j)) (start_each names srv js) mid h in
      rw p (start_each-append js k next mid last r q)

  all_start :
      (k : ℕ) (c : Cluster E)
      → Apart n names
      → k ≤ n
      → Inv n names srv 0 c.cfg
      → (c' : Cluster E) × (start_each names srv (upto k) c ≡ returns c') × Inv n names srv k c'.cfg
  unfolding start_each
  all_start zero c d le i = (c, refl, i)
  all_start (suc k) c d le i =
      let (mid, q, j) = all_start k c d (omega (arith, le)) i in
      let (last, q', j') = start1-Inv n names srv k mid d (omega (arith, le)) j in
      (last, start_each-append (upto k) k c mid last q q', j')

  -- All servers are started, and those below `m` are attached.
  record Wired (m : ℕ) (cfg : Config E) : Type 0 where
    count : cfg.n ≡ n
    wired : IsWired cfg names
    attached : Attached cfg names
    on : (j : ℕ) → j < m → cfg.connected j ≡ true
    connected : (a b : ℕ) → a < n → b < n → get_or cfg.net.connections (names a b) none ≡ some b
    there : (b : ℕ) → b < n → get_or cfg.net.servers b none ≡ some (srv b)

  connect_shape :
      (cfg cfg' : Config E) (i : ℕ)
      → connect cfg i ≡ returns cfg'
      → (cfg'.connected ≡ write cfg.connected i true)
        × (cfg'.n ≡ cfg.n)
        × SameWires cfg.net cfg'.net
  unfolding connect
  connect_shape cfg cfg' i h =
      let conn = write cfg.connected i true in
      let (net, q, r) =
        >>=-eq-returns (enable_each conn (at_index (cfg.endnames i)) true (upto cfg.n) cfg.net) _
          cfg' h in
      let (net', q', r') =
        >>=-eq-returns (enable_each conn (λ j. at_index (cfg.endnames j) i) true (upto cfg.n) net)
          (λ net'. returns (record cfg { connected = conn; net = net' })) cfg' r in
      let same : record cfg { connected = conn; net = net' } ≡ cfg' = cc r' in
      let w = enable_each-SameWires _ _ true (upto cfg.n) cfg.net net q in
      let w' = enable_each-SameWires _ _ true (upto cfg.n) net net' q' in
      subst (λ (x : Config E). (x.connected ≡ conn) × (x.n ≡ cfg.n) × SameWires cfg.net x.net) same
        (
          refl,
          refl,
          record {
            ends = w'.ends ∙ w.ends;
            connections = w'.connections ∙ w.connections;
            servers = w'.servers ∙ w.servers;
          },
        )

  connect-Wired :
      (m : ℕ) (cfg : Config E)
      → m < n
      → Wired m cfg
      → (cfg' : Config E) × (connect cfg m ≡ returns cfg') × Wired (suc m) cfg'
  connect-Wired m cfg lt w =
      let (cfg', q, on, wired, attached) =
        connect_lem cfg names m w.wired w.attached (omega (arith, lt, w.count)) in
      let (conn, count, same) = connect_shape cfg cfg' m q in
      (
        cfg',
        q,
        record {
          count = count ∙ w.count;
          wired = wired;
          attached = attached;
          on = λ j below. elim (ℕ_discrete j m) [
            | yes e ↦ rw e on
            | no ne ↦
                ap (λ h. h j) conn
                ∙ write_ne cfg.connected m true j ne
                ∙ w.on j (omega (arith, below, ne))
          ];
          connected = λ a b la lb.
              ap (λ m. get_or m (names a b) none) same.connections ∙ w.connected a b la lb;
          there = λ b lb. ap (λ m. get_or m b none) same.servers ∙ w.there b lb;
        },
      )

  connect_each-append :
      (js : List ℕ) (k : ℕ) (cfg mid last : Config E)
      → connect_each js cfg ≡ returns mid
      → connect mid k ≡ returns last
      → connect_each (js ++ k ∷ []) cfg ≡ returns last
  unfolding connect_each
  connect_each-append [] k cfg mid last h q =
      let same : cfg ≡ mid = cc h in ap (λ c. connect c k >>= connect_each []) same ∙ rw q refl
  connect_each-append (j ∷ js) k cfg mid last h q =
      let (next, p, r) = >>=-eq-returns (connect cfg j) (connect_each js) mid h in
      rw p (connect_each-append js k next mid last r q)

  all_connect :
      (m : ℕ) (cfg : Config E)
      → m ≤ n
      → Wired 0 cfg
      → (cfg' : Config E) × (connect_each (upto m) cfg ≡ returns cfg') × Wired m cfg'
  unfolding connect_each
  all_connect zero cfg le w = (cfg, refl, w)
  all_connect (suc m) cfg le w =
      let (mid, q, v) = all_connect m cfg (omega (arith, le)) w in
      let (last, q', v') = connect-Wired m mid (omega (arith, le)) v in
      (last, connect_each-append (upto m) m cfg mid last q q', v')

  empty-Inv : (unreliable : Bool) → Inv n names srv 0 (empty_config n unreliable)
  unfolding get_or get
  empty-Inv unreliable = record {
    servers_count = refl;
    detached = λ j. refl;
    made = λ i lt. absurd (omega (arith, lt));
    nil = λ i le. refl;
    off = λ e. refl;
    untaken = λ a b le la lb. refl;
    connected = λ a b lt lb. absurd (omega (arith, lt));
    there = λ b lt. absurd (omega (arith, lt));
  }

  Inv-Wired : (cfg : Config E) → Apart n names → Inv n names srv n cfg → Wired 0 cfg
  unfolding Attached
  Inv-Wired cfg d i = record {
    count = i.servers_count;
    wired = record {
      made = λ j lt. i.made j (omega (arith, lt, i.servers_count));
      apart = λ a b c e la lb lc le.
          let s = i.servers_count in
          d.apart a b c e (omega (arith, la, s)) (omega (arith, lb, s)) (omega (arith, lc, s))
            (omega (arith, le, s));
    };
    attached = λ a b la lb. i.off (names a b) ∙ rw (i.detached a) refl;
    on = λ j lt. absurd (omega (arith, lt));
    connected = i.connected;
    there = i.there;
  }

  -- If no end name is drawn twice, `make_config` returns, all servers are attached, and the end that it
  -- made from any server to any other reaches the server that was started last under that number.
  pub make_config_lem :
      (unreliable : Bool) (rf : Raft E)
      → Apart n names
      → (c : Cluster E) × (make_config n unreliable names srv rf ≡ returns c)
        × ((j : ℕ) → j < n → c.cfg.connected j ≡ true)
        × ((a b : ℕ) → a < n → b < n → Reaches (read_endname_info c.cfg.net (names a b)) b (srv b))
  unfolding make_config read_endname_info Attached
  make_config_lem unreliable rf d =
      let c₀ : Cluster E = record { cfg = empty_config n unreliable; disks = no_disks rf } in
      let (c, q, i) = all_start n c₀ d (omega arith) (empty-Inv unreliable) in
      let (cfg, q', w) = all_connect n c.cfg (omega arith) (Inv-Wired c.cfg d i) in
      (
        record c { cfg = cfg },
        rw (q, q') refl,
        w.on,
        λ a b la lb. record {
          enabled =
              w.attached a b (omega (arith, la, w.count)) (omega (arith, lb, w.count))
              ∙ rw (w.on a la, w.on b lb) refl;
          connected = w.connected a b la lb;
          there = rw (w.connected a b la lb) (w.there b lb);
        },
      )

-- ===== src/Rpc/Network/Reachable.antt =====
-- Which server an end reaches, lab2/labrpc/labrpc.go, and how the network's methods change it.
use cs426_spring2022_labs.Common.{
  ◌⊎◌, ℕ, ◌+◌, ◌^◌, ◌<◌, ◌≡◌, ◌≢◌, ◌↔◌, refl, ap, ◌∙◌, true, false, Option, none, some, pos,
  returns, exits, arith, Key, Option-cases, inl, inr,
}
use cs426_spring2022_labs.Common.GoMap.{
  get, get_or, insert, get_or-insert_self, get_or-insert_ne, get-insert_self,
}
use cs426_spring2022_labs.Rpc.Server.{ReqMsg}
use cs426_spring2022_labs.Rpc.Network.{
  Network, EndnameInfo, receive, server_at, read_endname_info, is_server_dead, option_same,
  make_end, add_server, delete_server, connect, enable, get_total_count,
}

option_same_iff : (a b : Option ℕ) → (option_same a b ≡ true) ↔ (a ≡ b)
option_same_iff none none = ground arith
option_same_iff none (some b) = ground arith
option_same_iff (some a) none = ground arith
option_same_iff (some a) (some b) = ground arith

-- Requests that find this information reach the server.
pub record Reaches {S : Type 0} (info : EndnameInfo S) (servername : S) (server : ℕ) : Type 0 where
  pub enabled : info.enabled ≡ true
  pub connected : info.servername ≡ some servername
  pub there : info.server ≡ some server

module _ {E S : Type 0} ⦃end_key : Key E⦄ ⦃server_key : Key S⦄ where
  -- `isServerDead` answers false exactly if the end is enabled and the name still stands for the
  -- server that was read at the start.
  pub is_server_dead_iff :
      (rn : Network E S) (endname : E) (servername : S) (server : ℕ)
      → (is_server_dead rn endname servername server ≡ false) ↔ (
          (get_or rn.enabled endname false ≡ true)
          × (get_or rn.servers servername none ≡ some server))
  unfolding is_server_dead
  is_server_dead_iff rn endname servername server =
      let same = option_same_iff (get_or rn.servers servername none) (some server) in
      (λ h. ground (arith, same), λ h. ground (arith, same))

  -- A new end stops the program if its name is taken. Otherwise it is disabled and unconnected, the
  -- information of every other end is as before, and its name is taken from now on.
  pub make_end_lem :
      (rn : Network E S) (endname : E)
      → ((get rn.ends endname ≡ some tt) × (make_end rn endname ≡ exits))
        ⊎ ((rn' : Network E S) × (make_end rn endname ≡ returns rn')
            × ((read_endname_info rn' endname).enabled ≡ false)
            × ((read_endname_info rn' endname).servername ≡ none)
            × ((e : E) → e ≢ endname → read_endname_info rn' e ≡ read_endname_info rn e)
            × (make_end rn' endname ≡ exits))
  unfolding make_end read_endname_info
  make_end_lem rn endname = elim (Option-cases (get rn.ends endname)) [
    | inl e ↦
        let rn' : Network E S = record rn {
          ends = insert rn.ends endname tt;
          enabled = insert rn.enabled endname false;
          connections = insert rn.connections endname none;
        } in
        inr (
          rn',
          rw (e, make_end),
          get_or-insert_self rn.enabled endname false false,
          get_or-insert_self rn.connections endname none none,
          λ x ne.
              rw
                (
                  get_or-insert_ne rn.enabled endname x false false ne,
                  get_or-insert_ne rn.connections endname x none none ne,
                )
                refl,
          rw (get-insert_self rn.ends endname tt, make_end),
        )
    | inr (u, e) ↦ inl (e, rw (e, make_end))
  ]

  -- Once it is enabled and connected to a name under which a server was added, an end reaches that
  -- server.
  pub reaches_connected :
      (rn : Network E S) (endname : E) (servername : S) (server : ℕ)
      → Reaches
          (read_endname_info
            (enable (connect (add_server rn servername server) endname servername) endname true)
            endname)
          servername
          server
  unfolding read_endname_info enable connect add_server
  reaches_connected rn endname servername server = record {
    enabled = get_or-insert_self rn.enabled endname true false;
    connected = get_or-insert_self rn.connections endname (some servername) none;
    there =
        ap (λ c. server_at (add_server rn servername server) c)
          (get_or-insert_self rn.connections endname (some servername) none)
        ∙ get_or-insert_self rn.servers servername (some server) none;
  }

  -- After `DeleteServer` no end reaches a server under that name; the ends that are connected to
  -- another name keep all their information.
  pub delete_server_lem :
      (rn : Network E S) (servername : S) (endname : E)
      → let info = read_endname_info (delete_server rn servername) endname in
        (info.servername ≡ some servername → info.server ≡ none)
        × ((info.servername ≢ some servername) → info ≡ read_endname_info rn endname)
  unfolding read_endname_info delete_server
  delete_server_lem rn servername endname = (
    λ h. rw (h, server_at) (get_or-insert_self rn.servers servername none none),
    λ h. elim (Option-cases (get_or rn.connections endname none)) [
      | inl e ↦ rw (e, server_at)
      | inr (s, e) ↦
          rw (e, server_at)
            (rw (get_or-insert_ne rn.servers servername s none none (λ p. h (e ∙ ap some p))))
    ],
  )

  -- The count of requests, while it is below 2 ^ 31 - 1, goes up by one with each that is received.
  pub receive_counts :
      (rn : Network E S) (req : ReqMsg E)
      → rn.count + 1 < 2 ^ 31
      → get_total_count (receive rn req) ≡ pos (rn.count + 1)
  unfolding receive get_total_count
  receive_counts rn req h = ground arith

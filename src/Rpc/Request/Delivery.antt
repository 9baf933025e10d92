-- ===== src/Rpc/Request/Delivery.antt =====
-- When `processReq` of lab2/labrpc/labrpc.go delivers, fails, or still waits.
use cs426_spring2022_labs.Common.{
  ℕ, ◌≤◌, ◌≡◌, ◌⊎◌, refl, sym, ◌∙◌, ◌++◌, ◌∷◌, length, ltb, ◌%◌, Bool-cases, Bool, true, false,
  Option, none, some, List, arith, Key, All, inl, inr,
}
use cs426_spring2022_labs.Common.GoMap.{get_or}
use cs426_spring2022_labs.Rpc.Server.{ReplyMsg}
use cs426_spring2022_labs.Rpc.Network.{Network, EndnameInfo, read_endname_info, is_server_dead}
use cs426_spring2022_labs.Rpc.Network.Reachable.{Reaches, is_server_dead_iff}
use cs426_spring2022_labs.Rpc.Request.{
  Event, handler_returns, Draws, Answer, wait_loop, finish, process_reachable, no_reply,
  dispatch_info, process_req,
}
use cs426_spring2022_labs.Rpc.Request.Replies.{
  Waits, Delivered, wait_loop-Waits, wait_loop-reply, process_reachable_ok,
}

module _ {E S : Type 0} ⦃end_key : Key E⦄ ⦃server_key : Key S⦄ (endname : E) (draws : Draws)
    (at_start : Network E S) (events : List (Event E S)) (at_end : Network E S) where
  -- Either the end reaches a server, or the request fails without a call.
  dispatch_cases :
      (info : EndnameInfo S) (enabled : Bool) (servername : Option S) (server : Option ℕ)
      → ((s : S) × (r : ℕ) × (enabled ≡ true)
          × (servername ≡ some s)
          × (server ≡ some r)
          × (dispatch_info endname draws at_start events at_end info enabled servername server
              ≡ process_reachable endname s r info.reliable info.long_reordering draws events
                  at_end))
        ⊎ (((enabled ≡ false) ⊎ ((servername ≡ none) ⊎ (server ≡ none)))
            × (dispatch_info endname draws at_start events at_end info enabled servername server
                ≡ some (no_reply draws at_end)))
  unfolding dispatch_info
  dispatch_cases info true (some s) (some r) = inl (s, r, refl, refl, refl, refl)
  dispatch_cases info false sn sv = inr (inl refl, refl)
  dispatch_cases info true none sv = inr (inr (inl refl), refl)
  dispatch_cases info true (some s) none = inr (inr (inr refl), refl)

  -- A positive reply is the handler's own: the end reached a server at the start, the handler was
  -- called and returned that reply, and at the end the end is still enabled and its server's name
  -- still stands for the server that ran the handler, so it was not deleted or replaced.
  pub positive_reply :
      (a : Answer)
      → process_req endname draws at_start events at_end ≡ some a
      → a.msg.ok ≡ true
      → Delivered endname at_start events at_end a
  unfolding process_req
  positive_reply a h ok =
      let info = read_endname_info at_start endname in
      elim (dispatch_cases info info.enabled info.servername info.server) [
        | inr (_, e) ↦ absurd (failed (sym e ∙ h))
        | inl (s, r, enabled, connected, there, e) ↦
            let (came, alive, called) =
              process_reachable_ok endname s r info.reliable info.long_reordering draws events
                at_end a (sym e ∙ h) ok in
            let (still_enabled, still_there) = (is_server_dead_iff at_end endname s r).0 alive in
            record {
              servername = s;
              server = r;
              reached = record { enabled = enabled; connected = connected; there = there };
              from_handler = came;
              still_enabled = still_enabled;
              still_there = still_there;
              called = called;
            }
      ]
    where
      failed : some (no_reply draws at_end) ≡ some a → ⊥
      failed e = cc e

  -- The goroutine ends as soon as the handler returned or a look at the network found the server
  -- dead: it still waits only if the end reached a server, and every event so far was a time-out with
  -- the server alive.
  pub process_req-Waits :
      process_req endname draws at_start events at_end ≡ none
      → (s : S) × (r : ℕ) × Reaches (read_endname_info at_start endname) s r
        × All (Waits endname s r) events
  unfolding process_req process_reachable
  process_req-Waits h =
      let info = read_endname_info at_start endname in
      elim (dispatch_cases info info.enabled info.servername info.server) [
        | inr (_, e) ↦ absurd (cc (sym e ∙ h))
        | inl (s, r, enabled, connected, there, e) ↦ (
          s,
          r,
          record { enabled = enabled; connected = connected; there = there },
          wait_loop-Waits endname s r events (waiting s r (sym e ∙ h)),
        )
      ]
    where
      waiting :
          (s : S) (r : ℕ)
          → process_reachable endname s r
              (read_endname_info at_start endname).reliable
              (read_endname_info at_start endname).long_reordering
              draws
              events
              at_end
            ≡ none
          → wait_loop endname s r events ≡ none
      waiting s r e = ground arith

  finish_delay :
      (s : S) (r : ℕ) (reorder : Bool) (reply : ReplyMsg)
      → is_server_dead at_end endname s r ≡ false
      → let a = finish endname s r true reorder draws at_end (some reply) in
        (a.delay_ms ≡ 0) ⊎ ((reorder ≡ true) × (200 ≤ a.delay_ms))
  unfolding finish
  finish_delay s r false reply alive = inl (rw (alive, finish) refl)
  finish_delay s r true reply alive = elim (Bool-cases (ltb (draws.reorder % 900) 600)) [
    | inl on ↦ inr (refl, rw (alive, on, finish) (omega arith))
    | inr off ↦ inl (rw (alive, off, finish) refl)
  ]

  -- On a network that was reliable at the start, a request that reaches a server gets the handler's
  -- reply, unchanged and counted, whatever the draws and however many looks at the network come before
  -- it, if each of these finds the server alive, and at the end the end is enabled and the server's name
  -- still stands for it; the reply is held back only if long reordering was on, and then for at least
  -- 200 ms.
  pub reliable_delivers :
      (s : S) (r : ℕ) (reply : ReplyMsg) (before after : List (Event E S))
      → at_start.reliable ≡ true
      → Reaches (read_endname_info at_start endname) s r
      → events ≡ before ++ handler_returns reply ∷ after
      → All (Waits endname s r) before
      → get_or at_end.enabled endname false ≡ true
      → get_or at_end.servers s none ≡ some r
      → (a : Answer) × (process_req endname draws at_start events at_end ≡ some a)
        × (a.msg ≡ reply)
        × (a.called ≡ true)
        × (a.counted ≡ length reply.reply)
        × ((a.delay_ms ≡ 0) ⊎ ((at_start.long_reordering ≡ true) × (200 ≤ a.delay_ms)))
  unfolding process_req dispatch_info finish read_endname_info
  reliable_delivers s r reply before after reliable reaches came waits enabled there =
      let replied : wait_loop endname s r events ≡ some (some reply) =
        rw came (wait_loop-reply endname s r before after reply waits) in
      let alive : is_server_dead at_end endname s r ≡ false =
        (is_server_dead_iff at_end endname s r).1 (enabled, there) in
      (
        finish endname s r true at_start.long_reordering draws at_end (some reply),
        ground (arith, reaches.enabled, reaches.connected, reaches.there),
        ground arith,
        ground arith,
        ground arith,
        finish_delay s r at_start.long_reordering reply alive,
      )

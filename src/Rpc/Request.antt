-- ===== src/Rpc/Request.antt =====
-- lab2/labrpc/labrpc.go: `processReq`, the goroutine that carries one request through the network.
-- Between its waits other goroutines change the network: it is given as it stands at each point where
-- the goroutine reads it. The random draws are arguments.
pub mod Replies
pub mod Delivery
use cs426_spring2022_labs.Common.{
  length, ◌^◌, ℕ, suc, ◌+◌, ◌%◌, Bool, true, false, not, ◌&&◌, ◌||◌, Option, none, some, List, [],
  ◌∷◌, Outcome, returns, exits, ◌>>=◌, if◌then◌else◌, ltb, Key,
}
use cs426_spring2022_labs.Rpc.Server.{Text, ReqMsg, ReplyMsg, failure}
use cs426_spring2022_labs.Rpc.Network.{Network, EndnameInfo, read_endname_info, is_server_dead}

-- One round of the `select` that waits for the handler.
pub data Event (E S : Type 0) : Type 0 where
  -- the handler returned, and its reply arrived on `ech`
  handler_returns : ReplyMsg → Event E S
  -- 100 ms passed; the network as it is then
  times_out : Network E S → Event E S

-- What the request draws: `rand.Int()` four times, and the delay of a reordered reply.
pub record Draws : Type 0 where
  pub drop_request : ℕ
  pub drop_reply : ℕ
  pub reorder : ℕ
  pub reorder_ms : ℕ
  pub no_reply_ms : ℕ

-- The reply that is sent on `replyCh`, how long it is held back, and whether the handler was called.
pub record Answer : Type 0 where
  pub msg : ReplyMsg
  pub delay_ms : ℕ
  pub called : Bool
  -- what is added to the network's count of bytes
  pub counted : ℕ

module _ {E S : Type 0} ⦃end_key : Key E⦄ ⦃server_key : Key S⦄ where
  -- The loop that waits: `none` while it has seen nothing that ends it; then the handler's reply, or
  -- nothing if the server was found dead.
  unfoldable pub wait_loop : E → S → ℕ → List (Event E S) → Option (Option ReplyMsg)
  wait_loop endname servername server [] = none
  wait_loop endname servername server (handler_returns r ∷ _) = some (some r)
  wait_loop endname servername server (times_out rn ∷ rest) =
      let again = wait_loop endname servername server rest in
      if is_server_dead rn endname servername server then some none else again

  -- From the end of the loop on.
  unfoldable pub finish :
      E → S → ℕ → (reliable long_reordering : Bool) → Draws → Network E S → Option ReplyMsg → Answer
  finish endname servername server reliable long_reordering draws at_end none = record {
    msg = failure;
    delay_ms = 0;
    called = true;
    counted = 0;
  }
  finish endname servername server reliable long_reordering draws at_end (some reply) =
      if is_server_dead at_end endname servername server
      then record { msg = failure; delay_ms = 0; called = true; counted = 0 }
      else if not reliable && ltb (draws.drop_reply % 1000) 100
      then record { msg = failure; delay_ms = 0; called = true; counted = 0 }
      else if long_reordering && ltb (draws.reorder % 900) 600
      then record {
        msg = reply;
        delay_ms = 200 + draws.reorder_ms;
        called = true;
        counted = length reply.reply;
      }
      else record { msg = reply; delay_ms = 0; called = true; counted = length reply.reply }

  -- The branch for an end that is enabled, connected, and connected to a server that is there.
  unfoldable pub process_reachable :
      E
      → S
      → ℕ
      → (reliable long_reordering : Bool) → Draws
      → List (Event E S)
      → Network E S
      → Option Answer
  unfolding wait_loop finish
  process_reachable endname servername server reliable long_reordering draws events at_end =
      if not reliable && ltb (draws.drop_request % 1000) 100
      then some (record { msg = failure; delay_ms = 0; called = false; counted = 0 })
      else elim (wait_loop endname servername server events) [
        | none ↦ none
        | some reply ↦
            some (finish endname servername server reliable long_reordering draws at_end reply)
      ]

  -- `simulate no reply and eventual timeout`; `longDelays` is read after the first look, without the mutex.
  unfoldable pub no_reply : Draws → Network E S → Answer
  no_reply draws at_end = record {
    msg = failure;
    delay_ms = if at_end.long_delays then draws.no_reply_ms % 7000 else draws.no_reply_ms % 100;
    called = false;
    counted = 0;
  }

  unfoldable pub dispatch_info :
      E
      → Draws
      → Network E S
      → List (Event E S)
      → Network E S
      → EndnameInfo S
      → Bool
      → Option S
      → Option ℕ
      → Option Answer
  unfolding process_reachable no_reply
  dispatch_info endname draws at_start events at_end info true (some servername) (some server) =
      process_reachable endname servername server info.reliable info.long_reordering draws events
        at_end
  dispatch_info endname draws at_start events at_end info _ _ _ = some (no_reply draws at_end)

  -- `none`: the goroutine still waits after these events. `at_end` is the network at the last read of it.
  unfoldable pub process_req :
      E
      → Draws
      → (at_start : Network E S) → List (Event E S)
      → (at_end : Network E S) → Option Answer
  unfolding dispatch_info
  process_req endname draws at_start events at_end =
      let info = read_endname_info at_start endname in
      dispatch_info endname draws at_start events at_end info info.enabled info.servername
        info.server

-- The byte count of the network once the reply was sent.
abbrev pub count_bytes : {E S : Type 0} → Network E S → Answer → Network E S
count_bytes rn a = record rn { bytes = (rn.bytes + a.counted) % 2 ^ 64 }

-- `ClientEnd.Call` after the arguments were encoded: the request is sent, or the network is
-- destroyed first; then the reply is decoded, or the call fails. A decoding error stops the program.
unfoldable pub call :
    {A : Type 0} → (decode : Text → Option A) → Option ReplyMsg → Outcome (Option A)
call decode none = returns none
call decode (some rep) =
    if rep.ok
    then elim (decode rep.reply) [ none ↦ exits | some a ↦ returns (some a) ]
    else returns none

-- ===== src/Rpc/Request/Replies.antt =====
-- Which reply a request gets, lab2/labrpc/labrpc.go.
use cs426_spring2022_labs.Common.{
  ℕ, ◌%◌, ◌≡◌, refl, ap, sym, ◌∙◌, Bool, true, false, not, ◌&&◌, Option, none, some, List, [], ◌∷◌,
  ◌++◌, arith, Key, ltb, All, In, inl, inr, Option-cases, Bool-cases,
}
use cs426_spring2022_labs.Common.GoMap.{get_or}
use cs426_spring2022_labs.Rpc.Server.{ReplyMsg}
use cs426_spring2022_labs.Rpc.Network.{Network, read_endname_info, is_server_dead}
use cs426_spring2022_labs.Rpc.Network.Reachable.{Reaches}
use cs426_spring2022_labs.Rpc.Request.{
  Event, handler_returns, times_out, Draws, Answer, wait_loop, finish, process_reachable,
}

module _ {E S : Type 0} ⦃end_key : Key E⦄ ⦃server_key : Key S⦄ (endname : E) where
  wait_loop_reply :
      (servername : S) (server : ℕ) (events : List (Event E S)) (r : ReplyMsg)
      → wait_loop endname servername server events ≡ some (some r)
      → In (handler_returns r) events
  unfolding wait_loop
  wait_loop_reply servername server [] r h = absurd (cc h)
  wait_loop_reply servername server (handler_returns x ∷ events) r h = inl (cc h)
  wait_loop_reply servername server (times_out rn ∷ events) r h =
      elim (Bool-cases (is_server_dead rn endname servername server)) [
        | inl e ↦ absurd (cc (rw (e, wait_loop) at h))
        | inr e ↦ inr (wait_loop_reply servername server events r (rw (e, wait_loop) at h))
      ]

  -- The event neither brings the reply nor finds the server dead.
  abbrev pub Waits : S → ℕ → Event E S → Type 0
  Waits servername server (handler_returns r) = ⊥
  Waits servername server (times_out rn) = is_server_dead rn endname servername server ≡ false

  pub wait_loop-Waits :
      (servername : S) (server : ℕ) (events : List (Event E S))
      → wait_loop endname servername server events ≡ none
      → All (Waits servername server) events
  unfolding wait_loop
  wait_loop-Waits servername server [] h = tt
  wait_loop-Waits servername server (handler_returns x ∷ events) h = absurd (cc h)
  wait_loop-Waits servername server (times_out rn ∷ events) h =
      elim (Bool-cases (is_server_dead rn endname servername server)) [
        | inl e ↦ absurd (cc (rw (e, wait_loop) at h))
        | inr e ↦ (e, wait_loop-Waits servername server events (rw (e, wait_loop) at h))
      ]

  -- The loop goes on until the reply comes.
  pub wait_loop-reply :
      (servername : S) (server : ℕ) (before after : List (Event E S)) (r : ReplyMsg)
      → All (Waits servername server) before
      → wait_loop endname servername server (before ++ handler_returns r ∷ after) ≡ some (some r)
  unfolding wait_loop
  wait_loop-reply servername server [] after r h = refl
  wait_loop-reply servername server (handler_returns x ∷ before) after r h = absurd h.0
  wait_loop-reply servername server (times_out rn ∷ before) after r (alive, h) =
      rw (alive, wait_loop) (wait_loop-reply servername server before after r h)

  finish_ok :
      (servername : S) (server : ℕ) (reliable reorder : Bool) (draws : Draws) (at_end : Network E S)
      (reply : Option ReplyMsg)
      → (finish endname servername server reliable reorder draws at_end reply).msg.ok ≡ true
      → (is_server_dead at_end endname servername server ≡ false)
        × (reply ≡ some (finish endname servername server reliable reorder draws at_end reply).msg)
  unfolding finish
  finish_ok servername server reliable reorder draws at_end none h = absurd (cc h)
  finish_ok servername server reliable reorder draws at_end (some r) h = ground arith

  -- What a positive reply tells.
  pub record Delivered (at_start : Network E S) (events : List (Event E S)) (at_end : Network E S)
      (a : Answer) : Type 0 where
    pub servername : S
    pub server : ℕ
    pub reached : Reaches (read_endname_info at_start endname) servername server
    pub from_handler : In (handler_returns a.msg) events
    pub still_enabled : get_or at_end.enabled endname false ≡ true
    pub still_there : get_or at_end.servers servername none ≡ some server
    pub called : a.called ≡ true

  finish_called :
      (servername : S) (server : ℕ) (reliable reorder : Bool) (draws : Draws) (at_end : Network E S)
      (reply : Option ReplyMsg)
      → (finish endname servername server reliable reorder draws at_end reply).called ≡ true
  unfolding finish
  finish_called servername server reliable reorder draws at_end none = refl
  finish_called servername server reliable reorder draws at_end (some r) = ground arith

  pub process_reachable_ok :
      (servername : S) (server : ℕ) (reliable reorder : Bool) (draws : Draws)
      (events : List (Event E S)) (at_end : Network E S) (a : Answer)
      → process_reachable endname servername server reliable reorder draws events at_end ≡ some a
      → a.msg.ok ≡ true
      → In (handler_returns a.msg) events
        × (is_server_dead at_end endname servername server ≡ false)
        × (a.called ≡ true)
  unfolding process_reachable
  process_reachable_ok servername server reliable reorder draws events at_end a h ok =
      elim (Bool-cases (not reliable && ltb (draws.drop_request % 1000) 100)) [
        | inl e ↦ absurd (cc (ok, rw (e, process_reachable) at h))
        | inr e ↦ elim (Option-cases (wait_loop endname servername server events)) [
          | inl w ↦ absurd (cc (rw (e, w, process_reachable) at h))
          | inr (reply, w) ↦
              let ended : a ≡ finish endname servername server reliable reorder draws at_end reply =
                cc (rw (e, w, process_reachable) at h) in
              let (alive, came) =
                finish_ok servername server reliable reorder draws at_end reply
                  (ap (λ x. x.msg.ok) (sym ended) ∙ ok) in
              (
                wait_loop_reply servername server events a.msg
                    (w ∙ ap some came ∙ ap (λ x. some (some x.msg)) (sym ended)),
                alive,
                ap (λ x. x.called) ended
                    ∙ finish_called servername server reliable reorder draws at_end reply,
              )
        ]
      ]

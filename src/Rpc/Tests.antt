-- ===== src/Rpc/Tests.antt =====
-- Requests over a small network, lab2/labrpc/labrpc.go.
use cs426_spring2022_labs.Common.{
  ℕ, suc, ◌≡◌, refl, inl, inr, true, false, none, some, List, [], ◌∷◌, ◌++◌, returns, nat_key,
  ℕ_discrete, arith, In, All, length, ◌≤◌, ◌⊎◌,
}
use cs426_spring2022_labs.Common.GoMap.{get, get_or, insert}
use cs426_spring2022_labs.Rpc.Server.{
  text_key, text_same, ReplyMsg, Method, MethodInfo, Service, Server, make_service, add_methods,
  is_handler, dispatch,
}
use cs426_spring2022_labs.Rpc.Server.Routing.{dispatch-routes}
use cs426_spring2022_labs.Rpc.Network.{Network, make_network, read_endname_info, is_server_dead}
use cs426_spring2022_labs.Rpc.Network.Reachable.{Reaches}
use cs426_spring2022_labs.Rpc.Request.{
  Event, handler_returns, times_out, Draws, Answer, wait_loop, finish, process_reachable,
  dispatch_info, process_req,
}
use cs426_spring2022_labs.Rpc.Request.Replies.{Waits, Delivered}
use cs426_spring2022_labs.Rpc.Request.Delivery.{
  positive_reply, process_req-Waits, reliable_delivers,
}

-- A receiver that counts its calls and echoes the arguments.
abbrev echo : Method ℕ
echo args n = (suc n, args)

abbrev echo_info : MethodInfo ℕ
echo_info = record {
  name = b'E' ∷ [];
  pkg_path = [];
  num_in = 3;
  second_is_ptr = true;
  num_out = 0;
  call = echo;
}

abbrev echo_service : Service ℕ
echo_service = record { name = b'S' ∷ []; rcvr = 0; methods = (b'E' ∷ [], echo) ∷ [] }

abbrev echo_server : Server ℕ
echo_server = record { services = (b'S' ∷ [], echo_service) ∷ []; count = 0 }

echo_registered : get (make_service (b'S' ∷ []) 0 (echo_info ∷ [])).methods (b'E' ∷ []) ≡ some echo
unfolding make_service add_methods get insert is_handler text_same ℕ_discrete
echo_registered = refl

no_dot : ¬ In {A = ℕ} b'.' (b'E' ∷ [])
no_dot (inl e) = ground arith
no_dot (inr b) = b.0

service_there : get echo_server.services (b'S' ∷ []) ≡ some echo_service
unfolding get text_same ℕ_discrete
service_there = refl

method_there : get echo_service.methods (b'E' ∷ []) ≡ some echo
unfolding get text_same ℕ_discrete
method_there = refl

dispatch-routes_example :
    dispatch {E = ℕ} echo_server
      (record { endname = 1; svc_meth = (b'S' ∷ []) ++ b'.' ∷ b'E' ∷ []; args = 9 ∷ [] })
    ≡ returns (
      record {
        services = insert echo_server.services (b'S' ∷ []) (record echo_service { rcvr = 1 });
        count = 1;
      },
      record { ok = true; reply = 9 ∷ [] },
    )
dispatch-routes_example =
    dispatch-routes {E = ℕ} echo_server 1 (b'S' ∷ []) (b'E' ∷ []) (9 ∷ []) echo_service echo no_dot
      service_there method_there

abbrev empty_network : Network ℕ ℕ
empty_network = make_network

-- The end 1 is enabled and connected to the server at address 5, which is added as 7.
abbrev connected_network : Network ℕ ℕ
connected_network = record empty_network {
  ends = (1, tt) ∷ [];
  enabled = (1, true) ∷ [];
  servers = (7, some 5) ∷ [];
  connections = (1, some 7) ∷ [];
}

abbrev draws : Draws
draws = record {
  drop_request = 500;
  drop_reply = 500;
  reorder = 0;
  reorder_ms = 0;
  no_reply_ms = 42;
}

abbrev echo_reply : ReplyMsg
echo_reply = record { ok = true; reply = 9 ∷ [] }

abbrev echo_answer : Answer
echo_answer = record { msg = echo_reply; delay_ms = 0; called = true; counted = 1 }

abbrev events : List (Event ℕ ℕ)
events = times_out connected_network ∷ handler_returns echo_reply ∷ []

delivers : process_req 1 draws connected_network events connected_network ≡ some echo_answer
unfolding process_req dispatch_info process_reachable wait_loop finish read_endname_info
    is_server_dead get_or get ℕ_discrete
delivers = refl

positive_reply_example : Delivered 1 connected_network events connected_network echo_answer
positive_reply_example =
    positive_reply 1 draws connected_network events connected_network echo_answer delivers refl

waits :
    process_req 1 draws connected_network (times_out connected_network ∷ []) connected_network
    ≡ none
unfolding process_req dispatch_info process_reachable wait_loop finish read_endname_info
    is_server_dead get_or get ℕ_discrete
waits = refl

process_req-Waits_example :
    (s : ℕ) × (r : ℕ) × Reaches (read_endname_info connected_network 1) s r
    × All (Waits 1 s r) (times_out connected_network ∷ [])
process_req-Waits_example =
    process_req-Waits 1 draws connected_network (times_out connected_network ∷ []) connected_network
      waits

reaches : Reaches (read_endname_info connected_network 1) 7 5
unfolding read_endname_info get_or get ℕ_discrete
reaches = record { enabled = refl; connected = refl; there = refl }

alive : is_server_dead connected_network 1 7 5 ≡ false
unfolding is_server_dead get_or get ℕ_discrete
alive = refl

enabled_at_end : get_or connected_network.enabled 1 false ≡ true
unfolding get_or get ℕ_discrete
enabled_at_end = refl

there_at_end : get_or connected_network.servers 7 none ≡ some 5
unfolding get_or get ℕ_discrete
there_at_end = refl

-- Three looks at the network before the reply.
abbrev slow_reply : List (Event ℕ ℕ)
slow_reply =
    times_out connected_network
    ∷ times_out connected_network
    ∷ times_out connected_network
    ∷ handler_returns echo_reply
    ∷ []

reliable_delivers_example :
    (a : Answer) × (process_req 1 draws connected_network slow_reply connected_network ≡ some a)
    × (a.msg ≡ echo_reply)
    × (a.called ≡ true)
    × (a.counted ≡ length echo_reply.reply)
    × ((a.delay_ms ≡ 0) ⊎ ((connected_network.long_reordering ≡ true) × (200 ≤ a.delay_ms)))
reliable_delivers_example =
    reliable_delivers 1 draws connected_network slow_reply connected_network 7 5 echo_reply
      (times_out connected_network ∷ times_out connected_network ∷ times_out connected_network ∷ [])
      [] refl reaches refl (alive, (alive, (alive, tt))) enabled_at_end there_at_end

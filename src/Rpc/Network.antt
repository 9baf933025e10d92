-- ===== src/Rpc/Network.antt =====
-- lab2/labrpc/labrpc.go: the network's state and the methods that change it, each under the mutex.
-- `E` and `S` are the types of the names of ends and of servers (`interface{}` in the source). A
-- `*Server` is its address. The two counters are machine integers, kept as bit patterns.
pub mod Reachable
use cs426_spring2022_labs.Common.{
  ℕ, suc, ◌+◌, ◌-◌, ◌%◌, ◌^◌, Bool, true, false, not, ◌||◌, ite, Option, none, some, List, [], ◌∷◌,
  ℤ, pos, negsuc, Outcome, returns, panics, exits, if◌then◌else◌, ltb, Key, ℕ_discrete, length,
  Heap,
}
use cs426_spring2022_labs.Common.GoMap.{GoMap, get, get_or, insert}
use cs426_spring2022_labs.Rpc.Server.{ReqMsg, Server, get_count}

pub record Network (E S : Type 0) : Type 0 where
  pub reliable : Bool
  pub long_delays : Bool
  pub long_reordering : Bool
  -- the ends that exist; a `ClientEnd` is its name and the network's channels
  pub ends : GoMap E (Unit {0})
  pub enabled : GoMap E Bool
  pub servers : GoMap S (Option ℕ)
  pub connections : GoMap E (Option S)
  -- closed by `Cleanup`
  pub done : Bool
  pub count : ℕ
  pub bytes : ℕ

-- What `readEndnameInfo` returns.
pub record EndnameInfo (S : Type 0) : Type 0 where
  pub enabled : Bool
  pub servername : Option S
  pub server : Option ℕ
  pub reliable : Bool
  pub long_reordering : Bool

abbrev pub option_same : (a b : Option ℕ) → Bool
option_same none none = true
option_same none (some _) = false
option_same (some _) none = false
option_same (some a) (some b) = ite (ℕ_discrete a b) true false

module _ {E S : Type 0} ⦃end_key : Key E⦄ ⦃server_key : Key S⦄ where
  abbrev pub make_network : Network E S
  make_network = record {
    reliable = true;
    long_delays = false;
    long_reordering = false;
    ends = [];
    enabled = [];
    servers = [];
    connections = [];
    done = false;
    count = 0;
    bytes = 0;
  }

  -- `close` of a closed channel panics.
  unfoldable pub cleanup : Network E S → Outcome (Network E S)
  cleanup rn = if rn.done then panics else returns (record rn { done = true })

  abbrev pub set_reliable : Network E S → Bool → Network E S
  set_reliable rn yes_ = record rn { reliable = yes_ }

  abbrev pub set_long_reordering : Network E S → Bool → Network E S
  set_long_reordering rn yes_ = record rn { long_reordering = yes_ }

  abbrev pub set_long_delays : Network E S → Bool → Network E S
  set_long_delays rn yes_ = record rn { long_delays = yes_ }

  -- The goroutine of `MakeNetwork`, on one request that it receives.
  unfoldable pub receive : Network E S → ReqMsg E → Network E S
  receive rn xreq = record rn {
    count = suc rn.count % 2 ^ 32;
    bytes = (rn.bytes + length xreq.args) % 2 ^ 64;
  }

  abbrev server_at : Network E S → Option S → Option ℕ
  server_at rn none = none
  server_at rn (some name) = get_or rn.servers name none

  unfoldable pub read_endname_info : Network E S → E → EndnameInfo S
  read_endname_info rn endname =
      let servername = get_or rn.connections endname none in
      record {
        enabled = get_or rn.enabled endname false;
        servername = servername;
        server = server_at rn servername;
        reliable = rn.reliable;
        long_reordering = rn.long_reordering;
      }

  unfoldable pub is_server_dead : Network E S → E → S → ℕ → Bool
  is_server_dead rn endname servername server =
      not (get_or rn.enabled endname false)
      || not (option_same (get_or rn.servers servername none) (some server))

  -- A name that exists already stops the program.
  unfoldable pub make_end : Network E S → E → Outcome (Network E S)
  make_end rn endname = elim (get rn.ends endname) [
    | some _ ↦ exits
    | none ↦ returns (record rn {
      ends = insert rn.ends endname tt;
      enabled = insert rn.enabled endname false;
      connections = insert rn.connections endname none;
    })
  ]

  unfoldable pub add_server : Network E S → S → ℕ → Network E S
  add_server rn servername rs = record rn { servers = insert rn.servers servername (some rs) }

  unfoldable pub delete_server : Network E S → S → Network E S
  delete_server rn servername = record rn { servers = insert rn.servers servername none }

  unfoldable pub connect : Network E S → E → S → Network E S
  connect rn endname servername = record rn {
    connections = insert rn.connections endname (some servername);
  }

  unfoldable pub enable : Network E S → E → Bool → Network E S
  enable rn endname enabled = record rn { enabled = insert rn.enabled endname enabled }

  -- The server's mutex is read through the pointer: a nil pointer panics.
  unfoldable pub get_server_count : {Obj : Type 0} → Heap (Server Obj) → Network E S → S → Outcome ℕ
  get_server_count heap rn servername = elim (get_or rn.servers servername none) [
    | none ↦ panics
    | some rs ↦ returns (get_count (heap rs))
  ]

  -- The counter as the signed integer that it stands for.
  unfoldable pub get_total_count : Network E S → ℤ
  get_total_count rn =
      if ltb rn.count (2 ^ 31) then pos rn.count else negsuc (2 ^ 32 - suc rn.count)

  unfoldable pub get_total_bytes : Network E S → ℤ
  get_total_bytes rn =
      if ltb rn.bytes (2 ^ 63) then pos rn.bytes else negsuc (2 ^ 64 - suc rn.bytes)

-- ===== src/Api/Types.antt =====
-- What a method of h9d/api.cc is called with, works on and answers.
use h9d.Prelude.{ℕ, Bool, List, ◌++◌, Option, none, some, String, ◌>>=◌, ℤ, neg}
use h9d.H9def.{H9Def}
use h9d.Frame.{H9Frame}
use h9d.RawNode.Request.{Memory, Traffic}
use h9d.Node.Registers.{RegisterDesc, NodeDescLoader}
use h9d.Node.Exceptions.{DevNodeException, RegValue}
use h9d.Bus.{Bus, Driver}
use h9d.Bus.Thread.{BusEvent, run}
use h9d.NodeMgr.{NodeMgr}
use h9d.NodeMgr.Queries.{NodeDsc}
use h9d.Json.{JsonLib, find_key}

-- The exceptions of jsonrpcpp that become an error for the client.
pub data Failure : Type 0 where
  method_not_found invalid_params : Failure
  request_error : ℤ → Failure

unfoldable pub error_code : Failure → ℤ
error_code method_not_found = neg 32601
error_code invalid_params = neg 32602
error_code (request_error c) = c

-- The results, before they are put into JSON; the value of a promise that is waited for is named by
-- the frame's place in the bus's heap.
pub data Value (J : Type 0) : Type 0 where
  json : J → Value J
  methods_list : List String → Value J
  return_ok : Value J
  seqnum_of : ℕ → Value J
  authentication : Value J
  done : Value J
  nodes_list : List NodeDsc → Value J
  node_info : NodeDsc → String → Value J
  registers_list : List RegisterDesc → Value J
  register_value : RegValue → Value J
  null : Value J
  devs_list : List (String × String) → Value J

-- A result, an error for the client, or an exception that neither the method nor the client's thread
-- catches, which ends the daemon.
pub data Answer (J : Type 0) : Type 0 where
  result : Value J → Answer J
  refused : Failure → Answer J
  escapes : DevNodeException → Answer J

-- The client's thread, as far as the methods use it; an observer is named by its address.
pub record Client : Type 0 where
  pub authenticated : Bool
  pub entity : String
  pub frame_observer : Option ℕ
  pub dev_status_observer : Option ℕ

-- `frame_observers` are those of clients that are attached to the bus.
pub record Api : Type 0 where
  pub client : Client
  pub mgr : NodeMgr
  pub bus : Bus
  pub frame_observers : List ℕ

-- A new client's thread: `_authenticated` is what its memory holds.
unfoldable pub new_client : Bool → Client
new_client memory = record {
  authenticated = memory;
  entity = "";
  frame_observer = none;
  dev_status_observer = none;
}

abbrev pub Params : Type 0 → Type 0
Params J = List (String × J)

pub data DevRequest : Type 0 where
  call_dev_method get_dev_description get_dev_state : DevRequest

pub data DevOutcome (J : Type 0) : Type 0 where
  dev_result : J → DevOutcome J
  dev_thrown : ℤ → DevOutcome J

-- What the methods have from elsewhere: the JSON library, the constants of the frames, the memory
-- and the traffic of requests to nodes, what new memory holds, the daemon's version, its metrics and
-- its list of clients, the descriptions that the loader reads, the client's name with its address,
-- the address of a new observer, and the methods of the devices. While a method waits for a node, the
-- thread of the bus goes on, with what drivers do and with the events of `meanwhile`, which
-- come after those that the method itself causes.
pub record Env (J : Type 0) : Type 0 where
  pub lib : JsonLib J
  pub h : H9Def
  pub memory : Memory
  pub traffic : H9Frame → Traffic
  pub garbage : List ℕ
  pub blank : H9Frame
  pub version : J
  pub stats : J
  pub tcp_clients : J
  pub loader : NodeDescLoader
  pub client_idstring : Client → String
  pub observer : Api → ℕ
  pub dev : DevRequest → String → Params J → DevOutcome J
  pub driver : Driver
  pub meanwhile : Api → Params J → List BusEvent

-- A method: `none` is undefined behaviour or a failed `assert`.
abbrev pub Handler : Type 0 → Type 0
Handler J = Api → Params J → Option (Answer J × Api)

module _ {J : Type 0} where
  -- The daemon when the wait is over that begins with some events on the bus.
  unfoldable pub after_wait : Env J → Params J → List BusEvent → Api → Option Api
  after_wait env ps first s = do
    bus ← run env.h env.driver (first ++ env.meanwhile s ps) s.bus
    some (record s { bus = bus })

module _ {J A : Type 0} where
  -- `params.param_map.at(k).get<A>()`: `none` is an out_of_range or a type_error.
  abbrev pub param : String → (J → Option A) → Params J → Option A
  param k get ps = find_key k ps >>= get

  -- The body of a method behind the reading of its parameters, with its two `catch` clauses.
  abbrev pub with_params : Option A → Api → (A → Option (Answer J × Api)) → Option (Answer J × Api)
  with_params none s body = some (refused invalid_params, s)
  with_params (some a) s body = body a

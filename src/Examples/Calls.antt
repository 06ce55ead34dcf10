-- ===== src/Examples/Calls.antt =====
-- Requests of clients to h9d/api.cc.
use h9d.Prelude.{◌≡◌, refl, Bool, true, false, [], ◌∷◌, some, none, List, ◌>>=◌}
use h9d.H9def.{frame_md}
use h9d.NodeMgr.{new_node_mgr}
use h9d.Bus.Thread.{new_bus}
use h9d.Api.Types.{
  result, refused, method_not_found, invalid_params, return_ok, Api, new_client, Env, dev_result,
}
use h9d.Api.Call.{call, calls}
use h9d.Api.Access.{calls-locked}
use h9d.Api.Endings.{calls-subscribe_twice}
use h9d.Client.Requests.{Entity, request, no_request, batch, received, Session, thread_recv_msg}
use h9d.Client.Batches.{requests, batched, receive_each, thread_recv_msg-receive_each}
use h9d.Examples.{blank, memory, reply, traffic}
use h9d.Examples.Nodes.{loader}
use h9d.Examples.Json.{JsonValue, number, text, json_lib}

abbrev env : Env JsonValue
env = record {
  lib = json_lib;
  h = frame_md;
  memory = memory;
  traffic = traffic reply;
  garbage = [];
  blank = blank;
  version = text "1.0.0";
  stats = number 0;
  tcp_clients = number 1;
  loader = loader;
  client_idstring = λ c. c.entity;
  observer = λ s. 5;
  dev = λ r name ps. dev_result (number 0);
  driver = λ e f. some [];
  meanwhile = λ s ps. [];
}

abbrev fresh : Bool → Api
unfolding new_bus new_client new_node_mgr
fresh authenticated = record {
  client = new_client authenticated;
  mgr = record {
    nodes = none ∷ none ∷ [];
    devs_map = [];
    dev_status_observer = [];
    frame_queue = [];
    task_queue = [];
    nodedescloader = loader;
  };
  bus = new_bus 254 true ("can0" ∷ []);
  frame_observers = [];
}

calls-locked_example :
    calls env (("get_version", []) ∷ ("authenticate", ("entity", number 1) ∷ []) ∷ []) (fresh false)
    ≡ some (refused method_not_found ∷ refused invalid_params ∷ [], fresh false)
unfolding fresh new_client
calls-locked_example =
    calls-locked env (("get_version", []) ∷ ("authenticate", ("entity", number 1) ∷ []) ∷ [])
      (fresh false) refl ((λ e. cc), ((λ e. refl), tt))

calls-subscribe_twice_example :
    (t : Api) × (call env "subscribe" (fresh true) (("event", text "frame") ∷ [])
      ≡ some (result return_ok, t))
    × (t.frame_observers ≡ 5 ∷ [])
    × (call env "subscribe" t (("event", text "frame") ∷ []) ≡ none)
unfolding fresh new_client
calls-subscribe_twice_example =
    calls-subscribe_twice env (fresh true) (("event", text "frame") ∷ []) refl refl refl

abbrev session : Session
unfolding fresh
session = record { running = true; api = fresh false }

abbrev two : List (Entity JsonValue)
two =
    request (record { id = 1; method = "get_version"; params = [] })
    ∷ no_request
    ∷ request (record { id = 2; method = "authenticate"; params = ("entity", text "client") ∷ [] })
    ∷ []

thread_recv_msg-receive_each_example :
    thread_recv_msg env (received (batch two)) session
    ≡ (receive_each env (requests two) session >>= batched)
unfolding session
thread_recv_msg-receive_each_example = thread_recv_msg-receive_each env two session

-- ===== src/Api/Session.antt =====
-- The methods of h9d/api.cc for the client itself, the bus and the daemon. Where a method waits for a
-- frame to be sent, the frame is queued here, and the bus does the rest.
use h9d.Prelude.{
  ℕ, Bool, true, false, List, ◌||◌, ◌==◌, [], ◌∷◌, ◌++◌, Option, some, none, ◌>>=◌, String, length,
  if◌then◌else◌,
}
use h9d.Frame.{H9Frame, broadcast_frame}
use h9d.Frame.Json.{from_json}
use h9d.Node.Registers.{same_string}
use h9d.Bus.{send_frame_noblock}
use h9d.NodeMgr as NodeMgr
use h9d.Json.{find_key}
use h9d.Api.Types.{
  result, json, return_ok, seqnum_of, authentication, done, Api, Env, Handler, Params, param,
  with_params,
}

module _ {J : Type 0} (env : Env J) where
  unfoldable pub get_version : Handler J
  get_version s ps = some (result (json env.version), s)

  unfoldable pub get_stats : Handler J
  get_stats s ps = some (result (json env.stats), s)

  unfoldable pub get_tcp_clients : Handler J
  get_tcp_clients s ps = some (result (json env.tcp_clients), s)

  -- The destructor of an observer asserts that it has been detached.
  unfoldable pub is_attached : Option ℕ → List ℕ → Bool
  is_attached none observers = false
  is_attached (some old) [] = false
  is_attached (some old) (o ∷ os) = old == o || is_attached (some old) os

  -- `set_frame_observer` with a new observer, which attaches itself to the bus first. The observer
  -- that the client has had is deleted.
  unfoldable pub set_frame_observer : Option ℕ → Api → Option Api
  set_frame_observer old s =
      if is_attached old s.frame_observers
      then none
      else some (record s {
        client = record s.client { frame_observer = some (env.observer s) };
        frame_observers = s.frame_observers ++ env.observer s ∷ [];
      })

  unfoldable pub set_dev_status_observer : Option ℕ → Api → Option Api
  set_dev_status_observer old s =
      if is_attached old s.mgr.dev_status_observer
      then none
      else some (record s {
        client = record s.client { dev_status_observer = some (env.observer s) };
        mgr = NodeMgr.attach_dev_state_observer (env.observer s) s.mgr;
      })

  -- What `subscribe` does for an event; for the name of no event, nothing.
  unfoldable pub subscribe_to : String → Api → Option Api
  subscribe_to event s =
      if same_string event "frame"
      then set_frame_observer s.client.frame_observer s
      else if same_string event "dev_status"
      then set_dev_status_observer s.client.dev_status_observer s
      else some s

  unfoldable pub subscribe : Handler J
  subscribe s ps =
      with_params (param "event" env.lib.get_string ps) s
        (λ event. do t ← subscribe_to event s; some (result return_ok, t))

  unfoldable pub authenticate : Handler J
  authenticate s ps = with_params (param "entity" env.lib.get_string ps) s (λ entity. some (
    result authentication,
    record s { client = record s.client { entity = entity; authenticated = true } },
  ))

  unfoldable pub reload_nodes_description : Handler J
  reload_nodes_description s ps =
      some (result done, record s { mgr = NodeMgr.reload_nodes_description env.loader s.mgr })

  -- `NodeMgr::discover`.
  unfoldable pub discover_nodes : Handler J
  discover_nodes s ps = do
    f ← broadcast_frame env.h "h9d" env.h.discover env.h.broadcast_all_group [] env.blank
    some (result done, record s { bus = send_frame_noblock env.h f false s.bus })

  -- `params.count("raw") && params.at("raw").get<bool>()`.
  unfoldable pub raw_of : Option J → Option Bool
  raw_of none = some false
  raw_of (some j) = env.lib.get_bool j

  abbrev pub frame_params : Params J → Option (Bool × H9Frame)
  frame_params ps = do
    raw ← raw_of (find_key "raw" ps)
    f ← param "frame" (λ j. from_json env.lib j env.blank) ps
    some (raw, f)

  -- `is_valid` is true for every frame.
  unfoldable pub send_frame : Handler J
  send_frame s ps = with_params (frame_params ps) s (λ p. some (
    result (seqnum_of (length s.bus.heap)),
    record s {
      bus =
          send_frame_noblock env.h (record (p.1) { origin = env.client_idstring s.client }) (p.0)
            s.bus;
    },
  ))

-- ===== src/Api/Call.antt =====
-- `API::call` of h9d/api.cc: the table of the methods, and who may call them.
use h9d.Prelude.{◌||◌, List, [], ◌∷◌, Option, some, none, ◌>>=◌, String, map, if◌then◌else◌}
use h9d.Node.Registers.{same_string}
use h9d.Json.{find_key}
use h9d.Api.Types.{
  Answer, result, refused, escapes, method_not_found, methods_list, Api, Env, Handler, Params,
}
use h9d.Api.Nodes.{
  get_nodes_list, get_node_info, node_reset, get_registers_list, get_register_value,
  set_register_value, set_register_bit, clear_register_bit,
}
use h9d.Api.Session.{
  get_version, get_stats, get_tcp_clients, subscribe, authenticate, reload_nodes_description,
  discover_nodes, send_frame,
}
use h9d.Api.Devices.{get_devs_list, dev_description, dev_status, dev_method_call}

-- The pointers to the methods.
pub data Method : Type 0 where
  authenticate_method clear_register_bit_method dev_method_call_method discover_nodes_method :
      Method
  get_dev_description_method get_dev_status_method get_devs_list_method : Method
  get_methods_list_method get_node_info_method get_nodes_list_method : Method
  get_register_value_method get_registers_list_method get_stats_method : Method
  get_tcp_clients_method get_version_method node_reset_method : Method
  reload_nodes_description_method send_frame_method set_register_bit_method : Method
  set_register_value_method subscribe_method : Method

-- The map that the constructor fills, in the order of its keys.
abbrev pub api_methods : List (String × Method)
api_methods =
    ("authenticate", authenticate_method)
    ∷ ("clear_register_bit", clear_register_bit_method)
    ∷ ("dev_method_call", dev_method_call_method)
    ∷ ("discover_nodes", discover_nodes_method)
    ∷ ("get_dev_description", get_dev_description_method)
    ∷ ("get_dev_status", get_dev_status_method)
    ∷ ("get_devs_list", get_devs_list_method)
    ∷ ("get_methods_list", get_methods_list_method)
    ∷ ("get_node_info", get_node_info_method)
    ∷ ("get_nodes_list", get_nodes_list_method)
    ∷ ("get_register_value", get_register_value_method)
    ∷ ("get_registers_list", get_registers_list_method)
    ∷ ("get_stats", get_stats_method)
    ∷ ("get_tcp_clients", get_tcp_clients_method)
    ∷ ("get_version", get_version_method)
    ∷ ("node_reset", node_reset_method)
    ∷ ("reload_nodes_description", reload_nodes_description_method)
    ∷ ("send_frame", send_frame_method)
    ∷ ("set_register_bit", set_register_bit_method)
    ∷ ("set_register_value", set_register_value_method)
    ∷ ("subscribe", subscribe_method)
    ∷ []

module _ {J : Type 0} (env : Env J) where
  unfoldable pub get_methods_list : Handler J
  get_methods_list s ps = some (result (methods_list (map (λ e. e.0) api_methods)), s)

  unfoldable pub execute : Method → Handler J
  execute authenticate_method = authenticate env
  execute clear_register_bit_method = clear_register_bit env
  execute dev_method_call_method = dev_method_call env
  execute discover_nodes_method = discover_nodes env
  execute get_dev_description_method = dev_description env
  execute get_dev_status_method = dev_status env
  execute get_devs_list_method = get_devs_list env
  execute get_methods_list_method = get_methods_list
  execute get_node_info_method = get_node_info env
  execute get_nodes_list_method = get_nodes_list env
  execute get_register_value_method = get_register_value env
  execute get_registers_list_method = get_registers_list env
  execute get_stats_method = get_stats env
  execute get_tcp_clients_method = get_tcp_clients env
  execute get_version_method = get_version env
  execute node_reset_method = node_reset env
  execute reload_nodes_description_method = reload_nodes_description env
  execute send_frame_method = send_frame env
  execute set_register_bit_method = set_register_bit env
  execute set_register_value_method = set_register_value env
  execute subscribe_method = subscribe env

  unfoldable pub execute_found : Option Method → Handler J
  execute_found none s ps = some (refused method_not_found, s)
  execute_found (some m) s ps = execute m s ps

  unfoldable pub call : String → Handler J
  call method s ps =
      if s.client.authenticated || same_string method "authenticate"
      then execute_found (find_key method api_methods) s ps
      else some (refused method_not_found, s)

  -- The requests of a client one after another, with their answers; an exception that escapes ends
  -- the daemon.
  unfoldable pub calls : List (String × Params J) → Api → Option (List (Answer J) × Api)
  calls [] s = some ([], s)
  calls (r ∷ rs) s = do
    (a, t) ← call (r.0) s (r.1)
    elim a [
      | escapes e ↦ some (escapes e ∷ [], t)
      | result v ↦ calls rs t >>= (λ u. some (result v ∷ u.0, u.1))
      | refused f ↦ calls rs t >>= (λ u. some (refused f ∷ u.0, u.1))
    ]

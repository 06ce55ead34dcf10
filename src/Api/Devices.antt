-- ===== src/Api/Devices.antt =====
-- The methods of h9d/api.cc for devices, with the functions of h9d/node_mgr.cc that they call.
use h9d.Prelude.{[], Option, some, ◌>>=◌, String, map, neg, if◌then◌else◌}
use h9d.NodeMgr.{NodeMgr, has_dev}
use h9d.Api.Types.{
  Answer, result, refused, request_error, json, devs_list, Env, Handler, Params, param, with_params,
  DevRequest, call_dev_method, get_dev_description, get_dev_state, DevOutcome, dev_result,
  dev_thrown, after_wait,
}

module _ {J : Type 0} (env : Env J) where
  unfoldable pub get_devs_list : Handler J
  get_devs_list s ps = some (result (devs_list (map (λ d. (d.name, d.type)) s.mgr.devs_map)), s)

  -- `NodeMgr::call_dev_method`, `get_dev_description` and `get_dev_state`.
  unfoldable pub ask_dev : DevRequest → NodeMgr → String → Params J → DevOutcome J
  ask_dev r mgr name ps =
      if has_dev name mgr.devs_map then env.dev r name ps else dev_thrown (neg 12)

  abbrev pub dev_answer : DevOutcome J → Answer J
  dev_answer (dev_result j) = result (json j)
  dev_answer (dev_thrown c) = refused (request_error c)

  abbrev pub dev_name : Params J → Option String
  dev_name = param "dev_name" env.lib.get_string

  unfoldable pub dev_description : Handler J
  dev_description s ps =
      with_params (dev_name ps) s
        (λ name. some (dev_answer (ask_dev get_dev_description s.mgr name ps), s))

  unfoldable pub dev_status : Handler J
  dev_status s ps =
      with_params (dev_name ps) s
        (λ name. some (dev_answer (ask_dev get_dev_state s.mgr name ps), s))

  -- The method's name is read as well, so that it is there.
  abbrev pub method_params : Params J → Option String
  method_params ps = do name ← dev_name ps; method ← param "method" env.lib.get_string ps; some name

  unfoldable pub dev_method_call : Handler J
  dev_method_call s ps = with_params (method_params ps) s (λ name. do
    t ← (if has_dev name s.mgr.devs_map then after_wait env ps [] s else some s)
    some (dev_answer (ask_dev call_dev_method s.mgr name ps), t))

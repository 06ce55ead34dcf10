-- ===== src/Api/Nodes.antt =====
-- The methods of h9d/api.cc that ask for nodes and their registers.
use h9d.Prelude.{ℕ, true, false, List, [], ◌∷◌, Option, some, none, ◌>>=◌, map, get_elem?, neg}
use h9d.Frame.{H9Frame}
use h9d.Node.Registers.{RegisterDesc, Node}
use h9d.Node.Asks as Asks
use h9d.Bus.Thread.{frame_queued}
use h9d.Node.Exceptions.{
  RegValue, text_value, integer_value, float_value, bytes_value, Outcome, returned, thrown, code,
}
use h9d.NodeMgr.{NodeMgr}
use h9d.NodeMgr.Queries as Queries
use h9d.NodeMgr.Queries.{NodeInfoOutcome, known, not_known}
use h9d.Json.{Kind, string_kind, float_kind, integer_kind, array_kind, other_kind}
use h9d.Api.Types.{
  Answer, result, refused, escapes, request_error, Value, done, nodes_list, node_info,
  registers_list, register_value, null, Env, Handler, Params, Api, param, with_params, after_wait,
}

-- `Node::get_registers_list`: the order of the map is left open.
unfoldable pub registers_of : List (ℕ × RegisterDesc) → List RegisterDesc
registers_of m = map (λ e. e.1) m

-- `NodeMgr::get_registers_list`.
unfoldable pub mgr_registers_list : NodeMgr → ℕ → Option (List RegisterDesc)
mgr_registers_list s id = do
  slot ← get_elem? s.nodes id
  some (elim slot [ none ↦ [] | some n ↦ registers_of n.node.register_map ])

module _ {J : Type 0} (env : Env J) where
  abbrev pub node_id : Params J → Option ℕ
  node_id = param "node_id" env.lib.get_u16

  -- A request is handed to the bus and waited for, if the node exists and the access does not throw
  -- before.
  unfoldable pub after_request : Params J → Api → Option H9Frame → Option Api
  after_request ps s none = some s
  after_request ps s (some f) = after_wait env ps (frame_queued f false ∷ []) s

  unfoldable pub after_access : Params J → Api → ℕ → (Node → Option (Option H9Frame)) → Option Api
  after_access ps s id asks = do
    slot ← get_elem? s.mgr.nodes id
    elim slot [ none ↦ some s | some n ↦ asks n.node >>= after_request ps s ]

  unfoldable pub get_nodes_list : Handler J
  get_nodes_list s ps = some (result (nodes_list (Queries.get_nodes_list s.mgr)), s)

  unfoldable pub get_node_info : Handler J
  get_node_info s ps = with_params (node_id ps) s (λ id. do
    info ← Queries.get_node_info s.mgr id
    some (
      elim info [
        | known dsc description ↦ result (node_info dsc description)
        | not_known e ↦ escapes e
      ],
      s,
    ))

  unfoldable pub node_reset : Handler J
  node_reset s ps = with_params (node_id ps) s (λ id. do
    r ← Queries.node_reset env.h env.memory env.traffic env.garbage s.mgr id
    t ← after_access ps s id (λ n. Asks.reset_request env.h env.memory id)
    some (elim r [ none ↦ result done | some e ↦ refused (request_error (code e)) ], t))

  unfoldable pub get_registers_list : Handler J
  get_registers_list s ps = with_params (node_id ps) s (λ id. do
    exists ← Queries.is_node_exist s.mgr id
    registers ← mgr_registers_list s.mgr id
    some (
      elim exists [
        | true ↦ result (registers_list registers)
        | false ↦ refused (request_error (neg 11))
      ],
      s,
    ))

  -- What an access returns becomes the result, and what it throws an error of its code.
  abbrev pub answer_of : (RegValue → Value J) → Outcome → Answer J
  answer_of to_value (returned v) = result (to_value v)
  answer_of to_value (thrown e) = refused (request_error (code e))

  -- The methods for bits pass on all values but floats.
  abbrev pub no_float : RegValue → Value J
  no_float (text_value t) = register_value (text_value t)
  no_float (integer_value n) = register_value (integer_value n)
  no_float (float_value f) = null
  no_float (bytes_value bs) = register_value (bytes_value bs)

  abbrev pub node_and_reg : Params J → Option (ℕ × ℕ)
  node_and_reg ps = do id ← node_id ps; reg ← param "reg" env.lib.get_u8 ps; some (id, reg)

  unfoldable pub get_register_value : Handler J
  get_register_value s ps = with_params (node_and_reg ps) s (λ p. do
    r ← Queries.get_register env.h env.memory env.traffic env.garbage s.mgr (p.0) (p.1)
    t ← after_access ps s (p.0) (λ n. Asks.get_register_request env.h env.memory (p.0) n (p.1))
    some (answer_of register_value r, t))

  -- The value that is to be written, by the type of the JSON value.
  unfoldable pub value_of_kind : Kind → J → Option RegValue
  value_of_kind string_kind j = do t ← env.lib.get_text j; some (text_value t)
  value_of_kind float_kind j = do f ← env.lib.get_float j; some (float_value f)
  value_of_kind integer_kind j = do n ← env.lib.get_int64 j; some (integer_value n)
  value_of_kind array_kind j = do bs ← env.lib.get_bytes j; some (bytes_value bs)
  value_of_kind other_kind j = none

  abbrev pub write_params : Params J → Option ((ℕ × ℕ) × RegValue)
  write_params ps = do
    p ← node_and_reg ps
    v ← param "value" (λ j. value_of_kind (env.lib.kind j) j) ps
    some (p, v)

  unfoldable pub set_register_value : Handler J
  set_register_value s ps = with_params (write_params ps) s (λ p. do
    r ← Queries.set_register env.h env.memory env.traffic env.garbage s.mgr (p.0.0) (p.0.1) (p.1)
    t ←
        after_access ps s (p.0.0)
          (λ n. Asks.set_register_request env.h env.memory (p.0.0) n (p.0.1) (p.1))
    some (answer_of register_value r, t))

  abbrev pub bit_params : Params J → Option ((ℕ × ℕ) × ℕ)
  bit_params ps = do p ← node_and_reg ps; bit ← param "bit_num" env.lib.get_u8 ps; some (p, bit)

  unfoldable pub set_register_bit : Handler J
  set_register_bit s ps = with_params (bit_params ps) s (λ p. do
    r ←
        Queries.set_register_bit env.h env.memory env.traffic env.garbage s.mgr (p.0.0) (p.0.1)
          (p.1)
    t ←
        after_access ps s (p.0.0)
          (λ n. Asks.bit_request env.h env.memory (p.0.0) env.h.set_bit n (p.0.1) (p.1))
    some (answer_of no_float r, t))

  unfoldable pub clear_register_bit : Handler J
  clear_register_bit s ps = with_params (bit_params ps) s (λ p. do
    r ←
        Queries.clear_register_bit env.h env.memory env.traffic env.garbage s.mgr (p.0.0) (p.0.1)
          (p.1)
    t ←
        after_access ps s (p.0.0)
          (λ n. Asks.bit_request env.h env.memory (p.0.0) env.h.clear_bit n (p.0.1) (p.1))
    some (answer_of no_float r, t))

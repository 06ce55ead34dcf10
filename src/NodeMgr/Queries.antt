-- ===== src/NodeMgr/Queries.antt =====
-- What h9d/node_mgr.cc says of the nodes, and the accesses that it passes on to them.
use h9d.Prelude.{
  ℕ, suc, ◌+◌, Bool, true, false, List, [], ◌∷◌, Option, some, none, ◌>>=◌, String, get_elem?,
  if◌then◌else◌,
}
use h9d.H9def.{H9Def}
use h9d.Frame.{H9Frame}
use h9d.RawNode.Request.{Memory, Traffic}
use h9d.Node.Registers.{Node}
use h9d.Node.Exceptions.{DevNodeException, node_not_exist_exception, Outcome, RegValue, thrown}
use h9d.Node.Access as Access
use h9d.NodeMgr.{ManagedNode, NodeMgr, node_version_major, node_version_minor}

pub record NodeDsc : Type 0 where
  pub id : ℕ
  pub type : ℕ
  pub version_major : ℕ
  pub version_minor : ℕ
  pub hardware_revision : ℕ
  pub reset_reason : ℕ
  pub name : String

unfoldable pub describe : ℕ → Node → NodeDsc
describe id n = record {
  id = id;
  type = n.node_type;
  version_major = node_version_major n;
  version_minor = node_version_minor n;
  hardware_revision = n.hardware_revision;
  reset_reason = n.reset_reason;
  name = n.node_name;
}

unfoldable pub active_devices_count : List (Option ManagedNode) → ℕ
active_devices_count [] = 0
active_devices_count (none ∷ ns) = active_devices_count ns
active_devices_count (some n ∷ ns) = suc (active_devices_count ns)

unfoldable pub is_node_exist : NodeMgr → ℕ → Option Bool
is_node_exist s id = do
  slot ← get_elem? s.nodes id
  some (elim slot [ none ↦ false | some n ↦ true ])

unfoldable pub is_node_init : NodeMgr → ℕ → Option Bool
is_node_init s id = do
  slot ← get_elem? s.nodes id
  some (elim slot [ none ↦ false | some n ↦ n.node.is_init ])

-- The loop of `get_nodes_list`, from an id on.
unfoldable pub list_nodes : ℕ → List (Option ManagedNode) → List NodeDsc
list_nodes id [] = []
list_nodes id (none ∷ ns) = list_nodes (id + 1) ns
list_nodes id (some n ∷ ns) =
    let rest = list_nodes (id + 1) ns in if n.node.is_init then describe id n.node ∷ rest else rest

unfoldable pub get_nodes_list : NodeMgr → List NodeDsc
get_nodes_list s = list_nodes 0 s.nodes

-- What is returned, or else thrown.
pub data NodeInfoOutcome : Type 0 where
  known : NodeDsc → String → NodeInfoOutcome
  not_known : DevNodeException → NodeInfoOutcome

unfoldable pub get_node_info : NodeMgr → ℕ → Option NodeInfoOutcome
get_node_info s id = do
  slot ← get_elem? s.nodes id
  some (elim slot [
    | none ↦ not_known node_not_exist_exception
    | some n ↦ known (describe id n.node) n.node.node_description
  ])

-- The condition of the accesses: the node exists.
abbrev pub with_node : NodeMgr → ℕ → (Node → Option Outcome) → Option Outcome
with_node s id access = get_elem? s.nodes id >>= (λ slot. elim slot [
  | none ↦ some (thrown node_not_exist_exception)
  | some n ↦ access n.node
])

module _ (h : H9Def) (m : Memory) (bus : H9Frame → Traffic) (garbage : List ℕ) where
  unfoldable pub get_register : NodeMgr → ℕ → ℕ → Option Outcome
  get_register s id reg = with_node s id (λ n. Access.get_register h m bus id garbage n reg)

  unfoldable pub set_register : NodeMgr → ℕ → ℕ → RegValue → Option Outcome
  set_register s id reg value =
      with_node s id (λ n. Access.set_register h m bus id garbage n reg value)

  unfoldable pub set_register_bit : NodeMgr → ℕ → ℕ → ℕ → Option Outcome
  set_register_bit s id reg bit_num =
      with_node s id (λ n. Access.set_register_bit h m bus id garbage n reg bit_num)

  unfoldable pub clear_register_bit : NodeMgr → ℕ → ℕ → ℕ → Option Outcome
  clear_register_bit s id reg bit_num =
      with_node s id (λ n. Access.clear_register_bit h m bus id garbage n reg bit_num)

  unfoldable pub node_reset : NodeMgr → ℕ → Option (Option DevNodeException)
  node_reset s id = get_elem? s.nodes id >>= (λ slot. elim slot [
    | none ↦ some (some node_not_exist_exception)
    | some n ↦ Access.node_reset h m bus id garbage
  ])

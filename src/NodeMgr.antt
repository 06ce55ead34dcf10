-- ===== src/NodeMgr.antt =====
-- h9d/node_mgr.h and node_mgr.cc: the table of the nodes, the thread that keeps it up to date with
-- the frames that are received, the devices that depend on nodes, and the observers of devices; the
-- queue of h9d/dev_workers.cc. A `none` is an index out of bounds, a null pointer that is followed,
-- or an exception that nothing catches. The times of a node are left out, and `devs_map` is in the
-- order in which the devices were added.
pub mod Queries
pub mod Update
pub mod Info
pub mod Abstract
pub mod Listing
pub mod Devices
use h9d.Prelude.{
  ℕ, zero, suc, ◌+◌, ◌/◌, ◌%◌, Bool, true, false, ◌&&◌, ◌||◌, not, List, [], ◌∷◌, ◌++◌, Option,
  some, none, ◌>>=◌, String, get_elem?, set, length, map, leb, ◌==◌, u16, u32, bit_or, ◌<<<◌, ◌>>>◌,
  if◌then◌else◌,
}
use h9d.H9def.{H9Def}
use h9d.Frame.{H9Frame, id_max_value}
use h9d.RawNode.Promise.{FramePromise, on_frame_recv}
use h9d.RawNode.NodeInfo.{NodeInfo, parse_node_info_frame}
use h9d.Node.Registers.{
  same_string, RegisterDesc, NodeDescLoader, Node, new_node, load_description, init,
}

-- A node with the promises of its `RawNode`, and the names of the devices that depend on it.
pub record ManagedNode : Type 0 where
  pub node : Node
  pub frame_promises : List FramePromise
  pub dependent_devices : List String

pub record Dev : Type 0 where
  pub name : String
  pub type : String
  pub dependent_on_nodes : List ℕ

pub data Task : Type 0 where
  periodic_task : String → Task
  update_task : String → ℕ → H9Frame → Task

-- A null pointer of `nodes` is `none`.
pub record NodeMgr : Type 0 where
  pub nodes : List (Option ManagedNode)
  pub devs_map : List Dev
  pub dev_status_observer : List ℕ
  pub frame_queue : List H9Frame
  pub task_queue : List Task
  pub nodedescloader : NodeDescLoader

abbrev pub nulls : ℕ → List (Option ManagedNode)
nulls zero = []
nulls (suc n) = none ∷ nulls n

unfoldable pub new_node_mgr : H9Def → NodeDescLoader → NodeMgr
new_node_mgr h l = record {
  nodes = nulls (id_max_value h + 1);
  devs_map = [];
  dev_status_observer = [];
  frame_queue = [];
  task_queue = [];
  nodedescloader = l;
}

unfoldable pub on_frame_recv_queue : H9Frame → NodeMgr → NodeMgr
on_frame_recv_queue f s = record s { frame_queue = s.frame_queue ++ f ∷ [] }

-- `node_version_major` and `node_version_minor`.
unfoldable pub node_version_major : Node → ℕ
node_version_major n = u16 (n.node_version >>> 16)

unfoldable pub node_version_minor : Node → ℕ
node_version_minor n = u16 n.node_version

-- `new Node`, on memory that holds `revision` and `reason`.
unfoldable pub create_node : ℕ → ℕ → ManagedNode
create_node revision reason = record {
  node = new_node revision reason;
  frame_promises = [];
  dependent_devices = [];
}

-- The node at an index, created if there is none.
abbrev pub node_or_new : ℕ → ℕ → Option ManagedNode → ManagedNode
node_or_new revision reason none = create_node revision reason
node_or_new revision reason (some n) = n

-- The version as `nodes_dev_update_thread` packs it for `init_node`.
unfoldable pub packed_version : NodeInfo → ℕ
packed_version i = u32 (bit_or (i.version_major <<< 16) i.version_minor)

unfoldable pub init_node : NodeDescLoader → NodeInfo → ManagedNode → ManagedNode
unfolding packed_version
init_node l i n = record n {
  node = init l i.node_type (packed_version i) i.hardware_revision i.reset_reason n.node;
}

module _ (h : H9Def) (revision reason : ℕ) where
  -- What the thread does with a frame that it has taken from the queue.
  unfoldable pub update_node : H9Frame → NodeMgr → Option NodeMgr
  update_node f s = do
    slot ← get_elem? s.nodes f.source_id
    let found = node_or_new revision reason slot
    let known =
        if f.type == h.node_info || f.type == h.node_turned_on
        then init_node s.nodedescloader (parse_node_info_frame f) found
        else found
    promises ← on_frame_recv f known.frame_promises
    some (record s {
      nodes = set s.nodes f.source_id (some (record known { frame_promises = promises }));
      task_queue = s.task_queue ++ map (λ d. update_task d f.source_id f) known.dependent_devices;
    })

  -- One turn of `nodes_dev_update_thread`; with no frame, the thread waits until the next periodic
  -- task of the devices.
  unfoldable pub nodes_dev_update : NodeMgr → Option NodeMgr
  nodes_dev_update s = elim s.frame_queue [
    | [] ↦
        some (record s { task_queue = s.task_queue ++ map (λ d. periodic_task d.name) s.devs_map })
    | f ∷ rest ↦ update_node f (record s { frame_queue = rest })
  ]

  -- So many turns.
  unfoldable pub nodes_dev_updates : ℕ → NodeMgr → Option NodeMgr
  nodes_dev_updates zero s = some s
  nodes_dev_updates (suc n) s = nodes_dev_update s >>= nodes_dev_updates n

  -- The loop over the nodes of a device, in `add_dev`.
  unfoldable pub add_dependent_devices :
      List ℕ → String → List (Option ManagedNode) → Option (List (Option ManagedNode))
  add_dependent_devices [] name nodes = some nodes
  add_dependent_devices (id ∷ ids) name nodes =
      let depend = λ (slot : Option ManagedNode).
        let n = node_or_new revision reason slot in
        set nodes id (some (record n { dependent_devices = n.dependent_devices ++ name ∷ [] })) in
      if leb id (id_max_value h)
      then (get_elem? nodes id >>= (λ slot. add_dependent_devices ids name (depend slot)))
      else add_dependent_devices ids name nodes

-- `devs_map.count`.
unfoldable pub has_dev : String → List Dev → Bool
has_dev name [] = false
has_dev name (d ∷ ds) = same_string d.name name || has_dev name ds

unfoldable pub add_dev : H9Def → ℕ → ℕ → Dev → NodeMgr → Option NodeMgr
add_dev h revision reason dev s = if has_dev dev.name s.devs_map then some s else do
  nodes ← add_dependent_devices h revision reason dev.dependent_on_nodes dev.name s.nodes
  some (record s { nodes = nodes; devs_map = s.devs_map ++ dev ∷ [] })

-- `std::list::remove`.
unfoldable pub remove : String → List String → List String
remove name [] = []
remove name (d ∷ ds) = let rest = remove name ds in if same_string d name then rest else d ∷ rest

-- The loop over the nodes of a device, in `del_dev`.
unfoldable pub del_dependent_devices :
    H9Def → List ℕ → String → List (Option ManagedNode) → Option (List (Option ManagedNode))
unfolding remove
del_dependent_devices h [] name nodes = some nodes
del_dependent_devices h (id ∷ ids) name nodes =
    let without = λ (n : ManagedNode).
      set nodes id (some (record n { dependent_devices = remove name n.dependent_devices })) in
    if leb id (id_max_value h)
    then (get_elem? nodes id
        >>= (λ slot. slot >>= (λ n. del_dependent_devices h ids name (without n))))
    else del_dependent_devices h ids name nodes

abbrev pub find_dev : String → List Dev → Option Dev
find_dev name [] = none
find_dev name (d ∷ ds) = if same_string d.name name then some d else find_dev name ds

unfoldable pub del_dev : H9Def → String → NodeMgr → Option NodeMgr
del_dev h name s = elim (find_dev name s.devs_map) [
  | none ↦ some s
  | some dev ↦ do
    nodes ← del_dependent_devices h dev.dependent_on_nodes name s.nodes
    some (record s { nodes = nodes })
]

-- `reload_nodes_description`, with what the loader has read: a description for each node that is
-- initialised.
abbrev pub redescribe : NodeDescLoader → Option ManagedNode → Option ManagedNode
redescribe l none = none
redescribe l (some n) =
    some (if n.node.is_init then record n { node = load_description l n.node } else n)

unfoldable pub reload_nodes_description : NodeDescLoader → NodeMgr → NodeMgr
reload_nodes_description l s = record s { nodes = map (redescribe l) s.nodes; nodedescloader = l }

unfoldable pub attach_dev_state_observer : ℕ → NodeMgr → NodeMgr
attach_dev_state_observer obs s = record s {
  dev_status_observer = s.dev_status_observer ++ obs ∷ [];
}

abbrev pub erase : ℕ → List ℕ → List ℕ
erase obs [] = []
erase obs (o ∷ os) = let rest = erase obs os in if o == obs then rest else o ∷ rest

unfoldable pub detach_dev_state_observer : ℕ → NodeMgr → NodeMgr
detach_dev_state_observer obs s = record s { dev_status_observer = erase obs s.dev_status_observer }

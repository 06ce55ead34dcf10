-- ===== src/Examples/Managers.antt =====
-- h9d/node_mgr.cc with a sensor of the type 7.
use h9d.Prelude.{◌≡◌, refl, arith, [], ◌∷◌, none, some, true, set}
use h9d.H9def.{frame_md, frame_md-IsLayout}
use h9d.Frame.{H9Frame}
use h9d.RawNode.NodeInfo.{two_bytes, parse_node_info_frame}
use h9d.Node.Registers.{load_description, new_node}
use h9d.NodeMgr.{
  ManagedNode, Dev, NodeMgr, new_node_mgr, create_node, update_node, nodes_dev_updates,
  on_frame_recv_queue, has_dev, add_dev, del_dev, del_dependent_devices, remove,
}
use h9d.NodeMgr.Queries.{describe}
use h9d.NodeMgr.Update.{IsManaged, new_node_mgr-IsManaged, nodes_dev_updates-IsManaged}
use h9d.NodeMgr.Abstract.{nodes_map, heard_all, nodes_dev_updates-nodes_map}
use h9d.NodeMgr.Info.{update_node-info}
use h9d.NodeMgr.Devices.{del_dev-add_dev}
use h9d.Examples.{blank}
use h9d.Examples.Nodes.{loader, loader-IsLoader}

-- The node 3 is of the type 7, in version 1.2, revision A.
abbrev info : H9Frame
info = record blank {
  type = 21;
  source_id = 3;
  dlc = 8;
  data_bytes = 0 ∷ 7 ∷ 0 ∷ 1 ∷ 0 ∷ 2 ∷ 65 ∷ 0 ∷ [];
}

abbrev empty : NodeMgr
unfolding new_node_mgr
empty = new_node_mgr frame_md loader

empty-IsManaged : IsManaged 10 empty
unfolding new_node_mgr
empty-IsManaged = new_node_mgr-IsManaged frame_md 10 loader frame_md-IsLayout

abbrev told : NodeMgr
told = on_frame_recv_queue info empty

nodes_dev_updates-IsManaged_example :
    (t : NodeMgr) × (nodes_dev_updates frame_md 0 0 2 told ≡ some t) × IsManaged 10 t
unfolding on_frame_recv_queue new_node_mgr
nodes_dev_updates-IsManaged_example =
    nodes_dev_updates-IsManaged frame_md 0 0 10 2 told loader-IsLoader (omega arith, tt)
      (record { size = empty-IsManaged.size; kept = empty-IsManaged.kept })

update_node-info_example :
    (t : NodeMgr) × (n : ManagedNode) × (update_node frame_md 0 0 info empty ≡ some t)
    × (t.nodes ≡ set empty.nodes 3 (some n))
    × (n.node.is_init ≡ true)
    × (describe 3 n.node ≡ record {
      id = 3;
      type = 7;
      version_major = 1;
      version_minor = 2;
      hardware_revision = 65;
      reset_reason = 0;
      name = n.node.node_name;
    })
unfolding new_node_mgr parse_node_info_frame two_bytes
update_node-info_example =
    update_node-info frame_md 0 0 10 info empty loader-IsLoader (omega arith) empty-IsManaged refl

abbrev sensor : ManagedNode
unfolding create_node new_node
sensor =
    let n = create_node 65 0 in
    record n { node = record (n.node) { node_type = 7; is_init = true } }

abbrev table : NodeMgr
table = record empty { nodes = none ∷ some sensor ∷ [] }

abbrev described : ManagedNode
unfolding create_node new_node load_description
described = record sensor { node = load_description loader sensor.node }

abbrev antenna : Dev
antenna = record { name = "antenna"; type = "AntennaSwitch"; dependent_on_nodes = 3 ∷ 300 ∷ [] }

abbrev with_antenna : NodeMgr
unfolding new_node_mgr create_node new_node
with_antenna = record table {
  nodes = none ∷ none ∷ none ∷ some sensor ∷ [];
  devs_map = antenna ∷ [];
}

del_dev-add_dev_example :
    (with_antenna.devs_map ≡ antenna ∷ [])
    × (add_dev frame_md 0 0 antenna with_antenna ≡ some with_antenna)
unfolding new_node_mgr create_node new_node has_dev del_dev del_dependent_devices remove
del_dev-add_dev_example =
    del_dev-add_dev frame_md frame_md-IsLayout 0 0 antenna with_antenna with_antenna refl refl

nodes_dev_updates-nodes_map_example :
    (t : NodeMgr) × (nodes_dev_updates frame_md 0 0 1 told ≡ some t)
    × (nodes_map t 3 ≡ heard_all frame_md 0 0 loader (info ∷ []) (nodes_map told) 3)
unfolding on_frame_recv_queue new_node_mgr
nodes_dev_updates-nodes_map_example =
    nodes_dev_updates-nodes_map frame_md 0 0 10 told (info ∷ []) 3 loader-IsLoader refl
      (omega arith, tt) (record { size = empty-IsManaged.size; kept = empty-IsManaged.kept })

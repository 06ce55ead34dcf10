-- ===== src/NodeMgr/Info.antt =====
-- A node of h9d/node_mgr.cc that tells what it is.
use h9d.Prelude.{
  ℕ, ◌+◌, ◌*◌, ◌^◌, ◌%◌, ◌<◌, ◌≡◌, refl, arith, true, ◌||◌, some, set, u32, bit_or_fields, ap, ◌∙◌,
  ◌==◌,
}
use h9d.H9def.{H9Def}
use h9d.Frame.{H9Frame}
use h9d.RawNode.NodeInfo.{NodeInfo, parse_node_info_frame, two_bytes}
use h9d.Node.Registers.{NodeDescLoader, Node}
use h9d.Node.Description.{IsLoader, IsDescribed, init-IsDescribed}
use h9d.NodeMgr.{
  ManagedNode, NodeMgr, node_or_new, packed_version, init_node, update_node, node_version_major,
  node_version_minor,
}
use h9d.NodeMgr.Queries.{describe}
use h9d.NodeMgr.Update.{IsManaged, updated, after, update_node-IsManaged}

two_bytes-u16 : (a b : ℕ) → two_bytes a b < 65536
unfolding two_bytes
two_bytes-u16 a b = omega arith

-- The version of a node is the one that was packed.
version_lem :
    (i : NodeInfo) (n : Node)
    → i.version_major < 65536
    → i.version_minor < 65536
    → n.node_version ≡ packed_version i
    → (node_version_major n ≡ i.version_major) × (node_version_minor n ≡ i.version_minor)
unfolding packed_version node_version_major node_version_minor
version_lem i n major minor e =
    let packed : n.node_version ≡ (i.version_major * 2 ^ 16 + i.version_minor) % 2 ^ 32 =
      e ∙ ap u32 (bit_or_fields 16 i.version_major i.version_minor (omega arith)) in
    (rw packed (omega arith), rw packed (omega arith))

init-describe :
    (last id : ℕ) (l : NodeDescLoader) (f : H9Frame) (n : ManagedNode)
    → IsLoader last l
    → IsDescribed last l n.node
    → ((init_node l (parse_node_info_frame f) n).node.is_init ≡ true)
      × (describe id (init_node l (parse_node_info_frame f) n).node ≡ (
          let i = parse_node_info_frame f in
          record {
            id = id;
            type = i.node_type;
            version_major = i.version_major;
            version_minor = i.version_minor;
            hardware_revision = i.hardware_revision;
            reset_reason = i.reset_reason;
            name = (init_node l i n).node.node_name;
          }))
unfolding describe init_node parse_node_info_frame
init-describe last id l f n w described =
    let i = parse_node_info_frame f in
    let (_, begun, type, version, hardware, cause) =
      init-IsDescribed last l n.node i.node_type (packed_version i) i.hardware_revision
        i.reset_reason w described in
    let both =
      version_lem i (init_node l i n).node (two_bytes-u16 _ _) (two_bytes-u16 _ _) version in
    (begun, rw (both.0, both.1, type, hardware, cause) refl)

-- In a table in order, with a loader as its description file leaves it, a NODE_INFO or
-- NODE_TURNED_ON frame from an id of a byte makes the node that sent it initialised: the node is
-- described
-- with the type, both versions, the hardware revision and the reset reason that the frame carries.
-- The table has every other node as before.
pub update_node-info :
    (h : H9Def) (revision reason last : ℕ) (f : H9Frame) (s : NodeMgr)
    → IsLoader last s.nodedescloader
    → f.source_id < 256
    → IsManaged last s
    → (f.type == h.node_info || f.type == h.node_turned_on) ≡ true
    → (t : NodeMgr) × (n : ManagedNode) × (update_node h revision reason f s ≡ some t)
      × (t.nodes ≡ set s.nodes f.source_id (some n))
      × (n.node.is_init ≡ true)
      × (describe f.source_id n.node ≡ (
          let i = parse_node_info_frame f in
          record {
            id = f.source_id;
            type = i.node_type;
            version_major = i.version_major;
            version_minor = i.version_minor;
            hardware_revision = i.hardware_revision;
            reset_reason = i.reset_reason;
            name = n.node.node_name;
          }))
update_node-info h revision reason last f s w below ok info =
    let (slot, promises, here, done, ok', found) =
      update_node-IsManaged h revision reason last f s w below ok in
    let l = s.nodedescloader in
    let n = node_or_new revision reason slot in
    let m = record (updated h revision reason f l n) { frame_promises = promises } in
    let listed = init-describe last f.source_id l f n w (found.0) in
    (
      after h revision reason f s (updated h revision reason f l n) promises,
      m,
      done,
      refl,
      rw info (listed.0),
      rw info (listed.1),
    )

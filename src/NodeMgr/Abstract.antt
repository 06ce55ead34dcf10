-- ===== src/NodeMgr/Abstract.antt =====
-- The table of h9d/node_mgr.cc as a map from ids to nodes, without its promises, queues and devices.
use h9d.Prelude.{
  ℕ, ◌<◌, ◌≡◌, refl, arith, Bool-cases, inl, inr, ◌||◌, List, [], ◌∷◌, Option, some, none, ◌>>=◌,
  get_elem?, get_elem?-set, length, subst, ap, ◌∙◌, ◌==◌, if◌then◌else◌,
}
use h9d.H9def.{H9Def}
use h9d.Frame.{H9Frame}
use h9d.RawNode.Promise.{FramePromise}
use h9d.RawNode.NodeInfo.{parse_node_info_frame}
use h9d.Node.Registers.{NodeDescLoader, Node, new_node, init}
use h9d.Node.Description.{IsLoader}
use h9d.NodeMgr.{
  ManagedNode, NodeMgr, create_node, node_or_new, packed_version, init_node, nodes_dev_updates,
}
use h9d.NodeMgr.Update.{IsManaged, AllFromNodes, updated, after, update_node-IsManaged, turn_takes}

-- A place of the table, as the map has it.
abbrev pub node_of : Option ManagedNode → Option Node
node_of none = none
node_of (some n) = some n.node

-- The map that the table stands for.
abbrev pub nodes_map : NodeMgr → ℕ → Option Node
nodes_map s id = get_elem? s.nodes id >>= node_of

module _ (h : H9Def) (revision reason : ℕ) where
  abbrev pub known_or_new : Option Node → Node
  known_or_new none = new_node revision reason
  known_or_new (some n) = n

  -- A node that has sent a frame.
  abbrev pub heard : NodeDescLoader → H9Frame → Option Node → Node
  heard l f known =
      let i = parse_node_info_frame f in
      if f.type == h.node_info || f.type == h.node_turned_on
      then init l i.node_type (packed_version i) i.hardware_revision i.reset_reason
          (known_or_new known)
      else known_or_new known

  -- The frames in order: each changes the map at its sender, and nowhere else.
  abbrev pub heard_all : NodeDescLoader → List H9Frame → (ℕ → Option Node) → ℕ → Option Node
  heard_all l [] nodes = nodes
  heard_all l (f ∷ fs) nodes =
      heard_all l fs (λ id. if f.source_id == id then some (heard l f (nodes id)) else nodes id)

  node_or_new-node :
      (slot : Option ManagedNode)
      → (node_or_new revision reason slot).node ≡ known_or_new (node_of slot)
  unfolding create_node
  node_or_new-node none = refl
  node_or_new-node (some n) = refl

  heard-updated :
      (l : NodeDescLoader) (f : H9Frame) (slot : Option ManagedNode)
      → (updated h revision reason f l (node_or_new revision reason slot)).node
        ≡ heard l f (node_of slot)
  unfolding init_node
  heard-updated l f slot = elim (Bool-cases (f.type == h.node_info || f.type == h.node_turned_on)) [
    | inl info ↦ rw (info, node_or_new-node slot) refl
    | inr other ↦ rw (other, node_or_new-node slot) refl
  ]

  heard_all-same :
      (l : NodeDescLoader) (fs : List H9Frame) (m n : ℕ → Option Node) (i : ℕ)
      → ((j : ℕ) → m j ≡ n j)
      → heard_all l fs m i ≡ heard_all l fs n i
  heard_all-same l [] m n i same = same i
  heard_all-same l (f ∷ fs) m n i same = heard_all-same l fs _ _ i (λ j. rw (same j) refl)

  -- The map after a frame.
  after-nodes_map :
      (f : H9Frame) (s : NodeMgr) (slot : Option ManagedNode) (promises : List FramePromise) (i : ℕ)
      → get_elem? s.nodes f.source_id ≡ some slot
      → f.source_id < length s.nodes
      → nodes_map
          (after h revision reason f s
            (updated h revision reason f s.nodedescloader (node_or_new revision reason slot))
            promises)
          i
        ≡ (if f.source_id == i
            then some (heard s.nodedescloader f (nodes_map s i))
            else nodes_map s i)
  after-nodes_map f s slot promises i here below = elim (Bool-cases (f.source_id == i)) [
    | inl this ↦
        let same : f.source_id ≡ i = ground arith in
        let there : get_elem? s.nodes i ≡ some slot =
          subst (λ (j : ℕ). get_elem? s.nodes j ≡ some slot) same here in
        rw (get_elem?-set s.nodes f.source_id i _ below, this, there)
          (ap {B = Option Node} some (heard-updated s.nodedescloader f slot))
    | inr other ↦ rw (get_elem?-set s.nodes f.source_id i _ below, other) refl
  ]

  -- From a table in order, with a loader as its description file leaves it and frames whose senders'
  -- ids are bytes, the thread, in as many turns as there are frames in its queue, makes of the table
  -- what the frames, one after the other, make of a map from ids to nodes: a frame is heard by the node that
  -- sent it, which is new if the map has none, and by no other node; of a frame that tells what the
  -- node is, the node takes its type, version, revision, reset reason and description.
  pub nodes_dev_updates-nodes_map :
      (last : ℕ) (s : NodeMgr) (fs : List H9Frame) (i : ℕ)
      → IsLoader last s.nodedescloader
      → s.frame_queue ≡ fs
      → AllFromNodes fs
      → IsManaged last s
      → (t : NodeMgr) × (nodes_dev_updates h revision reason (length fs) s ≡ some t)
        × (nodes_map t i ≡ heard_all s.nodedescloader fs (nodes_map s) i)
  unfolding nodes_dev_updates
  nodes_dev_updates-nodes_map last s [] i w queued ids ok = (s, refl, refl)
  nodes_dev_updates-nodes_map last s (f ∷ fs) i w queued ids ok =
      let s' = record s { frame_queue = fs } in
      let (slot, promises, here, done, ok', _) =
        update_node-IsManaged h revision reason last f s' w (ids.0)
          (record { size = ok.size; kept = ok.kept }) in
      let n = updated h revision reason f s.nodedescloader (node_or_new revision reason slot) in
      let (t, more, map) =
        nodes_dev_updates-nodes_map last (after h revision reason f s' n promises) fs i w refl
          (ids.1) ok' in
      (
        t,
        rw (turn_takes h revision reason s f fs queued, done) more,
        map
            ∙ heard_all-same s.nodedescloader fs _ _ i
                (λ j. after-nodes_map f s' slot promises j here (omega (arith, ids.0, ok.size))),
      )

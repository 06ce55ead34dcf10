-- ===== src/NodeMgr/Update.antt =====
-- The table of the nodes in h9d/node_mgr.cc, and the frames that are received.
use h9d.Prelude.{
  ℕ, suc, zero, ◌+◌, ◌<◌, ◌≢◌, ◌≡◌, ◌⊎◌, refl, arith, Bool-cases, inl, inr, ◌||◌, List, [], ◌∷◌,
  ◌++◌, Option, some, none, get_elem?, get_elem?-some, get_elem?-set, set, length, length-set, map,
  low_mask, subst, ap, ◌∙◌, ◌==◌, if◌then◌else◌,
}
use h9d.H9def.{H9Def, IsLayout}
use h9d.Frame.{H9Frame, id_max_value}
use h9d.RawNode.Promise.{FramePromise, on_frame_recv}
use h9d.RawNode.Delivery.{AllOpen, on_frame_recv-AllOpen}
use h9d.RawNode.NodeInfo.{NodeInfo, parse_node_info_frame}
use h9d.Node.Registers.{NodeDescLoader, new_node}
use h9d.Node.Description.{IsLoader, IsDescribed, init-IsDescribed}
use h9d.NodeMgr.{
  ManagedNode, NodeMgr, nulls, new_node_mgr, update_task, periodic_task, nodes_dev_update,
  nodes_dev_updates, create_node, node_or_new, packed_version, init_node, update_node,
}

-- A node is described by the loader, and no promise in its set has its value yet.
abbrev pub IsKept : ℕ → NodeDescLoader → ManagedNode → Type 0
IsKept last l n = IsDescribed last l n.node × AllOpen n.frame_promises

pub record IsManaged (last : ℕ) (s : NodeMgr) : Type 0 where
  pub size : length s.nodes ≡ 256
  pub kept :
      (i : ℕ) (n : ManagedNode)
      → get_elem? s.nodes i ≡ some (some n)
      → IsKept last s.nodedescloader n

pub node_or_new-IsKept :
    (last : ℕ) (s : NodeMgr) (i revision reason : ℕ) (slot : Option ManagedNode)
    → IsManaged last s
    → get_elem? s.nodes i ≡ some slot
    → IsKept last s.nodedescloader (node_or_new revision reason slot)
unfolding create_node new_node
node_or_new-IsKept last s i revision reason none ok here = (inl refl, tt)
node_or_new-IsKept last s i revision reason (some n) ok here = ok.kept i n here

init_node-IsKept :
    (last : ℕ) (l : NodeDescLoader) (i : NodeInfo) (n : ManagedNode)
    → IsLoader last l
    → IsKept last l n
    → IsKept last l (init_node l i n)
unfolding init_node
init_node-IsKept last l i n w (described, still) = (
  (init-IsDescribed last l n.node i.node_type (packed_version i) i.hardware_revision i.reset_reason
      w described).0,
  still,
)

pub set-IsManaged :
    (last : ℕ) (s : NodeMgr) (i : ℕ) (n : ManagedNode)
    → IsManaged last s
    → i < 256
    → IsKept last s.nodedescloader n
    → IsManaged last (record s { nodes = set s.nodes i (some n) })
set-IsManaged last s i n ok below good = record {
  size = length-set s.nodes i (some n) ∙ ok.size;
  kept = λ j m there. elim (Bool-cases (i == j)) [
    | inl this ↦
        let same : n ≡ m = ground (arith, get_elem?-set s.nodes i j (some n), ok.size) in
        subst (IsKept last s.nodedescloader) same good
    | inr other ↦ ok.kept j m (ground (arith, get_elem?-set s.nodes i j (some n)))
  ];
}

nulls-none : (size i : ℕ) (n : ManagedNode) → get_elem? (nulls size) i ≢ some (some n)
nulls-none zero i n = λ here. cc
nulls-none (suc size) zero n = λ here. cc
nulls-none (suc size) (suc i) n = nulls-none size i n

length-nulls : (size : ℕ) → length (nulls size) ≡ size
length-nulls zero = refl
length-nulls (suc size) = ap suc (length-nulls size)

pub new_node_mgr-IsManaged :
    (h : H9Def) (last : ℕ) (l : NodeDescLoader) → IsLayout h → IsManaged last (new_node_mgr h l)
unfolding new_node_mgr
new_node_mgr-IsManaged h last l layout = record {
  size = length-nulls (id_max_value h + 1) ∙ ap (λ (k : ℕ). low_mask k + 1) layout.id_bits;
  kept = λ i n here. absurd (nulls-none (id_max_value h + 1) i n here);
}

-- The senders of frames are nodes.
abbrev pub AllFromNodes : List H9Frame → Type 0
AllFromNodes [] = Unit {0}
AllFromNodes (f ∷ fs) = (f.source_id < 256) × AllFromNodes fs

queue_cases :
    (q : List H9Frame) → (q ≡ []) ⊎ ((f : H9Frame) × (rest : List H9Frame) × (q ≡ f ∷ rest))
queue_cases [] = inl refl
queue_cases (f ∷ rest) = inr (f, rest, refl)

module _ (h : H9Def) (revision reason : ℕ) where
  abbrev pub updated : H9Frame → NodeDescLoader → ManagedNode → ManagedNode
  updated f l n =
      if f.type == h.node_info || f.type == h.node_turned_on
      then init_node l (parse_node_info_frame f) n
      else n

  updated-IsKept :
      (last : ℕ) (l : NodeDescLoader) (f : H9Frame) (n : ManagedNode)
      → IsLoader last l
      → IsKept last l n
      → IsKept last l (updated f l n)
  updated-IsKept last l f n w good =
      elim (Bool-cases (f.type == h.node_info || f.type == h.node_turned_on)) [
        | inl info ↦ rw info (init_node-IsKept last l (parse_node_info_frame f) n w good)
        | inr other ↦ rw other good
      ]

  abbrev pub after : H9Frame → NodeMgr → ManagedNode → List FramePromise → NodeMgr
  after f s n promises = record s {
    nodes = set s.nodes f.source_id (some (record n { frame_promises = promises }));
    task_queue = s.task_queue ++ map (λ d. update_task d f.source_id f) n.dependent_devices;
  }

  update_node_lem :
      (f : H9Frame) (s : NodeMgr) (slot : Option ManagedNode) (promises : List FramePromise)
      → get_elem? s.nodes f.source_id ≡ some slot
      → on_frame_recv f
          (updated f s.nodedescloader (node_or_new revision reason slot)).frame_promises
        ≡ some promises
      → update_node h revision reason f s
        ≡ some (after f s (updated f s.nodedescloader (node_or_new revision reason slot)) promises)
  unfolding update_node
  update_node_lem f s slot promises here given = rw (here, given) refl

  pub update_node-IsManaged :
      (last : ℕ) (f : H9Frame) (s : NodeMgr)
      → IsLoader last s.nodedescloader
      → f.source_id < 256
      → IsManaged last s
      → (slot : Option ManagedNode) × (promises : List FramePromise) × (get_elem? s.nodes
            f.source_id
          ≡ some slot)
        × (update_node h revision reason f s
            ≡ some (
                after f s (updated f s.nodedescloader (node_or_new revision reason slot)) promises))
        × IsManaged last
            (after f s (updated f s.nodedescloader (node_or_new revision reason slot)) promises)
        × IsKept last s.nodedescloader (node_or_new revision reason slot)
  update_node-IsManaged last f s w below ok =
      let (slot, here) = get_elem?-some s.nodes f.source_id (omega (arith, ok.size)) in
      let found = node_or_new-IsKept last s f.source_id revision reason slot ok here in
      let n = updated f s.nodedescloader (node_or_new revision reason slot) in
      let good : IsKept last s.nodedescloader n =
        updated-IsKept last s.nodedescloader f (node_or_new revision reason slot) w found in
      let (promises, given, still) = on_frame_recv-AllOpen f n.frame_promises (good.1) in
      let m = record n { frame_promises = promises } in
      let set_ok = set-IsManaged last s f.source_id m ok below (good.0, still) in
      (
        slot,
        promises,
        here,
        update_node_lem f s slot promises here given,
        record { size = set_ok.size; kept = set_ok.kept },
        found,
      )

  abbrev idle : NodeMgr → NodeMgr
  idle s = record s { task_queue = s.task_queue ++ map (λ d. periodic_task d.name) s.devs_map }

  turn_idle :
      (s : NodeMgr) → s.frame_queue ≡ [] → nodes_dev_update h revision reason s ≡ some (idle s)
  unfolding nodes_dev_update
  turn_idle s empty = rw empty refl

  pub turn_takes :
      (s : NodeMgr) (f : H9Frame) (rest : List H9Frame)
      → s.frame_queue ≡ f ∷ rest
      → nodes_dev_update h revision reason s
        ≡ update_node h revision reason f (record s { frame_queue = rest })
  unfolding nodes_dev_update
  turn_takes s f rest queued = rw queued refl

  -- A table of the nodes in order, with a loader as its description file leaves it, takes the frames
  -- of its queue, whose senders' ids are bytes, in any number of turns, without an exception or an index out of bounds; after them it has its
  -- 256 places, each node in it is as the loader describes its type, or of type 0, and no promise of
  -- a node that is still asked for has its value.
  pub nodes_dev_updates-IsManaged :
      (last turns : ℕ) (s : NodeMgr)
      → IsLoader last s.nodedescloader
      → AllFromNodes s.frame_queue
      → IsManaged last s
      → (t : NodeMgr) × (nodes_dev_updates h revision reason turns s ≡ some t) × IsManaged last t
  unfolding nodes_dev_updates
  nodes_dev_updates-IsManaged last zero s w ids ok = (s, refl, ok)
  nodes_dev_updates-IsManaged last (suc turns) s w ids ok = elim (queue_cases s.frame_queue) [
    | inl empty ↦
        let (t, done, ok') =
          nodes_dev_updates-IsManaged last turns (idle s) w ids
            (record { size = ok.size; kept = ok.kept }) in
        (t, rw (turn_idle s empty) done, ok')
    | inr (f, rest, queued) ↦
        let ids' = subst AllFromNodes queued ids in
        let s' = record s { frame_queue = rest } in
        let (slot, promises, _, done, ok', _) =
          update_node-IsManaged last f s' w (ids'.0) (record { size = ok.size; kept = ok.kept }) in
        let (t, more, ok'') =
          nodes_dev_updates-IsManaged last turns
            (after f s' (updated f s.nodedescloader (node_or_new revision reason slot)) promises) w
            (ids'.1) ok' in
        (t, rw (turn_takes s f rest queued, done) more, ok'')
  ]

-- ===== src/Examples/Requests.antt =====
-- The requests of h9d/raw_node.cc at concrete traffic.
use h9d.Prelude.{subst, ◌≡◌, ◌↔◌, refl, arith, List, [], ◌∷◌, true, some, find?, ◌/◌, ◌%◌, ◌^◌}
use h9d.H9def.{frame_md, frame_md-IsLayout}
use h9d.Frame.{H9Frame, deserialize_can, unicast_frame, set_data}
use h9d.Comparator.{matches, set_seqnum, compares, default_comparator}
use h9d.RawNode.Promise.{FramePromise, create_frame_promise}
use h9d.RawNode.Delivery.{is_none, exchange, exchange_lem}
use h9d.RawNode.Request.{reset_comparator, get_reg}
use h9d.RawNode.Replies.{IsWellFormed, AllWellFormed, register_outcome, first_reply, get_reg_lem}
use h9d.RawNode.NodeInfo.{NodeInfo}
use h9d.RawNode.Reset.{reset_turned_on}
use h9d.Examples.{reply, blank, memory, request, traffic}

exchange_lem_example :
    (p : FramePromise) × (exchange 1 (default_comparator frame_md 0) (blank ∷ []) 5 (reply ∷ [])
      ≡ some p)
    × (p.promise
        ≡ find? (matches (set_seqnum 5 (default_comparator frame_md 0))) (blank ∷ reply ∷ []))
    × (p.registered ≡ is_none p.promise)
unfolding default_comparator compares
exchange_lem_example =
    exchange_lem 1 (default_comparator frame_md 0) (blank ∷ []) (reply ∷ []) 5 refl

abbrev promises : List FramePromise
unfolding create_frame_promise default_comparator
promises = create_frame_promise 1 (default_comparator frame_md 0) ∷ []

abbrev pub traffic-AllWellFormed : AllWellFormed (blank ∷ reply ∷ [])
traffic-AllWellFormed =
    ((omega arith, refl, omega arith), ((omega arith, refl, omega arith), record {}))

get_reg_lem_example :
    get_reg frame_md memory (traffic reply) "h9d" 3 20 2 (0 ∷ 0 ∷ [])
    ≡ some (
        register_outcome frame_md 2
          (0 ∷ 0 ∷ [])
          (first_reply frame_md 0 3 20 (traffic reply (request 11 (20 ∷ [])))))
unfolding unicast_frame set_data
get_reg_lem_example =
    get_reg_lem frame_md memory (traffic reply) "h9d" 3 20 2 (0 ∷ 0 ∷ []) (request 11 (20 ∷ []))
      refl (omega arith) traffic-AllWellFormed

only_reply : (f : H9Frame) → some reply ≡ some f → IsWellFormed f
only_reply f e =
    let same : reply ≡ f = cc in subst IsWellFormed same (omega arith, refl, omega arith)

-- NODE_TURNED_ON of the node 3 to the group 0.
reset_turned_on_example :
    (matches
        (set_seqnum 9 (reset_comparator frame_md 0 3))
        (deserialize_can frame_md "can0" 0x16030000 1 (1 ∷ []) reply)
      ≡ true)
    ↔ ((0x16030000 / 2 ^ 16 % 256 ≡ 3) × (reply.seqnum ≡ 0))
reset_turned_on_example =
    reset_turned_on frame_md frame_md-IsLayout 0 3 9 0x16030000 1 "can0" (1 ∷ []) reply
      (omega arith) (omega arith) refl

-- A node of the type 258 and version 1.7.
abbrev info : NodeInfo
info = record {
  node_type = 258;
  version_major = 1;
  version_minor = 7;
  hardware_revision = 65;
  reset_reason = 2;
}

abbrev info_frame : H9Frame
info_frame = record blank { data_bytes = 1 ∷ 2 ∷ 0 ∷ 1 ∷ 0 ∷ 7 ∷ 65 ∷ 2 ∷ [] }

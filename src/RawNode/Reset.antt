-- ===== src/RawNode/Reset.antt =====
-- `reset` of h9d/raw_node.cc against the frames as the drivers read them.
use h9d.Prelude.{ℕ, ◌/◌, ◌%◌, ◌^◌, ◌≤◌, ◌≡◌, ◌≢◌, ◌↔◌, true, List, take, le→ltb, String, arith}
use h9d.H9def.{H9Def, IsLayout}
use h9d.Frame.{H9Frame, deserialize_can}
use h9d.Frame.Identifier.{set_can_id_value}
use h9d.Comparator.{matches, set_seqnum}
use h9d.RawNode.Request.{reset_comparator}
use h9d.RawNode.Replies.{matches-reset_comparator}

module _ (h : H9Def) (l : IsLayout h) where
  -- What a broadcast identifier leaves of the memory: flags, destination and seqnum.
  deserialize_can_broadcast :
      (id dlc : ℕ) (origin : String) (bytes : List ℕ) (memory : H9Frame)
      → h.discover ≤ id / 2 ^ 24 % 32
      → deserialize_can h origin id dlc bytes memory ≡ record memory {
        origin = origin;
        type = id / 2 ^ 24 % 32;
        source_id = id / 2 ^ 16 % 256;
        group = id % 65536;
        dlc = dlc;
        data_bytes = take 8 bytes;
      }
  unfolding deserialize_can
  deserialize_can_broadcast id dlc origin bytes memory broadcast =
      rw (set_can_id_value h l, le→ltb (id / 2 ^ 24 % 32) h.discover broadcast)

  -- When NODE_TURNED_ON is a broadcast type and not that of errors, such a frame of the node is
  -- taken for the answer to a reset only if the memory that it was read into held the sequence
  -- number 0: a broadcast identifier has none, and the frame's constructor sets none.
  pub reset_turned_on :
      (garbage node s id dlc : ℕ) (origin : String) (bytes : List ℕ) (memory : H9Frame)
      → h.discover ≤ h.node_turned_on
      → h.node_turned_on ≢ h.command_error
      → id / 2 ^ 24 % 32 ≡ h.node_turned_on
      → (matches
            (set_seqnum s (reset_comparator h garbage node))
            (deserialize_can h origin id dlc bytes memory)
          ≡ true)
        ↔ ((id / 2 ^ 16 % 256 ≡ node) × (memory.seqnum ≡ 0))
  reset_turned_on garbage node s id dlc origin bytes memory broadcast other typed =
      let read = record memory {
        origin = origin;
        type = id / 2 ^ 24 % 32;
        source_id = id / 2 ^ 16 % 256;
        group = id % 65536;
        dlc = dlc;
        data_bytes = take 8 bytes;
      } in
      let answers = matches-reset_comparator h garbage node s read in
      rw (deserialize_can_broadcast id dlc origin bytes memory (omega arith))
        ((λ m. ground (arith, answers.0 m)), (λ r. answers.1 (ground arith)))

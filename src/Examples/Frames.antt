-- ===== src/Examples/Frames.antt =====
-- common/h9_frame.cc and h9d/h9framecomparator.cc at concrete frames.
use h9d.Prelude.{◌≡◌, refl, arith, true}
use h9d.H9def.{frame_md, frame_md-IsLayout}
use h9d.Frame.{can_id, set_can_id}
use h9d.Frame.Identifier.{HeaderInRange, with_header, set_can_id-can_id}
use h9d.Frame.Serial.{serialize, deserialize, deserialize-serialize}
use h9d.Comparator.{H9FrameComparator, default_comparator, matches, set_seqnum, set_source_id}
use h9d.Comparator.Match.{matches-default_comparator}
use h9d.Examples.{reply, blank}

pub reply-HeaderInRange : HeaderInRange reply
reply-HeaderInRange = record {
  type_fits = omega arith;
  source_fits = omega arith;
  flags_fit = omega arith;
  destination_fits = omega arith;
  seqnum_fits = omega arith;
  group_fits = omega arith;
}

set_can_id-can_id_example :
    set_can_id frame_md (can_id frame_md reply) blank ≡ with_header frame_md reply blank
set_can_id-can_id_example =
    set_can_id-can_id frame_md frame_md-IsLayout reply blank reply-HeaderInRange

deserialize-serialize_example :
    deserialize frame_md "tcp" (serialize frame_md reply) blank
    ≡ record (with_header frame_md reply blank) {
      origin = "tcp";
      dlc = 3;
      data_bytes = reply.data_bytes;
    }
deserialize-serialize_example =
    deserialize-serialize frame_md frame_md-IsLayout "tcp" reply blank reply-HeaderInRange
      (omega arith) refl

matches-default_comparator_example : matches (default_comparator frame_md 77) reply ≡ true
matches-default_comparator_example = matches-default_comparator frame_md 77 reply

abbrev of_node : H9FrameComparator
unfolding default_comparator set_source_id
of_node = set_source_id 3 (default_comparator frame_md 77)

-- One comparator on a source, one on a sequence number and the source 0.
abbrev of_seqnum : H9FrameComparator
unfolding default_comparator set_seqnum
of_seqnum = set_seqnum 5 (default_comparator frame_md 77)

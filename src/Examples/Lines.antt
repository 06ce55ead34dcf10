-- ===== src/Examples/Lines.antt =====
-- bus_driver/slcan_driver.cc at concrete lines.
use h9d.Prelude.{AllBelow, ◌≡◌, refl, arith, ℕ, List, [], ◌∷◌, ◌++◌, none, some}
use h9d.H9def.{frame_md, frame_md-IsLayout}
use h9d.Frame.Identifier.{with_header}
use h9d.Slcan.{build_slcan_msg, parse_slcan_msg, parsed, hex_digits, hex_digit, hex_bytes, cr}
use h9d.Slcan.RoundTrip.{parse_slcan_msg-build_slcan_msg, parse_slcan_msg-overflow}
use h9d.Slcan.Driver.{SlcanDriver, ended, receive_bytes}
use h9d.Slcan.Stream.{receive_bytes-build_slcan_msg}
use h9d.Examples.{reply, blank}
use h9d.Examples.Frames.{reply-HeaderInRange}

reply-AllBelow : AllBelow 256 reply.data_bytes
reply-AllBelow = ground arith

abbrev driver : SlcanDriver
driver = record {
  name = "slcan";
  pending_send_count = 1;
  recv_buf = [];
  recv_queue = blank ∷ [];
  reports = [];
}

parse_slcan_msg-build_slcan_msg_example :
    parse_slcan_msg frame_md (build_slcan_msg frame_md reply) blank.data_bytes blank
    ≡ some (
        parsed (record (with_header frame_md reply blank) {
          dlc = 3;
          data_bytes = 20 ∷ 1 ∷ 2 ∷ 0 ∷ 0 ∷ 0 ∷ 0 ∷ 0 ∷ [];
        }))
parse_slcan_msg-build_slcan_msg_example =
    parse_slcan_msg-build_slcan_msg frame_md frame_md-IsLayout reply blank blank.data_bytes
      reply-HeaderInRange (omega arith) refl reply-AllBelow refl

abbrev nine_bytes : List ℕ
nine_bytes = 1 ∷ reply.data_bytes

parse_slcan_msg-overflow_example :
    parse_slcan_msg frame_md
      (84 ∷ hex_digits 8 5 ++ hex_digit 9 ∷ hex_bytes 9 nine_bytes ++ cr ∷ [])
      blank.data_bytes
      blank
    ≡ none
parse_slcan_msg-overflow_example =
    parse_slcan_msg-overflow frame_md frame_md-IsLayout 5 9 nine_bytes blank.data_bytes blank
      (omega arith) (omega arith) (omega arith) (omega arith) (omega arith, reply-AllBelow) refl

receive_bytes-build_slcan_msg_example :
    receive_bytes frame_md blank.data_bytes blank (build_slcan_msg frame_md reply) driver
    ≡ some (
        ended (record driver {
          recv_queue =
              blank
              ∷ record (with_header frame_md reply blank) {
                origin = "slcan";
                dlc = 3;
                data_bytes = 20 ∷ 1 ∷ 2 ∷ 0 ∷ 0 ∷ 0 ∷ 0 ∷ 0 ∷ [];
              }
              ∷ [];
        }))
receive_bytes-build_slcan_msg_example =
    receive_bytes-build_slcan_msg frame_md frame_md-IsLayout reply blank blank.data_bytes driver
      reply-HeaderInRange (omega arith) refl reply-AllBelow refl refl

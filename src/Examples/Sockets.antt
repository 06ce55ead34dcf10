-- ===== src/Examples/Sockets.antt =====
-- The drivers of bus_driver/ with a frame.
use h9d.Prelude.{◌≡◌, refl, [], some, ◌^◌}
use h9d.H9def.{frame_md, frame_md-IsLayout}
use h9d.Frame.Identifier.{with_header}
use h9d.Drivers.{recv_frame, recv_can, can_frame, CanFrame}
use h9d.Drivers.Can.{recv_can-can_frame}
use h9d.Examples.{reply, blank}
use h9d.Examples.Frames.{reply-HeaderInRange}

abbrev old : CanFrame
old = record { can_id = 0; can_dlc = 0; bytes = [] }

recv_can-can_frame_example :
    recv_can frame_md "can1" old (some (some (can_frame frame_md (2 ^ 31) reply))) blank
    ≡ recv_frame (record (with_header frame_md reply blank) {
      origin = "can1";
      dlc = 3;
      data_bytes = reply.data_bytes;
    })
recv_can-can_frame_example =
    recv_can-can_frame frame_md frame_md-IsLayout "can1" old reply blank reply-HeaderInRange refl

-- ===== src/Drivers.antt =====
-- The drivers of bus_driver/ that exchange datagrams or CAN frames: udp_driver.cc, loop_driver.cc,
-- pipe_driver.cc, virtual_driver.cc and socketcan_driver.cc. What a system call reports is an
-- argument, and so is CAN_EFF_FLAG of the system's headers.
pub mod Can
use h9d.Prelude.{
  ℕ, Bool, true, false, List, [], ◌∷◌, Option, none, some, String, bit_or, overwrite, take,
}
use h9d.H9def.{H9Def}
use h9d.Frame.{H9Frame, can_id, deserialize_can}
use h9d.Frame.Serial.{serialize, deserialize}

-- What `recv_data` does: an exception, RECV_FRAME with the frame, or SOCKET_CLOSE.
pub data RecvOutcome : Type 0 where
  recv_error : RecvOutcome
  recv_frame : H9Frame → RecvOutcome
  socket_close : RecvOutcome

-- `recvfrom` into memory that holds `garbage`: an error, or the bytes that came.
unfoldable pub recv_data : H9Def → String → List ℕ → Option (List ℕ) → H9Frame → RecvOutcome
recv_data h name garbage none frame = recv_error
recv_data h name garbage (some []) frame = socket_close
recv_data h name garbage (some (b ∷ bytes)) frame =
    recv_frame (deserialize h name (overwrite (b ∷ bytes) garbage) frame)

-- `sendto`, whether it succeeds: the datagram, and whether the callback is told that it was sent.
unfoldable pub send_data : H9Def → Bool → H9Frame → Option (List ℕ)
send_data h true frame = some (serialize h frame)
send_data h false frame = none

-- `struct can_frame`.
pub record CanFrame : Type 0 where
  pub can_id : ℕ
  pub can_dlc : ℕ
  pub bytes : List ℕ

unfoldable pub can_frame : H9Def → ℕ → H9Frame → CanFrame
can_frame h eff_flag frame = record {
  can_id = bit_or (can_id h frame) eff_flag;
  can_dlc = frame.dlc;
  bytes = take 8 frame.data_bytes;
}

-- `read` into memory that holds `garbage`. Its result is kept as a `size_t`, so that -1 is no error
-- but a large number.
unfoldable pub recv_can :
    H9Def → String → CanFrame → Option (Option CanFrame) → H9Frame → RecvOutcome
recv_can h name garbage none frame =
    recv_frame (deserialize_can h name garbage.can_id garbage.can_dlc garbage.bytes frame)
recv_can h name garbage (some none) frame = recv_error
recv_can h name garbage (some (some m)) frame =
    recv_frame (deserialize_can h name m.can_id m.can_dlc m.bytes frame)

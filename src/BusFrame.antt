-- ===== src/BusFrame.antt =====
-- h9d/busframe.h, busframe.cc and send_frame_result.h: a frame on its way to the drivers, and the
-- promise that its sender waits for.
pub mod Acks
use h9d.Prelude.{
  ℕ, ◌+◌, Bool, true, false, ◌&&◌, List, [], ◌∷◌, Option, none, some, ◌>>=◌, leb, if◌then◌else◌,
}
use h9d.Frame.{H9Frame}

pub record SendFrameResult : Type 0 where
  pub seqnum : ℕ
  pub source_id : ℕ
  pub successfully_sent_to_drivers_count : ℕ
  pub failed_to_send_to_drivers_count : ℕ

pub record BusFrame : Type 0 where
  pub frame : H9Frame
  pub send_promise : Option SendFrameResult
  pub number_of_active_bus : ℕ
  pub send_counter : ℕ
  pub send_fail_counter : ℕ
  pub local_frame : Bool
  pub raw : Bool
  pub activate_promise : Bool

unfoldable pub new_bus_frame : H9Frame → Bool → BusFrame
new_bus_frame f raw = record {
  frame = f;
  send_promise = none;
  number_of_active_bus = 0;
  send_counter = 0;
  send_fail_counter = 0;
  local_frame = false;
  raw = raw;
  activate_promise = false;
}

unfoldable pub mark_as_local_origin : BusFrame → BusFrame
mark_as_local_origin b = record b { local_frame = true }

unfoldable pub activate_send_finish_promise : ℕ → BusFrame → BusFrame
activate_send_finish_promise active_buses b = record b {
  activate_promise = true;
  number_of_active_bus = active_buses;
}

unfoldable pub is_sent_finish : BusFrame → Bool
is_sent_finish b = leb b.number_of_active_bus (b.send_counter + b.send_fail_counter)

-- `_send_promise.set_value`; `none` is the `std::future_error` of a second value.
unfoldable pub set_value : BusFrame → Option BusFrame
set_value b = elim b.send_promise [
  | none ↦ some (record b {
    send_promise = some (record {
      seqnum = b.frame.seqnum;
      source_id = b.frame.source_id;
      successfully_sent_to_drivers_count = b.send_counter;
      failed_to_send_to_drivers_count = b.send_fail_counter;
    });
  })
  | some _ ↦ none
]

unfoldable pub finish : BusFrame → Option BusFrame
finish b = if b.activate_promise && is_sent_finish b then set_value b else some b

unfoldable pub inc_send_counter : BusFrame → Option BusFrame
unfolding finish
inc_send_counter b = finish (record b { send_counter = b.send_counter + 1 })

unfoldable pub inc_send_fail_counter : BusFrame → Option BusFrame
unfolding finish
inc_send_fail_counter b = finish (record b { send_fail_counter = b.send_fail_counter + 1 })

-- What the callback of an endpoint does with a frame (h9d/bus_endpoint.cc).
unfoldable pub acknowledge : Bool → BusFrame → Option BusFrame
acknowledge true b = inc_send_counter b
acknowledge false b = inc_send_fail_counter b

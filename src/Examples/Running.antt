-- ===== src/Examples/Running.antt =====
-- The thread of h9d/bus.cc on two endpoints.
use h9d.Prelude.{◌≡◌, ◌≢◌, refl, arith, List, [], ◌∷◌, none, some, true, false, String, get_elem?}
use h9d.H9def.{frame_md}
use h9d.BusFrame.{
  BusFrame, new_bus_frame, mark_as_local_origin, activate_send_finish_promise, acknowledge,
  inc_send_counter, inc_send_fail_counter, finish, is_sent_finish, set_value,
}
use h9d.Bus.{
  Bus, Driver, send_ack_callback, send_ack_callbacks, endpoint_send_frame, send_to_endpoints,
  takes_seqnum, stamp, recv_thread_send, recv_thread_forward, send_frame_noblock, recv_frame,
}
use h9d.Bus.Steps.{IsSound}
use h9d.Bus.Thread.{
  BusEvent, frame_queued, frame_acked, frame_read, async_event, new_bus, ack_at, turn, drain, step,
  run,
}
use h9d.Bus.Thread.Turn.{drain_ends}
use h9d.Bus.Thread.Safety.{send_frame_noblock-IsSound}
use h9d.Bus.Thread.Promises.{new_bus-IsSound, new_bus-run, run-promise}
use h9d.Bus.Types.{send_frame_noblock-unknown_type}
use h9d.Examples.{blank, reply, request}

-- A driver that sends later.
abbrev slow : Driver
slow e f = some []

abbrev names : List String
names = "can0" ∷ "can1" ∷ []

-- A request that one driver sends and the other does not, and a frame that is forwarded.
abbrev events : List BusEvent
events =
    frame_queued (request 11 (20 ∷ [])) false
    ∷ async_event
    ∷ frame_read reply
    ∷ frame_acked 1 true
    ∷ async_event
    ∷ frame_acked 0 false
    ∷ []

abbrev running : Bus
unfolding run step turn ack_at new_bus send_ack_callback send_ack_callbacks endpoint_send_frame
    send_to_endpoints takes_seqnum stamp recv_thread_send recv_thread_forward send_frame_noblock
    recv_frame new_bus_frame mark_as_local_origin activate_send_finish_promise acknowledge
    inc_send_counter inc_send_fail_counter finish is_sent_finish set_value
running = elim (run frame_md slow events (new_bus 254 true names)) [
  | none ↦ new_bus 254 true names
  | some t ↦ t
]

abbrev sent : BusFrame
unfolding new_bus_frame running
sent = elim (get_elem? running.heap 0) [ none ↦ new_bus_frame reply false | some b ↦ b ]

new_bus-run_example :
    (t : Bus) × (run frame_md slow events (new_bus 254 true names) ≡ some t) × IsSound t
new_bus-run_example =
    new_bus-run frame_md slow 254 true names events (λ e f. ([], refl))
      (omega arith, (tt, (omega arith, (tt, (tt, (tt, tt))))))

run-promise_example : sent.send_promise ≢ none
unfolding run step turn ack_at new_bus send_ack_callback send_ack_callbacks endpoint_send_frame
    send_to_endpoints takes_seqnum stamp recv_thread_send recv_thread_forward send_frame_noblock
    recv_frame new_bus_frame mark_as_local_origin activate_send_finish_promise acknowledge
    inc_send_counter inc_send_fail_counter finish is_sent_finish set_value
run-promise_example =
    run-promise frame_md slow 254 true names events running 0 sent
      (omega arith, (tt, (omega arith, (tt, (tt, (tt, tt)))))) refl refl refl (omega arith) refl

-- A bus with a request to send.
abbrev waiting : Bus
waiting = send_frame_noblock frame_md (request 11 (20 ∷ [])) false (new_bus 254 true names)

drain_ends_example :
    (t : Bus) × (drain frame_md slow 2 waiting ≡ some (t, true))
    × IsSound t
    × (t.send_queue ≡ [])
    × (t.forwarding ≡ true → t.forward_queue ≡ [])
unfolding send_frame_noblock new_bus new_bus_frame mark_as_local_origin
drain_ends_example =
    drain_ends frame_md slow (λ e f. ([], refl)) 2 waiting
      (send_frame_noblock-IsSound frame_md (request 11 (20 ∷ [])) false (new_bus 254 true names)
        (omega arith) (new_bus-IsSound 254 true names))
      (omega arith)

send_frame_noblock-unknown_type_example :
    recv_thread_send frame_md slow
      (send_frame_noblock frame_md (record blank { type = 40 }) false (new_bus 254 true names))
    ≡ none
unfolding new_bus
send_frame_noblock-unknown_type_example =
    send_frame_noblock-unknown_type frame_md slow (new_bus 254 true names)
      (record blank { type = 40 }) false (new_bus-IsSound 254 true names) refl (omega arith)

-- ===== src/Examples/Sending.antt =====
-- h9d/busframe.cc, bus.cc and bus_endpoint.cc at concrete frames and drivers.
use h9d.Prelude.{
  subst, zero, suc, ◌≡◌, ◌≢◌, refl, arith, ℕ, ◌+◌, List, [], ◌∷◌, some, true, false, if◌then◌else◌,
  ◌==◌,
}
use h9d.H9def.{frame_md, frame_md-IsLayout}
use h9d.BusFrame.{BusFrame, SendFrameResult, new_bus_frame, activate_send_finish_promise}
use h9d.Bus.{BusEndpoint, Driver, stamp, takes_seqnum}
use h9d.Bus.Seqnum.{request_seqnums, request_seqnums_differ}
use h9d.Bus.Pending.{FrameOk, HeapOk, owed}
use h9d.Examples.{reply, request}

-- A request on its way to two drivers.
abbrev sent : BusFrame
unfolding new_bus_frame activate_send_finish_promise
sent = activate_send_finish_promise 2 (new_bus_frame (request 11 (20 ∷ [])) false)

abbrev result : SendFrameResult
result = record {
  seqnum = 0;
  source_id = 0;
  successfully_sent_to_drivers_count = 2;
  failed_to_send_to_drivers_count = 0;
}

abbrev answered : BusFrame
unfolding new_bus_frame activate_send_finish_promise
answered = record sent { send_counter = 2; send_promise = some result }

-- Three requests and between them a frame that takes no number.
abbrev queue : List BusFrame
unfolding new_bus_frame activate_send_finish_promise
queue = sent ∷ new_bus_frame reply false ∷ sent ∷ sent ∷ []

request_seqnums_differ_example : ◌≢◌ {A = ℕ} 31 1
unfolding new_bus_frame activate_send_finish_promise request_seqnums stamp takes_seqnum
request_seqnums_differ_example =
    request_seqnums_differ frame_md frame_md-IsLayout 254 31 0 2 31 1 queue (omega arith)
      (omega arith) (omega arith) refl refl

abbrev endpoint : BusEndpoint
endpoint = record {
  name = "can0";
  pending_frames = [];
  sent_frames_counter = 0;
  received_frames_counter = 0;
}

-- A driver that sends at once.
abbrev prompt : Driver
prompt e f = some (true ∷ [])

sent-HeapOk :
    HeapOk (λ j. owed j (endpoint ∷ endpoint ∷ []) + ((if 0 == j then 2 else 0) + 0)) (sent ∷ [])
unfolding new_bus_frame activate_send_finish_promise
sent-HeapOk zero c found =
    let same : sent ≡ c = cc in
    subst (λ (x : BusFrame). FrameOk 2 x) same
      ((λ _. (refl, (λ _. refl), (λ z. absurd (omega arith)))), (λ off. cc))
sent-HeapOk (suc j) c found = cc

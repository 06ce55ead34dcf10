-- ===== src/Bus/Thread.antt =====
-- `Bus::recv_thread` of h9d/bus.cc, and what reaches the bus from other threads and its drivers.
pub mod Turn
pub mod Throws
pub mod Heap
pub mod Safety
pub mod Promises
use h9d.Prelude.{
  ℕ, zero, suc, Bool, true, false, ◌||◌, List, [], ◌∷◌, Option, some, ◌>>=◌, map, String,
  if◌then◌else◌,
}
use h9d.H9def.{H9Def}
use h9d.Frame.{H9Frame}
use h9d.BusFrame.{BusFrame}
use h9d.Bus.{
  BusEndpoint, Bus, Driver, send_ack_callback, recv_thread_send, recv_thread_forward,
  send_frame_noblock, recv_frame,
}

-- What happens to a bus: another thread queues a frame; the driver of an endpoint reports a frame
-- as sent or failed; a frame is read from an endpoint; the thread, woken up, takes a turn of its
-- loop, between two of which other threads may queue frames.
pub data BusEvent : Type 0 where
  frame_queued : H9Frame → Bool → BusEvent
  frame_acked : ℕ → Bool → BusEvent
  frame_read : H9Frame → BusEvent
  async_event : BusEvent

-- The constructor, and `add_driver` for each of the drivers.
unfoldable pub new_bus : ℕ → Bool → List String → Bus
new_bus bus_id forwarding names =
    let counters =
      0 ∷ 0 ∷ 0 ∷ 0 ∷ 0 ∷ 0 ∷ 0 ∷ 0 ∷ 0 ∷ 0 ∷ 0 ∷ 0 ∷ 0 ∷ 0 ∷ 0 ∷ 0 ∷ 0 ∷ 0 ∷ 0 ∷ 0 ∷ 0 ∷ 0 ∷ 0 ∷ 0
      ∷ 0 ∷ 0 ∷ 0 ∷ 0 ∷ 0 ∷ 0 ∷ 0 ∷ 0 ∷ [] in
    record {
      heap = [];
      next_seqnum = 0;
      bus_id = bus_id;
      forwarding = forwarding;
      endpoints =
          map
            (λ name. record {
              name = name;
              pending_frames = [];
              sent_frames_counter = 0;
              received_frames_counter = 0;
            })
            names;
      forward_queue = [];
      send_queue = [];
      sent_frames_counter = 0;
      received_frames_counter = 0;
      forward_frames_counter = 0;
      sent_frames_counter_by_type = counters;
      received_frames_counter_by_type = counters;
    }

-- The callback of the endpoint at a position.
unfoldable pub ack_at :
    ℕ → Bool → List BusEndpoint → List BusFrame → Option (List BusEndpoint × List BusFrame)
ack_at i success [] heap = some ([], heap)
ack_at zero success (e ∷ es) heap = do r ← send_ack_callback success e heap; some (r.0 ∷ es, r.1)
ack_at (suc i) success (e ∷ es) heap = do r ← ack_at i success es heap; some (e ∷ r.0, r.1)

module _ (h : H9Def) (driver : Driver) where
  -- One turn of the loop after an asynchronous event.
  unfoldable pub turn : Bus → Option (Bus × Bool)
  turn s = do
    f ← (if s.forwarding then recv_thread_forward h driver s else some (s, false))
    r ← recv_thread_send h driver (f.0)
    some (r.0, f.1 || r.1)

  -- The loop, for a number of turns at most; the flag says that it has ended.
  unfoldable pub drain : ℕ → Bus → Option (Bus × Bool)
  drain zero s = some (s, false)
  drain (suc turns) s = do r ← turn s; (if r.1 then drain turns (r.0) else some (r.0, true))

  unfoldable pub step : BusEvent → Bus → Option Bus
  step (frame_queued f raw) s = some (send_frame_noblock h f raw s)
  step (frame_acked i success) s = do
    r ← ack_at i success s.endpoints s.heap
    some (record s { endpoints = r.0; heap = r.1 })
  step (frame_read f) s = recv_frame h f s
  step async_event s = turn s >>= λ r. some (r.0)

  unfoldable pub run : List BusEvent → Bus → Option Bus
  run [] s = some s
  run (e ∷ es) s = step e s >>= run es

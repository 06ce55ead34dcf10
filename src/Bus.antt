-- ===== src/Bus.antt =====
-- h9d/bus.h, bus.cc, bus_endpoint.h and bus_endpoint.cc: the queues of the bus, the sequence
-- numbers, and the endpoints that hand frames to the drivers. A `std::shared_ptr<BusFrame>` is a
-- position in `heap`. The drivers are a parameter: what a driver reports through its callback while
-- it sends. A `none` is an exception that nothing catches, or an access out of bounds.
pub mod Seqnum
pub mod Pending
pub mod Types
pub mod Forward
pub mod Queues
pub mod Steps
pub mod Thread
use h9d.Prelude.{
  ℕ, ◌+◌, Bool, true, false, ◌||◌, List, [], ◌∷◌, ◌++◌, Option, some, ◌>>=◌, String, get_elem?, set,
  set?, length, ltb, ◌==◌, u8, if◌then◌else◌,
}
use text.Mathlib.Text.{◌==◌ as str_eq}
use h9d.H9def.{H9Def}
use h9d.Frame.{H9Frame, seqnum_max_value}
use h9d.BusFrame.{
  BusFrame, new_bus_frame, mark_as_local_origin, activate_send_finish_promise, acknowledge,
}

pub record BusEndpoint : Type 0 where
  pub name : String
  pub pending_frames : List ℕ
  pub sent_frames_counter : ℕ
  pub received_frames_counter : ℕ

pub record Bus : Type 0 where
  pub heap : List BusFrame
  pub next_seqnum : ℕ
  pub bus_id : ℕ
  pub forwarding : Bool
  pub endpoints : List BusEndpoint
  pub forward_queue : List ℕ
  pub send_queue : List ℕ
  pub sent_frames_counter : ℕ
  pub received_frames_counter : ℕ
  pub forward_frames_counter : ℕ
  pub sent_frames_counter_by_type : List ℕ
  pub received_frames_counter_by_type : List ℕ

-- What `send_frame` of an endpoint's driver does: the acknowledgements that it gives before it
-- returns, or `none` if it throws, which nothing catches.
abbrev pub Driver : Type 0
Driver = BusEndpoint → H9Frame → Option (List Bool)

-- The callback that the constructor of an endpoint gives to its driver.
unfoldable pub send_ack_callback :
    Bool → BusEndpoint → List BusFrame → Option (BusEndpoint × List BusFrame)
send_ack_callback success e heap = elim e.pending_frames [
  | [] ↦ some (e, heap)
  | p ∷ rest ↦ do
    b ← get_elem? heap p
    b' ← acknowledge success b
    some (record e { pending_frames = rest }, set heap p b')
]

unfoldable pub send_ack_callbacks :
    List Bool → BusEndpoint → List BusFrame → Option (BusEndpoint × List BusFrame)
send_ack_callbacks [] e heap = some (e, heap)
send_ack_callbacks (a ∷ acks) e heap =
    send_ack_callback a e heap >>= λ r. send_ack_callbacks acks (r.0) (r.1)

-- `BusEndpoint::send_frame`.
unfoldable pub endpoint_send_frame :
    Driver → ℕ → BusEndpoint → List BusFrame → Option (BusEndpoint × List BusFrame)
endpoint_send_frame driver p e heap = do
  b ← get_elem? heap p
  acks ← driver e b.frame
  send_ack_callbacks acks
      (record e {
        sent_frames_counter = e.sent_frames_counter + 1;
        pending_frames = e.pending_frames ++ p ∷ [];
      })
      heap

-- The loop over the endpoints, with the condition under which one is passed over.
unfoldable pub send_to_endpoints :
    Driver
    → (BusEndpoint → Bool)
    → ℕ
    → List BusEndpoint
    → List BusFrame
    → Option (List BusEndpoint × List BusFrame)
send_to_endpoints driver skips p [] heap = some ([], heap)
send_to_endpoints driver skips p (e ∷ es) heap = do
  r ← (if skips e then some (e, heap) else endpoint_send_frame driver p e heap)
  rs ← send_to_endpoints driver skips p es (r.1)
  some (r.0 ∷ rs.0, rs.1)

-- `++(*counters[type])`.
abbrev pub count_type : List ℕ → ℕ → Option (List ℕ)
count_type counters type = do n ← get_elem? counters type; set? counters type (n + 1)

module _ (h : H9Def) where
  -- The cases of the `switch` of `recv_thread_send`.
  unfoldable pub takes_seqnum : ℕ → Bool
  takes_seqnum type =
      type == h.res1
      || type == h.page_start
      || type == h.quit_bootloader
      || type == h.page_fill
      || type == h.bootloader_turned_on
      || type == h.set_reg
      || type == h.get_reg
      || type == h.set_bit
      || type == h.clear_bit
      || type == h.node_upgrade
      || type == h.node_reset

  -- The part of `recv_thread_send` that fills in source and seqnum: the frame as it is sent, and
  -- the next sequence number.
  unfoldable pub stamp : ℕ → ℕ → BusFrame → BusFrame × ℕ
  stamp bus_id next b =
      let sourced = record (b.frame) { source_id = u8 bus_id } in
      let counted = u8 (next + 1) in
      let numbered = takes_seqnum (b.frame.type) in
      let next' = if numbered then counted else next in
      if b.raw then (b, next) else (
        record b { frame = if numbered then record sourced { seqnum = next } else sourced },
        if ltb (seqnum_max_value h) next' then 0 else next',
      )

  -- `recv_thread_send`; the flag says that there was a frame to send.
  unfoldable pub recv_thread_send : Driver → Bus → Option (Bus × Bool)
  recv_thread_send driver s = elim s.send_queue [
    | [] ↦ some (s, false)
    | p ∷ rest ↦ do
      b ← get_elem? s.heap p
      let active = activate_send_finish_promise (length s.endpoints) b
      let stamped = stamp s.bus_id s.next_seqnum active
      by_type ← count_type s.sent_frames_counter_by_type ((stamped.0).frame).type
      r ← send_to_endpoints driver (λ _. false) p s.endpoints (set s.heap p (stamped.0))
      some (
        record s {
          heap = r.1;
          endpoints = r.0;
          send_queue = rest;
          next_seqnum = stamped.1;
          sent_frames_counter = s.sent_frames_counter + 1;
          sent_frames_counter_by_type = by_type;
        },
        true,
      )
  ]

  -- `recv_thread_forward`: a frame goes to every endpoint but that it came from.
  unfoldable pub recv_thread_forward : Driver → Bus → Option (Bus × Bool)
  recv_thread_forward driver s = elim s.forward_queue [
    | [] ↦ some (s, false)
    | p ∷ rest ↦ do
      b ← get_elem? s.heap p
      r ←
          send_to_endpoints driver (λ e. str_eq e.name b.frame.origin || b.local_frame) p
            s.endpoints s.heap
      some (
        record s {
          heap = r.1;
          endpoints = r.0;
          forward_queue = rest;
          forward_frames_counter = s.forward_frames_counter + 1;
        },
        true,
      )
  ]

  -- `send_frame_noblock`: the frame waits in the queue. The future is that of the new heap entry.
  unfoldable pub send_frame_noblock : H9Frame → Bool → Bus → Bus
  unfolding new_bus_frame mark_as_local_origin
  send_frame_noblock f raw s = record s {
    heap = s.heap ++ mark_as_local_origin (new_bus_frame f raw) ∷ [];
    send_queue = s.send_queue ++ length s.heap ∷ [];
  }

  -- A frame that an endpoint has received, in `recv_thread`: it is counted and, with forwarding,
  -- queued.
  unfoldable pub recv_frame : H9Frame → Bus → Option Bus
  unfolding new_bus_frame
  recv_frame f s = do
    by_type ← count_type s.received_frames_counter_by_type f.type
    let counted = record s {
      received_frames_counter = s.received_frames_counter + 1;
      received_frames_counter_by_type = by_type;
    }
    some (
        if s.forwarding
        then record counted {
          heap = s.heap ++ new_bus_frame f false ∷ [];
          forward_queue = s.forward_queue ++ length s.heap ∷ [];
        }
        else counted)

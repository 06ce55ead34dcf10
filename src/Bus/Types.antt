-- ===== src/Bus/Types.antt =====
-- The counters by type of `recv_thread_send` in h9d/bus.cc.
use h9d.Prelude.{
  ℕ, zero, suc, ◌≤◌, ◌≡◌, refl, arith, Bool, List, [], ◌∷◌, ◌++◌, none, some, length, get_elem?,
  get_elem?-append, ap, ◌∙◌,
}
use h9d.H9def.{H9Def}
use h9d.Frame.{H9Frame}
use h9d.BusFrame.{BusFrame, activate_send_finish_promise, mark_as_local_origin, new_bus_frame}
use h9d.Bus.{Bus, Driver, stamp, recv_thread_send, send_frame_noblock}
use h9d.Bus.Steps.{IsSound}

get_elem?-none : (xs : List ℕ) (i : ℕ) → length xs ≤ i → get_elem? xs i ≡ none
get_elem?-none [] i p = refl
get_elem?-none (x ∷ xs) zero p = absurd (omega arith)
get_elem?-none (x ∷ xs) (suc i) p = get_elem?-none xs i (omega arith)

module _ (h : H9Def) where
  stamp-type :
      (bus_id next : ℕ) (b : BusFrame) → (stamp h bus_id next b).0.frame.type ≡ b.frame.type
  unfolding stamp
  stamp-type bus_id next b = ground arith

  recv_thread_send-unknown_type :
      (driver : Driver) (s : Bus) (p : ℕ) (rest : List ℕ) (b : BusFrame)
      → s.send_queue ≡ p ∷ rest
      → get_elem? s.heap p ≡ some b
      → length s.sent_frames_counter_by_type ≤ b.frame.type
      → recv_thread_send h driver s ≡ none
  unfolding recv_thread_send activate_send_finish_promise
  recv_thread_send-unknown_type driver s p rest b queued here unknown =
      let active = activate_send_finish_promise (length s.endpoints) b in
      let type = (stamp h s.bus_id s.next_seqnum active).0.frame.type in
      let missing : get_elem? s.sent_frames_counter_by_type type ≡ none =
        get_elem?-none s.sent_frames_counter_by_type type
          (omega (arith, stamp-type s.bus_id s.next_seqnum active)) in
      ground (arith, queued, here, missing)

  -- A frame of a type from 32 on that is handed to a bus in order, in whose queue no other frame
  -- waits, makes the bus index its counters out of bounds when it sends, whatever the drivers do.
  pub send_frame_noblock-unknown_type :
      (driver : Driver) (s : Bus) (f : H9Frame) (raw : Bool)
      → IsSound s
      → s.send_queue ≡ []
      → 32 ≤ f.type
      → recv_thread_send h driver (send_frame_noblock h f raw s) ≡ none
  unfolding send_frame_noblock mark_as_local_origin new_bus_frame
  send_frame_noblock-unknown_type driver s f raw ok empty unknown =
      let b = mark_as_local_origin (new_bus_frame f raw) in
      recv_thread_send-unknown_type driver (send_frame_noblock h f raw s) (length s.heap) [] b
        (ap (λ (q : List ℕ). q ++ length s.heap ∷ []) empty)
        (get_elem?-append s.heap b (length s.heap) ∙ ground arith) (omega (arith, ok.sent_types))

-- ===== src/Bus/Steps.antt =====
-- The steps of the bus of h9d/bus.cc, in any order: what holds between them.
use h9d.Prelude.{
  ℕ, ◌+◌, ◌<◌, ◌≡◌, refl, arith, Bool, Bool-cases, inl, inr, true, false, List, [], ◌∷◌, Option,
  some, none, get_elem?, get_elem?-some, length-set, get_elem?-set, get_elem?-map, set, length,
  length-map, map, sym, subst, ap, ◌∙◌, ◌==◌, ◌||◌, if◌then◌else◌,
}
use text.Mathlib.Text.{◌==◌ as str_eq}
use h9d.H9def.{H9Def}
use h9d.BusFrame.{BusFrame, activate_send_finish_promise}
use h9d.BusFrame.Acks.{acked}
use h9d.Bus.{
  BusEndpoint, Bus, Driver, stamp, count_type, send_to_endpoints, recv_thread_send,
  recv_thread_forward,
}
use h9d.Bus.Pending.{
  IsWorking, FrameOk, lasting, HeapOk, AllValid, owed, send_to_endpoints-AllSettled,
}
use h9d.Bus.Forward.{send_to_endpoints-foreign}
use h9d.Bus.Queues.{
  Lasting, IsWaiting, AllForeign, AllWaiting, get_elem?-lt, map-set_any, AllForeign-set,
  AllWaiting-set, count_type_lem,
}

-- Each frame of the heap is owed what the endpoints have pending; pending frames are in the heap;
-- the queue of frames to send has frames of this process not sent yet, each once, and that of frames
-- to forward has frames that came from endpoints; and each of the 32 types has its counters.
pub record IsSound (s : Bus) : Type 0 where
  pub heap_ok : HeapOk (λ j. owed j s.endpoints + 0) s.heap
  pub valid : AllValid (length (map lasting s.heap)) s.endpoints
  pub waiting : AllWaiting (map lasting s.heap) s.send_queue
  pub foreign : AllForeign (map lasting s.heap) s.forward_queue
  pub sent_types : length s.sent_frames_counter_by_type ≡ 32
  pub received_types : length s.received_frames_counter_by_type ≡ 32

module _ (h : H9Def) where
  stamp-rest :
      (bus_id next : ℕ) (b : BusFrame)
      → ((stamp h bus_id next b).0.frame.type ≡ b.frame.type)
        × ((stamp h bus_id next b).0.activate_promise ≡ b.activate_promise)
        × ((stamp h bus_id next b).0.local_frame ≡ b.local_frame)
        × ((stamp h bus_id next b).0.number_of_active_bus ≡ b.number_of_active_bus)
        × (acked (stamp h bus_id next b).0 ≡ acked b)
        × ((stamp h bus_id next b).0.send_promise ≡ b.send_promise)
  unfolding stamp
  stamp-rest bus_id next b = ground arith

  -- The frame at the front of the queue, as it is sent.
  abbrev sending : Bus → BusFrame → BusFrame
  sending s b =
      (stamp h s.bus_id s.next_seqnum (activate_send_finish_promise (length s.endpoints) b)).0

  sending-type : (s : Bus) (b : BusFrame) → (sending s b).frame.type ≡ b.frame.type
  unfolding activate_send_finish_promise
  sending-type s b =
      (stamp-rest s.bus_id s.next_seqnum (activate_send_finish_promise (length s.endpoints) b)).0

  -- What the frame is owed once it is active.
  sending-FrameOk :
      (s : Bus) (w : ℕ) (b : BusFrame)
      → acked b + w ≡ 0
      → b.send_promise ≡ none
      → FrameOk (w + length s.endpoints) (sending s b)
  unfolding activate_send_finish_promise
  sending-FrameOk s w b none_yet unset =
      let kept =
        stamp-rest s.bus_id s.next_seqnum (activate_send_finish_promise (length s.endpoints) b) in
      let active : (sending s b).activate_promise ≡ true = kept.1 in
      let targets : (sending s b).number_of_active_bus ≡ length s.endpoints = kept.3 in
      let had : acked (sending s b) ≡ acked b = kept.4 in
      let promise : (sending s b).send_promise ≡ none = kept.5 ∙ unset in
      ((λ _. (omega arith, (λ _. promise), (λ some_yet. absurd (omega arith)))), (λ inactive. cc))

  sending-HeapOk :
      (s : Bus) (p : ℕ) (b : BusFrame)
      → get_elem? s.heap p ≡ some b
      → IsWaiting (lasting b)
      → p < length s.heap
      → HeapOk (λ j. owed j s.endpoints + 0) s.heap
      → HeapOk
          (λ j. owed j s.endpoints + ((if p == j then length s.endpoints else 0) + 0))
          (set s.heap p (sending s b))
  sending-HeapOk s p b here waits below ok j c found = elim (Bool-cases (p == j)) [
    | inl this ↦
        let same : p ≡ j = ground arith in
        let fresh = (ok p b here).1 waits.0 waits.1 in
        let it : sending s b ≡ c = ground (arith, get_elem?-set s.heap p j (sending s b)) in
        let due : FrameOk (owed p s.endpoints + length s.endpoints) (sending s b) =
          sending-FrameOk s (owed p s.endpoints) b (omega (arith, fresh.0)) (fresh.1) in
        rw this (
          subst (λ (x : BusFrame). FrameOk (owed j s.endpoints + (length s.endpoints + 0)) x) it
            (subst (λ (x : ℕ). FrameOk x (sending s b))
              (omega (arith, ap (λ (x : ℕ). owed x s.endpoints) same)) due))
    | inr other ↦
        let there : get_elem? s.heap j ≡ some c =
          ground (arith, get_elem?-set s.heap p j (sending s b)) in
        rw other (subst (λ (x : ℕ). FrameOk x c) (omega arith) (ok j c there))
  ]

  -- The step has not failed and leaves the bus in order; it has taken a frame from one queue, if
  -- there was one, and nothing from the other.
  abbrev pub IsSafe : (Bus → List ℕ) → (Bus → List ℕ) → Bus → Option (Bus × Bool) → Type 0
  IsSafe queue other s r =
      (t : Bus) × (worked : Bool) × (r ≡ some (t, worked))
      × IsSound t
      × (length (queue s) ≡ length (queue t) + (if worked then 1 else 0))
      × (worked ≡ false → queue t ≡ [])
      × (other t ≡ other s)
      × (t.forwarding ≡ s.forwarding)

  abbrev sent_bus : Bus → BusFrame → List ℕ → List ℕ → List BusEndpoint → List BusFrame → Bus
  sent_bus s b rest by_type es heap = record s {
    heap = heap;
    endpoints = es;
    send_queue = rest;
    next_seqnum =
        (stamp h s.bus_id s.next_seqnum (activate_send_finish_promise (length s.endpoints) b)).1;
    sent_frames_counter = s.sent_frames_counter + 1;
    sent_frames_counter_by_type = by_type;
  }

  send_lem :
      (driver : Driver) (s : Bus) (p : ℕ) (rest : List ℕ) (b : BusFrame) (by_type : List ℕ)
      (es : List BusEndpoint) (heap : List BusFrame)
      → s.send_queue ≡ p ∷ rest
      → get_elem? s.heap p ≡ some b
      → count_type s.sent_frames_counter_by_type (sending s b).frame.type ≡ some by_type
      → send_to_endpoints driver (λ _. false) p s.endpoints (set s.heap p (sending s b))
        ≡ some (es, heap)
      → recv_thread_send h driver s ≡ some (sent_bus s b rest by_type es heap, true)
  unfolding recv_thread_send
  send_lem driver s p rest b by_type es heap queued here counted sent =
      rw (queued, here, counted, sent) refl

  pub send-IsSafe :
      (driver : Driver) (works : IsWorking driver) (s : Bus) (q : List ℕ)
      → s.send_queue ≡ q
      → IsSound s
      → IsSafe
          (λ (x : Bus). x.send_queue)
          (λ (x : Bus). x.forward_queue)
          s
          (recv_thread_send h driver s)
  unfolding recv_thread_send
  send-IsSafe driver works s [] empty ok =
      (s, false, rw empty refl, ok, omega arith, (λ _. empty), refl, refl)
  send-IsSafe driver works s (p ∷ rest) queued ok =
      let ((l, there, waits), alone, others) : AllWaiting (map lasting s.heap) (p ∷ rest) =
        subst (λ (x : List ℕ). AllWaiting (map lasting s.heap) x) queued ok.waiting in
      let below : p < length s.heap =
        omega (arith, get_elem?-lt (map lasting s.heap) p l there, length-map lasting s.heap) in
      let (b, here) = get_elem?-some s.heap p below in
      let lasts : get_elem? (map lasting s.heap) p ≡ some (lasting b) =
        get_elem?-map lasting s.heap p b here in
      let same : l ≡ lasting b = ground (arith, sym there ∙ lasts) in
      let waits' : IsWaiting (lasting b) = subst IsWaiting same waits in
      let c = sending s b in
      let fs = set (map lasting s.heap) p (lasting c) in
      let size : length fs ≡ length (map lasting s.heap) =
        length-set (map lasting s.heap) p (lasting c) in
      let (by_type, counted, as_many) = count_type_lem s.sent_frames_counter_by_type c.frame.type (
        subst (λ (n : ℕ). c.frame.type < n) (sym ok.sent_types)
          (subst (λ (n : ℕ). n < 32) (sym (sending-type s b)) waits'.2)) in
      let (es, heap, sent, oks, valids, lasting_all) =
        send_to_endpoints-AllSettled driver works p s.endpoints (set s.heap p c) fs (λ _. 0)
          (map-set_any s.heap p c) (omega (arith, length-map lasting s.heap))
          (sending-HeapOk s p b here waits' below ok.heap_ok)
          (subst (λ (n : ℕ). AllValid n s.endpoints) (sym size) ok.valid) in
      (
        sent_bus s b rest by_type es heap,
        true,
        send_lem driver s p rest b by_type es heap queued here counted sent,
        record {
          heap_ok = oks;
          valid = subst (λ (gs : List Lasting). AllValid (length gs) es) (sym lasting_all) valids;
          waiting =
              subst (λ (gs : List Lasting). AllWaiting gs rest) (sym lasting_all)
                (AllWaiting-set (map lasting s.heap) p (lasting c) rest
                  (get_elem?-lt (map lasting s.heap) p l there) alone others);
          foreign =
              subst (λ (gs : List Lasting). AllForeign gs s.forward_queue) (sym lasting_all)
                (AllForeign-set (map lasting s.heap) p l (lasting c) s.forward_queue there waits.1
                  ok.foreign);
          sent_types = as_many ∙ ok.sent_types;
          received_types = ok.received_types;
        },
        ap length queued ∙ omega arith,
        (λ idle. cc),
        refl,
        refl,
      )

  pub forward-IsSafe :
      (driver : Driver) (works : IsWorking driver) (s : Bus) (q : List ℕ)
      → s.forward_queue ≡ q
      → IsSound s
      → IsSafe
          (λ (x : Bus). x.forward_queue)
          (λ (x : Bus). x.send_queue)
          s
          (recv_thread_forward h driver s)
  unfolding recv_thread_forward
  forward-IsSafe driver works s [] empty ok =
      (s, false, rw empty refl, ok, omega arith, (λ _. empty), refl, refl)
  forward-IsSafe driver works s (p ∷ rest) queued ok =
      let ((l, there, comes), others) : AllForeign (map lasting s.heap) (p ∷ rest) =
        subst (λ (x : List ℕ). AllForeign (map lasting s.heap) x) queued ok.foreign in
      let below = get_elem?-lt (map lasting s.heap) p l there in
      let (b, here) = get_elem?-some s.heap p (omega (arith, length-map lasting s.heap)) in
      let (es, heap, sent, oks, valids, lasting_all) =
        send_to_endpoints-foreign driver works (λ e. str_eq e.name b.frame.origin || b.local_frame)
          p s.endpoints s.heap (map lasting s.heap) (λ _. 0) l refl below there comes ok.heap_ok
          ok.valid in
      (
        record s {
          heap = heap;
          endpoints = es;
          forward_queue = rest;
          forward_frames_counter = s.forward_frames_counter + 1;
        },
        true,
        rw (queued, here, sent) refl,
        record {
          heap_ok = oks;
          valid = subst (λ (gs : List Lasting). AllValid (length gs) es) (sym lasting_all) valids;
          waiting =
              subst (λ (gs : List Lasting). AllWaiting gs s.send_queue) (sym lasting_all)
                ok.waiting;
          foreign = subst (λ (gs : List Lasting). AllForeign gs rest) (sym lasting_all) others;
          sent_types = ok.sent_types;
          received_types = ok.received_types;
        },
        ap length queued ∙ omega arith,
        (λ idle. cc),
        refl,
        refl,
      )

-- ===== src/Bus/Thread/Safety.antt =====
-- The thread of h9d/bus.cc and those that use the bus, in any interleaving.
use h9d.Prelude.{
  ℕ, zero, suc, ◌+◌, ◌<◌, ◌≡◌, refl, arith, Bool, Bool-cases, inl, inr, false, List, [], ◌∷◌, ◌++◌,
  Option, some, length, length-map, map, sym, subst, ap, ◌∙◌,
}
use h9d.H9def.{H9Def}
use h9d.Frame.{H9Frame}
use h9d.BusFrame.{BusFrame, new_bus_frame, mark_as_local_origin}
use h9d.Bus.{BusEndpoint, Bus, Driver, send_frame_noblock, recv_frame}
use h9d.Bus.Pending.{
  IsWorking, lasting, HeapOk, HeapOk-eq, AllValid, AllSettled, occurrences, owed,
  send_ack_callback-Settled,
}
use h9d.Bus.Queues.{
  Lasting, AllForeign, AllWaiting, map-append_one, AllForeign-append, AllForeign-new,
  AllWaiting-append, AllWaiting-new, count_type_lem,
}
use h9d.Bus.Steps.{IsSound}
use h9d.Bus.Thread.Heap.{HeapOk-append, AllValid-suc, length-grown}
use h9d.Bus.Thread.Turn.{turn-IsTurned}
use h9d.Bus.Thread.{BusEvent, frame_queued, frame_acked, frame_read, async_event, ack_at, step, run}

IsSafeStep : Option Bus → Type 0
IsSafeStep r = (t : Bus) × (r ≡ some t) × IsSound t

-- The hardware frames of a type of five bits.
abbrev pub IsFrame : BusEvent → Type 0
IsFrame (frame_queued f raw) = f.type < 32
IsFrame (frame_acked i success) = Unit {0}
IsFrame (frame_read f) = f.type < 32
IsFrame async_event = Unit {0}

ack_at-AllSettled :
    (i : ℕ) (a : Bool) (es : List BusEndpoint) (heap : List BusFrame) (fs : List Lasting)
    (w : ℕ → ℕ)
    → map lasting heap ≡ fs
    → HeapOk (λ j. owed j es + w j) heap
    → AllValid (length fs) es
    → AllSettled fs w (ack_at i a es heap)
unfolding ack_at
ack_at-AllSettled i a [] heap fs w size ok valid = ([], heap, refl, ok, tt, size)
ack_at-AllSettled zero a (e ∷ es) heap fs w size ok valid =
    let (e', heap', done, ok', valid', size') =
      send_ack_callback-Settled a e e.pending_frames heap fs (λ j. owed j es + w j) size
        (HeapOk-eq (λ j. owed j (e ∷ es) + w j)
          (λ j. occurrences j e.pending_frames + (owed j es + w j)) heap (λ j. omega arith) ok)
        (valid.0) in
    (
      e' ∷ es,
      heap',
      rw done refl,
      HeapOk-eq (λ j. occurrences j e'.pending_frames + (owed j es + w j))
          (λ j. owed j (e' ∷ es) + w j) heap' (λ j. omega arith) ok',
      (valid', valid.1),
      size',
    )
ack_at-AllSettled (suc i) a (e ∷ es) heap fs w size ok valid =
    let (es', heap', done, ok', valids, size') =
      ack_at-AllSettled i a es heap fs (λ j. occurrences j e.pending_frames + w j) size
        (HeapOk-eq (λ j. owed j (e ∷ es) + w j)
          (λ j. owed j es + (occurrences j e.pending_frames + w j)) heap (λ j. omega arith) ok)
        (valid.1) in
    (
      e ∷ es',
      heap',
      rw done refl,
      HeapOk-eq (λ j. owed j es' + (occurrences j e.pending_frames + w j))
          (λ j. owed j (e ∷ es') + w j) heap' (λ j. omega arith) ok',
      (valid.0, valids),
      size',
    )

pub send_frame_noblock-IsSound :
    (h : H9Def) (f : H9Frame) (raw : Bool) (s : Bus)
    → f.type < 32
    → IsSound s
    → IsSound (send_frame_noblock h f raw s)
unfolding send_frame_noblock new_bus_frame mark_as_local_origin
send_frame_noblock-IsSound h f raw s small ok =
    let b = mark_as_local_origin (new_bus_frame f raw) in
    let grown : map lasting (s.heap ++ b ∷ []) ≡ map lasting s.heap ++ lasting b ∷ [] =
      map-append_one s.heap b in
    let size : length (map lasting s.heap) ≡ length s.heap = length-map lasting s.heap in
    let next : s.send_queue ++ length (map lasting s.heap) ∷ []
        ≡ s.send_queue ++ length s.heap ∷ [] =
      ap (λ (n : ℕ). s.send_queue ++ n ∷ []) size in
    record {
      heap_ok =
          HeapOk-append s.endpoints s.heap b
            (subst (λ (n : ℕ). AllValid n s.endpoints) size ok.valid) refl refl refl ok.heap_ok;
      valid =
          subst (λ (n : ℕ). AllValid n s.endpoints) (sym (length-grown s.heap b))
            (AllValid-suc (length (map lasting s.heap)) s.endpoints ok.valid);
      waiting =
          subst (λ (fs : List Lasting). AllWaiting fs (s.send_queue ++ length s.heap ∷ []))
            (sym grown)
            (subst (AllWaiting (map lasting s.heap ++ lasting b ∷ [])) next (
              AllWaiting-new (map lasting s.heap) (lasting b) s.send_queue (refl, refl, small)
                ok.waiting));
      foreign =
          subst (λ (fs : List Lasting). AllForeign fs s.forward_queue) (sym grown)
            (AllForeign-append (map lasting s.heap) (lasting b) s.forward_queue ok.foreign);
      sent_types = ok.sent_types;
      received_types = ok.received_types;
    }

recv_frame-IsSafeStep :
    (h : H9Def) (f : H9Frame) (s : Bus) → f.type < 32 → IsSound s → IsSafeStep (recv_frame h f s)
unfolding recv_frame new_bus_frame IsSafeStep
recv_frame-IsSafeStep h f s small ok =
    let (by_type, counted, as_many) =
      count_type_lem s.received_frames_counter_by_type f.type
        (subst (λ (n : ℕ). f.type < n) (sym ok.received_types) small) in
    let types = as_many ∙ ok.received_types in
    let b = new_bus_frame f false in
    let met = record s {
      received_frames_counter = s.received_frames_counter + 1;
      received_frames_counter_by_type = by_type;
    } in
    let size : length (map lasting s.heap) ≡ length s.heap = length-map lasting s.heap in
    let grown : map lasting (s.heap ++ b ∷ []) ≡ map lasting s.heap ++ lasting b ∷ [] =
      map-append_one s.heap b in
    elim (Bool-cases s.forwarding) [
      | inl forwards ↦ (
        record met {
          heap = s.heap ++ b ∷ [];
          forward_queue = s.forward_queue ++ length s.heap ∷ [];
        },
        rw (counted, forwards) refl,
        record {
          heap_ok =
              HeapOk-append s.endpoints s.heap b
                (subst (λ (n : ℕ). AllValid n s.endpoints) size ok.valid) refl refl refl ok.heap_ok;
          valid =
              subst (λ (n : ℕ). AllValid n s.endpoints) (sym (length-grown s.heap b))
                (AllValid-suc (length (map lasting s.heap)) s.endpoints ok.valid);
          waiting =
              subst (λ (fs : List Lasting). AllWaiting fs s.send_queue) (sym grown)
                (AllWaiting-append (map lasting s.heap) (lasting b) s.send_queue ok.waiting);
          foreign =
              subst (λ (fs : List Lasting). AllForeign fs (s.forward_queue ++ length s.heap ∷ []))
                (sym grown)
                (subst (AllForeign (map lasting s.heap ++ lasting b ∷ []))
                  (ap (λ (n : ℕ). s.forward_queue ++ n ∷ []) size)
                  (AllForeign-new (map lasting s.heap) (lasting b) s.forward_queue (refl, refl)
                    ok.foreign));
          sent_types = ok.sent_types;
          received_types = types;
        },
      )
      | inr keeps ↦ (
        met,
        rw (counted, keeps) refl,
        record {
          heap_ok = ok.heap_ok;
          valid = ok.valid;
          waiting = ok.waiting;
          foreign = ok.foreign;
          sent_types = ok.sent_types;
          received_types = types;
        },
      )
    ]

step-IsSafeStep :
    (h : H9Def) (driver : Driver) (works : IsWorking driver) (e : BusEvent) (s : Bus)
    → IsFrame e
    → IsSound s
    → IsSafeStep (step h driver e s)
unfolding step IsSafeStep
step-IsSafeStep h driver works (frame_queued f raw) s small ok =
    (send_frame_noblock h f raw s, refl, send_frame_noblock-IsSound h f raw s small ok)
step-IsSafeStep h driver works (frame_acked i a) s small ok =
    let (es, heap, done, oks, valids, sizes) =
      ack_at-AllSettled i a s.endpoints s.heap (map lasting s.heap) (λ _. 0) refl ok.heap_ok
        ok.valid in
    (
      record s { endpoints = es; heap = heap },
      rw done refl,
      record {
        heap_ok = oks;
        valid = subst (λ (fs : List Lasting). AllValid (length fs) es) (sym sizes) valids;
        waiting = subst (λ (fs : List Lasting). AllWaiting fs s.send_queue) (sym sizes) ok.waiting;
        foreign =
            subst (λ (fs : List Lasting). AllForeign fs s.forward_queue) (sym sizes) ok.foreign;
        sent_types = ok.sent_types;
        received_types = ok.received_types;
      },
    )
step-IsSafeStep h driver works (frame_read f) s small ok = recv_frame-IsSafeStep h f s small ok
step-IsSafeStep h driver works async_event s small ok =
    let (t, w, done, ok', _, _, _) = turn-IsTurned h driver works s ok in (t, rw done refl, ok')

abbrev pub AllFrames : List BusEvent → Type 0
AllFrames [] = Unit {0}
AllFrames (e ∷ es) = IsFrame e × AllFrames es

-- Whatever happens to a bus in order, in any interleaving, if no driver throws nothing else does and no index is out of
-- bounds, and the bus stays in order.
pub run-IsSound :
    (h : H9Def) (driver : Driver) (works : IsWorking driver) (es : List BusEvent) (s : Bus)
    → AllFrames es
    → IsSound s
    → (t : Bus) × (run h driver es s ≡ some t) × IsSound t
unfolding run IsSafeStep
run-IsSound h driver works [] s small ok = (s, refl, ok)
run-IsSound h driver works (e ∷ es) s small ok =
    let (t, done, ok') = step-IsSafeStep h driver works e s (small.0) ok in
    rw done (run-IsSound h driver works es t (small.1) ok')

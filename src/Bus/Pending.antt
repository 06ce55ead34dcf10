-- ===== src/Bus/Pending.antt =====
-- What the endpoints of h9d/bus_endpoint.cc still owe to each frame of the heap.
use h9d.Prelude.{
  ℕ, suc, ◌+◌, ◌<◌, ◌≤◌, ◌≢◌, ◌≡◌, refl, arith, Bool, true, false, List, [], ◌∷◌, ◌++◌, AllBelow,
  Option, some, none, leb, ◌&&◌, get_elem?, get_elem?-some, map, map-set, length-map, sym, subst,
  ap, ◌∙◌, AllBelow-append, set, length, get_elem?-set, if◌then◌else◌, ◌==◌,
}
use h9d.Frame.{H9Frame}
use h9d.BusFrame.{
  BusFrame, acknowledge, inc_send_counter, inc_send_fail_counter, finish, is_sent_finish, set_value,
}
use h9d.BusFrame.Acks.{acked, result_of}
use h9d.Bus.{
  BusEndpoint, Driver, send_ack_callback, send_ack_callbacks, endpoint_send_frame,
  send_to_endpoints,
}

-- How often a frame waits in a queue of pending frames, and in those of all endpoints.
abbrev pub occurrences : ℕ → List ℕ → ℕ
occurrences p [] = 0
occurrences p (q ∷ qs) = (if q == p then 1 else 0) + occurrences p qs

abbrev pub owed : ℕ → List BusEndpoint → ℕ
owed p [] = 0
owed p (e ∷ es) = occurrences p e.pending_frames + owed p es

-- An active frame has had, and is owed, one acknowledgement for each endpoint, `w` of them still to
-- come; its promise is open as long as it has not had them all, and kept once it has. A local frame
-- that is not yet active has had none and is owed none.
abbrev pub FrameOk : ℕ → BusFrame → Type 0
FrameOk w b =
    (b.activate_promise ≡ true
      → (acked b + w ≡ b.number_of_active_bus)
        × (acked b < b.number_of_active_bus → b.send_promise ≡ none)
        × (0 < acked b → b.number_of_active_bus ≤ acked b → b.send_promise ≢ none))
    × (b.activate_promise ≡ false
        → b.local_frame ≡ true
        → (acked b + w ≡ 0) × (b.send_promise ≡ none))

-- What the acknowledgements of a frame leave as it is.
abbrev pub lasting : BusFrame → Bool × Bool × ℕ × H9Frame
lasting b = (b.activate_promise, b.local_frame, b.number_of_active_bus, b.frame)

abbrev pub HeapOk : (ℕ → ℕ) → List BusFrame → Type 0
HeapOk w heap = (i : ℕ) (b : BusFrame) → get_elem? heap i ≡ some b → FrameOk (w i) b

-- Only what is owed counts.
pub HeapOk-eq :
    (v w : ℕ → ℕ) (heap : List BusFrame) → ((j : ℕ) → v j ≡ w j) → HeapOk v heap → HeapOk w heap
HeapOk-eq v w heap same ok j c found = subst (λ (x : ℕ). FrameOk x c) (same j) (ok j c found)

-- An acknowledged frame.
acknowledged : Bool → BusFrame → BusFrame
acknowledged a b =
    let c = record b {
      send_counter = if a then b.send_counter + 1 else b.send_counter;
      send_fail_counter = if a then b.send_fail_counter else b.send_fail_counter + 1;
    } in
    if b.activate_promise && leb b.number_of_active_bus (acked c)
    then record c { send_promise = some (result_of c) }
    else c

acknowledge-acknowledged :
    (a : Bool) (w : ℕ) (b : BusFrame)
    → FrameOk (suc w) b
    → acknowledge a b ≡ some (acknowledged a b)
unfolding acknowledge inc_send_counter inc_send_fail_counter finish is_sent_finish set_value
    acknowledged
acknowledge-acknowledged true w b ok = ground arith
acknowledge-acknowledged false w b ok = ground arith

acknowledged-lasting : (a : Bool) (b : BusFrame) → lasting (acknowledged a b) ≡ lasting b
unfolding acknowledged
acknowledged-lasting a b = ground arith

acknowledged-FrameOk :
    (a : Bool) (w : ℕ) (b : BusFrame) → FrameOk (suc w) b → FrameOk w (acknowledged a b)
unfolding acknowledged
acknowledged-FrameOk true w b ok = ground arith
acknowledged-FrameOk false w b ok = ground arith

length-lasting :
    (heap : List BusFrame) (fs : List (Bool × Bool × ℕ × H9Frame))
    → map lasting heap ≡ fs
    → length heap ≡ length fs
length-lasting heap fs e = sym (length-map lasting heap) ∙ ap length e

-- The result of an endpoint is a state in which the heap is fine, `w` being owed elsewhere.
abbrev pub Settled :
    List (Bool × Bool × ℕ × H9Frame) → (ℕ → ℕ) → Option (BusEndpoint × List BusFrame) → Type 0
Settled fs w r =
    (e : BusEndpoint) × (heap : List BusFrame) × (r ≡ some (e, heap))
    × HeapOk (λ j. occurrences j e.pending_frames + w j) heap
    × AllBelow (length fs) e.pending_frames
    × (map lasting heap ≡ fs)

-- A callback takes one acknowledgement off what the endpoint owes.
pub send_ack_callback-Settled :
    (a : Bool) (e : BusEndpoint) (ps : List ℕ) (heap : List BusFrame)
    (fs : List (Bool × Bool × ℕ × H9Frame)) (w : ℕ → ℕ)
    → map lasting heap ≡ fs
    → HeapOk (λ j. occurrences j ps + w j) heap
    → AllBelow (length fs) ps
    → Settled fs w (send_ack_callback a (record e { pending_frames = ps }) heap)
unfolding send_ack_callback
send_ack_callback-Settled a e [] heap fs w size ok valid =
    (record e { pending_frames = [] }, heap, refl, ok, valid, size)
send_ack_callback-Settled a e (p ∷ rest) heap fs w size ok valid =
    let (b, here) = get_elem?-some heap p (omega (arith, length-lasting heap fs size)) in
    let due : FrameOk (suc (occurrences p rest + w p)) b = ground (arith, ok p b here) in
    (
      record e { pending_frames = rest },
      set heap p (acknowledged a b),
      rw (here, acknowledge-acknowledged a (occurrences p rest + w p) b due),
      (λ j c found. ground (
        arith,
        get_elem?-set heap p j (acknowledged a b),
        acknowledged-FrameOk a (occurrences p rest + w p) b due,
        ok j c,
        length-lasting heap fs size,
      )),
      valid.1,
      map-set lasting heap p b (acknowledged a b) here (acknowledged-lasting a b) ∙ size,
    )

send_ack_callbacks-Settled :
    (acks : List Bool) (e : BusEndpoint) (heap : List BusFrame)
    (fs : List (Bool × Bool × ℕ × H9Frame)) (w : ℕ → ℕ)
    → map lasting heap ≡ fs
    → HeapOk (λ j. occurrences j e.pending_frames + w j) heap
    → AllBelow (length fs) e.pending_frames
    → Settled fs w (send_ack_callbacks acks e heap)
unfolding send_ack_callbacks
send_ack_callbacks-Settled [] e heap fs w size ok valid = (e, heap, refl, ok, valid, size)
send_ack_callbacks-Settled (a ∷ acks) e heap fs w size ok valid =
    let (e', heap', done, ok', valid', size') =
      send_ack_callback-Settled a e e.pending_frames heap fs w size ok valid in
    rw done (send_ack_callbacks-Settled acks e' heap' fs w size' ok' valid')

pub occurrences-append :
    (j p : ℕ) (qs : List ℕ)
    → occurrences j (qs ++ p ∷ []) ≡ occurrences j qs + (if p == j then 1 else 0)
occurrences-append j p [] = omega arith
occurrences-append j p (q ∷ qs) = omega (arith, occurrences-append j p qs)

-- No endpoint's driver throws when it sends.
abbrev pub IsWorking : Driver → Type 0
IsWorking driver = (e : BusEndpoint) (f : H9Frame) → (acks : List Bool) × (driver e f ≡ some acks)

pub endpoint_send_frame-Settled :
    (driver : Driver) (works : IsWorking driver) (p : ℕ) (e : BusEndpoint) (heap : List BusFrame)
    (fs : List (Bool × Bool × ℕ × H9Frame)) (w : ℕ → ℕ)
    → map lasting heap ≡ fs
    → p < length fs
    → HeapOk (λ j. occurrences j e.pending_frames + ((if p == j then 1 else 0) + w j)) heap
    → AllBelow (length fs) e.pending_frames
    → Settled fs w (endpoint_send_frame driver p e heap)
unfolding endpoint_send_frame
endpoint_send_frame-Settled driver works p e heap fs w size below ok valid =
    let (b, here) = get_elem?-some heap p (omega (arith, length-lasting heap fs size)) in
    let (acks, given) = works e b.frame in
    rw (here, given)
      (send_ack_callbacks-Settled acks
        (record e {
          sent_frames_counter = e.sent_frames_counter + 1;
          pending_frames = e.pending_frames ++ p ∷ [];
        })
        heap fs w size
        (λ j c found. ground (arith, ok j c, occurrences-append j p e.pending_frames))
        (AllBelow-append (length fs) p e.pending_frames below valid))

abbrev pub AllValid : ℕ → List BusEndpoint → Type 0
AllValid n [] = Unit {0}
AllValid n (e ∷ es) = AllBelow n e.pending_frames × AllValid n es

-- All endpoints together.
abbrev pub AllSettled :
    List (Bool × Bool × ℕ × H9Frame) → (ℕ → ℕ) → Option (List BusEndpoint × List BusFrame) → Type 0
AllSettled fs w r =
    (es : List BusEndpoint) × (heap : List BusFrame) × (r ≡ some (es, heap))
    × HeapOk (λ j. owed j es + w j) heap
    × AllValid (length fs) es
    × (map lasting heap ≡ fs)

-- A frame of the heap that is owed one acknowledgement by each endpoint is handed to all of them,
-- whatever their drivers report meanwhile, without an exception if no driver throws: afterwards each active frame has
-- had, or is still owed, one acknowledgement for each of its drivers, and its promise is open until
-- it has had them all, and then kept; each pending frame is in the heap; and no frame has changed
-- but in its counts and its promise.
pub send_to_endpoints-AllSettled :
    (driver : Driver) (works : IsWorking driver) (p : ℕ) (es : List BusEndpoint)
    (heap : List BusFrame) (fs : List (Bool × Bool × ℕ × H9Frame)) (w : ℕ → ℕ)
    → map lasting heap ≡ fs
    → p < length fs
    → HeapOk (λ j. owed j es + ((if p == j then length es else 0) + w j)) heap
    → AllValid (length fs) es
    → AllSettled fs w (send_to_endpoints driver (λ _. false) p es heap)
unfolding send_to_endpoints
send_to_endpoints-AllSettled driver works p [] heap fs w size below ok valid =
    ([], heap, refl, HeapOk-eq _ _ heap (λ j. ground arith) ok, tt, size)
send_to_endpoints-AllSettled driver works p (e ∷ es) heap fs w size below ok valid =
    let (e', heap', done, ok', valid', size') =
      endpoint_send_frame-Settled driver works p e heap fs
        (λ j. owed j es + ((if p == j then length es else 0) + w j)) size below
        (HeapOk-eq (λ j. owed j (e ∷ es) + ((if p == j then length (e ∷ es) else 0) + w j))
          (λ j.
            occurrences j e.pending_frames
            + ((if p == j then 1 else 0) + (owed j es + ((if p == j then length es else 0) + w j))))
          heap (λ j. ground arith) ok)
        (valid.0) in
    let (es', heap'', rest, oks, valids, sizes) =
      send_to_endpoints-AllSettled driver works p es heap' fs
        (λ j. occurrences j e'.pending_frames + w j) size' below
        (HeapOk-eq
          (λ j.
            occurrences j e'.pending_frames
            + (owed j es + ((if p == j then length es else 0) + w j)))
          (λ j.
            owed j es
            + ((if p == j then length es else 0) + (occurrences j e'.pending_frames + w j)))
          heap' (λ j. omega arith) ok')
        (valid.1) in
    (
      e' ∷ es',
      heap'',
      rw (done, rest),
      HeapOk-eq (λ j. owed j es' + (occurrences j e'.pending_frames + w j))
          (λ j. owed j (e' ∷ es') + w j) heap'' (λ j. omega arith) oks,
      (valid', valids),
      sizes,
    )

-- ===== src/Bus/Forward.antt =====
-- The frames that `recv_thread_forward` of h9d/bus.cc hands to the endpoints.
use h9d.Prelude.{
  ℕ, ◌+◌, ◌<◌, ◌≡◌, refl, arith, Bool, Bool-cases, inl, inr, false, List, [], ◌∷◌, some, get_elem?,
  get_elem?-map, map, length, sym, subst, ◌∙◌, if◌then◌else◌, ◌==◌,
}
use h9d.Frame.{H9Frame}
use h9d.BusFrame.{BusFrame}
use h9d.Bus.{BusEndpoint, Driver, send_to_endpoints}
use h9d.Bus.Pending.{
  IsWorking, FrameOk, lasting, HeapOk, HeapOk-eq, AllValid, AllSettled, occurrences, owed,
  endpoint_send_frame-Settled,
}

-- A frame that came from an endpoint: no one waits for it, and it owes nothing.
abbrev pub IsForeign : Bool × Bool × ℕ × H9Frame → Type 0
IsForeign l = (l.0 ≡ false) × (l.1 ≡ false)

HeapOk-foreign :
    (v w : ℕ → ℕ) (heap : List BusFrame) (p : ℕ) (l : Bool × Bool × ℕ × H9Frame)
    → get_elem? (map lasting heap) p ≡ some l
    → IsForeign l
    → ((j : ℕ) → (p == j) ≡ false → v j ≡ w j)
    → HeapOk v heap
    → HeapOk w heap
HeapOk-foreign v w heap p l here foreign same ok j c found = elim (Bool-cases (p == j)) [
  | inl this ↦
      let e : p ≡ j = ground arith in
      let there : get_elem? (map lasting heap) p ≡ some (lasting c) =
        rw e (get_elem?-map lasting heap j c found) in
      let known : some l ≡ some (lasting c) = sym here ∙ there in
      let inactive : c.activate_promise ≡ false = ground (arith, known) in
      let elsewhere : c.local_frame ≡ false = ground (arith, known) in
      ((λ active. cc), (λ _ mine. cc))
  | inr other ↦ subst (λ (x : ℕ). FrameOk x c) (same j other) (ok j c found)
]

-- A foreign frame is handed to any of the endpoints without an exception, if no driver throws,
-- whatever they report meanwhile, and what the endpoints owe to the other frames stays in order.
pub send_to_endpoints-foreign :
    (driver : Driver) (works : IsWorking driver) (skips : BusEndpoint → Bool) (p : ℕ)
    (es : List BusEndpoint) (heap : List BusFrame) (fs : List (Bool × Bool × ℕ × H9Frame))
    (w : ℕ → ℕ) (l : Bool × Bool × ℕ × H9Frame)
    → map lasting heap ≡ fs
    → p < length fs
    → get_elem? fs p ≡ some l
    → IsForeign l
    → HeapOk (λ j. owed j es + w j) heap
    → AllValid (length fs) es
    → AllSettled fs w (send_to_endpoints driver skips p es heap)
unfolding send_to_endpoints
send_to_endpoints-foreign driver works skips p [] heap fs w l size below here foreign ok valid =
    ([], heap, refl, ok, tt, size)
send_to_endpoints-foreign driver works skips p (e ∷ es) heap fs w l size below here foreign ok
      valid =
    elim (Bool-cases (skips e)) [
      | inl skipped ↦
          let (es', heap', rest, oks, valids, sizes) =
            send_to_endpoints-foreign driver works skips p es heap fs
              (λ j. occurrences j e.pending_frames + w j) l size below here foreign
              (HeapOk-eq (λ j. owed j (e ∷ es) + w j)
                (λ j. owed j es + (occurrences j e.pending_frames + w j)) heap (λ j. omega arith)
                ok)
              (valid.1) in
          (
            e ∷ es',
            heap',
            rw (skipped, rest),
            HeapOk-eq (λ j. owed j es' + (occurrences j e.pending_frames + w j))
                (λ j. owed j (e ∷ es') + w j) heap' (λ j. omega arith) oks,
            (valid.0, valids),
            sizes,
          )
      | inr taken ↦
          let (e', heap', done, ok', valid', size') =
            endpoint_send_frame-Settled driver works p e heap fs (λ j. owed j es + w j) size below
              (HeapOk-foreign (λ j. owed j (e ∷ es) + w j)
                (λ j.
                  occurrences j e.pending_frames + ((if p == j then 1 else 0) + (owed j es + w j)))
                heap p l (rw size here) foreign (λ j other. ground arith) ok)
              (valid.0) in
          let (es', heap'', rest, oks, valids, sizes) =
            send_to_endpoints-foreign driver works skips p es heap' fs
              (λ j. occurrences j e'.pending_frames + w j) l size' below here foreign
              (HeapOk-eq (λ j. occurrences j e'.pending_frames + (owed j es + w j))
                (λ j. owed j es + (occurrences j e'.pending_frames + w j)) heap' (λ j. omega arith)
                ok')
              (valid.1) in
          (
            e' ∷ es',
            heap'',
            rw (taken, done, rest),
            HeapOk-eq (λ j. owed j es' + (occurrences j e'.pending_frames + w j))
                (λ j. owed j (e' ∷ es') + w j) heap'' (λ j. omega arith) oks,
            (valid', valids),
            sizes,
          )
    ]

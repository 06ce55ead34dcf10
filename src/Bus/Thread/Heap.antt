-- ===== src/Bus/Thread/Heap.antt =====
-- A frame that is new to the heap of h9d/bus.cc.
use h9d.Prelude.{
  ℕ, ◌+◌, ◌≡◌, refl, arith, Bool-cases, inl, inr, false, List, [], ◌∷◌, ◌++◌, none, AllBelow,
  AllBelow-mono, get_elem?-append, length, length-append, map, subst, ap, ◌∙◌, ◌==◌,
}
use h9d.BusFrame.{BusFrame}
use h9d.BusFrame.Acks.{acked}
use h9d.Bus.{BusEndpoint}
use h9d.Bus.Pending.{FrameOk, lasting, HeapOk, AllValid, occurrences, owed}
use h9d.Bus.Queues.{map-append_one}

occurrences-below : (n : ℕ) (ps : List ℕ) → AllBelow n ps → occurrences n ps ≡ 0
occurrences-below n [] valid = refl
occurrences-below n (p ∷ ps) valid = ground (arith, occurrences-below n ps (valid.1))

owed-below : (n : ℕ) (es : List BusEndpoint) → AllValid n es → owed n es ≡ 0
owed-below n [] valid = refl
owed-below n (e ∷ es) valid =
    omega (arith, occurrences-below n e.pending_frames (valid.0), owed-below n es (valid.1))

pub AllValid-suc : (n : ℕ) (es : List BusEndpoint) → AllValid n es → AllValid (n + 1) es
AllValid-suc n [] valid = tt
AllValid-suc n (e ∷ es) valid =
    (AllBelow-mono n (n + 1) e.pending_frames (omega arith) (valid.0), AllValid-suc n es (valid.1))

-- A frame that is new to the heap is not sent yet.
pub HeapOk-append :
    (es : List BusEndpoint) (heap : List BusFrame) (b : BusFrame)
    → AllValid (length heap) es
    → b.activate_promise ≡ false
    → acked b ≡ 0
    → b.send_promise ≡ none
    → HeapOk (λ j. owed j es + 0) heap
    → HeapOk (λ j. owed j es + 0) (heap ++ b ∷ [])
HeapOk-append es heap b valid idle fresh unset ok j c found = elim (Bool-cases (j == length heap)) [
  | inl this ↦
      let same : j ≡ length heap = ground arith in
      let it : b ≡ c = ground (arith, get_elem?-append heap b j) in
      subst (λ (x : BusFrame). FrameOk (owed j es + 0) x) it
        (
          (λ active. cc),
          (λ _ _. (
            omega (arith, ap (λ (x : ℕ). owed x es) same, owed-below (length heap) es valid),
            unset,
          )),
        )
  | inr other ↦ ok j c (ground (arith, get_elem?-append heap b j))
]

pub length-grown :
    (heap : List BusFrame) (b : BusFrame)
    → length (map lasting (heap ++ b ∷ [])) ≡ length (map lasting heap) + 1
length-grown heap b =
    ap length (map-append_one heap b) ∙ length-append (map lasting heap) (lasting b ∷ [])

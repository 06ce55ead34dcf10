-- ===== src/Bus/Thread/Turn.antt =====
-- One turn of the loop of `Bus::recv_thread` in h9d/bus.cc, and the loop, which ends.
use h9d.Prelude.{
  ℕ, zero, suc, ◌+◌, ◌<◌, ◌≡◌, refl, arith, Bool, Bool-cases, inl, inr, true, false, ◌||◌, List, [],
  Option, some, length, subst, ap, ◌∙◌, if◌then◌else◌,
}
use h9d.H9def.{H9Def}
use h9d.Bus.{Bus, Driver, recv_thread_send, recv_thread_forward}
use h9d.Bus.Pending.{IsWorking}
use h9d.Bus.Steps.{IsSound, send-IsSafe, forward-IsSafe}
use h9d.Bus.Thread.{turn, drain}

either_fewer :
    (v w : Bool) (a b c d e f : ℕ)
    → a ≡ b + (if v then 1 else 0)
    → c ≡ d + (if w then 1 else 0)
    → c ≡ e
    → f ≡ b
    → (v || w) ≡ true
    → d + f < e + a
either_fewer true true a b c d e f p q r s worked = omega arith
either_fewer true false a b c d e f p q r s worked = omega arith
either_fewer false true a b c d e f p q r s worked = omega arith
either_fewer false false a b c d e f p q r s worked = cc

either_idle :
    (v w : Bool) {a b c : List ℕ} {P : Type 0}
    → (v ≡ false → a ≡ [])
    → (w ≡ false → b ≡ [])
    → c ≡ a
    → (v || w) ≡ false
    → (b ≡ []) × (P → c ≡ [])
either_idle true w p q same rests = cc
either_idle false true p q same rests = cc
either_idle false false p q same rests = (q refl, (λ _. same ∙ p refl))

turn_lem :
    (h : H9Def) (driver : Driver) (s t u : Bus) (v w : Bool)
    → (if s.forwarding then recv_thread_forward h driver s else some (s, false)) ≡ some (t, v)
    → recv_thread_send h driver t ≡ some (u, w)
    → turn h driver s ≡ some (u, v || w)
unfolding turn
turn_lem h driver s t u v w forwarded sent = rw (forwarded, sent) refl

-- A turn leaves the bus in order; it takes a frame from the queues, or has found none to take.
abbrev pub IsTurned : Bus → Option (Bus × Bool) → Type 0
IsTurned s r =
    (t : Bus) × (worked : Bool) × (r ≡ some (t, worked))
    × IsSound t
    × (worked ≡ true
        → length t.send_queue + length t.forward_queue
          < length s.send_queue + length s.forward_queue)
    × (worked ≡ false → (t.send_queue ≡ []) × (t.forwarding ≡ true → t.forward_queue ≡ []))
    × (t.forwarding ≡ s.forwarding)

pub turn-IsTurned :
    (h : H9Def) (driver : Driver) (works : IsWorking driver) (s : Bus)
    → IsSound s
    → IsTurned s (turn h driver s)
turn-IsTurned h driver works s ok = elim (Bool-cases s.forwarding) [
  | inl forwards ↦
      let (t, v, done, ok', fewer, idle, kept, same) =
        forward-IsSafe h driver works s s.forward_queue refl ok in
      let (u, w, sent, ok'', fewer', idle', kept', same') =
        send-IsSafe h driver works t t.send_queue refl ok' in
      let first =
        ap (λ (b : Bool). if b then recv_thread_forward h driver s else some (s, false)) forwards
        ∙ done in
      (
        u,
        v || w,
        turn_lem h driver s t u v w first sent,
        ok'',
        either_fewer v w (length s.forward_queue) (length t.forward_queue) (length t.send_queue)
            (length u.send_queue) (length s.send_queue) (length u.forward_queue) fewer fewer'
            (ap length kept) (ap length kept'),
        either_idle v w idle idle' kept',
        same' ∙ same,
      )
  | inr keeps ↦
      let (u, w, sent, ok', fewer, idle, kept, same) =
        send-IsSafe h driver works s s.send_queue refl ok in
      let first =
        ap (λ (b : Bool). if b then recv_thread_forward h driver s else some (s, false)) keeps in
      (
        u,
        w,
        turn_lem h driver s s u false w first sent,
        ok',
        (λ worked. omega (
          arith,
          subst (λ (b : Bool). length s.send_queue ≡ length u.send_queue + (if b then 1 else 0))
              worked fewer,
          ap length kept,
        )),
        (λ rests. (idle rests, (λ forwards. cc))),
        same,
      )
]

-- From a bus in order the loop ends, after at most as many turns as frames wait in the queues and
-- one more, without an exception or an access out of bounds, if no driver throws when it sends,
-- whatever the drivers report meanwhile.
-- The bus is in order then, no frame waits to be sent, and none to be forwarded where the bus
-- forwards frames.
pub drain_ends :
    (h : H9Def) (driver : Driver) (works : IsWorking driver) (turns : ℕ) (s : Bus)
    → IsSound s
    → length s.send_queue + length s.forward_queue < turns
    → (t : Bus) × (drain h driver turns s ≡ some (t, true))
      × IsSound t
      × (t.send_queue ≡ [])
      × (t.forwarding ≡ true → t.forward_queue ≡ [])
unfolding drain
drain_ends h driver works zero s ok enough = absurd (omega arith)
drain_ends h driver works (suc turns) s ok enough =
    let (t, worked, done, ok', fewer, idle, same) = turn-IsTurned h driver works s ok in
    elim (Bool-cases worked) [
      | inl busy ↦
          let (u, ended, ok'', empty, idles) =
            drain_ends h driver works turns t ok' (omega (arith, fewer busy)) in
          (u, rw (done, busy) ended, ok'', empty, idles)
      | inr rests ↦ (t, rw (done, rests) refl, ok', (idle rests).0, (idle rests).1)
    ]

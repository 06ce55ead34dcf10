-- ===== src/Bus/Thread/Throws.antt =====
-- Drivers that throw in `Bus::recv_thread` of h9d/bus.cc: a run that they do not end is a run of the
-- same drivers without the exceptions.
use h9d.Prelude.{
  ℕ, ◌≡◌, refl, inl, inr, Bool, true, false, ◌||◌, Bool-cases, List, [], ◌∷◌, Option, some, none,
  ◌>>=◌, Option-cases, get_elem?, set, length, if◌then◌else◌,
}
use text.Mathlib.Text.{◌==◌ as str_eq}
use h9d.H9def.{H9Def}
use h9d.BusFrame.{BusFrame, activate_send_finish_promise}
use h9d.Bus.{
  BusEndpoint, Bus, Driver, endpoint_send_frame, send_to_endpoints, recv_thread_send,
  recv_thread_forward, count_type, stamp,
}
use h9d.Bus.Pending.{IsWorking}
use h9d.Bus.Thread.{BusEvent, frame_queued, frame_acked, frame_read, async_event, turn, step, run}

abbrev acks_of : Option (List Bool) → List Bool
acks_of none = []
acks_of (some acks) = acks

-- The driver, but that it reports nothing where it throws.
abbrev pub calm : Driver → Driver
calm driver e f = some (acks_of (driver e f))

pub calm-IsWorking : (driver : Driver) → IsWorking (calm driver)
calm-IsWorking driver e f = (acks_of (driver e f), refl)

module _ {A B : Type 0} where
  -- What is reached behind a first computation is reached behind one that succeeds as well.
  bind-same :
      (o o' : Option A) (f g : A → Option B) (b : B)
      → ((a : A) → o ≡ some a → o' ≡ some a)
      → ((a : A) → f a ≡ some b → g a ≡ some b)
      → (o >>= f) ≡ some b
      → (o' >>= g) ≡ some b
  bind-same none o' f g b first rest e = cc
  bind-same (some a) o' f g b first rest e = rw (first a refl) (rest a e)

module _ {A : Type 0} where
  if-same :
      (b : Bool) (x x' y : Option A) (a : A)
      → (x ≡ some a → x' ≡ some a)
      → (if b then x else y) ≡ some a
      → (if b then x' else y) ≡ some a
  if-same true x x' y a same = same
  if-same false x x' y a same = λ e. e

module _ (driver : Driver) where
  endpoint-calm :
      (p : ℕ) (e : BusEndpoint) (heap : List BusFrame) (r : BusEndpoint × List BusFrame)
      → endpoint_send_frame driver p e heap ≡ some r
      → endpoint_send_frame (calm driver) p e heap ≡ some r
  unfolding endpoint_send_frame
  endpoint-calm p e heap r =
      bind-same (get_elem? heap p) (get_elem? heap p) _ _ r (λ b same. same)
        (λ b.
          bind-same (driver e b.frame) (calm driver e b.frame) _ _ r (λ acks given. rw given refl)
            (λ acks same. same))

  endpoints-calm :
      (skips : BusEndpoint → Bool) (p : ℕ) (es : List BusEndpoint) (heap : List BusFrame)
      (r : List BusEndpoint × List BusFrame)
      → send_to_endpoints driver skips p es heap ≡ some r
      → send_to_endpoints (calm driver) skips p es heap ≡ some r
  unfolding send_to_endpoints
  endpoints-calm skips p [] heap r = λ same. same
  endpoints-calm skips p (e ∷ es) heap r =
      bind-same (if skips e then some (e, heap) else endpoint_send_frame driver p e heap)
        (if skips e then some (e, heap) else endpoint_send_frame (calm driver) p e heap)
        (λ x. send_to_endpoints driver skips p es (x.1) >>= (λ y. some (x.0 ∷ y.0, y.1)))
        (λ x. send_to_endpoints (calm driver) skips p es (x.1) >>= (λ y. some (x.0 ∷ y.0, y.1))) r
        (λ x. elim (Bool-cases (skips e)) [
          | inl passed ↦ rw passed (λ same. same)
          | inr taken ↦ rw taken (endpoint-calm p e heap x)
        ])
        (λ x.
          bind-same (send_to_endpoints driver skips p es (x.1))
            (send_to_endpoints (calm driver) skips p es (x.1)) (λ y. some (x.0 ∷ y.0, y.1))
            (λ y. some (x.0 ∷ y.0, y.1)) r (endpoints-calm skips p es (x.1)) (λ y same. same))

  module _ (h : H9Def) where
    send-calm :
        (s : Bus) (q : List ℕ) (r : Bus × Bool)
        → s.send_queue ≡ q
        → recv_thread_send h driver s ≡ some r
        → recv_thread_send h (calm driver) s ≡ some r
    unfolding recv_thread_send
    send-calm s [] r empty = rw empty (λ same. same)
    send-calm s (p ∷ rest) r queued = elim (Option-cases (get_elem? s.heap p)) [
      | inl missing ↦ rw (queued, missing) (λ e. cc)
      | inr (b, here) ↦
          let c =
            (stamp h s.bus_id s.next_seqnum
              (activate_send_finish_promise (length s.endpoints) b)).0 in
          elim (Option-cases (count_type s.sent_frames_counter_by_type (c.frame).type)) [
            | inl outside ↦ rw (queued, here, outside) (λ e. cc)
            | inr (by_type, counted) ↦
                elim (Option-cases
                  (send_to_endpoints driver (λ _. false) p s.endpoints (set s.heap p c))) [
                    | inl throws ↦ rw (queued, here, counted, throws) (λ e. cc)
                    | inr (sent, done) ↦
                        rw
                          (
                            queued,
                            here,
                            counted,
                            done,
                            endpoints-calm (λ _. false) p s.endpoints (set s.heap p c) sent done,
                          )
                          (λ same. same)
                  ]
          ]
    ]

    forward-calm :
        (s : Bus) (q : List ℕ) (r : Bus × Bool)
        → s.forward_queue ≡ q
        → recv_thread_forward h driver s ≡ some r
        → recv_thread_forward h (calm driver) s ≡ some r
    unfolding recv_thread_forward
    forward-calm s [] r empty = rw empty (λ same. same)
    forward-calm s (p ∷ rest) r queued = elim (Option-cases (get_elem? s.heap p)) [
      | inl missing ↦ rw (queued, missing) (λ e. cc)
      | inr (b, here) ↦
          let skips : BusEndpoint → Bool = λ e. str_eq e.name b.frame.origin || b.local_frame in
          elim (Option-cases (send_to_endpoints driver skips p s.endpoints s.heap)) [
            | inl throws ↦ rw (queued, here, throws) (λ e. cc)
            | inr (sent, done) ↦
                rw (queued, here, done, endpoints-calm skips p s.endpoints s.heap sent done)
                  (λ same. same)
          ]
    ]

    turn-calm :
        (s : Bus) (r : Bus × Bool) → turn h driver s ≡ some r → turn h (calm driver) s ≡ some r
    unfolding turn
    turn-calm s r =
        bind-same (if s.forwarding then recv_thread_forward h driver s else some (s, false))
          (if s.forwarding then recv_thread_forward h (calm driver) s else some (s, false))
          (λ f. recv_thread_send h driver (f.0) >>= (λ x. some (x.0, f.1 || x.1)))
          (λ f. recv_thread_send h (calm driver) (f.0) >>= (λ x. some (x.0, f.1 || x.1))) r
          (λ f.
            if-same s.forwarding (recv_thread_forward h driver s)
              (recv_thread_forward h (calm driver) s) (some (s, false)) f
              (forward-calm s s.forward_queue f refl))
          (λ f.
            bind-same (recv_thread_send h driver (f.0)) (recv_thread_send h (calm driver) (f.0))
              (λ x. some (x.0, f.1 || x.1)) (λ x. some (x.0, f.1 || x.1)) r
              (λ x. send-calm (f.0) ((f.0).send_queue) x refl) (λ x same. same))

    step-calm :
        (e : BusEvent) (s t : Bus) → step h driver e s ≡ some t → step h (calm driver) e s ≡ some t
    unfolding step
    step-calm (frame_queued f raw) s t = λ same. same
    step-calm (frame_acked i success) s t = λ same. same
    step-calm (frame_read f) s t = λ same. same
    step-calm async_event s t =
        bind-same (turn h driver s) (turn h (calm driver) s) (λ r. some (r.0)) (λ r. some (r.0)) t
          (λ r. turn-calm s r) (λ r same. same)

    -- Events that a bus takes without an exception lead to the same bus if the drivers that throw for
    -- a frame report nothing for it instead.
    pub run-calm :
        (es : List BusEvent) (s t : Bus)
        → run h driver es s ≡ some t
        → run h (calm driver) es s ≡ some t
    unfolding run
    run-calm [] s t = λ same. same
    run-calm (e ∷ es) s t =
        bind-same (step h driver e s) (step h (calm driver) e s) (run h driver es)
          (run h (calm driver) es) t (λ u. step-calm e s u) (λ u. run-calm es u t)

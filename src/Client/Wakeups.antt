-- ===== src/Client/Wakeups.antt =====
-- The queue of h9d/tcpclientthread.cc: no `assert` fails, and messages keep their order.
use h9d.Prelude.{
  ℕ, ◌≡◌, refl, sym, ap, ◌∙◌, arith, Bool, true, false, ◌||◌, List, [], ◌∷◌, ◌++◌, Option, some,
  append_assoc, append_nil, length, length-append, ◌==◌,
}
use h9d.Client.{
  Phase, waits, takes, sends, ClientThread, new_client_thread, ClientEvent, post, go_on, send_msg,
  woken, take_msg, send, proceed, step, run,
}

-- The message that the thread has taken and not sent yet.
abbrev pub in_hand : Phase → List ℕ
in_hand waits = []
in_hand takes = []
in_hand (sends m last) = m ∷ []

-- All messages: those sent, the one in hand, and those in the queue.
abbrev pub accepted : ClientThread → List ℕ
accepted s = s.sent ++ (in_hand s.phase ++ s.async_msg_queue)

-- The messages that are posted in a run.
abbrev pub posted : List ClientEvent → List ℕ
posted [] = []
posted (post m ∷ es) = m ∷ posted es
posted (go_on readable ∷ es) = posted es

-- The queue has a message wherever the thread is about to take one.
abbrev pub HasWork : Phase → List ℕ → Bool → Type 0
HasWork waits [] ready = ready ≡ false
HasWork waits (m ∷ ms) ready = Unit {0}
HasWork takes [] ready = ⊥
HasWork takes (m ∷ ms) ready = ready ≡ false
HasWork (sends m true) [] ready = ready ≡ false
HasWork (sends m true) (n ∷ ms) ready = Unit {0}
HasWork (sends m false) [] ready = ⊥
HasWork (sends m false) (n ∷ ms) ready = ready ≡ false

abbrev pub IsWorking : ClientThread → Type 0
IsWorking s = HasWork s.phase s.async_msg_queue s.event_ready

send_msg-accepted : (m : ℕ) (s : ClientThread) → accepted (send_msg m s) ≡ accepted s ++ m ∷ []
unfolding send_msg
send_msg-accepted m s = sym (
    append_assoc s.sent (in_hand s.phase ++ s.async_msg_queue) (m ∷ [])
    ∙ ap (λ (l : List ℕ). s.sent ++ l) (append_assoc (in_hand s.phase) s.async_msg_queue (m ∷ [])))

no_trigger :
    (n m : ℕ) (ms : List ℕ) (ready : Bool)
    → ready ≡ false
    → (ready || (length (n ∷ ms ++ m ∷ []) == 1)) ≡ false
no_trigger n m ms ready off = ground (arith, length-append (n ∷ ms) (m ∷ []))

HasWork-append :
    (p : Phase) (q : List ℕ) (m : ℕ) (ready : Bool)
    → HasWork p q ready
    → HasWork p (q ++ m ∷ []) (ready || (length (q ++ m ∷ []) == 1))
HasWork-append waits [] m ready h = record {}
HasWork-append waits (n ∷ ms) m ready h = record {}
HasWork-append takes (n ∷ ms) m ready h = no_trigger n m ms ready h
HasWork-append takes [] m ready h = absurd h
HasWork-append (sends k true) [] m ready h = record {}
HasWork-append (sends k true) (n ∷ ms) m ready h = record {}
HasWork-append (sends k false) (n ∷ ms) m ready h = no_trigger n m ms ready h
HasWork-append (sends k false) [] m ready h = absurd h

send_msg-IsWorking : (m : ℕ) (s : ClientThread) → IsWorking s → IsWorking (send_msg m s)
unfolding send_msg
send_msg-IsWorking m s h = HasWork-append s.phase s.async_msg_queue m s.event_ready h

-- A step of the thread itself: no `assert` fails, no message is lost or reordered.
abbrev Proceeds : ClientThread → Option ClientThread → Type 0
Proceeds s r = (t : ClientThread) × (r ≡ some t) × IsWorking t × (accepted t ≡ accepted s)

abbrev pub thread_in : Phase → List ℕ → Bool → List ℕ → ClientThread
thread_in p q ready done = record {
  phase = p;
  async_msg_queue = q;
  event_ready = ready;
  sent = done;
}

proceed-Proceeds :
    (readable : Bool) (p : Phase) (q : List ℕ) (ready : Bool) (done : List ℕ)
    → HasWork p q ready
    → Proceeds (thread_in p q ready done) (proceed readable p (thread_in p q ready done))
unfolding proceed woken take_msg send
proceed-Proceeds true waits [] ready done h = (_, refl, refl, refl)
proceed-Proceeds true waits (m ∷ q) ready done h = (_, refl, record {}, refl)
proceed-Proceeds false waits [] true done h = absurd (ground arith)
proceed-Proceeds false waits (m ∷ q) true done h = (_, refl, refl, refl)
proceed-Proceeds false waits [] false done h = (_, refl, refl, refl)
proceed-Proceeds false waits (m ∷ q) false done h = (_, refl, record {}, refl)
proceed-Proceeds readable takes [] ready done h = absurd h
proceed-Proceeds readable takes (m ∷ []) ready done h = (_, refl, h, refl)
proceed-Proceeds readable takes (m ∷ n ∷ q) ready done h = (_, refl, h, refl)
proceed-Proceeds readable (sends m true) [] ready done h =
    (_, refl, h, append_assoc done (m ∷ []) [])
proceed-Proceeds readable (sends m true) (n ∷ q) ready done h =
    (_, refl, record {}, append_assoc done (m ∷ []) (n ∷ q))
proceed-Proceeds readable (sends m false) [] ready done h = absurd h
proceed-Proceeds readable (sends m false) (n ∷ q) ready done h =
    (_, refl, h, append_assoc done (m ∷ []) (n ∷ q))

-- What a run has come to.
abbrev pub Keeps : ClientThread → List ClientEvent → Option ClientThread → Type 0
Keeps s es r =
    (t : ClientThread) × (r ≡ some t) × IsWorking t × (accepted t ≡ accepted s ++ posted es)

pub run-Keeps : (es : List ClientEvent) (s : ClientThread) → IsWorking s → Keeps s es (run es s)
unfolding run step
run-Keeps [] s h = (s, refl, h, sym (append_nil (accepted s)))
run-Keeps (post m ∷ es) s h =
    let (t, e, h', a) = run-Keeps es (send_msg m s) (send_msg-IsWorking m s h) in
    (
      t,
      e,
      h',
      a
          ∙ (ap (λ (l : List ℕ). l ++ posted es) (send_msg-accepted m s)
              ∙ append_assoc (accepted s) (m ∷ []) (posted es)),
    )
run-Keeps (go_on readable ∷ es) s h =
    let (u, e, h', a) =
      proceed-Proceeds readable s.phase s.async_msg_queue s.event_ready s.sent h in
    let (t, f, h'', b) = run-Keeps es u h' in
    (t, rw e f, h'', b ∙ ap (λ (l : List ℕ). l ++ posted es) a)

-- Whatever other threads post, and whatever the socket and the scheduling do: the `assert` on the
-- queue never fails, and the messages that were sent, the one in hand and those in the queue are all
-- messages that were posted, once each and in the order in which they were posted.
pub new_client_thread-run :
    (es : List ClientEvent)
    → (t : ClientThread) × (run es new_client_thread ≡ some t)
      × (t.sent ++ (in_hand t.phase ++ t.async_msg_queue) ≡ posted es)
unfolding new_client_thread
new_client_thread-run es = let (t, e, h, a) = run-Keeps es new_client_thread refl in (t, e, a)

-- ===== src/Client/Delivery.antt =====
-- When the messages that are left for a client in h9d/tcpclientthread.cc get to its socket.
use h9d.Prelude.{
  ℕ, zero, suc, ◌+◌, ◌*◌, ◌≤◌, ◌≡◌, refl, sym, subst, ◌∙◌, arith, Bool, true, false, ◌||◌, List, [],
  ◌∷◌, ◌++◌, Option, some, append_assoc, append_nil, length, length-append, ◌==◌,
}
use h9d.Client.{
  Phase, waits, takes, sends, ClientThread, new_client_thread, ClientEvent, post, go_on, send_msg,
  woken, take_msg, send, proceed, step, run,
}
use mathlib.Core.Option.{some-injective}
use h9d.Client.Wakeups.{new_client_thread-run, in_hand, posted, thread_in}

-- The thread is awake, or something will wake it up if it has messages.
abbrev IsAwake : Phase → List ℕ → Bool → Type 0
IsAwake waits [] ready = ready ≡ false
IsAwake waits (m ∷ ms) ready = ready ≡ true
IsAwake takes [] ready = ⊥
IsAwake takes (m ∷ ms) ready = ready ≡ false
IsAwake (sends m true) [] ready = ready ≡ false
IsAwake (sends m true) (n ∷ ms) ready = ready ≡ true
IsAwake (sends m false) [] ready = ⊥
IsAwake (sends m false) (n ∷ ms) ready = ready ≡ false

-- A run in which the socket has something to read only when the queue's event is not ready.
pub data Apart : ClientThread → List ClientEvent → ClientThread → Type 0 where
  ended : {s : ClientThread} → Apart s [] s
  posts :
      {s t : ClientThread} {m : ℕ} {es : List ClientEvent}
      → Apart (send_msg m s) es t
      → Apart s (post m ∷ es) t
  goes :
      {s t u : ClientThread} {readable : Bool} {es : List ClientEvent}
      → (readable ≡ true → s.event_ready ≡ false)
      → proceed readable s.phase s ≡ some u
      → Apart u es t
      → Apart s (go_on readable ∷ es) t

first : (ready : Bool) → (ready || ◌==◌ 1 1) ≡ true
first true = refl
first false = refl

later :
    (n m : ℕ) (ms : List ℕ) (ready v : Bool)
    → ready ≡ v
    → (ready || (length (n ∷ ms ++ m ∷ []) == 1)) ≡ v
later n m ms true v e = e
later n m ms false v e = ground (arith, length-append (n ∷ ms) (m ∷ []))

IsAwake-append :
    (p : Phase) (q : List ℕ) (m : ℕ) (ready : Bool)
    → IsAwake p q ready
    → IsAwake p (q ++ m ∷ []) (ready || (length (q ++ m ∷ []) == 1))
IsAwake-append waits [] m ready h = first ready
IsAwake-append waits (n ∷ ms) m ready h = later n m ms ready true h
IsAwake-append takes (n ∷ ms) m ready h = later n m ms ready false h
IsAwake-append takes [] m ready h = absurd h
IsAwake-append (sends k true) [] m ready h = first ready
IsAwake-append (sends k true) (n ∷ ms) m ready h = later n m ms ready true h
IsAwake-append (sends k false) (n ∷ ms) m ready h = later n m ms ready false h
IsAwake-append (sends k false) [] m ready h = absurd h

abbrev Wakes : Option ClientThread → Type 0
Wakes r = (t : ClientThread) × (r ≡ some t) × IsAwake t.phase t.async_msg_queue t.event_ready

proceed-Wakes :
    (readable : Bool) (p : Phase) (q : List ℕ) (ready : Bool) (done : List ℕ)
    → (readable ≡ true → ready ≡ false)
    → IsAwake p q ready
    → Wakes (proceed readable p (thread_in p q ready done))
unfolding proceed woken take_msg send
proceed-Wakes true waits [] ready done apart h = (_, refl, refl)
proceed-Wakes true waits (m ∷ q) ready done apart h = absurd (ground (arith, apart refl))
proceed-Wakes false waits [] true done apart h = absurd (ground arith)
proceed-Wakes false waits (m ∷ q) true done apart h = (_, refl, refl)
proceed-Wakes false waits [] false done apart h = (_, refl, refl)
proceed-Wakes false waits (m ∷ q) false done apart h = absurd (ground arith)
proceed-Wakes readable takes [] ready done apart h = absurd h
proceed-Wakes readable takes (m ∷ []) ready done apart h = (_, refl, h)
proceed-Wakes readable takes (m ∷ n ∷ q) ready done apart h = (_, refl, h)
proceed-Wakes readable (sends m true) [] ready done apart h = (_, refl, h)
proceed-Wakes readable (sends m true) (n ∷ q) ready done apart h = (_, refl, h)
proceed-Wakes readable (sends m false) [] ready done apart h = absurd h
proceed-Wakes readable (sends m false) (n ∷ q) ready done apart h = (_, refl, h)

-- So many steps of the thread alone.
abbrev pub alone : ℕ → List ClientEvent
alone zero = []
alone (suc n) = go_on false ∷ alone n

-- The steps that the thread needs for the messages that it has.
abbrev steps : Phase → List ℕ → ℕ
steps waits [] = 0
steps waits (m ∷ ms) = 3 + 2 * length ms
steps takes q = 2 * length q
steps (sends m true) [] = 1
steps (sends m true) (n ∷ ms) = 4 + 2 * length ms
steps (sends m false) q = 1 + 2 * length q

run-alone :
    (n : ℕ) (p : Phase) (q : List ℕ) (ready : Bool) (done : List ℕ)
    → IsAwake p q ready
    → steps p q ≤ n
    → run (alone n) (thread_in p q ready done)
      ≡ some (thread_in waits [] false (done ++ (in_hand p ++ q)))
unfolding run step proceed woken take_msg send
run-alone zero waits [] ready done h few = rw (h, append_nil done) refl
run-alone zero waits (m ∷ q) ready done h few = absurd (omega arith)
run-alone zero takes [] ready done h few = absurd h
run-alone zero takes (m ∷ q) ready done h few = absurd (omega arith)
run-alone zero (sends m true) [] ready done h few = absurd (omega arith)
run-alone zero (sends m true) (k ∷ q) ready done h few = absurd (omega arith)
run-alone zero (sends m false) q ready done h few = absurd (omega arith)
run-alone (suc n) waits [] true done h few = absurd (ground arith)
run-alone (suc n) waits [] false done h few = run-alone n waits [] false done refl (omega arith)
run-alone (suc n) waits (m ∷ q) true done h few =
    run-alone n takes (m ∷ q) false done refl (omega arith)
run-alone (suc n) waits (m ∷ q) false done h few = absurd (ground arith)
run-alone (suc n) takes [] ready done h few = absurd h
run-alone (suc n) takes (m ∷ []) ready done h few =
    run-alone n (sends m true) [] ready done h (omega arith)
run-alone (suc n) takes (m ∷ k ∷ q) ready done h few =
    run-alone n (sends m false) (k ∷ q) ready done h (omega arith)
run-alone (suc n) (sends m true) [] ready done h few =
    run-alone n waits [] ready (done ++ m ∷ []) h (omega arith)
    ∙ rw (append_assoc done (m ∷ []) []) refl
run-alone (suc n) (sends m true) (k ∷ q) ready done h few =
    run-alone n waits (k ∷ q) ready (done ++ m ∷ []) h (omega arith)
    ∙ rw (append_assoc done (m ∷ []) (k ∷ q)) refl
run-alone (suc n) (sends m false) [] ready done h few = absurd h
run-alone (suc n) (sends m false) (k ∷ q) ready done h few =
    run-alone n takes (k ∷ q) ready (done ++ m ∷ []) h (omega arith)
    ∙ rw (append_assoc done (m ∷ []) (k ∷ q)) refl

IsAwake-steps :
    (p : Phase) (q : List ℕ) (ready : Bool) → IsAwake p q ready → steps p q ≤ 2 * length q + 2
IsAwake-steps waits [] ready h = omega arith
IsAwake-steps waits (m ∷ ms) ready h = omega arith
IsAwake-steps takes q ready h = omega arith
IsAwake-steps (sends m true) [] ready h = omega arith
IsAwake-steps (sends m true) (n ∷ ms) ready h = omega arith
IsAwake-steps (sends m false) q ready h = omega arith

Apart-run :
    (s : ClientThread) (es : List ClientEvent) {t : ClientThread} → Apart s es t → run es s ≡ some t
unfolding run step
Apart-run s [] ended = refl
Apart-run s (post m ∷ es) (posts rest) = Apart-run (send_msg m s) es rest
Apart-run s (go_on readable ∷ es) (goes {u = u} apart e rest) = rw e (Apart-run u es rest)

module _ {u : ClientThread} where
  IsAwake-eq :
      {r : Option ClientThread}
      → Wakes r
      → r ≡ some u
      → IsAwake u.phase u.async_msg_queue u.event_ready
  IsAwake-eq (t, e, h) f =
      subst (λ (x : ClientThread). IsAwake x.phase x.async_msg_queue x.event_ready)
        (some-injective t u (sym e ∙ f)) h

send_msg-IsAwake :
    (m : ℕ) (s : ClientThread)
    → IsAwake s.phase s.async_msg_queue s.event_ready
    → IsAwake (send_msg m s).phase (send_msg m s).async_msg_queue (send_msg m s).event_ready
unfolding send_msg
send_msg-IsAwake m s h = IsAwake-append s.phase s.async_msg_queue m s.event_ready h

Apart-IsAwake :
    (s : ClientThread) (es : List ClientEvent) {t : ClientThread}
    → Apart s es t
    → IsAwake s.phase s.async_msg_queue s.event_ready
    → IsAwake t.phase t.async_msg_queue t.event_ready
Apart-IsAwake s [] ended h = h
Apart-IsAwake s (post m ∷ es) (posts rest) h =
    Apart-IsAwake (send_msg m s) es rest (send_msg-IsAwake m s h)
Apart-IsAwake s (go_on readable ∷ es) (goes {u = u} apart e rest) h =
    Apart-IsAwake u es rest
      (IsAwake-eq (proceed-Wakes readable s.phase s.async_msg_queue s.event_ready s.sent apart h) e)

-- If the socket has something to read only while the queue's event is not ready, then whatever was
-- posted is sent, in order and once each: after enough steps of the thread alone, the number of which
-- depends on the length of the queue, all messages are sent and the queue is empty.
pub Apart-delivered :
    (es : List ClientEvent) (t : ClientThread) (n : ℕ)
    → Apart new_client_thread es t
    → 2 * length t.async_msg_queue + 2 ≤ n
    → (u : ClientThread) × (run (alone n) t ≡ some u)
      × (u.sent ≡ posted es)
      × (u.async_msg_queue ≡ [])
unfolding new_client_thread
Apart-delivered es t n apart enough =
    let awake = Apart-IsAwake new_client_thread es apart refl in
    let (v, e, same) = new_client_thread-run es in
    let is : v ≡ t = some-injective v t (sym e ∙ Apart-run new_client_thread es apart) in
    let few = IsAwake-steps t.phase t.async_msg_queue t.event_ready awake in
    (
      thread_in waits [] false (t.sent ++ (in_hand t.phase ++ t.async_msg_queue)),
      run-alone n t.phase t.async_msg_queue t.event_ready t.sent awake (omega arith),
      subst (λ (x : ClientThread). x.sent ++ (in_hand x.phase ++ x.async_msg_queue) ≡ posted es) is
          same,
      refl,
    )

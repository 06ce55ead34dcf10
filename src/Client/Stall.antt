-- ===== src/Client/Stall.antt =====
-- When the messages that are left for a client in h9d/tcpclientthread.cc never get to its socket.
use h9d.Prelude.{
  ℕ, ◌≡◌, refl, ◌∙◌, arith, true, false, List, [], ◌∷◌, ◌++◌, some, append_assoc, append_nil,
  length, length-append, ◌==◌,
}
use h9d.Client.{waits, ClientThread, ClientEvent, post, go_on, send_msg, woken, proceed, step, run}
use h9d.Client.Wakeups.{posted, thread_in}

-- From any state in which the thread waits with messages in its queue and nothing to wake it up, no
-- run sends any of them.
stalled-run :
    (es : List ClientEvent) (m : ℕ) (ms done : List ℕ)
    → run es (thread_in waits (m ∷ ms) false done)
      ≡ some (thread_in waits (m ∷ ms ++ posted es) false done)
unfolding run step proceed woken send_msg
stalled-run [] m ms done = rw (append_nil ms) refl
stalled-run (post n ∷ es) m ms done =
    let off : (length (m ∷ ms ++ n ∷ []) == 1) ≡ false =
      ground (arith, length-append ms (n ∷ [])) in
    rw off (stalled-run es m (ms ++ n ∷ []) done ∙ rw (append_assoc ms (n ∷ []) (posted es)) refl)
stalled-run (go_on true ∷ es) m ms done = stalled-run es m ms done
stalled-run (go_on false ∷ es) m ms done = stalled-run es m ms done

-- A waiting thread with messages in its queue that is woken up while its socket has something to
-- read: whatever follows, no message is sent any more, those posted later included.
pub run-stalled :
    (es : List ClientEvent) (m : ℕ) (ms : List ℕ) (s : ClientThread)
    → s.phase ≡ waits
    → s.async_msg_queue ≡ m ∷ ms
    → (t : ClientThread) × (run (go_on true ∷ es) s ≡ some t)
      × (t.sent ≡ s.sent)
      × (t.async_msg_queue ≡ s.async_msg_queue ++ posted es)
unfolding run step proceed woken
run-stalled es m ms s idle queued = (
  thread_in waits (m ∷ ms ++ posted es) false s.sent,
  rw (idle, queued) (stalled-run es m ms s.sent),
  refl,
  rw queued refl,
)

-- ===== src/Examples/Clients.antt =====
-- h9d/tcpclientthread.cc with a few messages.
use h9d.Prelude.{◌≡◌, refl, arith, false, true, List, [], ◌∷◌, ◌++◌, some}
use h9d.Client.{
  ClientThread, waits, new_client_thread, ClientEvent, post, go_on, send_msg, woken, proceed, run,
}
use h9d.Client.Wakeups.{in_hand, new_client_thread-run}
use h9d.Client.Stall.{run-stalled}
use h9d.Client.Delivery.{Apart, posts, goes, ended, alone, Apart-delivered}

abbrev events : List ClientEvent
events = post 1 ∷ go_on false ∷ post 2 ∷ go_on false ∷ go_on false ∷ post 3 ∷ []

new_client_thread-run_example :
    (t : ClientThread) × (run events new_client_thread ≡ some t)
    × (t.sent ++ (in_hand t.phase ++ t.async_msg_queue) ≡ 1 ∷ 2 ∷ 3 ∷ [])
new_client_thread-run_example = new_client_thread-run events

abbrev posted_one : ClientThread
posted_one = record { phase = waits; async_msg_queue = 7 ∷ []; event_ready = true; sent = [] }

run-stalled_example :
    (t : ClientThread) × (run (go_on true ∷ events) posted_one ≡ some t)
    × (t.sent ≡ [])
    × (t.async_msg_queue ≡ 7 ∷ 1 ∷ 2 ∷ 3 ∷ [])
run-stalled_example = run-stalled events 7 [] posted_one refl refl

one_post : Apart new_client_thread (go_on true ∷ post 7 ∷ []) posted_one
unfolding new_client_thread send_msg proceed woken
one_post = goes (λ e. refl) refl (posts ended)

Apart-delivered_example :
    (u : ClientThread) × (run (alone 4) posted_one ≡ some u)
    × (u.sent ≡ 7 ∷ [])
    × (u.async_msg_queue ≡ [])
Apart-delivered_example =
    Apart-delivered (go_on true ∷ post 7 ∷ []) posted_one 4 one_post (omega arith)

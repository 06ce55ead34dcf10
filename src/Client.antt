-- ===== src/Client.antt =====
-- h9d/tcpclientthread.h and tcpclientthread.cc, with h9d/epoll.h and epoll.cc: the thread of a client
-- of the daemon, and the messages that other threads leave for it. A `none` is a failed `assert`.
-- What the socket says of its writes is left out.
pub mod Wakeups
pub mod Stall
pub mod Delivery
pub mod Requests
pub mod Batches
use h9d.Prelude.{
  ℕ, suc, Bool, true, false, not, ◌||◌, List, [], ◌∷◌, ◌++◌, Option, some, none, ◌>>=◌, length,
  ◌==◌, if◌then◌else◌,
}

-- Where the thread stands: in `epoll_wait`; before it locks the queue, in the loop of
-- `thread_send_async_msg`; or before it sends a message that it has taken, with `queue_empty`.
pub data Phase : Type 0 where
  waits : Phase
  takes : Phase
  sends : ℕ → Bool → Phase

-- A message is a number. `event_ready` says that the event of the queue, which is edge-triggered, has
-- been written to since `epoll_wait` last reported it; `sent` is what has been given to the socket.
pub record ClientThread : Type 0 where
  pub phase : Phase
  pub async_msg_queue : List ℕ
  pub event_ready : Bool
  pub sent : List ℕ

unfoldable pub new_client_thread : ClientThread
new_client_thread = record { phase = waits; async_msg_queue = []; event_ready = false; sent = [] }

-- Another thread posts a message; or the thread goes on, and if it waits, the socket has something to
-- read or not.
pub data ClientEvent : Type 0 where
  post : ℕ → ClientEvent
  go_on : Bool → ClientEvent

unfoldable pub send_msg : ℕ → ClientThread → ClientThread
send_msg m s =
    let queue = s.async_msg_queue ++ m ∷ [] in
    record s { async_msg_queue = queue; event_ready = s.event_ready || (length queue == 1) }

-- `wait` reports all events that are ready, and the loop of `thread` looks at the socket first. With
-- nothing to report, the thread waits on. Reading from the socket leaves the queue as it is.
unfoldable pub woken : Bool → ClientThread → ClientThread
woken readable s =
    if readable
    then record s { event_ready = false }
    else if s.event_ready
    then record s { event_ready = false; phase = takes }
    else s

is_empty : List ℕ → Bool
is_empty [] = true
is_empty (m ∷ ms) = false

-- One turn of the loop of `thread_send_async_msg`, with the queue locked.
unfoldable pub take_msg : List ℕ → ClientThread → Option ClientThread
unfolding is_empty
take_msg [] s = none
take_msg (m ∷ rest) s = some (record s { async_msg_queue = rest; phase = sends m (is_empty rest) })

-- The end of a turn, with the queue free.
unfoldable pub send : ℕ → Bool → ClientThread → ClientThread
send m queue_empty s = record s {
  sent = s.sent ++ m ∷ [];
  phase = if queue_empty then waits else takes;
}

unfoldable pub proceed : Bool → Phase → ClientThread → Option ClientThread
proceed readable waits s = some (woken readable s)
proceed readable takes s = take_msg s.async_msg_queue s
proceed readable (sends m queue_empty) s = some (send m queue_empty s)

unfoldable pub step : ClientEvent → ClientThread → Option ClientThread
step (post m) s = some (send_msg m s)
step (go_on readable) s = proceed readable s.phase s

unfoldable pub run : List ClientEvent → ClientThread → Option ClientThread
run [] s = some s
run (e ∷ es) s = step e s >>= run es

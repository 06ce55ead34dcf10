-- ===== src/TcpServer.antt =====
-- h9d/tcpserver.cc: the list of the clients, which the server's thread changes, while the clients'
-- own threads of h9d/tcpclientthread.cc start, subscribe and end. A `none` is a failed `assert`. What
-- the system does to accept a connection is left out.
pub mod Sweep
use h9d.Prelude.{
  ℕ, zero, suc, Bool, true, false, ◌||◌, List, [], ◌∷◌, ◌++◌, Option, some, none, ◌>>=◌, length,
  get_elem?, if◌then◌else◌,
}

-- Where a client's thread stands: not yet in `thread`; in its loop; after `thread_running = false`;
-- after its observer of frames is detached; after that of devices is, too; and after
-- `cleanup_tcpclientthread`.
pub data Stage : Type 0 where
  starts serves stops frames_detached detached finished : Stage

-- An observer of a client: a null pointer, or an object whose subject is set or null.
pub data Observer : Type 0 where
  no_observer attached_observer detached_observer : Observer

-- A client, named by its socket.
pub record TcpClient : Type 0 where
  pub sockfd : ℕ
  pub stage : Stage
  pub frame_observer : Observer
  pub dev_status_observer : Observer

-- `event_ready` is the edge-triggered event that the clients' threads write to.
pub record TcpServer : Type 0 where
  pub clients : List TcpClient
  pub event_ready : Bool

-- `thread_running`, an atomic that C++ 23 initialises to false.
unfoldable pub is_running : Stage → Bool
is_running starts = false
is_running serves = true
is_running stops = false
is_running frames_detached = false
is_running detached = false
is_running finished = false

-- `if (observer) observer->detach()`.
unfoldable pub detach : Observer → Observer
detach no_observer = no_observer
detach attached_observer = detached_observer
detach detached_observer = detached_observer

-- The destructors of observers assert that they are detached.
unfoldable pub is_attached : Observer → Bool
is_attached no_observer = false
is_attached attached_observer = true
is_attached detached_observer = false

-- `set_frame_observer` and `set_dev_status_observer` with a new observer, which is attached; the old
-- one is deleted.
unfoldable pub replace_observer : Observer → Option Observer
unfolding is_attached
replace_observer o = if is_attached o then none else some attached_observer

-- The next step of `thread`.
unfoldable pub advance_at : Stage → TcpClient → TcpClient
advance_at starts c = record c { stage = serves }
advance_at serves c = record c { stage = stops }
advance_at stops c = record c { stage = frames_detached; frame_observer = detach c.frame_observer }
advance_at frames_detached c = record c {
  stage = detached;
  dev_status_observer = detach c.dev_status_observer;
}
advance_at detached c = record c { stage = finished }
advance_at finished c = c

unfoldable pub advance : TcpClient → TcpClient
advance c = advance_at c.stage c

-- The same of the client at a place of the list.
unfoldable pub advance_client : ℕ → List TcpClient → List TcpClient
advance_client i [] = []
advance_client zero (c ∷ cs) = advance c ∷ cs
advance_client (suc i) (c ∷ cs) = c ∷ advance_client i cs

-- Whether that step triggers the server's event.
unfoldable pub triggers : Stage → Bool
triggers starts = false
triggers serves = false
triggers stops = false
triggers frames_detached = false
triggers detached = true
triggers finished = false

-- What a thread in its loop does on a call of `subscribe` for frames, or else for devices.
unfoldable pub subscribe_at : Stage → Bool → TcpClient → Option TcpClient
subscribe_at serves true c =
    replace_observer c.frame_observer >>= (λ o. some (record c { frame_observer = o }))
subscribe_at serves false c =
    replace_observer c.dev_status_observer >>= (λ o. some (record c { dev_status_observer = o }))
subscribe_at _ frames c = some c

unfoldable pub subscribe_client : ℕ → Bool → List TcpClient → Option (List TcpClient)
subscribe_client i frames [] = some []
subscribe_client zero frames (c ∷ cs) = subscribe_at c.stage frames c >>= (λ d. some (d ∷ cs))
subscribe_client (suc i) frames (c ∷ cs) = subscribe_client i frames cs >>= (λ ds. some (c ∷ ds))

-- The loop over the clients after an asynchronous event.
unfoldable pub sweep : List TcpClient → Option (List TcpClient)
sweep [] = some []
sweep (c ∷ cs) =
    let later = sweep cs in
    let kept = later >>= (λ rest. some (c ∷ rest)) in
    if is_running c.stage
    then kept
    else if is_attached c.frame_observer || is_attached c.dev_status_observer
    then none
    else later

is_finished : Stage → Bool
is_finished starts = false
is_finished serves = false
is_finished stops = false
is_finished frames_detached = false
is_finished detached = false
is_finished finished = true

-- The thread of a deleted client is joined, so that one that has not finished triggers the event.
unfoldable pub still_ends : List TcpClient → Bool
unfolding is_finished
still_ends [] = false
still_ends (c ∷ cs) =
    let later = still_ends cs in if is_running c.stage || is_finished c.stage then later else true

unfoldable pub new_tcp_client : ℕ → TcpClient
new_tcp_client fd = record {
  sockfd = fd;
  stage = starts;
  frame_observer = no_observer;
  dev_status_observer = no_observer;
}

-- One turn of the loop of `run`, with the connection that waits, if any: `wait` reports all events
-- that are ready, and a connection comes first.
unfoldable pub serve : Option ℕ → TcpServer → Option TcpServer
serve (some fd) s =
    some (record { clients = s.clients ++ new_tcp_client fd ∷ []; event_ready = false })
serve none s =
    let swept = do
      rest ← sweep s.clients
      some (record { clients = rest; event_ready = still_ends s.clients })
    in if s.event_ready then swept else some s

-- A turn of the server's thread, or a step of the thread of the client at a place of the list.
pub data ServerEvent : Type 0 where
  server_turn : Option ℕ → ServerEvent
  client_step : ℕ → ServerEvent
  client_subscribes : ℕ → Bool → ServerEvent

unfoldable pub step_found : ℕ → TcpServer → Option TcpClient → Option TcpServer
step_found i s none = some s
step_found i s (some c) = some (record {
  clients = advance_client i s.clients;
  event_ready = s.event_ready || triggers c.stage;
})

unfoldable pub step : ServerEvent → TcpServer → Option TcpServer
step (server_turn connection) s = serve connection s
step (client_step i) s = step_found i s (get_elem? s.clients i)
step (client_subscribes i frames) s = do
  cs ← subscribe_client i frames s.clients
  some (record s { clients = cs })

unfoldable pub run : List ServerEvent → TcpServer → Option TcpServer
run [] s = some s
run (e ∷ es) s = step e s >>= run es

unfoldable pub connected_clients_count : TcpServer → ℕ
connected_clients_count s = length s.clients

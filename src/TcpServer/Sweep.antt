-- ===== src/TcpServer/Sweep.antt =====
-- Interleavings of the server's thread of h9d/tcpserver.cc with the threads of its clients.
use h9d.Prelude.{
  ℕ, zero, suc, ◌≡◌, ◌≢◌, refl, ap, Bool, true, false, ◌||◌, List, [], ◌∷◌, ◌++◌, Option, some,
  none, ◌>>=◌, get_elem?, sym, subst, ◌∙◌, if◌then◌else◌,
}
use mathlib.Core.Option.{some-injective}
use h9d.TcpServer.{
  serves, Observer, no_observer, attached_observer, detached_observer, TcpClient, TcpServer,
  is_running, is_attached, detach, advance, advance_at, advance_client, triggers, sweep, still_ends,
  serve, new_tcp_client, ServerEvent, server_turn, client_step, step_found, step, run,
}

advance_client-same :
    (i : ℕ) (cs : List TcpClient) (c : TcpClient)
    → get_elem? cs i ≡ some c
    → get_elem? (advance_client i cs) i ≡ some (advance c)
unfolding advance_client
advance_client-same i [] c e = cc
advance_client-same zero (b ∷ cs) c e = cc
advance_client-same (suc i) (b ∷ cs) c e = advance_client-same i cs c e

advance_client-other :
    (i j : ℕ) (cs : List TcpClient) → i ≢ j → get_elem? (advance_client i cs) j ≡ get_elem? cs j
unfolding advance_client
advance_client-other i j [] differ = refl
advance_client-other zero zero (c ∷ cs) differ = absurd (differ refl)
advance_client-other zero (suc j) (c ∷ cs) differ = refl
advance_client-other (suc i) zero (c ∷ cs) differ = refl
advance_client-other (suc i) (suc j) (c ∷ cs) differ =
    advance_client-other i j cs (λ e. differ (ap suc e))

sweep-head :
    (c : TcpClient) (cs : List TcpClient)
    → is_running c.stage ≡ false
    → c.frame_observer ≡ attached_observer
    → sweep (c ∷ cs) ≡ none
unfolding sweep is_attached
sweep-head c cs ends attached = rw (ends, attached) refl

none-either :
    (a b : Bool)
    → ◌≡◌ {A = Option (List TcpClient)} (if a then none else if b then none else none) none
none-either true b = refl
none-either false true = refl
none-either false false = refl

-- A client that is not running and whose observer is attached fails the `assert`, wherever it is.
sweep-attached :
    (i : ℕ) (cs : List TcpClient) (c : TcpClient)
    → get_elem? cs i ≡ some c
    → is_running c.stage ≡ false
    → c.frame_observer ≡ attached_observer
    → sweep cs ≡ none
unfolding sweep
sweep-attached i [] c e ends attached = cc
sweep-attached zero (b ∷ cs) c e ends attached =
    subst (λ (x : TcpClient). sweep (x ∷ cs) ≡ none) (sym (some-injective b c e))
      (sweep-head c cs ends attached)
sweep-attached (suc i) (b ∷ cs) c e ends attached = rw (sweep-attached i cs c e ends attached) (
    none-either (is_running b.stage)
      (is_attached b.frame_observer || is_attached b.dev_status_observer))

run-client_step :
    (i : ℕ) (s : TcpServer) (c : TcpClient) (es : List ServerEvent)
    → get_elem? s.clients i ≡ some c
    → run (client_step i ∷ es) s
      ≡ run es (record {
        clients = advance_client i s.clients;
        event_ready = s.event_ready || triggers c.stage;
      })
unfolding run step step_found
run-client_step i s c es here = ap (λ (o : Option TcpClient). step_found i s o >>= run es) here

-- The client at `j` goes through the steps after its loop.
abbrev pub ends_at : ℕ → List ServerEvent → List ServerEvent
ends_at j es = client_step j ∷ client_step j ∷ client_step j ∷ client_step j ∷ es

abbrev advanced : ℕ → List TcpClient → List TcpClient
advanced j cs = advance_client j (advance_client j (advance_client j (advance_client j cs)))

triggered : (b : Bool) → ((((b || false) || false) || false) || true) ≡ true
triggered true = refl
triggered false = refl

run-ends_at :
    (j : ℕ) (s : TcpServer) (d : TcpClient) (es : List ServerEvent)
    → get_elem? s.clients j ≡ some (record d { stage = serves })
    → run (ends_at j es) s ≡ run es (record { clients = advanced j s.clients; event_ready = true })
unfolding advance advance_at triggers
run-ends_at j s d es there =
    let first = advance_client-same j s.clients _ there in
    let second = advance_client-same j _ _ first in
    let third = advance_client-same j _ _ second in
    run-client_step j s _ _ there
    ∙ (run-client_step j _ _ _ first
        ∙ (run-client_step j _ _ _ second
            ∙ (run-client_step j _ _ es third
                ∙ ap
                    (λ (b : Bool).
                      run es (record { clients = advanced j s.clients; event_ready = b }))
                    (triggered s.event_ready))))

-- From any server: if a client in its loop that has an observer of frames attached leaves the loop, and
-- another client in its loop ends before the first has detached its observer, then the server fails an
-- `assert` in its next turn, if no connection waits.
pub run-stops :
    (s : TcpServer) (i j : ℕ) (c d : TcpClient)
    → i ≢ j
    → get_elem? s.clients i ≡ some (record c { stage = serves; frame_observer = attached_observer })
    → get_elem? s.clients j ≡ some (record d { stage = serves })
    → run (client_step i ∷ ends_at j (server_turn none ∷ [])) s ≡ none
unfolding run step serve advance advance_at triggers is_running
run-stops s i j c d differ here there =
    let other : j ≢ i = λ e. differ (sym e) in
    let one = advance_client-same i s.clients _ here in
    let kept : (cs : List TcpClient) → get_elem? (advance_client j cs) i ≡ get_elem? cs i =
      λ cs. advance_client-other j i cs other in
    run-client_step i s _ (ends_at j (server_turn none ∷ [])) here
    ∙ (run-ends_at j
          (record { clients = advance_client i s.clients; event_ready = s.event_ready || false }) d
          (server_turn none ∷ []) (advance_client-other i j s.clients differ ∙ there)
        ∙ ap
            (λ (o : Option (List TcpClient)).
              (o >>= (λ rest. some (record {
                clients = rest;
                event_ready = still_ends (advanced j (advance_client i s.clients));
              })))
              >>= run [])
            (sweep-attached i (advanced j (advance_client i s.clients)) _
              (kept _ ∙ (kept _ ∙ (kept _ ∙ (kept _ ∙ one)))) refl refl))

-- Every client is in its loop.
abbrev pub AllServe : List TcpClient → Type 0
AllServe [] = Unit {0}
AllServe (c ∷ cs) = (c.stage ≡ serves) × AllServe cs

abbrev pub without : ℕ → List TcpClient → List TcpClient
without i [] = []
without zero (c ∷ cs) = cs
without (suc i) (c ∷ cs) = c ∷ without i cs

is_attached-detach : (o : Observer) → is_attached (detach o) ≡ false
unfolding is_attached detach
is_attached-detach no_observer = refl
is_attached-detach attached_observer = refl
is_attached-detach detached_observer = refl

sweep-finished :
    (d : TcpClient) (cs : List TcpClient)
    → sweep (advanced 0 (record d { stage = serves } ∷ cs)) ≡ sweep cs
unfolding sweep advance advance_at advance_client is_running
sweep-finished d cs =
    rw (is_attached-detach d.frame_observer, is_attached-detach d.dev_status_observer) refl

sweep-new :
    (fd : ℕ) (cs : List TcpClient) → AllServe cs → sweep (cs ++ new_tcp_client fd ∷ []) ≡ some cs
unfolding sweep is_running is_attached new_tcp_client
sweep-new fd [] all = refl
sweep-new fd (c ∷ cs) (here, all) = rw (here, sweep-new fd cs all) refl

sweep-ended :
    (fd j : ℕ) (cs : List TcpClient) (d : TcpClient)
    → AllServe cs
    → get_elem? cs j ≡ some (record d { stage = serves })
    → sweep (advanced j (cs ++ new_tcp_client fd ∷ [])) ≡ some (without j cs)
unfolding sweep is_running advance_client
sweep-ended fd j [] d all e = cc
sweep-ended fd zero (c ∷ cs) d (here, all) e =
    subst (λ (x : TcpClient). sweep (advanced 0 (x ∷ cs ++ new_tcp_client fd ∷ [])) ≡ some cs)
      (sym (some-injective c _ e))
      (sweep-finished d (cs ++ new_tcp_client fd ∷ []) ∙ sweep-new fd cs all)
sweep-ended fd (suc j) (c ∷ cs) d (here, all) e = rw (here, sweep-ended fd j cs d all e) refl

get_elem?-append_left :
    (cs ds : List TcpClient) (j : ℕ) (c : TcpClient)
    → get_elem? cs j ≡ some c
    → get_elem? (cs ++ ds) j ≡ some c
get_elem?-append_left [] ds j c e = cc
get_elem?-append_left (b ∷ cs) ds zero c e = e
get_elem?-append_left (b ∷ cs) ds (suc j) c e = get_elem?-append_left cs ds j c e

-- From a server whose clients are all in their loops: if it accepts a connection, and one of those
-- clients ends before the thread of the new one has started, then its next turn, if no other connection
-- waits, deletes the new client with the one that has ended; the others stay.
pub run-starts :
    (s : TcpServer) (fd j : ℕ) (d : TcpClient)
    → AllServe s.clients
    → get_elem? s.clients j ≡ some (record d { stage = serves })
    → (t : TcpServer) × (run (server_turn (some fd) ∷ ends_at j (server_turn none ∷ [])) s ≡ some t)
      × (t.clients ≡ without j s.clients)
unfolding run step serve
run-starts s fd j d all there = (
  record {
    clients = without j s.clients;
    event_ready = still_ends (advanced j (s.clients ++ new_tcp_client fd ∷ []));
  },
  run-ends_at j (record { clients = s.clients ++ new_tcp_client fd ∷ []; event_ready = false }) d
        (server_turn none ∷ []) (get_elem?-append_left s.clients (new_tcp_client fd ∷ []) j _ there)
      ∙ ap
          (λ (o : Option (List TcpClient)).
            (o >>= (λ rest. some (record {
              clients = rest;
              event_ready = still_ends (advanced j (s.clients ++ new_tcp_client fd ∷ []));
            })))
            >>= run [])
          (sweep-ended fd j s.clients d all there),
  refl,
)

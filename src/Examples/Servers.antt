-- ===== src/Examples/Servers.antt =====
-- h9d/tcpserver.cc with clients that observe frames, of which one ends.
use h9d.Prelude.{◌≡◌, refl, arith, false, [], ◌∷◌, none, some}
use h9d.TcpServer.{
  serves, no_observer, attached_observer, TcpClient, TcpServer, server_turn, client_step, run,
}
use h9d.TcpServer.Sweep.{ends_at, run-stops, run-starts}

abbrev first : TcpClient
first = record {
  sockfd = 5;
  stage = serves;
  frame_observer = attached_observer;
  dev_status_observer = no_observer;
}

abbrev other : TcpClient
other = record first { sockfd = 6 }

abbrev server : TcpServer
server = record { clients = first ∷ other ∷ []; event_ready = false }

run-stops_example : run (client_step 0 ∷ ends_at 1 (server_turn none ∷ [])) server ≡ none
run-stops_example = run-stops server 0 1 first other (λ e. omega (arith, e)) refl refl

run-starts_example :
    (t : TcpServer) × (run (server_turn (some 7) ∷ ends_at 0 (server_turn none ∷ [])) server
      ≡ some t)
    × (t.clients ≡ other ∷ [])
run-starts_example = run-starts server 7 0 first (refl, (refl, tt)) refl

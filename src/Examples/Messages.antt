-- ===== src/Examples/Messages.antt =====
-- common/tcp_socket.cc with two short messages.
use h9d.Prelude.{ℕ, ◌≡◌, ◌≢◌, refl, arith, List, [], ◌∷◌, some}
use h9d.TcpSocket.{TcpSocket, Received, again, recv_complete_msg, htonl}
use h9d.TcpSocket.System.{Answer, one_and, not_now, broken}
use h9d.TcpSocket.Calls.{IsSound}
use h9d.TcpSocket.Receive.{wire}
use h9d.TcpSocket.Returns.{recv_complete_msg_returns}
use h9d.TcpSocket.Send.{send, send_rest}
use h9d.TcpSocket.Messages.{Sends, all_sent, and_sends, Receives, Receives-Sends}

abbrev zeros : ℕ → ℕ
zeros n = 0

abbrev idle : TcpSocket
idle = record {
  header_buf = 0 ∷ 0 ∷ 0 ∷ 0 ∷ [];
  data_buf = 0 ∷ 0 ∷ 0 ∷ 0 ∷ 0 ∷ [];
  data_buf_len = 4;
  recv_bytes = 0;
  bytes_to_recv = 4;
}

idle-IsSound : IsSound idle
idle-IsSound = record {
  header_size = refl;
  data_size = refl;
  waits = λ e. refl;
  fits = λ e. absurd (omega arith);
  room = λ e. absurd (omega arith);
}

-- "{}" and "[]".
abbrev texts : List (List ℕ)
texts = (123 ∷ 125 ∷ []) ∷ (91 ∷ 93 ∷ []) ∷ []

abbrev on_the_wire : List ℕ
on_the_wire = 0 ∷ 0 ∷ 0 ∷ 2 ∷ 123 ∷ 125 ∷ 0 ∷ 0 ∷ 0 ∷ 2 ∷ 91 ∷ 93 ∷ []

abbrev slow : List Answer
slow =
    one_and 0
    ∷ not_now
    ∷ one_and 0
    ∷ one_and 0
    ∷ one_and 0
    ∷ one_and 0
    ∷ one_and 0
    ∷ one_and 0
    ∷ one_and 0
    ∷ not_now
    ∷ one_and 0
    ∷ one_and 0
    ∷ one_and 0
    ∷ one_and 0
    ∷ []

sends : Sends texts [] on_the_wire
unfolding send send_rest htonl
sends =
    and_sends 3 (one_and 0 ∷ one_and 0 ∷ []) (omega arith) refl
      (and_sends 7 (one_and 5 ∷ []) (omega arith) refl all_sent)

recv_complete_msg_returns_example :
    (q : Received) × (recv_complete_msg zeros 4 idle
        (wire (0 ∷ 0 ∷ []) (one_and 0 ∷ not_now ∷ broken ∷ []))
      ≡ some q)
    × IsSound q.socket
    × (q.outcome ≢ again)
recv_complete_msg_returns_example =
    recv_complete_msg_returns zeros 4 idle (wire (0 ∷ 0 ∷ []) (one_and 0 ∷ not_now ∷ broken ∷ []))
      idle-IsSound (omega arith)

Receives-Sends_example : Receives zeros 20 idle (wire on_the_wire slow) texts
unfolding sends
Receives-Sends_example =
    Receives-Sends zeros 20 texts on_the_wire slow idle
      (
        (omega arith, (λ e. absurd (omega arith), (λ e. absurd (omega arith), tt)), omega arith),
        (
          (omega arith, (λ e. absurd (omega arith), (λ e. absurd (omega arith), tt)), omega arith),
          tt,
        ),
      )
      sends (record { sound = idle-IsSound; empty = refl }) tt (omega arith) (omega arith)

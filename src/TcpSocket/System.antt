-- ===== src/TcpSocket/System.antt =====
-- The calls of the system that common/tcp_socket.cc makes: `::recv` and `::send`. What they answer
-- is given, as the list of the answers that are still to come.
use h9d.Prelude.{ℕ, suc, List, [], ◌∷◌, length, take, drop}

-- One byte and up to so many more, EAGAIN or EWOULDBLOCK, or another error.
pub data Answer : Type 0 where
  one_and : ℕ → Answer
  not_now broken : Answer

pub data Answered : Type 0 where
  bytes : List ℕ → Answered
  would_block error : Answered

-- The bytes under way to this end, and the answers to come; after those the connection is closed.
pub record Wire : Type 0 where
  pub incoming : List ℕ
  pub answers : List Answer

pub record Called : Type 0 where
  pub answer : Answered
  pub wire : Wire

unfoldable pub recv_answer : ℕ → List ℕ → List Answer → Called
recv_answer n incoming [] = record {
  answer = bytes [];
  wire = record { incoming = incoming; answers = [] };
}
recv_answer n incoming (one_and k ∷ answers) = record {
  answer = bytes (take (suc k) (take n incoming));
  wire = record {
    incoming = drop (length (take (suc k) (take n incoming))) incoming;
    answers = answers;
  };
}
recv_answer n incoming (not_now ∷ answers) = record {
  answer = would_block;
  wire = record { incoming = incoming; answers = answers };
}
recv_answer n incoming (broken ∷ answers) = record {
  answer = error;
  wire = record { incoming = incoming; answers = answers };
}

-- `::recv` of at most so many bytes.
unfoldable pub recv_call : ℕ → Wire → Called
recv_call n w = recv_answer n w.incoming w.answers

-- ===== src/TcpSocket/Calls.antt =====
-- The socket of common/tcp_socket.cc in order, and what it is given by the system.
use h9d.Prelude.{
  ℕ, suc, ◌+◌, ◌≤◌, ◌<◌, ◌≡◌, refl, ◌⊎◌, arith, inl, List, [], ◌∷◌, Option, some, length, take,
  drop, length-take,
}
use h9d.TcpSocket.System.{
  Answer, one_and, not_now, broken, bytes, would_block, error, Wire, Called, recv_answer, recv_call,
}
use h9d.TcpSocket.{TcpSocket, answered, RecvOutcome, closed, again, failed, Stage, stop, go}

-- The buffers have their sizes, and what is being received has room.
pub record IsSound (s : TcpSocket) : Type 0 where
  pub header_size : length s.header_buf ≡ 4
  pub data_size : length s.data_buf ≡ s.data_buf_len + 1
  pub waits : s.recv_bytes < 4 → s.bytes_to_recv ≡ 4
  pub fits : 4 ≤ s.recv_bytes → s.recv_bytes ≤ s.bytes_to_recv
  pub room : 4 ≤ s.recv_bytes → s.bytes_to_recv ≤ 4 + s.data_buf_len

-- What is known of an answer to a call that asks for so many bytes, with so many answers to come.
pub data CallOk (n m : ℕ) : Called → Type 0 where
  some_bytes :
      {b : ℕ} {bs : List ℕ} {w : Wire}
      → suc (length bs) ≤ n
      → length w.answers < m
      → CallOk n m (record { answer = bytes (b ∷ bs); wire = w })
  no_bytes : {w : Wire} → length w.answers ≤ m → CallOk n m (record { answer = bytes []; wire = w })
  not_yet :
      {w : Wire} → length w.answers < m → CallOk n m (record { answer = would_block; wire = w })
  an_error : {w : Wire} → length w.answers < m → CallOk n m (record { answer = error; wire = w })

taken-CallOk :
    (n : ℕ) (got rest : List ℕ) (answers : List Answer)
    → length got ≤ n
    → CallOk n
        (suc (length answers))
        (record { answer = bytes got; wire = record { incoming = rest; answers = answers } })
taken-CallOk n [] rest answers few = no_bytes (omega arith)
taken-CallOk n (b ∷ bs) rest answers few = some_bytes few (omega arith)

recv_answer-CallOk :
    (n : ℕ) (incoming : List ℕ) (answers : List Answer)
    → CallOk n (length answers) (recv_answer n incoming answers)
unfolding recv_answer
recv_answer-CallOk n incoming [] = no_bytes (omega arith)
recv_answer-CallOk n incoming (one_and k ∷ answers) =
    taken-CallOk n (take (suc k) (take n incoming))
      (drop (length (take (suc k) (take n incoming))) incoming) answers
      (omega (arith, length-take (suc k) (take n incoming), length-take n incoming))
recv_answer-CallOk n incoming (not_now ∷ answers) = not_yet (omega arith)
recv_answer-CallOk n incoming (broken ∷ answers) = an_error (omega arith)

pub CallOk-mono : {n m k : ℕ} {c : Called} → m ≤ k → CallOk n m c → CallOk n k c
CallOk-mono more (some_bytes few fewer) = some_bytes few (omega arith)
CallOk-mono more (no_bytes fewer) = no_bytes (omega arith)
CallOk-mono more (not_yet fewer) = not_yet (omega arith)
CallOk-mono more (an_error fewer) = an_error (omega arith)

pub recv_call-CallOk : (n : ℕ) (w : Wire) → CallOk n (length w.answers) (recv_call n w)
unfolding recv_call
recv_call-CallOk n w = recv_answer-CallOk n w.incoming w.answers

-- A stage that does not fault: what it returns keeps the socket in order, and it is not EAGAIN
-- before an answer is used up; what it goes on with satisfies `P`.
abbrev pub IsStage : ℕ → (TcpSocket → Wire → Type 0) → Option Stage → Type 0
IsStage m P r =
    ((o : RecvOutcome) × (t : TcpSocket) × (v : Wire) × (r ≡ some (stop o t v))
      × IsSound t
      × (length v.answers ≤ m)
      × (o ≡ again → length v.answers < m))
    ⊎ ((t : TcpSocket) × (v : Wire) × (r ≡ some (go t v)) × P t v)

pub answered-IsStage :
    (n m : ℕ) (P : TcpSocket → Wire → Type 0) {c : Called} (k : Wire → List ℕ → Option Stage)
    (s : TcpSocket)
    → CallOk n m c
    → IsSound s
    → ((b : ℕ) (bs : List ℕ) (w : Wire)
        → suc (length bs) ≤ n
        → length w.answers < m
        → IsStage m P (k w (b ∷ bs)))
    → IsStage m P (answered c.answer (k c.wire) s c.wire)
unfolding answered
answered-IsStage n m P k s (some_bytes {b} {bs} {w} few fewer) ok next = next b bs w few fewer
answered-IsStage n m P k s (no_bytes {w} fewer) ok next =
    inl (closed, s, w, refl, ok, fewer, (λ e. cc))
answered-IsStage n m P k s (not_yet {w} fewer) ok next =
    inl (again, s, w, refl, ok, omega arith, (λ e. fewer))
answered-IsStage n m P k s (an_error {w} fewer) ok next =
    inl (failed, s, w, refl, ok, omega arith, (λ e. cc))

-- ===== src/TcpSocket/Returns.antt =====
-- A call of `recv` in common/tcp_socket.cc, and receiving a whole message, end in order.
use h9d.Prelude.{
  ℕ, zero, suc, ◌<◌, ◌≡◌, refl, ◌∙◌, ◌⊎◌, arith, inl, inr, Option, some, ◌>>=◌, ◌≢◌, length,
}
use h9d.TcpSocket.System.{Wire}
use h9d.TcpSocket.Calls.{IsSound, IsStage}
use h9d.TcpSocket.Sound.{
  AfterHeader, AfterReads, IsReceived, recv_header-IsStage, recv_body-IsStage, recv_end-IsReceived,
}
use h9d.TcpSocket.{
  TcpSocket, RecvOutcome, message, closed, again, failed, Stage, recv_body, recv_end, and_then,
  Received, recv, recv_complete_msg,
}

stage-IsReceived :
    (m : ℕ) (P : TcpSocket → Wire → Type 0) {r : Option Stage}
    (k : TcpSocket → Wire → Option Received)
    → IsStage m P r
    → ((t : TcpSocket) (v : Wire) → P t v → IsReceived m (k t v))
    → IsReceived m (r >>= (λ stage. and_then stage k))
stage-IsReceived m P k (inl (o, t, v, e, ok, few, fewer)) next = rw e (_, refl, ok, few, fewer)
stage-IsReceived m P k (inr (t, v, e, p)) next = rw e (next t v p)

again-cases : (o : RecvOutcome) → (o ≡ again) ⊎ (o ≢ again)
again-cases (message m) = inr (λ e. cc)
again-cases closed = inr (λ e. cc)
again-cases again = inl refl
again-cases failed = inr (λ e. cc)

module _ (garbage : ℕ → ℕ) (fuel : ℕ) (s : TcpSocket) (w : Wire) (q : Received) where
  pub recv_again :
      recv garbage s w ≡ some q
      → q.outcome ≡ again
      → recv_complete_msg garbage (suc fuel) s w ≡ recv_complete_msg garbage fuel q.socket q.wire
  unfolding recv_complete_msg
  recv_again e a = rw (e, a) refl

  pub recv_done :
      recv garbage s w ≡ some q
      → q.outcome ≢ again
      → recv_complete_msg garbage (suc fuel) s w ≡ some q
  unfolding recv_complete_msg
  recv_done e b = ground arith

module _ (garbage : ℕ → ℕ) where
  pub recv-IsReceived :
      (s : TcpSocket) (w : Wire) → IsSound s → IsReceived (length w.answers) (recv garbage s w)
  unfolding recv
  recv-IsReceived s w ok =
      let m = length w.answers in
      stage-IsReceived m (AfterHeader m) (λ t v. recv_body t v >>= (λ body. and_then body recv_end))
        (recv_header-IsStage garbage s w ok)
        (λ t v header.
          stage-IsReceived m (AfterReads m) recv_end
            (recv_body-IsStage m t v (header.0) (header.1) (header.2))
            (λ u x body. recv_end-IsReceived m u x (body.0) (body.1)))

  -- Whatever bytes the peer sends and however the system cuts them, waits or fails: with more fuel
  -- than there are answers to come, receiving a message ends without an access outside of the
  -- buffers, with an outcome that is not EAGAIN, and leaves the socket in order.
  pub recv_complete_msg_returns :
      (fuel : ℕ) (s : TcpSocket) (w : Wire)
      → IsSound s
      → length w.answers < fuel
      → (q : Received) × (recv_complete_msg garbage fuel s w ≡ some q)
        × IsSound q.socket
        × (q.outcome ≢ again)
  recv_complete_msg_returns zero s w ok enough = absurd (omega arith)
  recv_complete_msg_returns (suc fuel) s w ok enough =
      let (q, e, ok', few, fewer) = recv-IsReceived s w ok in
      elim (again-cases q.outcome) [
        | inl a ↦
            let (r, e', ok'', ends) =
              recv_complete_msg_returns fuel q.socket q.wire ok' (omega (arith, fewer a)) in
            (r, recv_again garbage fuel s w q e a ∙ e', ok'', ends)
        | inr b ↦ (q, recv_done garbage fuel s w q e b, ok', b)
      ]

-- ===== src/TcpSocket/Messages.antt =====
-- Messages that one end of a connection sends with common/tcp_socket.cc and the other receives.
use h9d.Prelude.{
  ℕ, suc, ◌+◌, ◌^◌, ◌≤◌, ◌<◌, ◌≡◌, refl, sym, ap, ◌∙◌, arith, true, List, [], ◌∷◌, ◌++◌, some,
  length, take, append_assoc, append_nil, take_all, u32,
}
use h9d.TcpSocket.System.{Answer, one_and, Wire}
use h9d.TcpSocket.Receive.{wire, IsIdle, NoZero}
use h9d.TcpSocket.Whole.{ready, IsFine, Completes, recv_complete_msg-frame}
use h9d.TcpSocket.Send.{send, send-written}
use h9d.TcpSocket.{TcpSocket, htonl, message, recv_complete_msg}

-- A text that a message can carry: not empty, no byte 0, and its length fits in the header.
abbrev pub IsText : List ℕ → Type 0
IsText m = (0 < length m) × NoZero m × (length m < 2 ^ 32)

abbrev pub AllTexts : List (List ℕ) → Type 0
AllTexts [] = Unit {0}
AllTexts (m ∷ ms) = IsText m × AllTexts ms

-- One end sends these messages one after another: every `send` returns 1, and its first call takes
-- at least the four bytes of the header.
pub data Sends : List (List ℕ) → List ℕ → List ℕ → Type 0 where
  all_sent : {written : List ℕ} → Sends [] written written
  and_sends :
      {m : List ℕ} {ms : List (List ℕ)} {before after : List ℕ} (k : ℕ) (answers : List Answer)
      → 3 ≤ k
      → (send m (one_and k ∷ answers) before).done ≡ true
      → Sends ms (send m (one_and k ∷ answers) before).written after
      → Sends (m ∷ ms) before after

-- The other end receives these messages one after another.
pub data Receives (garbage : ℕ → ℕ) (fuel : ℕ) : TcpSocket → Wire → List (List ℕ) → Type 0 where
  all_received : {s : TcpSocket} {w : Wire} → Receives garbage fuel s w []
  and_receives :
      {s t : TcpSocket} {w v : Wire} {m : List ℕ} {ms : List (List ℕ)}
      → recv_complete_msg garbage fuel s w
        ≡ some (record { outcome = message m; socket = t; wire = v })
      → Receives garbage fuel t v ms
      → Receives garbage fuel s w (m ∷ ms)

abbrev frames : List (List ℕ) → List ℕ
frames [] = []
frames (m ∷ ms) = htonl (length m) ++ (m ++ frames ms)

abbrev pub total : List (List ℕ) → ℕ
total [] = 0
total (m ∷ ms) = 4 + length m + total ms

take-htonl : (n k : ℕ) → 3 ≤ k → take (suc k) (htonl n) ≡ htonl n
unfolding htonl
take-htonl n k most = take_all (suc k) _ (omega arith)

-- What `Sends` has written.
Sends-frames :
    (ms : List (List ℕ)) {before after : List ℕ}
    → AllTexts ms
    → Sends ms before after
    → after ≡ before ++ frames ms
Sends-frames [] {before} texts all_sent = sym (append_nil before)
Sends-frames (m ∷ ms) {before} texts (and_sends k answers most ok rest) =
    let e : u32 (length m) ≡ length m = omega (arith, texts.0.2) in
    Sends-frames ms (texts.1) rest
    ∙ (ap (λ (l : List ℕ). l ++ frames ms) (send-written k m answers before ok)
        ∙ rw
            (
              e,
              take-htonl (length m) k most,
              append_assoc before (htonl (length m) ++ m) (frames ms),
              append_assoc (htonl (length m)) m (frames ms),
            )
            refl)

module _ (garbage : ℕ → ℕ) (fuel : ℕ) where
  receives_text :
      (m rest : List ℕ) (supply : ℕ) (answers : List Answer) (s : TcpSocket)
      → IsText m
      → IsIdle s
      → IsFine answers
      → 4 + length m + supply ≤ ready answers
      → length answers < fuel
      → Completes m rest supply
          (length answers)
          (recv_complete_msg garbage fuel s (wire (htonl (length m) ++ (m ++ rest)) answers))
  receives_text [] rest supply answers s text idle fine enough more = absurd (omega (arith, text.0))
  receives_text (b ∷ m) rest supply answers s text idle fine enough more =
      recv_complete_msg-frame garbage b m rest (text.1) supply (text.2) fuel answers s idle fine
        enough more

  Receives-frames :
      (ms : List (List ℕ)) (answers : List Answer) (s : TcpSocket)
      → AllTexts ms
      → IsIdle s
      → IsFine answers
      → total ms ≤ ready answers
      → length answers < fuel
      → Receives garbage fuel s (wire (frames ms) answers) ms
  Receives-frames [] answers s texts idle fine enough more = all_received
  Receives-frames (m ∷ ms) answers s texts idle fine enough more =
      let (t, cs, e, idle', enough', fine', few) =
        receives_text m (frames ms) (total ms) answers s (texts.0) idle fine (omega arith) more in
      and_receives e (Receives-frames ms cs t (texts.1) idle' fine' enough' (omega arith))

  -- Texts that one end sends, each `send` of them returning 1 with the whole header taken by its
  -- first call, are received by a socket that holds nothing in part: the same texts in the same
  -- order, however the system cuts the bytes on either side or makes the receiver wait, if as many
  -- calls get bytes as there are bytes, none fails, and the fuel of each is more than the answers.
  pub Receives-Sends :
      (ms : List (List ℕ)) (written : List ℕ) (answers : List Answer) (s : TcpSocket)
      → AllTexts ms
      → Sends ms [] written
      → IsIdle s
      → IsFine answers
      → total ms ≤ ready answers
      → length answers < fuel
      → Receives garbage fuel s (wire written answers) ms
  Receives-Sends ms written answers s texts sends idle fine enough more =
      rw (Sends-frames ms texts sends) (Receives-frames ms answers s texts idle fine enough more)

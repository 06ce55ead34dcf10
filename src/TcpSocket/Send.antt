-- ===== src/TcpSocket/Send.antt =====
-- `TCPSocket::send` of common/tcp_socket.cc. A call of `::send` takes some of the bytes that it is
-- given, or fails; after the answers that are given, every call fails.
use h9d.Prelude.{
  ℕ, suc, ◌+◌, ◌≤◌, ◌<◌, ◌≡◌, refl, sym, ap, ◌∙◌, arith, Bool, true, false, List, [], ◌∷◌, ◌++◌,
  length, take, drop, length-drop, length-append, length-take, append_assoc, append_nil, u32,
}
use h9d.TcpSocket.System.{Answer, one_and, not_now, broken}
use h9d.TcpSocket.{htonl}
use h9d.TcpSocket.Receive.{take-append-drop}

-- Whether `send` returns 1, and the bytes that have gone out.
pub record Sent : Type 0 where
  pub done : Bool
  pub written : List ℕ

-- The loop over the bytes of the message.
unfoldable pub send_rest : List ℕ → List Answer → List ℕ → Sent
send_rest [] answers written = record { done = true; written = written }
send_rest (b ∷ bs) [] written = record { done = false; written = written }
send_rest (b ∷ bs) (one_and k ∷ answers) written =
    send_rest (drop k bs) answers (written ++ b ∷ take k bs)
send_rest (b ∷ bs) (not_now ∷ answers) written = record { done = false; written = written }
send_rest (b ∷ bs) (broken ∷ answers) written = record { done = false; written = written }

-- The header is given to the system once.
unfoldable pub send : List ℕ → List Answer → List ℕ → Sent
send buf [] written = record { done = false; written = written }
send buf (one_and k ∷ answers) written =
    send_rest buf answers (written ++ take (suc k) (htonl (u32 (length buf))))
send buf (not_now ∷ answers) written = record { done = false; written = written }
send buf (broken ∷ answers) written = record { done = false; written = written }

-- What stands for a message on the wire.
abbrev pub frame : List ℕ → List ℕ
frame m = htonl (length m) ++ m

-- The loop writes the whole message if it ends well.
send_rest-written :
    (buf : List ℕ) (answers : List Answer) (written : List ℕ)
    → (send_rest buf answers written).done ≡ true
    → (send_rest buf answers written).written ≡ written ++ buf
unfolding send_rest
send_rest-written [] answers written ok = sym (append_nil written)
send_rest-written (b ∷ bs) [] written ok = cc
send_rest-written (b ∷ bs) (not_now ∷ answers) written ok = cc
send_rest-written (b ∷ bs) (broken ∷ answers) written ok = cc
send_rest-written (b ∷ bs) (one_and k ∷ answers) written ok =
    send_rest-written (drop k bs) answers (written ++ b ∷ take k bs) ok
    ∙ (append_assoc written (b ∷ take k bs) (drop k bs)
        ∙ ap (λ (l : List ℕ). written ++ b ∷ l) (take-append-drop k bs))

-- `send` that returns 1 has written as many bytes of the header as its first call took, and then the
-- message.
pub send-written :
    (k : ℕ) (buf : List ℕ) (answers : List Answer) (written : List ℕ)
    → (send buf (one_and k ∷ answers) written).done ≡ true
    → (send buf (one_and k ∷ answers) written).written
      ≡ written ++ (take (suc k) (htonl (u32 (length buf))) ++ buf)
unfolding send
send-written k buf answers written ok =
    send_rest-written buf answers (written ++ take (suc k) (htonl (u32 (length buf)))) ok
    ∙ append_assoc written (take (suc k) (htonl (u32 (length buf)))) buf

-- Every call takes bytes.
abbrev pub IsPushed : List Answer → Type 0
IsPushed [] = Unit {0}
IsPushed (one_and k ∷ answers) = IsPushed answers
IsPushed (not_now ∷ answers) = ⊥
IsPushed (broken ∷ answers) = ⊥

send_rest-done :
    (buf : List ℕ) (answers : List Answer) (written : List ℕ)
    → IsPushed answers
    → length buf ≤ length answers
    → (send_rest buf answers written).done ≡ true
unfolding send_rest
send_rest-done [] answers written pushed enough = refl
send_rest-done (b ∷ bs) [] written pushed enough = absurd (omega arith)
send_rest-done (b ∷ bs) (not_now ∷ answers) written pushed enough = absurd pushed
send_rest-done (b ∷ bs) (broken ∷ answers) written pushed enough = absurd pushed
send_rest-done (b ∷ bs) (one_and k ∷ answers) written pushed enough =
    send_rest-done (drop k bs) answers (written ++ b ∷ take k bs) pushed
      (omega (arith, length-drop k bs))

-- With answers that all take bytes, as many as the message has, `send` returns 1.
pub send-done :
    (k : ℕ) (buf : List ℕ) (answers : List Answer) (written : List ℕ)
    → IsPushed answers
    → length buf ≤ length answers
    → (send buf (one_and k ∷ answers) written).done ≡ true
unfolding send
send-done k buf answers written pushed enough =
    send_rest-done buf answers (written ++ take (suc k) (htonl (u32 (length buf)))) pushed enough

-- If the first call takes less than the four bytes of the header, `send` returns 1 all the same, and
-- what it has written misses the end of the header.
send-short_header :
    (k : ℕ) (buf : List ℕ) (answers : List Answer)
    → k < 3
    → IsPushed answers
    → length buf ≤ length answers
    → ((send buf (one_and k ∷ answers) []).done ≡ true)
      × ((send buf (one_and k ∷ answers) []).written
          ≡ take (suc k) (htonl (u32 (length buf))) ++ buf)
      × (length (send buf (one_and k ∷ answers) []).written < 4 + length buf)
send-short_header k buf answers short pushed enough =
    let ok = send-done k buf answers [] pushed enough in
    let e = send-written k buf answers [] ok in
    (
      ok,
      e,
      omega (
        arith,
        ap length e,
        length-append (take (suc k) (htonl (u32 (length buf)))) buf,
        length-take (suc k) (htonl (u32 (length buf))),
      ),
    )

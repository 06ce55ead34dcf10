-- ===== src/TcpSocket/Whole.antt =====
-- Receiving a whole message with common/tcp_socket.cc and json_tcp_socket.cc, however the system cuts
-- its bytes.
use h9d.Prelude.{
  ℕ, zero, suc, ◌+◌, ◌^◌, ◌≤◌, ◌<◌, ◌≡◌, refl, sym, ap, ◌∙◌, ◌⊎◌, arith, inl, inr, List, [], ◌∷◌,
  ◌++◌, Option, some, length, take, drop, length-drop, length-append, lt→ltb,
}
use h9d.TcpSocket.System.{Answer, one_and, not_now, broken, Wire, recv_call, recv_answer}
use h9d.TcpSocket.Returns.{recv_again, recv_done}
use h9d.TcpSocket.Receive.{
  wire, InData, IsIdle, NoZero, tail-more, tail-done, tail-wait, after_read, after-IsIdle,
}
use h9d.TcpSocket.Header.{InHeader, recv_late, header-more, header-full}
use h9d.TcpSocket.{
  TcpSocket, htonl, answered, message, again, Received, recv, recv_header, recv_complete_msg,
}

-- How many calls will get bytes.
abbrev pub ready : List Answer → ℕ
ready [] = 0
ready (one_and k ∷ cs) = suc (ready cs)
ready (not_now ∷ cs) = ready cs
ready (broken ∷ cs) = ready cs

-- No call fails.
abbrev pub IsFine : List Answer → Type 0
IsFine [] = Unit {0}
IsFine (one_and k ∷ cs) = IsFine cs
IsFine (not_now ∷ cs) = IsFine cs
IsFine (broken ∷ cs) = ⊥

List-cases {ℓ} : {A : Type ℓ} (xs : List A) → (xs ≡ []) ⊎ ((y : A) × (ys : List A) × (xs ≡ y ∷ ys))
List-cases [] = inl refl
List-cases (y ∷ ys) = inr (y, ys, refl)

-- The message is returned, the socket waits for another, the wire holds what follows, and so many
-- calls will still get bytes.
abbrev pub Completes : List ℕ → List ℕ → ℕ → ℕ → Option Received → Type 0
Completes msg rest supply m r =
    (t : TcpSocket) × (cs : List Answer) × (r
      ≡ some (record { outcome = message msg; socket = t; wire = wire rest cs }))
    × IsIdle t
    × (supply ≤ ready cs)
    × IsFine cs
    × (length cs ≤ m)

Completes-eq :
    (msg rest : List ℕ) (supply n m : ℕ) {r q : Option Received}
    → r ≡ q
    → n ≤ m
    → Completes msg rest supply n q
    → Completes msg rest supply m r
Completes-eq msg rest supply n m e le (t, cs, f, idle, more, fine, few) =
    (t, cs, e ∙ f, idle, more, fine, omega arith)

module _ (garbage : ℕ → ℕ) (msg rest : List ℕ) (clean : NoZero msg) (supply : ℕ) where
  receive_data :
      (fuel : ℕ) (held : List ℕ) (x : ℕ) (xs : List ℕ) (answers : List Answer) (s : TcpSocket)
      → InData msg held (x ∷ xs) s
      → IsFine answers
      → suc (length xs) + supply ≤ ready answers
      → length answers < fuel
      → Completes msg rest supply
          (length answers)
          (recv_complete_msg garbage fuel s (wire (x ∷ xs ++ rest) answers))
  receive_data zero held x xs answers s d fine enough more = absurd (omega arith)
  receive_data (suc fuel) held x xs [] s d fine enough more = absurd (omega arith)
  receive_data (suc fuel) held x xs (broken ∷ cs) s d fine enough more = absurd fine
  receive_data (suc fuel) held x xs (not_now ∷ cs) s d fine enough more =
      let w = wire (x ∷ xs ++ rest) (not_now ∷ cs) in
      let step : recv garbage s w
          ≡ some (record { outcome = again; socket = s; wire = wire (x ∷ xs ++ rest) cs }) =
        recv_late garbage s w (omega (arith, d.counted))
        ∙ tail-wait msg held (x ∷ xs) rest cs s d in
      Completes-eq msg rest supply (length cs) (suc (length cs))
        (recv_again garbage fuel s w _ step refl) (omega arith)
        (receive_data fuel held x xs cs s d fine enough (omega arith))
  receive_data (suc fuel) held x xs (one_and k ∷ cs) s d fine enough more =
      let w = wire (x ∷ xs ++ rest) (one_and k ∷ cs) in
      let late = recv_late garbage s w (omega (arith, d.counted)) in
      elim (List-cases (drop k xs)) [
        | inl e ↦ (
          _,
          cs,
          recv_done garbage fuel s w _ (late ∙ tail-done msg held x xs rest k cs s d clean e)
              (λ a. cc),
          after-IsIdle msg (held ++ x ∷ take k xs) _ (rw e at (after_read msg held x xs k s d)),
          omega arith,
          fine,
          omega arith,
        )
        | inr (y, ys, e) ↦
            Completes-eq msg rest supply (length cs) (suc (length cs))
              (recv_again garbage fuel s w _ (late ∙ tail-more msg held x xs rest k cs s d y ys e)
                refl)
              (omega arith)
              (receive_data fuel (held ++ x ∷ take k xs) y ys cs _
                (rw e at (after_read msg held x xs k s d)) fine
                (omega (arith, ap length e, length-drop k xs)) (omega arith))
      ]

module _ (garbage : ℕ → ℕ) where
  -- Two sockets at which `recv` does the same.
  recv_same :
      (fuel : ℕ) (s t : TcpSocket) (w v : Wire)
      → recv garbage s w ≡ recv garbage t v
      → recv_complete_msg garbage (suc fuel) s w ≡ recv_complete_msg garbage (suc fuel) t v
  unfolding recv_complete_msg
  recv_same fuel s t w v e = rw e refl

  header_wait :
      (s : TcpSocket) (incoming : List ℕ) (cs : List Answer)
      → s.recv_bytes < 4
      → recv garbage s (wire incoming (not_now ∷ cs))
        ≡ some (record { outcome = again; socket = s; wire = wire incoming cs })
  unfolding recv recv_header answered recv_call recv_answer
  header_wait s incoming cs early = rw (lt→ltb s.recv_bytes 4 early) refl

module _ (garbage : ℕ → ℕ) (m : ℕ) (ms rest : List ℕ) (clean : NoZero (m ∷ ms)) (supply : ℕ)
    (small : length (m ∷ ms) < 2 ^ 32) where
  receive_header :
      (fuel : ℕ) (held : List ℕ) (x : ℕ) (xs : List ℕ) (answers : List Answer) (s : TcpSocket)
      → InHeader (htonl (length (m ∷ ms))) held (x ∷ xs) s
      → IsFine answers
      → suc (length xs) + length (m ∷ ms) + supply ≤ ready answers
      → length answers < fuel
      → Completes
          (m ∷ ms)
          rest
          supply
          (length answers)
          (recv_complete_msg garbage fuel s (wire (x ∷ xs ++ (m ∷ ms ++ rest)) answers))
  unfolding htonl
  receive_header zero held x xs answers s d fine enough more = absurd (omega arith)
  receive_header (suc fuel) held x xs [] s d fine enough more = absurd (omega arith)
  receive_header (suc fuel) held x xs (broken ∷ cs) s d fine enough more = absurd fine
  receive_header (suc fuel) held x xs (not_now ∷ cs) s d fine enough more =
      let early : s.recv_bytes < 4 =
        omega (arith, d.counted, ap length d.whole, length-append held (x ∷ xs)) in
      let w = wire (x ∷ xs ++ (m ∷ ms ++ rest)) (not_now ∷ cs) in
      Completes-eq (m ∷ ms) rest supply (length cs) (suc (length cs))
        (recv_again garbage fuel s w _ (header_wait garbage s (x ∷ xs ++ (m ∷ ms ++ rest)) cs early)
          refl)
        (omega arith) (receive_header fuel held x xs cs s d fine enough (omega arith))
  receive_header (suc fuel) held x xs (one_and k ∷ cs) s d fine enough more =
      let header = htonl (length (m ∷ ms)) in
      let w = wire (x ∷ xs ++ (m ∷ ms ++ rest)) (one_and k ∷ cs) in
      elim (List-cases (drop k xs)) [
        | inl e ↦
            let (t, step, d') =
              header-full garbage header refl held x xs (m ∷ ms ++ rest) k cs s d (m ∷ ms) small
                refl e in
            let same =
              step
              ∙ sym (recv_late garbage t (wire (m ∷ ms ++ rest) cs) (omega (arith, d'.counted))) in
            Completes-eq (m ∷ ms) rest supply (length cs) (suc (length cs))
              (recv_same garbage fuel s t w (wire (m ∷ ms ++ rest) cs) same) (omega arith)
              (receive_data garbage (m ∷ ms) rest clean supply (suc fuel) [] m ms cs t d' fine
                (omega arith) (omega arith))
        | inr (y, ys, e) ↦
            let (step, d') =
              header-more garbage header refl held x xs (m ∷ ms ++ rest) k cs s d y ys e in
            Completes-eq (m ∷ ms) rest supply (length cs) (suc (length cs))
              (recv_again garbage fuel s w _ step refl) (omega arith)
              (receive_header fuel (held ++ x ∷ take k xs) y ys cs _ d' fine
                (omega (arith, ap length e, length-drop k xs)) (omega arith))
      ]

  -- A message behind its length is received whole, whatever follows it and however the system cuts
  -- the bytes or makes the socket wait, if enough calls get bytes and none fails.
  pub recv_complete_msg-frame :
      (fuel : ℕ) (answers : List Answer) (s : TcpSocket)
      → IsIdle s
      → IsFine answers
      → 4 + length (m ∷ ms) + supply ≤ ready answers
      → length answers < fuel
      → Completes (m ∷ ms) rest supply (length answers) (
          recv_complete_msg garbage fuel s
            (wire (htonl (length (m ∷ ms)) ++ (m ∷ ms ++ rest)) answers))
  unfolding htonl
  recv_complete_msg-frame fuel answers s idle fine enough more =
      receive_header fuel [] _ _ answers s
        (record { sound = idle.sound; whole = refl; counted = idle.empty; stored = refl }) fine
        (omega arith) more

-- ===== src/TcpSocket/Receive.antt =====
-- What common/tcp_socket.cc receives of a message that is sent to it whole.
use h9d.Prelude.{
  ℕ, zero, suc, ◌+◌, ◌-◌, ◌≤◌, ◌≡◌, ◌≢◌, refl, sym, ap, ◌∙◌, arith, true, false, lt→ltb, le→ltb,
  List, [], ◌∷◌, ◌++◌, Option, some, ◌>>=◌, length, take, drop, length-append, length-take, leb,
  ltb, append_assoc, append_nil,
}
use h9d.TcpSocket.System.{Answer, one_and, not_now, bytes, Wire, recv_answer, recv_call}
use h9d.TcpSocket.Memory.{length-fresh, store_fits, length-stored}
use h9d.TcpSocket.Calls.{IsSound}
use h9d.TcpSocket.Sound.{taken, taken-IsSound, take_data_lem}
use h9d.TcpSocket.{
  new_tcp_socket, TcpSocket, answered, message, again, go, recv_body, recv_end, and_then, Received,
  c_string,
}

abbrev pub wire : List ℕ → List Answer → Wire
wire incoming answers = record { incoming = incoming; answers = answers }

module _ {ℓ} {A : Type ℓ} where
  pub take-length-append : (xs ys : List A) → take (length xs) (xs ++ ys) ≡ xs
  take-length-append [] ys = refl
  take-length-append (x ∷ xs) ys = ap (◌∷◌ x) (take-length-append xs ys)

  pub take-append-drop : (n : ℕ) (xs : List A) → take n xs ++ drop n xs ≡ xs
  take-append-drop zero xs = refl
  take-append-drop (suc n) [] = refl
  take-append-drop (suc n) (x ∷ xs) = ap (◌∷◌ x) (take-append-drop n xs)

  pub drop-length-take :
      (n : ℕ) (xs ys : List A) → drop (length (take n xs)) (xs ++ ys) ≡ drop n xs ++ ys
  drop-length-take zero xs ys = refl
  drop-length-take (suc n) [] ys = refl
  drop-length-take (suc n) (x ∷ xs) ys = drop-length-take n xs ys

-- A call that asks for the bytes `x ∷ xs`.
pub recv_call-one_and :
    (n k x : ℕ) (xs rest : List ℕ) (answers : List Answer)
    → n ≡ suc (length xs)
    → recv_call n (wire (x ∷ xs ++ rest) (one_and k ∷ answers))
      ≡ record { answer = bytes (x ∷ take k xs); wire = wire (drop k xs ++ rest) answers }
unfolding recv_call recv_answer
recv_call-one_and n k x xs rest answers e =
    rw (e, take-length-append xs rest, drop-length-take k xs rest) refl

-- The socket holds the header and the bytes `held` of the message, and waits for the bytes `left`.
pub record InData (msg held left : List ℕ) (s : TcpSocket) : Type 0 where
  pub sound : IsSound s
  pub whole : msg ≡ held ++ left
  pub counted : s.recv_bytes ≡ 4 + length held
  pub to_recv : s.bytes_to_recv ≡ 4 + length msg
  pub stored : take (length held) s.data_buf ≡ held

-- What `recv` does after the header.
abbrev pub tail : TcpSocket → Wire → Option Received
tail s w = recv_body s w >>= (λ body. and_then body recv_end)

-- The message is received.
abbrev pub after : TcpSocket → TcpSocket
after s = record s {
  data_buf =
      take (s.recv_bytes - 4) s.data_buf ++ (0 ∷ [] ++ drop (s.recv_bytes - 4 + 1) s.data_buf);
  bytes_to_recv = 4;
  recv_bytes = 0;
}

pub record IsIdle (s : TcpSocket) : Type 0 where
  pub sound : IsSound s
  pub empty : s.recv_bytes ≡ 0

-- A new socket is idle.
new_tcp_socket-IsIdle : (garbage : ℕ → ℕ) → IsIdle (new_tcp_socket garbage)
unfolding new_tcp_socket
new_tcp_socket-IsIdle garbage = record {
  sound = record {
    header_size = length-fresh garbage 4;
    data_size = length-fresh garbage 4097;
    waits = λ e. refl;
    fits = λ e. absurd (omega arith);
    room = λ e. absurd (omega arith);
  };
  empty = refl;
}

-- No byte is 0.
abbrev pub NoZero : List ℕ → Type 0
NoZero [] = Unit {0}
NoZero (b ∷ bs) = (b ≢ 0) × NoZero bs

c_string_lem : (m rest : List ℕ) → NoZero m → c_string (m ++ 0 ∷ rest) ≡ m
unfolding c_string
c_string_lem [] rest clean = refl
c_string_lem (b ∷ m) rest clean = ground (arith, clean.0, c_string_lem m rest (clean.1))

module _ (msg : List ℕ) where
  left-length :
      (held left : List ℕ) (s : TcpSocket)
      → InData msg held left s
      → s.bytes_to_recv - s.recv_bytes ≡ length left
  left-length held left s d =
      omega (arith, d.counted, d.to_recv, ap length d.whole, length-append held left)

  taken-InData :
      (held got left : List ℕ) (s : TcpSocket)
      → InData msg held (got ++ left) s
      → InData msg (held ++ got) left (taken s got)
  taken-InData held got left s d = record {
    sound =
        taken-IsSound s got (d.sound) (omega (arith, d.counted))
          (omega (arith, left-length held (got ++ left) s d, length-append got left));
    whole = d.whole ∙ sym (append_assoc held got left);
    counted = omega (arith, d.counted, length-append held got);
    to_recv = d.to_recv;
    stored =
        let e : s.recv_bytes - 4 ≡ length held = omega (arith, d.counted) in
        rw (e, d.stored, ← append_assoc held got (drop (length held + length got) s.data_buf))
          (take-length-append (held ++ got) (drop (length held + length got) s.data_buf));
  }

  -- A read of the message that gets some bytes of it.
  recv_body_lem :
      (held : List ℕ) (x : ℕ) (xs rest : List ℕ) (k : ℕ) (answers : List Answer) (s : TcpSocket)
      → InData msg held (x ∷ xs) s
      → recv_body s (wire (x ∷ xs ++ rest) (one_and k ∷ answers))
        ≡ some (go (taken s (x ∷ take k xs)) (wire (drop k xs ++ rest) answers))
  unfolding recv_body answered
  recv_body_lem held x xs rest k answers s d =
      let late : 4 ≤ s.recv_bytes = omega (arith, d.counted) in
      let test : leb 4 s.recv_bytes ≡ true = ground arith in
      rw
        (
          test,
          recv_call-one_and (s.bytes_to_recv - s.recv_bytes) k x xs rest answers
              (left-length held (x ∷ xs) s d),
        )
        (take_data_lem s (wire (drop k xs ++ rest) answers) (x ∷ take k xs) d.sound late
          (omega (arith, left-length held (x ∷ xs) s d, length-take k xs)))

  pub after_read :
      (held : List ℕ) (x : ℕ) (xs : List ℕ) (k : ℕ) (s : TcpSocket)
      → InData msg held (x ∷ xs) s
      → InData msg (held ++ x ∷ take k xs) (drop k xs) (taken s (x ∷ take k xs))
  after_read held x xs k s d =
      taken-InData held (x ∷ take k xs) (drop k xs) s (rw (take-append-drop k xs) d)

  recv_end-more :
      (held : List ℕ) (x : ℕ) (xs : List ℕ) (s : TcpSocket) (w : Wire)
      → InData msg held (x ∷ xs) s
      → recv_end s w ≡ some (record { outcome = again; socket = s; wire = w })
  unfolding recv_end
  recv_end-more held x xs s w d =
      let test : ltb s.recv_bytes s.bytes_to_recv ≡ true =
        lt→ltb _ _ (omega (arith, left-length held (x ∷ xs) s d)) in
      rw test refl

  recv_end-done :
      (held : List ℕ) (s : TcpSocket) (w : Wire)
      → NoZero msg
      → InData msg held [] s
      → recv_end s w ≡ some (record { outcome = message msg; socket = after s; wire = w })
  unfolding recv_end
  recv_end-done held s w clean d =
      let all : held ≡ msg = sym (d.whole ∙ append_nil held) in
      let test : ltb s.recv_bytes s.bytes_to_recv ≡ false =
        le→ltb _ _ (omega (arith, left-length held [] s d)) in
      let e : s.recv_bytes - 4 ≡ length held = omega (arith, d.counted) in
      let fits : s.recv_bytes - 4 + 1 ≤ length s.data_buf =
        omega (arith, d.sound.data_size, d.sound.room, d.counted, d.to_recv) in
      let read : c_string (
            take (s.recv_bytes - 4) s.data_buf
            ++ (0 ∷ [] ++ drop (s.recv_bytes - 4 + 1) s.data_buf))
          ≡ msg =
        rw (e, d.stored, all) (c_string_lem msg (drop (length msg + 1) s.data_buf) clean) in
      rw (test, store_fits (s.recv_bytes - 4) (0 ∷ []) s.data_buf fits, read) refl

  pub after-IsIdle : (held : List ℕ) (s : TcpSocket) → InData msg held [] s → IsIdle (after s)
  after-IsIdle held s d = record {
    sound = record {
      header_size = d.sound.header_size;
      data_size =
          length-stored (s.recv_bytes - 4) (0 ∷ []) s.data_buf (
            omega (
              arith,
              d.sound.data_size,
              d.sound.room,
              d.counted,
              d.to_recv,
              ap length d.whole,
              length-append held [],
            ))
          ∙ d.sound.data_size;
      waits = λ e. refl;
      fits = λ e. omega arith;
      room = λ e. omega arith;
    };
    empty = refl;
  }

  -- A read that gets part of what is left, one that gets all of it, and one that gets nothing yet.
  module _ (held : List ℕ) (x : ℕ) (xs rest : List ℕ) (k : ℕ) (answers : List Answer)
      (s : TcpSocket) (d : InData msg held (x ∷ xs) s) where
    pub tail-more :
        (y : ℕ) (ys : List ℕ)
        → drop k xs ≡ y ∷ ys
        → tail s (wire (x ∷ xs ++ rest) (one_and k ∷ answers))
          ≡ some (record {
            outcome = again;
            socket = taken s (x ∷ take k xs);
            wire = wire (y ∷ ys ++ rest) answers;
          })
    tail-more y ys e =
        rw (recv_body_lem held x xs rest k answers s d, e)
          (recv_end-more (held ++ x ∷ take k xs) y ys (taken s (x ∷ take k xs))
            (wire (y ∷ ys ++ rest) answers) (rw e at (after_read held x xs k s d)))

    pub tail-done :
        NoZero msg
        → drop k xs ≡ []
        → tail s (wire (x ∷ xs ++ rest) (one_and k ∷ answers))
          ≡ some (record {
            outcome = message msg;
            socket = after (taken s (x ∷ take k xs));
            wire = wire rest answers;
          })
    tail-done clean e =
        rw (recv_body_lem held x xs rest k answers s d, e)
          (recv_end-done (held ++ x ∷ take k xs) (taken s (x ∷ take k xs)) (wire rest answers) clean
            (rw e at (after_read held x xs k s d)))

  pub tail-wait :
      (held : List ℕ) (left rest : List ℕ) (answers : List Answer) (s : TcpSocket)
      → InData msg held left s
      → tail s (wire (left ++ rest) (not_now ∷ answers))
        ≡ some (record { outcome = again; socket = s; wire = wire (left ++ rest) answers })
  unfolding recv_body answered recv_call recv_answer
  tail-wait held left rest answers s d =
      let late : 4 ≤ s.recv_bytes = omega (arith, d.counted) in
      let test : leb 4 s.recv_bytes ≡ true = ground arith in rw test refl

-- ===== src/TcpSocket/Header.antt =====
-- The length of a message, which common/tcp_socket.cc receives before the message.
use h9d.Prelude.{
  ℕ, suc, ◌+◌, ◌-◌, ◌^◌, ◌≤◌, ◌<◌, ◌≡◌, refl, sym, ap, ◌∙◌, arith, true, false, lt→ltb, le→ltb,
  Bool-cases, inl, inr, List, [], ◌∷◌, ◌++◌, some, length, take, drop, length-append, length-take,
  leb, ltb, ◌==◌, append_assoc, append_nil, take_all, if◌then◌else◌,
}
use h9d.TcpSocket.System.{Answer, one_and, Wire}
use h9d.TcpSocket.Memory.{length-stored}
use h9d.TcpSocket.Calls.{IsSound}
use h9d.TcpSocket.Sound.{header_taken, header_full-IsSound, header_part-IsSound, take_header_lem}
use h9d.TcpSocket.Receive.{
  wire, take-length-append, take-append-drop, recv_call-one_and, InData, tail,
}
use h9d.TcpSocket.{
  TcpSocket, ntohl, htonl, make_room, header_done, answered, again, go, recv_header, recv_body,
  recv_end, recv,
}

-- The length of a message comes back from the bytes that stand for it.
pub ntohl-htonl : (n : ℕ) → n < 2 ^ 32 → ntohl (htonl n) ≡ n
unfolding ntohl htonl
ntohl-htonl n small = omega arith

-- The socket holds the bytes `held` of the header, and waits for the bytes `left`.
pub record InHeader (header held left : List ℕ) (s : TcpSocket) : Type 0 where
  pub sound : IsSound s
  pub whole : header ≡ held ++ left
  pub counted : s.recv_bytes ≡ length held
  pub stored : take (length held) s.header_buf ≡ held

module _ (garbage : ℕ → ℕ) (s : TcpSocket) where
  -- What the end of the header changes.
  header_done_fields :
      ((header_done garbage s).recv_bytes ≡ s.recv_bytes)
      × ((header_done garbage s).bytes_to_recv ≡ s.bytes_to_recv + ntohl s.header_buf)
  unfolding header_done make_room
  header_done_fields = elim (Bool-cases (ltb s.data_buf_len (ntohl s.header_buf))) [
    | inl more ↦ rw more (refl, refl)
    | inr fits ↦ rw fits (refl, refl)
  ]

  -- With the header at hand, `recv` reads the message.
  pub recv_late : (w : Wire) → 4 ≤ s.recv_bytes → recv garbage s w ≡ tail s w
  unfolding recv recv_header
  recv_late w late = rw (le→ltb _ _ late) refl

module _ (garbage : ℕ → ℕ) (header : List ℕ) (four : length header ≡ 4) where
  header_taken-stored :
      (held got left : List ℕ) (s : TcpSocket)
      → InHeader header held (got ++ left) s
      → take (length (held ++ got)) (header_taken s got).header_buf ≡ held ++ got
  header_taken-stored held got left s d =
      rw
        (
          d.counted,
          d.stored,
          ← append_assoc held got (drop (length held + length got) s.header_buf),
        )
        (take-length-append (held ++ got) (drop (length held + length got) s.header_buf))

  split_length :
      (held got left : List ℕ) (s : TcpSocket)
      → InHeader header held (got ++ left) s
      → s.recv_bytes + length got + length left ≡ 4
  split_length held got left s d = omega (
    arith,
    d.counted,
    ap length d.whole,
    four,
    length-append held (got ++ left),
    length-append got left,
  )

  -- A read of the header that gets some bytes of it.
  recv_header_lem :
      (held : List ℕ) (x : ℕ) (xs rest : List ℕ) (k : ℕ) (answers : List Answer) (s : TcpSocket)
      → InHeader header held (x ∷ xs) s
      → recv_header garbage s (wire (x ∷ xs ++ rest) (one_and k ∷ answers))
        ≡ some (
            go
              (if s.recv_bytes + length (x ∷ take k xs) == 4
                then header_done garbage (header_taken s (x ∷ take k xs))
                else header_taken s (x ∷ take k xs))
              (wire (drop k xs ++ rest) answers))
  unfolding recv_header answered
  recv_header_lem held x xs rest k answers s d =
      let all : s.recv_bytes + 0 + suc (length xs) ≡ 4 = split_length held [] (x ∷ xs) s d in
      rw
        (
          lt→ltb s.recv_bytes 4 (omega arith),
          recv_call-one_and (4 - s.recv_bytes) k x xs rest answers (omega arith),
        )
        (take_header_lem garbage s (wire (drop k xs ++ rest) answers) (x ∷ take k xs) d.sound
          (omega (arith, length-take k xs)))

  length-stored-header :
      (held got left : List ℕ) (s : TcpSocket)
      → InHeader header held (got ++ left) s
      → length (header_taken s got).header_buf ≡ 4
  length-stored-header held got left s d =
      length-stored s.recv_bytes got s.header_buf
        (omega (arith, d.sound.header_size, split_length held got left s d))
      ∙ d.sound.header_size

  -- The whole header stands for the length.
  header_at_hand :
      (msg held : List ℕ) (u : TcpSocket)
      → length msg < 2 ^ 32
      → header ≡ htonl (length msg)
      → header ≡ held
      → length u.header_buf ≡ 4
      → take (length held) u.header_buf ≡ held
      → ntohl u.header_buf ≡ length msg
  header_at_hand msg held u small is whole sized stored =
      let e : u.header_buf ≡ header =
        (sym (take_all (length held) u.header_buf (omega (arith, ap length whole, four))) ∙ stored)
        ∙ sym whole in
      rw (e, is) (ntohl-htonl (length msg) small)

  module _ (held : List ℕ) (x : ℕ) (xs rest : List ℕ) (k : ℕ) (answers : List Answer)
      (s : TcpSocket) (d : InHeader header held (x ∷ xs) s) where
    got_split : InHeader header held (x ∷ take k xs ++ drop k xs) s
    got_split = rw (take-append-drop k xs) d

    -- Part of what is left of the header.
    pub header-more :
        (y : ℕ) (ys : List ℕ)
        → drop k xs ≡ y ∷ ys
        → (recv garbage s (wire (x ∷ xs ++ rest) (one_and k ∷ answers))
            ≡ some (record {
              outcome = again;
              socket = header_taken s (x ∷ take k xs);
              wire = wire (y ∷ ys ++ rest) answers;
            }))
          × InHeader header (held ++ x ∷ take k xs) (y ∷ ys) (header_taken s (x ∷ take k xs))
    unfolding recv recv_body recv_end
    header-more y ys e =
        let all : s.recv_bytes + length (x ∷ take k xs) + suc (length ys) ≡ 4 =
          ap (λ (l : List ℕ). s.recv_bytes + length (x ∷ take k xs) + length l) (sym e)
          ∙ split_length held (x ∷ take k xs) (drop k xs) s got_split in
        let short : (s.recv_bytes + length (x ∷ take k xs) == 4) ≡ false = ground arith in
        let early : leb 4 (s.recv_bytes + length (x ∷ take k xs)) ≡ false = ground arith in
        let to_recv : s.bytes_to_recv ≡ 4 = d.sound.waits (omega arith) in
        let part : ltb (s.recv_bytes + length (x ∷ take k xs)) s.bytes_to_recv ≡ true =
          lt→ltb _ _ (omega arith) in
        (
          rw (recv_header_lem held x xs rest k answers s d, short, early, part, e) refl,
          record {
            sound = header_part-IsSound garbage s (x ∷ take k xs) d.sound (omega arith);
            whole =
                (got_split.whole ∙ sym (append_assoc held (x ∷ take k xs) (drop k xs)))
                ∙ ap (λ (l : List ℕ). (held ++ x ∷ take k xs) ++ l) e;
            counted = omega (arith, d.counted, length-append held (x ∷ take k xs));
            stored = header_taken-stored held (x ∷ take k xs) (drop k xs) s got_split;
          },
        )

    -- All that is left of the header: the message follows.
    pub header-full :
        (msg : List ℕ)
        → length msg < 2 ^ 32
        → header ≡ htonl (length msg)
        → drop k xs ≡ []
        → (t : TcpSocket) × (recv garbage s (wire (x ∷ xs ++ rest) (one_and k ∷ answers))
            ≡ tail t (wire rest answers))
          × InData msg [] msg t
    unfolding recv
    header-full msg small is e =
        let got = x ∷ take k xs in
        let u = header_taken s got in
        let all : s.recv_bytes + length got + 0 ≡ 4 =
          ap (λ (l : List ℕ). s.recv_bytes + length got + length l) (sym e)
          ∙ split_length held got (drop k xs) s got_split in
        let full : (s.recv_bytes + length got == 4) ≡ true = ground arith in
        let whole : header ≡ held ++ got =
          (got_split.whole ∙ sym (append_assoc held got (drop k xs)))
          ∙ (ap (λ (l : List ℕ). (held ++ got) ++ l) e ∙ append_nil (held ++ got)) in
        let ok = header_full-IsSound garbage s got d.sound (omega arith) (omega arith) in
        let (n, m) = header_done_fields garbage u in
        (
          header_done garbage u,
          rw (recv_header_lem held x xs rest k answers s d, full, e) refl,
          record {
            sound = ok;
            whole = refl;
            counted = n ∙ omega arith;
            to_recv =
                rw
                  (
                    m,
                    header_at_hand msg (held ++ got) u small is whole
                        (omega (arith, length-stored-header held got (drop k xs) s got_split))
                        (header_taken-stored held got (drop k xs) s got_split),
                    d.sound.waits (omega arith),
                  )
                  refl;
            stored = refl;
          },
        )

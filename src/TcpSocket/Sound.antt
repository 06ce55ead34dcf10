-- ===== src/TcpSocket/Sound.antt =====
-- Receiving with common/tcp_socket.cc stays within its buffers, whatever the peer sends.
use h9d.Prelude.{
  ℕ, suc, ◌+◌, ◌-◌, ◌≤◌, ◌<◌, ◌≡◌, refl, ◌∙◌, arith, if◌then◌else◌, Bool-cases, inl, inr, ltb→lt,
  leb→le, List, [], ◌∷◌, ◌++◌, Option, some, length, take, drop, leb, ltb, ◌==◌,
}
use h9d.TcpSocket.System.{Wire}
use h9d.TcpSocket.Calls.{IsSound, CallOk-mono, recv_call-CallOk, IsStage, answered-IsStage}
use h9d.TcpSocket.Memory.{length-realloc, store_fits, length-stored}
use h9d.TcpSocket.{
  TcpSocket, ntohl, make_room, header_done, again, go, take_header, recv_header, take_data,
  recv_body, recv_end, Received,
}

-- After some bytes of the header.
abbrev pub AfterHeader : ℕ → TcpSocket → Wire → Type 0
AfterHeader m s w = IsSound s × (length w.answers ≤ m) × (s.recv_bytes < 4 → length w.answers < m)

-- The socket with these bytes behind those that it holds of the header.
abbrev pub header_taken : TcpSocket → List ℕ → TcpSocket
header_taken s got = record s {
  header_buf =
      take s.recv_bytes s.header_buf ++ (got ++ drop (s.recv_bytes + length got) s.header_buf);
  recv_bytes = s.recv_bytes + length got;
}

module _ (garbage : ℕ → ℕ) where
  -- After the header the buffer has room for the whole message.
  header_done-IsSound :
      (s : TcpSocket)
      → length s.header_buf ≡ 4
      → length s.data_buf ≡ s.data_buf_len + 1
      → s.bytes_to_recv ≡ 4
      → s.recv_bytes ≡ 4
      → IsSound (header_done garbage s)
  unfolding header_done make_room
  header_done-IsSound s four sized to_recv full =
      elim (Bool-cases (ltb s.data_buf_len (ntohl s.header_buf))) [
        | inl more ↦ rw more (record {
          header_size = four;
          data_size = length-realloc garbage (ntohl s.header_buf + 1) s.data_buf (ground (arith));
          waits = λ few. omega arith;
          fits = λ all. omega arith;
          room = λ all. omega arith;
        })
        | inr fits ↦ rw fits (record {
          header_size = four;
          data_size = sized;
          waits = λ few. omega arith;
          fits = λ all. omega arith;
          room = λ all. ground arith;
        })
      ]

  pub header_full-IsSound :
      (s : TcpSocket) (got : List ℕ)
      → IsSound s
      → s.recv_bytes + length got ≡ 4
      → 0 < length got
      → IsSound (header_done garbage (header_taken s got))
  header_full-IsSound s got ok full some_more =
      header_done-IsSound (header_taken s got)
        (length-stored s.recv_bytes got s.header_buf (omega (arith, ok.header_size))
          ∙ ok.header_size)
        ok.data_size (ok.waits (omega arith)) full

  pub header_part-IsSound :
      (s : TcpSocket) (got : List ℕ)
      → IsSound s
      → s.recv_bytes + length got < 4
      → IsSound (header_taken s got)
  header_part-IsSound s got ok part = record {
    header_size =
        length-stored s.recv_bytes got s.header_buf (omega (arith, ok.header_size))
        ∙ ok.header_size;
    data_size = ok.data_size;
    waits = λ e. ok.waits (omega arith);
    fits = λ e. omega arith;
    room = λ e. omega arith;
  }

  pub take_header_lem :
      (s : TcpSocket) (w : Wire) (got : List ℕ)
      → IsSound s
      → s.recv_bytes + length got ≤ 4
      → take_header garbage s w got
        ≡ some (
            go
              (if s.recv_bytes + length got == 4
                then header_done garbage (header_taken s got)
                else header_taken s got)
              w)
  unfolding take_header
  take_header_lem s w got ok few =
      rw (store_fits s.recv_bytes got s.header_buf (omega (arith, ok.header_size))) refl

  take_header-IsStage :
      (m : ℕ) (s : TcpSocket) (b : ℕ) (bs : List ℕ) (w : Wire)
      → IsSound s
      → s.recv_bytes < 4
      → suc (length bs) ≤ 4 - s.recv_bytes
      → length w.answers < m
      → IsStage m (AfterHeader m) (take_header garbage s w (b ∷ bs))
  take_header-IsStage m s b bs w ok early few fewer =
      rw (take_header_lem s w (b ∷ bs) ok (omega arith))
        (elim (Bool-cases (s.recv_bytes + length (b ∷ bs) == 4)) [
          | inl full ↦ rw full (
              inr (
                header_done garbage (header_taken s (b ∷ bs)),
                w,
                refl,
                (
                  header_full-IsSound s (b ∷ bs) ok (ground arith) (omega arith),
                  omega arith,
                  (λ e. fewer),
                ),
              ))
          | inr part ↦ rw part (
              inr (
                header_taken s (b ∷ bs),
                w,
                refl,
                (header_part-IsSound s (b ∷ bs) ok (ground arith), omega arith, (λ e. fewer)),
              ))
        ])

  pub recv_header-IsStage :
      (s : TcpSocket) (w : Wire)
      → IsSound s
      → IsStage (length w.answers) (AfterHeader (length w.answers)) (recv_header garbage s w)
  unfolding recv_header
  recv_header-IsStage s w ok = elim (Bool-cases (ltb s.recv_bytes 4)) [
    | inl early ↦ rw early (
        answered-IsStage (4 - s.recv_bytes) (length w.answers) (AfterHeader (length w.answers))
          (take_header garbage s) s (recv_call-CallOk (4 - s.recv_bytes) w) ok
          (λ b bs v few fewer.
            take_header-IsStage (length w.answers) s b bs v ok (ltb→lt _ _ early) few fewer))
    | inr late ↦ rw late (inr (s, w, refl, (ok, omega arith, (λ e. absurd (ground arith)))))
  ]

-- After the two reads.
abbrev pub AfterReads : ℕ → TcpSocket → Wire → Type 0
AfterReads m s w = IsSound s × (length w.answers < m)

-- The socket with these bytes behind those that it holds of the message.
abbrev pub taken : TcpSocket → List ℕ → TcpSocket
taken s got = record s {
  data_buf =
      take (s.recv_bytes - 4) s.data_buf
      ++ (got ++ drop (s.recv_bytes - 4 + length got) s.data_buf);
  recv_bytes = s.recv_bytes + length got;
}

pub taken-IsSound :
    (s : TcpSocket) (got : List ℕ)
    → IsSound s
    → 4 ≤ s.recv_bytes
    → length got ≤ s.bytes_to_recv - s.recv_bytes
    → IsSound (taken s got)
taken-IsSound s got ok late few = record {
  header_size = ok.header_size;
  data_size =
      length-stored (s.recv_bytes - 4) got s.data_buf
        (omega (arith, ok.data_size, ok.fits late, ok.room late))
      ∙ ok.data_size;
  waits = λ e. absurd (omega arith);
  fits = λ e. omega (arith, ok.fits late);
  room = λ e. ok.room late;
}

pub take_data_lem :
    (s : TcpSocket) (w : Wire) (got : List ℕ)
    → IsSound s
    → 4 ≤ s.recv_bytes
    → length got ≤ s.bytes_to_recv - s.recv_bytes
    → take_data s w got ≡ some (go (taken s got) w)
unfolding take_data
take_data_lem s w got ok late few =
    rw
      (store_fits (s.recv_bytes - 4) got s.data_buf
        (omega (arith, ok.data_size, ok.fits late, ok.room late)))
      refl

pub recv_body-IsStage :
    (m : ℕ) (s : TcpSocket) (w : Wire)
    → IsSound s
    → length w.answers ≤ m
    → (s.recv_bytes < 4 → length w.answers < m)
    → IsStage m (AfterReads m) (recv_body s w)
unfolding recv_body
recv_body-IsStage m s w ok few early = elim (Bool-cases (leb 4 s.recv_bytes)) [
  | inl late ↦ rw late (
      answered-IsStage (s.bytes_to_recv - s.recv_bytes) m (AfterReads m) (take_data s) s
        (CallOk-mono few (recv_call-CallOk (s.bytes_to_recv - s.recv_bytes) w)) ok
        (λ b bs v short fewer. inr (
          taken s (b ∷ bs),
          v,
          take_data_lem s v (b ∷ bs) ok (leb→le _ _ late) short,
          (taken-IsSound s (b ∷ bs) ok (leb→le _ _ late) short, fewer),
        )))
  | inr part ↦ rw part (inr (s, w, refl, (ok, early (ground arith))))
]

-- What `recv` returns: its socket is in order, no answers are added, and it is not EAGAIN before an
-- answer is used up.
abbrev pub IsReceived : ℕ → Option Received → Type 0
IsReceived m r =
    (q : Received) × (r ≡ some q)
    × IsSound q.socket
    × (length q.wire.answers ≤ m)
    × (q.outcome ≡ again → length q.wire.answers < m)

pub recv_end-IsReceived :
    (m : ℕ) (s : TcpSocket) (w : Wire)
    → IsSound s
    → length w.answers < m
    → IsReceived m (recv_end s w)
unfolding recv_end
recv_end-IsReceived m s w ok fewer = elim (Bool-cases (ltb s.recv_bytes s.bytes_to_recv)) [
  | inl part ↦ rw part (_, refl, ok, omega arith, (λ e. fewer))
  | inr done ↦
      let late : 4 ≤ s.recv_bytes = ground (arith, ok.waits) in
      let fits : s.recv_bytes - 4 + 1 ≤ length s.data_buf =
        omega (arith, ok.data_size, ok.fits late, ok.room late) in
      rw (done, store_fits (s.recv_bytes - 4) (0 ∷ []) s.data_buf fits)
        (
          _,
          refl,
          record {
            header_size = ok.header_size;
            data_size = length-stored (s.recv_bytes - 4) (0 ∷ []) s.data_buf fits ∙ ok.data_size;
            waits = λ e. refl;
            fits = λ e. omega arith;
            room = λ e. omega arith;
          },
          omega arith,
          (λ e. fewer),
        )
]

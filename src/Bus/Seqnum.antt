-- ===== src/Bus/Seqnum.antt =====
-- The sequence numbers that `recv_thread_send` of h9d/bus.cc gives to requests.
use h9d.Prelude.{
  ℕ, zero, suc, ◌+◌, ◌%◌, ◌<◌, ◌≡◌, ◌≢◌, arith, Bool, not, ◌&&◌, List, [], ◌∷◌, some, get_elem?,
  Bool-cases, inl, inr, if◌then◌else◌,
}
use h9d.H9def.{H9Def, IsLayout}
use h9d.BusFrame.{BusFrame}
use h9d.Bus.{stamp, takes_seqnum}

module _ (h : H9Def) where
  abbrev is_request : BusFrame → Bool
  is_request b = not b.raw && takes_seqnum h b.frame.type

  -- The sequence numbers under which the requests among some frames are sent, in order.
  unfoldable pub request_seqnums : ℕ → ℕ → List BusFrame → List ℕ
  request_seqnums bus_id next [] = []
  request_seqnums bus_id next (b ∷ bs) =
      let sent = stamp h bus_id next b in
      let rest = request_seqnums bus_id (sent.1) bs in
      if is_request b then (sent.0).frame.seqnum ∷ rest else rest

numbered :
    (next i n : ℕ) (rest : List ℕ)
    → next < 32
    → ((j : ℕ) → get_elem? rest j ≡ some n → n ≡ ((next + 1) % 32 + j) % 32)
    → get_elem? (next ∷ rest) i ≡ some n
    → n ≡ (next + i) % 32
numbered next zero n rest small later e = ground arith
numbered next (suc i) n rest small later e = omega (arith, later i e)

module _ (h : H9Def) (l : IsLayout h) where
  -- A request takes the next number, and the number after it comes next, modulo 32; a raw frame
  -- and a frame of another type take none. A raw frame is sent as it is.
  pub stamp_lem :
      (bus_id next : ℕ) (b : BusFrame)
      → next < 32
      → stamp h bus_id next b ≡ (
          if b.raw
          then (b, next)
          else if takes_seqnum h b.frame.type
          then (
            record b { frame = record (b.frame) { source_id = bus_id % 256; seqnum = next } },
            (next + 1) % 32,
          )
          else (record b { frame = record (b.frame) { source_id = bus_id % 256 } }, next))
  unfolding stamp
  stamp_lem bus_id next b small = simp l.seqnum_bits (ground arith)

  -- The requests among any frames, whatever frames are sent between them, are numbered one after
  -- the other modulo 32, from the number that was next.
  pub request_seqnums_lem :
      (bus_id next i n : ℕ) (bs : List BusFrame)
      → next < 32
      → get_elem? (request_seqnums h bus_id next bs) i ≡ some n
      → n ≡ (next + i) % 32
  unfolding request_seqnums
  request_seqnums_lem bus_id next i n [] small e = cc
  request_seqnums_lem bus_id next i n (b ∷ bs) small e = elim (Bool-cases (b.raw)) [
    | inl raw ↦
        request_seqnums_lem bus_id next i n bs small (rw (stamp_lem bus_id next b small, raw) at e)
    | inr cooked ↦ elim (Bool-cases (takes_seqnum h b.frame.type)) [
      | inl takes ↦
          numbered next i n _ small
            (λ j. request_seqnums_lem bus_id ((next + 1) % 32) j n bs (omega arith))
            (rw (stamp_lem bus_id next b small, cooked, takes) at e)
      | inr passes ↦
          request_seqnums_lem bus_id next i n bs small
            (rw (stamp_lem bus_id next b small, cooked, passes) at e)
    ]
  ]

  -- So of any 32 requests in a row no two have the same number.
  pub request_seqnums_differ :
      (bus_id next i j n m : ℕ) (bs : List BusFrame)
      → next < 32
      → i < j
      → j < i + 32
      → get_elem? (request_seqnums h bus_id next bs) i ≡ some n
      → get_elem? (request_seqnums h bus_id next bs) j ≡ some m
      → n ≢ m
  request_seqnums_differ bus_id next i j n m bs small p q e f = omega (
    arith,
    request_seqnums_lem bus_id next i n bs small e,
    request_seqnums_lem bus_id next j m bs small f,
  )

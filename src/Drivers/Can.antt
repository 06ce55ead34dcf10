-- ===== src/Drivers/Can.antt =====
-- Frames over the drivers of bus_driver/.
use h9d.Prelude.{
  ℕ, ◌+◌, ◌/◌, ◌%◌, ◌^◌, ◌≤◌, ◌<◌, ◌≡◌, refl, arith, true, List, [], ◌∷◌, some, String, length,
  take, take_all, overwrite_all, bit_or, bit_or_above, sym, ap, ◌∙◌,
}
use h9d.H9def.{H9Def, IsLayout}
use h9d.Frame.{H9Frame, can_id, deserialize_can, set_data_raw}
use h9d.Frame.Identifier.{
  HeaderInRange, with_header, with_value, set_can_id_value, set_can_id-can_id, can_id-lt,
}
use h9d.Frame.Serial.{serialize, deserialize, deserialize-serialize}
use h9d.Drivers.{recv_frame, recv_data, send_data, CanFrame, can_frame, recv_can}

-- The flag of an extended frame lies above the 29 bits of the identifier.
with_value-flag :
    (h : H9Def) (id : ℕ) (f : H9Frame) → with_value h (id + 2 ^ 31) f ≡ with_value h id f
with_value-flag h id f =
    let type : (id + 2 ^ 31) / 2 ^ 24 % 32 ≡ id / 2 ^ 24 % 32 = omega arith in
    let source : (id + 2 ^ 31) / 2 ^ 16 % 256 ≡ id / 2 ^ 16 % 256 = omega arith in
    let flags : (id + 2 ^ 31) / 2 ^ 13 % 8 ≡ id / 2 ^ 13 % 8 = omega arith in
    let destination : (id + 2 ^ 31) / 2 ^ 5 % 256 ≡ id / 2 ^ 5 % 256 = omega arith in
    let seqnum : (id + 2 ^ 31) % 32 ≡ id % 32 = omega arith in
    let group : (id + 2 ^ 31) % 65536 ≡ id % 65536 = omega arith in
    rw (type, source, flags, destination, seqnum, group) refl

recv_data-whole :
    (h : H9Def) (name : String) (garbage bytes : List ℕ) (g : H9Frame)
    → length bytes ≡ 13
    → length garbage ≡ 13
    → recv_data h name garbage (some bytes) g ≡ recv_frame (deserialize h name bytes g)
unfolding recv_data
recv_data-whole h name garbage [] g whole memory = absurd (omega arith)
recv_data-whole h name garbage (b ∷ bytes) g whole memory =
    ap (λ (bs : List ℕ). recv_frame (deserialize h name bs g))
      (overwrite_all (b ∷ bytes) garbage (whole ∙ sym memory))

length-serialize : (h : H9Def) (f : H9Frame) → length f.data_bytes ≡ 8 → length (serialize h f) ≡ 13
unfolding serialize
length-serialize h f eight =
    omega (arith, ap (length {A = ℕ}) (take_all 8 f.data_bytes (omega arith)))

module _ (h : H9Def) (l : IsLayout h) where
  -- A frame with a header in range and eight data bytes, sent through a
  -- CAN socket, is received with its header, length and data, under the receiver's name.
  pub recv_can-can_frame :
      (name : String) (garbage : CanFrame) (f g : H9Frame)
      → HeaderInRange f
      → length f.data_bytes ≡ 8
      → recv_can h name garbage (some (some (can_frame h (2 ^ 31) f))) g
        ≡ recv_frame
            (record (with_header h f g) { origin = name; dlc = f.dlc; data_bytes = f.data_bytes })
  unfolding recv_can can_frame deserialize_can set_data_raw with_header
  recv_can-can_frame name garbage f g range eight =
      let id = can_id h f in
      let small : id < 2 ^ 29 = can_id-lt h l f in
      let flagged : bit_or id (2 ^ 31) ≡ id + 2 ^ 31 = bit_or_above 31 1 id (omega arith) in
      let all : take 8 f.data_bytes ≡ f.data_bytes = take_all 8 f.data_bytes (omega arith) in
      let header : with_value h (id + 2 ^ 31) (record g { origin = name })
          ≡ with_header h f (record g { origin = name }) =
        with_value-flag h id (record g { origin = name })
        ∙ sym (set_can_id_value h l id (record g { origin = name }))
        ∙ set_can_id-can_id h l f (record g { origin = name }) range in
      rw
        (flagged, all, set_can_id_value h l (id + 2 ^ 31) (record g { origin = name }), header, all)
        (ground arith)

  -- A datagram that one of the drivers has sent is received, whatever the memory for it held: the
  -- frame has the header, length and data of the one that was sent, under the receiver's name.
  recv_data-send_data :
      (name : String) (garbage : List ℕ) (f g : H9Frame)
      → HeaderInRange f
      → f.dlc ≤ 8
      → length f.data_bytes ≡ 8
      → length garbage ≡ 13
      → recv_data h name garbage (send_data h true f) g
        ≡ recv_frame
            (record (with_header h f g) { origin = name; dlc = f.dlc; data_bytes = f.data_bytes })
  unfolding send_data
  recv_data-send_data name garbage f g range short eight memory =
      recv_data-whole h name garbage (serialize h f) g (length-serialize h f eight) memory
      ∙ ap recv_frame (deserialize-serialize h l name f g range short eight)

-- ===== src/Frame/Serial.antt =====
-- `serialize` and `deserialize` of common/h9_frame.cc: the 13-byte form that the datagram drivers
-- and the virtual endpoint exchange.
use h9d.Prelude.{
  ℕ, ◌+◌, ◌-◌, ◌*◌, ◌/◌, ◌%◌, ◌^◌, ◌≤◌, ◌<◌, bit_and, bit_or, ◌≡◌, sym, ◌∙◌, arith, String, List,
  ◌∷◌, length, get_or, take, drop, take_all, bit_or_fields, bit_and-low_mask, u8, u16, ◌<<<◌, ◌>>>◌,
  low_mask, ltb, if◌then◌else◌,
}
use h9d.H9def.{H9Def, IsLayout}
use h9d.Frame.{H9Frame, is_unicast, max_data_length, can_id, deserialize_can}
use h9d.Frame.Identifier.{
  HeaderInRange, with_header, with_value, set_can_id_value, can_id-lt, set_can_id-can_id,
  can_id-set_can_id, can_id_rest,
}

module _ (h : H9Def) where
  unfoldable pub serialize : H9Frame → List ℕ
  serialize f =
      let id = can_id h f in
      u8 (bit_and (id >>> 24) 0xff)
      ∷ u8 (bit_and (id >>> 16) 0xff)
      ∷ u8 (bit_and (id >>> 8) 0xff)
      ∷ u8 (bit_and id 0xff)
      ∷ f.dlc
      ∷ take max_data_length f.data_bytes

  -- `deserialize` from the 13 bytes; a read outside the array would give 0.
  unfoldable pub deserialize : String → List ℕ → H9Frame → H9Frame
  deserialize origin bytes f =
      let at = λ (i : ℕ). get_or bytes i 0 in
      let typed = record f {
        origin = origin;
        type = u8 (bit_and (at 0) (low_mask h.type_bit_length));
        source_id = u8 (bit_and (at 1) (low_mask h.id_bit_length));
      } in
      let addressed =
        if is_unicast h typed
        then record typed {
          flags = u8 (bit_and (at 2 >>> (8 - h.flags_bits_length)) (low_mask h.flags_bits_length));
          destination_id =
              u8 (bit_or (at 2 <<< h.flags_bits_length) (at 3 >>> h.seqnum_bit_length));
          seqnum = u8 (bit_and (at 3) (low_mask h.seqnum_bit_length));
        }
        else record typed { group = u16 (bit_or (u16 (at 2) <<< 8) (u16 (at 3))) } in
      record addressed {
        dlc = if ltb (at 4) 8 then at 4 else 8;
        data_bytes = take max_data_length (drop 5 bytes);
      }

-- The number that four bytes in network order spell.
abbrev pub word : ℕ → ℕ → ℕ → ℕ → ℕ
word b0 b1 b2 b3 = ((b0 * 256 + b1) * 256 + b2) * 256 + b3

module _ (h : H9Def) (l : IsLayout h) where
  serialize_value :
      (f : H9Frame)
      → let id = can_id h f in
        serialize h f
        ≡ id / 2 ^ 24 % 256
          ∷ id / 2 ^ 16 % 256
          ∷ id / 2 ^ 8 % 256
          ∷ id % 256
          ∷ f.dlc
          ∷ take max_data_length f.data_bytes
  unfolding serialize
  serialize_value f = simp (bit_and-low_mask 8) (ground arith)

  deserialize_value :
      (o : String) (b0 b1 b2 b3 n : ℕ) (ds : List ℕ) (g : H9Frame)
      → b1 < 256
      → b2 < 256
      → b3 < 256
      → deserialize h o (b0 ∷ b1 ∷ b2 ∷ b3 ∷ n ∷ ds) g
        ≡ record (with_value h (word b0 b1 b2 b3) (record g { origin = o })) {
          dlc = if ltb n 8 then n else 8;
          data_bytes = take max_data_length ds;
        }
  unfolding deserialize is_unicast
  deserialize_value o b0 b1 b2 b3 n ds g s1 s2 s3 =
      simp
        (
          l.type_bits,
          l.flags_bits,
          l.seqnum_bits,
          l.id_bits,
          bit_and-low_mask 5,
          bit_and-low_mask 8,
          bit_and-low_mask 3,
          bit_or_fields 3 b2 (b3 / 32) (omega arith),
          bit_or_fields 8 (b2 % 65536) (b3 % 65536) (omega arith),
        )
        (ground arith)

  -- The two ways to read a frame agree: four bytes of identifier in network order, a length of at
  -- most eight, and the data.
  pub deserialize-eq-deserialize_can :
      (o : String) (b0 b1 b2 b3 n : ℕ) (ds : List ℕ) (g : H9Frame)
      → b1 < 256
      → b2 < 256
      → b3 < 256
      → n ≤ 8
      → deserialize h o (b0 ∷ b1 ∷ b2 ∷ b3 ∷ n ∷ ds) g
        ≡ deserialize_can h o (word b0 b1 b2 b3) n ds g
  unfolding deserialize_can
  deserialize-eq-deserialize_can o b0 b1 b2 b3 n ds g s1 s2 s3 s =
      rw (deserialize_value o b0 b1 b2 b3 n ds g s1 s2 s3, set_can_id_value h l) (ground arith)

  -- A frame with a header in range, a length of at most eight and eight data bytes survives the
  -- trip: the receiver's frame has the header, length and data of the sender's, and the origin
  -- that the receiver names.
  pub deserialize-serialize :
      (o : String) (f g : H9Frame)
      → HeaderInRange f
      → f.dlc ≤ 8
      → length f.data_bytes ≡ 8
      → deserialize h o (serialize h f) g
        ≡ record (with_header h f g) { origin = o; dlc = f.dlc; data_bytes = f.data_bytes }
  unfolding with_header
  deserialize-serialize o f g r n d =
      let id = can_id h f in
      let small : id < 2 ^ 29 = can_id-lt h l f in
      let same_word : word (id / 2 ^ 24 % 256) (id / 2 ^ 16 % 256) (id / 2 ^ 8 % 256) (id % 256)
          ≡ id =
        omega arith in
      let header : with_value h id (record g { origin = o })
          ≡ with_header h f (record g { origin = o }) =
        sym (set_can_id_value h l id (record g { origin = o }))
        ∙ set_can_id-can_id h l f (record g { origin = o }) r in
      rw
        (
          serialize_value f,
          deserialize_value o (id / 2 ^ 24 % 256) (id / 2 ^ 16 % 256) (id / 2 ^ 8 % 256) (id % 256)
              f.dlc (take max_data_length f.data_bytes) g (omega arith) (omega arith) (omega arith),
          same_word,
          header,
          take_all 8 f.data_bytes (omega arith),
          take_all 8 f.data_bytes (omega arith),
        )
        (ground arith)

  -- The other way round, 13 bytes whose first is below 32 and whose length is at most eight are
  -- serialized again as they came.
  pub serialize-deserialize :
      (o : String) (b0 b1 b2 b3 n : ℕ) (ds : List ℕ) (g : H9Frame)
      → b0 < 32
      → b1 < 256
      → b2 < 256
      → b3 < 256
      → n ≤ 8
      → length ds ≡ 8
      → serialize h (deserialize h o (b0 ∷ b1 ∷ b2 ∷ b3 ∷ n ∷ ds) g) ≡ b0 ∷ b1 ∷ b2 ∷ b3 ∷ n ∷ ds
  serialize-deserialize o b0 b1 b2 b3 n ds g s0 s1 s2 s3 s d =
      let small : word b0 b1 b2 b3 < 2 ^ 29 = omega arith in
      let kept = can_id-set_can_id h l (word b0 b1 b2 b3) (record g { origin = o }) small in
      rw
        (
          deserialize_value o b0 b1 b2 b3 n ds g s1 s2 s3,
          serialize_value,
          can_id_rest h l (with_value h (word b0 b1 b2 b3) (record g { origin = o })),
          ← set_can_id_value h l,
          kept,
          take_all 8 ds (omega arith),
          take_all 8 ds (omega arith),
        )
        (ground arith)

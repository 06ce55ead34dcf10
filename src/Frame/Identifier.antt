-- ===== src/Frame/Identifier.antt =====
-- The CAN identifier of h9_frame.cc: `can_id` and its setter, over the layout of doc/Frame.md.
use h9d.Prelude.{
  ℕ, ◌+◌, ◌*◌, ◌/◌, ◌%◌, ◌^◌, ◌<◌, bit_and, bit_or, ◌≡◌, refl, arith, String, List, bit_or_fields,
  bit_and-low_mask, zero-bit_or, low_mask, ltb, if◌then◌else◌,
}
use native.Mathlib.Nat.{mod-eq_of_lt, mod-lt, one-le-pow}
use h9d.H9def.{H9Def, IsLayout}
use h9d.Frame.{H9Frame, is_unicast, shift_in, field_at, can_id, set_can_id}

pub shift_in_sum : (k id v : ℕ) → id * 2 ^ k < 2 ^ 32 → shift_in k id v ≡ id * 2 ^ k + v % 2 ^ k
unfolding shift_in
shift_in_sum k id v small =
    rw (mod-eq_of_lt small, bit_and-low_mask k v)
      (bit_or_fields k id (v % 2 ^ k) (mod-lt v (one-le-pow k 2 (omega arith))))

pub field_at_mod : (k width id : ℕ) → field_at k width id ≡ id / 2 ^ k % 2 ^ width
unfolding field_at
field_at_mod k width id = bit_and-low_mask width (id / 2 ^ k)

-- The identifier's fields, from the highest: 5 bits of type and 8 of source, then 3, 8 and 5 bits
-- of flags, destination and seqnum, or 16 bits of group.
abbrev pub unicast_value : H9Frame → ℕ
unicast_value f =
    (((f.type % 32 * 256 + f.source_id % 256) * 8 + f.flags % 8) * 256 + f.destination_id % 256)
      * 32
    + f.seqnum % 32

abbrev pub broadcast_value : H9Frame → ℕ
broadcast_value f = (f.type % 32 * 256 + f.source_id % 256) * 65536 + f.group % 65536

typed_source : (t s : ℕ) → shift_in 8 (bit_or 0 (bit_and t (low_mask 5))) s ≡ t % 32 * 256 + s % 256
typed_source t s = rw (zero-bit_or, bit_and-low_mask 5 t) (shift_in_sum 8 (t % 32) s (omega arith))

-- The unicast tail and the broadcast tail after 13 bits.
addressed :
    (t s f d q : ℕ)
    → shift_in 5 (shift_in 8 (shift_in 3 (t % 32 * 256 + s % 256) f) d) q
      ≡ (((t % 32 * 256 + s % 256) * 8 + f % 8) * 256 + d % 256) * 32 + q % 32
addressed t s f d q =
    rw
      (
        shift_in_sum 3 (t % 32 * 256 + s % 256) f (omega arith),
        shift_in_sum 8 ((t % 32 * 256 + s % 256) * 8 + f % 8) d (omega arith),
      )
      (shift_in_sum 5 (((t % 32 * 256 + s % 256) * 8 + f % 8) * 256 + d % 256) q (omega arith))

grouped :
    (t s g : ℕ)
    → shift_in 16 (t % 32 * 256 + s % 256) g ≡ (t % 32 * 256 + s % 256) * 65536 + g % 65536
grouped t s g = shift_in_sum 16 (t % 32 * 256 + s % 256) g (omega arith)

-- The header fits its fields.
pub record HeaderInRange (f : H9Frame) : Type 0 where
  pub type_fits : f.type < 32
  pub source_fits : f.source_id < 256
  pub flags_fit : f.flags < 8
  pub destination_fits : f.destination_id < 256
  pub seqnum_fits : f.seqnum < 32
  pub group_fits : f.group < 65536

-- `g` with the header that a frame of the kind of `f` carries.
unfoldable pub with_header : H9Def → H9Frame → H9Frame → H9Frame
with_header h f g =
    if ltb f.type h.discover
    then record g {
      type = f.type;
      source_id = f.source_id;
      flags = f.flags;
      destination_id = f.destination_id;
      seqnum = f.seqnum;
    }
    else record g { type = f.type; source_id = f.source_id; group = f.group }

-- What the setter of the identifier stores, as arithmetic.
abbrev pub with_value : H9Def → ℕ → H9Frame → H9Frame
with_value h id f =
    if ltb (id / 2 ^ 24 % 32) h.discover
    then record f {
      type = id / 2 ^ 24 % 32;
      source_id = id / 2 ^ 16 % 256;
      flags = id / 2 ^ 13 % 8;
      destination_id = id / 2 ^ 5 % 256;
      seqnum = id % 32;
    }
    else record f { type = id / 2 ^ 24 % 32; source_id = id / 2 ^ 16 % 256; group = id % 65536 }

module _ (h : H9Def) (l : IsLayout h) where
  pub can_id_value :
      (f : H9Frame) → can_id h f ≡ (if is_unicast h f then unicast_value f else broadcast_value f)
  unfolding can_id
  can_id_value f = simp (
    l.type_bits, l.flags_bits, l.seqnum_bits, l.id_bits, l.group_bits, typed_source, addressed,
    grouped,
  )

  pub set_can_id_value : (id : ℕ) (f : H9Frame) → set_can_id h id f ≡ with_value h id f
  unfolding set_can_id is_unicast
  set_can_id_value id f =
      simp
        (
          l.type_bits,
          l.flags_bits,
          l.seqnum_bits,
          l.id_bits,
          l.group_bits,
          field_at_mod,
          bit_and-low_mask 16,
        )
        (ground arith)

  -- For any 29-bit number and any frame, reading the identifier after setting it gives it back,
  -- whichever kind of frame its type makes it.
  pub can_id-set_can_id : (id : ℕ) (f : H9Frame) → id < 2 ^ 29 → can_id h (set_can_id h id f) ≡ id
  unfolding is_unicast
  can_id-set_can_id id f small =
      rw (can_id_value (set_can_id h id f), set_can_id_value id f) (ground arith)

  -- For a header in range, setting its identifier on any other frame copies the header: type,
  -- source, and then flags, destination and seqnum if it is unicast, or the group if it is not.
  pub set_can_id-can_id :
      (f g : H9Frame) → HeaderInRange f → set_can_id h (can_id h f) g ≡ with_header h f g
  unfolding is_unicast with_header
  set_can_id-can_id f g r = rw (set_can_id_value (can_id h f) g, can_id_value f) (ground arith)

  -- The identifier always fits the 29 bits of a CAN 2.0B identifier.
  pub can_id-lt : (f : H9Frame) → can_id h f < 2 ^ 29
  can_id-lt f = rw (can_id_value f) (ground arith)

  -- The identifier is made of the header alone.
  pub can_id_rest :
      (f : H9Frame) (o : String) (n : ℕ) (ds : List ℕ)
      → can_id h (record f { origin = o; dlc = n; data_bytes = ds }) ≡ can_id h f
  unfolding can_id is_unicast
  can_id_rest f o n ds = refl

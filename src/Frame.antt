-- ===== src/Frame.antt =====
-- common/h9_frame.h and common/h9_frame.cc: the frame, its constructors and setters, and the
-- 29-bit CAN identifier. The creation time is left out: no function of the frame reads it.
pub mod Identifier
pub mod Serial
pub mod Names
pub mod Json
use h9d.Prelude.{
  ℕ, ◌+◌, bit_and, bit_or, String, Bool, List, Option, none, some, length, take, overwrite, u8, u16,
  u32, ◌<<<◌, ◌>>>◌, low_mask, ltb, leb, if◌then◌else◌,
}
use h9d.H9def.{H9Def}

-- `data_bytes` is the array `_data`, of `max_data_length` bytes.
pub record H9Frame : Type 0 where
  pub origin : String
  pub type : ℕ
  pub source_id : ℕ
  pub flags : ℕ
  pub destination_id : ℕ
  pub seqnum : ℕ
  pub group : ℕ
  pub dlc : ℕ
  pub data_bytes : List ℕ

abbrev pub max_data_length : ℕ
max_data_length = 8

abbrev pub serialization_length : ℕ
serialization_length = 4 + 1 + max_data_length

-- `data(const std::vector<std::uint8_t>&)`: at most eight bytes are stored, and `_dlc` counts them.
unfoldable pub set_data : List ℕ → H9Frame → H9Frame
set_data v f =
    let stored = take max_data_length v in
    record f { data_bytes = overwrite stored f.data_bytes; dlc = u8 (length stored) }

-- `data(const std::uint8_t[MAX_DATA_LENGTH])`: all eight bytes, and `_dlc` stays.
unfoldable pub set_data_raw : List ℕ → H9Frame → H9Frame
set_data_raw v f = record f { data_bytes = take max_data_length v }

-- `id <<= k; id |= v & ((1 << k) - 1);`
unfoldable pub shift_in : ℕ → ℕ → ℕ → ℕ
shift_in k id v = bit_or (u32 (id <<< k)) (bit_and v (low_mask k))

-- `(can_id >> k) & ((1 << width) - 1)`.
unfoldable pub field_at : ℕ → ℕ → ℕ → ℕ
field_at k width id = bit_and (id >>> k) (low_mask width)

module _ (h : H9Def) where
  abbrev pub type_max_value : ℕ
  type_max_value = low_mask h.type_bit_length

  abbrev pub seqnum_max_value : ℕ
  seqnum_max_value = low_mask h.seqnum_bit_length

  abbrev pub id_max_value : ℕ
  id_max_value = low_mask h.id_bit_length

  unfoldable pub is_unicast : H9Frame → Bool
  is_unicast f = ltb f.type h.discover

  unfoldable pub is_broadcast : H9Frame → Bool
  is_broadcast f = leb h.discover f.type

  unfoldable pub can_id : H9Frame → ℕ
  can_id f =
      let typed = bit_or 0 (bit_and f.type (low_mask h.type_bit_length)) in
      let id = shift_in h.id_bit_length typed f.source_id in
      if is_unicast f
      then shift_in h.seqnum_bit_length
          (shift_in h.id_bit_length (shift_in h.flags_bits_length id f.flags) f.destination_id)
          f.seqnum
      else shift_in h.broadcast_group_bit_length id f.group

  -- The setter `can_id`: the fields of the other kind of frame keep their values.
  unfoldable pub set_can_id : ℕ → H9Frame → H9Frame
  set_can_id id f =
      let typed = record f {
        type = u8 (
            field_at (h.id_bit_length + h.flags_bits_length + h.id_bit_length + h.seqnum_bit_length)
              h.type_bit_length id);
        source_id = u8 (
            field_at (h.flags_bits_length + h.id_bit_length + h.seqnum_bit_length) h.id_bit_length
              id);
      } in
      if is_unicast typed
      then record typed {
        flags = u8 (field_at (h.id_bit_length + h.seqnum_bit_length) h.flags_bits_length id);
        destination_id = u8 (field_at h.seqnum_bit_length h.id_bit_length id);
        seqnum = u8 (field_at 0 h.seqnum_bit_length id);
      }
      else record typed { group = u16 (bit_and id (low_mask h.broadcast_group_bit_length)) }

  -- `deserialize` from a CAN identifier, a length and the data.
  unfoldable pub deserialize_can : String → ℕ → ℕ → List ℕ → H9Frame → H9Frame
  unfolding set_data_raw
  deserialize_can origin id dlc bytes f =
      record (set_data_raw bytes (set_can_id id (record f { origin = origin }))) { dlc = dlc }

  -- The constructor of a unicast frame, on memory that holds `garbage`: source and seqnum are left
  -- as they were. `none` is the failed `assert`.
  unfoldable pub unicast_frame : String → ℕ → ℕ → ℕ → List ℕ → H9Frame → Option H9Frame
  unfolding set_data
  unicast_frame origin type flags dst bytes garbage =
      let f =
        set_data bytes
          (record garbage { origin = origin; type = type; flags = flags; destination_id = dst }) in
      if ltb type h.discover then some f else none

  -- The constructor of a broadcast frame.
  unfoldable pub broadcast_frame : String → ℕ → ℕ → List ℕ → H9Frame → Option H9Frame
  unfolding set_data
  broadcast_frame origin type broadcast_group bytes garbage =
      let f =
        set_data bytes (record garbage { origin = origin; type = type; group = broadcast_group }) in
      if leb h.discover type then some f else none

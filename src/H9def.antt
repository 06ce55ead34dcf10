-- ===== src/H9def.antt =====
-- The constants of h9def.h. The header belongs to the submodule h9can, which is not part of this
-- repository, so its constants are a parameter; doc/Frame.md is what the repository says of them.
use h9d.Prelude.{ℕ, ◌≡◌, arith}

-- The macros `H9FRAME_...` that the modelled code reads.
pub record H9Def : Type 0 where
  pub type_bit_length : ℕ
  pub flags_bits_length : ℕ
  pub seqnum_bit_length : ℕ
  pub id_bit_length : ℕ
  pub broadcast_group_bit_length : ℕ
  pub broadcast_all_group : ℕ
  pub res1 : ℕ
  pub page_start : ℕ
  pub quit_bootloader : ℕ
  pub page_fill : ℕ
  pub bootloader_turned_on : ℕ
  pub page_fill_next : ℕ
  pub page_writed : ℕ
  pub page_fill_break : ℕ
  pub command_error : ℕ
  pub reg_value : ℕ
  pub set_reg : ℕ
  pub get_reg : ℕ
  pub set_bit : ℕ
  pub clear_bit : ℕ
  pub node_upgrade : ℕ
  pub node_reset : ℕ
  pub discover : ℕ
  pub group_reset : ℕ
  pub node_fault : ℕ
  pub reg_value_broadcast : ℕ
  pub node_heartbeat : ℕ
  pub node_info : ℕ
  pub node_turned_on : ℕ
  pub res2 : ℕ
  pub node_specific_broadcast0 : ℕ
  pub node_specific_broadcast1 : ℕ
  pub node_specific_broadcast2 : ℕ
  pub node_specific_broadcast3 : ℕ
  pub node_specific_broadcast4 : ℕ
  pub node_specific_broadcast5 : ℕ
  pub node_specific_broadcast6 : ℕ
  pub node_specific_broadcast7 : ℕ
  pub singe_frame : ℕ

-- The widths of the identifier's fields, as doc/Frame.md gives them.
pub record IsLayout (h : H9Def) : Type 0 where
  pub type_bits : h.type_bit_length ≡ 5
  pub flags_bits : h.flags_bits_length ≡ 3
  pub seqnum_bits : h.seqnum_bit_length ≡ 5
  pub id_bits : h.id_bit_length ≡ 8
  pub group_bits : h.broadcast_group_bit_length ≡ 16

-- The numbers of the types, as the table of doc/Frame.md gives them.
pub record IsTypeTable (h : H9Def) : Type 0 where
  pub at0 : h.res1 ≡ 0
  pub at1 : h.page_start ≡ 1
  pub at2 : h.quit_bootloader ≡ 2
  pub at3 : h.page_fill ≡ 3
  pub at4 : h.res2 ≡ 4
  pub at5 : h.page_fill_next ≡ 5
  pub at6 : h.page_writed ≡ 6
  pub at7 : h.page_fill_break ≡ 7
  pub at8 : h.command_error ≡ 8
  pub at9 : h.reg_value ≡ 9
  pub at10 : h.set_reg ≡ 10
  pub at11 : h.get_reg ≡ 11
  pub at12 : h.set_bit ≡ 12
  pub at13 : h.clear_bit ≡ 13
  pub at14 : h.node_upgrade ≡ 14
  pub at15 : h.node_reset ≡ 15
  pub at16 : h.discover ≡ 16
  pub at17 : h.group_reset ≡ 17
  pub at18 : h.node_fault ≡ 18
  pub at19 : h.reg_value_broadcast ≡ 19
  pub at20 : h.node_heartbeat ≡ 20
  pub at21 : h.node_info ≡ 21
  pub at22 : h.node_turned_on ≡ 22
  pub at23 : h.bootloader_turned_on ≡ 23
  pub at24 : h.node_specific_broadcast0 ≡ 24
  pub at25 : h.node_specific_broadcast1 ≡ 25
  pub at26 : h.node_specific_broadcast2 ≡ 26
  pub at27 : h.node_specific_broadcast3 ≡ 27
  pub at28 : h.node_specific_broadcast4 ≡ 28
  pub at29 : h.node_specific_broadcast5 ≡ 29
  pub at30 : h.node_specific_broadcast6 ≡ 30
  pub at31 : h.node_specific_broadcast7 ≡ 31

-- The constants of doc/Frame.md, an instance of the parameter for tests and witnesses.
abbrev pub frame_md : H9Def
frame_md = record {
  type_bit_length = 5;
  flags_bits_length = 3;
  seqnum_bit_length = 5;
  id_bit_length = 8;
  broadcast_group_bit_length = 16;
  broadcast_all_group = 0xffff;
  res1 = 0;
  page_start = 1;
  quit_bootloader = 2;
  page_fill = 3;
  res2 = 4;
  page_fill_next = 5;
  page_writed = 6;
  page_fill_break = 7;
  command_error = 8;
  reg_value = 9;
  set_reg = 10;
  get_reg = 11;
  set_bit = 12;
  clear_bit = 13;
  node_upgrade = 14;
  node_reset = 15;
  discover = 16;
  group_reset = 17;
  node_fault = 18;
  reg_value_broadcast = 19;
  node_heartbeat = 20;
  node_info = 21;
  node_turned_on = 22;
  bootloader_turned_on = 23;
  node_specific_broadcast0 = 24;
  node_specific_broadcast1 = 25;
  node_specific_broadcast2 = 26;
  node_specific_broadcast3 = 27;
  node_specific_broadcast4 = 28;
  node_specific_broadcast5 = 29;
  node_specific_broadcast6 = 30;
  node_specific_broadcast7 = 31;
  singe_frame = 0;
}

pub frame_md-IsLayout : IsLayout frame_md
frame_md-IsLayout = omega arith

pub frame_md-IsTypeTable : IsTypeTable frame_md
frame_md-IsTypeTable = omega arith

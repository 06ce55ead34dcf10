-- ===== src/Frame/Names.antt =====
-- The names of the frame types (`type_to_string` of common/h9_frame.cc).
use h9d.Prelude.{ℕ, ◌<◌, arith, ◌≢◌, Option, some, none, String, ◌==◌, if◌then◌else◌}
use h9d.H9def.{H9Def, IsTypeTable}

-- `none` is the null pointer.
unfoldable pub type_to_string : H9Def → ℕ → Option String
type_to_string h t =
    if t == h.res1
    then some "RES1"
    else if t == h.page_start
    then some "PAGE_START"
    else if t == h.quit_bootloader
    then some "QUIT_BOOTLOADER"
    else if t == h.page_fill
    then some "PAGE_FILL"
    else if t == h.bootloader_turned_on
    then some "BOOTLOADER_TURNED_ON"
    else if t == h.page_fill_next
    then some "PAGE_FILL_NEXT"
    else if t == h.page_writed
    then some "PAGE_WRITED"
    else if t == h.page_fill_break
    then some "PAGE_FILL_BREAK"
    else if t == h.command_error
    then some "COMMAND_ERROR"
    else if t == h.reg_value
    then some "REG_VALUE"
    else if t == h.set_reg
    then some "SET_REG"
    else if t == h.get_reg
    then some "GET_REG"
    else if t == h.set_bit
    then some "SET_BIT"
    else if t == h.clear_bit
    then some "CLEAR_BIT"
    else if t == h.node_upgrade
    then some "NODE_UPGRADE"
    else if t == h.node_reset
    then some "NODE_RESET"
    else if t == h.discover
    then some "DISCOVER"
    else if t == h.group_reset
    then some "GROUP_RESET"
    else if t == h.node_fault
    then some "NODE_FAULT"
    else if t == h.reg_value_broadcast
    then some "REG_VALUE_BROADCAST"
    else if t == h.node_heartbeat
    then some "NODE_HEARTBEAT"
    else if t == h.node_info
    then some "NODE_INFO"
    else if t == h.node_turned_on
    then some "NODE_TURNED_ON"
    else if t == h.res2
    then some "RES2"
    else if t == h.node_specific_broadcast0
    then some "NODE_SPECIFIC_BROADCAST0"
    else if t == h.node_specific_broadcast1
    then some "NODE_SPECIFIC_BROADCAST1"
    else if t == h.node_specific_broadcast2
    then some "NODE_SPECIFIC_BROADCAST2"
    else if t == h.node_specific_broadcast3
    then some "NODE_SPECIFIC_BROADCAST3"
    else if t == h.node_specific_broadcast4
    then some "NODE_SPECIFIC_BROADCAST4"
    else if t == h.node_specific_broadcast5
    then some "NODE_SPECIFIC_BROADCAST5"
    else if t == h.node_specific_broadcast6
    then some "NODE_SPECIFIC_BROADCAST6"
    else if t == h.node_specific_broadcast7
    then some "NODE_SPECIFIC_BROADCAST7"
    else none

-- With the types numbered as doc/Frame.md has them, every number of five bits has a name: the bus,
-- which makes a string of each of them when it starts, never gets the null pointer.
pub type_to_string-named : (h : H9Def) (t : ℕ) → IsTypeTable h → t < 32 → type_to_string h t ≢ none
unfolding type_to_string
type_to_string-named h t l small e = absurd (
    ground (
      arith, l.at0, l.at1, l.at2, l.at3, l.at4, l.at5, l.at6, l.at7, l.at8, l.at9, l.at10, l.at11,
      l.at12, l.at13, l.at14, l.at15, l.at16, l.at17, l.at18, l.at19, l.at20, l.at21, l.at22,
      l.at23, l.at24, l.at25, l.at26, l.at27, l.at28, l.at29, l.at30, l.at31,
    ))

-- ===== src/AntennaSwitch.antt =====
-- devs/antenna_switch_dev.h and antenna_switch_dev.cc: the device of an antenna switch, and what it
-- tells its observers. The antennas' names, which nothing sets, are left out. A `none` is the
-- `std::bad_variant_access` of a value that is no integer, which nothing catches.
pub mod Trace
use h9d.Prelude.{
  ℕ, ◌-◌, ◌%◌, Bool, ◌&&◌, List, [], ◌∷◌, ◌++◌, Option, some, none, ◌>>=◌, ℤ, pos, negsuc, ◌==◌,
  if◌then◌else◌,
}
use h9d.Node.Exceptions.{RegValue, text_value, integer_value, float_value, bytes_value}

pub record AntennaSwitchDev : Type 0 where
  pub switch_node_id : ℕ
  pub controller_node_id : ℕ
  pub selected_antenna : ℕ
  pub number_of_antenna : ℕ

unfoldable pub new_antenna_switch : AntennaSwitchDev
new_antenna_switch = record {
  switch_node_id = 0xffff;
  controller_node_id = 0xffff;
  selected_antenna = 0;
  number_of_antenna = 0;
}

abbrev pub antenna_switch_node_type : ℕ
antenna_switch_node_type = 5

abbrev pub antenna_controller_node_type : ℕ
antenna_controller_node_type = 3

abbrev pub antenna_select_reg : ℕ
antenna_select_reg = 10

-- What `get_dev_state` gives.
pub record DevState : Type 0 where
  pub selected_antenna : ℕ
  pub number_of_antenna : ℕ

unfoldable pub get_dev_state : AntennaSwitchDev → DevState
get_dev_state s = record {
  selected_antenna = s.selected_antenna;
  number_of_antenna = s.number_of_antenna;
}

unfoldable pub on_dev_info : ℕ → ℕ → AntennaSwitchDev → AntennaSwitchDev
on_dev_info node_id type s =
    if type == antenna_switch_node_type
    then record s { switch_node_id = node_id }
    else if type == antenna_controller_node_type
    then record s { controller_node_id = node_id }
    else s

-- An integer as a byte.
unfoldable pub byte_of : ℤ → ℕ
byte_of (pos v) = v % 256
byte_of (negsuc v) = 255 - v % 256

-- `std::get<std::int64_t>`.
unfoldable pub get_integer : RegValue → Option ℤ
get_integer (text_value t) = none
get_integer (integer_value v) = some v
get_integer (float_value v) = none
get_integer (bytes_value bs) = none

-- The states that are emitted, too.
unfoldable pub on_dev_register_value :
    ℕ → ℕ → RegValue → AntennaSwitchDev → Option (AntennaSwitchDev × List DevState)
on_dev_register_value node_id reg value s =
    let selected = do
      v ← get_integer value
      let t = record s { selected_antenna = byte_of v }
      some (if byte_of v == s.selected_antenna then (s, []) else (t, get_dev_state t ∷ []))
    in if node_id == s.switch_node_id && reg == antenna_select_reg then selected else some (s, [])

-- What a node tells the device: what it is, or the value of a register.
pub data Report : Type 0 where
  info_report : ℕ → ℕ → Report
  value_report : ℕ → ℕ → RegValue → Report

unfoldable pub update : Report → AntennaSwitchDev → Option (AntennaSwitchDev × List DevState)
update (info_report node_id type) s = some (on_dev_info node_id type s, [])
update (value_report node_id reg value) s = on_dev_register_value node_id reg value s

unfoldable pub updates : List Report → AntennaSwitchDev → Option (AntennaSwitchDev × List DevState)
updates [] s = some (s, [])
updates (r ∷ rs) s = do
  first ← update r s
  rest ← updates rs (first.0)
  some (rest.0, first.1 ++ rest.1)

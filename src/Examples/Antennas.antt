-- ===== src/Examples/Antennas.antt =====
-- devs/antenna_switch_dev.cc: the node 3 is a switch, and selects two antennas.
use h9d.Prelude.{◌≡◌, refl, List, [], ◌∷◌, some, pos}
use h9d.Node.Exceptions.{integer_value}
use h9d.AntennaSwitch.{
  AntennaSwitchDev, DevState, Report, info_report, value_report, new_antenna_switch, updates,
}
use h9d.AntennaSwitch.Trace.{IsTrace, updates-IsTrace}

abbrev reports : List Report
reports =
    info_report 3 5
    ∷ value_report 3 10 (integer_value (pos 2))
    ∷ value_report 3 10 (integer_value (pos 2))
    ∷ value_report 3 10 (integer_value (pos 4))
    ∷ []

updates-IsTrace_example :
    (t : AntennaSwitchDev) × (out : List DevState) × (updates reports new_antenna_switch
      ≡ some (t, out))
    × IsTrace 0 out t.selected_antenna
unfolding new_antenna_switch
updates-IsTrace_example =
    updates-IsTrace reports new_antenna_switch ((pos 2, refl), ((pos 2, refl), ((pos 4, refl), tt)))

-- ===== src/AntennaSwitch/Trace.antt =====
-- The states that devs/antenna_switch_dev.cc tells its observers.
use h9d.Prelude.{
  ℕ, ◌≡◌, ◌≢◌, refl, arith, Bool-cases, inl, inr, ◌&&◌, List, [], ◌∷◌, ◌++◌, Option, some, ℤ, ◌==◌,
  sym, subst,
}
use h9d.Node.Exceptions.{integer_value}
use h9d.AntennaSwitch.{
  AntennaSwitchDev, DevState, Report, info_report, value_report, get_dev_state, on_dev_info,
  byte_of, get_integer, on_dev_register_value, update, updates, antenna_select_reg,
}

-- Each state tells of another antenna than that before it, and the last of the one selected.
abbrev pub IsTrace : ℕ → List DevState → ℕ → Type 0
IsTrace a [] b = a ≡ b
IsTrace a (d ∷ ds) b = (a ≢ d.selected_antenna) × IsTrace d.selected_antenna ds b

-- The values of registers are integers.
abbrev pub AllIntegers : List Report → Type 0
AllIntegers [] = Unit {0}
AllIntegers (info_report node_id type ∷ rs) = AllIntegers rs
AllIntegers (value_report node_id reg value ∷ rs) =
    ((v : ℤ) × (value ≡ integer_value v)) × AllIntegers rs

abbrev IsTraced : ℕ → Option (AntennaSwitchDev × List DevState) → Type 0
IsTraced a r =
    (t : AntennaSwitchDev) × (out : List DevState) × (r ≡ some (t, out))
    × IsTrace a out t.selected_antenna

IsTrace-append :
    (a b c : ℕ) (ds es : List DevState) → IsTrace a ds b → IsTrace b es c → IsTrace a (ds ++ es) c
IsTrace-append a b c [] es first rest = subst (λ (x : ℕ). IsTrace x es c) (sym first) rest
IsTrace-append a b c (d ∷ ds) es (differs, first) rest =
    (differs, IsTrace-append d.selected_antenna b c ds es first rest)

on_dev_info-selected :
    (node_id type : ℕ) (s : AntennaSwitchDev)
    → s.selected_antenna ≡ (on_dev_info node_id type s).selected_antenna
unfolding on_dev_info
on_dev_info-selected node_id type s = ground arith

register-IsTraced :
    (node_id reg : ℕ) (v : ℤ) (s : AntennaSwitchDev)
    → IsTraced s.selected_antenna (on_dev_register_value node_id reg (integer_value v) s)
unfolding on_dev_register_value get_integer get_dev_state
register-IsTraced node_id reg v s =
    elim (Bool-cases (node_id == s.switch_node_id && reg == antenna_select_reg)) [
      | inl ours ↦ elim (Bool-cases (byte_of v == s.selected_antenna)) [
        | inl same ↦ (s, [], rw (ours, same) refl, refl)
        | inr other ↦
            let t = record s { selected_antenna = byte_of v } in
            (t, get_dev_state t ∷ [], simp (ours, other) refl, ((λ e. ground arith), refl))
      ]
      | inr theirs ↦ (s, [], rw theirs refl, refl)
    ]

-- Whatever the nodes report, one report being taken after the other, and the values of registers being
-- integers, the device takes it without an exception; the states that it emits tell each of another antenna than the one before, the first of
-- another than that selected at the beginning, and the last of the one that is selected at the end.
pub updates-IsTrace :
    (rs : List Report) (s : AntennaSwitchDev)
    → AllIntegers rs
    → (t : AntennaSwitchDev) × (out : List DevState) × (updates rs s ≡ some (t, out))
      × IsTrace s.selected_antenna out t.selected_antenna
unfolding updates update
updates-IsTrace [] s ints = (s, [], refl, refl)
updates-IsTrace (info_report node_id type ∷ rs) s ints =
    let (t, out, done, traced) = updates-IsTrace rs (on_dev_info node_id type s) ints in
    (
      t,
      out,
      rw done refl,
      subst (λ (x : ℕ). IsTrace x out t.selected_antenna)
          (sym (on_dev_info-selected node_id type s)) traced,
    )
updates-IsTrace (value_report node_id reg value ∷ rs) s ((v, int), ints) =
    let (u, first, done, traced) = register-IsTraced node_id reg v s in
    let (t, out, more, traced') = updates-IsTrace rs u ints in
    (t, first ++ out, rw (int, done, more) refl, IsTrace-append _ _ _ first out traced traced')

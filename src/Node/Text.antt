-- ===== src/Node/Text.antt =====
-- The text registers of `get_register` in h9d/node.cc.
use h9d.Prelude.{
  ℕ, ◌+◌, ◌-◌, ◌≤◌, ◌<◌, ◌≡◌, sym, refl, arith, Bool-cases, inl, inr, true, List, [], ◌∷◌, ◌++◌,
  none, some, leb, if◌then◌else◌, take, drop, length, set, set?_in_bounds, set?_out_of_bounds,
  length-take, length-drop, length-overwrite, overwrite,
}
use h9d.H9def.{H9Def}
use h9d.Frame.{H9Frame, unicast_frame}
use h9d.RawNode.Request.{Memory, Traffic, at_most, get_reg}
use h9d.RawNode.Replies.{IsWellFormed, AllWellFormed, register_outcome, first_reply, get_reg_lem}
use h9d.Node.Registers.{RegisterDesc, Node, lookup, same_string}
use h9d.Node.Access.{byte_size, get_register, get_readable, terminated, until_nul}
use h9d.Node.Exceptions.{text_value, returned}

until_nul-set :
    (xs ys : List ℕ)
    → length xs < length ys
    → until_nul (set (overwrite xs ys) (length xs) 0) ≡ until_nul xs
until_nul-set [] [] short = absurd (omega arith)
until_nul-set [] (y ∷ ys) short = refl
until_nul-set (x ∷ xs) [] short = absurd (omega arith)
until_nul-set (x ∷ xs) (y ∷ ys) short = ground (arith, until_nul-set xs ys (omega arith))

module _ (h : H9Def) where
  terminated_lem :
      (size : ℕ) (buf : List ℕ) (f : H9Frame)
      → length buf ≡ size + 1
      → IsWellFormed f
      → f.type ≡ h.reg_value
      → 1 < f.dlc
      → terminated (register_outcome h size buf (some f)) ≡ (
          if leb (f.dlc - 1) size
          then some (returned (text_value (until_nul (take (f.dlc - 1) (drop 1 f.data_bytes)))))
          else none)
  unfolding terminated register_outcome
  terminated_lem size buf f room w typed long =
      let out = overwrite (take (at_most size (f.dlc - 1)) (drop 1 f.data_bytes)) buf in
      elim (Bool-cases (leb (f.dlc - 1) size)) [
        | inl fits ↦
            let text = take (f.dlc - 1) (drop 1 f.data_bytes) in
            ground (
              arith,
              typed,
              fits,
              set?_in_bounds out (f.dlc - 1) 0,
              length-overwrite (take (at_most size (f.dlc - 1)) (drop 1 f.data_bytes)) buf,
              length-take (f.dlc - 1) (drop 1 f.data_bytes),
              length-drop 1 f.data_bytes,
              until_nul-set text buf,
            )
        | inr longer ↦ ground (
          arith,
          typed,
          longer,
          set?_out_of_bounds out (f.dlc - 1) 0,
          length-overwrite (take (at_most size (f.dlc - 1)) (drop 1 f.data_bytes)) buf,
        )
      ]

  -- A readable text register, answered by a value frame: the text is the frame's bytes before the
  -- first NUL if they fit the register, and if there are more bytes than the register has, the
  -- terminator is written out of the buffer's bounds.
  pub get_register-text :
      (m : Memory) (bus : H9Frame → Traffic) (node reg : ℕ) (garbage : List ℕ) (req f : H9Frame)
      (n : Node) (d : RegisterDesc)
      → unicast_frame h "h9d" h.get_reg h.singe_frame node (reg ∷ []) m.frame ≡ some req
      → byte_size d + 1 ≤ length garbage
      → AllWellFormed ((bus req).early ++ (bus req).late)
      → IsWellFormed f
      → first_reply h m.group node reg (bus req) ≡ some f
      → f.type ≡ h.reg_value
      → 1 < f.dlc
      → lookup reg n.register_map ≡ some d
      → d.readable ≡ true
      → same_string d.type "str" ≡ true
      → get_register h m bus node garbage n reg ≡ (
          if leb (f.dlc - 1) (byte_size d)
          then some (returned (text_value (until_nul (take (f.dlc - 1) (drop 1 f.data_bytes)))))
          else none)
  unfolding get_register get_readable
  get_register-text m bus node reg garbage req f n d sent room w wf answered typed long found
        readable text =
      let buf = take (byte_size d + 1) garbage in
      let asked : get_reg h m bus "h9d" node reg (byte_size d) buf
          ≡ some (register_outcome h (byte_size d) buf (some f)) =
        rw (sym answered) (
          get_reg_lem h m bus "h9d" node reg (byte_size d) buf req sent
            (omega (arith, length-take (byte_size d + 1) garbage)) w) in
      let ended =
        terminated_lem (byte_size d) buf f (omega (arith, length-take (byte_size d + 1) garbage)) wf
          typed long in
      ground (arith, found, readable, text, asked, ended)

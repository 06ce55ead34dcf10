-- ===== src/Node/Values.antt =====
-- The values that `get_register` of h9d/node.cc returns, against those that
-- `get_reg_value_from_frame` reads from the frame that answers.
use h9d.Prelude.{
  ℕ, ◌-◌, ◌≤◌, ◌<◌, ◌≡◌, sym, arith, Bool-cases, inl, inr, true, false, not, List, [], ◌∷◌, ◌++◌,
  some, pos, ◌==◌, leb, if◌then◌else◌, take, drop, length, get_or, length-take, length-drop,
  overwrite, overwrite_all,
}
use h9d.H9def.{H9Def}
use h9d.Frame.{H9Frame, unicast_frame}
use h9d.RawNode.Request.{
  of_network, Memory, Traffic, at_most, get_reg, get_reg_u8, get_reg_u16, get_reg_u32,
}
use h9d.RawNode.Replies.{IsWellFormed, AllWellFormed, register_outcome, first_reply, get_reg_lem}
use h9d.Node.Registers.{RegisterDesc, Node, lookup, same_string}
use h9d.Node.Access.{checked, get_register, get_readable}
use h9d.Node.Broadcast.{register_value, sized, value_of, value_found, get_reg_value_from_frame}
use h9d.Node.Exceptions.{
  Outcome, RegValue, integer_value, returned, thrown, size_mismatch_exception,
}

module _ (h : H9Def) where
  -- The integer that a reply of the right size leaves in a variable of that size.
  checked_reply :
      (size : ℕ) (value : ℕ → RegValue) (garbage : List ℕ) (f : H9Frame)
      → size ≤ length garbage
      → size ≤ 7
      → IsWellFormed f
      → f.type ≡ h.reg_value
      → 1 < f.dlc
      → let r = register_outcome h size (take size garbage) (some f) in
        checked size value (r.0, of_network (r.1)) ≡ (
          if not (f.dlc - 1 == size)
          then thrown size_mismatch_exception
          else returned (value (of_network (take size (drop 1 f.data_bytes)))))
  unfolding checked register_outcome
  checked_reply size value garbage f fits short w typed long =
      let bytes = take size (drop 1 f.data_bytes) in
      let buf = take size garbage in
      elim (Bool-cases (f.dlc - 1 == size)) [
        | inl fit ↦
            let exact : f.dlc - 1 ≡ size = ground arith in
            let filled : overwrite (take (at_most size (f.dlc - 1)) (drop 1 f.data_bytes)) buf
                ≡ bytes =
              ground (
                arith,
                exact,
                length-take size (drop 1 f.data_bytes),
                length-drop 1 f.data_bytes,
                length-take size garbage,
                overwrite_all bytes buf,
              ) in
            ground (arith, fit, exact, filled)
        | inr other ↦ ground (arith, other)
      ]

  -- The traffic of a request that is answered by the frame `f`, a value of two bytes or more.
  module _ (m : Memory) (bus : H9Frame → Traffic) (node reg : ℕ) (garbage : List ℕ)
      (req f : H9Frame)
      (sent : unicast_frame h "h9d" h.get_reg h.singe_frame node (reg ∷ []) m.frame ≡ some req)
      (room : 4 ≤ length garbage) (w : AllWellFormed ((bus req).early ++ (bus req).late))
      (wf : IsWellFormed f) (answered : first_reply h m.group node reg (bus req) ≡ some f)
      (typed : f.type ≡ h.reg_value) (long : 1 < f.dlc) where
    reply_lem :
        (size : ℕ)
        → size ≤ 4
        → get_reg h m bus "h9d" node reg size (take size garbage)
          ≡ some (register_outcome h size (take size garbage) (some f))
    reply_lem size small = rw (sym answered) (
        get_reg_lem h m bus "h9d" node reg size (take size garbage) req sent
          (omega (arith, length-take size garbage)) w)

    get_readable-value_of :
        (d : RegisterDesc)
        → same_string d.type "str" ≡ false
        → d.size < 32
        → (o : Outcome) × (get_readable h m bus node garbage reg d ≡ some o)
          × (value_of d f ≡ some o)
    unfolding get_readable get_reg_u8 get_reg_u16 get_reg_u32 value_of sized
    get_readable-value_of d number small =
        let answer = λ (v : ℕ). integer_value (pos v) in
        elim (Bool-cases (leb d.size 8)) [
          | inl byte ↦ (
            sized 1 f,
            ground (
              arith,
              number,
              byte,
              reply_lem 1 (omega arith),
              checked_reply 1 answer garbage f (omega arith) (omega arith) wf typed long,
            ),
            ground (arith, number, byte),
          )
          | inr wider ↦ elim (Bool-cases (leb d.size 16)) [
            | inl word ↦ (
              sized 2 f,
              ground (
                arith,
                number,
                wider,
                word,
                reply_lem 2 (omega arith),
                checked_reply 2 answer garbage f (omega arith) (omega arith) wf typed long,
              ),
              ground (arith, number, wider, word),
            )
            | inr widest ↦ (
              sized 4 f,
              ground (
                arith,
                number,
                wider,
                widest,
                small,
                reply_lem 4 (omega arith),
                checked_reply 4 answer garbage f (omega arith) (omega arith) wf typed long,
              ),
              ground (arith, number, wider, widest, small),
            )
          ]
        ]

    -- A readable register of less than 32 bits that is no text, asked for by a request whose first
    -- answer among well-formed traffic is a REG_VALUE frame of that register with a value, with
    -- room for four bytes, is read the same by the request and from that frame: the same value, or the
    -- same exception.
    pub get_register-get_reg_value_from_frame :
        (n : Node) (d : RegisterDesc)
        → lookup reg n.register_map ≡ some d
        → d.readable ≡ true
        → same_string d.type "str" ≡ false
        → d.size < 32
        → get_or f.data_bytes 0 0 ≡ reg
        → (o : Outcome) × (get_register h m bus node garbage n reg ≡ some o)
          × (get_reg_value_from_frame h n f ≡ some (register_value reg o))
    unfolding get_register get_reg_value_from_frame value_found
    get_register-get_reg_value_from_frame n d found readable number small same =
        let (o, asked, read) = get_readable-value_of d number small in
        (o, ground (arith, found, readable, asked), ground (arith, typed, same, found, read))

-- ===== src/Node/Refusals.antt =====
-- What `get_register` of h9d/node.cc throws when its request fails.
use h9d.Prelude.{
  ℕ, ◌+◌, ◌≤◌, ◌<◌, ◌≡◌, sym, refl, arith, true, false, List, [], ◌∷◌, ◌++◌, Option, none, some,
  pos, ◌==◌, ltb, ◌&&◌, take, length, length-take, ℤ, is_negative,
}
use h9d.H9def.{H9Def}
use h9d.Frame.{H9Frame, unicast_frame}
use h9d.RawNode.Request.{
  Memory, Traffic, get_reg, get_reg_u8, get_reg_u16, get_reg_u32, error_code, timeout_error,
}
use h9d.RawNode.Replies.{AllWellFormed, register_outcome, first_reply, get_reg_lem}
use h9d.RawNode.Request.{of_network}
use h9d.Node.Registers.{RegisterDesc, Node, lookup}
use h9d.Node.Access.{byte_size, get_register, get_readable, terminated, checked, checked_bytes}
use h9d.Node.Exceptions.{RegValue, integer_value, float_value, thrown, request_exception}

module _ (h : H9Def) where
  -- A request that gets no frame, an error or a malformed frame, with a negative code.
  abbrev pub IsRefused : Option H9Frame → ℤ → Type 0
  IsRefused none ret = ret ≡ timeout_error
  IsRefused (some f) ret =
      ((f.type == h.reg_value && ltb 1 f.dlc) ≡ false)
      × (ret ≡ error_code h f)
      × (is_negative ret ≡ true)

  refused_outcome :
      (size : ℕ) (buf : List ℕ) (o : Option H9Frame) (ret : ℤ)
      → IsRefused o ret
      → (register_outcome h size buf o ≡ (ret, buf)) × (is_negative ret ≡ true)
  unfolding register_outcome
  refused_outcome size buf none ret r = (ground (arith, r), ground (arith, r))
  refused_outcome size buf (some f) ret r = (ground (arith, r), r.2)

  checked-refused :
      (size : ℕ) (value : ℕ → RegValue) (v : ℕ) (ret : ℤ)
      → is_negative ret ≡ true
      → checked size value (ret, v) ≡ thrown (request_exception ret)
  unfolding checked
  checked-refused size value v ret negative = rw negative refl

  bytes-refused :
      (size : ℕ) (buf : List ℕ) (ret : ℤ)
      → is_negative ret ≡ true
      → (checked_bytes size (ret, buf) ≡ some (thrown (request_exception ret)))
        × (terminated (ret, buf) ≡ some (thrown (request_exception ret)))
  unfolding checked_bytes terminated
  bytes-refused size buf (pos n) negative = cc
  bytes-refused size buf (ℤ.negsuc n) negative = (refl, refl)

  -- A readable register of any type and size whose request is refused: `get_register` throws the
  -- exception of the request's code.
  pub get_register-refused :
      (m : Memory) (bus : H9Frame → Traffic) (node reg : ℕ) (garbage : List ℕ) (req : H9Frame)
      (ret : ℤ) (n : Node) (d : RegisterDesc)
      → unicast_frame h "h9d" h.get_reg h.singe_frame node (reg ∷ []) m.frame ≡ some req
      → 4 ≤ length garbage
      → byte_size d < length garbage
      → AllWellFormed ((bus req).early ++ (bus req).late)
      → IsRefused (first_reply h m.group node reg (bus req)) ret
      → lookup reg n.register_map ≡ some d
      → d.readable ≡ true
      → get_register h m bus node garbage n reg ≡ some (thrown (request_exception ret))
  unfolding get_register get_readable get_reg_u8 get_reg_u16 get_reg_u32
  get_register-refused m bus node reg garbage req ret n d sent four room w refused found readable =
      let asked : (size space : ℕ)
          → size ≤ space
          → space ≤ length garbage
          → get_reg h m bus "h9d" node reg size (take space garbage)
            ≡ some (ret, take space garbage) =
        λ size space p q. rw (sym (refused_outcome size (take space garbage) _ ret refused).0) (
          get_reg_lem h m bus "h9d" node reg size (take space garbage) req sent
            (omega (arith, length-take space garbage)) w) in
      let negative = (refused_outcome 0 [] _ ret refused).1 in
      let number = λ (size : ℕ) (value : ℕ → RegValue).
        checked-refused size value (of_network (take size garbage)) ret negative in
      let bytes = λ (space : ℕ). bytes-refused (byte_size d) (take space garbage) ret negative in
      ground (
        arith,
        found,
        readable,
        asked 1 1 (omega arith) (omega arith),
        asked 2 2 (omega arith) (omega arith),
        asked 4 4 (omega arith) (omega arith),
        asked (byte_size d) (byte_size d) (omega arith) (omega arith),
        asked (byte_size d) (byte_size d + 1) (omega arith) (omega arith),
        number 1 (λ v. integer_value (pos v)),
        number 2 (λ v. integer_value (pos v)),
        number 4 (λ v. integer_value (pos v)),
        number 4 float_value,
        bytes (byte_size d),
        bytes (byte_size d + 1),
      )

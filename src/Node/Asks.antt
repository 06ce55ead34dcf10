-- ===== src/Node/Asks.antt =====
-- The request that an access of h9d/node.cc hands to the bus by h9d/raw_node.cc, if it does not throw
-- before. The outer `none` is undefined behaviour, as in the access itself.
use h9d.Prelude.{
  ℕ, ◌/◌, not, List, [], ◌∷◌, Option, none, some, ltb, leb, ◌==◌, ◌>>=◌, take, length,
  if◌then◌else◌,
}
use h9d.H9def.{H9Def}
use h9d.Frame.{H9Frame, unicast_frame}
use h9d.RawNode.Request.{Memory, network16, network32}
use h9d.Node.Registers.{RegisterDesc, Node, lookup, same_string}
use h9d.Node.Exceptions.{RegValue, text_value, integer_value, float_value, bytes_value}
use h9d.Node.Access.{byte_size, masked}

-- The bytes that `set_register` writes; without them it throws.
unfoldable pub written_bytes : RegisterDesc → RegValue → Option (Option (List ℕ))
written_bytes d (integer_value v) =
    let tmp = masked d.size v in
    if same_string d.type "str"
    then some none
    else if leb d.size 8
    then tmp >>= (λ t. some (some (t ∷ [])))
    else if leb d.size 16
    then tmp >>= (λ t. some (some (network16 t)))
    else if leb d.size 32
    then tmp >>= (λ t. some (some (network32 t)))
    else some none
written_bytes d (float_value v) =
    if same_string d.type "float" then some (some (network32 v)) else some none
written_bytes d (text_value v) =
    let len = d.size / 8 in
    if same_string d.type "str"
    then some (some (take (if ltb len (length v) then len else length v) v))
    else some none
written_bytes d (bytes_value v) = if byte_size d == length v then some (some v) else some none

module _ (h : H9Def) (m : Memory) (node : ℕ) where
  unfoldable pub request : ℕ → List ℕ → Option (Option H9Frame)
  request type bytes =
      unicast_frame h "h9d" type h.singe_frame node bytes m.frame >>= (λ f. some (some f))

  unfoldable pub get_register_request : Node → ℕ → Option (Option H9Frame)
  get_register_request n reg = elim (lookup reg n.register_map) [
    | none ↦ some none
    | some d ↦ if d.readable then request h.get_reg (reg ∷ []) else some none
  ]

  -- A value that is written, on what its bytes are.
  unfoldable pub write_request : ℕ → Option (List ℕ) → Option (Option H9Frame)
  write_request reg none = some none
  write_request reg (some bytes) = request h.set_reg (reg ∷ bytes)

  unfoldable pub set_register_request : Node → ℕ → RegValue → Option (Option H9Frame)
  set_register_request n reg value = elim (lookup reg n.register_map) [
    | none ↦ some none
    | some d ↦ if d.writable then written_bytes d value >>= write_request reg else some none
  ]

  -- For `set_register_bit` and `clear_register_bit`, by the type of the request.
  unfoldable pub bit_request : ℕ → Node → ℕ → ℕ → Option (Option H9Frame)
  bit_request type n reg bit_num = elim (lookup reg n.register_map) [
    | none ↦ some none
    | some d ↦
        if not d.writable
        then some none
        else if same_string d.type "str"
        then some none
        else request type (reg ∷ bit_num ∷ [])
  ]

  unfoldable pub reset_request : Option (Option H9Frame)
  reset_request = request h.node_reset []

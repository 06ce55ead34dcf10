-- ===== src/Node/Access.antt =====
-- The accesses to a node's registers in h9d/node.cc. `none` is an access out of an array's bounds or
-- another undefined operation; `garbage` is what new memory holds.
use h9d.Prelude.{
  ℕ, ◌+◌, ◌-◌, ◌/◌, ◌%◌, ◌^◌, not, List, [], ◌∷◌, Option, none, some, ℤ, pos, negsuc, is_negative,
  ◌==◌, ltb, leb, if◌then◌else◌, ◌>>=◌, take, set?, length,
}
use h9d.H9def.{H9Def}
use h9d.Frame.{H9Frame}
use h9d.RawNode.Request.{
  Memory, Traffic, get_reg, get_reg_u8, get_reg_u16, get_reg_u32, set_reg, set_reg_u8, set_reg_u16,
  set_reg_u32, set_bit, clear_bit, get_reg_float, set_reg_float, reset,
}
use h9d.Node.Registers.{RegisterDesc, Node, lookup, same_string}
use h9d.Node.Exceptions.{
  DevNodeException, Outcome, RegValue, text_value, integer_value, float_value, bytes_value,
  returned, thrown, request_exception, size_mismatch_exception, register_not_exist_exception,
  register_not_readable_exception, register_not_writable_exception,
  unsupported_register_data_conversion_exception, same_int,
}

-- `std::string(char*)`: the bytes before the first NUL.
abbrev pub until_nul : List ℕ → List ℕ
until_nul [] = []
until_nul (b ∷ bs) = if b == 0 then [] else b ∷ until_nul bs

-- `std::vector(buf, buf + n)`.
abbrev pub copied : ℕ → List ℕ → Option (List ℕ)
copied n buf = if leb n (length buf) then some (take n buf) else none

-- The number of bytes of a register.
abbrev pub byte_size : RegisterDesc → ℕ
byte_size d = (d.size + 7) / 8

-- An integer's result: the chain of exceptions, `ret != sizeof(val)` and the value.
unfoldable pub checked : ℕ → (ℕ → RegValue) → ℤ × ℕ → Outcome
checked size value r =
    if is_negative (r.0)
    then thrown (request_exception (r.0))
    else if not (same_int (r.0) (pos size))
    then thrown size_mismatch_exception
    else returned (value (r.1))

-- The result in a buffer, which has to have the size given.
unfoldable pub checked_bytes : ℕ → ℤ × List ℕ → Option Outcome
checked_bytes size (pos ret, buf) =
    if not (ret == size)
    then some (thrown size_mismatch_exception)
    else (copied ret buf >>= (λ bytes. some (returned (bytes_value bytes))))
checked_bytes size (negsuc e, buf) = some (thrown (request_exception (negsuc e)))

-- `buf[ret] = '\0'; std::string ret_str = {buf};`
unfoldable pub terminated : ℤ × List ℕ → Option Outcome
terminated (pos ret, buf) = do out ← set? buf ret 0; some (returned (text_value (until_nul out)))
terminated (negsuc e, buf) = some (thrown (request_exception (negsuc e)))

-- The result of a bit operation, whose length is not compared with the register's.
unfoldable pub unchecked_bytes : ℤ × List ℕ → Option Outcome
unchecked_bytes (pos ret, buf) = do bytes ← copied ret buf; some (returned (bytes_value bytes))
unchecked_bytes (negsuc e, buf) = some (thrown (request_exception (negsuc e)))

-- `v & ((1 << size) - 1)` on an int of 32 bits: from 31 bits on it overflows.
unfoldable pub masked : ℕ → ℤ → Option ℕ
masked size (pos v) = if ltb size 31 then some (v % 2 ^ size) else none
masked size (negsuc v) = if ltb size 31 then some (2 ^ size - 1 - v % 2 ^ size) else none

module _ (h : H9Def) (m : Memory) (bus : H9Frame → Traffic) (node : ℕ) (garbage : List ℕ) where
  -- `get_register` of a readable register, on its type and size.
  unfoldable pub get_readable : ℕ → RegisterDesc → Option Outcome
  get_readable reg d =
      if not (same_string d.type "str")
      then (if d.size == 32
          then (get_reg_float h m bus "h9d" node reg garbage
              >>= (λ r. some (checked 4 float_value r)))
          else if leb d.size 8
          then (get_reg_u8 h m bus "h9d" node reg garbage
              >>= (λ r. some (checked 1 (λ v. integer_value (pos v)) r)))
          else if leb d.size 16
          then (get_reg_u16 h m bus "h9d" node reg garbage
              >>= (λ r. some (checked 2 (λ v. integer_value (pos v)) r)))
          else if leb d.size 32
          then (get_reg_u32 h m bus "h9d" node reg garbage
              >>= (λ r. some (checked 4 (λ v. integer_value (pos v)) r)))
          else (get_reg h m bus "h9d" node reg (byte_size d) (take (byte_size d) garbage)
              >>= (λ r. checked_bytes (byte_size d) r)))
      else (get_reg h m bus "h9d" node reg (byte_size d) (take (byte_size d + 1) garbage)
          >>= (λ r. terminated r))

  unfoldable pub get_register : Node → ℕ → Option Outcome
  get_register n reg = elim (lookup reg n.register_map) [
    | none ↦ some (thrown (register_not_exist_exception reg))
    | some d ↦
        if d.readable
        then get_readable reg d
        else some (thrown (register_not_readable_exception reg))
  ]

  -- `set_register` of a writable register, on the value given.
  unfoldable pub set_writable : ℕ → RegisterDesc → RegValue → Option Outcome
  set_writable reg d (integer_value v) =
      let unsupported = some (thrown (unsupported_register_data_conversion_exception reg)) in
      if not (same_string d.type "str")
      then (if leb d.size 8
          then (masked d.size v >>= (λ tmp.
              set_reg_u8 h m bus "h9d" node reg tmp garbage
              >>= (λ r. some (checked 1 (λ val. integer_value (pos val)) r))))
          else if leb d.size 16
          then (masked d.size v >>= (λ tmp.
              set_reg_u16 h m bus "h9d" node reg tmp garbage
              >>= (λ r. some (checked 2 (λ val. integer_value (pos val)) r))))
          else if leb d.size 32
          then (masked d.size v >>= (λ tmp.
              set_reg_u32 h m bus "h9d" node reg tmp garbage
              >>= (λ r. some (checked 4 (λ val. integer_value (pos val)) r))))
          else unsupported)
      else unsupported
  set_writable reg d (float_value v) =
      if same_string d.type "float"
      then (set_reg_float h m bus "h9d" node reg v garbage
          >>= (λ r. some (checked 4 float_value r)))
      else some (thrown (unsupported_register_data_conversion_exception reg))
  set_writable reg d (text_value v) =
      let len = d.size / 8 in
      let sent = if ltb len (length v) then len else length v in
      if same_string d.type "str"
      then (set_reg h m bus "h9d" node reg sent v (take (byte_size d + 1) garbage)
            (some (byte_size d + 1))
          >>= (λ r. terminated r))
      else some (thrown (unsupported_register_data_conversion_exception reg))
  set_writable reg d (bytes_value v) =
      if byte_size d == length v
      then (set_reg h m bus "h9d" node reg (byte_size d) v (take (byte_size d) garbage) none
          >>= (λ r. checked_bytes (byte_size d) r))
      else some (thrown (unsupported_register_data_conversion_exception reg))

  unfoldable pub set_register : Node → ℕ → RegValue → Option Outcome
  set_register n reg value = elim (lookup reg n.register_map) [
    | none ↦ some (thrown (register_not_exist_exception reg))
    | some d ↦
        if d.writable
        then set_writable reg d value
        else some (thrown (register_not_writable_exception reg))
  ]

  -- A bit of a register, for `set_bit` and `clear_bit`.
  abbrev pub bit_of : (ℕ → List ℕ → Option (ℤ × List ℕ)) → Node → ℕ → Option Outcome
  bit_of request n reg = elim (lookup reg n.register_map) [
    | none ↦ some (thrown (register_not_exist_exception reg))
    | some d ↦
        if not d.writable
        then some (thrown (register_not_writable_exception reg))
        else if same_string d.type "str"
        then some (thrown (unsupported_register_data_conversion_exception reg))
        else (request (byte_size d) (take (byte_size d) garbage) >>= (λ r. unchecked_bytes r))
  ]

  unfoldable pub set_register_bit : Node → ℕ → ℕ → Option Outcome
  set_register_bit n reg bit_num = bit_of (set_bit h m bus "h9d" node reg bit_num) n reg

  unfoldable pub clear_register_bit : Node → ℕ → ℕ → Option Outcome
  clear_register_bit n reg bit_num = bit_of (clear_bit h m bus "h9d" node reg bit_num) n reg

  -- `node_reset`: what it throws, if it throws.
  unfoldable pub node_reset : Option (Option DevNodeException)
  node_reset = do
    ret ← reset h m bus "h9d" node
    some (if is_negative ret then some (request_exception ret) else none)

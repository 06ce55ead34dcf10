-- ===== src/Node/Broadcast.antt =====
-- `get_reg_value_from_frame` of h9d/node.cc: the value that a REG_VALUE or REG_VALUE_BROADCAST frame
-- carries. `none` is a read out of an array's bounds.
use h9d.Prelude.{
  ℕ, ◌-◌, not, ◌||◌, Option, none, some, pos, ◌==◌, ltb, leb, ◌>>=◌, if◌then◌else◌, take, drop,
  length, get_or,
}
use h9d.H9def.{H9Def}
use h9d.Frame.{H9Frame}
use h9d.RawNode.Request.{of_network}
use h9d.Node.Registers.{RegisterDesc, Node, lookup, same_string}
use h9d.Node.Access.{until_nul, copied, byte_size}
use h9d.Node.Exceptions.{
  Outcome, text_value, integer_value, bytes_value, returned, thrown, size_mismatch_exception,
  register_not_exist_exception, malformed_frame_exception,
}

-- What the function stores in `*value`, or throws; a frame of another type stores nothing.
pub data FrameValue : Type 0 where
  no_value : FrameValue
  register_value : ℕ → Outcome → FrameValue

-- `sizeof(val)` bytes of the frame, in network order.
unfoldable pub sized : ℕ → H9Frame → Outcome
sized size f =
    if not (f.dlc - 1 == size)
    then thrown size_mismatch_exception
    else returned (integer_value (pos (of_network (take size (drop 1 f.data_bytes)))))

-- `strlen` reads on until a NUL, which has to lie in the array.
unfoldable pub text_of : RegisterDesc → H9Frame → Option Outcome
text_of d f =
    let bytes = drop 1 f.data_bytes in
    let text = until_nul bytes in
    let frame_reg_size = f.dlc - 1 in
    if not (ltb (length text) (length bytes))
    then none
    else if ltb (byte_size d) frame_reg_size
    then some (thrown size_mismatch_exception)
    else some (returned (text_value (take frame_reg_size text)))

unfoldable pub value_of : RegisterDesc → H9Frame → Option Outcome
value_of d f =
    if not (same_string d.type "str")
    then (if leb d.size 8
        then some (sized 1 f)
        else if leb d.size 16
        then some (sized 2 f)
        else if leb d.size 32
        then some (sized 4 f)
        else if ltb (byte_size d) (f.dlc - 1)
        then some (thrown size_mismatch_exception)
        else copied (f.dlc - 1) (drop 1 f.data_bytes)
          >>= (λ bytes. some (returned (bytes_value bytes))))
    else text_of d f

-- On the register of the first byte.
unfoldable pub value_found : ℕ → Option RegisterDesc → H9Frame → Option FrameValue
value_found reg none f = some (register_value reg (thrown (register_not_exist_exception reg)))
value_found reg (some d) f = do o ← value_of d f; some (register_value reg o)

unfoldable pub get_reg_value_from_frame : H9Def → Node → H9Frame → Option FrameValue
get_reg_value_from_frame h n f =
    let reg = get_or f.data_bytes 0 0 in
    if f.type == h.reg_value || f.type == h.reg_value_broadcast
    then (if ltb f.dlc 2
        then some (register_value reg (thrown malformed_frame_exception))
        else value_found reg (lookup reg n.register_map) f)
    else some no_value

-- ===== src/Node/Exceptions.antt =====
-- h9d/dev_node_exception.h: what an access to a node throws, and the values of its registers
-- (`regvalue_t` of h9d/node.h).
use h9d.Prelude.{ℕ, ◌+◌, Bool, false, List, ℤ, pos, negsuc, neg, abs, ◌==◌, if◌then◌else◌}
use h9d.RawNode.Request.{timeout_error, malformed_frame_error}

-- `what()` is left out.
pub data DevNodeException : Type 0 where
  node_exception : ℕ → DevNodeException
  timeout_exception : DevNodeException
  malformed_frame_exception : DevNodeException
  size_mismatch_exception : DevNodeException
  node_not_exist_exception : DevNodeException
  register_not_exist_exception : ℕ → DevNodeException
  register_not_writable_exception : ℕ → DevNodeException
  register_not_readable_exception : ℕ → DevNodeException
  unsupported_register_data_conversion_exception : ℕ → DevNodeException

-- The codes of API (h9d/api.h). A node's error `e` has the code -1000 - e.
unfoldable pub code : DevNodeException → ℤ
code (node_exception n) = neg (1000 + n)
code timeout_exception = neg 10
code malformed_frame_exception = neg 13
code size_mismatch_exception = neg 14
code node_not_exist_exception = neg 11
code (register_not_exist_exception reg) = neg 15
code (register_not_writable_exception reg) = neg 16
code (register_not_readable_exception reg) = neg 17
code (unsupported_register_data_conversion_exception reg) = neg 18

-- A text is its bytes; a float is the 32 bits that represent it.
pub data RegValue : Type 0 where
  text_value : List ℕ → RegValue
  integer_value : ℤ → RegValue
  float_value : ℕ → RegValue
  bytes_value : List ℕ → RegValue

-- What a function returns or throws.
pub data Outcome : Type 0 where
  returned : RegValue → Outcome
  thrown : DevNodeException → Outcome

abbrev pub same_int : ℤ → ℤ → Bool
same_int (pos m) (pos n) = m == n
same_int (pos m) (negsuc n) = false
same_int (negsuc m) (pos n) = false
same_int (negsuc m) (negsuc n) = m == n

-- The chain that every access has for a negative result of its request.
unfoldable pub request_exception : ℤ → DevNodeException
request_exception ret =
    if same_int ret timeout_error
    then timeout_exception
    else if same_int ret malformed_frame_error
    then malformed_frame_exception
    else node_exception (abs ret)

-- ===== src/RawNode/Request.antt =====
-- The requests of h9d/raw_node.cc. What the bus does with a request frame is an argument: the
-- frames of the node until the sequence number is known, that number, and the frames from then
-- until the time is up.
use h9d.Prelude.{
  ℕ, ◌+◌, ◌-◌, ◌*◌, ◌/◌, ◌%◌, ◌^◌, ◌&&◌, List, [], ◌∷◌, Option, none, some, String, get_or, take,
  drop, copy_bytes, ◌>>=◌, ℤ, pos, neg, ltb, ◌==◌, if◌then◌else◌,
}
use h9d.H9def.{H9Def}
use h9d.Frame.{H9Frame, unicast_frame}
use h9d.Comparator.{
  H9FrameComparator, default_comparator, set_source_id, set_type, set_first_data_byte,
  set_type_in_alternate_set, seqnum_override_for_alternate_set,
}
use h9d.RawNode.Delivery.{exchange}

-- h9errno::TIMEOUT_ERROR and MALFORMED_FRAME_ERROR (common/h9errno.h), negated.
abbrev pub timeout_error : ℤ
timeout_error = neg 1000

abbrev pub malformed_frame_error : ℤ
malformed_frame_error = neg 1001

-- What a new promise's address and the memory of a comparator's group and of a frame happen to be.
pub record Memory : Type 0 where
  pub pointer : ℕ
  pub group : ℕ
  pub frame : H9Frame

pub record Traffic : Type 0 where
  pub early : List H9Frame
  pub seqnum : ℕ
  pub late : List H9Frame

-- Network byte order.
abbrev pub network16 : ℕ → List ℕ
network16 v = v / 256 % 256 ∷ v % 256 ∷ []

abbrev pub network32 : ℕ → List ℕ
network32 v = v / 2 ^ 24 % 256 ∷ v / 2 ^ 16 % 256 ∷ v / 256 % 256 ∷ v % 256 ∷ []

abbrev pub from_network : ℕ → List ℕ → ℕ
from_network acc [] = acc
from_network acc (b ∷ bs) = from_network (acc * 256 + b) bs

abbrev pub of_network : List ℕ → ℕ
of_network = from_network 0

-- `length < res.dlc() - 1 ? length : res.dlc() - 1`.
abbrev pub at_most : ℕ → ℕ → ℕ
at_most length n = if ltb length n then length else n

-- `reg_after_set_length < 0 ? length : reg_after_set_length`.
abbrev pub after_length : ℕ → Option ℕ → ℕ
after_length length none = length
after_length length (some n) = n

-- `create_frame_promise`, `send_frame`, `set_comparator_seqnum` and the wait for the future. The
-- result is the frame of the future, or nothing when the time is up.
unfoldable pub ask :
    Memory → (H9Frame → Traffic) → H9FrameComparator → Option H9Frame → Option (Option H9Frame)
ask m bus c request = do
  req ← request
  p ← exchange m.pointer c (bus req).early (bus req).seqnum (bus req).late
  some p.promise

module _ (h : H9Def) where
  -- The comparator of `get_reg`, `set_reg` and `bit_operation`.
  unfoldable pub reply_comparator : ℕ → ℕ → ℕ → H9FrameComparator
  unfolding default_comparator set_source_id set_type set_first_data_byte set_type_in_alternate_set
  reply_comparator garbage node reg = set_type_in_alternate_set h.command_error (
      set_first_data_byte reg
        (set_type h.reg_value (set_source_id node (default_comparator h garbage))))

  -- The comparator of `reset`.
  unfoldable pub reset_comparator : ℕ → ℕ → H9FrameComparator
  unfolding default_comparator set_source_id set_type set_type_in_alternate_set
      seqnum_override_for_alternate_set
  reset_comparator garbage node = seqnum_override_for_alternate_set 0 (
      set_type_in_alternate_set h.node_turned_on
        (set_type h.command_error (set_source_id node (default_comparator h garbage))))

  -- `-res.data()[0]` of an error frame of one byte, or `MALFORMED_FRAME_ERROR`.
  unfoldable pub error_code : H9Frame → ℤ
  error_code res =
      if res.type == h.command_error && res.dlc == 1
      then neg (get_or res.data_bytes 0 0)
      else malformed_frame_error

  -- A response that fills a buffer: `count` says how many bytes the code copies. The result is the
  -- code and the buffer.
  unfoldable pub register_response : (ℕ → ℕ) → List ℕ → Option H9Frame → Option (ℤ × List ℕ)
  register_response count buf none = some (timeout_error, buf)
  register_response count buf (some res) =
      let filled = do
        out ← copy_bytes (count (res.dlc - 1)) (drop 1 res.data_bytes) buf
        some (pos (res.dlc - 1), out)
      in if res.type == h.reg_value && ltb 1 res.dlc then filled else some (error_code res, buf)

  unfoldable pub get_reg :
      Memory → (H9Frame → Traffic) → String → ℕ → ℕ → ℕ → List ℕ → Option (ℤ × List ℕ)
  get_reg m bus origin node reg length reg_val = do
    res ←
        ask m bus (reply_comparator m.group node reg)
          (unicast_frame h origin h.get_reg h.singe_frame node (reg ∷ []) m.frame)
    register_response (at_most length) reg_val res

  -- `set_reg` with a buffer for the value after the request, of `after` bytes; an `after` that is
  -- left out stands for the default argument -1.
  unfoldable pub set_reg :
      Memory
      → (H9Frame → Traffic)
      → String
      → ℕ
      → ℕ
      → ℕ
      → List ℕ
      → List ℕ
      → Option ℕ
      → Option (ℤ × List ℕ)
  set_reg m bus origin node reg length reg_val reg_after_set after = do
    res ←
        ask m bus (reply_comparator m.group node reg)
          (unicast_frame h origin h.set_reg h.singe_frame node (reg ∷ take length reg_val) m.frame)
    register_response (λ n. if ltb length n then after_length length after else n) reg_after_set res

  -- `bit_operation` with a buffer, for SET_BIT and CLEAR_BIT.
  unfoldable pub bit_operation :
      Memory → (H9Frame → Traffic) → String → ℕ → ℕ → ℕ → ℕ → ℕ → List ℕ → Option (ℤ × List ℕ)
  bit_operation m bus origin type node reg bit length reg_after_set = do
    res ←
        ask m bus (reply_comparator m.group node reg)
          (unicast_frame h origin type h.singe_frame node (reg ∷ bit ∷ []) m.frame)
    register_response (at_most length) reg_after_set res

  unfoldable pub set_bit :
      Memory → (H9Frame → Traffic) → String → ℕ → ℕ → ℕ → ℕ → List ℕ → Option (ℤ × List ℕ)
  unfolding bit_operation
  set_bit m bus origin = bit_operation m bus origin h.set_bit

  unfoldable pub clear_bit :
      Memory → (H9Frame → Traffic) → String → ℕ → ℕ → ℕ → ℕ → List ℕ → Option (ℤ × List ℕ)
  unfolding bit_operation
  clear_bit m bus origin = bit_operation m bus origin h.clear_bit

  -- The result of `reset` from the frame that the future gives.
  unfoldable pub reset_response : Option H9Frame → ℤ
  reset_response none = timeout_error
  reset_response (some res) = if res.type == h.node_turned_on then pos res.dlc else error_code res

  unfoldable pub reset : Memory → (H9Frame → Traffic) → String → ℕ → Option ℤ
  reset m bus origin node = do
    res ←
        ask m bus (reset_comparator m.group node)
          (unicast_frame h origin h.node_reset h.singe_frame node [] m.frame)
    some (reset_response res)

  -- The overloads for integers. `htons` and `htonl` put the highest byte first; `garbage` is what
  -- the result variable holds before.
  unfoldable pub get_reg_u8 :
      Memory → (H9Frame → Traffic) → String → ℕ → ℕ → List ℕ → Option (ℤ × ℕ)
  get_reg_u8 m bus origin node reg garbage = do
    r ← get_reg m bus origin node reg 1 (take 1 garbage)
    some (r.0, of_network (r.1))

  unfoldable pub get_reg_u16 :
      Memory → (H9Frame → Traffic) → String → ℕ → ℕ → List ℕ → Option (ℤ × ℕ)
  get_reg_u16 m bus origin node reg garbage = do
    r ← get_reg m bus origin node reg 2 (take 2 garbage)
    some (r.0, of_network (r.1))

  unfoldable pub get_reg_u32 :
      Memory → (H9Frame → Traffic) → String → ℕ → ℕ → List ℕ → Option (ℤ × ℕ)
  get_reg_u32 m bus origin node reg garbage = do
    r ← get_reg m bus origin node reg 4 (take 4 garbage)
    some (r.0, of_network (r.1))

  unfoldable pub set_reg_u8 :
      Memory → (H9Frame → Traffic) → String → ℕ → ℕ → ℕ → List ℕ → Option (ℤ × ℕ)
  set_reg_u8 m bus origin node reg v garbage = do
    r ← set_reg m bus origin node reg 1 (v ∷ []) (take 1 garbage) none
    some (r.0, of_network (r.1))

  unfoldable pub set_reg_u16 :
      Memory → (H9Frame → Traffic) → String → ℕ → ℕ → ℕ → List ℕ → Option (ℤ × ℕ)
  set_reg_u16 m bus origin node reg v garbage = do
    r ← set_reg m bus origin node reg 2 (network16 v) (take 2 garbage) none
    some (r.0, of_network (r.1))

  unfoldable pub set_reg_u32 :
      Memory → (H9Frame → Traffic) → String → ℕ → ℕ → ℕ → List ℕ → Option (ℤ × ℕ)
  set_reg_u32 m bus origin node reg v garbage = do
    r ← set_reg m bus origin node reg 4 (network32 v) (take 4 garbage) none
    some (r.0, of_network (r.1))

  -- The overloads for floats, whose 32 bits `memcpy` carries over.
  abbrev pub get_reg_float : Memory → (H9Frame → Traffic) → String → ℕ → ℕ → List ℕ → Option (ℤ × ℕ)
  get_reg_float m bus origin node reg garbage = get_reg_u32 m bus origin node reg garbage

  abbrev pub set_reg_float :
      Memory → (H9Frame → Traffic) → String → ℕ → ℕ → ℕ → List ℕ → Option (ℤ × ℕ)
  set_reg_float m bus origin node reg v garbage = set_reg_u32 m bus origin node reg v garbage

-- ===== src/TcpSocket.antt =====
-- common/tcp_socket.h and tcp_socket.cc: messages over a TCP connection, each behind its length in
-- four bytes. A `none` is an access outside of a buffer. Memory for a message is always found;
-- opening a connection and its time limits are left out.
pub mod System
pub mod Memory
pub mod Calls
pub mod Sound
pub mod Returns
pub mod Receive
pub mod Header
pub mod Whole
pub mod Send
pub mod Messages
use h9d.Prelude.{
  ℕ, zero, suc, ◌+◌, ◌-◌, ◌*◌, ◌/◌, ◌%◌, ◌^◌, Bool, List, [], ◌∷◌, ◌++◌, Option, some, none, ◌>>=◌,
  length, take, drop, get_or, leb, ltb, ◌==◌, u8, u32, if◌then◌else◌,
}
use h9d.TcpSocket.System.{Wire, Answered, bytes, would_block, error, Called, recv_call}

-- The bytes of `header_buf` are in the order of the memory.
pub record TcpSocket : Type 0 where
  pub header_buf : List ℕ
  pub data_buf : List ℕ
  pub data_buf_len : ℕ
  pub recv_bytes : ℕ
  pub bytes_to_recv : ℕ

-- What the memory holds that nothing has written yet.
unfoldable pub fresh : (ℕ → ℕ) → ℕ → List ℕ
fresh garbage zero = []
fresh garbage (suc n) = garbage n ∷ fresh garbage n

-- `realloc` to a larger size.
unfoldable pub realloc : (ℕ → ℕ) → ℕ → List ℕ → List ℕ
realloc garbage n mem = mem ++ fresh garbage (n - length mem)

unfoldable pub new_tcp_socket : (ℕ → ℕ) → TcpSocket
new_tcp_socket garbage = record {
  header_buf = fresh garbage 4;
  data_buf = fresh garbage (4096 + 1);
  data_buf_len = 4096;
  recv_bytes = 0;
  bytes_to_recv = 4;
}

-- A write of these bytes at an offset of a buffer.
unfoldable pub store : ℕ → List ℕ → List ℕ → Option (List ℕ)
store off bs mem =
    if leb (off + length bs) (length mem)
    then some (take off mem ++ (bs ++ drop (off + length bs) mem))
    else none

-- The bytes before the first that is 0.
unfoldable pub c_string : List ℕ → List ℕ
c_string [] = []
c_string (b ∷ bs) = let rest = c_string bs in if b == 0 then [] else b ∷ rest

unfoldable pub ntohl : List ℕ → ℕ
ntohl b = get_or b 0 0 * 2 ^ 24 + get_or b 1 0 * 2 ^ 16 + get_or b 2 0 * 2 ^ 8 + get_or b 3 0

unfoldable pub htonl : ℕ → List ℕ
htonl n = u8 (n / 2 ^ 24) ∷ u8 (n / 2 ^ 16) ∷ u8 (n / 2 ^ 8) ∷ u8 n ∷ []

-- What `recv` returns: 1 and the message, 0, -1 with EAGAIN or EWOULDBLOCK, or -1 with another error.
pub data RecvOutcome : Type 0 where
  message : List ℕ → RecvOutcome
  closed again failed : RecvOutcome

pub record Received : Type 0 where
  pub outcome : RecvOutcome
  pub socket : TcpSocket
  pub wire : Wire

-- An early return, or what the function goes on with.
pub data Stage : Type 0 where
  stop : RecvOutcome → TcpSocket → Wire → Stage
  go : TcpSocket → Wire → Stage

-- The buffer for a message whose length has come.
unfoldable pub make_room : (ℕ → ℕ) → ℕ → TcpSocket → TcpSocket
make_room garbage tmp s =
    if ltb s.data_buf_len tmp
    then record s { data_buf_len = tmp; data_buf = realloc garbage (tmp + 1) s.data_buf }
    else s

unfoldable pub header_done : (ℕ → ℕ) → TcpSocket → TcpSocket
header_done garbage s =
    let tmp = ntohl s.header_buf in
    record (make_room garbage tmp s) { bytes_to_recv = s.bytes_to_recv + tmp }

-- What a call of the system that returned no bytes makes `recv` return.
unfoldable pub answered : Answered → (List ℕ → Option Stage) → TcpSocket → Wire → Option Stage
answered (bytes []) k s w = some (stop closed s w)
answered (bytes (b ∷ bs)) k s w = k (b ∷ bs)
answered would_block k s w = some (stop again s w)
answered error k s w = some (stop failed s w)

unfoldable pub take_data : TcpSocket → Wire → List ℕ → Option Stage
take_data s w got = do
  data_buf ← store (s.recv_bytes - 4) got s.data_buf
  some (go (record s { data_buf = data_buf; recv_bytes = s.recv_bytes + length got }) w)

unfoldable pub recv_body : TcpSocket → Wire → Option Stage
recv_body s w =
    let c = recv_call (s.bytes_to_recv - s.recv_bytes) w in
    if leb 4 s.recv_bytes then answered c.answer (take_data s c.wire) s c.wire else some (go s w)

-- What follows the two reads: the message, if it is complete.
unfoldable pub recv_end : TcpSocket → Wire → Option Received
recv_end s w =
    if ltb s.recv_bytes s.bytes_to_recv
    then some (record { outcome = again; socket = s; wire = w })
    else (store (s.recv_bytes - 4) (0 ∷ []) s.data_buf >>= (λ data_buf. some (record {
      outcome = message (c_string data_buf);
      socket = record s { data_buf = data_buf; bytes_to_recv = 4; recv_bytes = 0 };
      wire = w;
    })))

abbrev pub and_then : Stage → (TcpSocket → Wire → Option Received) → Option Received
and_then (stop o s w) k = some (record { outcome = o; socket = s; wire = w })
and_then (go s w) k = k s w

module _ (garbage : ℕ → ℕ) where
  unfoldable pub take_header : TcpSocket → Wire → List ℕ → Option Stage
  take_header s w got = do
    header_buf ← store s.recv_bytes got s.header_buf
    let t = record s { header_buf = header_buf; recv_bytes = s.recv_bytes + length got }
    some (go (if t.recv_bytes == 4 then header_done garbage t else t) w)

  unfoldable pub recv_header : TcpSocket → Wire → Option Stage
  recv_header s w =
      let c = recv_call (4 - s.recv_bytes) w in
      if ltb s.recv_bytes 4
      then answered c.answer (take_header s c.wire) s c.wire
      else some (go s w)

  unfoldable pub recv : TcpSocket → Wire → Option Received
  recv s w = do
    header ← recv_header s w
    and_then header (λ t v. recv_body t v >>= (λ body. and_then body recv_end))

  -- `JSONTCPSocket::recv_complete_msg` of common/json_tcp_socket.cc, before it reads the JSON; `none`
  -- also if the fuel runs out.
  unfoldable pub recv_complete_msg : ℕ → TcpSocket → Wire → Option Received
  recv_complete_msg zero s w = none
  recv_complete_msg (suc fuel) s w = recv s w >>= (λ r. elim r.outcome [
    | again ↦ recv_complete_msg fuel r.socket r.wire
    | message m ↦ some r
    | closed ↦ some r
    | failed ↦ some r
  ])

-- ===== src/Client/Requests.antt =====
-- `TCPClientThread::thread_recv_msg` of h9d/tcpclientthread.cc: what a client's thread does with a
-- message that it receives. `none` is an exception that ends the daemon, or undefined behaviour.
use h9d.Prelude.{ℕ, Bool, false, List, [], ◌∷◌, ◌++◌, Option, some, none, ◌>>=◌, String}
use h9d.Api.Types.{Answer, result, refused, escapes, Failure, Value, Api, Env, Params}
use h9d.Api.Call.{call}

pub record Request (J : Type 0) : Type 0 where
  pub id : ℕ
  pub method : String
  pub params : Params J

-- What jsonrpcpp finds in a message: it is no JSON, or no JSON-RPC, a batch, or an entity, which may be
-- a request.
pub data Entity (J : Type 0) : Type 0 where
  request : Request J → Entity J
  no_request : Entity J

pub data Message (J : Type 0) : Type 0 where
  discarded no_rpc : Message J
  entity : Entity J → Message J
  batch : List (Entity J) → Message J

-- What the socket gives: a message, the end of the connection, or another error.
pub data Incoming (J : Type 0) : Type 0 where
  received : Message J → Incoming J
  reset failed : Incoming J

pub data Reply (J : Type 0) : Type 0 where
  response : ℕ → Value J → Reply J
  error : ℕ → Failure → Reply J

-- What is written to the socket.
pub data Written (J : Type 0) : Type 0 where
  one : Reply J → Written J
  parse_error : Written J
  many : List (Reply J) → Written J

pub record Session : Type 0 where
  pub running : Bool
  pub api : Api

module _ {J : Type 0} where
  -- The answer to one request, as the two `catch` clauses make it.
  unfoldable pub reply_of : ℕ → Answer J → Option (Reply J)
  reply_of id (result v) = some (response id v)
  reply_of id (refused f) = some (error id f)
  reply_of id (escapes e) = none

  -- In a batch, a response is written at once as well.
  unfoldable pub written_of : Reply J → List (Written J)
  written_of (response id v) = one (response id v) ∷ []
  written_of (error id f) = []

  -- `if (!response_batch.entities.empty())`.
  unfoldable pub write_batch : List (Reply J) → List (Written J)
  write_batch [] = []
  write_batch (r ∷ rs) = many (r ∷ rs) ∷ []

module _ {J : Type 0} (env : Env J) where
  unfoldable pub answer_request : Request J → Api → Option (Reply J × Api)
  answer_request r s = do
    (a, t) ← call env r.method s r.params
    reply ← reply_of r.id a
    some (reply, t)

  -- The loop over a batch: what is written, the batch of the replies and the state.
  unfoldable pub answer_batch :
      List (Entity J) → Api → Option (List (Written J) × List (Reply J) × Api)
  answer_batch [] s = some ([], [], s)
  answer_batch (no_request ∷ es) s = answer_batch es s
  answer_batch (request r ∷ es) s = do
    (reply, t) ← answer_request r s
    (written, replies, u) ← answer_batch es t
    some (written_of reply ++ written, reply ∷ replies, u)

  unfoldable pub thread_recv_msg : Incoming J → Session → Option (List (Written J) × Session)
  thread_recv_msg reset s = some ([], record s { running = false })
  thread_recv_msg failed s = none
  thread_recv_msg (received discarded) s = some (parse_error ∷ [], s)
  thread_recv_msg (received no_rpc) s = some (parse_error ∷ [], s)
  thread_recv_msg (received (entity no_request)) s = some (parse_error ∷ [], s)
  thread_recv_msg (received (entity (request r))) s = do
    (reply, t) ← answer_request r s.api
    some (one reply ∷ [], record s { api = t })
  thread_recv_msg (received (batch es)) s = do
    (written, replies, t) ← answer_batch es s.api
    some (written ++ write_batch replies, record s { api = t })

-- ===== src/AioClient.antt =====
-- aio.py: `AioClient`, whose tasks interleave at their awaits: each caller of `_request`, the response
-- receiver and the asyncmsg receiver. A function below is what a task does between two awaits.
pub mod Steps
pub mod Events
pub mod Invariant
pub mod Progress
pub mod Endings
use pylyskom.Base.{
  ℕ, Bytes, List, [], ◌∷◌, ◌++◌, Bool, true, false, Option, none, some, if◌then◌else◌,
}
use pylyskom.Result.{Result, ok, raise, Error, assertion_error, key_error, server_error}
use pylyskom.Dict
use pylyskom.Dict.{Dict}
use pylyskom.AsyncMessages.{AsyncMessage}
use pylyskom.Requests.Request.{Request}
use pylyskom.Requests.Responses.{Reply}
use pylyskom.Connection
use pylyskom.Connection.{
  Connection, Payload, ok_reply, error_reply, async_msg, Response, new_connection,
  try_parse_response,
}

-- What the caller of `request` or `raw_request` gets.
pub data Answer : Type 0 where
  reply_object : Reply → Answer
  reply_bytes : Bytes → Answer

-- An event is whether it is set. `sending` is the number of the request that was written by the task
-- that holds `_send_lock` and has no event yet; `receiving` is whether the response receiver runs;
-- `returned` is what was returned to callers, by number, and `handled` the messages that the async
-- handler was called with.
pub record AioClient : Type 0 where
  pub conn : Connection
  pub reply_queue : Dict Response
  pub outstanding_requests_events : Dict Bool
  pub asyncmsg_queue : List AsyncMessage
  pub sending : Option ℕ
  pub receiving : Bool
  pub given_up : List ℕ
  pub returned : List (ℕ × Result Answer)
  pub handled : List AsyncMessage

-- AioClient.connect, once the connection is there
unfoldable pub new_aio_client : AioClient
new_aio_client = record {
  conn = new_connection;
  reply_queue = [];
  outstanding_requests_events = [];
  asyncmsg_queue = [];
  sending = none;
  receiving = true;
  given_up = [];
  returned = [];
  handled = [];
}

-- What the connection's `send_request` made of it; an exception leaves the lock free.
unfoldable pub sent : Result ℕ × Connection → AioClient → AioClient
sent (ok n, conn) s = record s { conn = conn; sending = some n }
sent (raise e, conn) s = record s { conn = conn }

-- `_request` from the lock to the `drain` in the connection's `send_request`.
unfoldable pub send : Request → AioClient → AioClient
send request s = sent (Connection.send_request request s.conn) s

-- `_request` from the `drain` to the wait for the event; the lock is free again. The assertion fails
-- in the caller's task, where an event is there already.
unfoldable pub register : ℕ → AioClient → AioClient
register n s = elim (Dict.has s.outstanding_requests_events n) [
  | true ↦ record s { sending = none; returned = s.returned ++ (n, raise assertion_error) ∷ [] }
  | false ↦ record s {
    sending = none;
    outstanding_requests_events = Dict.put s.outstanding_requests_events n false;
  }
]

-- `_request` where `drain` raises, or where its caller is cancelled meanwhile: the lock is free again,
-- and there is no event. The number stays outstanding in the connection.
unfoldable pub fail : ℕ → Error → AioClient → AioClient
fail n e s = record s {
  sending = none;
  given_up = n ∷ s.given_up;
  returned = s.returned ++ (n, raise e) ∷ [];
}

-- `_request` where its caller is cancelled in the wait for the event, which stays.
unfoldable pub cancel : ℕ → Error → AioClient → AioClient
cancel n e s = record s { given_up = n ∷ s.given_up; returned = s.returned ++ (n, raise e) ∷ [] }

-- What `_handle_reply` makes of the reply that it took from the queue.
unfoldable pub answer_of : Bool → Response → Result Answer
answer_of true (payload, bytes) = ok (reply_bytes bytes)
answer_of false (ok_reply n r, bytes) = ok (reply_object r)
answer_of false (error_reply n e status, bytes) = raise (server_error e status)
answer_of false (async_msg m, bytes) = raise assertion_error

-- AioClient._handle_reply
unfoldable pub handle_reply : ℕ → Bool → AioClient → Result Answer × AioClient
handle_reply n return_bytes s = elim (Dict.get s.reply_queue n) [
  | none ↦ (raise assertion_error, s)
  | some w ↦ (answer_of return_bytes w, record s { reply_queue = Dict.remove s.reply_queue n })
]

-- `_request` behind the wait, for a caller of `request` or, with `return_bytes`, of `raw_request`.
unfoldable pub wake : ℕ → Bool → AioClient → AioClient
wake n return_bytes s =
    let s' = record s {
      outstanding_requests_events = Dict.remove s.outstanding_requests_events n;
    } in
    let w = handle_reply n return_bytes s' in
    record w.1 { returned = w.1.returned ++ (n, w.0) ∷ [] }

-- The branch of `_receive_response` for a reply; where the assertion fails, the receiver ends.
unfoldable pub enqueue_reply : ℕ → Response → AioClient → AioClient
enqueue_reply n w s =
    let queued = record s { reply_queue = Dict.put s.reply_queue n w } in
    elim (Dict.has s.outstanding_requests_events n) [
      | true ↦ record queued {
        outstanding_requests_events = Dict.put s.outstanding_requests_events n true;
      }
      | false ↦ record queued { receiving = false }
    ]

-- AioClient._receive_response
unfoldable pub receive_response : Response → AioClient → AioClient
receive_response (async_msg m, bytes) s = record s { asyncmsg_queue = s.asyncmsg_queue ++ m ∷ [] }
receive_response (ok_reply n r, bytes) s = enqueue_reply n (ok_reply n r, bytes) s
receive_response (error_reply n e status, bytes) s =
    enqueue_reply n (error_reply n e status, bytes) s

-- One round of `_run_response_receiver` on what the connection's buffer holds: a response is taken,
-- more bytes are awaited, or the exception ends the task.
unfoldable pub received : Result (Option Response) × Connection → AioClient → AioClient
received (ok (some w), conn) s = receive_response w (record s { conn = conn })
received (ok none, conn) s = record s { conn = conn }
received (raise e, conn) s = record s { conn = conn; receiving = false }

unfoldable pub receive : AioClient → AioClient
receive s = received (try_parse_response s.conn) s

-- The receiver behind its await of the stream reader's `read`, which returned bytes or raised. No bytes
-- are the end of the stream, a ReceiveError; an exception ends the task.
unfoldable pub read : Result Bytes → AioClient → AioClient
read (ok []) s = record s { receiving = false }
read (ok (b ∷ bytes)) s = record s { conn = Connection.append s.conn (b ∷ bytes) }
read (raise e) s = record s { receiving = false }

-- What `_run_asyncmsg_receiver` does with what the queue holds.
unfoldable pub next_message : List AsyncMessage → AioClient → AioClient
next_message [] s = s
next_message (m ∷ queue) s = record s { asyncmsg_queue = queue; handled = s.handled ++ m ∷ [] }

-- One round of `_run_asyncmsg_receiver`; a handler's exception is logged only.
unfoldable pub handle_message : AioClient → AioClient
handle_message s = next_message s.asyncmsg_queue s

-- ===== src/AioClient/Steps.antt =====
-- aio.py: in which order the tasks of an `AioClient` may go on.
use pylyskom.Base.{ℕ, ◌≡◌, Bytes, Bool, true, false, none, some, contains}
use pylyskom.Result.{Result, Error}
use pylyskom.Dict
use pylyskom.Requests.Request.{Request}
use pylyskom.AioClient.{
  AioClient, new_aio_client, send, register, wake, receive, read, handle_message, fail, cancel,
}

-- The lock lets one caller send at a time, a caller goes on once its event is set, unless it was
-- cancelled, and the receiver reads while it runs. The event loop chooses among the rest, the server
-- when bytes come, and the network and the application where callers fail or are cancelled.
pub data Step (s : AioClient) : AioClient → Type 0 where
  sends : (r : Request) → s.sending ≡ none → Step s (send r s)
  registers : (n : ℕ) → s.sending ≡ some n → Step s (register n s)
  wakes :
      (n : ℕ) (return_bytes : Bool)
      → Dict.get s.outstanding_requests_events n ≡ some true
      → contains s.given_up n ≡ false
      → Step s (wake n return_bytes s)
  fails : (n : ℕ) (e : Error) → s.sending ≡ some n → Step s (fail n e s)
  cancels :
      (n : ℕ) (e : Error) (is_set : Bool)
      → Dict.get s.outstanding_requests_events n ≡ some is_set
      → contains s.given_up n ≡ false
      → Step s (cancel n e s)
  reads : (r : Result Bytes) → s.receiving ≡ true → Step s (read r s)
  receives : s.receiving ≡ true → Step s (receive s)
  handles : Step s (handle_message s)

pub data Reach : AioClient → Type 0 where
  start : Reach new_aio_client
  later : {s t : AioClient} → Reach s → Step s t → Reach t

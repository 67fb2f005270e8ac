-- ===== src/Client.antt =====
-- cachedconnection.py: `Client`, which sends a request and reads responses until its own is there.
-- `incoming` is what the connection's `read_response` returns or raises from call to call.
pub mod Queues
use pylyskom.Base.{
  ℕ, List, [], ◌∷◌, ◌++◌, Bool, true, false, ◌||◌, Option, none, some, if◌then◌else◌,
}
use pylyskom.Result.{Result, ok, raise, Error, runtime_error, server_error}
use pylyskom.Dict
use pylyskom.Dict.{Dict}
use pylyskom.Errors.{ServerError}
use pylyskom.AsyncMessages.{AsyncMessage}
use pylyskom.Requests.Responses.{Reply}
use pylyskom.Connection.{Payload, ok_reply, error_reply, async_msg}

-- `handled` is the messages that the async handler was called with, in the order of the calls.
pub record Client : Type 0 where
  pub ok_queue : Dict Reply
  pub error_queue : Dict (ServerError × ℕ)
  pub handled : List AsyncMessage

unfoldable pub new_client : Client
new_client = record { ok_queue = []; error_queue = []; handled = [] }

-- Client._handle_async_message, with what the handler returns or raises; no handler is one that
-- returns.
unfoldable pub call_handler : (AsyncMessage → Result (Unit {0})) → Payload → Result (Unit {0})
call_handler handler (async_msg msg) = handler msg
call_handler handler _ = ok tt

-- The client after Client._read_response, with the response that the connection returned
unfoldable pub enqueue : Payload → Client → Client
enqueue (async_msg msg) c = record c { handled = c.handled ++ msg ∷ [] }
enqueue (error_reply ref_no e status) c = record c {
  error_queue = Dict.put c.error_queue ref_no (e, status);
}
enqueue (ok_reply ref_no resp) c = record c { ok_queue = Dict.put c.ok_queue ref_no resp }

unfoldable pub is_queued : ℕ → Client → Bool
is_queued ref_no c = Dict.has c.ok_queue ref_no || Dict.has c.error_queue ref_no

-- The lines of `_wait_and_dequeue` behind its `while`.
unfoldable pub dequeue : ℕ → Client → Result Reply × Client
dequeue ref_no c = elim (Dict.get c.ok_queue ref_no) [
  | some resp ↦ (ok resp, record c { ok_queue = Dict.remove c.ok_queue ref_no })
  | none ↦ elim (Dict.get c.error_queue ref_no) [
    | some (e, status) ↦
        (raise (server_error e status), record c { error_queue = Dict.remove c.error_queue ref_no })
    | none ↦ (raise runtime_error, c)
  ]
]

-- Client._wait_and_dequeue. Each round takes one response; the ones that are left come back. `ended`
-- is what the connection's `read_response` raises where `incoming` is over.
module _ (handler : AsyncMessage → Result (Unit {0})) (ended : Error) where
  unfoldable pub wait_and_dequeue :
      ℕ → List (Result Payload) → Client → Result Reply × Client × List (Result Payload)
  wait_and_dequeue ref_no [] c = elim (is_queued ref_no c) [
    | true ↦ let w = dequeue ref_no c in (w.0, w.1, [])
    | false ↦ (raise ended, c, [])
  ]
  wait_and_dequeue ref_no (ok p ∷ incoming) c = elim (is_queued ref_no c) [
    | true ↦ let w = dequeue ref_no c in (w.0, w.1, ok p ∷ incoming)
    | false ↦ elim (call_handler handler p) [
      | ok _ ↦ wait_and_dequeue ref_no incoming (enqueue p c)
      | raise e ↦ (raise e, enqueue p c, incoming)
    ]
  ]
  wait_and_dequeue ref_no (raise e ∷ incoming) c = elim (is_queued ref_no c) [
    | true ↦ let w = dequeue ref_no c in (w.0, w.1, raise e ∷ incoming)
    | false ↦ (raise e, c, incoming)
  ]

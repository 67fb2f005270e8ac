-- ===== src/Tests/Aio.antt =====
-- The theorems on `AioClient` at concrete inputs.
use pylyskom.Base.{◌≡◌, refl, Bytes, [], ◌∷◌, true, false, some, none}
use pylyskom.Result.{ok}
use pylyskom.Dict
use pylyskom.Protocol
use pylyskom.Datatypes.Basic.{parse_int}
use pylyskom.Requests.Request.{Request}
use pylyskom.Requests.Responses.{int, reply, response_dict}
use pylyskom.Connection
use pylyskom.Connection.{
  Response, ok_reply, new_connection, send_request, try_parse_response, parse_response,
  skip_newline,
}
use pylyskom.AioClient
use pylyskom.AioClient.{AioClient, new_aio_client, send, sent, receive, received, enqueue_reply}
use pylyskom.AioClient.Steps.{Reach, start, later, sends, registers, reads, receives}
use pylyskom.AioClient.Invariant.{IsConsistent, Reach-IsConsistent}
use pylyskom.AioClient.Progress.{register-reached}
use pylyskom.AioClient.Endings.{EndsBy, Step-EndsBy}

-- A request without arguments: who-am-i.
abbrev who_am_i : Request
who_am_i = record { call_no = 56; serialized_args = [] }

-- Two callers of an `AioClient`: the first one's event is there, and the second one's request was
-- written; it still drains.
abbrev one_sent : AioClient
one_sent = send who_am_i new_aio_client

abbrev one_waits_for_reply : AioClient
one_waits_for_reply = AioClient.register 1 one_sent

abbrev two_sent : AioClient
two_sent = send who_am_i one_waits_for_reply

one_sent_first : one_sent.sending ≡ some 1
unfolding send sent send_request Connection.write new_aio_client new_connection Dict.has
one_sent_first = refl

lock_is_free : one_waits_for_reply.sending ≡ none
unfolding send sent send_request Connection.write new_aio_client new_connection Dict.has
    AioClient.register
lock_is_free = refl

new_is_free : new_aio_client.sending ≡ none
unfolding new_aio_client
new_is_free = refl

one_sent-Reach : Reach one_sent
one_sent-Reach = later start (sends who_am_i new_is_free)

waits-Reach : Reach one_waits_for_reply
waits-Reach = later one_sent-Reach (registers 1 one_sent_first)

two_sent-Reach : Reach two_sent
two_sent-Reach = later waits-Reach (sends who_am_i lock_is_free)

Reach-IsConsistent_example : IsConsistent two_sent
Reach-IsConsistent_example = Reach-IsConsistent two_sent two_sent-Reach

register-reached_example :
    ((AioClient.register 1 one_sent).returned ≡ one_sent.returned)
    × ((AioClient.register 1 one_sent).sending ≡ none)
    × (Dict.get (AioClient.register 1 one_sent).outstanding_requests_events 1 ≡ some false)
register-reached_example = register-reached one_sent 1 one_sent-Reach one_sent_first

-- "=1 42\n"
abbrev reply_42 : Bytes
reply_42 = b'=' ∷ b'1' ∷ b' ' ∷ b'4' ∷ b'2' ∷ 10 ∷ []

-- The reply to the first request arrived once its event was there, and before that.
abbrev in_time : AioClient
in_time = AioClient.read (ok reply_42) one_waits_for_reply

abbrev too_early : AioClient
too_early = AioClient.read (ok reply_42) one_sent

abbrev answer_42 : Response
answer_42 = (ok_reply 1 (int 42), b'4' ∷ b'2' ∷ [])

early_runs : one_sent.receiving ≡ true
unfolding send sent send_request Connection.write new_aio_client new_connection Dict.has
early_runs = refl

too_early-Reach : Reach too_early
too_early-Reach = later one_sent-Reach (reads (ok reply_42) early_runs)

early_still_runs : too_early.receiving ≡ true
unfolding AioClient.read
early_still_runs = early_runs

-- The reply that is taken too early ends the receiver.
receiver_ends : (receive too_early).receiving ≡ false
unfolding receive received AioClient.receive_response enqueue_reply Connection.try_parse_response
    Connection.retry_later AioClient.read send sent send_request Connection.write new_aio_client
    new_connection Dict.has Dict.put parse_response Connection.on_buffer Protocol.read_first_non_ws
    Connection.append Connection.parse_kind Connection.parse_ok_reply Protocol.read_int
    Protocol.read_int_and_next Protocol.read_digits Connection.outstanding_call Dict.get Dict.remove
    Connection.taking Connection.with_taken Connection.taken Connection.forget
    Connection.parse_entry response_dict reply parse_int skip_newline
receiver_ends = refl

Step-EndsBy_example :
    ((receive too_early).receiving ≡ false → EndsBy too_early (receive too_early))
    × (EndsBy too_early (receive too_early) → (receive too_early).receiving ≡ false)
Step-EndsBy_example =
    Step-EndsBy too_early (receive too_early) too_early-Reach (receives early_still_runs)
      early_still_runs

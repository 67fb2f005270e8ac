-- ===== src/Connection/Blocking.antt =====
-- connection.py: `Connection`, whose reads block until the bytes are there. Its buffer here is the
-- stream that is left, which is what its ReceiveBuffer hands out (`Buffer.Refines`); it keeps the
-- call number of a request that waits, the only thing it asks of the request.
use pylyskom.Base.{◌+◌, ◌++◌, ◌==◌, ◌∷◌, ℕ, if◌then◌else◌, none, some}
use pylyskom.Result.{
  Result, ok, raise, Error, not_enough_data, receive_error, protocol_error, assertion_error,
  unimplemented_async, key_error,
}
use pylyskom.Errors.{ServerError, error_dict}
use pylyskom.Exec.{Exec, pure, throw, ◌>>=◌, ◌>>◌}
use pylyskom.Dict
use pylyskom.Dict.{Dict}
use pylyskom.Protocol
use pylyskom.Protocol.{Parser, decimal}
use pylyskom.AsyncMessages.{AsyncMessage, async_dict}
use pylyskom.Requests.Responses.{response_dict}
use pylyskom.Requests.Request.{Request, request_to_string}
use pylyskom.Connection.{
  Connection, Payload, ok_reply, error_reply, async_msg, on_buffer, outstanding_call, forget, write,
}

-- Where the asyncio buffer falls short of bytes, the blocking one has reached the end of the stream.
unfoldable pub at_end : Error → Error
at_end not_enough_data = receive_error
at_end e = e

unfoldable pub blocked : {A : Type 0} → Result A → Result A
blocked (ok a) = ok a
blocked (raise e) = raise (at_end e)

-- A reader of protocol.py on the connection's ReceiveBuffer.
unfoldable pub on_stream : {A : Type 0} → Parser A → Exec Connection A
on_stream p c = let w = on_buffer p c in (blocked w.0, w.1)

-- d[k].parse(self._buffer), or the error `e` for a missing key
unfoldable pub read_entry : {A : Type 0} → Dict (Parser A) → ℕ → Error → Exec Connection A
read_entry d k e = elim (Dict.get d k) [ none ↦ throw e | some p ↦ on_stream p ]

-- Connection._parse_ok_reply
unfoldable pub read_ok_reply : Exec Connection Payload
read_ok_reply = do
  ref_no ← on_stream Protocol.read_int
  call_no ← outstanding_call ref_no
  resp ← read_entry response_dict call_no (key_error call_no)
  _ ← forget ref_no
  pure (ok_reply ref_no resp)

-- error_dict[error_no](error_status), with the two numbers that are read before
unfoldable pub read_error : Exec Connection (ServerError × ℕ)
read_error = do
  error_no ← on_stream Protocol.read_int
  error_status ← on_stream Protocol.read_int
  elim (Dict.get error_dict error_no) [
    | none ↦ throw (key_error error_no)
    | some e ↦ pure (e, error_status)
  ]

-- Connection._parse_error_reply
unfoldable pub read_error_reply : Exec Connection Payload
read_error_reply = do
  ref_no ← on_stream Protocol.read_int
  _ ← outstanding_call ref_no
  w ← read_error
  _ ← forget ref_no
  pure (error_reply ref_no w.0 w.1)

unfoldable pub read_message : Exec Connection AsyncMessage
read_message = do
  _ ← on_stream Protocol.read_int
  msg_no ← on_stream Protocol.read_int
  read_entry async_dict msg_no (unimplemented_async msg_no)

-- Connection._parse_asynchronous_message
unfoldable pub read_asynchronous_message : Exec Connection Payload
read_asynchronous_message = do msg ← read_message; pure (async_msg msg)

unfoldable pub read_kind : ℕ → Exec Connection Payload
read_kind ch =
    if ch == b'='
    then read_ok_reply
    else if ch == b'%'
    then read_error_reply
    else if ch == b':'
    then read_asynchronous_message
    else throw protocol_error

-- Connection._parse_response
unfoldable pub read_payload : Exec Connection Payload
read_payload = do ch ← on_stream Protocol.read_first_non_ws; read_kind ch

-- Connection._send_request
unfoldable pub send_blocking : Request → Exec Connection ℕ
send_blocking request c =
    let ref_no = c.ref_no + 1 in
    let numbered = record c { ref_no = ref_no } in
    if Dict.has c.outstanding_requests ref_no
    then (raise assertion_error, numbered)
    else (write (decimal ref_no ++ b' ' ∷ request_to_string request) >> λ d. (
      ok ref_no,
      record d { outstanding_requests = Dict.put d.outstanding_requests ref_no request.call_no },
    ))
        numbered

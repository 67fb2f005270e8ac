-- ===== src/Connection.antt =====
-- aio.py: `AioConnection`, the requests that wait for their replies and the bytes received so far.
-- The buffer is the bytes that it has not handed out (`Buffer.Refines`); `written` is all that was
-- given to the stream writer.
pub mod Stable
pub mod Requests
pub mod Replies
pub mod Chunks
pub mod Wire
pub mod Blocking
pub mod Agreement
use pylyskom.Base.{
  ℕ, ◌+◌, ◌-◌, Bytes, [], ◌∷◌, ◌++◌, List, length, take, ltb, ◌==◌, if◌then◌else◌, Bool, true,
  false, Option, none, some,
}
use pylyskom.Result.{
  Result, ok, raise, Error, not_enough_data, receive_error, bad_initial_response, protocol_error,
  bad_request_id, unimplemented_async, key_error, assertion_error, server_error,
}
use pylyskom.Errors.{ServerError, error_dict}
use pylyskom.Exec.{Exec, pure, throw, lift, ◌>>=◌, ◌>>◌}
use pylyskom.Dict
use pylyskom.Dict.{Dict}
use pylyskom.Protocol
use pylyskom.Protocol.{Parser, decimal, to_hstring}
use pylyskom.AsyncMessages.{AsyncMessage, async_dict}
use pylyskom.Requests.Responses.{Reply, response_dict}
use pylyskom.Requests.Request.{Request, request_to_string}

pub record Connection : Type 0 where
  -- Last used ID
  pub ref_no : ℕ
  -- The call number of each request that waits for its reply.
  pub outstanding_requests : Dict ℕ
  pub buffer : Bytes
  pub written : Bytes

-- The 5-tuple that `read_response` returns, by its cases.
pub data Payload : Type 0 where
  ok_reply : ℕ → Reply → Payload
  error_reply : ℕ → ServerError → ℕ → Payload
  async_msg : AsyncMessage → Payload

abbrev pub Response : Type 0
Response = Payload × Bytes

-- AioConnection._reset_vars
unfoldable pub new_connection : Connection
new_connection = record { ref_no = 0; outstanding_requests = []; buffer = []; written = [] }

unfoldable pub write : Bytes → Exec Connection (Unit {0})
write s c = (ok tt, record c { written = c.written ++ s })

unfoldable pub bytes_eq : Bytes → Bytes → Bool
bytes_eq [] [] = true
bytes_eq (x ∷ s) (y ∷ t) = if x == y then bytes_eq s t else false
bytes_eq _ _ = false

-- A reader of protocol.py on the connection's buffer.
unfoldable pub on_buffer : {A : Type 0} → Parser A → Exec Connection A
on_buffer p c = let w = p c.buffer in (w.0, record c { buffer = w.1 })

-- AioReceiveBuffer.append
unfoldable pub append : Connection → Bytes → Connection
append c received = record c { buffer = c.buffer ++ received }

-- AioConnection._send_initial_string, `user` as latin1 bytes
unfoldable pub send_initial_string : Bytes → Exec Connection (Unit {0})
send_initial_string user = write (b'A' ∷ (to_hstring user ++ 10 ∷ []))

-- "LysKOM\n"
abbrev pub greeting : Bytes
greeting = b'L' ∷ b'y' ∷ b's' ∷ b'K' ∷ b'O' ∷ b'M' ∷ 10 ∷ []

-- AioConnection._receive_initial_reply, with what `readexactly` returned
unfoldable pub receive_initial_reply : Bytes → Exec Connection (Unit {0})
receive_initial_reply received c =
    (do
      resp ← on_buffer (Protocol.receive_string 7)
      if bytes_eq resp greeting then pure tt else throw bad_initial_response)
      (append c received)

-- AioConnection.send_request
unfoldable pub send_request : Request → Exec Connection ℕ
send_request request c =
    let ref_no = c.ref_no + 1 in
    let numbered = record c { ref_no = ref_no } in
    if Dict.has c.outstanding_requests ref_no
    then (raise assertion_error, numbered)
    else (write (decimal ref_no ++ b' ' ∷ request_to_string request) >> pure ref_no)
        (record numbered {
          outstanding_requests = Dict.put c.outstanding_requests ref_no request.call_no;
        })

unfoldable pub outstanding_call : ℕ → Exec Connection ℕ
outstanding_call ref_no c = elim (Dict.get c.outstanding_requests ref_no) [
  | none ↦ (raise (bad_request_id ref_no), c)
  | some call_no ↦ (ok call_no, c)
]

-- del self._outstanding_requests[ref_no]
unfoldable pub forget : ℕ → Exec Connection (Unit {0})
forget ref_no c =
    (ok tt, record c { outstanding_requests = Dict.remove c.outstanding_requests ref_no })

-- d[k].parse(self._buffer), or the error `e` for a missing key
unfoldable pub parse_entry : {A : Type 0} → Dict (Parser A) → ℕ → Error → Exec Connection A
parse_entry d k e = elim (Dict.get d k) [ none ↦ throw e | some p ↦ on_buffer p ]

-- The bytes that `m` took from the buffer: `_rb[buf_start:_rb_pos]`.
unfoldable pub taken : Connection → Connection → Bytes
taken before after = take (length before.buffer - length after.buffer) before.buffer

unfoldable pub with_taken : {A : Type 0} → Connection → A → Exec Connection (A × Bytes)
with_taken before a after = (ok (a, taken before after), after)

unfoldable pub taking : {A : Type 0} → Exec Connection A → Exec Connection (A × Bytes)
taking m c = (m >>= with_taken c) c

unfoldable pub parse_error : Exec Connection (ServerError × ℕ)
parse_error = do
  error_no ← on_buffer Protocol.read_int
  error_status ← on_buffer Protocol.read_int
  elim (Dict.get error_dict error_no) [
    | none ↦ throw (key_error error_no)
    | some e ↦ pure (e, error_status)
  ]

unfoldable pub parse_message : Exec Connection AsyncMessage
parse_message = do
  _ ← on_buffer Protocol.read_int
  msg_no ← on_buffer Protocol.read_int
  parse_entry async_dict msg_no (unimplemented_async msg_no)

-- AioConnection._parse_ok_reply
unfoldable pub parse_ok_reply : Exec Connection Response
parse_ok_reply = do
  ref_no ← on_buffer Protocol.read_int
  call_no ← outstanding_call ref_no
  w ← taking (parse_entry response_dict call_no (key_error call_no))
  _ ← forget ref_no
  pure (ok_reply ref_no w.0, w.1)

-- AioConnection._parse_error_reply
unfoldable pub parse_error_reply : Exec Connection Response
parse_error_reply = do
  ref_no ← on_buffer Protocol.read_int
  _ ← outstanding_call ref_no
  w ← taking parse_error
  _ ← forget ref_no
  pure (error_reply ref_no w.0.0 w.0.1, w.1)

-- AioConnection._parse_asynchronous_message
unfoldable pub parse_asynchronous_message : Exec Connection Response
parse_asynchronous_message = do w ← taking parse_message; pure (async_msg w.0, w.1)

unfoldable pub parse_kind : ℕ → Exec Connection Response
parse_kind ch =
    if ch == b'='
    then parse_ok_reply
    else if ch == b'%'
    then parse_error_reply
    else if ch == b':'
    then parse_asynchronous_message
    else throw protocol_error

-- reply_bytes[:-1]
unfoldable pub skip_newline : Bytes → Bytes
skip_newline s = take (length s - 1) s

-- AioConnection._parse_response
unfoldable pub parse_response : Exec Connection Response
parse_response = do
  ch ← on_buffer Protocol.read_first_non_ws
  w ← parse_kind ch
  pure (w.0, skip_newline w.1)

-- What `_try_parse_response` makes of the run: the buffer is put back where it fell short.
unfoldable pub retry_later :
    Connection → Result Response × Connection → Result (Option Response) × Connection
retry_later copy (ok r, c) = (ok (some r), c)
retry_later copy (raise not_enough_data, c) = (ok none, record c { buffer = copy.buffer })
retry_later copy (raise e, c) = (raise e, c)

-- AioConnection._try_parse_response
unfoldable pub try_parse_response : Exec Connection (Option Response)
try_parse_response c = retry_later c (parse_response c)

-- The rounds of the `while` of `_read_response`, each from what `_try_parse_response` gave; `chunks`
-- is what the stream reader's `read` returns from call to call, and it returns nothing from the end
-- of the stream on. The chunks that are left come back.
unfoldable pub read_more :
    List Bytes → Result (Option Response) × Connection → Result Response × Connection × List Bytes
read_more chunks (ok (some r), c) = (ok r, c, chunks)
read_more chunks (raise e, c) = (raise e, c, chunks)
read_more [] (ok none, c) = (raise receive_error, c, [])
read_more ([] ∷ chunks) (ok none, c) = (raise receive_error, c, chunks)
read_more ((x ∷ received) ∷ chunks) (ok none, c) =
    read_more chunks (try_parse_response (append c (x ∷ received)))

-- AioConnection._read_response
unfoldable pub read_response : List Bytes → Connection → Result Response × Connection × List Bytes
read_response chunks c = read_more chunks (try_parse_response c)

-- ===== src/AioClient/Invariant.antt =====
-- aio.py: every step of an `AioClient`, and what holds between its parts.
use mathlib.Core.Path.{subst}
use pylyskom.Base.{
  ℕ, ◌+◌, ◌≡◌, refl, Bytes, sym, ap, ◌∙◌, inl, inr, List, [], ◌∷◌, Bool, true, false, Bool-cases,
  Option, none, some, ◌==◌, if◌then◌else◌, ==_refl,
}
use pylyskom.Result.{Result, ok, raise}
use pylyskom.Dict
use pylyskom.Dict.{Dict}
use pylyskom.AsyncMessages.{AsyncMessage}
use pylyskom.Requests.Request.{Request}
use pylyskom.Connection
use pylyskom.Connection.{
  Connection, Response, Payload, ok_reply, error_reply, async_msg, new_connection,
  try_parse_response,
}
use pylyskom.Connection.Replies.{
  Rest, rest, answered, WasWaiting, TrySettles, try_parse_response-TrySettles,
}
use pylyskom.Connection.Requests
use pylyskom.Connection.Requests.{send_request-IsValid}
use pylyskom.Client.Queues.{answers}
use pylyskom.AioClient.{
  AioClient, new_aio_client, sent, send, register, handle_reply, wake, enqueue_reply,
  receive_response, received, receive, read, next_message, handle_message, fail, cancel,
}
use pylyskom.AioClient.Steps.{
  Step, sends, registers, fails, cancels, wakes, reads, receives, handles, Reach, start, later,
}
use pylyskom.AioClient.Events.{
  Consistent, send-Consistent, register-Consistent, receive-Consistent, receive_early-Consistent,
  wake-Consistent, fail-Consistent, cancel-Consistent,
}

abbrev pub IsConsistent : AioClient → Type 0
IsConsistent s =
    Consistent s.conn.ref_no s.conn.outstanding_requests s.outstanding_requests_events s.sending
      s.reply_queue s.given_up

-- The same, by all of the connection but its buffer.
abbrev At : Rest → AioClient → Type 0
At z s = Consistent z.0 z.1 s.outstanding_requests_events s.sending s.reply_queue s.given_up

new_aio_client-IsConsistent : IsConsistent new_aio_client
unfolding new_aio_client new_connection Dict.get
new_aio_client-IsConsistent = record {
  unused = λ n h. refl;
  no_event = λ n h. refl;
  being_sent = λ n e. absurd cc;
  covered = λ n k e. absurd cc;
  queued = λ n e. absurd cc;
}

sent-IsConsistent :
    (s : AioClient) (call_no : ℕ) (w : Result ℕ × Connection)
    → IsConsistent s
    → s.sending ≡ none
    → w.0 ≡ ok (s.conn.ref_no + 1)
    → w.1.ref_no ≡ s.conn.ref_no + 1
    → ((k : ℕ)
        → Dict.get w.1.outstanding_requests k ≡ (
            if s.conn.ref_no + 1 == k
            then some call_no
            else Dict.get s.conn.outstanding_requests k))
    → IsConsistent (sent w s)
unfolding sent
sent-IsConsistent s call_no (ok n, c) h free e last there =
    let same : n ≡ s.conn.ref_no + 1 = cc in
    subst
      (λ m.
        Consistent c.ref_no c.outstanding_requests s.outstanding_requests_events (some m)
          s.reply_queue s.given_up)
      (sym same)
      (subst
        (λ m.
          Consistent m c.outstanding_requests s.outstanding_requests_events
            (some (s.conn.ref_no + 1)) s.reply_queue s.given_up)
        (sym last) (send-Consistent h c.outstanding_requests call_no free there))
sent-IsConsistent s call_no (raise x, c) h free e last there = absurd cc

ref_no-send_request :
    (r : Request) (c : Connection) → (Connection.send_request r c).1.ref_no ≡ c.ref_no + 1
unfolding Connection.send_request Connection.write
ref_no-send_request r c = elim (Bool-cases (Dict.has c.outstanding_requests (c.ref_no + 1))) [
  | inl known ↦ rw (known, Connection.send_request) refl
  | inr unknown ↦ rw (unknown, Connection.send_request) refl
]

send-IsConsistent :
    (r : Request) (s : AioClient) → IsConsistent s → s.sending ≡ none → IsConsistent (send r s)
unfolding send
send-IsConsistent r s h free =
    let valid : Connection.Requests.IsValid s.conn = record { unused = h.unused } in
    let (returns, v, written, fresh, there) = send_request-IsValid r s.conn valid in
    sent-IsConsistent s r.call_no (Connection.send_request r s.conn) h free returns
      (ref_no-send_request r s.conn) there

register-IsConsistent :
    (n : ℕ) (s : AioClient) → IsConsistent s → s.sending ≡ some n → IsConsistent (register n s)
unfolding register
register-IsConsistent n s h e =
    let free : Dict.has s.outstanding_requests_events n ≡ false =
      Dict.has-get s.outstanding_requests_events n ∙ rw (h.being_sent n e).1 refl in
    rw (free, register) (register-Consistent h n e)

wake-IsConsistent :
    (n : ℕ) (b : Bool) (s : AioClient)
    → IsConsistent s
    → Dict.get s.outstanding_requests_events n ≡ some true
    → IsConsistent (wake n b s)
unfolding wake handle_reply
wake-IsConsistent n b s h e =
    let (w, there, it) = h.queued n e in rw (there, handle_reply, wake) (wake-Consistent h n e)

enqueue_reply-IsConsistent :
    (n k : ℕ) (w : Response) (d : Dict ℕ) (s : AioClient)
    → At (s.conn.ref_no, d, s.conn.written) s
    → Dict.get d n ≡ some k
    → answers n w.0 ≡ true
    → s.conn.outstanding_requests ≡ Dict.remove d n
    → IsConsistent (enqueue_reply n w s)
unfolding enqueue_reply
enqueue_reply-IsConsistent n k w d s h waiting a gone = elim (h.covered n k waiting) [
  | inl waits ↦
      let there : Dict.has s.outstanding_requests_events n ≡ true =
        Dict.has-get s.outstanding_requests_events n ∙ rw waits refl in
      rw (there, enqueue_reply, gone) (receive-Consistent h n w waits a)
  | inr (inl busy) ↦ early (h.being_sent n busy).1
  | inr (inr (given_up, absent)) ↦ early absent
]
  where
    early : Dict.get s.outstanding_requests_events n ≡ none → IsConsistent (enqueue_reply n w s)
    early absent =
        let missing : Dict.has s.outstanding_requests_events n ≡ false =
          Dict.has-get s.outstanding_requests_events n ∙ rw absent refl in
        rw (missing, enqueue_reply, gone) (receive_early-Consistent h n w absent)

receive_response-IsConsistent :
    (w : Response) (z : Rest) (s : AioClient)
    → At z s
    → WasWaiting w.0 z.1
    → rest s.conn ≡ (z.0, answered w.0 z.1, z.2)
    → IsConsistent (receive_response w s)
unfolding receive_response
receive_response-IsConsistent (ok_reply n r, bytes) (last, d, written) s h (k, waiting) e =
    enqueue_reply-IsConsistent n k _ d s
      (subst (λ m. At (m, d, written) s) (sym (ap (λ (y : Rest). y.0) e)) h) waiting (==_refl n)
      (ap (λ (y : Rest). y.1) e)
receive_response-IsConsistent (error_reply n x status, bytes) (last, d, written) s h (k, waiting)
      e =
    enqueue_reply-IsConsistent n k _ d s
      (subst (λ m. At (m, d, written) s) (sym (ap (λ (y : Rest). y.0) e)) h) waiting (==_refl n)
      (ap (λ (y : Rest). y.1) e)
receive_response-IsConsistent (async_msg m, bytes) (last, d, written) s h was e =
    subst (λ z. At z s) (sym e) h

received-IsConsistent :
    (w : Result (Option Response) × Connection) (s : AioClient)
    → IsConsistent s
    → TrySettles (rest s.conn) w
    → IsConsistent (received w s)
unfolding received
received-IsConsistent (ok (some w), c) s h (was, e) =
    receive_response-IsConsistent w (rest s.conn) (record s { conn = c }) h was e
received-IsConsistent (ok none, c) s h e = subst (λ z. At z s) (sym e) h
received-IsConsistent (raise x, c) s h e = subst (λ z. At z s) (sym e) h

read-IsConsistent : (r : Result Bytes) (s : AioClient) → IsConsistent s → IsConsistent (read r s)
unfolding read Connection.append
read-IsConsistent (ok []) s h = h
read-IsConsistent (ok (b ∷ bytes)) s h = h
read-IsConsistent (raise e) s h = h

next_message-IsConsistent :
    (queue : List AsyncMessage) (s : AioClient)
    → IsConsistent s
    → IsConsistent (next_message queue s)
unfolding next_message
next_message-IsConsistent [] s h = h
next_message-IsConsistent (m ∷ queue) s h = h

pub Step-IsConsistent : {s t : AioClient} → IsConsistent s → Step s t → IsConsistent t
unfolding receive handle_message fail cancel
Step-IsConsistent {s} h (sends r free) = send-IsConsistent r s h free
Step-IsConsistent {s} h (registers n e) = register-IsConsistent n s h e
Step-IsConsistent {s} h (fails n x e) = fail-Consistent h n e
Step-IsConsistent {s} h (cancels n x b e there) = cancel-Consistent h n
Step-IsConsistent {s} h (wakes n b e there) = wake-IsConsistent n b s h e
Step-IsConsistent {s} h (reads r e) = read-IsConsistent r s h
Step-IsConsistent {s} h (receives e) =
    received-IsConsistent (try_parse_response s.conn) s h (try_parse_response-TrySettles s.conn)
Step-IsConsistent {s} h handles = next_message-IsConsistent s.asyncmsg_queue s h

-- In every state that the tasks of an `AioClient` reach, in whatever order they go on, whatever bytes
-- arrive, and wherever sending or reading raises or a caller is cancelled: no number beyond the
-- connection's last is waiting or has an event; the request being sent has no event yet; a number
-- that waits in the connection has an event that is not set, or is being sent, or has no event and
-- its caller gave up; and where an event is set, a reply to that number is in the reply
-- queue.
pub Reach-IsConsistent : (s : AioClient) → Reach s → IsConsistent s
Reach-IsConsistent s start = new_aio_client-IsConsistent
Reach-IsConsistent s (later before step) = Step-IsConsistent (Reach-IsConsistent _ before) step

-- ===== src/AioClient/Endings.antt =====
-- aio.py: where the response receiver of an `AioClient` ends.

use pylyskom.Base.{
  ℕ, ◌≡◌, refl, sym, ap, ◌∙◌, ◌⊎◌, inl, inr, contains, Bytes, List, Bool-cases, [], ◌∷◌, Bool, true,
  false, Option, none, some, ==_refl,
}
use pylyskom.Result.{Result, ok, raise, Error}
use pylyskom.Dict
use pylyskom.Dict.{Dict}
use pylyskom.AsyncMessages.{AsyncMessage}
use pylyskom.Connection
use pylyskom.Connection.{
  Connection, Response, Payload, ok_reply, error_reply, async_msg, try_parse_response,
}
use pylyskom.Connection.Replies.{rest, TrySettles, try_parse_response-TrySettles}
use pylyskom.Client.Queues.{answers}
use pylyskom.AioClient.{
  AioClient, sent, send, register, fail, cancel, read, next_message, handle_message, enqueue_reply,
  receive_response, received, receive,
}
use pylyskom.AioClient.Steps.{
  Step, sends, registers, fails, cancels, wakes, reads, receives, handles, Reach,
}
use pylyskom.AioClient.Invariant.{IsConsistent, Reach-IsConsistent}
use pylyskom.AioClient.Progress.{
  enqueue_reply-Delivered, receive_response-enqueue_reply, received-taken, receiving-wake,
}

-- A reply to a request that has no event, as its caller still sends it, or gave up while it did.
abbrev pub HasNoEvent : ℕ → AioClient → Type 0
HasNoEvent n s =
    (Dict.get s.outstanding_requests_events n ≡ none)
    × ((s.sending ≡ some n) ⊎ (contains s.given_up n ≡ true))

-- What a round of the receiver finds in the buffer as it ends: nothing that can be read, or a reply to
-- a request without an event.
abbrev pub Ends : AioClient → Type 0
Ends s =
    ((x : Error) × ((try_parse_response s.conn).0 ≡ raise x))
    ⊎ ((n : ℕ) × (w : Response) × ((try_parse_response s.conn).0 ≡ ok (some w))
        × (answers n w.0 ≡ true)
        × HasNoEvent n s)

-- What ends the receiver in a step from `s` to `t`: what is in the buffer, the end of the stream, or
-- that reading from it raises.
abbrev pub EndsBy : AioClient → AioClient → Type 0
EndsBy s t =
    ((t ≡ receive s) × Ends s) ⊎ (t ≡ read (ok []) s) ⊎ ((x : Error) × (t ≡ read (raise x) s))

enqueue_reply-receiving :
    (n k : ℕ) (w : Response) (s t : AioClient)
    → IsConsistent s
    → Dict.get s.conn.outstanding_requests n ≡ some k
    → t.outstanding_requests_events ≡ s.outstanding_requests_events
    → t.receiving ≡ true
    → (enqueue_reply n w t).receiving ≡ false
    → HasNoEvent n s
enqueue_reply-receiving n k w s t h waiting same running ends = elim (h.covered n k waiting) [
  | inl waits ↦
      let x : true ≡ false =
        sym running
        ∙ sym (enqueue_reply-Delivered n w t (ap (λ d. Dict.get d n) same ∙ waits)).0
        ∙ ends in
      absurd cc
  | inr (inl busy) ↦ ((h.being_sent n busy).1, inl busy)
  | inr (inr (gone, absent)) ↦ (absent, inr gone)
]

received-Ends :
    (s : AioClient) (u : Result (Option Response) × Connection)
    → try_parse_response s.conn ≡ u
    → IsConsistent s
    → TrySettles (rest s.conn) u
    → s.receiving ≡ true
    → (received u s).receiving ≡ false
    → Ends s
unfolding received receive_response
received-Ends s (raise x, c) e h was running ends = inl (x, ap (λ y. y.0) e)
received-Ends s (ok none, c) e h was running ends =
    let x : true ≡ false = sym running ∙ ends in absurd cc
received-Ends s (ok (some (async_msg m, bytes)), c) e h was running ends =
    let x : true ≡ false = sym running ∙ ends in absurd cc
received-Ends s (ok (some (ok_reply n r, bytes)), c) e h ((k, waiting), left) running ends = inr (
  n,
  (ok_reply n r, bytes),
  ap (λ y. y.0) e,
  ==_refl n,
  enqueue_reply-receiving n k _ s (record s { conn = c }) h waiting refl running ends,
)
received-Ends s (ok (some (error_reply n x status, bytes)), c) e h ((k, waiting), left) running
      ends =
    inr (
      n,
      (error_reply n x status, bytes),
      ap (λ y. y.0) e,
      ==_refl n,
      enqueue_reply-receiving n k _ s (record s { conn = c }) h waiting refl running ends,
    )

receive-Ends :
    (s : AioClient) → Reach s → s.receiving ≡ true → (receive s).receiving ≡ false → Ends s
unfolding receive
receive-Ends s r running ends =
    received-Ends s (try_parse_response s.conn) refl (Reach-IsConsistent s r)
      (try_parse_response-TrySettles s.conn) running ends

-- Every other step leaves the receiver running.
runs : {B : Type 0} {b : Bool} → b ≡ true → b ≡ false → B
runs e f = absurd cc

receiving-sent : (w : Result ℕ × Connection) (s : AioClient) → (sent w s).receiving ≡ s.receiving
unfolding sent
receiving-sent (ok n, c) s = refl
receiving-sent (raise e, c) s = refl

receiving-register : (n : ℕ) (s : AioClient) → (register n s).receiving ≡ s.receiving
unfolding register
receiving-register n s = elim (Bool-cases (Dict.has s.outstanding_requests_events n)) [
  | inl there ↦ rw (there, register) refl
  | inr absent ↦ rw (absent, register) refl
]

receiving-next_message :
    (queue : List AsyncMessage) (s : AioClient) → (next_message queue s).receiving ≡ s.receiving
unfolding next_message
receiving-next_message [] s = refl
receiving-next_message (m ∷ queue) s = refl

read-EndsBy :
    (r : Result Bytes) (s : AioClient)
    → s.receiving ≡ true
    → (read r s).receiving ≡ false
    → EndsBy s (read r s)
unfolding read
read-EndsBy (ok []) s running ends = inr (inl refl)
read-EndsBy (ok (b ∷ bytes)) s running ends = runs running ends
read-EndsBy (raise x) s running ends = inr (inr (x, refl))

ending-EndsBy :
    (s t : AioClient) → Reach s → Step s t → s.receiving ≡ true → t.receiving ≡ false → EndsBy s t
unfolding send fail cancel handle_message
ending-EndsBy s t r (sends request free) running ends =
    runs (receiving-sent (Connection.send_request request s.conn) s ∙ running) ends
ending-EndsBy s t r (registers n e) running ends = runs (receiving-register n s ∙ running) ends
ending-EndsBy s t r (fails n x e) running ends = runs running ends
ending-EndsBy s t r (cancels n x b e there) running ends = runs running ends
ending-EndsBy s t r (wakes n b e there) running ends =
    let (w, in_queue, it) = (Reach-IsConsistent s r).queued n e in
    runs (receiving-wake s n w b s in_queue ∙ running) ends
ending-EndsBy s t r (reads x e) running ends = read-EndsBy x s running ends
ending-EndsBy s t r (receives e) running ends = inl (refl, receive-Ends s r running ends)
ending-EndsBy s t r handles running ends =
    runs (receiving-next_message s.asyncmsg_queue s ∙ running) ends

received-raised :
    (u : Result (Option Response) × Connection) (x : Error) (s : AioClient)
    → u.0 ≡ raise x
    → (received u s).receiving ≡ false
unfolding received
received-raised (raise y, c) x s e = refl
received-raised (ok w, c) x s e = absurd cc

enqueue_reply-ends :
    (n : ℕ) (w : Response) (s : AioClient)
    → Dict.get s.outstanding_requests_events n ≡ none
    → (enqueue_reply n w s).receiving ≡ false
unfolding enqueue_reply
enqueue_reply-ends n w s e =
    let missing : Dict.has s.outstanding_requests_events n ≡ false =
      Dict.has-get s.outstanding_requests_events n ∙ rw e refl in
    rw (missing, enqueue_reply) refl

Ends-receive : (s : AioClient) → Ends s → (receive s).receiving ≡ false
unfolding receive
Ends-receive s (inl (x, e)) = received-raised (try_parse_response s.conn) x s e
Ends-receive s (inr (n, w, e, a, (absent, why))) =
    let t = record s { conn = (try_parse_response s.conn).1 } in
    ap (λ u. u.receiving)
      (received-taken (try_parse_response s.conn) w s e ∙ receive_response-enqueue_reply n w t a)
    ∙ enqueue_reply-ends n w t absent

EndsBy-ends : (s t : AioClient) → EndsBy s t → t.receiving ≡ false
unfolding read
EndsBy-ends s t (inl (is, h)) = ap (λ u. u.receiving) is ∙ Ends-receive s h
EndsBy-ends s t (inr (inl is)) = ap (λ u. u.receiving) is
EndsBy-ends s t (inr (inr (x, is))) = ap (λ u. u.receiving) is

-- In a reachable state of an `AioClient` whose response receiver runs, a step of any task ends it
-- exactly in these ways: a round of the receiver finds in the buffer what `_parse_response` raises on,
-- or a reply to a request that has no event, since its caller still sends it or has failed or been
-- cancelled while it did; or the stream has ended, or reading from it raises.
pub Step-EndsBy :
    (s t : AioClient)
    → Reach s
    → Step s t
    → s.receiving ≡ true
    → (t.receiving ≡ false → EndsBy s t) × (EndsBy s t → t.receiving ≡ false)
Step-EndsBy s t r step running = (ending-EndsBy s t r step running, EndsBy-ends s t)

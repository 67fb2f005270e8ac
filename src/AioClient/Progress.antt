-- ===== src/AioClient/Progress.antt =====
-- aio.py: how an `AioClient` brings a reply to the caller of its request.
use pylyskom.Base.{ℕ, ◌≡◌, refl, ap, ◌∙◌, Bool, true, false, Option, none, some, arith}
use pylyskom.Result.{Result, ok, raise}
use pylyskom.Dict
use pylyskom.Dict.{Dict}
use pylyskom.Connection.{Connection, Response, ok_reply, error_reply, async_msg}
use pylyskom.Client.Queues.{answers}
use pylyskom.AioClient.{
  AioClient, register, handle_reply, wake, enqueue_reply, receive_response, received,
}
use pylyskom.AioClient.Steps.{Reach}
use pylyskom.AioClient.Events.{get-put-same}
use pylyskom.AioClient.Invariant.{Reach-IsConsistent}

-- Where the event of the request being sent would be there already, the caller would get an error.
-- In a reachable state it is not: the request being sent gets its event, not set, nothing is
-- returned to anybody, and the lock is free.
pub register-reached :
    (s : AioClient) (n : ℕ)
    → Reach s
    → s.sending ≡ some n
    → ((register n s).returned ≡ s.returned)
      × ((register n s).sending ≡ none)
      × (Dict.get (register n s).outstanding_requests_events n ≡ some false)
unfolding register
register-reached s n r e =
    let absent : Dict.has s.outstanding_requests_events n ≡ false =
      Dict.has-get s.outstanding_requests_events n
      ∙ rw ((Reach-IsConsistent s r).being_sent n e).1 refl in
    rw (absent, register) (refl, refl, get-put-same s.outstanding_requests_events n false)

-- A reply that was taken is put in the queue, and its event is set.
abbrev pub Delivered : ℕ → Response → AioClient → AioClient → Type 0
Delivered n w s t =
    (t.receiving ≡ s.receiving)
    × (t.given_up ≡ s.given_up)
    × (t.returned ≡ s.returned)
    × (Dict.get t.reply_queue n ≡ some w)
    × (Dict.get t.outstanding_requests_events n ≡ some true)

pub enqueue_reply-Delivered :
    (n : ℕ) (w : Response) (s : AioClient)
    → Dict.get s.outstanding_requests_events n ≡ some false
    → Delivered n w s (enqueue_reply n w s)
unfolding enqueue_reply
enqueue_reply-Delivered n w s e =
    let there : Dict.has s.outstanding_requests_events n ≡ true =
      Dict.has-get s.outstanding_requests_events n ∙ rw e refl in
    rw (there, enqueue_reply)
      (
        refl,
        refl,
        refl,
        get-put-same s.reply_queue n w,
        get-put-same s.outstanding_requests_events n true,
      )

pub receive_response-enqueue_reply :
    (n : ℕ) (w : Response) (s : AioClient)
    → answers n w.0 ≡ true
    → receive_response w s ≡ enqueue_reply n w s
unfolding receive_response
receive_response-enqueue_reply n (ok_reply k r, bytes) s a =
    let e : k ≡ n = ground arith in ap (λ j. enqueue_reply j (ok_reply k r, bytes) s) e
receive_response-enqueue_reply n (error_reply k x status, bytes) s a =
    let e : k ≡ n = ground arith in ap (λ j. enqueue_reply j (error_reply k x status, bytes) s) e
receive_response-enqueue_reply n (async_msg m, bytes) s a = absurd cc

pub received-taken :
    (u : Result (Option Response) × Connection) (w : Response) (s : AioClient)
    → u.0 ≡ ok (some w)
    → received u s ≡ receive_response w (record s { conn = u.1 })
unfolding received
received-taken (ok (some v), c) w s e =
    let same : v ≡ w = cc in ap (λ x. receive_response x (record s { conn = c })) same
received-taken (ok none, c) w s e = absurd cc
received-taken (raise x, c) w s e = absurd cc

module _ (s : AioClient) (n : ℕ) (w : Response) where
  pub receiving-wake :
      (b : Bool) (t : AioClient)
      → Dict.get t.reply_queue n ≡ some w
      → (wake n b t).receiving ≡ t.receiving
  unfolding wake handle_reply
  receiving-wake b t e = rw (e, handle_reply, wake) refl

-- ===== src/Client/Queues.antt =====
-- cachedconnection.py: `Client`, and the order in which the responses come.
use pylyskom.Base.{
  ℕ, ◌≡◌, refl, sym, ap, ◌∙◌, List, [], ◌∷◌, ◌++◌, map, append_assoc, append-nil, Bool, true, false,
  ◌||◌, ◌==◌, All,
}
use pylyskom.Result.{Result, ok, raise, Error, runtime_error, server_error}
use pylyskom.Dict
use pylyskom.Dict.{Dict}
use pylyskom.AsyncMessages.{AsyncMessage}
use pylyskom.Requests.Responses.{Reply}
use pylyskom.Connection.{Payload, ok_reply, error_reply, async_msg}
use pylyskom.Client.{Client, call_handler, enqueue, is_queued, dequeue, wait_and_dequeue}

-- The number of the request that a response answers.
abbrev pub answers : ℕ → Payload → Bool
answers n (ok_reply k r) = k == n
answers n (error_reply k e status) = k == n
answers n (async_msg m) = false

-- What the caller of `request` sees of an answer.
abbrev pub outcome : Payload → Result Reply
outcome (ok_reply k r) = ok r
outcome (error_reply k e status) = raise (server_error e status)
outcome (async_msg m) = raise runtime_error

-- The client once all of `ps` were put in their queues, or given to the handler.
abbrev pub enqueue_all : List Payload → Client → Client
enqueue_all [] c = c
enqueue_all (p ∷ ps) c = enqueue_all ps (enqueue p c)

-- The messages among responses, in their order.
abbrev pub messages : List Payload → List AsyncMessage
messages [] = []
messages (async_msg m ∷ ps) = m ∷ messages ps
messages (p ∷ ps) = messages ps

abbrev pub returned : List Payload → List (Result Payload)
returned ps = map ok ps

queued-other :
    (n : ℕ) (p : Payload) (c : Client)
    → answers n p ≡ false
    → is_queued n c ≡ false
    → is_queued n (enqueue p c) ≡ false
unfolding is_queued enqueue
queued-other n (ok_reply k r) c h q = rw (Dict.has-put c.ok_queue k n r, h) q
queued-other n (error_reply k e status) c h q = rw (Dict.has-put c.error_queue k n (e, status), h) q
queued-other n (async_msg m) c h q = q

handled-enqueue_all :
    (ps : List Payload) (c : Client) → (enqueue_all ps c).handled ≡ c.handled ++ messages ps
unfolding enqueue
handled-enqueue_all [] c = sym (append-nil c.handled)
handled-enqueue_all (async_msg m ∷ ps) c =
    handled-enqueue_all ps _ ∙ append_assoc c.handled (m ∷ []) (messages ps)
handled-enqueue_all (ok_reply k r ∷ ps) c =
    handled-enqueue_all ps (record c { ok_queue = Dict.put c.ok_queue k r })
handled-enqueue_all (error_reply k e s ∷ ps) c =
    handled-enqueue_all ps (record c { error_queue = Dict.put c.error_queue k (e, s) })

or_left : (a b : Bool) → (a || b) ≡ false → a ≡ false
or_left true b h = let x : true ≡ false = h in absurd cc
or_left false b h = refl

or_right : (a b : Bool) → (a || b) ≡ false → b ≡ false
or_right true b h = let x : true ≡ false = h in absurd cc
or_right false b h = h

module _ (n : ℕ) where
  answer-queued :
      (p : Payload) (c : Client)
      → answers n p ≡ true
      → is_queued n c ≡ false
      → (is_queued n (enqueue p c) ≡ true) × (dequeue n (enqueue p c) ≡ (outcome p, c))
  unfolding is_queued enqueue dequeue
  answer-queued (ok_reply k r) c h q =
      let absent : Dict.has c.ok_queue n ≡ false = or_left (Dict.has c.ok_queue n) _ q in
      (
        rw (Dict.has-put c.ok_queue k n r, h) refl,
        rw (Dict.get-put c.ok_queue k n r, h, dequeue)
            (ap (λ d. (ok r, record c { ok_queue = d }))
              (Dict.remove-put c.ok_queue k n r h absent)),
      )
  answer-queued (error_reply k e status) c h q =
      let absent : Dict.has c.ok_queue n ≡ false = or_left (Dict.has c.ok_queue n) _ q in
      let absent' : Dict.has c.error_queue n ≡ false = or_right (Dict.has c.ok_queue n) _ q in
      (
        rw (absent, Dict.has-put c.error_queue k n (e, status), h) refl,
        rw
            (
              Dict.get-absent c.ok_queue n absent,
              dequeue,
              Dict.get-put c.error_queue k n (e, status),
              h,
            )
            (ap (λ d. (raise (server_error e status), record c { error_queue = d }))
              (Dict.remove-put c.error_queue k n (e, status) h absent')),
      )
  answer-queued (async_msg m) c h q = let x : false ≡ true = h in absurd cc

-- The handler returns where it is called.
abbrev pub IsQuiet : (AsyncMessage → Result (Unit {0})) → Payload → Type 0
IsQuiet handler p = call_handler handler p ≡ ok tt

-- The response that was read, if any.
abbrev pub brought : Result Payload → List Payload
brought (raise x) = []
brought (ok p) = p ∷ []

-- What raises `e`: reading the next response, or handling it.
abbrev pub Raises : (AsyncMessage → Result (Unit {0})) → Error → Result Payload → Type 0
Raises handler e (raise x) = x ≡ e
Raises handler e (ok p) = call_handler handler p ≡ raise e

-- The client after that.
abbrev pub left : Result Payload → Client → Client
left (raise x) c = c
left (ok p) c = enqueue p c

module _ (handler : AsyncMessage → Result (Unit {0})) (ended : Error) where
  -- A wait for a reply that is queued reads nothing.
  wait_and_dequeue-queued :
      (n : ℕ) (later : List (Result Payload)) (c : Client)
      → is_queued n c ≡ true
      → wait_and_dequeue handler ended n later c ≡ ((dequeue n c).0, (dequeue n c).1, later)
  unfolding wait_and_dequeue
  wait_and_dequeue-queued n [] c q = rw (q, wait_and_dequeue) refl
  wait_and_dequeue-queued n (ok p ∷ later) c q = rw (q, wait_and_dequeue) refl
  wait_and_dequeue-queued n (raise e ∷ later) c q = rw (q, wait_and_dequeue) refl

  wait_and_dequeue-reads :
      (n : ℕ) (p : Payload) (later : List (Result Payload)) (c : Client)
      → is_queued n c ≡ false
      → IsQuiet handler p
      → wait_and_dequeue handler ended n (ok p ∷ later) c
        ≡ wait_and_dequeue handler ended n later (enqueue p c)
  unfolding wait_and_dequeue
  wait_and_dequeue-reads n p later c q quiet = rw (q, quiet, wait_and_dequeue) refl

  -- Responses that do not answer `n` are enqueued, one after the other.
  wait_and_dequeue-returned :
      (n : ℕ) (before : List Payload) (later : List (Result Payload)) (c : Client)
      → is_queued n c ≡ false
      → All (λ q. answers n q ≡ false) before
      → All (IsQuiet handler) before
      → (wait_and_dequeue handler ended n (returned before ++ later) c
          ≡ wait_and_dequeue handler ended n later (enqueue_all before c))
        × (is_queued n (enqueue_all before c) ≡ false)
  wait_and_dequeue-returned n [] later c q others quiet = (refl, q)
  wait_and_dequeue-returned n (b ∷ before) later c q (other, others) (quiet, all_quiet) =
      let (rest, still) =
        wait_and_dequeue-returned n before later (enqueue b c) (queued-other n b c other q) others
          all_quiet in
      (wait_and_dequeue-reads n b _ c q quiet ∙ rest, still)

  module _ (n : ℕ) (before : List Payload) (later : List (Result Payload)) (c : Client)
      (q : is_queued n c ≡ false) (others : All (λ p. answers n p ≡ false) before)
      (quiet : All (IsQuiet handler) before) where
    -- A client that waits for the reply to its request `n` and reads the responses `before`, none of
    -- them to `n`, whose messages its handler takes without an exception, and then an answer to `n`,
    -- gets that answer, or the server's error in it. It has read nothing behind the answer; the
    -- replies to other requests are in their queues, where later waits find them, and the messages
    -- were given to the handler in their order.
    pub wait_and_dequeue-own :
        (p : Payload)
        → answers n p ≡ true
        → (wait_and_dequeue handler ended n (returned before ++ ok p ∷ later) c
            ≡ (outcome p, enqueue_all before c, later))
          × ((enqueue_all before c).handled ≡ c.handled ++ messages before)
    unfolding call_handler
    wait_and_dequeue-own p h =
        let (reads, still) = wait_and_dequeue-returned n before (ok p ∷ later) c q others quiet in
        let (there, taken) = answer-queued n p (enqueue_all before c) h still in
        (
          reads
              ∙ wait_and_dequeue-reads n p later (enqueue_all before c) still (answer-quiet p h)
              ∙ wait_and_dequeue-queued n later (enqueue p (enqueue_all before c)) there
              ∙ ap (λ w. (w.0, w.1, later)) taken,
          handled-enqueue_all before c,
        )
      where
        answer-quiet : (p : Payload) → answers n p ≡ true → IsQuiet handler p
        answer-quiet (ok_reply k r) h = refl
        answer-quiet (error_reply k e status) h = refl
        answer-quiet (async_msg m) h = let x : false ≡ true = h in absurd cc

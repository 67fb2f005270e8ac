-- ===== src/Connection/Agreement.antt =====
-- connection.py and aio.py: `Connection` and `AioConnection` beside each other.

use pylyskom.Base.{
  ℕ, ◌≡◌, refl, sym, ap, ◌∙◌, inl, inr, ◌⊎◌, Bytes, List, ◌==◌, Bool, true, false, Option-cases,
  Bool-cases, ◌+◌, if◌then◌else◌, All,
}
use pylyskom.Result.{Result, ok, raise, Error, IsShort, not_enough_data, receive_error}
use pylyskom.Errors.{error_dict}
use pylyskom.Exec.{Exec, pure, throw, continue, ◌>>=◌}
use pylyskom.Dict
use pylyskom.Dict.{Dict}
use pylyskom.Protocol
use pylyskom.Protocol.{Parser}
use pylyskom.AsyncMessages.{async_dict}
use pylyskom.Requests.Responses.{response_dict}
use pylyskom.Connection.{
  Connection, Payload, Response, append, on_buffer, outstanding_call, forget, parse_entry,
  with_taken, taking, parse_error, parse_message, parse_ok_reply, parse_error_reply,
  parse_asynchronous_message, parse_kind, parse_response, skip_newline, read_response, send_request,
  write,
}
use pylyskom.Requests.Request.{Request}
use pylyskom.Connection.Chunks.{joined, IsReceived, read_response-chunks}
use pylyskom.Connection.Blocking.{
  at_end, blocked, on_stream, read_entry, read_ok_reply, read_error, read_error_reply, read_message,
  read_asynchronous_message, read_kind, read_payload, send_blocking,
}

-- The outcome of a run of AioConnection's code as Connection sees it, by `f`.
abbrev pub seen : {A B : Type 0} → (A → B) → Result A → Result B
seen f (ok a) = ok (f a)
seen f (raise e) = raise (at_end e)

-- `m'` does what `m` does, but for `f` and the error at the end of the stream.
pub record Mirrors {A B : Type 0} (f : A → B) (m : Exec Connection A) (m' : Exec Connection B)
    : Type 0 where
  pub at : (c : Connection) → m' c ≡ (seen f (m c).0, (m c).1)

module _ {A B C D : Type 0} where
  mirror_step :
      (f : A → B) (g : C → D) (r : Result A) (c : Connection) (k : A → Exec Connection C)
      (k' : B → Exec Connection D)
      → ((a : A) → Mirrors g (k a) (k' (f a)))
      → continue (seen f r) k' c ≡ (seen g (continue r k c).0, (continue r k c).1)
  mirror_step f g (ok a) c k k' h = (h a).at c
  mirror_step f g (raise e) c k k' h = refl

  Mirrors-bind :
      (f : A → B) (g : C → D) {m : Exec Connection A} {m' : Exec Connection B}
      {k : A → Exec Connection C} (k' : B → Exec Connection D)
      → Mirrors f m m'
      → ((a : A) → Mirrors g (k a) (k' (f a)))
      → Mirrors g (m >>= k) (m' >>= k')
  Mirrors-bind f g {m} {m'} {k} k' h hk = record {
    at = λ c. ap (λ w. continue w.0 k' w.1) (h.at c) ∙ mirror_step f g (m c).0 (m c).1 k k' hk;
  }

module _ {A : Type 0} where
  Mirrors-on_stream : (p : Parser A) → Mirrors (λ a. a) (on_buffer p) (on_stream p)
  unfolding on_stream blocked
  Mirrors-on_stream p = record { at = λ c. ap (λ r. (r, (on_buffer p c).1)) (go (on_buffer p c).0) }
    where
      go : (r : Result A) → blocked r ≡ seen (λ a. a) r
      go (ok a) = refl
      go (raise e) = refl

  Mirrors-entry :
      (d : Dict (Parser A)) (k : ℕ) (e : Error)
      → at_end e ≡ e
      → Mirrors (λ a. a) (parse_entry d k e) (read_entry d k e)
  unfolding parse_entry read_entry
  Mirrors-entry d k e same = elim (Option-cases (Dict.get d k)) [
    | inl missing ↦
        rw (missing, parse_entry, read_entry)
          (record { at = λ c. ap (λ x. (raise x, c)) (sym same) })
    | inr (p, found) ↦ rw (found, parse_entry, read_entry) (Mirrors-on_stream p)
  ]

  -- `taking` returns the bytes too.
  Mirrors-taking :
      {m m' : Exec Connection A} → Mirrors (λ a. a) m m' → Mirrors (λ w. w.0) (taking m) m'
  unfolding taking with_taken
  Mirrors-taking {m} {m'} h = record { at = λ c. h.at c ∙ go (m c).0 (m c).1 c }
    where
      go :
          (r : Result A) (c before : Connection)
          → ◌≡◌ {A = Result A × Connection}
              (seen (λ a. a) r, c)
              (
                seen (λ w. w.0) (continue r (with_taken before) c).0,
                (continue r (with_taken before) c).1,
              )
      go (ok a) c before = refl
      go (raise e) c before = refl

Mirrors-pure : {A B : Type 0} (f : A → B) (a : A) (b : B) → b ≡ f a → Mirrors f (pure a) (pure b)
Mirrors-pure f a b e = record { at = λ c. ap (λ x. (ok x, c)) e }

Mirrors-throw :
    {A B : Type 0} (f : A → B) (e : Error) → at_end e ≡ e → Mirrors f (throw e) (throw e)
Mirrors-throw f e h = record { at = λ c. ap (λ x. (raise x, c)) (sym h) }

Mirrors-if :
    {A B : Type 0} (f : A → B) (b : Bool) {m n : Exec Connection A} {m' n' : Exec Connection B}
    → Mirrors f m m'
    → Mirrors f n n'
    → Mirrors f (if b then m else n) (if b then m' else n')
Mirrors-if f true h k = h
Mirrors-if f false h k = k

Mirrors-outstanding : (n : ℕ) → Mirrors (λ a. a) (outstanding_call n) (outstanding_call n)
unfolding outstanding_call at_end
Mirrors-outstanding n = record {
  at = λ c. elim (Option-cases (Dict.get c.outstanding_requests n)) [
    | inl e ↦ rw (e, outstanding_call) refl
    | inr (k, e) ↦ rw (e, outstanding_call) refl
  ];
}

Mirrors-forget : (n : ℕ) → Mirrors (λ a. a) (forget n) (forget n)
unfolding forget
Mirrors-forget n = record { at = λ c. refl }

Mirrors-read_int : Mirrors (λ a. a) (on_buffer Protocol.read_int) (on_stream Protocol.read_int)
Mirrors-read_int = Mirrors-on_stream Protocol.read_int

Mirrors-error : Mirrors (λ a. a) parse_error read_error
unfolding parse_error read_error at_end
Mirrors-error =
    Mirrors-bind (λ a. a) (λ a. a) _ Mirrors-read_int
      λ n.
        Mirrors-bind (λ a. a) (λ a. a) _ Mirrors-read_int
          λ status. elim (Option-cases (Dict.get error_dict n)) [
            | inl missing ↦ rw missing (Mirrors-throw _ _ refl)
            | inr (e, found) ↦ rw found (Mirrors-pure _ _ _ refl)
          ]

Mirrors-message : Mirrors (λ a. a) parse_message read_message
unfolding parse_message read_message at_end
Mirrors-message =
    Mirrors-bind (λ a. a) (λ a. a) _ Mirrors-read_int
      λ _. Mirrors-bind (λ a. a) (λ a. a) _ Mirrors-read_int λ n. Mirrors-entry async_dict n _ refl

-- The response without its bytes, which Connection does not return.
abbrev pub payload : Response → Payload
payload w = w.0

Mirrors-kind : (ch : ℕ) → Mirrors payload (parse_kind ch) (read_kind ch)
unfolding parse_kind read_kind parse_ok_reply read_ok_reply parse_error_reply read_error_reply
    parse_asynchronous_message read_asynchronous_message at_end
Mirrors-kind ch =
    Mirrors-if payload (ch == b'=')
      (Mirrors-bind (λ a. a) payload _ Mirrors-read_int
        λ n.
          Mirrors-bind (λ a. a) payload _ (Mirrors-outstanding n)
            λ k.
              Mirrors-bind (λ w. w.0) payload _
                (Mirrors-taking (Mirrors-entry response_dict k _ refl))
                λ w.
                  Mirrors-bind (λ a. a) payload _ (Mirrors-forget n) λ _. Mirrors-pure _ _ _ refl)
      (Mirrors-if payload (ch == b'%')
        (Mirrors-bind (λ a. a) payload _ Mirrors-read_int
          λ n.
            Mirrors-bind (λ a. a) payload _ (Mirrors-outstanding n)
              λ k.
                Mirrors-bind (λ w. w.0) payload _ (Mirrors-taking Mirrors-error)
                  λ w.
                    Mirrors-bind (λ a. a) payload _ (Mirrors-forget n) λ _. Mirrors-pure _ _ _ refl)
        (Mirrors-if payload (ch == b':')
          (Mirrors-bind (λ w. w.0) payload _ (Mirrors-taking Mirrors-message)
            λ w. Mirrors-pure _ _ _ refl)
          (Mirrors-throw _ _ refl)))

-- The last step of `_parse_response`, which changes only the bytes that come with a response.
abbrev trimmed : Response → Exec Connection Response
trimmed w = pure (w.0, skip_newline w.1)

Mirrors-trimmed :
    {m : Exec Connection Response} {m' : Exec Connection Payload}
    → Mirrors payload m m'
    → Mirrors payload (m >>= trimmed) m'
Mirrors-trimmed {m} {m'} h = record { at = λ c. h.at c ∙ go (m c).0 (m c).1 }
  where
    go :
        (r : Result Response) (c : Connection)
        → ◌≡◌ {A = Result Payload × Connection}
            (seen payload r, c)
            (seen payload (continue r trimmed c).0, (continue r trimmed c).1)
    go (ok w) c = refl
    go (raise e) c = refl

parse_response-Mirrors : Mirrors payload parse_response read_payload
unfolding parse_response read_payload
parse_response-Mirrors =
    Mirrors-bind (λ a. a) payload _ (Mirrors-on_stream Protocol.read_first_non_ws)
      λ ch. Mirrors-trimmed (Mirrors-kind ch)

at_end-short : (r : Result Response) → IsShort r → seen payload r ≡ raise receive_error
unfolding at_end
at_end-short (ok w) s = absurd s
at_end-short (raise not_enough_data) s = refl
at_end-short (raise e) s = absurd s

-- From the same state, Connection reading a stream and AioConnection reading it in any chunks give
-- the same response, but for the bytes that come with AioConnection's, or the same error; and they
-- leave the same state, with the bytes behind the response, unless the stream ended too early.
pub read_payload-read_response :
    (chunks : List Bytes) (c : Connection)
    → All IsReceived chunks
    → let d = append c (joined chunks) in
      let w = read_response chunks c in
      ((read_payload d).0 ≡ seen payload w.0)
      × (((read_payload d).0 ≡ raise receive_error)
          ⊎ ((read_payload d).1 ≡ append w.1 (joined w.2)))
unfolding at_end
read_payload-read_response chunks c full =
    let d = append c (joined chunks) in
    rw (parse_response-Mirrors.at d) (elim (read_response-chunks chunks c full) [
      | inl (short, e, kept) ↦
          let ended = at_end-short (parse_response d).0 short in
          (ended ∙ ap (seen payload) (sym e), inl ended)
      | inr (long, e) ↦ (ap (λ z. seen payload z.0) e, inr (ap (λ z. z.1) e))
    ])

-- Both connections send a request in the same way: the same number is returned, the same bytes are
-- written, and the same requests wait afterwards, also where the assertion fails.
pub send_blocking-send_request :
    (r : Request) (c : Connection) → send_blocking r c ≡ send_request r c
unfolding send_blocking send_request write
send_blocking-send_request r c =
    elim (Bool-cases (Dict.has c.outstanding_requests (c.ref_no + 1))) [
      | inl waits ↦ rw waits refl
      | inr free ↦ rw free refl
    ]

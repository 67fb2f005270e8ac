-- ===== src/Connection/Replies.antt =====
-- aio.py: what a run of `AioConnection._parse_response` does to the requests that wait.
use mathlib.Core.Path.{subst}
use pylyskom.Base.{
  ℕ, ◌≡◌, refl, sym, ap, ◌∙◌, inl, inr, Bytes, Bool, true, false, Option-cases, Option, none, some,
  ◌==◌, if◌then◌else◌,
}
use pylyskom.Result.{Result, ok, raise, Error, not_enough_data}
use pylyskom.Errors.{error_dict}
use pylyskom.Exec.{Exec, pure, throw, continue, ◌>>=◌}
use pylyskom.Dict
use pylyskom.Dict.{Dict}
use pylyskom.Protocol
use pylyskom.Protocol.{Parser}
use pylyskom.AsyncMessages.{async_dict}
use pylyskom.Requests.Responses.{response_dict}
use pylyskom.Connection.{
  Connection, Response, Payload, ok_reply, error_reply, async_msg, on_buffer, outstanding_call,
  forget, parse_entry, taking, with_taken, parse_error, parse_message, parse_ok_reply,
  parse_error_reply, parse_asynchronous_message, parse_kind, parse_response, skip_newline,
  retry_later, try_parse_response,
}

-- All of the connection but its buffer.
abbrev pub Rest : Type 0
Rest = ℕ × Dict ℕ × Bytes

abbrev pub rest : Connection → Rest
rest c = (c.ref_no, c.outstanding_requests, c.written)

-- `m` changes nothing but the buffer.
pub record Reads {A : Type 0} (m : Exec Connection A) : Type 0 where
  pub at : (c : Connection) → rest (m c).1 ≡ rest c

-- The request that a response answers, if any, no longer waits; else nothing has changed but the
-- buffer, and a request that is answered was waiting.
abbrev pub answered : Payload → Dict ℕ → Dict ℕ
answered (ok_reply n r) d = Dict.remove d n
answered (error_reply n e status) d = Dict.remove d n
answered (async_msg m) d = d

abbrev pub WasWaiting : Payload → Dict ℕ → Type 0
WasWaiting (ok_reply n r) d = (k : ℕ) × (Dict.get d n ≡ some k)
WasWaiting (error_reply n e status) d = (k : ℕ) × (Dict.get d n ≡ some k)
WasWaiting (async_msg m) d = Unit

abbrev pub Settles : Rest → Result Response × Connection → Type 0
Settles (n, d, s) (raise e, c') = rest c' ≡ (n, d, s)
Settles (n, d, s) (ok r, c') = WasWaiting r.0 d × (rest c' ≡ (n, answered r.0 d, s))

pub record Answers (m : Exec Connection Response) : Type 0 where
  pub at : (c : Connection) → Settles (rest c) (m c)

module _ {A B : Type 0} where
  rest-continue :
      (f : A → Exec Connection B) (r : Result A) (c : Connection)
      → ((a : A) → Reads (f a))
      → rest (continue r f c).1 ≡ rest c
  rest-continue f (ok a) c h = (h a).at c
  rest-continue f (raise e) c h = refl

  Reads-bind :
      {m : Exec Connection A} {f : A → Exec Connection B}
      → Reads m
      → ((a : A) → Reads (f a))
      → Reads (m >>= f)
  Reads-bind {m} {f} h k = record { at = λ c. rest-continue f (m c).0 (m c).1 k ∙ h.at c }

module _ {A : Type 0} where
  Reads-pure : (a : A) → Reads (pure a)
  Reads-pure a = record { at = λ c. refl }

  Reads-throw : (e : Error) → Reads (throw {A = A} e)
  Reads-throw e = record { at = λ c. refl }

  Reads-on_buffer : (p : Parser A) → Reads (on_buffer p)
  unfolding on_buffer
  Reads-on_buffer p = record { at = λ c. refl }

  Reads-parse_entry : (d : Dict (Parser A)) (k : ℕ) (e : Error) → Reads (parse_entry d k e)
  unfolding parse_entry
  Reads-parse_entry d k e = elim (Option-cases (Dict.get d k)) [
    | inl missing ↦ rw (missing, parse_entry) (Reads-throw e)
    | inr (p, found) ↦ rw (found, parse_entry) (Reads-on_buffer p)
  ]

  Reads-taking : {m : Exec Connection A} → Reads m → Reads (taking m)
  unfolding taking with_taken
  Reads-taking {m} h = record {
    at =
        λ c. rest-continue (with_taken c) (m c).0 (m c).1 (λ a. record { at = λ d. refl }) ∙ h.at c;
  }

Answers-bind :
    {A : Type 0} {m : Exec Connection A} {f : A → Exec Connection Response}
    → Reads m
    → ((a : A) → Answers (f a))
    → Answers (m >>= f)
Answers-bind {A = A} {m} {f} h k = record { at = λ c. go (m c).0 (m c).1 (rest c) (h.at c) }
  where
    go : (r : Result A) (c : Connection) (z : Rest) → rest c ≡ z → Settles z (continue r f c)
    go (ok a) c z e = subst (λ y. Settles y (f a c)) e ((k a).at c)
    go (raise x) c z e = e

-- The end of a reply: what `m` parsed is the answer `p` to the request `n`.
module _ {A : Type 0} (n k : ℕ) (m : Exec Connection A) (p : A → Response) where
  finish :
      (c : Connection)
      → Reads m
      → Dict.get c.outstanding_requests n ≡ some k
      → ((a : A) (d : Dict ℕ)
          → Dict.get d n ≡ some k
          → WasWaiting (p a).0 d × (answered (p a).0 d ≡ Dict.remove d n))
      → Settles (rest c) ((m >>= λ w. forget n >>= λ _. pure (p w)) c)
  unfolding forget
  finish c h waiting fits = go (m c).0 (m c).1 (h.at c)
    where
      go :
          (r : Result A) (c' : Connection)
          → rest c' ≡ rest c
          → Settles (rest c) (continue r (λ w. forget n >>= λ _. pure (p w)) c')
      go (ok a) c' e =
          let (was, gone) = fits a c.outstanding_requests waiting in
          (
            was,
            ap (λ (z : Rest). (z.0, Dict.remove z.1 n, z.2)) e
                ∙ ap (λ d. (c.ref_no, d, c.written)) (sym gone),
          )
      go (raise x) c' e = e

outstanding-Answers :
    (n : ℕ) (f : ℕ → Exec Connection Response)
    → ((k : ℕ) (c : Connection)
        → Dict.get c.outstanding_requests n ≡ some k
        → Settles (rest c) (f k c))
    → Answers (outstanding_call n >>= f)
unfolding outstanding_call
outstanding-Answers n f h = record {
  at = λ c. elim (Option-cases (Dict.get c.outstanding_requests n)) [
    | inl e ↦ rw (e, outstanding_call) refl
    | inr (k, e) ↦ rw (e, outstanding_call) (h k c e)
  ];
}

Reads-read_int : Reads (on_buffer Protocol.read_int)
Reads-read_int = Reads-on_buffer Protocol.read_int

Reads-parse_error : Reads parse_error
unfolding parse_error
Reads-parse_error = Reads-bind Reads-read_int λ n. Reads-bind Reads-read_int λ status.
    elim (Option-cases (Dict.get error_dict n)) [
      | inl missing ↦ rw missing (Reads-throw _)
      | inr (e, found) ↦ rw found (Reads-pure _)
    ]

Reads-parse_message : Reads parse_message
unfolding parse_message
Reads-parse_message =
    Reads-bind Reads-read_int λ _. Reads-bind Reads-read_int λ n. Reads-parse_entry async_dict n _

parse_ok_reply-Answers : Answers parse_ok_reply
unfolding parse_ok_reply
parse_ok_reply-Answers = Answers-bind Reads-read_int λ n. outstanding-Answers n _ λ k c waiting.
    finish n k _ (λ w. (ok_reply n w.0, w.1)) c (Reads-taking (Reads-parse_entry response_dict k _))
      waiting (λ a d e. ((k, e), refl))

parse_error_reply-Answers : Answers parse_error_reply
unfolding parse_error_reply
parse_error_reply-Answers = Answers-bind Reads-read_int λ n. outstanding-Answers n _ λ k c waiting.
    finish n k _ (λ w. (error_reply n w.0.0 w.0.1, w.1)) c (Reads-taking Reads-parse_error) waiting
      (λ a d e. ((k, e), refl))

parse_asynchronous_message-Answers : Answers parse_asynchronous_message
unfolding parse_asynchronous_message
parse_asynchronous_message-Answers =
    Answers-bind (Reads-taking Reads-parse_message) λ w. record { at = λ c. (tt, refl) }

Answers-throw : (e : Error) → Answers (throw e)
Answers-throw e = record { at = λ c. refl }

Answers-if :
    (b : Bool) {m n : Exec Connection Response}
    → Answers m
    → Answers n
    → Answers (if b then m else n)
Answers-if true h k = h
Answers-if false h k = k

parse_kind-Answers : (ch : ℕ) → Answers (parse_kind ch)
unfolding parse_kind
parse_kind-Answers ch = Answers-if (ch == b'=') parse_ok_reply-Answers (
    Answers-if (ch == b'%') parse_error_reply-Answers
      (Answers-if (ch == b':') parse_asynchronous_message-Answers (Answers-throw _)))

Answers-trim :
    {m : Exec Connection Response} (f : Bytes → Bytes)
    → Answers m
    → Answers (m >>= λ w. pure (w.0, f w.1))
Answers-trim {m} f h = record { at = λ c. go (rest c) (m c).0 (m c).1 (h.at c) }
  where
    go :
        (z : Rest) (r : Result Response) (c : Connection)
        → Settles z (r, c)
        → Settles z (continue r (λ w. pure (w.0, f w.1)) c)
    go z (ok w) c s = s
    go z (raise e) c s = s

-- A run of `_parse_response` that raises changes nothing but the buffer. A reply that it returns,
-- `=` or `%`, has the number of a request that was waiting, and then exactly that number no longer
-- waits; an asynchronous message leaves the waiting requests as they were.
pub parse_response-Answers : Answers parse_response
unfolding parse_response
parse_response-Answers =
    Answers-bind (Reads-on_buffer Protocol.read_first_non_ws)
      λ ch. Answers-trim skip_newline (parse_kind-Answers ch)

-- The same for `_try_parse_response`, which may have nothing yet.
abbrev pub TrySettles : Rest → Result (Option Response) × Connection → Type 0
TrySettles (n, d, s) (ok (some w), c') = WasWaiting w.0 d × (rest c' ≡ (n, answered w.0 d, s))
TrySettles (n, d, s) (ok none, c') = rest c' ≡ (n, d, s)
TrySettles (n, d, s) (raise e, c') = rest c' ≡ (n, d, s)

retry_later-TrySettles :
    (copy : Connection) (z : Rest) (w : Result Response × Connection)
    → Settles z w
    → TrySettles z (retry_later copy w)
unfolding retry_later
retry_later-TrySettles copy z (ok p, c) h = h
retry_later-TrySettles copy z (raise not_enough_data, c) h = h
retry_later-TrySettles copy z (raise e, c) h = h

pub try_parse_response-TrySettles : (c : Connection) → TrySettles (rest c) (try_parse_response c)
unfolding try_parse_response
try_parse_response-TrySettles c =
    retry_later-TrySettles c (rest c) (parse_response c) (parse_response-Answers.at c)

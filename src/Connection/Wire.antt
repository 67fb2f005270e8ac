-- ===== src/Connection/Wire.antt =====
-- aio.py: what `AioConnection._parse_response` makes of the lines that a server sends.
use pylyskom.Base
use pylyskom.Base.{
  ℕ, ◌+◌, ◌-◌, ◌≡◌, refl, sym, ap, ◌∙◌, Bytes, [], ◌∷◌, ◌++◌, append_assoc, append-nil, length,
  length-append, take, take-append, Option, none, some, arith,
}
use pylyskom.Result.{ok, raise, bad_request_id}
use pylyskom.Errors.{ServerError, documented_no, error_dict-documented}
use pylyskom.Dict
use pylyskom.Protocol
use pylyskom.Protocol.{decimal, Parser}
use pylyskom.Protocol.RoundTrip.{read_int-decimal}
use pylyskom.Requests.Responses.{Reply, response_dict}
use pylyskom.Connection.{
  Connection, ok_reply, error_reply, on_buffer, outstanding_call, forget, parse_entry, taken,
  taking, with_taken, parse_error, parse_ok_reply, parse_error_reply, parse_kind, parse_response,
  skip_newline,
}

-- A number and the byte that ends it.
abbrev pub field : ℕ → ℕ → Bytes → Bytes
field n stop s = decimal n ++ stop ∷ s

-- `c` with `s` left in its buffer.
abbrev pub at : Connection → Bytes → Connection
at c s = record c { buffer = s }

abbrev space : ℕ
space = b' '

abbrev newline : ℕ
newline = 10

take-all : (l : Bytes) → take (length l) l ≡ l
take-all [] = refl
take-all (x ∷ l) = ap (λ t. x ∷ t) (take-all l)

take-front : (body s : Bytes) → take (length (body ++ s) - length s) (body ++ s) ≡ body
take-front body s =
    let n : length (body ++ s) - length s ≡ length body = omega (arith, length-append body s) in
    rw n (take-append (length body) body s (omega arith) ∙ take-all body)

-- The line of an error reply behind its reference number.
abbrev pub error_line : ServerError → ℕ → Bytes → Bytes
error_line e status s = field (documented_no e) space (field status newline s)

error_line-append :
    (e : ServerError) (status : ℕ) (s : Bytes) → error_line e status s ≡ error_line e status [] ++ s
error_line-append e status s = sym (
    append_assoc (decimal (documented_no e)) _ s
    ∙ ap (λ (l : Bytes). decimal (documented_no e) ++ space ∷ l)
        (append_assoc (decimal status) (newline ∷ []) s))

skip_newline-last : (l : Bytes) (x : ℕ) → skip_newline (l ++ x ∷ []) ≡ l
unfolding skip_newline
skip_newline-last l x =
    let n : length (l ++ x ∷ []) - 1 ≡ length l = omega (arith, length-append l (x ∷ [])) in
    rw n (take-append (length l) l (x ∷ []) (omega arith) ∙ take-all l)

-- Its bytes, as the connection hands them out.
skip_newline-error_line :
    (e : ServerError) (status : ℕ) (s : Bytes)
    → let l = error_line e status s in
      skip_newline (take (length l - length s) l)
      ≡ decimal (documented_no e) ++ space ∷ decimal status
skip_newline-error_line e status s =
    ap (λ l. skip_newline (take (length l - length s) l)) (error_line-append e status s)
    ∙ ap skip_newline (take-front (error_line e status []) s)
    ∙ ap skip_newline
        (sym (append_assoc (decimal (documented_no e)) (space ∷ decimal status) (newline ∷ [])))
    ∙ skip_newline-last (decimal (documented_no e) ++ space ∷ decimal status) newline

module _ (c : Connection) (s : Bytes) where
  -- A reply, ok or error, to a number under which no request waits is a BadRequestId with that
  -- number; nothing changes but the buffer, from which it is taken.
  pub parse_response-unknown :
      (n stop : ℕ)
      → Base.contains Protocol.digits stop ≡ Base.false
      → Dict.get c.outstanding_requests n ≡ none
      → (parse_response (at c (b'=' ∷ field n stop s)) ≡ (raise (bad_request_id n), at c s))
        × (parse_response (at c (b'%' ∷ field n stop s)) ≡ (raise (bad_request_id n), at c s))
  unfolding parse_response parse_kind on_buffer Protocol.read_first_non_ws outstanding_call
      parse_ok_reply parse_error_reply parse_entry taking with_taken taken forget parse_error
  parse_response-unknown n stop h e = (
    rw (read_int-decimal n stop s h, e, outstanding_call),
    rw (read_int-decimal n stop s h, e, outstanding_call),
  )

  -- An ok reply to a request that waits with call number `k`: where the reader of `k`'s replies
  -- takes `body` from the buffer and returns `r`, the response is `r`, the reply's bytes are `body`
  -- without its last byte, and that request alone waits no longer.
  pub parse_response-ok :
      (n k stop : ℕ) (p : Parser Reply) (body : Bytes) (r : Reply)
      → Base.contains Protocol.digits stop ≡ Base.false
      → Dict.get c.outstanding_requests n ≡ some k
      → Dict.get response_dict k ≡ some p
      → p (body ++ s) ≡ (ok r, s)
      → parse_response (at c (b'=' ∷ field n stop (body ++ s))) ≡ (
        ok (ok_reply n r, skip_newline body),
        record (at c s) { outstanding_requests = Dict.remove c.outstanding_requests n },
      )
  unfolding parse_response parse_kind on_buffer Protocol.read_first_non_ws outstanding_call
      parse_ok_reply parse_error_reply parse_entry taking with_taken taken forget parse_error
  parse_response-ok n k stop p body r h e d reads = rw (
    read_int-decimal n stop (body ++ s) h,
    e,
    outstanding_call,
    d,
    parse_entry,
    reads,
    take-front body s,
  )

  -- An error reply to a request that waits, as a server prints it, with the number that stands beside
  -- the class `e` in a comment: the response is an error of that class with that status, its bytes
  -- are the line's without the newline, and that request alone waits no longer.
  pub parse_response-error :
      (n k stop : ℕ) (e : ServerError) (status : ℕ)
      → Base.contains Protocol.digits stop ≡ Base.false
      → Dict.get c.outstanding_requests n ≡ some k
      → parse_response (at c (b'%' ∷ field n stop (error_line e status s))) ≡ (
        ok (error_reply n e status, decimal (documented_no e) ++ space ∷ decimal status),
        record (at c s) { outstanding_requests = Dict.remove c.outstanding_requests n },
      )
  unfolding parse_response parse_kind on_buffer Protocol.read_first_non_ws outstanding_call
      parse_ok_reply parse_error_reply parse_entry taking with_taken taken forget parse_error
  parse_response-error n k stop e status h waiting =
      let documented = (error_dict-documented (documented_no e) e).1 refl in
      rw (read_int-decimal n stop (error_line e status s) h, waiting, outstanding_call)
        (rw
          (
            read_int-decimal (documented_no e) space (field status newline s) refl,
            read_int-decimal status newline s refl,
            documented,
          )
          (ap (λ b. (ok (error_reply n e status, b), gone)) (skip_newline-error_line e status s)))
    where
      gone : Connection
      gone = record (at c s) { outstanding_requests = Dict.remove c.outstanding_requests n }

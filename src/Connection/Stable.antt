-- ===== src/Connection/Stable.antt =====
-- aio.py: `AioConnection._parse_response`, and where the received bytes stop.
use pylyskom.Base.{
  ℕ, ◌-◌, ◌≡◌, refl, ap, inl, inr, Bytes, ◌++◌, length, length-append, take-append, Option-cases,
  some, ◌==◌, arith,
}
use pylyskom.Result.{Result, ok, raise, Error, IsShort}
use pylyskom.Errors.{error_dict}
use pylyskom.Exec.{Exec, continue}
use pylyskom.Exec.Stable.{Buffered, Stable, Stable-bind, Stable-pure, Stable-throw, Stable-if}
use pylyskom.Dict
use pylyskom.Dict.{Dict}
use pylyskom.Protocol
use pylyskom.Protocol.{Parser}
use pylyskom.Protocol.Stable.{IsStable, read_int-Stable, read_first_non_ws-Stable}
use pylyskom.AsyncMessages.{async_dict}
use pylyskom.AsyncMessages.Dispatch.{async_dict-IsEntry}
use pylyskom.Requests.Responses.{response_dict, response_dict-Stable}
use pylyskom.Connection.{
  Connection, append, on_buffer, outstanding_call, forget, parse_entry, taken, taking, with_taken,
  parse_error, parse_message, parse_ok_reply, parse_error_reply, parse_asynchronous_message,
  parse_kind, parse_response,
}

abbrev pub receiving : Buffered Connection
receiving = record { grow = append; size = λ c. length c.buffer }

abbrev pub IsStableHere {ℓ} : {A : Type ℓ} → Exec Connection A → Type ℓ
IsStableHere m = Stable receiving m

on_buffer-Stable : {A : Type 0} {p : Parser A} → IsStable p → IsStableHere (on_buffer p)
unfolding on_buffer append
on_buffer-Stable {p} h = record {
  at = λ c t. elim (h.at c.buffer t) [ inl short ↦ inl short | inr e ↦ inr (rw e refl) ];
  shrinks = λ c. h.shrinks c.buffer;
}

outstanding_call-Stable : (n : ℕ) → IsStableHere (outstanding_call n)
unfolding outstanding_call append
outstanding_call-Stable n = record {
  at = λ c t. elim (Option-cases (Dict.get c.outstanding_requests n)) [
    | inl e ↦ rw (e, outstanding_call) (inr refl)
    | inr (v, e) ↦ rw (e, outstanding_call) (inr refl)
  ];
  shrinks = λ c. elim (Option-cases (Dict.get c.outstanding_requests n)) [
    | inl e ↦ rw (e, outstanding_call) (omega arith)
    | inr (v, e) ↦ rw (e, outstanding_call) (omega arith)
  ];
}

forget-Stable : (n : ℕ) → IsStableHere (forget n)
unfolding forget append
forget-Stable n = record { at = λ c t. inr refl; shrinks = λ c. omega arith }

parse_entry-Stable :
    {A : Type 0} (d : Dict (Parser A)) (k : ℕ) (e : Error)
    → ((p : Parser A) → Dict.get d k ≡ some p → IsStable p)
    → IsStableHere (parse_entry d k e)
unfolding parse_entry
parse_entry-Stable d k e h = elim (Option-cases (Dict.get d k)) [
  | inl missing ↦ rw (missing, parse_entry) (Stable-throw e)
  | inr (p, found) ↦ rw (found, parse_entry) (on_buffer-Stable (h p found))
]

-- What was taken does not change when bytes are put behind.
taken-append :
    (before after : Connection) (t : Bytes)
    → taken (append before t) (append after t) ≡ taken before after
unfolding taken append
taken-append before after t =
    let same : length (before.buffer ++ t) - length (after.buffer ++ t)
        ≡ length before.buffer - length after.buffer =
      omega (arith, length-append before.buffer t, length-append after.buffer t) in
    rw same (take-append (length before.buffer - length after.buffer) before.buffer t (omega arith))

module _ {A : Type 0} (before after : Connection) where
  with_taken-short : (r : Result A) → IsShort r → IsShort (continue r (with_taken before) after).0
  with_taken-short (ok a) s = absurd s
  with_taken-short (raise e) s = s

  with_taken-append :
      (r : Result A) (t : Bytes)
      → continue r (with_taken (append before t)) (append after t) ≡ (
        (continue r (with_taken before) after).0,
        append (continue r (with_taken before) after).1 t,
      )
  unfolding with_taken
  with_taken-append (ok a) t = rw (taken-append before after t) refl
  with_taken-append (raise e) t = refl

  with_taken-same : (r : Result A) → (continue r (with_taken before) after).1 ≡ after
  unfolding with_taken
  with_taken-same (ok a) = refl
  with_taken-same (raise e) = refl

taking-Stable : {A : Type 0} {m : Exec Connection A} → IsStableHere m → IsStableHere (taking m)
unfolding taking
taking-Stable {m} h = record {
  at = λ c t. elim (h.at c t) [
    | inl short ↦ inl (with_taken-short c (m c).1 (m c).0 short)
    | inr e ↦ inr (rw e (with_taken-append c (m c).1 (m c).0 t))
  ];
  shrinks = λ c.
      omega (arith, h.shrinks c, ap (λ d. length d.buffer) (with_taken-same c (m c).1 (m c).0));
}

read_int-StableHere : IsStableHere (on_buffer Protocol.read_int)
read_int-StableHere = on_buffer-Stable read_int-Stable

parse_error-Stable : IsStableHere parse_error
unfolding parse_error
parse_error-Stable = Stable-bind read_int-StableHere λ n. Stable-bind read_int-StableHere λ status.
    elim (Option-cases (Dict.get error_dict n)) [
      | inl missing ↦ rw missing (Stable-throw _)
      | inr (e, found) ↦ rw found (Stable-pure _)
    ]

parse_message-Stable : IsStableHere parse_message
unfolding parse_message
parse_message-Stable = Stable-bind read_int-StableHere λ _.
    Stable-bind read_int-StableHere
      λ n. parse_entry-Stable async_dict n _ (λ p found. (async_dict-IsEntry n found).stable)

parse_kind-Stable : (ch : ℕ) → IsStableHere (parse_kind ch)
unfolding parse_kind parse_ok_reply parse_error_reply parse_asynchronous_message
parse_kind-Stable ch =
    Stable-if (ch == b'=')
      (Stable-bind read_int-StableHere λ n. Stable-bind (outstanding_call-Stable n) λ call_no.
        Stable-bind
          (taking-Stable (
            parse_entry-Stable response_dict call_no _
              (λ p found. response_dict-Stable call_no found)))
          λ w. Stable-bind (forget-Stable n) λ _. Stable-pure _)
      (Stable-if (ch == b'%')
        (Stable-bind read_int-StableHere λ n. Stable-bind (outstanding_call-Stable n) λ _.
          Stable-bind (taking-Stable parse_error-Stable)
            λ w. Stable-bind (forget-Stable n) λ _. Stable-pure _)
        (Stable-if (ch == b':')
          (Stable-bind (taking-Stable parse_message-Stable) λ w. Stable-pure _) (Stable-throw _)))

-- A run of `_parse_response` falls short, or it goes the same way with more bytes in the buffer and
-- leaves those bytes.
pub parse_response-Stable : IsStableHere parse_response
unfolding parse_response
parse_response-Stable =
    Stable-bind (on_buffer-Stable read_first_non_ws-Stable)
      λ ch. Stable-bind (parse_kind-Stable ch) λ w. Stable-pure _

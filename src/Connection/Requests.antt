-- ===== src/Connection/Requests.antt =====
-- aio.py: the reference numbers of `AioConnection`.
use pylyskom.Base.{
  ℕ, ◌+◌, ◌<◌, ◌≡◌, refl, ap, ◌∙◌, Bytes, ◌∷◌, ◌++◌, true, false, none, some, ◌==◌, if◌then◌else◌,
  arith,
}
use pylyskom.Result.{not_enough_data, Result, ok, raise}
use pylyskom.Dict
use pylyskom.Dict.{Dict, dict_laws}
use pylyskom.Protocol.{decimal}
use pylyskom.Requests.Request.{Request, request_to_string}
use pylyskom.Connection.{
  Connection, Response, Payload, ok_reply, error_reply, async_msg, append, new_connection, write,
  send_request, parse_response, try_parse_response, retry_later,
}
use pylyskom.Connection.Replies.{rest, Settles, answered, parse_response-Answers}

-- No request waits under a number that was not given out yet.
pub record IsValid (c : Connection) : Type 0 where
  pub unused : (n : ℕ) → c.ref_no < n → Dict.get c.outstanding_requests n ≡ none

pub new_connection-IsValid : IsValid new_connection
unfolding new_connection Dict.get
new_connection-IsValid = record { unused = λ n h. refl }

-- What sending requests, receiving chunks and trying to parse, the steps of `_read_response`, make of
-- a new connection.
pub data Reachable : Connection → Type 0 where
  opened : Reachable new_connection
  received : (c : Connection) (s : Bytes) → Reachable c → Reachable (append c s)
  sent : (c : Connection) (r : Request) → Reachable c → Reachable (send_request r c).1
  tried : (c : Connection) → Reachable c → Reachable (try_parse_response c).1

not_has : (d : Dict ℕ) (n : ℕ) → Dict.get d n ≡ none → Dict.has d n ≡ false
not_has d n e = Dict.has-get d n ∙ rw e refl

-- From a valid connection, `send_request` returns the next number; it writes the number and the
-- request, and from then on that number waits with the request's call number, beside the others.
pub send_request-IsValid :
    (r : Request) (c : Connection)
    → IsValid c
    → let n = c.ref_no + 1 in
      let c' = (send_request r c).1 in
      ((send_request r c).0 ≡ ok n)
      × IsValid c'
      × (c'.written ≡ c.written ++ (decimal n ++ b' ' ∷ request_to_string r))
      × (Dict.get c.outstanding_requests n ≡ none)
      × ((k : ℕ)
          → Dict.get c'.outstanding_requests k
            ≡ (if n == k then some r.call_no else Dict.get c.outstanding_requests k))
unfolding send_request write
send_request-IsValid r c v =
    let fresh = v.unused (c.ref_no + 1) (omega arith) in
    rw (not_has c.outstanding_requests (c.ref_no + 1) fresh) (
      refl,
      record {
        unused = λ n h. Dict.get-put c.outstanding_requests (c.ref_no + 1) n r.call_no ∙ later n h;
      },
      refl,
      fresh,
      λ k. Dict.get-put c.outstanding_requests (c.ref_no + 1) k r.call_no,
    )
  where
    later :
        (n : ℕ)
        → c.ref_no + 1 < n
        → (if c.ref_no + 1 == n then some r.call_no else Dict.get c.outstanding_requests n) ≡ none
    later n h =
        let other : (c.ref_no + 1 == n) ≡ false = ground arith in
        rw other (v.unused n (omega arith))

remove-none : (d : Dict ℕ) (k n : ℕ) → Dict.get d n ≡ none → Dict.get (Dict.remove d k) n ≡ none
remove-none d k n e = Dict.get-remove d k n ∙ removed (k == n)
  where
    removed : (b : _) → (if b then none else Dict.get d n) ≡ none
    removed true = refl
    removed false = e

answered-get :
    (p : Payload) (d : Dict ℕ) (n : ℕ) → Dict.get d n ≡ none → Dict.get (answered p d) n ≡ none
answered-get (ok_reply k r) d n e = remove-none d k n e
answered-get (error_reply k x s) d n e = remove-none d k n e
answered-get (async_msg m) d n e = e

keeps :
    (c : Connection) (w : Result Response × Connection)
    → IsValid c
    → Settles (rest c) w
    → IsValid w.1
keeps c (ok p, c') v (_, e) = record {
  unused = λ n h.
      ap (λ z. Dict.get z.1 n) e
      ∙ answered-get p.0 c.outstanding_requests n (v.unused n (omega (arith, ap (λ z. z.0) e, h)));
}
keeps c (raise x, c') v e = record {
  unused = λ n h. ap (λ z. Dict.get z.1 n) e ∙ v.unused n (omega (arith, ap (λ z. z.0) e, h));
}

-- Putting the buffer back does not matter to the numbers.
keeps-retry :
    (copy : Connection) (w : Result Response × Connection)
    → IsValid w.1
    → IsValid (retry_later copy w).1
unfolding retry_later
keeps-retry copy (ok p, c) v = v
keeps-retry copy (raise not_enough_data, c) v = record { unused = v.unused }
keeps-retry copy (raise e, c) v = v

-- On every connection that the operations reach, no number waits that was not given out yet; so the
-- assertion of `send_request` never fails there (`send_request-IsValid`).
pub Reachable-IsValid : (c : Connection) → Reachable c → IsValid c
unfolding append try_parse_response
Reachable-IsValid c opened = new_connection-IsValid
Reachable-IsValid c (received c' s h) = record { unused = (Reachable-IsValid c' h).unused }
Reachable-IsValid c (sent c' r h) = (send_request-IsValid r c' (Reachable-IsValid c' h)).1
Reachable-IsValid c (tried c' h) =
    keeps-retry c' (parse_response c')
      (keeps c' (parse_response c') (Reachable-IsValid c' h) (parse_response-Answers.at c'))

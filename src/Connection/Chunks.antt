-- ===== src/Connection/Chunks.antt =====
-- aio.py: `AioConnection._read_response`, and how the stream is cut into chunks.
use mathlib.Core.Path.{subst}
use pylyskom.Base.{
  ◌≡◌, refl, sym, ap, ◌∙◌, ◌⊎◌, inl, inr, Bytes, List, [], ◌∷◌, ◌++◌, append-nil, append_assoc,
  none, All,
}
use pylyskom.Result.{Result, ok, raise, Error, IsShort, IsExhausted, not_enough_data, receive_error}
use pylyskom.Connection.{
  Connection, Response, append, parse_response, retry_later, try_parse_response, read_more,
  read_response,
}
use pylyskom.Connection.Stable.{parse_response-Stable}
use pylyskom.Connection.Replies.{Rest, rest, Settles, parse_response-Answers}

-- All of the chunks.
abbrev pub joined : List Bytes → Bytes
joined [] = []
joined (s ∷ chunks) = s ++ joined chunks

-- Before the end of the stream, `read` returns one byte at least.
abbrev pub IsReceived : Bytes → Type 0
IsReceived [] = ⊥
IsReceived (x ∷ s) = Unit

-- The outcome `w` of a reading, beside the outcome `whole` of the parser on all the bytes `all`:
-- the parser's response or error, and together with the chunks that are left the connection that
-- the parser leaves; or a ReceiveError, with all bytes kept, where the parser too falls short.
abbrev pub Delivers :
    Connection → Result Response × Connection → Result Response × Connection × List Bytes → Type 0
Delivers all whole (r, c, left) =
    IsShort whole.0 × (r ≡ raise receive_error) × (append c (joined left) ≡ all)
    ⊎ ¬ IsShort whole.0 × (whole ≡ (r, append c (joined left)))

exhausted? : (e : Error) → (e ≡ not_enough_data) ⊎ ¬ IsExhausted e
exhausted? not_enough_data = inl refl
exhausted? e = inr (λ h. h)

retry_later-other :
    (copy c : Connection) (e : Error)
    → ¬ IsExhausted e
    → retry_later copy (raise e, c) ≡ (raise e, c)
unfolding retry_later
retry_later-other copy c not_enough_data h = absurd (h tt)
retry_later-other copy c e h = refl

append-append : (c : Connection) (s t : Bytes) → append (append c s) t ≡ append c (s ++ t)
unfolding append
append-append c s t = ap (λ b. record c { buffer = b }) (append_assoc c.buffer s t)

append-empty : (c : Connection) → append c [] ≡ c
unfolding append
append-empty c = ap (λ b. record c { buffer = b }) (append-nil c.buffer)

-- A connection that fell short is the one before, once its buffer is put back.
restored :
    (c c' : Connection) (e : Error)
    → Settles (rest c) (raise e, c')
    → record c' { buffer = c.buffer } ≡ c
restored c c' e h =
    ap
      (λ (z : Rest). record {
        ref_no = z.0;
        outstanding_requests = z.1;
        buffer = c.buffer;
        written = z.2;
      })
      h

ok-injective : {A : Type 0} (r : Result A) (a : A) → r ≡ ok a → ¬ IsShort r
ok-injective r a e s = subst IsShort e s

-- What the parser does on the buffer alone, by what it does with `t` behind.
settled :
    (c c' : Connection) (r : Result Response) (t : Bytes)
    → parse_response c ≡ (r, c')
    → ¬ IsShort r
    → parse_response (append c t) ≡ (r, append c' t)
settled c c' r t e long = elim (parse_response-Stable.at c t) [
  | inl short ↦ absurd (long (subst IsShort (ap (λ w. w.0) e) short))
  | inr same ↦ same ∙ ap (λ w. (w.0, append w.1 t)) e
]

-- The reading of `chunks` from `c` agrees with the parser on all of them at once.
abbrev Agrees : List Bytes → Connection → Type 0
Agrees chunks c =
    Delivers (append c (joined chunks)) (parse_response (append c (joined chunks)))
      (read_response chunks c)

delivered :
    (chunks : List Bytes) (c c' : Connection) (r : Result Response)
    → parse_response c ≡ (r, c')
    → ¬ IsShort r
    → read_response chunks c ≡ (r, c', chunks)
    → Agrees chunks c
delivered chunks c c' r e long run =
    let whole = settled c c' r (joined chunks) e long in
    rw run (inr (λ s. long (subst (λ w. IsShort w.0) whole s), whole))

-- Where the parser falls short, the try puts the buffer back.
waits :
    (c c' : Connection)
    → parse_response c ≡ (raise not_enough_data, c')
    → try_parse_response c ≡ (ok none, c)
unfolding try_parse_response retry_later
waits c c' e =
    let settled' = subst (Settles (rest c)) e (parse_response-Answers.at c) in
    rw e (ap (λ d. (ok none, d)) (restored c c' not_enough_data settled'))

stops :
    (chunks : List Bytes) (c c' : Connection) (r : Response)
    → parse_response c ≡ (ok r, c')
    → read_response chunks c ≡ (ok r, c', chunks)
unfolding read_response try_parse_response retry_later read_more
stops chunks c c' r e = rw e refl

fails :
    (chunks : List Bytes) (c c' : Connection) (x : Error)
    → parse_response c ≡ (raise x, c')
    → ¬ IsExhausted x
    → read_response chunks c ≡ (raise x, c', chunks)
unfolding read_response try_parse_response read_more
fails chunks c c' x e h = rw e (ap (read_more chunks) (retry_later-other c c' x h) ∙ raised chunks)
  where
    raised : (chunks : List Bytes) → read_more chunks (raise x, c') ≡ (raise x, c', chunks)
    raised [] = refl
    raised (s ∷ chunks) = refl

-- What holds when the parser falls short on the buffer alone.
abbrev Falls : List Bytes → Connection → Type 0
Falls chunks c =
    (c' : Connection) → parse_response c ≡ (raise not_enough_data, c') → Agrees chunks c

by_outcome :
    (chunks : List Bytes) (c c' : Connection) (r : Result Response)
    → parse_response c ≡ (r, c')
    → Falls chunks c
    → Agrees chunks c
by_outcome chunks c c' (ok r) e k = delivered chunks c c' (ok r) e (λ s. s) (stops chunks c c' r e)
by_outcome chunks c c' (raise x) e k = elim (exhausted? x) [
  | inl short ↦ k c' (e ∙ ap (λ y. (raise y, c')) short)
  | inr long ↦ delivered chunks c c' (raise x) e long (fails chunks c c' x e long)
]

falls : (chunks : List Bytes) (c : Connection) → All IsReceived chunks → Falls chunks c
unfolding read_response read_more
falls [] c full c' e =
    rw (waits c c' e)
      (inl (subst (λ w. IsShort w.0) (sym (ap parse_response (append-empty c) ∙ e)) tt, refl, refl))
falls ([] ∷ chunks) c full c' e = absurd full.0
falls ((x ∷ s) ∷ chunks) c full c' e =
    let next = append c (x ∷ s) in
    rw (waits c c' e) (
      subst (λ d. Delivers d (parse_response d) (read_response chunks next))
        (append-append c (x ∷ s) (joined chunks))
        (by_outcome chunks next (parse_response next).1 (parse_response next).0 refl
          (falls chunks next full.1)))

-- From a connection with any bytes left over, the chunks that a stream comes in make no difference:
-- reading them gives the response, or the error other than NotEnoughDataInBufferError, that the
-- parser gives on all the bytes at once, and the bytes behind it stay, in the buffer or among the
-- chunks. Only where all the bytes are too few for the parser, it is a ReceiveError, and then no
-- byte is lost and nothing else of the connection has changed.
pub read_response-chunks :
    (chunks : List Bytes) (c : Connection)
    → All IsReceived chunks
    → Delivers
        (append c (joined chunks))
        (parse_response (append c (joined chunks)))
        (read_response chunks c)
read_response-chunks chunks c full =
    by_outcome chunks c (parse_response c).1 (parse_response c).0 refl (falls chunks c full)

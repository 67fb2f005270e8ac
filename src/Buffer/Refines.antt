-- ===== src/Buffer/Refines.antt =====
-- connection.py and aio.py: the receive buffers beside a plain list of bytes.
use mathlib.Core.Path.{subst}
use pylyskom.Base.{
  ℕ, zero, suc, ◌+◌, ◌-◌, ◌≤◌, ◌<◌, ◌≡◌, ◌⊎◌, inl, inr, refl, ap, sym, ◌∙◌, max, Bytes, [], ◌∷◌,
  ◌++◌, length, length-append, length-drop, take, drop, take-append, drop-append, ltb, ltb→lt,
  ltb→le, le→ltb, lt→ltb, ◌==◌, true, false, Bool-cases, append_assoc, arith,
}
use pylyskom.Result.{Result, ok, raise, receive_error}
use pylyskom.Protocol
use pylyskom.Buffer.{
  ReceiveBuffer, IsValid, current, append, aio_receive_string, Socket, ensure_receive_buffer_size,
  receive_string, hand_out,
}

pub length-current : (b : ReceiveBuffer) → IsValid b → length (current b) ≡ b.rb_len - b.rb_pos
unfolding current
length-current b v = omega (arith, length-drop b.rb_pos b.rb, v.counted)

-- What is appended comes behind what was not handed out yet.
pub current-append :
    (b : ReceiveBuffer) (received : Bytes)
    → (current (append b received) ≡ current b ++ received) × IsValid (append b received)
unfolding current append
current-append b received = (refl, record { counted = refl; within = omega arith })

drop-nil : (n : ℕ) → drop {A = ℕ} n [] ≡ []
drop-nil zero = refl
drop-nil (suc n) = refl

-- `drop` by a sum, one byte at a time.
drop-suc_add : (m n c : ℕ) (s : Bytes) → drop (suc m + n) (c ∷ s) ≡ drop (m + n) s
drop-suc_add m n c s = let e : suc m + n ≡ suc (m + n) = omega arith in rw e refl

drop-drop : (n m : ℕ) (s : Bytes) → drop n (drop m s) ≡ drop (m + n) s
drop-drop n zero s = let e : zero + n ≡ n = omega arith in rw e refl
drop-drop n (suc m) [] = drop-nil n ∙ sym (drop-nil (suc m + n))
drop-drop n (suc m) (c ∷ s) = drop-drop n m s ∙ sym (drop-suc_add m n c s)

-- The buffer's state as the list of bytes that it will hand out.
abbrev pub view {ℓ} : {A : Type ℓ} → Result A × ReceiveBuffer → Result A × Bytes
view (r, b) = (r, current b)

-- On a valid buffer the asyncio buffer's `receive_string` is that of the plain bytes.
pub aio_receive_string-refines :
    (n : ℕ) (b : ReceiveBuffer)
    → IsValid b
    → (view (aio_receive_string n b) ≡ Protocol.receive_string n (current b))
      × IsValid (aio_receive_string n b).1
unfolding aio_receive_string Protocol.receive_string current
aio_receive_string-refines n b v = elim (Bool-cases (ltb (b.rb_len - b.rb_pos) n)) [
  | inl short ↦
      let short' : ltb (length (drop b.rb_pos b.rb)) n ≡ true =
        lt→ltb _ n (omega (arith, ltb→lt _ n short, length-current b v)) in
      rw (short, short') (refl, v)
  | inr enough ↦
      let room : n ≤ b.rb_len - b.rb_pos = ltb→le _ n enough in
      let enough' : ltb (length (drop b.rb_pos b.rb)) n ≡ false =
        le→ltb _ n (omega (arith, room, length-current b v)) in
      let moved : drop (b.rb_pos + n) b.rb ≡ drop n (drop b.rb_pos b.rb) =
        sym (drop-drop n b.rb_pos b.rb) in
      rw (enough, enough')
        (rw moved refl, record { counted = v.counted; within = omega (arith, room, v.within) })
]

length-eq-zero : (l : Bytes) → (length l == 0) ≡ true → l ≡ []
length-eq-zero [] e = refl
length-eq-zero (x ∷ l) e = absurd (ground arith)

module _ (S : Socket) where
  open S use {State, recv, pending, recv_next, recv_end}

  -- All that the buffer will still hand out: what it holds, and what the socket will give.
  abbrev pub stream : ReceiveBuffer → State → Bytes
  stream b s = current b ++ pending s

  -- What `_ensure_receive_buffer_size` leaves: the same stream, with `size` bytes of it in the
  -- buffer, or a ReceiveError where the stream is shorter than that.
  abbrev Ensured : ℕ → Bytes → Result (Unit {0}) × ReceiveBuffer × State → Type 0
  Ensured size all (r, b', s') =
      (stream b' s' ≡ all)
      × IsValid b'
      × ((r ≡ ok tt) × (size ≤ length (current b'))
          ⊎ (r ≡ raise receive_error) × (length all < size))

  ensure_ends :
      (b : ReceiveBuffer) (s : State) (size n : ℕ)
      → IsValid b
      → 0 < n
      → (length (recv n s).0 == 0) ≡ true
      → b.rb_len - b.rb_pos < size
      → Ensured size (stream b s) (raise receive_error, b, (recv n s).1)
  ensure_ends b s size n v pos e short =
      let empty = length-eq-zero (recv n s).0 e in
      let nothing = recv_end n s pos empty in
      let same : pending s ≡ pending (recv n s).1 =
        recv_next n s ∙ ap (λ l. l ++ pending (recv n s).1) empty in
      (
        ap (λ l. current b ++ l) (sym same),
        v,
        inr (
          refl,
          omega (
            arith,
            length-append (current b) (pending s),
            ap (λ (l : Bytes). length l) nothing,
            length-current b v,
            short,
          ),
        ),
      )

  -- A round that received bytes: the stream is the same, and the buffer has more of it.
  append_round :
      (b : ReceiveBuffer) (s : State) (n : ℕ)
      → IsValid b
      → (length (recv n s).0 == 0) ≡ false
      → let b' = append b (recv n s).0 in
        (stream b' (recv n s).1 ≡ stream b s) × (b.rb_len - b.rb_pos < b'.rb_len - b'.rb_pos)
  append_round b s n v more =
      let (placed, valid) = current-append b (recv n s).0 in
      (
        ap (λ l. l ++ pending (recv n s).1) placed
            ∙ append_assoc (current b) (recv n s).0 _
            ∙ ap (λ l. current b ++ l) (sym (recv_next n s)),
        omega (
          arith,
          length-current b v,
          length-current (append b (recv n s).0) valid,
          ap (λ (l : Bytes). length l) placed,
          length-append (current b) (recv n s).0,
          positive (length (recv n s).0) more,
        ),
      )
    where
      positive : (k : ℕ) → (k == 0) ≡ false → 0 < k
      positive k h = ground arith

  ensure-Ensured :
      (fuel size : ℕ) (b : ReceiveBuffer) (s : State)
      → IsValid b
      → size ≤ fuel + (b.rb_len - b.rb_pos)
      → Ensured size (stream b s) (ensure_receive_buffer_size S fuel size b s)
  unfolding ensure_receive_buffer_size
  ensure-Ensured zero size b s v h =
      rw (le→ltb (b.rb_len - b.rb_pos) size (omega arith))
        (refl, v, inl (refl, omega (arith, length-current b v)))
  ensure-Ensured (suc fuel) size b s v h = elim (Bool-cases (ltb (b.rb_len - b.rb_pos) size)) [
    | inl short ↦
        let n = max (size - (b.rb_len - b.rb_pos)) 128 in
        elim (Bool-cases (length (recv n s).0 == 0)) [
          | inl end ↦
              rw (short, end, ensure_receive_buffer_size)
                (ensure_ends b s size n v (omega arith) end (ltb→lt _ size short))
          | inr more ↦
              rw (short, more, ensure_receive_buffer_size)
                (let (same, grown) = append_round b s n v more in
                  subst
                    (λ all.
                      Ensured size all (
                        ensure_receive_buffer_size S fuel size (append b (recv n s).0)
                          (recv n s).1))
                    same
                    (ensure-Ensured fuel size (append b (recv n s).0) (recv n s).1
                      (current-append b _).1 (omega (arith, grown, h))))
        ]
    | inr enough ↦
        rw (enough, ensure_receive_buffer_size)
          (refl, v, inl (refl, omega (arith, length-current b v, ltb→le _ size enough)))
  ]

  -- `receive_string` as a reader of the whole stream `all`: the next `n` bytes, however the socket
  -- cuts it, and a ReceiveError exactly where the stream is shorter; what is behind is kept.
  abbrev pub HandsOut : ℕ → Bytes → Result Bytes × ReceiveBuffer × State → Type 0
  HandsOut n all (r, b', s') =
      IsValid b'
      × ((n ≤ length all) × (r ≡ ok (take n all)) × (stream b' s' ≡ drop n all)
          ⊎ (length all < n) × (r ≡ raise receive_error) × (stream b' s' ≡ all))

  hand_out-HandsOut :
      (n : ℕ) (all : Bytes) (w : Result (Unit {0}) × ReceiveBuffer × State)
      → Ensured n all w
      → HandsOut n all (hand_out S n w)
  unfolding hand_out current
  hand_out-HandsOut n all (ok _, b, s) (same, v, inl (_, enough)) = (
    record {
      counted = v.counted;
      within = omega (arith, length-drop b.rb_pos b.rb, enough, v.counted, v.within);
    },
    inl (
      omega (
        arith,
        ap (λ (l : Bytes). length l) same,
        length-append (drop b.rb_pos b.rb) (pending s),
        enough,
      ),
      ap ok (sym (take-append n (drop b.rb_pos b.rb) (pending s) enough) ∙ ap (take n) same),
      ap (λ l. l ++ pending s) (sym (drop-drop n b.rb_pos b.rb))
          ∙ sym (drop-append n (drop b.rb_pos b.rb) (pending s) enough)
          ∙ ap (drop n) same,
    ),
  )
  hand_out-HandsOut n all (ok _, b, s) (same, v, inr (e, _)) = cc
  hand_out-HandsOut n all (raise x, b, s) (same, v, inl (e, _)) = cc
  hand_out-HandsOut n all (raise x, b, s) (same, v, inr (e, short)) = (v, inr (short, (cc), same))

  -- From a valid buffer, `receive_string` reads the stream that is left as one piece.
  pub receive_string-HandsOut :
      (n : ℕ) (b : ReceiveBuffer) (s : State)
      → IsValid b
      → HandsOut n (stream b s) (receive_string S n b s)
  unfolding receive_string
  receive_string-HandsOut n b s v =
      hand_out-HandsOut n (stream b s) _ (ensure-Ensured n n b s v (omega arith))

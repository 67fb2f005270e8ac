-- ===== src/Protocol/RoundTrip.antt =====
-- protocol.py: reading a printed number.
use pylyskom.Base.{
  ℕ, zero, suc, ◌+◌, ◌-◌, ◌*◌, ◌/◌, ◌%◌, ◌<◌, ◌≡◌, refl, ◌∙◌, ap, inl, inr, true, false, Bool-cases,
  ltb, ltb→lt, ltb→le, Bytes, contains, [], ◌∷◌, ◌++◌, append_assoc, arith,
}
use pylyskom.Result.{ok}
use pylyskom.Exec
use pylyskom.Exec.{◌>>=◌}
use pylyskom.Protocol.{
  whitespace, digits, ord_0, receive_char, read_first_non_ws, read_digits, read_int_and_next,
  read_int, decimal,
}
use pylyskom.Protocol.Decimal.{
  decimal_digits, decimal_digits-small, decimal_digits-big, decimal_digits-StartsWithDigit,
}

digit-is-digits : (n : ℕ) → n < 10 → contains digits (b'0' + n) ≡ true
digit-is-digits n h = ground arith

-- Reading a digit carries the number read so far on.
read_digits-step :
    (n d : ℕ) (s : Bytes)
    → d < 10
    → (receive_char >>= read_digits n) ((b'0' + d) ∷ s)
      ≡ (receive_char >>= read_digits (n * 10 + d)) s
unfolding receive_char read_digits
read_digits-step n d [] h = rw (digit-is-digits d h)
read_digits-step n d (c ∷ s) h =
    let e : n * 10 + (b'0' + d - ord_0) ≡ n * 10 + d = omega arith in
    rw (digit-is-digits d h) (rw e)

-- The printed digits of `m`, read from nothing, leave `m` in hand.
read_digits-decimal_digits :
    (f m : ℕ) (s : Bytes)
    → m < f
    → (receive_char >>= read_digits 0) (decimal_digits f m ++ s)
      ≡ (receive_char >>= read_digits m) s
read_digits-decimal_digits zero m s h = absurd (omega arith)
read_digits-decimal_digits (suc f) m s h = elim (Bool-cases (ltb m 10)) [
  | inl small ↦
      let e : 0 * 10 + m ≡ m = omega arith in
      rw (decimal_digits-small f m (ltb→lt m 10 small)) (
        read_digits-step 0 m s (ltb→lt m 10 small)
        ∙ ap (λ (k : ℕ). (receive_char >>= read_digits k) s) e)
  | inr big ↦
      let e : m / 10 * 10 + m % 10 ≡ m = omega arith in
      rw (decimal_digits-big f m (ltb→le m 10 big), append_assoc)
        (read_digits-decimal_digits f (m / 10) _ (omega (arith, ltb→le m 10 big))
          ∙ read_digits-step (m / 10) (m % 10) s (omega arith)
          ∙ ap (λ (k : ℕ). (receive_char >>= read_digits k) s) e)
]

digit-not-whitespace : (d : ℕ) → d < 10 → contains whitespace (b'0' + d) ≡ false
digit-not-whitespace d h = ground arith

-- A printed number begins with a digit, so nothing is skipped before it.
read_first_non_ws-decimal :
    (m : ℕ) (s : Bytes) → read_first_non_ws (decimal m ++ s) ≡ receive_char (decimal m ++ s)
unfolding decimal receive_char read_first_non_ws
read_first_non_ws-decimal m s =
    let (d, ds, e, h) = decimal_digits-StartsWithDigit m m in rw e (rw (digit-not-whitespace d h))

module _ (m c : ℕ) (rest : Bytes) (stop : contains digits c ≡ false) where
  -- A printed number is read back, with the byte behind it.
  pub read_int_and_next-decimal : read_int_and_next (decimal m ++ c ∷ rest) ≡ (ok (m, c), rest)
  unfolding read_int_and_next decimal receive_char read_digits
  read_int_and_next-decimal =
      ap (λ w. Exec.continue w.0 (read_digits 0) w.1) (read_first_non_ws-decimal m (c ∷ rest))
      ∙ read_digits-decimal_digits (suc m) m (c ∷ rest) (omega arith)
      ∙ stopped rest
    where
      stopped : (rest : Bytes) → read_digits m c rest ≡ (ok (m, c), rest)
      stopped [] = rw stop refl
      stopped (d ∷ rest) = rw stop refl

  -- A printed number is read back, and the byte behind it, which is no digit, is taken.
  pub read_int-decimal : read_int (decimal m ++ c ∷ rest) ≡ (ok m, rest)
  unfolding read_int
  read_int-decimal = rw read_int_and_next-decimal

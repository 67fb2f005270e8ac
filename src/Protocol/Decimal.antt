-- ===== src/Protocol/Decimal.antt =====
-- `b"%d"` at a natural number.
use pylyskom.Base.{
  ℕ, zero, suc, ◌+◌, ◌/◌, ◌%◌, ◌≤◌, ◌<◌, ◌≡◌, refl, ap, ◌∙◌, inl, inr, ltb, ltb→lt, ltb→le, lt→ltb,
  le→ltb, Bool-cases, true, false, Bytes, [], ◌∷◌, ◌++◌, arith,
}

-- The fuel bounds the number of digits.
unfoldable pub decimal_digits : ℕ → ℕ → Bytes
decimal_digits zero n = []
decimal_digits (suc f) n = elim (ltb n 10) [
  | true ↦ (b'0' + n) ∷ []
  | false ↦ decimal_digits f (n / 10) ++ (b'0' + n % 10) ∷ []
]

unfoldable pub decimal : ℕ → Bytes
unfolding decimal_digits
decimal n = decimal_digits (suc n) n

module _ (f n : ℕ) where
  pub decimal_digits-small : n < 10 → decimal_digits (suc f) n ≡ (b'0' + n) ∷ []
  unfolding decimal_digits
  decimal_digits-small h = rw (lt→ltb n 10 h, decimal_digits) refl

  pub decimal_digits-big :
      10 ≤ n → decimal_digits (suc f) n ≡ decimal_digits f (n / 10) ++ (b'0' + n % 10) ∷ []
  unfolding decimal_digits
  decimal_digits-big h = rw (le→ltb n 10 h, decimal_digits) refl

-- `bytes` begins with a digit.
abbrev pub StartsWithDigit : Bytes → Type 0
StartsWithDigit bytes = (d : ℕ) × (ds : Bytes) × (bytes ≡ (b'0' + d) ∷ ds) × (d < 10)

pub decimal_digits-StartsWithDigit : (f n : ℕ) → StartsWithDigit (decimal_digits (suc f) n)
decimal_digits-StartsWithDigit zero n = elim (Bool-cases (ltb n 10)) [
  | inl small ↦ (n, [], decimal_digits-small zero n (ltb→lt n 10 small), ltb→lt n 10 small)
  | inr big ↦ (
    n % 10,
    [],
    decimal_digits-big zero n (ltb→le n 10 big) ∙ unfold decimal_digits in refl,
    omega arith,
  )
]
decimal_digits-StartsWithDigit (suc f) n = elim (Bool-cases (ltb n 10)) [
  | inl small ↦ (n, [], decimal_digits-small (suc f) n (ltb→lt n 10 small), ltb→lt n 10 small)
  | inr big ↦
      let (d, ds, e, h) = decimal_digits-StartsWithDigit f (n / 10) in
      (
        d,
        ds ++ (b'0' + n % 10) ∷ [],
        decimal_digits-big (suc f) n (ltb→le n 10 big) ∙ ap (λ l. l ++ (b'0' + n % 10) ∷ []) e,
        h,
      )
]

decimal_4711 : decimal 4711 ≡ b'4' ∷ b'7' ∷ b'1' ∷ b'1' ∷ []
unfolding decimal
decimal_4711 = refl

-- ===== src/Protocol/Stable.antt =====
-- protocol.py: the readers, and where the received bytes stop.
use pylyskom.Base.{
  ℕ, ◌+◌, ◌-◌, ◌*◌, ◌≡◌, refl, ◌⊎◌, inl, inr, false, Bool-cases, Bytes, contains, [], ◌∷◌, ◌++◌,
  length, length-append, length-drop, ◌≤◌, take-append, drop-append, ltb, ltb→le, le→ltb, arith,
}
use pylyskom.Result.{ok, IsShort}
use pylyskom.Exec.Stable.{Buffered, Stable, Stable-bind, Stable-pure}
use pylyskom.Protocol.{
  Parser, whitespace, digits, ord_0, receive_string, receive_char, read_first_non_ws, read_digits,
  read_int_and_next, read_int,
}

abbrev pub remaining : Buffered Bytes
remaining = record { grow = ◌++◌; size = length }

abbrev pub IsStable {ℓ} : {A : Type ℓ} → Parser A → Type ℓ
IsStable m = Stable remaining m

pub receive_char-Stable : IsStable receive_char
unfolding receive_char
receive_char-Stable = record {
  at = elim [ [] ↦ λ t. inl tt | c ∷ s ↦ λ t. inr refl ];
  shrinks = elim [ [] ↦ omega arith | c ∷ s ↦ omega arith ];
}

pub receive_string-Stable : (n : ℕ) → IsStable (receive_string n)
unfolding receive_string
receive_string-Stable n = record {
  at = λ s t. elim (Bool-cases (ltb (length s) n)) [
    | inl short ↦ rw short (inl tt)
    | inr enough ↦
        let fits = ltb→le _ _ enough in
        rw (enough, le→ltb (length (s ++ t)) n (omega (arith, length-append s t)))
          (rw (take-append n s t fits, drop-append n s t fits) (inr refl))
  ];
  shrinks = λ s. ground (arith, length-drop n s);
}

-- `Stable` at one input.
abbrev pub Extends {ℓ} : {A : Type ℓ} → Parser A → Bytes → Bytes → Type ℓ
Extends m s t = IsShort (m s).0 ⊎ (m (s ++ t) ≡ ((m s).0, (m s).1 ++ t))

skip-Extends : (s t : Bytes) → Extends read_first_non_ws s t
unfolding read_first_non_ws
skip-Extends [] t = inl tt
skip-Extends (c ∷ s) t = elim (Bool-cases (contains whitespace c)) [
  | inl white ↦ rw white (skip-Extends s t)
  | inr other ↦ rw other (inr refl)
]

skip_shrinks : (s : Bytes) → length (read_first_non_ws s).1 ≤ length s
unfolding read_first_non_ws
skip_shrinks [] = omega arith
skip_shrinks (c ∷ s) = elim (Bool-cases (contains whitespace c)) [
  | inl white ↦ rw white (omega (arith, skip_shrinks s))
  | inr other ↦ rw other (omega arith)
]

pub read_first_non_ws-Stable : IsStable read_first_non_ws
read_first_non_ws-Stable = record { at = skip-Extends; shrinks = skip_shrinks }

digits-Extends : (s t : Bytes) (n c : ℕ) → Extends (read_digits n c) s t
unfolding read_digits
digits-Extends [] t n c = elim (Bool-cases (contains digits c)) [
  | inl digit ↦ rw digit (inl tt)
  | inr other ↦ rw other (stopped t other)
]
  where
    stopped : (t : Bytes) → contains digits c ≡ false → ⊥ ⊎ (read_digits n c t ≡ (ok (n, c), t))
    stopped [] other = rw other (inr refl)
    stopped (d ∷ t) other = rw other (inr refl)
digits-Extends (d ∷ s) t n c = elim (Bool-cases (contains digits c)) [
  | inl digit ↦ rw digit (digits-Extends s t (n * 10 + (c - ord_0)) d)
  | inr other ↦ rw other (inr refl)
]

digits_shrinks : (s : Bytes) (n c : ℕ) → length (read_digits n c s).1 ≤ length s
unfolding read_digits
digits_shrinks [] n c = elim (Bool-cases (contains digits c)) [
  | inl digit ↦ rw digit (omega arith)
  | inr other ↦ rw other (omega arith)
]
digits_shrinks (d ∷ s) n c = elim (Bool-cases (contains digits c)) [
  | inl digit ↦ rw digit (omega (arith, digits_shrinks s (n * 10 + (c - ord_0)) d))
  | inr other ↦ rw other (omega arith)
]

pub read_digits-Stable : (n c : ℕ) → IsStable (read_digits n c)
read_digits-Stable n c = record {
  at = λ s t. digits-Extends s t n c;
  shrinks = λ s. digits_shrinks s n c;
}

pub read_int_and_next-Stable : IsStable read_int_and_next
unfolding read_int_and_next
read_int_and_next-Stable = Stable-bind read_first_non_ws-Stable (read_digits-Stable 0)

pub read_int-Stable : IsStable read_int
unfolding read_int
read_int-Stable = Stable-bind read_int_and_next-Stable λ (c, n). Stable-pure c

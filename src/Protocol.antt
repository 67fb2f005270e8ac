-- ===== src/Protocol.antt =====
-- protocol.py: the readers of the wire format, over the bytes that the buffer has not yet handed
-- out (`current` in Buffer), and `to_hstring`.
mod Decimal
pub mod Stable
pub mod RoundTrip
unfoldable pub use Decimal.{decimal}
use pylyskom.Base.{
  ℕ, ◌+◌, ◌-◌, ◌*◌, ◌^◌, Bytes, contains, [], ◌∷◌, ◌++◌, length, take, drop, ltb, if◌then◌else◌,
}
use pylyskom.Result.{ok, raise, not_enough_data}
use pylyskom.Exec.{Exec, pure, ◌>>=◌}

-- A reader takes bytes from the front of what is there.
abbrev pub Parser {ℓ} : Type ℓ → Type ℓ
Parser A = Exec Bytes A

abbrev pub whitespace : Bytes
whitespace = b' ' ∷ 9 ∷ 13 ∷ 10 ∷ []

-- The zero stands at both ends in the source too.
abbrev pub digits : Bytes
digits = b'0' ∷ b'1' ∷ b'2' ∷ b'3' ∷ b'4' ∷ b'5' ∷ b'6' ∷ b'7' ∷ b'8' ∷ b'9' ∷ b'0' ∷ []

abbrev pub ord_0 : ℕ
ord_0 = b'0'

abbrev pub max_text_size : ℕ
max_text_size = 2 ^ 31 - 1

unfoldable pub receive_string : ℕ → Parser Bytes
receive_string n s =
    if ltb (length s) n then (raise not_enough_data, s) else (ok (take n s), drop n s)

unfoldable pub receive_char : Parser ℕ
receive_char [] = (raise not_enough_data, [])
receive_char (c ∷ s) = (ok c, s)

-- Each round of the `while` is one `receive_char`.
unfoldable pub read_first_non_ws : Parser ℕ
read_first_non_ws [] = (raise not_enough_data, [])
read_first_non_ws (c ∷ s) = if contains whitespace c then read_first_non_ws s else (ok c, s)

-- The `while` of `read_int_and_next`: `n` so far, and `c` in hand.
unfoldable pub read_digits : ℕ → ℕ → Parser (ℕ × ℕ)
read_digits n c [] = if contains digits c then (raise not_enough_data, []) else (ok (n, c), [])
read_digits n c (d ∷ s) =
    if contains digits c then read_digits (n * 10 + (c - ord_0)) d s else (ok (n, c), d ∷ s)

unfoldable pub read_int_and_next : Parser (ℕ × ℕ)
read_int_and_next = do c ← read_first_non_ws; read_digits 0 c

unfoldable pub read_int : Parser ℕ
read_int = read_int_and_next >>= λ (c, n). pure c

unfoldable pub to_hstring : Bytes → Bytes
to_hstring s = decimal (length s) ++ b'H' ∷ s

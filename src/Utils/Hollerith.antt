-- ===== src/Utils/Hollerith.antt =====
-- utils.py: `parse_hollerith_string`, which takes a string off the front of the bytes of a user area.
use pylyskom.Base.{
  ℕ, ◌+◌, ◌-◌, ◌*◌, ◌≡◌, refl, ap, ap₂, ==_iff, ◌∙◌, Bytes, [], ◌∷◌, ◌++◌, take, drop, ltb, length,
  contains, true, false, Bool-cases, inl, inr, Option, none, some, ◌==◌, if◌then◌else◌,
}
use pylyskom.Result.{Result, ok, raise, type_error, unspecified, protocol_error}
use pylyskom.Exec.{continue, throw}
use pylyskom.Datatypes.Basic.{parse_string, string_to_string}
use pylyskom.Datatypes.Basic.RoundTrip.{parse_string-to_string}
use pylyskom.Protocol.{
  receive_string, whitespace, digits, ord_0, to_hstring, read_first_non_ws, read_digits,
  read_int_and_next,
}

-- The string, None for no bytes at all, and what is behind it.
abbrev pub Parsed : Type 0
Parsed = Option Bytes × Bytes

-- The second `while`, with the length so far, and what is behind it. At the end of the bytes, `b""`
-- is in DIGITS, and `ord` refuses it.
unfoldable pub parse_length : ℕ → Bytes → Result Parsed
parse_length length [] = raise type_error
parse_length length (c ∷ s) =
    if contains digits c
    then parse_length (length * 10 + (c - ord_0)) s
    else if c == b'H'
    then ok (some (take length s), drop length s)
    else raise unspecified

-- The first `while`. At the end of the bytes, `b""` is in WHITESPACE for ever: `none`.
unfoldable pub skip_whitespace : Bytes → Option (Result Parsed)
skip_whitespace [] = none
skip_whitespace (c ∷ s) =
    if contains whitespace c then skip_whitespace s else some (parse_length 0 (c ∷ s))

unfoldable pub parse_hollerith_string : Bytes → Option (Result Parsed)
parse_hollerith_string [] = some (ok (none, []))
parse_hollerith_string (c ∷ s) = skip_whitespace (c ∷ s)

-- Where `read_digits` stops at an H, so does the second `while`.
stops-at-h :
    (s rest : Bytes) (n m c : ℕ)
    → contains digits c ≡ false
    → ◌≡◌ {A = Result (ℕ × ℕ) × Bytes} (ok (n, c), s) (ok (m, b'H'), rest)
    → parse_length n (c ∷ s) ≡ ok (some (take m rest), drop m rest)
unfolding parse_length
stops-at-h s rest n m c other x =
    let length : n ≡ m = cc in
    let letter : c ≡ b'H' = cc in
    let behind : s ≡ rest = cc in
    let is_h : (c == b'H') ≡ true = (==_iff c b'H').1 letter in
    rw other (rw is_h (ap₂ (λ (k : ℕ) (t : Bytes). ok (some (take k t), drop k t)) length behind))

-- A length that protocol.py reads, with the H behind it, is read here too.
parse_length-read_digits :
    (s rest : Bytes) (n m c : ℕ)
    → read_digits n c s ≡ (ok (m, b'H'), rest)
    → parse_length n (c ∷ s) ≡ ok (some (take m rest), drop m rest)
unfolding read_digits parse_length
parse_length-read_digits [] rest n m c e = elim (Bool-cases (contains digits c)) [
  | inl digit ↦ let x = (rw digit at e) in absurd cc
  | inr other ↦ stops-at-h [] rest n m c other (rw other at e)
]
parse_length-read_digits (d ∷ s) rest n m c e = elim (Bool-cases (contains digits c)) [
  | inl digit ↦
      rw digit (parse_length-read_digits s rest (n * 10 + (c - ord_0)) m d (rw digit at e))
  | inr other ↦ stops-at-h (d ∷ s) rest n m c other (rw other at e)
]

skip_whitespace-read_int_and_next :
    (s rest : Bytes) (m : ℕ)
    → read_int_and_next s ≡ (ok (m, b'H'), rest)
    → skip_whitespace s ≡ some (ok (some (take m rest), drop m rest))
unfolding read_int_and_next read_first_non_ws skip_whitespace
skip_whitespace-read_int_and_next [] rest m e = absurd cc
skip_whitespace-read_int_and_next (c ∷ s) rest m e = elim (Bool-cases (contains whitespace c)) [
  | inl white ↦ rw white (skip_whitespace-read_int_and_next s rest m (rw white at e))
  | inr other ↦ rw other (ap some (parse_length-read_digits s rest 0 m c (rw other at e)))
]

-- By what `String.parse` found of the length.
string-taken :
    (s x rest : Bytes) (r : Result (ℕ × ℕ)) (t : Bytes)
    → read_int_and_next s ≡ (r, t)
    → continue r (λ (n, h). if h == b'H' then receive_string n else throw protocol_error) t
      ≡ (ok x, rest)
    → skip_whitespace s ≡ some (ok (some x, rest))
unfolding receive_string
string-taken s x rest (raise y) t e f = absurd cc
string-taken s x rest (ok (n, h)) t e f = elim (Bool-cases (h == b'H')) [
  | inl is_h ↦ elim (Bool-cases (ltb (length t) n)) [
    | inl short ↦
        let g : receive_string n t ≡ (ok x, rest) = (rw is_h at f) in
        let y = (rw (short, receive_string) at g) in absurd cc
    | inr enough ↦
        let g : receive_string n t ≡ (ok x, rest) = (rw is_h at f) in
        let y : ◌≡◌ {A = Result Bytes × Bytes} (ok (take n t), drop n t) (ok x, rest) =
          (rw (enough, receive_string) at g) in
        let letter : h ≡ b'H' = (==_iff h b'H').0 is_h in
        let a : take n t ≡ x = cc in
        let b : drop n t ≡ rest = cc in
        skip_whitespace-read_int_and_next s t n (e ∙ ap (λ (k : ℕ). (ok (n, k), t)) letter)
        ∙ ap₂ (λ (u v : Bytes). some (ok (some u, v))) a b
  ]
  | inr other ↦ let g = (rw other at f) in absurd cc
]

-- A string that `String.parse` of datatypes.py reads from the front of a buffer is taken off the
-- front of the same bytes, and the same bytes are left.
pub parse_hollerith_string-parse_string :
    (s x rest : Bytes)
    → parse_string s ≡ (ok x, rest)
    → parse_hollerith_string s ≡ some (ok (some x, rest))
unfolding parse_string parse_hollerith_string read_int_and_next read_first_non_ws
parse_hollerith_string-parse_string [] x rest e = absurd cc
parse_hollerith_string-parse_string (c ∷ s) x rest e =
    string-taken (c ∷ s) x rest (read_int_and_next (c ∷ s)).0 (read_int_and_next (c ∷ s)).1 refl e

-- What `to_hollerith_string` prints is taken off again, also behind a space.
pub parse_hollerith_string-to_hstring :
    (s rest : Bytes)
    → (parse_hollerith_string (to_hstring s ++ rest) ≡ some (ok (some s, rest)))
      × (parse_hollerith_string (b' ' ∷ (to_hstring s ++ rest)) ≡ some (ok (some s, rest)))
unfolding to_hstring string_to_string parse_string read_int_and_next read_first_non_ws
parse_hollerith_string-to_hstring s rest = (
  parse_hollerith_string-parse_string (to_hstring s ++ rest) s rest (parse_string-to_string s rest),
  parse_hollerith_string-parse_string (b' ' ∷ (to_hstring s ++ rest)) s rest
      (parse_string-to_string s rest),
)

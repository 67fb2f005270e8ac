-- ===== src/Datatypes/Basic.antt =====
-- datatypes.py: the strings, integers, arrays and bit strings that the other types are built from.
pub mod Stable
pub mod RoundTrip
use pylyskom.Base.{
  ℕ, zero, suc, Bytes, List, [], ◌∷◌, ◌++◌, length, ltb, ◌==◌, ◌&&◌, ◌||◌, Bool, true, false,
  if◌then◌else◌,
}
use pylyskom.Result.{Result, ok, raise, protocol_error, value_error, assertion_error}
use pylyskom.Exec.{pure, throw, ◌>>=◌}
use pylyskom.Protocol.{
  Parser, receive_string, receive_char, read_first_non_ws, read_int_and_next, read_int, decimal,
}

-- EmptyResponse
unfoldable pub parse_empty : Parser (Unit {0})
parse_empty = pure tt

-- String
unfoldable pub parse_string : Parser Bytes
parse_string = do
  (n, h) ← read_int_and_next
  if h == b'H' then receive_string n else throw protocol_error

unfoldable pub string_to_string : Bytes → Bytes
string_to_string s = decimal (length s) ++ b'H' ∷ s

-- Int, and the classes below it, which add nothing: Bool, Int8, Int16, Int32, AuxNo, ConfNo,
-- PersNo, TextNo, LocalTextNo, SessionNo, GarbNice, InfoType. What is read is never negative.
unfoldable pub parse_int : Parser ℕ
parse_int = read_int

unfoldable pub int_to_string : ℕ → Bytes
int_to_string n = decimal n

module _ {A : Type 0} where
  -- The `for` of `Array.parse`.
  unfoldable pub parse_elements : Parser A → ℕ → Parser (List A)
  parse_elements element zero = pure []
  parse_elements element (suc n) = do el ← element; obj ← parse_elements element n; pure (el ∷ obj)

  -- Array, over the reader of its ELEMENT_CLASS.
  unfoldable pub parse_array : Parser A → Parser (List A)
  parse_array element = do
    n ← read_int
    left ← read_first_non_ws
    if left == b'*'
        then pure []
        else if left == b'{'
        then (do
          obj ← parse_elements element n
          right ← read_first_non_ws
          if right == b'}' then pure obj else throw protocol_error)
        else throw protocol_error

  -- `b" ".join`
  unfoldable pub join : (A → Bytes) → List A → Bytes
  join f [] = []
  join f (x ∷ []) = f x
  join f (x ∷ y ∷ l) = f x ++ b' ' ∷ join f (y ∷ l)

  unfoldable pub array_to_string : (A → Bytes) → List A → Bytes
  array_to_string f [] = b'0' ∷ b' ' ∷ b'{' ∷ b' ' ∷ b'}' ∷ []
  array_to_string f l = decimal (length l) ++ b' ' ∷ b'{' ∷ b' ' ∷ (join f l ++ b' ' ∷ b'}' ∷ [])

-- The `for` of `Bitstring.parse`, with the byte in hand.
unfoldable pub parse_bits : ℕ → ℕ → Parser (List ℕ)
parse_bits zero char = pure []
parse_bits (suc n) char =
    if char == b'0'
    then (do next ← receive_char; bits ← parse_bits n next; pure (0 ∷ bits))
    else if char == b'1'
    then (do next ← receive_char; bits ← parse_bits n next; pure (1 ∷ bits))
    else throw protocol_error

-- Bitstring, over its LENGTH.
unfoldable pub parse_bitstring : ℕ → Parser (List ℕ)
parse_bitstring n = do char ← read_first_non_ws; parse_bits n char

-- `v in (0, 1)` for each `v`
unfoldable pub all_bits : List ℕ → Bool
all_bits [] = true
all_bits (v ∷ l) = (v == 0 || v == 1) && all_bits l

unfoldable pub bits_to_string : List ℕ → Bytes
bits_to_string [] = []
bits_to_string (v ∷ l) = decimal v ++ bits_to_string l

unfoldable pub validate_bitstring : ℕ → List ℕ → Result (Unit {0})
validate_bitstring n l =
    if length l == n
    then (if all_bits l then ok tt else raise value_error)
    else raise assertion_error

unfoldable pub bitstring_to_string : ℕ → List ℕ → Result Bytes
unfolding validate_bitstring
bitstring_to_string n l = elim (validate_bitstring n l) [
  | ok _ ↦ ok (bits_to_string l)
  | raise e ↦ raise e
]

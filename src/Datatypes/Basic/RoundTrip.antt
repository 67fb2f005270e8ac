-- ===== src/Datatypes/Basic/RoundTrip.antt =====
-- datatypes.py: printing and reading the basic types, one after the other.
use pylyskom.Base.{
  All, ℕ, zero, suc, ◌<◌, ◌≡◌, ◌⊎◌, inl, inr, refl, ◌∙◌, false, true, le→ltb, Bytes, List, [], ◌∷◌,
  ◌++◌, append_assoc, contains, length, length-append, if◌then◌else◌, ==_refl, ◌<◌, take-length,
  drop-length, ◌==◌, arith,
}
use pylyskom.Result.{ok, protocol_error}
use pylyskom.Exec.{◌>>=◌, bind_assoc, pure, throw}
use pylyskom.Protocol.{
  Parser, digits, receive_string, receive_char, read_first_non_ws, read_int_and_next, read_int,
  read_digits, decimal,
}
use pylyskom.Protocol.RoundTrip.{read_int_and_next-decimal, read_int-decimal}
use pylyskom.Datatypes.Basic.{
  parse_string, parse_int, parse_elements, parse_array, parse_bits, parse_bitstring,
  string_to_string, int_to_string, join, array_to_string, bits_to_string, all_bits,
  validate_bitstring, bitstring_to_string,
}

receive_string-append : (s rest : Bytes) → receive_string (length s) (s ++ rest) ≡ (ok s, rest)
unfolding receive_string
receive_string-append s rest =
    rw (le→ltb (length (s ++ rest)) (length s) (omega (arith, length-append s rest)))
      (rw (take-length s rest, drop-length s rest) refl)

-- A string is read back exactly, whatever follows.
pub parse_string-to_string :
    (s rest : Bytes) → parse_string (string_to_string s ++ rest) ≡ (ok s, rest)
unfolding parse_string string_to_string
parse_string-to_string s rest =
    rw (append_assoc, read_int_and_next-decimal (length s) b'H' (s ++ rest) refl)
      (receive_string-append s rest)

-- An integer is read back, and the byte behind it is taken.
pub parse_int-to_string :
    (n c : ℕ) (rest : Bytes)
    → contains digits c ≡ false
    → parse_int (int_to_string n ++ c ∷ rest) ≡ (ok n, rest)
unfolding parse_int int_to_string
parse_int-to_string n c rest stop = read_int-decimal n c rest stop

-- `p` reads `v` off `bytes` and a space: it takes the space, or leaves it to the next reader.
abbrev pub ReadsField {ℓ} : {A : Type ℓ} → Parser A → Bytes → A → Type ℓ
ReadsField p bytes v =
    (rest : Bytes)
    → (p (bytes ++ b' ' ∷ rest) ≡ (ok v, rest)) ⊎ (p (bytes ++ b' ' ∷ rest) ≡ (ok v, b' ' ∷ rest))

-- `p` skips a space before it.
abbrev pub SkipsSpace {ℓ} : {A : Type ℓ} → Parser A → Type ℓ
SkipsSpace p = (s : Bytes) → p (b' ' ∷ s) ≡ p s

module _ {A : Type 0} (p : Parser A) (f : A → Bytes) (skips : SkipsSpace p) where
  abbrev Reads : A → Type 0
  Reads v = ReadsField p (f v) v

  next_element :
      (n : ℕ) {s s' s'' : Bytes} {x : A} {l : List A}
      → p s ≡ (ok x, s')
      → parse_elements p n s' ≡ (ok l, s'')
      → parse_elements p (suc n) s ≡ (ok (x ∷ l), s'')
  unfolding parse_elements
  next_element n e e' = rw (e, e') refl

  elements_skip : (n : ℕ) → SkipsSpace (parse_elements p (suc n))
  unfolding parse_elements
  elements_skip n s = rw (skips s) refl

  -- After `x` was read, with its space or without, the others are.
  after_element :
      (x y : A) (l : List A) (rest s : Bytes)
      → Reads x
      → parse_elements p (length (y ∷ l)) (join f (y ∷ l) ++ b' ' ∷ rest) ≡ (ok (y ∷ l), s)
      → parse_elements p (length (x ∷ y ∷ l)) (join f (x ∷ y ∷ l) ++ b' ' ∷ rest)
        ≡ (ok (x ∷ y ∷ l), s)
  unfolding join
  after_element x y l rest s reads e =
      rw append_assoc (elim (reads (join f (y ∷ l) ++ b' ' ∷ rest)) [
        | inl taken ↦ next_element (length (y ∷ l)) taken e
        | inr left ↦ next_element (length (y ∷ l)) left (elements_skip (length l) _ ∙ e)
      ])

  parse_elements-join :
      (x : A) (l : List A)
      → All Reads (x ∷ l)
      → ReadsField (parse_elements p (length (x ∷ l))) (join f (x ∷ l)) (x ∷ l)
  unfolding join
  parse_elements-join x [] reads rest = elim (reads.0 rest) [
    | inl taken ↦ inl (next_element 0 taken (unfold parse_elements in refl))
    | inr left ↦ inr (next_element 0 left (unfold parse_elements in refl))
  ]
  parse_elements-join x (y ∷ l) reads rest = elim (parse_elements-join y l reads.1 rest) [
    | inl e ↦ inl (after_element x y l rest _ reads.0 e)
    | inr e ↦ inr (after_element x y l rest _ reads.0 e)
  ]

  -- What `parse_array` does once the number and the brace are read.
  after_brace :
      (x : A) (l : List A) (rest : Bytes)
      → All Reads (x ∷ l)
      → (parse_elements p (length (x ∷ l)) >>= λ obj.
            read_first_non_ws >>= λ right. if right == b'}' then pure obj else throw protocol_error)
          (b' ' ∷ (join f (x ∷ l) ++ b' ' ∷ b'}' ∷ rest))
        ≡ (ok (x ∷ l), rest)
  unfolding read_first_non_ws
  after_brace x l rest reads =
      rw (elements_skip (length l)) (elim (parse_elements-join x l reads (b'}' ∷ rest)) [
        | inl e ↦ rw e refl
        | inr e ↦ rw e refl
      ])

  nonempty_array :
      (x : A) (l : List A) (rest : Bytes)
      → All Reads (x ∷ l)
      → parse_array p (array_to_string f (x ∷ l) ++ rest) ≡ (ok (x ∷ l), rest)
  unfolding parse_array array_to_string read_first_non_ws
  nonempty_array x l rest reads =
      rw (append_assoc, read_int-decimal (length (x ∷ l)) b' ' _ refl, append_assoc)
        (after_brace x l rest reads)

  -- For elements whose reader skips a leading space and reads each of them back from what `f` prints,
  -- an array is read back exactly, whatever follows.
  pub parse_array-to_string :
      (l : List A) (rest : Bytes)
      → All Reads l
      → parse_array p (array_to_string f l ++ rest) ≡ (ok l, rest)
  unfolding parse_array array_to_string parse_elements read_int read_int_and_next read_first_non_ws
      read_digits
  parse_array-to_string [] rest reads = refl
  parse_array-to_string (x ∷ l) rest reads = nonempty_array x l rest reads

-- Reading the bits of `l` one by one, from the first.
parse_bits-to_string :
    (l : List ℕ) (c : ℕ) (rest : Bytes)
    → all_bits l ≡ true
    → (receive_char >>= parse_bits (length l)) (bits_to_string l ++ c ∷ rest) ≡ (ok l, rest)
unfolding parse_bits all_bits bits_to_string receive_char decimal
parse_bits-to_string [] c rest h = refl
parse_bits-to_string (zero ∷ l) c rest h =
    bind_assoc receive_char (parse_bits (length l)) (λ bits. pure (0 ∷ bits)) _
    ∙ rw (parse_bits-to_string l c rest h) refl
parse_bits-to_string (suc zero ∷ l) c rest h =
    bind_assoc receive_char (parse_bits (length l)) (λ bits. pure (1 ∷ bits)) _
    ∙ rw (parse_bits-to_string l c rest h) refl
parse_bits-to_string (suc (suc v) ∷ l) c rest h = absurd (ground arith)

bits-not-whitespace :
    (v : ℕ) (l : List ℕ) (s : Bytes)
    → all_bits (v ∷ l) ≡ true
    → read_first_non_ws (bits_to_string (v ∷ l) ++ s) ≡ receive_char (bits_to_string (v ∷ l) ++ s)
unfolding all_bits bits_to_string receive_char decimal read_first_non_ws
bits-not-whitespace zero l s h = refl
bits-not-whitespace (suc zero) l s h = refl
bits-not-whitespace (suc (suc v)) l s h = absurd (ground arith)

validate_bitstring-all_bits :
    (l : List ℕ) → all_bits l ≡ true → validate_bitstring (length l) l ≡ ok tt
unfolding validate_bitstring
validate_bitstring-all_bits l h = rw (==_refl (length l), h) refl

-- A bit string that holds only bits, one at least, is sent, and it is read back with the length that
-- it has; the byte behind it is taken.
pub parse_bitstring-to_string :
    (l : List ℕ) (c : ℕ) (rest : Bytes)
    → 0 < length l
    → all_bits l ≡ true
    → (bytes : Bytes) × (bitstring_to_string (length l) l ≡ ok bytes)
      × (parse_bitstring (length l) (bytes ++ c ∷ rest) ≡ (ok l, rest))
unfolding bitstring_to_string parse_bitstring
parse_bitstring-to_string [] c rest pos h = absurd (omega arith)
parse_bitstring-to_string (v ∷ l) c rest pos h = (
  bits_to_string (v ∷ l),
  rw (validate_bitstring-all_bits (v ∷ l) h, bitstring_to_string) refl,
  rw (bits-not-whitespace v l (c ∷ rest) h) (parse_bits-to_string (v ∷ l) c rest h),
)

-- The same for a number inside a line, where a space follows.
pub parse_int-decimal : (n : ℕ) (rest : Bytes) → parse_int (decimal n ++ b' ' ∷ rest) ≡ (ok n, rest)
unfolding parse_int
parse_int-decimal n rest = read_int-decimal n b' ' rest refl

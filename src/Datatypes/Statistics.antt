-- ===== src/Datatypes/Statistics.antt =====
-- datatypes.py and protocol.py: server statistics, and the floats in them. A float is kept as the
-- literal that was sent; how Python rounds it is not modelled.
use pylyskom.Base.{
  arith, length, ◌≤◌, ◌≡◌, refl, ℕ, Bytes, List, [], ◌∷◌, ◌++◌, Bool, true, false, ◌||◌,
  if◌then◌else◌, ◌==◌, contains, Bool-cases, inl, inr,
}
use pylyskom.Result.{ok, raise, not_enough_data, value_error}
use pylyskom.Exec.{pure, throw, ◌>>=◌}
use pylyskom.Exec.Stable.{Stable-pure, Stable-throw, Stable-bind, Stable-if}
use pylyskom.Protocol.{Parser, digits, read_first_non_ws}
use pylyskom.Protocol.Stable.{IsStable, Extends, read_first_non_ws-Stable}
use pylyskom.Datatypes.Basic.{parse_string, parse_int, parse_array}
use pylyskom.Datatypes.Basic.Stable.{parse_string-Stable, parse_int-Stable, parse_array-Stable}

abbrev pub float_chars : Bytes
float_chars = digits ++ b'e' ∷ b'E' ∷ b'.' ∷ b'-' ∷ b'+' ∷ []

-- How far a literal of `float()` was read: a sign, digits, a point (with no digit yet, or behind
-- one), an exponent.
pub data FloatState : Type 0 where
  start signed whole point fraction exponent exponent_signed exponent_digits bad : FloatState

abbrev is_sign : ℕ → Bool
is_sign c = c == b'-' || c == b'+'

abbrev is_e : ℕ → Bool
is_e c = c == b'e' || c == b'E'

unfoldable pub float_step : FloatState → ℕ → FloatState
float_step start c =
    if is_sign c
    then signed
    else if contains digits c
    then whole
    else if c == b'.'
    then point
    else bad
float_step signed c = if contains digits c then whole else if c == b'.' then point else bad
float_step whole c =
    if contains digits c
    then whole
    else if c == b'.'
    then fraction
    else if is_e c
    then exponent
    else bad
float_step point c = if contains digits c then fraction else bad
float_step fraction c = if contains digits c then fraction else if is_e c then exponent else bad
float_step exponent c =
    if is_sign c then exponent_signed else if contains digits c then exponent_digits else bad
float_step exponent_signed c = if contains digits c then exponent_digits else bad
float_step exponent_digits c = if contains digits c then exponent_digits else bad
float_step bad c = bad

unfoldable pub is_float : FloatState → Bytes → Bool
is_float whole [] = true
is_float fraction [] = true
is_float exponent_digits [] = true
is_float state [] = false
is_float state (c ∷ s) = is_float (float_step state c) s

-- The `while` of `read_float`, with the byte in hand and the bytes so far.
unfoldable pub read_float_chars : Bytes → ℕ → Parser Bytes
read_float_chars digs c [] =
    if contains float_chars c then (raise not_enough_data, []) else (ok digs, [])
read_float_chars digs c (d ∷ s) =
    if contains float_chars c then read_float_chars (digs ++ c ∷ []) d s else (ok digs, d ∷ s)

unfoldable pub read_float : Parser Bytes
read_float = do
  c ← read_first_non_ws
  digs ← read_float_chars [] c
  if is_float start digs then pure digs else throw value_error

-- Float
unfoldable pub parse_float : Parser Bytes
parse_float = read_float

float_chars_extend : (s t digs : Bytes) (c : ℕ) → Extends (read_float_chars digs c) s t
unfolding read_float_chars
float_chars_extend [] t digs c = elim (Bool-cases (contains float_chars c)) [
  | inl char ↦ rw char (inl tt)
  | inr other ↦ rw other (inr (stopped t other))
]
  where
    stopped :
        (t : Bytes) → contains float_chars c ≡ false → read_float_chars digs c t ≡ (ok digs, t)
    stopped [] other = rw other refl
    stopped (d ∷ t) other = rw other refl
float_chars_extend (d ∷ s) t digs c = elim (Bool-cases (contains float_chars c)) [
  | inl char ↦ rw char (float_chars_extend s t (digs ++ c ∷ []) d)
  | inr other ↦ rw other (inr refl)
]

float_chars_shrink : (s digs : Bytes) (c : ℕ) → length (read_float_chars digs c s).1 ≤ length s
unfolding read_float_chars
float_chars_shrink [] digs c = elim (Bool-cases (contains float_chars c)) [
  | inl char ↦ rw char (omega arith)
  | inr other ↦ rw other (omega arith)
]
float_chars_shrink (d ∷ s) digs c = elim (Bool-cases (contains float_chars c)) [
  | inl char ↦ rw char (omega (arith, float_chars_shrink s (digs ++ c ∷ []) d))
  | inr other ↦ rw other (omega arith)
]

pub parse_float-Stable : IsStable parse_float
unfolding parse_float read_float
parse_float-Stable = Stable-bind read_first_non_ws-Stable λ c.
    Stable-bind
      (record { at = λ s t. float_chars_extend s t [] c; shrinks = λ s. float_chars_shrink s [] c })
      λ digs. Stable-if _ (Stable-pure _) (Stable-throw _)

pub record StatsDescription : Type 0 where
  pub what : List Bytes
  pub when : List ℕ

unfoldable pub parse_stats_description : Parser StatsDescription
parse_stats_description = do
  what ← parse_array parse_string
  when ← parse_array parse_int
  pure (record { what = what; when = when })

pub parse_stats_description-Stable : IsStable parse_stats_description
unfolding parse_stats_description
parse_stats_description-Stable =
    Stable-bind (parse_array-Stable parse_string-Stable)
      λ _. Stable-bind (parse_array-Stable parse_int-Stable) λ _. Stable-pure _

pub record Stats : Type 0 where
  pub average : Bytes
  pub ascent_rate : Bytes
  pub descent_rate : Bytes

unfoldable pub parse_stats : Parser Stats
parse_stats = do
  average ← parse_float
  ascent_rate ← parse_float
  descent_rate ← parse_float
  pure (record { average = average; ascent_rate = ascent_rate; descent_rate = descent_rate })

pub parse_stats-Stable : IsStable parse_stats
unfolding parse_stats
parse_stats-Stable =
    Stable-bind parse_float-Stable
      λ _. Stable-bind parse_float-Stable λ _. Stable-bind parse_float-Stable λ _. Stable-pure _

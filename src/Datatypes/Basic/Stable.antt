-- ===== src/Datatypes/Basic/Stable.antt =====
-- datatypes.py: the readers of the basic types, and where the received bytes stop.
use pylyskom.Base.{ℕ, zero, suc, ◌∷◌}
use pylyskom.Exec.Stable.{stable_rules, Stable-pure, Stable-bind}
use pylyskom.Protocol.{Parser}
use pylyskom.Protocol.Stable.{
  IsStable, receive_char-Stable, receive_string-Stable, read_first_non_ws-Stable,
  read_int_and_next-Stable, read_int-Stable,
}
use pylyskom.Datatypes.Basic.{
  parse_empty, parse_string, parse_int, parse_elements, parse_array, parse_bits, parse_bitstring,
}

ruleset reader_rules = (
  stable_rules, receive_char-Stable, receive_string-Stable, read_first_non_ws-Stable,
  read_int_and_next-Stable, read_int-Stable,
)

pub parse_empty-Stable : IsStable parse_empty
unfolding parse_empty
parse_empty-Stable = Stable-pure tt

pub parse_string-Stable : IsStable parse_string
unfolding parse_string
parse_string-Stable = search reader_rules

pub parse_int-Stable : IsStable parse_int
unfolding parse_int
parse_int-Stable = read_int-Stable

module _ {A : Type 0} {element : Parser A} (stable : IsStable element) where
  parse_elements-Stable : (n : ℕ) → IsStable (parse_elements element n)
  unfolding parse_elements
  parse_elements-Stable zero = search reader_rules
  parse_elements-Stable (suc n) =
      Stable-bind stable λ el. Stable-bind (parse_elements-Stable n) λ obj. Stable-pure (el ∷ obj)

  pub parse_array-Stable : IsStable (parse_array element)
  unfolding parse_array
  parse_array-Stable = search (reader_rules, parse_elements-Stable) depth 8

parse_bits-Stable : (n char : ℕ) → IsStable (parse_bits n char)
unfolding parse_bits
parse_bits-Stable zero char = search reader_rules
parse_bits-Stable (suc n) char = search (reader_rules, parse_bits-Stable n) depth 8

pub parse_bitstring-Stable : (n : ℕ) → IsStable (parse_bitstring n)
unfolding parse_bitstring
parse_bitstring-Stable n = search (reader_rules, parse_bits-Stable n)

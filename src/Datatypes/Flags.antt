-- ===== src/Datatypes/Flags.antt =====
-- datatypes.py: the bit strings of fixed length; the named accessors are positions in them.
use pylyskom.Base.{ℕ, List, [], ◌∷◌, ◌++◌, if◌then◌else◌, ◌==◌, length}
use pylyskom.Result.{Result, ok, raise, value_error}
use pylyskom.Protocol.{Parser}
use pylyskom.Protocol.Stable.{IsStable}
use pylyskom.Datatypes.Basic.{parse_bitstring, all_bits}
use pylyskom.Datatypes.Basic.Stable.{parse_bitstring-Stable}

unfoldable pub parse_conf_type : Parser (List ℕ)
parse_conf_type = parse_bitstring 4

pub parse_conf_type-Stable : IsStable parse_conf_type
unfolding parse_conf_type
parse_conf_type-Stable = parse_bitstring-Stable 4

unfoldable pub parse_extended_conf_type : Parser (List ℕ)
parse_extended_conf_type = parse_bitstring 8

pub parse_extended_conf_type-Stable : IsStable parse_extended_conf_type
unfolding parse_extended_conf_type
parse_extended_conf_type-Stable = parse_bitstring-Stable 8

unfoldable pub parse_priv_bits : Parser (List ℕ)
parse_priv_bits = parse_bitstring 16

pub parse_priv_bits-Stable : IsStable parse_priv_bits
unfolding parse_priv_bits
parse_priv_bits-Stable = parse_bitstring-Stable 16

unfoldable pub parse_personal_flags : Parser (List ℕ)
parse_personal_flags = parse_bitstring 8

pub parse_personal_flags-Stable : IsStable parse_personal_flags
unfolding parse_personal_flags
parse_personal_flags-Stable = parse_bitstring-Stable 8

unfoldable pub parse_membership_type : Parser (List ℕ)
parse_membership_type = parse_bitstring 8

pub parse_membership_type-Stable : IsStable parse_membership_type
unfolding parse_membership_type
parse_membership_type-Stable = parse_bitstring-Stable 8

unfoldable pub parse_session_flags : Parser (List ℕ)
parse_session_flags = parse_bitstring 8

pub parse_session_flags-Stable : IsStable parse_session_flags
unfolding parse_session_flags
parse_session_flags-Stable = parse_bitstring-Stable 8

unfoldable pub parse_aux_item_flags : Parser (List ℕ)
parse_aux_item_flags = parse_bitstring 8

pub parse_aux_item_flags-Stable : IsStable parse_aux_item_flags
unfolding parse_aux_item_flags
parse_aux_item_flags-Stable = parse_bitstring-Stable 8

-- `Bitstring.__init__` with an iterable.
unfoldable pub new_bitstring : ℕ → List ℕ → Result (List ℕ)
new_bitstring n bits =
    if length bits == n
    then (if all_bits bits then ok bits else raise value_error)
    else raise value_error

-- What an AnyConfType is made from: a ConfType, or the bits of an ExtendedConfType.
pub data ConfTypeValue : Type 0 where
  conf_type : List ℕ → ConfTypeValue
  extended : List ℕ → ConfTypeValue

-- `ExtendedConfType.__init__`: a ConfType is filled up with zeros.
unfoldable pub new_extended_conf_type : ConfTypeValue → Result (List ℕ)
unfolding new_bitstring
new_extended_conf_type (conf_type bits) = new_bitstring 8 (bits ++ 0 ∷ 0 ∷ 0 ∷ 0 ∷ [])
new_extended_conf_type (extended bits) = new_bitstring 8 bits

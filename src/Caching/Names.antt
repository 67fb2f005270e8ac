-- ===== src/Caching/Names.antt =====
-- cachedconnection.py: looking conferences up by name. A str is the numbers of its characters, and
-- decoding latin1 leaves them as they are.
use pylyskom.Base.{
  ℕ, zero, ◌+◌, ◌*◌, ◌-◌, Bytes, List, [], ◌∷◌, ◌++◌, map, Bool, true, false, not, ◌&&◌, ◌||◌, ◌==◌,
  leb, Option, none, some, if◌then◌else◌,
}
use mathlib.Core.List.{reverse}
use pylyskom.Result.{Result, ok, raise, unspecified}
use pylyskom.Exec.{Exec, pure, lift, ◌>>=◌}
use pylyskom.Protocol.{decimal}
use pylyskom.Datatypes.Conference.{ConfZInfo}
use pylyskom.Requests.Request.{str}
use pylyskom.Requests.Responses
use pylyskom.Requests.Responses.{Reply}
use pylyskom.Requests.Calls.To88.{req_lookup_z_name, req_re_z_lookup, req_get_collate_table}
use pylyskom.Utils.Regexp.{case_insensitive_regexp}
use pylyskom.Caching.{ClientApi, CachingPersonClient, request, ask, get_uconference}
use pylyskom.Caching.Members.{flag}

abbrev pub Matches : Type 0
Matches = List (ℕ × List ℕ)

unfoldable pub as_conf_z_infos : Reply → Result (List ConfZInfo)
as_conf_z_infos (Responses.array_conf_z_info l) = ok l
as_conf_z_infos _ = raise unspecified

unfoldable pub as_string : Reply → Result Bytes
as_string (Responses.string s) = ok s
as_string _ = raise unspecified

-- (x.conf_no, x.name.decode('latin1')) for each match
unfoldable pub numbered_names : List ConfZInfo → Matches
numbered_names = map λ x. (x.conf_no, x.name)

-- The characters below 256 that Python's int() skips at both ends.
unfoldable pub is_space : ℕ → Bool
is_space c = (leb 9 c && leb c 13) || (leb 28 c && leb c 32) || (c == 133) || (c == 160)

unfoldable pub strip_left : List ℕ → List ℕ
strip_left [] = []
strip_left (c ∷ s) = let rest = strip_left s in if is_space c then rest else c ∷ s

-- The digits of a number, behind one or not; an underscore may stand between two of them.
unfoldable pub int_digits : Bool → ℕ → List ℕ → Option ℕ
int_digits false n [] = none
int_digits true n [] = some n
int_digits behind_digit n (c ∷ s) =
    let next = int_digits true (n * 10 + (c - b'0')) s in
    let skipping = int_digits false n s in
    if leb b'0' c && leb c b'9' then next else if c == b'_' && behind_digit then skipping else none

-- A number below zero is no key of a cache and no number of a conference: `none`, too.
unfoldable pub not_below_zero : Option ℕ → Option ℕ
not_below_zero (some zero) = some zero
not_below_zero _ = none

unfoldable pub int_signed : List ℕ → Option ℕ
int_signed [] = none
int_signed (c ∷ s) =
    if c == b'+'
    then int_digits false 0 s
    else if c == b'-'
    then not_below_zero (int_digits false 0 s)
    else int_digits false 0 (c ∷ s)

-- int(s), for characters below 256
unfoldable pub int_of : List ℕ → Option ℕ
int_of s = int_signed (reverse (strip_left (reverse (strip_left s))))

-- type.letterbox, the bit with number 3
unfoldable pub letterbox : List ℕ → Bool
letterbox (_ ∷ _ ∷ _ ∷ bit ∷ _) = not (bit == 0)
letterbox _ = false

-- `except Exception: return` a value
unfoldable pub or_else : {S A : Type 0} → A → Result A × S → Result A × S
or_else a (ok b, s) = (ok b, s)
or_else a (raise e, s) = (ok a, s)

module _ {S : Type 0} (api : ClientApi S) where
  -- CachingClient.conf_name, with its default for `default`
  unfoldable pub conf_name : ℕ → Bool → Exec (CachingPersonClient S) (List ℕ)
  conf_name conf_no include_no s = or_else [] (
      (get_uconference api conf_no >>= λ u. pure (
          if include_no
          then u.name ++ (b' ' ∷ b'(' ∷ b'#' ∷ decimal conf_no) ++ b')' ∷ []
          else u.name))
        s)

  -- The `try` of the numerical case, which looks the conference up twice.
  unfoldable pub lookup_number : Option ℕ → Bool → Bool → Exec (CachingPersonClient S) Matches
  lookup_number none want_pers want_confs s = (ok [], s)
  lookup_number (some n) want_pers want_confs s = or_else [] (
      (get_uconference api n >>= λ u. get_uconference api n >>= λ v. pure (
          if (want_pers && letterbox u.type) || (want_confs && not (letterbox u.type))
          then (n, v.name) ∷ []
          else []))
        s)

  unfoldable pub lookup_z_name : List ℕ → Bool → Bool → Exec (CachingPersonClient S) Matches
  lookup_z_name name want_pers want_confs =
      (request api req_lookup_z_name (str name ∷ [])
          (("want_pers", flag want_pers) ∷ ("want_confs", flag want_confs) ∷ [])
        >>= λ r. lift (as_conf_z_infos r))
      >>= λ matches. pure (numbered_names matches)

  -- CachingClient.lookup_name
  unfoldable pub lookup_name : List ℕ → Bool → Bool → Exec (CachingPersonClient S) Matches
  lookup_name [] want_pers want_confs = lookup_z_name [] want_pers want_confs
  lookup_name (c ∷ name) want_pers want_confs =
      if c == b'#'
      then lookup_number (int_of name) want_pers want_confs
      else lookup_z_name (c ∷ name) want_pers want_confs

  -- The regular expression that is sent.
  unfoldable pub regexp_to_send : List ℕ → Bool → Exec (CachingPersonClient S) (List ℕ)
  regexp_to_send regexp true = pure regexp
  regexp_to_send regexp false = ask api as_string req_get_collate_table [] >>= λ collate_table.
      pure (case_insensitive_regexp regexp collate_table)

  unfoldable pub re_z_lookup : List ℕ → Bool → Bool → Bool → Exec (CachingPersonClient S) Matches
  re_z_lookup regexp want_pers want_confs case_sensitive =
      regexp_to_send regexp case_sensitive >>= λ sent.
      (request api req_re_z_lookup (str sent ∷ [])
          (("want_persons", flag want_pers) ∷ ("want_confs", flag want_confs) ∷ [])
        >>= λ r. lift (as_conf_z_infos r))
      >>= λ matches. pure (numbered_names matches)

  -- CachingClient.regexp_lookup
  unfoldable pub regexp_lookup : List ℕ → Bool → Bool → Bool → Exec (CachingPersonClient S) Matches
  regexp_lookup [] want_pers want_confs case_sensitive =
      re_z_lookup [] want_pers want_confs case_sensitive
  regexp_lookup (c ∷ regexp) want_pers want_confs case_sensitive =
      if c == b'#'
      then lookup_name (c ∷ regexp) want_pers want_confs
      else re_z_lookup (c ∷ regexp) want_pers want_confs case_sensitive

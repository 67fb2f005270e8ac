-- ===== src/Datatypes/Membership.antt =====
-- datatypes.py: memberships and read ranges.
use pylyskom.Base.{ℕ, ◌≡◌, refl, Bytes, List, ◌∷◌, ◌++◌, false, contains, All-of, inl, append_assoc}
use pylyskom.Result.{ok}
use pylyskom.Exec.{pure, ◌>>=◌}
use pylyskom.Exec.Stable.{Stable-pure, Stable-bind}
use pylyskom.Protocol.{Parser, digits, decimal, read_int, read_int_and_next, read_first_non_ws}
use pylyskom.Protocol.Stable.{IsStable}
use pylyskom.Datatypes.Basic.{parse_int, parse_array, array_to_string, int_to_string}
use pylyskom.Datatypes.Basic.RoundTrip.{
  parse_int-decimal, parse_int-to_string, SkipsSpace, parse_array-to_string,
}
use pylyskom.Datatypes.Basic.Stable.{parse_int-Stable, parse_array-Stable}
use pylyskom.Datatypes.Time.{Time, parse_time, parse_time-Stable}
use pylyskom.Datatypes.Flags.{parse_membership_type, parse_membership_type-Stable}

pub record Membership10 : Type 0 where
  pub position : ℕ
  pub last_time_read : Time
  pub conference : ℕ
  pub priority : ℕ
  pub last_text_read : ℕ
  pub read_texts : List ℕ
  pub added_by : ℕ
  pub added_at : Time
  pub type : List ℕ

unfoldable pub parse_membership10 : Parser Membership10
parse_membership10 = do
  position ← parse_int
  last_time_read ← parse_time
  conference ← parse_int
  priority ← parse_int
  last_text_read ← parse_int
  read_texts ← parse_array parse_int
  added_by ← parse_int
  added_at ← parse_time
  type ← parse_membership_type
  pure (record {
    position = position;
    last_time_read = last_time_read;
    conference = conference;
    priority = priority;
    last_text_read = last_text_read;
    read_texts = read_texts;
    added_by = added_by;
    added_at = added_at;
    type = type;
  })

pub parse_membership10-Stable : IsStable parse_membership10
unfolding parse_membership10
parse_membership10-Stable = Stable-bind parse_int-Stable λ _. Stable-bind parse_time-Stable λ _.
    Stable-bind parse_int-Stable λ _. Stable-bind parse_int-Stable λ _.
      Stable-bind parse_int-Stable λ _. Stable-bind (parse_array-Stable parse_int-Stable) λ _.
        Stable-bind parse_int-Stable λ _.
          Stable-bind parse_time-Stable
            λ _. Stable-bind parse_membership_type-Stable λ _. Stable-pure _

pub record ReadRange : Type 0 where
  pub first_read : ℕ
  pub last_read : ℕ

unfoldable pub parse_read_range : Parser ReadRange
parse_read_range = do
  first_read ← parse_int
  last_read ← parse_int
  pure (record { first_read = first_read; last_read = last_read })

pub parse_read_range-Stable : IsStable parse_read_range
unfolding parse_read_range
parse_read_range-Stable =
    Stable-bind parse_int-Stable λ _. Stable-bind parse_int-Stable λ _. Stable-pure _

pub record Membership11 : Type 0 where
  pub position : ℕ
  pub last_time_read : Time
  pub conference : ℕ
  pub priority : ℕ
  pub read_ranges : List ReadRange
  pub added_by : ℕ
  pub added_at : Time
  pub type : List ℕ

unfoldable pub parse_membership11 : Parser Membership11
parse_membership11 = do
  position ← parse_int
  last_time_read ← parse_time
  conference ← parse_int
  priority ← parse_int
  read_ranges ← parse_array parse_read_range
  added_by ← parse_int
  added_at ← parse_time
  type ← parse_membership_type
  pure (record {
    position = position;
    last_time_read = last_time_read;
    conference = conference;
    priority = priority;
    read_ranges = read_ranges;
    added_by = added_by;
    added_at = added_at;
    type = type;
  })

pub parse_membership11-Stable : IsStable parse_membership11
unfolding parse_membership11
parse_membership11-Stable = Stable-bind parse_int-Stable λ _. Stable-bind parse_time-Stable λ _.
    Stable-bind parse_int-Stable λ _. Stable-bind parse_int-Stable λ _.
      Stable-bind (parse_array-Stable parse_read_range-Stable) λ _.
        Stable-bind parse_int-Stable λ _.
          Stable-bind parse_time-Stable
            λ _. Stable-bind parse_membership_type-Stable λ _. Stable-pure _

pub record Member : Type 0 where
  pub member : ℕ
  pub added_by : ℕ
  pub added_at : Time
  pub type : List ℕ

unfoldable pub parse_member : Parser Member
parse_member = do
  member ← parse_int
  added_by ← parse_int
  added_at ← parse_time
  type ← parse_membership_type
  pure (record { member = member; added_by = added_by; added_at = added_at; type = type })

pub parse_member-Stable : IsStable parse_member
unfolding parse_member
parse_member-Stable = Stable-bind parse_int-Stable λ _. Stable-bind parse_int-Stable λ _.
    Stable-bind parse_time-Stable λ _. Stable-bind parse_membership_type-Stable λ _. Stable-pure _

unfoldable pub read_range_to_string : ReadRange → Bytes
read_range_to_string r = decimal r.first_read ++ b' ' ∷ decimal r.last_read

-- A read range is read back from what it sends, with the byte behind it.
pub parse_read_range-to_string :
    (r : ReadRange) (c : ℕ) (rest : Bytes)
    → contains digits c ≡ false
    → parse_read_range (read_range_to_string r ++ c ∷ rest) ≡ (ok r, rest)
unfolding parse_read_range read_range_to_string int_to_string
parse_read_range-to_string r c rest stop =
    simp (append_assoc, parse_int-decimal, parse_int-to_string r.last_read c rest stop)

read_range-SkipsSpace : SkipsSpace parse_read_range
unfolding parse_read_range parse_int read_int read_int_and_next read_first_non_ws
read_range-SkipsSpace s = refl

-- The bytes of a list of read ranges, each printed by `ReadRange.to_string`, are read back as that
-- list, whatever follows.
pub parse_read_ranges-to_string :
    (l : List ReadRange) (rest : Bytes)
    → parse_array parse_read_range (array_to_string read_range_to_string l ++ rest) ≡ (ok l, rest)
parse_read_ranges-to_string l rest =
    parse_array-to_string parse_read_range read_range_to_string read_range-SkipsSpace l rest
      (All-of _ (λ r rest. inl (parse_read_range-to_string r b' ' rest refl)) l)

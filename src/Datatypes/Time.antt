-- ===== src/Datatypes/Time.antt =====
-- datatypes.py: times, which the server sends as nine numbers.
use pylyskom.Base.{ℕ, ◌≡◌, Bytes, ◌∷◌, ◌++◌, false, contains, append_assoc}
use pylyskom.Result.{ok}
use pylyskom.Exec.{pure, ◌>>=◌}
use pylyskom.Exec.Stable.{Stable-pure, Stable-bind}
use pylyskom.Protocol.{Parser, digits, decimal}
use pylyskom.Protocol.Stable.{IsStable}
use pylyskom.Datatypes.Basic.{parse_int, int_to_string}
use pylyskom.Datatypes.Basic.RoundTrip.{parse_int-decimal, parse_int-to_string}
use pylyskom.Datatypes.Basic.Stable.{parse_int-Stable}

pub record Time : Type 0 where
  pub seconds : ℕ
  pub minutes : ℕ
  pub hours : ℕ
  pub day : ℕ
  pub month : ℕ
  pub year : ℕ
  pub day_of_week : ℕ
  pub day_of_year : ℕ
  pub is_dst : ℕ

unfoldable pub parse_time : Parser Time
parse_time = do
  seconds ← parse_int
  minutes ← parse_int
  hours ← parse_int
  day ← parse_int
  month ← parse_int
  year ← parse_int
  day_of_week ← parse_int
  day_of_year ← parse_int
  is_dst ← parse_int
  pure (record {
    seconds = seconds;
    minutes = minutes;
    hours = hours;
    day = day;
    month = month;
    year = year;
    day_of_week = day_of_week;
    day_of_year = day_of_year;
    is_dst = is_dst;
  })

pub parse_time-Stable : IsStable parse_time
unfolding parse_time
parse_time-Stable = Stable-bind parse_int-Stable λ _. Stable-bind parse_int-Stable λ _.
    Stable-bind parse_int-Stable λ _. Stable-bind parse_int-Stable λ _.
      Stable-bind parse_int-Stable λ _. Stable-bind parse_int-Stable λ _.
        Stable-bind parse_int-Stable
          λ _. Stable-bind parse_int-Stable λ _. Stable-bind parse_int-Stable λ _. Stable-pure _

-- `b"%d %d …"` of the nine numbers.
unfoldable pub time_to_string : Time → Bytes
time_to_string t =
    decimal t.seconds
    ++ b' '
      ∷ (decimal t.minutes
          ++ b' '
            ∷ (decimal t.hours
                ++ b' '
                  ∷ (decimal t.day
                      ++ b' '
                        ∷ (decimal t.month
                            ++ b' '
                              ∷ (decimal t.year
                                  ++ b' '
                                    ∷ (decimal t.day_of_week
                                        ++ b' '
                                          ∷ (decimal t.day_of_year ++ b' ' ∷ decimal t.is_dst)))))))

-- A time is read back from what it sends, and the byte behind it, which is no digit, is taken.
pub parse_time-to_string :
    (t : Time) (c : ℕ) (rest : Bytes)
    → contains digits c ≡ false
    → parse_time (time_to_string t ++ c ∷ rest) ≡ (ok t, rest)
unfolding parse_time time_to_string int_to_string
parse_time-to_string t c rest stop =
    simp (append_assoc, parse_int-decimal, parse_int-to_string t.is_dst c rest stop)

-- ===== src/Stats.antt =====
-- stats.py: the counters, and the lines that are sent to Graphite. Values
-- are natural numbers, a name is its characters; `avg`, which makes floats and which no caller in the
-- library asks for, is left out.
pub mod Counting
use pylyskom.Base.{
  ℕ, ◌+◌, ◌-◌, ◌*◌, ◌/◌, ◌<◌, Bytes, List, [], ◌∷◌, ◌++◌, min, max, Bool, true, false, not, ◌==◌,
  ltb, Option, none, some, if◌then◌else◌,
}
use pylyskom.Protocol.{decimal}
use pylyskom.Connection.{bytes_eq}

abbrev pub Name : Type 0
Name = List ℕ

-- A dict from names to values.
abbrev pub Values : Type 0
Values = List (Name × ℕ)

unfoldable pub get : Values → Name → Option ℕ
get [] name = none
get ((n, v) ∷ d) name = let rest = get d name in if bytes_eq n name then some v else rest

unfoldable pub put : Values → Name → ℕ → Values
put [] name v = (name, v) ∷ []
put ((n, w) ∷ d) name v =
    let rest = put d name v in if bytes_eq n name then (n, v) ∷ d else (n, w) ∷ rest

-- The names of aggregation functions; the callers of the library pass no others.
pub data Agg : Type 0 where
  last sum minimum maximum : Agg

pub record Stats : Type 0 where
  pub stats : Values
  pub prefix : Name

unfoldable pub new_stats : Name → Stats
new_stats prefix = record { stats = []; prefix = prefix }

-- Stats._agg
unfoldable pub agg : Agg → ℕ → ℕ → ℕ
agg last val1 val2 = val2
agg sum val1 val2 = val1 + val2
agg minimum val1 val2 = min val1 val2
agg maximum val1 val2 = max val1 val2

-- The new value behind `if prev_value`, for which 0 is no value.
unfoldable pub aggregated : Agg → Option ℕ → ℕ → ℕ
aggregated f none value = value
aggregated f (some prev_value) value = if prev_value == 0 then value else agg f prev_value value

-- Stats.set; an empty prefix is not put before the name.
unfoldable pub set : Agg → Name → ℕ → Stats → Stats
set f name value s =
    let name' = s.prefix ++ name in
    record s { stats = put s.stats name' (aggregated f (get s.stats name') value) }

-- Stats.dump
unfoldable pub dump : Stats → Values
dump s = s.stats

-- Stats.reset
unfoldable pub reset : Stats → Values × Stats
reset s = (s.stats, record s { stats = [] })

-- merged.update(d)
unfoldable pub update : Values → Values → Values
update merged [] = merged
update merged ((n, v) ∷ d) = update (put merged n v) d

-- merge_dicts, from the dict so far
unfoldable pub merge_from : Values → List Values → Values
merge_from merged [] = merged
merge_from merged (d ∷ dicts) = merge_from (update merged d) dicts

unfoldable pub merge_dicts : List Values → Values
merge_dicts = merge_from []

-- serialize_graphite_plaintext, on names of ASCII characters and the metrics of `StatsSender._step`
unfoldable pub serialize_graphite_plaintext : List (Name × ℕ × ℕ) → Bytes
serialize_graphite_plaintext [] = []
serialize_graphite_plaintext ((name, value, time) ∷ metrics) =
    name
    ++ b' ' ∷ (decimal value ++ b' ' ∷ (decimal time ++ 10 ∷ serialize_graphite_plaintext metrics))

-- The metrics of `StatsSender._step`.
unfoldable pub metrics_at : ℕ → Values → List (Name × ℕ × ℕ)
metrics_at now [] = []
metrics_at now ((n, v) ∷ d) = (n, v, now) ∷ metrics_at now d

-- StatsSender._step, up to the connection's `send`
unfoldable pub step : List Stats → ℕ → List (Name × ℕ × ℕ)
step statslist now = metrics_at now (merge_dicts (dumps statslist))
  where
    dumps : List Stats → List Values
    dumps [] = []
    dumps (s ∷ l) = dump s ∷ dumps l

-- ===== src/Tests/Counters.antt =====
-- The theorems on counters and characters at concrete inputs.
use pylyskom.Base.{
  ℕ, ◌+◌, ◌≡◌, Bytes, List, [], ◌∷◌, ◌++◌, length, contains, ◌&&◌, ◌==◌, ltb, if◌then◌else◌,
}
use pylyskom.Stats.{Name, get, new_stats}
use pylyskom.Stats.Counting.{value, count_all, total, count_all-total}
use pylyskom.Utils.Regexp.{entry, equivalent_chars}
use pylyskom.Utils.Regexp.Collation.{contains-equivalent_chars}

abbrev counted : List (Name × ℕ)
counted = (b'a' ∷ [], 1) ∷ (b'b' ∷ [], 4) ∷ (b'a' ∷ [], 2) ∷ []

count_all_example :
    value (
      get
        (count_all counted (new_stats (b'p' ∷ []))).stats
        ((new_stats (b'p' ∷ [])).prefix ++ b'a' ∷ []))
    ≡ value (get (new_stats (b'p' ∷ [])).stats ((new_stats (b'p' ∷ [])).prefix ++ b'a' ∷ []))
      + total (b'a' ∷ []) counted
count_all_example = count_all-total counted (b'a' ∷ []) (new_stats (b'p' ∷ []))

-- Places 1 and 3 have the same entry.
abbrev collated : Bytes
collated = 0 ∷ 7 ∷ 2 ∷ 7 ∷ []

equivalent_chars_example : contains (equivalent_chars 1 collated) 3 ≡ (
    if ltb 1 (length collated)
    then ltb 3 (length collated) && (entry collated 3 == entry collated 1)
    else 1 == 3)
equivalent_chars_example = contains-equivalent_chars 1 3 collated

-- ===== src/Tests/AsyncCaches.antt =====
-- The theorem on `AioCache` at a concrete input.
use pylyskom.Base.{ℕ, refl, [], ◌++◌}
use pylyskom.AioCache.{
  AioCaching, begin_get, end_get, begins, ends, answers, changes, new_caching, beginning, answering,
  changing, ending, here, later,
}
use pylyskom.Cache.{new_cache, set}
use pylyskom.Dict
use pylyskom.AioCache.Fresh.{IsCurrent, Reach-IsCurrent}

abbrev five : ℕ → ℕ
five n = 5

-- The value of 1 was fetched, and has changed since.
abbrev outdated : AioCaching ℕ
outdated = changes 1 6 (ends 1 5 ([] ++ []) (answers 1 (begins 1 (new_caching five))))

outdated_example : IsCurrent outdated 1 5
unfolding new_caching new_cache begin_get end_get begins answers ends changes Dict.get Dict.put set
outdated_example =
    Reach-IsCurrent five outdated 1 5
      (later (later (later (later here (beginning 1)) (answering 1)) (ending 1 5 [] [] refl))
        (changing 1 6))
      refl

-- ===== src/Cache/Lookup.antt =====
-- cachedconnection.py: looking a value up in a `Cache`, again and after an invalidation.
use pylyskom.Base.{ℕ, ◌≡◌, refl, ap, ◌∙◌, ==_refl, Option, none, some, if◌then◌else◌}
use pylyskom.Result.{Result, ok, raise}
use pylyskom.Dict
use pylyskom.Cache.Invalidation.{get-invalidate}
use pylyskom.Cache.{Cache, set, getitem, invalidate}

module _ {V : Type 0} where
  -- A lookup that returned a value: the cache holds it from then on.
  getitem-holds :
      (fetcher : ℕ → Result V) (k : ℕ) (c : Cache V) (v : V) (o : Option V) (r : Result V)
      → Dict.get c.dict k ≡ o
      → fetcher k ≡ r
      → (getitem fetcher k c).0 ≡ ok v
      → Dict.get (getitem fetcher k c).1.dict k ≡ some v
  unfolding getitem set
  getitem-holds fetcher k c v (some w) r e f h =
      let got : ok w ≡ ok v = (rw (e, getitem) at h) in
      let same : w ≡ v = cc in rw (e, getitem) (e ∙ ap some same)
  getitem-holds fetcher k c v none (raise x) e f h =
      let got : raise x ≡ ok v = (rw (e, getitem, f) at h) in absurd cc
  getitem-holds fetcher k c v none (ok w) e f h =
      let got : ok w ≡ ok v = (rw (e, getitem, f) at h) in
      let same : w ≡ v = cc in
      rw (e, getitem, f)
        (Dict.get-put c.dict k k w
          ∙ ap (λ b. if b then some w else Dict.get c.dict k) (==_refl k)
          ∙ ap some same)

  getitem-held :
      (fetcher : ℕ → Result V) (k : ℕ) (c : Cache V) (v : V)
      → Dict.get c.dict k ≡ some v
      → (getitem fetcher k c).0 ≡ ok v
  unfolding getitem
  getitem-held fetcher k c v e = rw (e, getitem) refl

  getitem-missed :
      (fetcher : ℕ → Result V) (k : ℕ) (c : Cache V) (r : Result V)
      → Dict.get c.dict k ≡ none
      → fetcher k ≡ r
      → (getitem fetcher k c).0 ≡ fetcher k
  unfolding getitem set
  getitem-missed fetcher k c (ok v) e f = rw (e, getitem, f) refl
  getitem-missed fetcher k c (raise x) e f = rw (e, getitem, f) refl

  -- Where a lookup returned a value, the next one returns the same value whatever the server would
  -- answer now; after the key was invalidated, it returns or raises what the server answers.
  pub getitem-getitem :
      (fetcher now : ℕ → Result V) (k : ℕ) (c : Cache V) (v : V)
      → (getitem fetcher k c).0 ≡ ok v
      → ((getitem now k (getitem fetcher k c).1).0 ≡ ok v)
        × ((getitem now k (invalidate k (getitem fetcher k c).1)).0 ≡ now k)
  getitem-getitem fetcher now k c v h =
      let held = getitem-holds fetcher k c v (Dict.get c.dict k) (fetcher k) refl refl h in
      (
        getitem-held now k (getitem fetcher k c).1 v held,
        getitem-missed now k (invalidate k (getitem fetcher k c).1) (now k)
            (forgotten (getitem fetcher k c).1) refl,
      )
    where
      forgotten : (d : Cache V) → Dict.get (invalidate k d).dict k ≡ none
      forgotten d =
          get-invalidate k k d ∙ ap (λ b. if b then none else Dict.get d.dict k) (==_refl k)

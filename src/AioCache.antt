-- ===== src/AioCache.antt =====
-- aio.py: `AioCache`, whose `get` awaits its fetcher, between the tasks that call it, the task that
-- handles messages, and the server. A function below is what one of them does between two awaits.
pub mod Fresh
use pylyskom.Base.{
  Bool, true, false, ◌||◌, ℕ, ◌+◌, ◌≡◌, List, [], ◌∷◌, ◌++◌, Option, none, some, ◌==◌,
  if◌then◌else◌,
}
use pylyskom.Dict
use pylyskom.Dict.{Dict}
use pylyskom.Cache.{Cache, new_cache, set, invalidate}

-- `now` is what the server would answer, `fetched` the answers for which the caller of `get` was not
-- woken yet, by key, and `messages` the keys that the messages not handled yet invalidate. The rest is
-- history, since the last message about a key that was handled while no answer for it waited:
-- `unannounced` the keys of values that changed without a message, and `overtaken` those with a message
-- that was handled while an answer for the key waited.
pub record AioCaching (V : Type 0) : Type 0 where
  pub cache : Cache V
  pub now : ℕ → V
  pub fetched : List (ℕ × V)
  pub messages : List ℕ
  pub unannounced : List ℕ
  pub overtaken : List ℕ

-- An answer for `n` waits for its caller.
abbrev pub waits : {V : Type 0} → ℕ → List (ℕ × V) → Bool
waits n [] = false
waits n ((k, v) ∷ l) = k == n || waits n l

abbrev pub without : ℕ → List ℕ → List ℕ
without n [] = []
without n (k ∷ l) = let rest = without n l in if n == k then rest else k ∷ rest

module _ {V : Type 0} where
  -- AioCache.get up to the await of the fetcher: a hit, or none.
  unfoldable pub begin_get : ℕ → Cache V → Option V × Cache V
  begin_get n c = elim (Dict.get c.dict n) [
    | some v ↦ (some v, record c { cached = c.cached + 1 })
    | none ↦ (none, record c { uncached = c.uncached + 1 })
  ]

  -- AioCache.get behind the await, with what was fetched
  unfoldable pub end_get : ℕ → V → Cache V → Cache V
  end_get n v c = set n v c

  unfoldable pub begins : ℕ → AioCaching V → AioCaching V
  begins n s = record s { cache = (begin_get n s.cache).1 }

  unfoldable pub ends : ℕ → V → List (ℕ × V) → AioCaching V → AioCaching V
  ends n v rest s = record s { cache = end_get n v s.cache; fetched = rest }

  -- The server answers a question for `n`.
  unfoldable pub answers : ℕ → AioCaching V → AioCaching V
  answers n s = record s { fetched = s.fetched ++ (n, s.now n) ∷ [] }

  -- The value of `n` changes, and the server says so.
  unfoldable pub changes : ℕ → V → AioCaching V → AioCaching V
  changes n v s = record s {
    now = λ k. if n == k then v else s.now k;
    messages = s.messages ++ n ∷ [];
  }

  -- The value of `n` changes, and no message is sent.
  unfoldable pub changes_silently : ℕ → V → AioCaching V → AioCaching V
  changes_silently n v s = record s {
    now = λ k. if n == k then v else s.now k;
    unannounced = n ∷ s.unannounced;
  }

  -- The history once a message about `n` is handled.
  unfoldable pub noted : ℕ → AioCaching V → AioCaching V
  noted n s = elim (waits n s.fetched) [
    | true ↦ record s { overtaken = n ∷ s.overtaken }
    | false ↦ record s { unannounced = without n s.unannounced; overtaken = without n s.overtaken }
  ]

  -- A handler calls AioCache.invalidate.
  unfoldable pub handles : ℕ → List ℕ → AioCaching V → AioCaching V
  handles n rest s = noted n (record s { cache = invalidate n s.cache; messages = rest })

-- Nothing cached, asked or changed yet.
unfoldable pub new_caching : {V : Type 0} → (ℕ → V) → AioCaching V
new_caching now = record {
  cache = new_cache;
  now = now;
  fetched = [];
  messages = [];
  unannounced = [];
  overtaken = [];
}

-- The steps, in whatever order the event loop, the server and the network take them.
pub data Step {V : Type 0} (s : AioCaching V) : AioCaching V → Type 0 where
  beginning : (n : ℕ) → Step s (begins n s)
  answering : (n : ℕ) → Step s (answers n s)
  changing : (n : ℕ) (v : V) → Step s (changes n v s)
  changing_silently : (n : ℕ) (v : V) → Step s (changes_silently n v s)
  ending :
      (n : ℕ) (v : V) (before rest : List (ℕ × V))
      → s.fetched ≡ before ++ (n, v) ∷ rest
      → Step s (ends n v (before ++ rest) s)
  handling : (n : ℕ) (rest : List ℕ) → s.messages ≡ n ∷ rest → Step s (handles n rest s)

pub data Reach {V : Type 0} (s : AioCaching V) : AioCaching V → Type 0 where
  here : Reach s s
  later : {t u : AioCaching V} → Reach s t → Step t u → Reach s u

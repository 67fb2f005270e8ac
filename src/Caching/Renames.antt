-- ===== src/Caching/Renames.antt =====
-- cachedconnection.py: the names of conferences that a `CachingPersonClient` returns.
use pylyskom.Base.{
  ℕ, ◌≡◌, refl, ◌∙◌, Bytes, List, [], ◌∷◌, Bool, true, false, ◌||◌, ◌==◌, All, contains,
}
use pylyskom.Result.{Result, ok, raise}
use pylyskom.AsyncMessages.{AsyncMessage, async_new_name}
use pylyskom.Datatypes.Conference.{UConference}
use pylyskom.Requests.Request.{Request, number, new_request}
use pylyskom.Requests.Responses.{u_conference}
use pylyskom.Requests.Calls.To88.{req_get_uconf_stat}
use pylyskom.Cache.Invalidation.{HasNumbers, forgotten_uconferences}
use pylyskom.Caching.{ClientApi, CachingPersonClient, open_caching_client, get_uconference}
use pylyskom.Caching.Truth.{Announces, Fresh, announced}
use pylyskom.Caching.Always.{Call, calls, calls-Fresh}

-- A message says that the conference has a new name.
abbrev pub renamed : List AsyncMessage → ℕ → Bool
renamed [] n = false
renamed (async_new_name conf_no old new ∷ msgs) n = conf_no == n || renamed msgs n
renamed (msg ∷ msgs) n = renamed msgs n

-- `name c n` is the name that the conference had when the server sent what the client `c` has read
-- last. What is relied on: messages come with numbers; in what is read from there to the reply to the
-- next request, a message async-new-name stands wherever the name has changed; and the reply to
-- GetUconfStat holds the name of that moment.
pub record AnnouncesNames {S : Type 0} (api : ClientApi S) (name : S → ℕ → Bytes) : Type 0 where
  pub numbers : (r : Request) (c : S) → All HasNumbers (api.request r c).2
  pub announces :
      (r : Request) (c : S) (n : ℕ)
      → renamed (api.request r c).2 n ≡ false
      → name (api.request r c).1 n ≡ name c n
  pub answers :
      (n : ℕ) (r : Request) (c : S) (u : UConference)
      → new_request req_get_uconf_stat (number n ∷ []) [] ≡ ok r
      → (api.request r c).0 ≡ ok (u_conference u)
      → name (api.request r c).1 n ≡ u.name

either_false :
    (a b c : Bool) → ((a || false) || b) ≡ false → (b ≡ false → c ≡ false) → (a || c) ≡ false
either_false true b c h k = let x : true ≡ false = h in absurd cc
either_false false b c h k = k h

right_false : (a b : Bool) → (a || b) ≡ false → b ≡ false
right_false true b h = let x : true ≡ false = h in absurd cc
right_false false b h = h

renamed-announced :
    (msgs : List AsyncMessage) (n : ℕ) → announced msgs n ≡ false → renamed msgs n ≡ false
renamed-announced [] n h = refl
renamed-announced (async_new_name conf_no old new ∷ msgs) n h =
    either_false (conf_no == n) (announced msgs n) (renamed msgs n) h (renamed-announced msgs n)
renamed-announced (msg ∷ msgs) n h =
    renamed-announced msgs n
      (right_false (contains (forgotten_uconferences msg) n) (announced msgs n) h)

-- What a lookup returns has the name of that moment.
abbrev pub IsNamed :
    {S : Type 0} → (S → ℕ → Bytes) → ℕ → Result UConference × CachingPersonClient S → Type 0
IsNamed name n (ok u, t) = name t.client n ≡ u.name
IsNamed name n (raise e, t) = Unit

module _ {S : Type 0} (api : ClientApi S) (name : S → ℕ → Bytes)
    (server : AnnouncesNames api name) where
  abbrev OfName : S → ℕ → UConference → Type 0
  OfName c n u = name c n ≡ u.name

  names-Announces : Announces api OfName
  names-Announces = record {
    numbers = server.numbers;
    announces = λ r c n silent u e.
        server.announces r c n (renamed-announced (api.request r c).2 n silent) ∙ e;
    answers = server.answers;
  }

  Fresh-IsNamed :
      (n : ℕ) (w : Result UConference × CachingPersonClient S)
      → Fresh api OfName names-Announces n w
      → IsNamed name n w
  Fresh-IsNamed n (ok u, t) h = h.1
  Fresh-IsNamed n (raise e, t) h = tt

  -- Let the server announce new names by async-new-name, and answer with the name of the moment. After
  -- a `CachingPersonClient` was made, and then any of its methods was called, in any order, whatever
  -- came of it, and however conferences were renamed meanwhile: where get_uconference returns a value,
  -- from the cache or not, that has the name which the conference had when the server sent what was
  -- read last.
  pub calls-IsNamed :
      (c : S) (l : List Call) (n : ℕ)
      → IsNamed name n (get_uconference api n (calls api l (open_caching_client api c).1))
  calls-IsNamed c l n =
      Fresh-IsNamed n (get_uconference api n (calls api l (open_caching_client api c).1))
        (calls-Fresh api OfName names-Announces c l n)

-- ===== src/Caching/Truth.antt =====
-- cachedconnection.py: what the cache of uconferences holds, beside what the server would answer.
use mathlib.Core.Path.{subst}
use pylyskom.Base.{
  ℕ, ◌≡◌, refl, sym, ◌∙◌, inl, inr, List, [], ◌∷◌, Bool, true, false, ◌||◌, Bool-cases,
  Option-cases, Option, none, some, ◌==◌, if◌then◌else◌, contains, All, arith,
}
use pylyskom.Result.{Result, ok, raise}
use pylyskom.Exec.{Exec, lift, continue, ◌>>=◌}
use pylyskom.Dict
use pylyskom.AsyncMessages.{AsyncMessage}
use pylyskom.Datatypes.Conference.{UConference}
use pylyskom.Requests.Request.{Request, RequestClass, Value, number, Kwargs, new_request}
use pylyskom.Requests.Responses.{Reply, u_conference}
use pylyskom.Requests.Calls.To88.{req_get_uconf_stat}
use pylyskom.Cache.{set}
use pylyskom.Cache.Invalidation.{HasNumbers, forgotten_uconferences, handle_async_message-Forgets}
use pylyskom.Caching.{
  ClientApi, CachingPersonClient, handle_message, handle_messages, answered, send, request, ask,
  as_u_conference, cached, store, uconferences, fetch_uconference, get_uconference,
}

-- Some message says that the uconference may have changed.
abbrev pub announced : List AsyncMessage → ℕ → Bool
announced [] n = false
announced (msg ∷ msgs) n = contains (forgotten_uconferences msg) n || announced msgs n

-- The uconferences that the caches hold.
abbrev pub held : {S : Type 0} → CachingPersonClient S → ℕ → Option UConference
held s n = Dict.get s.caches.uconferences.dict n

-- What was held under `k` and no message was about, and nothing else.
abbrev Kept :
    {S : Type 0} → List AsyncMessage → CachingPersonClient S → CachingPersonClient S → Type 0
Kept msgs s t =
    (t.client ≡ s.client)
    × ((k : ℕ) (u : UConference)
        → held t k ≡ some u
        → (held s k ≡ some u) × (announced msgs k ≡ false))

Forgets-held :
    (l : List ℕ) (k : ℕ) (before after : Option UConference) (u : UConference)
    → after ≡ (if contains l k then none else before)
    → after ≡ some u
    → (before ≡ some u) × (contains l k ≡ false)
Forgets-held l k before after u e h = elim (Bool-cases (contains l k)) [
  | inl there ↦ let x : none ≡ some u = sym (e ∙ rw there refl) ∙ h in absurd cc
  | inr absent ↦ (sym (e ∙ rw absent refl) ∙ h, absent)
]

handle_message-Kept :
    {S : Type 0} (msg : AsyncMessage) (s : CachingPersonClient S)
    → HasNumbers msg
    → ((handle_message msg s).0 ≡ ok tt) × Kept (msg ∷ []) s (handle_message msg s).1
unfolding handle_message
handle_message-Kept msg s h =
    let (registered, fine, conferences, forgets, texts, persons) =
      handle_async_message-Forgets msg s.caches h in
    rw (fine, handle_message)
      (
        refl,
        (
          refl,
          λ k u e.
              let (before, silent) =
                Forgets-held (forgotten_uconferences msg) k (held s k) _ u (forgets k) e in
              (before, rw silent refl),
        ),
      )

handle_messages-Kept :
    {S : Type 0} (msgs : List AsyncMessage) (s : CachingPersonClient S)
    → All HasNumbers msgs
    → ((handle_messages msgs s).0 ≡ ok tt) × Kept msgs s (handle_messages msgs s).1
unfolding handle_messages
handle_messages-Kept [] s h = (refl, (refl, λ k u e. (e, refl)))
handle_messages-Kept (msg ∷ msgs) s (h, hs) =
    let (fine, (client, kept)) = handle_message-Kept msg s h in
    let (fine', (client', kept')) = handle_messages-Kept msgs (handle_message msg s).1 hs in
    rw (fine, handle_messages)
      (
        fine',
        (
          client' ∙ client,
          λ k u e.
              let (between, silent') = kept' k u e in
              let (before, silent) = kept k u between in (before, both _ _ silent silent'),
        ),
      )
  where
    both : (a b : Bool) → (a || false) ≡ false → b ≡ false → (a || b) ≡ false
    both true b h k = absurd cc
    both false b h k = k

-- `now c n u`: the status `u` is true of the conference `n`, as the client `c` could know. What is
-- relied on: messages come with numbers, what is true stays so unless a message is about the
-- conference, and what GetUconfStat answers is true.
pub record Announces {S : Type 0} (api : ClientApi S) (now : S → ℕ → UConference → Type 0)
    : Type 0 where
  pub numbers : (r : Request) (c : S) → All HasNumbers (api.request r c).2
  pub announces :
      (r : Request) (c : S) (n : ℕ)
      → announced (api.request r c).2 n ≡ false
      → (u : UConference) → now c n u
      → now (api.request r c).1 n u
  pub answers :
      (n : ℕ) (r : Request) (c : S) (u : UConference)
      → new_request req_get_uconf_stat (number n ∷ []) [] ≡ ok r
      → (api.request r c).0 ≡ ok (u_conference u)
      → now (api.request r c).1 n u

-- What is held is true.
abbrev pub IsTrue : {S : Type 0} → (S → ℕ → UConference → Type 0) → CachingPersonClient S → Type 0
IsTrue now s = (n : ℕ) (u : UConference) → held s n ≡ some u → now s.client n u

-- A method that leaves it so.
pub record KeepsTrue {S : Type 0} (now : S → ℕ → UConference → Type 0) {A : Type 0}
    (m : Exec (CachingPersonClient S) A) : Type 0 where
  pub at : (s : CachingPersonClient S) → IsTrue now s → IsTrue now (m s).1

module _ {S : Type 0} {now : S → ℕ → UConference → Type 0} {A B : Type 0} where
  continue-IsTrue :
      (r : Result A) (f : A → Exec (CachingPersonClient S) B) (s : CachingPersonClient S)
      → ((a : A) → KeepsTrue now (f a))
      → IsTrue now s
      → IsTrue now (continue r f s).1
  continue-IsTrue (ok a) f s h t = (h a).at s t
  continue-IsTrue (raise e) f s h t = t

  pub KeepsTrue-bind :
      {m : Exec (CachingPersonClient S) A} {f : A → Exec (CachingPersonClient S) B}
      → KeepsTrue now m
      → ((a : A) → KeepsTrue now (f a))
      → KeepsTrue now (m >>= f)
  KeepsTrue-bind {m} {f} h k = record { at = λ s t. continue-IsTrue (m s).0 f (m s).1 k (h.at s t) }

module _ {S : Type 0} {now : S → ℕ → UConference → Type 0} {A : Type 0} where
  pub KeepsTrue-lift : (r : Result A) → KeepsTrue now (lift r)
  KeepsTrue-lift r = record { at = λ s t. t }

module _ {S : Type 0} (api : ClientApi S) (now : S → ℕ → UConference → Type 0)
    (server : Announces api now) where
  -- The client after a request, once the messages were handled.
  send-held :
      (r : Request) (s : CachingPersonClient S)
      → let t = (send api r s).1 in
        ((send api r s).0 ≡ (api.request r s.client).0)
        × (t.client ≡ (api.request r s.client).1)
        × ((k : ℕ) (u : UConference)
            → held t k ≡ some u
            → (held s k ≡ some u) × (announced (api.request r s.client).2 k ≡ false))
  unfolding send answered
  send-held r s =
      let w = api.request r s.client in
      let (fine, (client, kept)) =
        handle_messages-Kept w.2 (record s { client = w.1 }) (server.numbers r s.client) in
      rw (fine, answered, send) (refl, client, kept)

  send-KeepsTrue : (r : Request) → KeepsTrue now (send api r)
  send-KeepsTrue r = record {
    at = λ s true_before n u e.
        let (same, client, kept) = send-held r s in
        let (before, silent) = kept n u e in
        subst (λ c. now c n u) (sym client)
          (server.announces r s.client n silent u (true_before n u before));
  }

  pub request-KeepsTrue :
      (cls : RequestClass) (args : List Value) (kwargs : Kwargs)
      → KeepsTrue now (request api cls args kwargs)
  unfolding request
  request-KeepsTrue cls args kwargs =
      KeepsTrue-bind (KeepsTrue-lift (new_request cls args kwargs)) send-KeepsTrue

  pub ask-KeepsTrue :
      {A : Type 0} (read : Reply → Result A) (cls : RequestClass) (args : List Value)
      → KeepsTrue now (ask api read cls args)
  unfolding ask
  ask-KeepsTrue read cls args =
      KeepsTrue-bind (request-KeepsTrue cls args []) λ r. KeepsTrue-lift (read r)

  -- What the fetcher gives is what the server would answer behind the request.
  abbrev pub Fresh : ℕ → Result UConference × CachingPersonClient S → Type 0
  Fresh n (raise e, t) = IsTrue now t
  Fresh n (ok u, t) = IsTrue now t × now t.client n u

  read-Fresh :
      (n : ℕ) (w : Result Reply × CachingPersonClient S)
      → IsTrue now w.1
      → ((u : UConference) → w.0 ≡ ok (u_conference u) → now w.1.client n u)
      → Fresh n (continue w.0 (λ r. lift (as_u_conference r)) w.1)
  unfolding as_u_conference
  read-Fresh n (raise e, t) h k = h
  read-Fresh n (ok (u_conference u), t) h k = (h, k u refl)
  read-Fresh n (ok r, t) h k = h

  fetch-Fresh :
      (n : ℕ) (made : Result Request) (s : CachingPersonClient S)
      → new_request req_get_uconf_stat (number n ∷ []) [] ≡ made
      → IsTrue now s
      → Fresh n ((lift made >>= send api >>= λ r. lift (as_u_conference r)) s)
  fetch-Fresh n (raise e) s is h = h
  fetch-Fresh n (ok r) s is h =
      let (same, client, kept) = send-held r s in
      read-Fresh n (send api r s) ((send-KeepsTrue r).at s h)
        λ u e. subst (λ c. now c n u) (sym client) (server.answers n r s.client u is (sym same ∙ e))

  fetch_uconference-Fresh :
      (n : ℕ) (s : CachingPersonClient S) → IsTrue now s → Fresh n (fetch_uconference api n s)
  unfolding fetch_uconference ask request
  fetch_uconference-Fresh n s h =
      fetch-Fresh n (new_request req_get_uconf_stat (number n ∷ []) []) s refl h

  store-Fresh :
      (n : ℕ) (w : Result UConference × CachingPersonClient S)
      → Fresh n w
      → Fresh n (store uconferences n w)
  unfolding store set
  store-Fresh n (raise e, t) h = h
  store-Fresh n (ok u, t) (h, e) = (
    λ k v x. elim (Bool-cases (n == k)) [
      | inl same ↦
          let is : n ≡ k = ground arith in
          let y : some u ≡ some v =
            sym (Dict.get-put t.caches.uconferences.dict n k u ∙ rw same refl) ∙ x in
          let z : u ≡ v = cc in subst (λ m. now t.client m v) is (subst (now t.client n) z e)
      | inr other ↦ h k v (sym (Dict.get-put t.caches.uconferences.dict n k u ∙ rw other refl) ∙ x)
    ],
    e,
  )

  -- Let the client answer as `Announces` says, and the cache hold what the server would answer. Then
  -- it does so after a lookup of a uconference, and what the lookup returns, from the cache or from
  -- the server, is what the server would answer at that moment.
  pub get_uconference-Fresh :
      (n : ℕ) (s : CachingPersonClient S) → IsTrue now s → Fresh n (get_uconference api n s)
  unfolding get_uconference cached
  get_uconference-Fresh n s h = elim (Option-cases (held s n)) [
    | inl missed ↦
        rw (missed, cached, get_uconference) (store-Fresh n _ (fetch_uconference-Fresh n _ h))
    | inr (u, there) ↦ rw (there, cached, get_uconference) (h, h n u there)
  ]

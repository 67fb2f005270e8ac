-- ===== src/AioCache/Fresh.antt =====
-- aio.py: what an `AioCache` holds, where messages wait for the callers of `get`.
use mathlib.Core.Path.{subst}
use pylyskom.Base.{
  ℕ, ◌≡◌, refl, sym, ap, ◌∙◌, ◌≢◌, ◌⊎◌, inl, inr, List, [], ◌∷◌, ◌++◌, Bool, true, false, ◌||◌,
  Bool-cases, Option-cases, none, some, ◌==◌, contains, contains-left, contains-right, All,
  All-append, arith,
}
use pylyskom.Dict
use pylyskom.Dict.{Dict}
use pylyskom.Cache.{Cache, new_cache, set, invalidate}
use pylyskom.Cache.Invalidation.{get-invalidate}
use pylyskom.AioCache.{
  AioCaching, begin_get, end_get, begins, ends, answers, changes, changes_silently, noted, handles,
  new_caching, waits, without, Step, beginning, answering, changing, changing_silently, ending,
  handling, Reach, here, later,
}

-- A value is what the server would answer, or a message that invalidates its key is on the way, or
-- there was none, or it was handled too early.
abbrev pub IsCurrent : {V : Type 0} → AioCaching V → ℕ → V → Type 0
IsCurrent s n v =
    (s.now n ≡ v)
    ⊎ (contains s.messages n ≡ true)
    ⊎ (contains s.unannounced n ≡ true)
    ⊎ (contains s.overtaken n ≡ true)

pub record AllCurrent {V : Type 0} (s : AioCaching V) : Type 0 where
  pub held : (n : ℕ) (v : V) → Dict.get s.cache.dict n ≡ some v → IsCurrent s n v
  pub waiting : All (λ w. IsCurrent s w.0 w.1) s.fetched

dict-begin_get : {V : Type 0} (n : ℕ) (c : Cache V) → (begin_get n c).1.dict ≡ c.dict
unfolding begin_get
dict-begin_get n c = elim (Option-cases (Dict.get c.dict n)) [
  | inl e ↦ rw (e, begin_get) refl
  | inr (v, e) ↦ rw (e, begin_get) refl
]

begins-AllCurrent : {V : Type 0} (n : ℕ) (s : AioCaching V) → AllCurrent s → AllCurrent (begins n s)
unfolding begins
begins-AllCurrent n s h = record {
  held = λ k v e. h.held k v (sym (ap (λ d. Dict.get d k) (dict-begin_get n s.cache)) ∙ e);
  waiting = h.waiting;
}

answers-AllCurrent :
    {V : Type 0} (n : ℕ) (s : AioCaching V) → AllCurrent s → AllCurrent (answers n s)
unfolding answers
answers-AllCurrent n s h = record {
  held = h.held;
  waiting = All-append _ s.fetched ((n, s.now n) ∷ []) h.waiting (inl refl, tt);
}

All-split :
    {A : Type 0} (P : A → Type 0) (before : List A) (x : A) (rest : List A)
    → All P (before ++ x ∷ rest)
    → P x × All P (before ++ rest)
All-split P [] x rest h = h
All-split P (b ∷ before) x rest (first, h) =
    let (there, others) = All-split P before x rest h in (there, (first, others))

ends-AllCurrent :
    {V : Type 0} (n : ℕ) (v : V) (before rest : List (ℕ × V)) (s : AioCaching V)
    → s.fetched ≡ before ++ (n, v) ∷ rest
    → AllCurrent s
    → AllCurrent (ends n v (before ++ rest) s)
unfolding ends end_get set
ends-AllCurrent n v before rest s e h =
    let (current, others) =
      All-split (λ w. IsCurrent s w.0 w.1) before (n, v) rest
        (subst (All (λ w. IsCurrent s w.0 w.1)) e h.waiting) in
    record {
      held = λ k u x. elim (Bool-cases (n == k)) [
        | inl same ↦
            let is : n ≡ k = ground arith in
            let y : some v ≡ some u = sym (Dict.get-put s.cache.dict n k v ∙ rw same refl) ∙ x in
            let z : v ≡ u = cc in subst (λ j. IsCurrent s j u) is (subst (IsCurrent s n) z current)
        | inr other ↦ h.held k u (sym (Dict.get-put s.cache.dict n k v ∙ rw other refl) ∙ x)
      ];
      waiting = others;
    }

changes-IsCurrent :
    {V : Type 0} (n : ℕ) (v : V) (s : AioCaching V) (k : ℕ) (u : V)
    → IsCurrent s k u
    → IsCurrent (changes n v s) k u
unfolding changes
changes-IsCurrent n v s k u h = elim (Bool-cases (n == k)) [
  | inl same ↦ inr (inl (contains-right s.messages (n ∷ []) k (rw same refl)))
  | inr other ↦ elim h [
    | inl current ↦ inl (rw other current)
    | inr (inl told) ↦ inr (inl (contains-left s.messages (n ∷ []) k told))
    | inr (inr known) ↦ inr (inr known)
  ]
]

changes_silently-IsCurrent :
    {V : Type 0} (n : ℕ) (v : V) (s : AioCaching V) (k : ℕ) (u : V)
    → IsCurrent s k u
    → IsCurrent (changes_silently n v s) k u
unfolding changes_silently
changes_silently-IsCurrent n v s k u h = elim (Bool-cases (n == k)) [
  | inl same ↦ inr (inr (inl (rw same refl)))
  | inr other ↦ elim h [
    | inl current ↦ inl (rw other current)
    | inr (inl told) ↦ inr (inl told)
    | inr (inr (inl silent)) ↦ inr (inr (inl (contains-right (n ∷ []) s.unannounced k silent)))
    | inr (inr (inr early)) ↦ inr (inr (inr early))
  ]
]

All-map {ℓ κ} :
    {A : Type ℓ} (P Q : A → Type κ) → ((x : A) → P x → Q x) → (xs : List A) → All P xs → All Q xs
All-map P Q f [] h = tt
All-map P Q f (x ∷ xs) h = (f x h.0, All-map P Q f xs h.1)

changes-AllCurrent :
    {V : Type 0} (n : ℕ) (v : V) (s : AioCaching V) → AllCurrent s → AllCurrent (changes n v s)
unfolding changes
changes-AllCurrent n v s h = record {
  held = λ k u e. changes-IsCurrent n v s k u (h.held k u e);
  waiting = All-map _ _ (λ w. changes-IsCurrent n v s w.0 w.1) s.fetched h.waiting;
}

changes_silently-AllCurrent :
    {V : Type 0} (n : ℕ) (v : V) (s : AioCaching V)
    → AllCurrent s
    → AllCurrent (changes_silently n v s)
unfolding changes_silently
changes_silently-AllCurrent n v s h = record {
  held = λ k u e. changes_silently-IsCurrent n v s k u (h.held k u e);
  waiting = All-map _ _ (λ w. changes_silently-IsCurrent n v s w.0 w.1) s.fetched h.waiting;
}

contains-without :
    (n k : ℕ) (l : List ℕ)
    → (n == k) ≡ false
    → contains l k ≡ true
    → contains (without n l) k ≡ true
contains-without n k [] other h = absurd cc
contains-without n k (x ∷ l) other h = elim (Bool-cases (n == x)) [
  | inl same ↦
      let apart : (x == k) ≡ false = ground arith in
      rw same (contains-without n k l other ((rw apart at h)))
  | inr kept ↦ elim (Bool-cases (x == k)) [
    | inl found ↦ rw (kept, found) refl
    | inr apart ↦ rw (kept, apart) (contains-without n k l other ((rw apart at h)))
  ]
]

-- What is current stays so when the message of another key is handled.
handles-IsCurrent :
    {V : Type 0} (n : ℕ) (rest : List ℕ) (s : AioCaching V) (k : ℕ) (u : V)
    → s.messages ≡ n ∷ rest
    → (n == k) ≡ false
    → IsCurrent s k u
    → IsCurrent (handles n rest s) k u
unfolding handles noted
handles-IsCurrent n rest s k u e other h = elim (Bool-cases (waits n s.fetched)) [
  | inl busy ↦ elim h [
    | inl current ↦ rw (busy, noted) (inl current)
    | inr (inl told) ↦ rw (busy, noted) (inr (inl (behind told)))
    | inr (inr (inl silent)) ↦ rw (busy, noted) (inr (inr (inl silent)))
    | inr (inr (inr early)) ↦
        rw (busy, noted) (inr (inr (inr (contains-right (n ∷ []) s.overtaken k early))))
  ]
  | inr settled ↦ elim h [
    | inl current ↦ rw (settled, noted) (inl current)
    | inr (inl told) ↦ rw (settled, noted) (inr (inl (behind told)))
    | inr (inr (inl silent)) ↦
        rw (settled, noted) (inr (inr (inl (contains-without n k s.unannounced other silent))))
    | inr (inr (inr early)) ↦
        rw (settled, noted) (inr (inr (inr (contains-without n k s.overtaken other early))))
  ]
]
  where
    behind : contains s.messages k ≡ true → contains rest k ≡ true
    behind told = sym (ap (λ l. contains l k) e ∙ rw other refl) ∙ told

-- An answer that waits is not about `n`, or it is overtaken.
handles-waiting :
    {V : Type 0} (n : ℕ) (rest : List ℕ) (s : AioCaching V) (l : List (ℕ × V))
    → s.messages ≡ n ∷ rest
    → (waits n l ≡ true → waits n s.fetched ≡ true)
    → All (λ w. IsCurrent s w.0 w.1) l
    → All (λ w. IsCurrent (handles n rest s) w.0 w.1) l
unfolding handles noted
handles-waiting n rest s [] e sub h = tt
handles-waiting n rest s ((k, v) ∷ l) e sub (first, h) = (
  elim (Bool-cases (k == n)) [
    | inl same ↦
        let busy : waits n s.fetched ≡ true = sub (rw same refl) in
        let found : (n == k) ≡ true = ground arith in
        rw (busy, noted) (inr (inr (inr (rw found refl))))
    | inr other ↦
        let apart : (n == k) ≡ false = ground arith in handles-IsCurrent n rest s k v e apart first
  ],
  handles-waiting n rest s l e (λ w. sub (either (k == n) (waits n l) w)) h,
)
  where
    either : (a b : Bool) → b ≡ true → (a || b) ≡ true
    either true b w = refl
    either false b w = w

dict-noted :
    {V : Type 0} (n : ℕ) (s : AioCaching V)
    → ((noted n s).cache ≡ s.cache) × ((noted n s).fetched ≡ s.fetched)
unfolding noted
dict-noted n s = elim (Bool-cases (waits n s.fetched)) [
  | inl busy ↦ rw (busy, noted) (refl, refl)
  | inr settled ↦ rw (settled, noted) (refl, refl)
]

handles-AllCurrent :
    {V : Type 0} (n : ℕ) (rest : List ℕ) (s : AioCaching V)
    → s.messages ≡ n ∷ rest
    → AllCurrent s
    → AllCurrent (handles n rest s)
unfolding handles
handles-AllCurrent n rest s e h =
    let (same, still) = dict-noted n (record s { cache = invalidate n s.cache; messages = rest }) in
    record {
      held = λ k u x.
          let y = sym (get-invalidate n k s.cache) ∙ sym (ap (λ c. Dict.get c.dict k) same) ∙ x in
          elim (Bool-cases (n == k)) [
            | inl found ↦ absurd (none-some u ((rw found at y)))
            | inr other ↦ handles-IsCurrent n rest s k u e other (h.held k u ((rw other at y)))
          ];
      waiting =
          subst (All (λ w. IsCurrent (handles n rest s) w.0 w.1)) (sym still)
            (handles-waiting n rest s s.fetched e (λ w. w) h.waiting);
    }
  where
    none-some : {A : Type 0} (u : A) → none ≢ some u
    none-some u e = cc

Step-AllCurrent : {V : Type 0} {s t : AioCaching V} → Step s t → AllCurrent s → AllCurrent t
Step-AllCurrent {V} {s} (beginning n) h = begins-AllCurrent n s h
Step-AllCurrent {V} {s} (answering n) h = answers-AllCurrent n s h
Step-AllCurrent {V} {s} (changing n v) h = changes-AllCurrent n v s h
Step-AllCurrent {V} {s} (changing_silently n v) h = changes_silently-AllCurrent n v s h
Step-AllCurrent {V} {s} (ending n v before rest e) h = ends-AllCurrent n v before rest s e h
Step-AllCurrent {V} {s} (handling n rest e) h = handles-AllCurrent n rest s e h

Reach-AllCurrent : {V : Type 0} {s t : AioCaching V} → Reach s t → AllCurrent s → AllCurrent t
Reach-AllCurrent here h = h
Reach-AllCurrent (later r p) h = Step-AllCurrent p (Reach-AllCurrent r h)

new_caching-AllCurrent : {V : Type 0} (now : ℕ → V) → AllCurrent (new_caching now)
unfolding new_caching new_cache Dict.get
new_caching-AllCurrent now = record { held = λ n v e. absurd cc; waiting = tt }

hit-held :
    {V : Type 0} (n : ℕ) (v : V) (c : Cache V)
    → (begin_get n c).0 ≡ some v
    → Dict.get c.dict n ≡ some v
unfolding begin_get
hit-held n v c e = elim (Option-cases (Dict.get c.dict n)) [
  | inl miss ↦ absurd (lem ((rw (miss, begin_get) at e)))
  | inr (u, hit) ↦ hit ∙ (rw (hit, begin_get) at e)
]
  where
    lem : none ≢ some v
    lem e = cc

-- From an empty cache on, in whatever order callers, handlers and the server go on: a value that `get`
-- takes from the cache is what the server would answer, or a message about its key has not been
-- handled yet, or, since the last message about the key that was handled while no answer for it
-- waited for its caller, the value changed without a message, or a message about it was handled while
-- an answer for it waited.
pub Reach-IsCurrent :
    {V : Type 0} (now : ℕ → V) (t : AioCaching V) (n : ℕ) (v : V)
    → Reach (new_caching now) t
    → (begin_get n t.cache).0 ≡ some v
    → IsCurrent t n v
Reach-IsCurrent now t n v r hit =
    (Reach-AllCurrent r (new_caching-AllCurrent now)).held n v (hit-held n v t.cache hit)

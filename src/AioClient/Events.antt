-- ===== src/AioClient/Events.antt =====
-- aio.py: what holds between the requests that wait in the connection, the events, the lock and the
-- reply queue of an `AioClient`.
use mathlib.Core.Path.{subst}
use pylyskom.Base.{
  ℕ, ◌+◌, ◌≤◌, ◌<◌, ◌≡◌, refl, sym, ap, ◌∙◌, ◌⊎◌, inl, inr, List, [], ◌∷◌, Bool, true, false,
  Bool-cases, Option, none, some, ◌==◌, ==_refl, if◌then◌else◌, contains, contains-right, arith,
}
use pylyskom.Dict
use pylyskom.Dict.{Dict}
use pylyskom.Connection.{Response}
use pylyskom.Client.Queues.{answers}

-- The last number, the requests that wait in the connection, the events, the number being sent,
-- the reply queue, and the numbers that were given up.
pub record Consistent (last : ℕ) (waiting : Dict ℕ) (events : Dict Bool) (sending : Option ℕ)
    (queue : Dict Response) (given_up : List ℕ) : Type 0 where
  -- A number that was not given out yet is nowhere.
  pub unused : (n : ℕ) → last < n → Dict.get waiting n ≡ none
  pub no_event : (n : ℕ) → last < n → Dict.get events n ≡ none
  -- The request being sent has no event yet.
  pub being_sent : (n : ℕ) → sending ≡ some n → (n ≤ last) × (Dict.get events n ≡ none)
  -- Whoever waits in the connection has an event that is not set, or is being sent, or was given up.
  pub covered :
      (n k : ℕ)
      → Dict.get waiting n ≡ some k
      → (Dict.get events n ≡ some false)
        ⊎ (sending ≡ some n)
        ⊎ ((contains given_up n ≡ true) × (Dict.get events n ≡ none))
  -- Where an event is set, its reply is in the queue.
  pub queued :
      (n : ℕ)
      → Dict.get events n ≡ some true
      → (w : Response) × (Dict.get queue n ≡ some w) × (answers n w.0 ≡ true)

pub get-put-same : {V : Type 0} (d : Dict V) (k : ℕ) (v : V) → Dict.get (Dict.put d k v) k ≡ some v
get-put-same d k v = Dict.get-put d k k v ∙ ap (λ b. if b then some v else Dict.get d k) (==_refl k)

get-put-other :
    {V : Type 0} (d : Dict V) (k n : ℕ) (v : V)
    → (k == n) ≡ false
    → Dict.get (Dict.put d k v) n ≡ Dict.get d n
get-put-other d k n v h = Dict.get-put d k n v ∙ rw h refl

get-remove-other :
    {V : Type 0} (d : Dict V) (k n : ℕ)
    → (k == n) ≡ false
    → Dict.get (Dict.remove d k) n ≡ Dict.get d n
get-remove-other d k n h = Dict.get-remove d k n ∙ rw h refl

get-remove-same :
    {V : Type 0} (d : Dict V) (k n : ℕ) → (k == n) ≡ true → Dict.get (Dict.remove d k) n ≡ none
get-remove-same d k n h = Dict.get-remove d k n ∙ rw h refl

-- What a removal leaves was there, under another number.
get-remove-some :
    {V : Type 0} (d : Dict V) (k n : ℕ) {v : V}
    → Dict.get (Dict.remove d k) n ≡ some v
    → ((k == n) ≡ false) × (Dict.get d n ≡ some v)
get-remove-some d k n {v} h = elim (Bool-cases (k == n)) [
  | inl same ↦ let x : none ≡ some v = sym (get-remove-same d k n same) ∙ h in absurd cc
  | inr other ↦ (other, sym (get-remove-other d k n other) ∙ h)
]

module _ {last : ℕ} {waiting : Dict ℕ} {events : Dict Bool} {sending : Option ℕ}
    {queue : Dict Response} {given_up : List ℕ}
    (h : Consistent last waiting events sending queue given_up) where
  -- A request with the next number is written.
  pub send-Consistent :
      (sent : Dict ℕ) (call_no : ℕ)
      → sending ≡ none
      → ((k : ℕ) → Dict.get sent k ≡ (if last + 1 == k then some call_no else Dict.get waiting k))
      → Consistent (last + 1) sent events (some (last + 1)) queue given_up
  send-Consistent sent call_no free there = record {
    unused = λ n k.
        let other : (last + 1 == n) ≡ false = ground arith in
        there n ∙ rw other (h.unused n (omega (arith, k)));
    no_event = λ n k. h.no_event n (omega (arith, k));
    being_sent = λ n e.
        let same : last + 1 ≡ n = cc in (omega (arith, same), h.no_event n (omega (arith, same)));
    covered = λ n k e. elim (Bool-cases (last + 1 == n)) [
      | inl same ↦ let e' : last + 1 ≡ n = ground arith in inr (inl (ap some e'))
      | inr other ↦ elim (h.covered n k ((rw other at (sym (there n) ∙ e)))) [
        | inl waits ↦ inl waits
        | inr (inl busy) ↦ let x : none ≡ some n = sym free ∙ busy in absurd cc
        | inr (inr gone) ↦ inr (inr gone)
      ]
    ];
    queued = h.queued;
  }

  -- Its caller is gone before it gets an event.
  pub fail-Consistent :
      (n : ℕ) → sending ≡ some n → Consistent last waiting events none queue (n ∷ given_up)
  fail-Consistent n e = record {
    unused = h.unused;
    no_event = h.no_event;
    being_sent = λ m x. absurd cc;
    covered = λ m k x. elim (h.covered m k x) [
      | inl waits ↦ inl waits
      | inr (inl busy) ↦
          let y : some n ≡ some m = sym e ∙ busy in
          let is : n ≡ m = cc in
          let same : (n == m) ≡ true = ground arith in
          inr (inr (rw same refl, subst (λ j. Dict.get events j ≡ none) is (h.being_sent n e).1))
      | inr (inr (gone, absent)) ↦ inr (inr (contains-right (n ∷ []) given_up m gone, absent))
    ];
    queued = h.queued;
  }

  -- A caller that waited is gone.
  pub cancel-Consistent : (n : ℕ) → Consistent last waiting events sending queue (n ∷ given_up)
  cancel-Consistent n = record {
    unused = h.unused;
    no_event = h.no_event;
    being_sent = h.being_sent;
    covered = λ m k x. elim (h.covered m k x) [
      | inl waits ↦ inl waits
      | inr (inl busy) ↦ inr (inl busy)
      | inr (inr (gone, absent)) ↦ inr (inr (contains-right (n ∷ []) given_up m gone, absent))
    ];
    queued = h.queued;
  }

  -- Its event is made.
  pub register-Consistent :
      (n : ℕ)
      → sending ≡ some n
      → Consistent last waiting (Dict.put events n false) none queue given_up
  register-Consistent n e = record {
    unused = h.unused;
    no_event = λ m k.
        let other : (n == m) ≡ false = ground (arith, (h.being_sent n e).0) in
        get-put-other events n m false other ∙ h.no_event m k;
    being_sent = λ m x. absurd cc;
    covered = λ m k x. elim (Bool-cases (n == m)) [
      | inl same ↦
          let e' : n ≡ m = ground arith in
          inl (
            subst (λ j. Dict.get (Dict.put events n false) j ≡ some false) e'
              (get-put-same events n false))
      | inr other ↦ elim (h.covered m k x) [
        | inl waits ↦ inl (get-put-other events n m false other ∙ waits)
        | inr (inl busy) ↦
            let y : some n ≡ some m = sym e ∙ busy in let y' : n ≡ m = cc in absurd (ground arith)
        | inr (inr (gone, absent)) ↦ inr (inr (gone, get-put-other events n m false other ∙ absent))
      ]
    ];
    queued = λ m x. elim (Bool-cases (n == m)) [
      | inl same ↦
          let e' : n ≡ m = ground arith in
          let y : some false ≡ some true =
            sym (
              subst (λ j. Dict.get (Dict.put events n false) j ≡ some false) e'
                (get-put-same events n false))
            ∙ x in
          absurd cc
      | inr other ↦ h.queued m (sym (get-put-other events n m false other) ∙ x)
    ];
  }

  -- A reply `w` to `n` was taken from the connection, and the event of `n` is set.
  pub receive-Consistent :
      (n : ℕ) (w : Response)
      → Dict.get events n ≡ some false
      → answers n w.0 ≡ true
      → Consistent last
          (Dict.remove waiting n)
          (Dict.put events n true)
          sending
          (Dict.put queue n w)
          given_up
  receive-Consistent n w e a = record {
    unused = λ m k. removed m (h.unused m k);
    no_event = λ m k. elim (Bool-cases (n == m)) [
      | inl same ↦
          let y : some false ≡ none = sym e ∙ ap (Dict.get events) (is n m same) ∙ h.no_event m k in
          absurd cc
      | inr other ↦ get-put-other events n m true other ∙ h.no_event m k
    ];
    being_sent = λ m x.
        let (small, none_yet) = h.being_sent m x in
        (
          small,
          elim (Bool-cases (n == m)) [
            | inl same ↦
                let y : some false ≡ none = sym e ∙ ap (Dict.get events) (is n m same) ∙ none_yet in
                absurd cc
            | inr other ↦ get-put-other events n m true other ∙ none_yet
          ],
        );
    covered = λ m k x.
        let (other, there) = get-remove-some waiting n m x in
        elim (h.covered m k there) [
          | inl waits ↦ inl (get-put-other events n m true other ∙ waits)
          | inr (inl busy) ↦ inr (inl busy)
          | inr (inr (gone, absent)) ↦
              inr (inr (gone, get-put-other events n m true other ∙ absent))
        ];
    queued = λ m x. elim (Bool-cases (n == m)) [
      | inl same ↦ (
        w,
        subst (λ j. Dict.get (Dict.put queue n w) j ≡ some w) (is n m same)
            (get-put-same queue n w),
        subst (λ j. answers j w.0 ≡ true) (is n m same) a,
      )
      | inr other ↦
          let (v, there, it) = h.queued m (sym (get-put-other events n m true other) ∙ x) in
          (v, get-put-other queue n m w other ∙ there, it)
    ];
  }
    where
      is : (n m : ℕ) → (n == m) ≡ true → n ≡ m
      is n m same = ground arith

      removed : (m : ℕ) → Dict.get waiting m ≡ none → Dict.get (Dict.remove waiting n) m ≡ none
      removed m x = elim (Bool-cases (n == m)) [
        | inl same ↦ get-remove-same waiting n m same
        | inr other ↦ get-remove-other waiting n m other ∙ x
      ]

  -- The same for a reply to a request that has no event yet.
  pub receive_early-Consistent :
      (n : ℕ) (w : Response)
      → Dict.get events n ≡ none
      → Consistent last (Dict.remove waiting n) events sending (Dict.put queue n w) given_up
  receive_early-Consistent n w e = record {
    unused = λ m k. elim (Bool-cases (n == m)) [
      | inl same ↦ get-remove-same waiting n m same
      | inr other ↦ get-remove-other waiting n m other ∙ h.unused m k
    ];
    no_event = h.no_event;
    being_sent = h.being_sent;
    covered = λ m k x. h.covered m k (get-remove-some waiting n m x).1;
    queued = λ m x. elim (Bool-cases (n == m)) [
      | inl same ↦
          let is : n ≡ m = ground arith in
          let y : none ≡ some true = sym e ∙ ap (Dict.get events) is ∙ x in absurd cc
      | inr other ↦
          let (v, there, it) = h.queued m x in (v, get-put-other queue n m w other ∙ there, it)
    ];
  }

  -- The caller whose event is set took its reply.
  pub wake-Consistent :
      (n : ℕ)
      → Dict.get events n ≡ some true
      → Consistent last waiting (Dict.remove events n) sending (Dict.remove queue n) given_up
  wake-Consistent n e = record {
    unused = h.unused;
    no_event = λ m k. removed m (h.no_event m k);
    being_sent = λ m x. let (small, none_yet) = h.being_sent m x in (small, removed m none_yet);
    covered = λ m k x. elim (h.covered m k x) [
      | inl waits ↦ elim (Bool-cases (n == m)) [
        | inl same ↦
            let is : n ≡ m = ground arith in
            let y : some true ≡ some false = sym e ∙ ap (Dict.get events) is ∙ waits in
            let z : true ≡ false = cc in absurd cc
        | inr other ↦ inl (get-remove-other events n m other ∙ waits)
      ]
      | inr (inl busy) ↦ inr (inl busy)
      | inr (inr (gone, absent)) ↦ inr (inr (gone, removed m absent))
    ];
    queued = λ m x.
        let (other, there) = get-remove-some events n m x in
        let (v, in_queue, it) = h.queued m there in
        (v, get-remove-other queue n m other ∙ in_queue, it);
  }
    where
      removed : (m : ℕ) → Dict.get events m ≡ none → Dict.get (Dict.remove events n) m ≡ none
      removed m x = elim (Bool-cases (n == m)) [
        | inl same ↦ get-remove-same events n m same
        | inr other ↦ get-remove-other events n m other ∙ x
      ]

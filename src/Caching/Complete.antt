-- ===== src/Caching/Complete.antt =====
-- cachedconnection.py: no unread text is missed by `get_unread_texts_from_membership`.
use pylyskom.Base.{
  ℕ, zero, suc, ◌+◌, ◌≤◌, ◌<◌, ◌≡◌, ◌≢◌, refl, ◌∙◌, inl, inr, List, [], ◌∷◌, ◌++◌, true, false,
  Bool-cases, ltb, ltb→lt, ltb→le, Option, none, some, ◌==◌, contains, arith,
}
use pylyskom.Exec.Gives.{Gives, Gives-pure, Gives-then, Gives-weaken}
use pylyskom.Datatypes.Membership.{Membership11, ReadRange}
use pylyskom.Datatypes.Text.{TextMapping}
use pylyskom.Utils.Ranges.{
  read_ranges_to_gaps_and_last, read_ranges_to_gaps_and_last-complement, AreOrdered, is_read,
}
use pylyskom.Caching.{ClientApi}
use pylyskom.Caching.Unread.{
  Progress, existing, nonzero, map_texts, fetch_rest, get_unread_texts_from_membership,
}
use pylyskom.Caching.Gaps.{
  Maps, From, Extends, Honest, Ascends, gaps_from-Ascends, mapped, after-Honest, beyond, AllFilled,
  fetch_gaps-AllFilled,
}

contains-nonzero :
    (u : List ℕ) (g : ℕ) → g ≢ 0 → contains u g ≡ true → contains (nonzero u) g ≡ true
unfolding nonzero
contains-nonzero [] g h e = e
contains-nonzero (x ∷ u) g h e = elim (Bool-cases (x == g)) [
  | inl same ↦
      let is : x ≡ g = ground arith in
      let kept : (x == 0) ≡ false = ground (arith, h) in rw kept (rw same refl)
  | inr other ↦
      let rest = contains-nonzero u g h ((rw other at e)) in
      elim (Bool-cases (x == 0)) [
        | inl dropped ↦ rw dropped rest
        | inr kept ↦ rw kept (rw other rest)
      ]
]

-- Every text that no read range holds.
abbrev pub AllUnread : (ℕ → ℕ → Type 0) → List ReadRange → Option (List ℕ) → Type 0
AllUnread texts rs none = ⊥
AllUnread texts rs (some u) = (l g : ℕ) → texts l g → is_read l rs ≡ false → contains u g ≡ true

ascends :
    (rs : List ReadRange)
    → AreOrdered 1 rs
    → Ascends 1 (read_ranges_to_gaps_and_last rs).0 (read_ranges_to_gaps_and_last rs).1
unfolding read_ranges_to_gaps_and_last
ascends rs o = gaps_from-Ascends 1 rs o

module _ {S : Type 0} (api : ClientApi S) (conference limit : ℕ) (texts : ℕ → ℕ → Type 0)
    (maps : (first n : ℕ)
      → 0 < n
      → Gives (Maps texts limit first n) (map_texts api conference first n)) where
  -- All from `first` on, beside what was there.
  abbrev AllFrom : ℕ → List ℕ → Option (List ℕ) → Type 0
  AllFrom first u none = ⊥
  AllFrom first u (some v) = Extends u v × From texts first v

  all_from :
      (first : ℕ) (m : TextMapping) (u : List ℕ)
      → Maps texts limit first 255 (some m)
      → (o : Option (List ℕ)) → AllFrom m.range_end (u ++ existing m.list) o
      → AllFrom first u o
  all_from first m u h none f = f
  all_from first m u h (some v) (grows, all) =
      let (more, everything, there) = mapped api conference limit texts maps first 255 (u, 0) m h in
      (
        λ g x. grows g (more g x),
        λ l g t a. elim (Bool-cases (ltb l m.range_end)) [
          | inl inside ↦ grows g (there l g t a (ltb→lt l m.range_end inside))
          | inr outside ↦ all l g t (ltb→le l m.range_end outside)
        ],
      )

  fetch_rest-AllFrom :
      (fuel first : ℕ) (p : Progress)
      → Honest texts first p
      → (p.1 ≢ 0 → (limit < first + fuel) × (0 < fuel))
      → Gives (AllFrom first p.0) (fetch_rest api fuel conference first p)
  unfolding fetch_rest
  fetch_rest-AllFrom fuel first (u, zero) honest enough =
      Gives-pure (some u) ((λ g h. h), honest refl)
  fetch_rest-AllFrom zero first (u, suc more) honest enough =
      let fuelled = (enough (λ z. absurd (omega (arith, z)))).1 in absurd (omega (arith, fuelled))
  fetch_rest-AllFrom (suc fuel) first (u, suc more) honest enough =
      let bound = (enough (λ z. absurd (omega (arith, z)))).0 in
      Gives-then (maps first 255 (omega arith)) λ found h.
        elim found
            as (λ o.
              Maps texts limit first 255 o
              → Gives (AllFrom first u) (elim o [
                | some mapping ↦
                    fetch_rest api fuel conference mapping.range_end
                      (u ++ existing mapping.list, mapping.later_texts_exists)
                | none ↦ fetch_rest api fuel conference first (u, 0)
              ])) [
                | some m ↦ λ h.
                    Gives-weaken
                      (fetch_rest-AllFrom fuel m.range_end
                        (u ++ existing m.list, m.later_texts_exists)
                        (after-Honest api conference limit texts maps first 255 m
                          (u ++ existing m.list) h)
                        (λ later.
                          let (far, inside) = h.2 later in
                          (omega (arith, far, bound), omega (arith, far, inside, bound))))
                      (all_from first m u h)
                | none ↦ λ h.
                    Gives-weaken
                      (fetch_rest-AllFrom fuel first (u, 0)
                        (λ e. beyond api conference limit texts maps first u h)
                        (λ z. absurd (z refl)))
                      (λ q f. f)
              ]
          h

  all_unread :
      (rs : List ReadRange)
      → AreOrdered 1 rs
      → ((l g : ℕ) → texts l g → (1 ≤ l) × (g ≢ 0))
      → (p : Progress)
      → AllFilled api conference limit texts maps
          (read_ranges_to_gaps_and_last rs).0
          (read_ranges_to_gaps_and_last rs).1
          ([], 1)
          p
      → (o : Option (List ℕ)) → AllFrom (read_ranges_to_gaps_and_last rs).1 p.0 o
      → AllUnread texts rs (elim o [ none ↦ none | some u ↦ some (nonzero u) ])
  all_unread rs ordered numbered p f none h = h
  all_unread rs ordered numbered p f (some u) (grows, all) = λ l g t unread.
      let (low, real) = numbered l g t in
      let end = (read_ranges_to_gaps_and_last rs).1 in
      let split = read_ranges_to_gaps_and_last-complement l rs ordered low in
      contains-nonzero u g real (elim (Bool-cases (ltb l end)) [
        | inl inside ↦ grows g (f.inside l g t (split ∙ rw (unread, inside) refl))
        | inr outside ↦ all l g t (ltb→le l end outside)
      ])

-- Let the client's questions for texts be answered as `Maps` says, for texts with numbers from 1 on,
-- and let none of them be beyond `limit` where later texts are said to exist. Then, with fuel beyond
-- `limit` and read ranges in order, `get_unread_texts_from_membership` ends; unless a request raises,
-- it returns every text of the conference that no read range holds.
pub get_unread_texts-AllUnread :
    {S : Type 0} (api : ClientApi S) (membership : Membership11) (texts : ℕ → ℕ → Type 0)
    (limit fuel : ℕ)
    → ((first n : ℕ)
        → 0 < n
        → Gives (Maps texts limit first n) (map_texts api membership.conference first n))
    → AreOrdered 1 membership.read_ranges
    → ((l g : ℕ) → texts l g → (1 ≤ l) × (g ≢ 0))
    → limit < fuel
    → Gives
        (AllUnread texts membership.read_ranges)
        (get_unread_texts_from_membership api fuel membership)
unfolding get_unread_texts_from_membership
get_unread_texts-AllUnread api membership texts limit fuel maps ordered numbered enough =
    let rs = membership.read_ranges in
    let c = membership.conference in
    let w = read_ranges_to_gaps_and_last rs in
    Gives-then
      (fetch_gaps-AllFilled api c limit texts maps 1 w.0 w.1 ([], 1) (ascends rs ordered)
        (λ e. absurd (omega (arith, e))))
      λ p f.
        Gives-then
          (fetch_rest-AllFrom api c limit texts maps fuel w.1 p f.honest
            (λ more. (omega (arith, enough), omega (arith, enough))))
          λ o rest. Gives-pure _ (all_unread api c limit texts maps rs ordered numbered p f o rest)

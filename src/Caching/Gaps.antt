-- ===== src/Caching/Gaps.antt =====
-- cachedconnection.py: the texts that `get_unread_texts_from_membership` fetches in the gaps between
-- the read ranges.
use pylyskom.Base.{
  ℕ, zero, suc, ◌+◌, ◌-◌, ◌≤◌, ◌<◌, ◌≡◌, ◌≢◌, sym, ap, ◌∙◌, inl, inr, List, [], ◌∷◌, ◌++◌, true,
  false, ◌&&◌, Bool-cases, ltb, leb, ltb→lt, ltb→le, Option, none, some, ◌==◌, if◌then◌else◌,
  contains, contains-left, contains-right, arith,
}
use pylyskom.Exec.Gives.{Gives, Gives-pure, Gives-then, Gives-weaken}
use pylyskom.Datatypes.Membership.{ReadRange}
use pylyskom.Datatypes.Text.{TextMapping}
use pylyskom.Utils.Ranges.{gaps_from, AreOrdered, in_gaps}
use pylyskom.Caching.{ClientApi}
use pylyskom.Caching.Unread.{Progress, existing, map_texts, fetch_gap, fetch_gaps}

-- `texts local global`: the text is in the conference. What is known of a reply to a question for
-- `n` texts from `first` on, `none` for NoSuchLocalText.
abbrev pub Maps : (ℕ → ℕ → Type 0) → ℕ → ℕ → ℕ → Option TextMapping → Type 0
Maps texts limit first n none = (l g : ℕ) → texts l g → l < first
Maps texts limit first n (some m) =
    ((l g : ℕ) → texts l g → first ≤ l → l < m.range_end → contains (existing m.list) g ≡ true)
    × (m.later_texts_exists ≡ 0 → (l g : ℕ) → texts l g → l < m.range_end)
    × (m.later_texts_exists ≢ 0 → (first + n ≤ m.range_end) × (m.range_end ≤ limit))

-- All texts from `a` up to `b` are in `u`; all from `a` on are.
abbrev Within : (ℕ → ℕ → Type 0) → ℕ → ℕ → List ℕ → Type 0
Within texts a b u = (l g : ℕ) → texts l g → a ≤ l → l < b → contains u g ≡ true

abbrev pub From : (ℕ → ℕ → Type 0) → ℕ → List ℕ → Type 0
From texts a u = (l g : ℕ) → texts l g → a ≤ l → contains u g ≡ true

abbrev pub Extends : List ℕ → List ℕ → Type 0
Extends u v = (g : ℕ) → contains u g ≡ true → contains v g ≡ true

-- Where there is no more to fetch, all from `a` on is there.
abbrev pub Honest : (ℕ → ℕ → Type 0) → ℕ → Progress → Type 0
Honest texts a p = p.1 ≡ 0 → From texts a p.0

-- The starts of the gaps, from `a` on, in ascending order, and then `end`.
abbrev pub Ascends : ℕ → List (ℕ × ℕ) → ℕ → Type 0
Ascends a [] end = a ≤ end
Ascends a ((first, n) ∷ gaps) end = (a ≤ first) × Ascends first gaps end

Ascends-later :
    (a b : ℕ) (gaps : List (ℕ × ℕ)) (end : ℕ) → a ≤ b → Ascends b gaps end → Ascends a gaps end
Ascends-later a b [] end le h = omega (arith, le, h)
Ascends-later a b ((first, n) ∷ gaps) end le (h, hs) = (omega (arith, le, h), hs)

pub gaps_from-Ascends :
    (start : ℕ) (rs : List ReadRange)
    → AreOrdered start rs
    → Ascends start (gaps_from start rs).0 (gaps_from start rs).1
unfolding gaps_from
gaps_from-Ascends start [] o = omega arith
gaps_from-Ascends start (r ∷ rs) (a, b, o) =
    let rest = gaps_from-Ascends (r.last_read + 1) rs o in
    let later =
      Ascends-later start (r.last_read + 1) (gaps_from (r.last_read + 1) rs).0
        (gaps_from (r.last_read + 1) rs).1 (omega (arith, a, b)) rest in
    elim (Bool-cases (ltb start r.first_read)) [
      | inl gap ↦ rw gap (omega arith, later)
      | inr none_between ↦ rw none_between later
    ]

module _ {S : Type 0} (api : ClientApi S) (conference limit : ℕ) (texts : ℕ → ℕ → Type 0)
    (maps : (first n : ℕ)
      → 0 < n
      → Gives (Maps texts limit first n) (map_texts api conference first n)) where
  -- What a gap leaves behind.
  record Filled (first end : ℕ) (p q : Progress) : Type 0 where
    extends : Extends p.0 q.0
    within : Within texts first end q.0
    honest : Honest texts first q

  -- After a mapping that says that no later texts exist.
  abbrev Step : ℕ → ℕ → Progress → ℕ → Progress → Type 0
  Step first n p next q = Extends p.0 q.0 × Honest texts first q × Within texts first next q.0

  pub mapped :
      (first n : ℕ) (p : Progress) (m : TextMapping)
      → Maps texts limit first n (some m)
      → Step first n p m.range_end (p.0 ++ existing m.list, m.later_texts_exists)
  mapped first n p m (there, last, more) = (
    contains-left p.0 (existing m.list),
    λ e l g t a. contains-right p.0 (existing m.list) g (there l g t a (last e l g t)),
    λ l g t a b. contains-right p.0 (existing m.list) g (there l g t a b),
  )

  empty : (first : ℕ) (p : Progress) → Honest texts first p → Filled first (first + 0) p p
  empty first p honest = record {
    extends = λ g h. h;
    within = λ l g t a b. absurd (omega (arith, a, b));
    honest = honest;
  }

  -- A mapping, and what the rest of the gap gave behind it.
  behind :
      (first n k : ℕ) (p q : Progress) (m : TextMapping)
      → Maps texts limit first n (some m)
      → n ≤ k
      → Filled m.range_end (m.range_end + (k - n)) (p.0 ++ existing m.list, m.later_texts_exists) q
      → Filled first (first + k) p q
  behind first n k p q m h small f =
      let (grows, all, there) = mapped first n p m h in
      record {
        extends = λ g x. f.extends g (grows g x);
        within = λ l g t a b. elim (Bool-cases (m.later_texts_exists == 0)) [
          | inl none_later ↦
              let e : m.later_texts_exists ≡ 0 = ground arith in f.extends g (all e l g t a)
          | inr later ↦
              let e : m.later_texts_exists ≢ 0 =
                λ z. let x : false ≡ true = sym later ∙ ap (λ y. y == 0) z in absurd cc in
              elim (Bool-cases (ltb l m.range_end)) [
                | inl inside ↦ f.extends g (there l g t a (ltb→lt l m.range_end inside))
                | inr outside ↦
                    let past = ltb→le l m.range_end outside in
                    let far = (h.2 e).0 in f.within l g t past (omega (arith, far, small, b))
              ]
        ];
        honest = λ e l g t a. elim (Bool-cases (ltb l m.range_end)) [
          | inl inside ↦ f.extends g (there l g t a (ltb→lt l m.range_end inside))
          | inr outside ↦ f.honest e l g t (ltb→le l m.range_end outside)
        ];
      }

  -- Where there is a mapping that says that there are no more, none is behind it.
  pub after-Honest :
      (first n : ℕ) (m : TextMapping) (u : List ℕ)
      → Maps texts limit first n (some m)
      → Honest texts m.range_end (u, m.later_texts_exists)
  after-Honest first n m u h e l g t a =
      let before = h.1 e l g t in absurd (omega (arith, before, a))

  pub beyond : (first : ℕ) (u : List ℕ) → Maps texts limit first 0 none → From texts first u
  beyond first u h l g t a = let before = h l g t in absurd (omega (arith, before, a))

  fetch_gap-Filled :
      (fuel first gap_len : ℕ) (p : Progress)
      → gap_len ≤ fuel
      → Honest texts first p
      → Gives (Filled first (first + gap_len) p) (fetch_gap api fuel conference first gap_len p)
  unfolding fetch_gap
  fetch_gap-Filled zero first zero p le honest = Gives-pure p (empty first p honest)
  fetch_gap-Filled (suc fuel) first zero p le honest = Gives-pure p (empty first p honest)
  fetch_gap-Filled zero first (suc k) p le honest = absurd (omega (arith, le))
  fetch_gap-Filled (suc fuel) first (suc k) p le honest =
      let n = if ltb 255 (suc k) then 255 else suc k in
      let pos : 0 < n = ground arith in
      let small : n ≤ suc k = ground arith in
      Gives-then (maps first n pos) λ found h.
        elim found
            as (λ o.
              Maps texts limit first n o
              → Gives (Filled first (first + suc k) p) (elim o [
                | some mapping ↦
                    fetch_gap api fuel conference mapping.range_end (suc k - n)
                      (p.0 ++ existing mapping.list, mapping.later_texts_exists)
                | none ↦ fetch_gap api fuel conference first (suc k - n) (p.0, 0)
              ])) [
                | some m ↦ λ h.
                    Gives-weaken
                      (fetch_gap-Filled fuel m.range_end (suc k - n)
                        (p.0 ++ existing m.list, m.later_texts_exists) (omega (arith, le, pos))
                        (after-Honest first n m (p.0 ++ existing m.list) h))
                      λ q f. behind first n (suc k) p q m h small f
                | none ↦ λ h.
                    Gives-weaken
                      (fetch_gap-Filled fuel first (suc k - n) (p.0, 0) (omega (arith, le, pos))
                        (λ e. beyond first p.0 h))
                      λ q f. record {
                        extends = f.extends;
                        within = λ l g t a b. beyond first q.0 h l g t a;
                        honest = λ e. beyond first q.0 h;
                      }
              ]
          h

  pub record AllFilled (gaps : List (ℕ × ℕ)) (end : ℕ) (p q : Progress) : Type 0 where
    pub extends : Extends p.0 q.0
    pub inside : (l g : ℕ) → texts l g → in_gaps l gaps ≡ true → contains q.0 g ≡ true
    pub honest : Honest texts end q

  later-Honest : (a b : ℕ) (p : Progress) → a ≤ b → Honest texts a p → Honest texts b p
  later-Honest a b p le h e l g t k = h e l g t (omega (arith, le, k))

  pub fetch_gaps-AllFilled :
      (a : ℕ) (gaps : List (ℕ × ℕ)) (end : ℕ) (p : Progress)
      → Ascends a gaps end
      → Honest texts a p
      → Gives (AllFilled gaps end p) (fetch_gaps api conference gaps p)
  unfolding fetch_gaps
  fetch_gaps-AllFilled a [] end p le honest = Gives-pure p (record {
    extends = λ g h. h;
    inside = λ l g t i. absurd cc;
    honest = later-Honest a end p le honest;
  })
  fetch_gaps-AllFilled a ((first, n) ∷ gaps) end p (le, up) honest =
      Gives-then (fetch_gap-Filled n first n p (omega arith) (later-Honest a first p le honest))
        λ q f. Gives-weaken (fetch_gaps-AllFilled first gaps end q up f.honest) λ r rest. record {
          extends = λ g h. rest.extends g (f.extends g h);
          inside = λ l g t i. elim (Bool-cases (leb first l && ltb l (first + n))) [
            | inl here ↦
                let low : first ≤ l = ground arith in
                let high : l < first + n = ground arith in rest.extends g (f.within l g t low high)
            | inr elsewhere ↦ rest.inside l g t ((rw elsewhere at i))
          ];
          honest = rest.honest;
        }

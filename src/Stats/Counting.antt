-- ===== src/Stats/Counting.antt =====
-- stats.py: what a counter holds.
use pylyskom.Base.{
  ℕ, ◌+◌, ◌≡◌, refl, sym, ap, ap₂, ◌∙◌, inl, inr, List, [], ◌∷◌, ◌++◌, Bool, true, false,
  Bool-cases, ◌==◌, ==_refl, Option, none, some, if◌then◌else◌, arith,
}
use pylyskom.Connection.{bytes_eq}
use pylyskom.Stats.{Name, Values, get, put, sum, Stats, agg, aggregated, set}

-- 0 for a name without a value.
abbrev pub value : Option ℕ → ℕ
value none = 0
value (some n) = n

bytes_eq_refl : (s : Name) → bytes_eq s s ≡ true
unfolding bytes_eq
bytes_eq_refl [] = refl
bytes_eq_refl (x ∷ s) = rw (==_refl x, bytes_eq_refl s) refl

pub bytes_eq-same : (s t : Name) → bytes_eq s t ≡ true → s ≡ t
unfolding bytes_eq
bytes_eq-same [] [] h = refl
bytes_eq-same [] (y ∷ t) h = absurd cc
bytes_eq-same (x ∷ s) [] h = absurd cc
bytes_eq-same (x ∷ s) (y ∷ t) h = elim (Bool-cases (x == y)) [
  | inl same ↦
      let e : x ≡ y = ground arith in ap₂ (λ z l. z ∷ l) e (bytes_eq-same s t ((rw same at h)))
  | inr other ↦ let x : false ≡ true = (rw other at h) in absurd cc
]

bytes_eq-other :
    (n name k : Name) → bytes_eq n name ≡ false → bytes_eq n k ≡ true → bytes_eq name k ≡ false
bytes_eq-other n name k differ here = elim (Bool-cases (bytes_eq name k)) [
  | inl there ↦
      let e : n ≡ name = bytes_eq-same n k here ∙ sym (bytes_eq-same name k there) in
      let x : false ≡ true = sym differ ∙ ap (λ z. bytes_eq z name) e ∙ bytes_eq_refl name in
      absurd cc
  | inr other ↦ other
]

get-put :
    (d : Values) (name k : Name) (v : ℕ)
    → get (put d name v) k ≡ (if bytes_eq name k then some v else get d k)
unfolding get put
get-put [] name k v = refl
get-put ((n, w) ∷ d) name k v = elim (Bool-cases (bytes_eq n name)) [
  | inl same ↦
      rw (same, ap (λ z. bytes_eq z k) (bytes_eq-same n name same)) (either (bytes_eq name k))
  | inr differ ↦ rw differ (
      rw (get-put d name k v) (elim (Bool-cases (bytes_eq n k)) [
        | inl here ↦ rw (here, bytes_eq-other n name k differ here) refl
        | inr other ↦ rw other refl
      ]))
]
  where
    either :
        (b : Bool)
        → (if b then some v else get d k) ≡ (if b then some v else if b then some w else get d k)
    either true = refl
    either false = refl

-- The counter after each value of a list was set under its name with `sum`.
abbrev pub count_all : List (Name × ℕ) → Stats → Stats
count_all [] s = s
count_all ((name, v) ∷ l) s = count_all l (set sum name v s)

-- What the list has under `name`, all in all.
abbrev pub total : Name → List (Name × ℕ) → ℕ
total name [] = 0
total name ((n, v) ∷ l) = (if bytes_eq n name then v else 0) + total name l

bytes_eq-prefix : (p s t : Name) → bytes_eq (p ++ s) (p ++ t) ≡ bytes_eq s t
unfolding bytes_eq
bytes_eq-prefix [] s t = refl
bytes_eq-prefix (x ∷ p) s t = rw (==_refl x) (bytes_eq-prefix p s t)

value-aggregated : (o : Option ℕ) (v : ℕ) → value (some (aggregated sum o v)) ≡ value o + v
unfolding aggregated agg
value-aggregated none v = omega arith
value-aggregated (some n) v = ground arith

value-set :
    (name k : Name) (v : ℕ) (s : Stats)
    → value (get (set sum name v s).stats (s.prefix ++ k))
      ≡ value (get s.stats (s.prefix ++ k)) + (if bytes_eq name k then v else 0)
unfolding set
value-set name k v s =
    let p = s.prefix in
    let o = get s.stats (p ++ name) in
    ap value (
      get-put s.stats (p ++ name) (p ++ k) (aggregated sum o v)
      ∙ ap (λ b. if b then some (aggregated sum o v) else get s.stats (p ++ k))
          (bytes_eq-prefix p name k))
    ∙ elim (Bool-cases (bytes_eq name k)) [
      | inl same ↦ rw same (
          value-aggregated o v
          ∙ ap (λ z. value (get s.stats (p ++ z)) + v) (bytes_eq-same name k same))
      | inr other ↦ rw other (omega arith)
    ]

-- A counter into which values are set with `sum` holds, under the prefixed name, what it held before
-- and the sum of the values that were set under that name; a counter without a value counts as 0.
pub count_all-total :
    (l : List (Name × ℕ)) (k : Name) (s : Stats)
    → value (get (count_all l s).stats (s.prefix ++ k))
      ≡ value (get s.stats (s.prefix ++ k)) + total k l
unfolding set
count_all-total [] k s = omega arith
count_all-total ((name, v) ∷ l) k s =
    let rest = count_all-total l k (set sum name v s) in
    let here = value-set name k v s in omega (arith, rest, here)

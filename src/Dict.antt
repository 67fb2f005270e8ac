-- ===== src/Dict.antt =====
-- Python's `dict` with integer keys: the entries in the order of their insertion, which the code
-- iterates over in one place.
use mathlib.Core.Path.{subst₂}
use pylyskom.Base.{
  All, ap, inl, inr, Bool-cases, ℕ, ◌≡◌, refl, Bool, true, false, Option, none, some, List, [], ◌∷◌,
  ◌==◌, ==_iff, if◌then◌else◌, arith,
}

abbrev pub Dict {ℓ} : Type ℓ → Type ℓ
Dict V = List (ℕ × V)

module _ {ℓ} {V : Type ℓ} where
  -- d.get(k)
  unfoldable pub get : Dict V → ℕ → Option V
  get [] k = none
  get ((j, v) ∷ d) k = if j == k then some v else get d k

  -- k in d
  unfoldable pub has : Dict V → ℕ → Bool
  has [] k = false
  has ((j, v) ∷ d) k = if j == k then true else has d k

  -- d[k] = v: in place if the key is there, else at the end
  unfoldable pub put : Dict V → ℕ → V → Dict V
  put [] k v = (k, v) ∷ []
  put ((j, w) ∷ d) k v = if j == k then (k, v) ∷ d else (j, w) ∷ put d k v

  -- del d[k], d.pop(k, None)
  unfoldable pub remove : Dict V → ℕ → Dict V
  remove [] k = []
  remove ((j, w) ∷ d) k = let rest = remove d k in if j == k then rest else (j, w) ∷ rest

  -- d.keys()
  unfoldable pub keys : Dict V → List ℕ
  keys [] = []
  keys ((j, w) ∷ d) = j ∷ keys d

  pub get-put :
      (d : Dict V) (k j : ℕ) (v : V) → get (put d k v) j ≡ (if k == j then some v else get d j)
  unfolding get put
  get-put [] k j v = refl
  get-put ((i, w) ∷ d) k j v = ground (arith, get-put d k j v)

  pub get-remove : (d : Dict V) (k j : ℕ) → get (remove d k) j ≡ (if k == j then none else get d j)
  unfolding get remove
  get-remove [] k j = ground arith
  get-remove ((i, w) ∷ d) k j = ground (arith, get-remove d k j)

  pub has-put :
      (d : Dict V) (k j : ℕ) (v : V) → has (put d k v) j ≡ (if k == j then true else has d j)
  unfolding has put
  has-put [] k j v = refl
  has-put ((i, w) ∷ d) k j v = ground (arith, has-put d k j v)

  pub has-remove : (d : Dict V) (k j : ℕ) → has (remove d k) j ≡ (if k == j then false else has d j)
  unfolding has remove
  has-remove [] k j = ground arith
  has-remove ((i, w) ∷ d) k j = ground (arith, has-remove d k j)

  pub has-get : (d : Dict V) (k : ℕ) → has d k ≡ elim (get d k) [ none ↦ false | some v ↦ true ]
  unfolding has get
  has-get [] k = refl
  has-get ((i, w) ∷ d) k = ground (arith, has-get d k)

module _ {ℓ} {V : Type ℓ} where
  pub get-absent : (d : Dict V) (k : ℕ) → has d k ≡ false → get d k ≡ none
  unfolding get has
  get-absent [] k h = refl
  get-absent ((j, w) ∷ d) k h = elim (Bool-cases (j == k)) [
    | inl same ↦ let e : true ≡ false = (rw same at h) in absurd cc
    | inr other ↦ rw other (get-absent d k (rw other at h))
  ]

  -- What was put under a new key and removed again leaves no trace.
  pub remove-put :
      (d : Dict V) (j k : ℕ) (v : V) → (j == k) ≡ true → has d k ≡ false → remove (put d j v) k ≡ d
  unfolding put remove has
  remove-put [] j k v e h = rw e refl
  remove-put ((i, w) ∷ d) j k v e h = elim (Bool-cases (i == k)) [
    | inl same ↦ let x : true ≡ false = (rw same at h) in absurd cc
    | inr other ↦
        let apart : (i == j) ≡ false = ground arith in
        rw apart (rw (other) (ap (λ t. (i, w) ∷ t) (remove-put d j k v e (rw other at h))))
  ]

pub ruleset dict_laws = (get-put, get-remove, has-put, has-remove)

-- What holds of each entry holds of what is found under a key.
pub get-All {ℓ κ} :
    {V : Type ℓ} (P : ℕ → V → Type κ) (d : Dict V) (k : ℕ) {v : V}
    → All (λ (j, w). P j w) d
    → get d k ≡ some v
    → P k v
unfolding get
get-All P [] k h e = cc
get-All P ((j, w) ∷ d) k {v} h e = elim (Bool-cases (j == k)) [
  | inl same ↦
      let found : some w ≡ some v = (rw same at e) in
      subst₂ P ((==_iff j k).0 same) (let q : w ≡ v = cc in q) h.0
  | inr other ↦ let later : get d k ≡ some v = (rw other at e) in get-All P d k h.1 later
]

-- ===== src/Utils/Regexp/Collation.antt =====
-- utils.py: the characters that `_equivalent_chars` finds in a collate table.
use pylyskom.Base.{
  ℕ, zero, suc, ◌+◌, ◌<◌, ◌≡◌, refl, sym, ap, ◌∙◌, inl, inr, Bytes, [], ◌∷◌, length, contains, Bool,
  true, false, ◌&&◌, ◌||◌, Bool-cases, ◌==◌, ltb, leb, if◌then◌else◌, arith,
}
use pylyskom.Utils.Regexp.{entry, places_of, equivalent_chars}

before : (x index k : ℕ) (table : Bytes) → k < index → contains (places_of x index table) k ≡ false
unfolding places_of
before x index k [] h = refl
before x index k (y ∷ table) h =
    let rest = before x (index + 1) k table (omega (arith, h)) in
    elim (Bool-cases (y == x)) [
      | inl here ↦
          let other : (index == k) ≡ false = ground (arith, h) in rw here (rw (other, rest) refl)
      | inr absent ↦ rw absent rest
    ]

found :
    (x index k : ℕ) (table : Bytes)
    → contains (places_of x index table) (index + k)
      ≡ (ltb k (length table) && (entry table k == x))
unfolding places_of entry
found x index k [] = let out : ltb k 0 ≡ false = ground arith in rw out refl
found x index zero (y ∷ table) =
    let start : (index == index + 0) ≡ true = ground arith in
    let inside : ltb 0 (suc (length table)) ≡ true = ground arith in
    elim (Bool-cases (y == x)) [
      | inl here ↦ rw here (rw (start, inside) refl)
      | inr absent ↦ rw (absent, inside) (before x (index + 1) (index + 0) table (omega arith))
    ]
found x index (suc k) (y ∷ table) =
    let e : index + 1 + k ≡ index + suc k = omega arith in
    let rest : contains (places_of x (index + 1) table) (index + suc k)
        ≡ (ltb k (length table) && (entry table k == x)) =
      sym (ap (contains (places_of x (index + 1) table)) e) ∙ found x (index + 1) k table in
    let shift : ltb (suc k) (suc (length table)) ≡ ltb k (length table) = ground arith in
    let other : (index == index + suc k) ≡ false = ground arith in
    elim (Bool-cases (y == x)) [
      | inl here ↦ rw here (rw (other, shift) rest)
      | inr absent ↦ rw (absent, shift) rest
    ]

-- A character inside the collate table has as equivalents exactly the characters inside the table
-- that have the same entry; one outside has only itself.
pub contains-equivalent_chars :
    (c k : ℕ) (table : Bytes)
    → contains (equivalent_chars c table) k ≡ (
        if ltb c (length table)
        then ltb k (length table) && (entry table k == entry table c)
        else c == k)
unfolding equivalent_chars
contains-equivalent_chars c k table = elim (Bool-cases (ltb c (length table))) [
  | inl inside ↦
      let tested : leb (length table) c ≡ false = ground arith in
      rw (inside, tested)
        (ap (contains (places_of (entry table c) 0 table)) zero_add
          ∙ found (entry table c) 0 k table)
  | inr outside ↦
      let tested : leb (length table) c ≡ true = ground arith in
      rw (outside, tested) (either (c == k))
]
  where
    zero_add : k ≡ 0 + k
    zero_add = omega arith

    either : (b : Bool) → (b || false) ≡ b
    either true = refl
    either false = refl

-- ===== src/Utils/Ranges.antt =====
-- utils.py: `read_ranges_to_gaps_and_last`, the texts that a membership's read ranges leave out.
use pylyskom.Base.{
  ℕ, ◌+◌, ◌-◌, ◌≤◌, ◌<◌, ◌≡◌, refl, List, [], ◌∷◌, Bool, true, false, ◌&&◌, ◌||◌, not, ltb, leb,
  if◌then◌else◌, Bool-cases, ltb→lt, ltb→le, inl, inr, arith,
}
use pylyskom.Datatypes.Membership.{ReadRange}

-- The `for` from `last` on. A gap of a length that is not positive is left out.
unfoldable pub gaps_from : ℕ → List ReadRange → List (ℕ × ℕ) × ℕ
gaps_from last [] = ([], last)
gaps_from last (read_range ∷ read_ranges) =
    let rest = gaps_from (read_range.last_read + 1) read_ranges in
    if ltb last read_range.first_read
    then ((last, read_range.first_read - last) ∷ rest.0, rest.1)
    else rest

unfoldable pub read_ranges_to_gaps_and_last : List ReadRange → List (ℕ × ℕ) × ℕ
read_ranges_to_gaps_and_last = gaps_from 1

-- Is text `t` in one of the gaps, each its first text and its length?
abbrev pub in_gaps : ℕ → List (ℕ × ℕ) → Bool
in_gaps t [] = false
in_gaps t ((first, n) ∷ gaps) = (leb first t && ltb t (first + n)) || in_gaps t gaps

abbrev pub is_read : ℕ → List ReadRange → Bool
is_read t [] = false
is_read t (r ∷ rs) = (leb r.first_read t && leb t r.last_read) || is_read t rs

-- Ranges in ascending order that do not overlap, none of them before `last`: as the server keeps them.
abbrev pub AreOrdered : ℕ → List ReadRange → Type 0
AreOrdered last [] = Unit
AreOrdered last (r ∷ rs) =
    (last ≤ r.first_read) × (r.first_read ≤ r.last_read) × AreOrdered (r.last_read + 1) rs

-- Nothing before the start is in a gap or read.
before-start :
    (last t : ℕ) (rs : List ReadRange)
    → AreOrdered last rs
    → t < last
    → (in_gaps t (gaps_from last rs).0 ≡ false)
      × (is_read t rs ≡ false)
      × (last ≤ (gaps_from last rs).1)
unfolding gaps_from
before-start last t [] o h = (refl, refl, omega arith)
before-start last t (r ∷ rs) (a, b, o) h =
    let (g, u, m) = before-start (r.last_read + 1) t rs o (omega arith) in
    elim (Bool-cases (ltb last r.first_read)) [
      | inl gap ↦
          let out : leb last t ≡ false = ground arith in
          let out' : leb r.first_read t ≡ false = ground arith in
          rw (gap, out, out') (g, u, omega (arith, m))
      | inr none ↦
          let out' : leb r.first_read t ≡ false = ground arith in
          rw (none, out') (g, u, omega (arith, m))
    ]

-- At a range: what is in the gap before it, and what is in the range.
gap-bounds :
    (last first end t : ℕ)
    → last ≤ first
    → last ≤ t
    → t ≤ end
    → ((leb last t && ltb t (last + (first - last))) || false)
      ≡ (not ((leb first t && leb t end) || false) && true)
gap-bounds last first end t a b c = ground arith

gaps_from-complement :
    (last t : ℕ) (rs : List ReadRange)
    → AreOrdered last rs
    → last ≤ t
    → in_gaps t (gaps_from last rs).0 ≡ (not (is_read t rs) && ltb t (gaps_from last rs).1)
unfolding gaps_from
gaps_from-complement last t [] o h = let out : ltb t last ≡ false = ground arith in rw out refl
gaps_from-complement last t (r ∷ rs) (a, b, o) h = elim (Bool-cases (ltb r.last_read t)) [
  | inl behind ↦
      let past = ltb→lt _ _ behind in
      let rest = gaps_from-complement (r.last_read + 1) t rs o (omega (arith, past)) in
      let unread : leb t r.last_read ≡ false = ground arith in
      elim (Bool-cases (ltb last r.first_read)) [
        | inl gap ↦
            let out : ltb t (last + (r.first_read - last)) ≡ false = ground arith in
            rw (gap, out, unread) (both (leb last t) (leb r.first_read t) _ _ _ rest)
        | inr none ↦ rw (none, unread) (right (leb r.first_read t) _ _ _ rest)
      ]
  | inr before ↦
      let upto = ltb→le _ _ before in
      let (g, u, m) = before-start (r.last_read + 1) t rs o (omega (arith, upto)) in
      let below : ltb t (gaps_from (r.last_read + 1) rs).1 ≡ true = ground arith in
      elim (Bool-cases (ltb last r.first_read)) [
        | inl gap ↦
            rw (gap) (rw (g, u, below) (gap-bounds last r.first_read r.last_read t a h upto))
        | inr none ↦
            let read : leb r.first_read t ≡ true = ground arith in
            let read' : leb t r.last_read ≡ true = ground arith in
            rw (none) (rw (g, read, read') refl)
      ]
]
  where
    right : (x i u m : Bool) → i ≡ (not u && m) → i ≡ (not ((x && false) || u) && m)
    right true i u m e = e
    right false i u m e = e

    both :
        (w x i u m : Bool) → i ≡ (not u && m) → ((w && false) || i) ≡ (not ((x && false) || u) && m)
    both true x i u m e = right x i u m e
    both false x i u m e = right x i u m e

-- For ordered ranges, a text number from 1 on is in a gap exactly if it is in no range and less than
-- the number that comes back behind the ranges: together, the gaps and that number name all that
-- is unread, and nothing that is read.
pub read_ranges_to_gaps_and_last-complement :
    (t : ℕ) (rs : List ReadRange)
    → AreOrdered 1 rs
    → 1 ≤ t
    → in_gaps t (read_ranges_to_gaps_and_last rs).0
      ≡ (not (is_read t rs) && ltb t (read_ranges_to_gaps_and_last rs).1)
unfolding read_ranges_to_gaps_and_last
read_ranges_to_gaps_and_last-complement t rs o h = gaps_from-complement 1 t rs o h

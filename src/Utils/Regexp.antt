-- ===== src/Utils/Regexp.antt =====
-- utils.py: `case_insensitive_regexp`. A str is the numbers of its characters.
pub mod Collation
use pylyskom.Base.{
  ℕ, zero, suc, ◌+◌, Bytes, List, [], ◌∷◌, ◌++◌, length, Bool, true, false, ◌==◌, ltb, leb,
  if◌then◌else◌,
}

-- collate_table[c_ord], within the table
unfoldable pub entry : Bytes → ℕ → ℕ
entry [] c = 0
entry (x ∷ table) zero = x
entry (x ∷ table) (suc c) = entry table c

-- The `while` of `_equivalent_chars`: every place from `index` on where `norm_char` stands.
unfoldable pub places_of : ℕ → ℕ → Bytes → List ℕ
places_of norm_char index [] = []
places_of norm_char index (x ∷ table) =
    let rest = places_of norm_char (index + 1) table in
    if x == norm_char then index ∷ rest else rest

-- _equivalent_chars
unfoldable pub equivalent_chars : ℕ → Bytes → List ℕ
equivalent_chars c collate_table =
    if leb (length collate_table) c
    then c ∷ []
    else places_of (entry collate_table c) 0 collate_table

-- "[%s]" % eqv_chars, where there are two or more
unfoldable pub bracketed : List ℕ → List ℕ
bracketed eqv_chars =
    if ltb 1 (length eqv_chars) then b'[' ∷ (eqv_chars ++ b']' ∷ []) else eqv_chars

-- The `for` of `case_insensitive_regexp` from a state of `inside_brackets` on.
unfoldable pub insensitive : Bool → List ℕ → Bytes → List ℕ
insensitive inside_brackets [] collate_table = []
insensitive inside_brackets (c ∷ regexp) collate_table =
    let inside = if c == b'[' then true else inside_brackets in
    let eqv_chars = if inside then c ∷ [] else equivalent_chars c collate_table in
    let rest = insensitive (if c == b']' then false else inside) regexp collate_table in
    bracketed eqv_chars ++ rest

unfoldable pub case_insensitive_regexp : List ℕ → Bytes → List ℕ
case_insensitive_regexp = insensitive false

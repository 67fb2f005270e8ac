-- ===== src/Utils/UserArea.antt =====
-- utils.py: `encode_user_area` and `decode_user_area`.
pub mod RoundTrip
use pylyskom.Base.{
  ℕ, zero, suc, ◌+◌, ◌<◌, ◌≤◌, ◌≡◌, refl, sym, ap, ap₂, ◌∙◌, Bytes, List, [], ◌∷◌, ◌++◌, map,
  append_assoc, append-nil, length, length-append, Bool, true, false, Bool-cases, inl, inr, Option,
  none, some, ◌==◌, ltb, if◌then◌else◌, All, All-append, arith,
}
use pylyskom.Result.{Result, ok, raise}
use pylyskom.Protocol.{to_hstring}
use pylyskom.Connection.{bytes_eq}
use pylyskom.Utils.Hollerith.{Parsed, parse_hollerith_string, parse_hollerith_string-to_hstring}

-- `none` where the code never returns.
abbrev pub Outcome : Type 0 → Type 0
Outcome A = Option (Result A)

abbrev pub returns : {A : Type 0} → A → Outcome A
returns a = some (ok a)

module _ {A B : Type 0} where
  infixl 10 ◌>>=◌
  abbrev ◌>>=◌ : Outcome A → (A → Outcome B) → Outcome B
  some (ok a) >>= f = f a
  some (raise e) >>= f = some (raise e)
  none >>= f = none

-- A dict of blocks by their names; a block that is not there is None.
abbrev pub Blocks : Type 0
Blocks = List (Bytes × Option Bytes)

-- blocks[block_name] = h_block
unfoldable pub put_block : Blocks → Bytes → Option Bytes → Blocks
put_block [] name block = (name, block) ∷ []
put_block ((n, b) ∷ blocks) name block =
    let rest = put_block blocks name block in
    if bytes_eq n name then (name, block) ∷ blocks else (n, b) ∷ rest

-- `parse_block_names`, on fuel: each round but the last takes a byte at least.
unfoldable pub parse_block_names : ℕ → Bytes → Outcome (List Bytes)
parse_block_names zero hstring = none
parse_block_names (suc fuel) hstring = parse_hollerith_string hstring >>= λ (name, rest).
    elim name [
      | none ↦ returns []
      | some n ↦ elim n [
        | [] ↦ returns []
        | x ∷ s ↦ parse_block_names fuel rest >>= λ names. returns ((x ∷ s) ∷ names)
      ]
    ]

-- `parse_blocks`, from the blocks so far
unfoldable pub parse_blocks : Bytes → List Bytes → Blocks → Outcome Blocks
parse_blocks hstring [] blocks = returns blocks
parse_blocks hstring (name ∷ names) blocks = parse_hollerith_string hstring >>= λ (block, rest).
    parse_blocks rest names (put_block blocks name block)

-- None has no names.
abbrev pub name_bytes : Option Bytes → Bytes
name_bytes none = []
name_bytes (some h) = h

unfoldable pub decode_user_area : Bytes → Outcome Blocks
decode_user_area user_area = parse_hollerith_string user_area >>= λ (h_block_names, h_blocks).
    parse_block_names (suc (length (name_bytes h_block_names))) (name_bytes h_block_names)
    >>= λ names. parse_blocks h_blocks names []

-- Python's order of bytes.
unfoldable pub bytes_lt : Bytes → Bytes → Bool
bytes_lt [] [] = false
bytes_lt [] (y ∷ t) = true
bytes_lt (x ∷ s) [] = false
bytes_lt (x ∷ s) (y ∷ t) =
    let rest = bytes_lt s t in if ltb x y then true else if x == y then rest else false

abbrev pub Entry : Type 0
Entry = Bytes × Bytes

unfoldable pub insert : Entry → List Entry → List Entry
insert e [] = e ∷ []
insert e (f ∷ l) = let rest = insert e l in if bytes_lt f.0 e.0 then f ∷ rest else e ∷ (f ∷ l)

-- The entries in the order of `sorted(blocks.keys())`.
unfoldable pub sort_entries : List Entry → List Entry
sort_entries [] = []
sort_entries (e ∷ l) = insert e (sort_entries l)

-- Each string with a space before it.
unfoldable pub spaced : List Bytes → Bytes
spaced [] = []
spaced (s ∷ l) = b' ' ∷ (to_hstring s ++ spaced l)

unfoldable pub encode_user_area : List Entry → Bytes
encode_user_area blocks =
    let entries = sort_entries blocks in
    to_hstring (spaced (map (λ e. e.0) entries)) ++ spaced (map (λ e. e.1) entries)

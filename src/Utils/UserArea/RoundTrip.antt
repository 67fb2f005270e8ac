-- ===== src/Utils/UserArea/RoundTrip.antt =====
-- utils.py: encoding and decoding a user area, one after the other.
use pylyskom.Base.{
  ℕ, zero, suc, ◌<◌, ◌≤◌, ◌≡◌, refl, sym, ap, ◌∙◌, Bytes, List, [], ◌∷◌, ◌++◌, map, append_assoc,
  append-nil, length, length-append, false, Bool-cases, inl, inr, Option, some, All, All-append,
  arith,
}
use pylyskom.Protocol.{to_hstring}
use pylyskom.Connection.{bytes_eq}
use pylyskom.Utils.Hollerith.{parse_hollerith_string, parse_hollerith_string-to_hstring}
use pylyskom.Utils.UserArea.{
  returns, Blocks, put_block, parse_block_names, parse_blocks, decode_user_area, bytes_lt, Entry,
  insert, sort_entries, spaced, encode_user_area,
}

-- A name with a byte at least.
abbrev pub IsNamed : Entry → Type 0
IsNamed ([], b) = ⊥
IsNamed (x ∷ s, b) = Unit

abbrev Differs : Entry → Entry → Type 0
Differs e f = bytes_eq e.0 f.0 ≡ false

-- No two entries have the same name: the entries of a dict.
abbrev pub AreDistinct : List Entry → Type 0
AreDistinct [] = Unit
AreDistinct (e ∷ l) = All (Differs e) l × AreDistinct l

abbrev pub to_blocks : List Entry → Blocks
to_blocks l = map (λ (n, b). (n, some b)) l

bytes_eq_sym : (s t : Bytes) → bytes_eq s t ≡ bytes_eq t s
unfolding bytes_eq
bytes_eq_sym [] [] = refl
bytes_eq_sym [] (y ∷ t) = refl
bytes_eq_sym (x ∷ s) [] = refl
bytes_eq_sym (x ∷ s) (y ∷ t) = let rest = bytes_eq_sym s t in ground (arith, rest)

All-insert : (P : Entry → Type 0) (e : Entry) (l : List Entry) → P e → All P l → All P (insert e l)
unfolding insert
All-insert P e [] h k = (h, tt)
All-insert P e (f ∷ l) h (k, ks) = elim (Bool-cases (bytes_lt f.0 e.0)) [
  | inl less ↦ rw less (k, All-insert P e l h ks)
  | inr other ↦ rw other (h, (k, ks))
]

insert-AreDistinct :
    (e : Entry) (l : List Entry) → All (Differs e) l → AreDistinct l → AreDistinct (insert e l)
unfolding insert
insert-AreDistinct e [] h k = (tt, tt)
insert-AreDistinct e (f ∷ l) (h, hs) (k, ks) = elim (Bool-cases (bytes_lt f.0 e.0)) [
  | inl less ↦
      rw less
        (All-insert (Differs f) e l (bytes_eq_sym f.0 e.0 ∙ h) k, insert-AreDistinct e l hs ks)
  | inr other ↦ rw other ((h, hs), (k, ks))
]

All-sort_entries : (P : Entry → Type 0) (l : List Entry) → All P l → All P (sort_entries l)
unfolding sort_entries
All-sort_entries P [] h = tt
All-sort_entries P (e ∷ l) (h, hs) = All-insert P e (sort_entries l) h (All-sort_entries P l hs)

sort_entries-AreDistinct : (l : List Entry) → AreDistinct l → AreDistinct (sort_entries l)
unfolding sort_entries
sort_entries-AreDistinct [] h = tt
sort_entries-AreDistinct (e ∷ l) (h, hs) =
    insert-AreDistinct e (sort_entries l) (All-sort_entries (Differs e) l h)
      (sort_entries-AreDistinct l hs)

parse_block_names-spaced :
    (fuel : ℕ) (l : List Entry)
    → All IsNamed l
    → length l < fuel
    → parse_block_names fuel (spaced (map (λ e. e.0) l)) ≡ returns (map (λ e. e.0) l)
unfolding parse_block_names spaced parse_hollerith_string
parse_block_names-spaced zero l h k = absurd (omega arith)
parse_block_names-spaced (suc fuel) [] h k = refl
parse_block_names-spaced (suc fuel) (([], b) ∷ l) h k = absurd h.0
parse_block_names-spaced (suc fuel) ((x ∷ s, b) ∷ l) h k =
    rw
      (
        (parse_hollerith_string-to_hstring (x ∷ s) (spaced (map (λ e. e.0) l))).1,
        parse_block_names-spaced fuel l h.1 (omega (arith, k)),
      )
      refl

put_block-new :
    (blocks : Blocks) (name : Bytes) (b : Option Bytes)
    → All (λ f. bytes_eq f.0 name ≡ false) blocks
    → put_block blocks name b ≡ blocks ++ (name, b) ∷ []
unfolding put_block
put_block-new [] name b h = refl
put_block-new ((n, c) ∷ blocks) name b (h, hs) =
    rw h (ap (λ t. (n, c) ∷ t) (put_block-new blocks name b hs))

-- The entries are named otherwise than the blocks so far.
abbrev Apart : Blocks → List Entry → Type 0
Apart blocks l = All (λ e. All (λ f. bytes_eq f.0 e.0 ≡ false) blocks) l

Apart-append :
    (blocks : Blocks) (n : Bytes) (b : Option Bytes) (l : List Entry)
    → Apart blocks l
    → All (λ f. bytes_eq n f.0 ≡ false) l
    → Apart (blocks ++ (n, b) ∷ []) l
Apart-append blocks n b [] h k = tt
Apart-append blocks n b (e ∷ l) (h, hs) (k, ks) = (
  All-append (λ f. bytes_eq f.0 e.0 ≡ false) blocks ((n, b) ∷ []) h (k, tt),
  Apart-append blocks n b l hs ks,
)

parse_blocks-spaced :
    (l : List Entry) (blocks : Blocks)
    → Apart blocks l
    → AreDistinct l
    → parse_blocks (spaced (map (λ e. e.1) l)) (map (λ e. e.0) l) blocks
      ≡ returns (blocks ++ to_blocks l)
unfolding parse_blocks spaced
parse_blocks-spaced [] blocks h k = ap returns (sym (append-nil blocks))
parse_blocks-spaced ((n, b) ∷ l) blocks (h, hs) (k, ks) =
    rw
      (
        (parse_hollerith_string-to_hstring b (spaced (map (λ e. e.1) l))).1,
        put_block-new blocks n (some b) h,
      )
      (parse_blocks-spaced l (blocks ++ (n, some b) ∷ []) (Apart-append blocks n (some b) l hs k) ks
        ∙ ap returns (append_assoc blocks ((n, some b) ∷ []) (to_blocks l)))

length-spaced : (l : List Entry) → length l ≤ length (spaced (map (λ e. e.0) l))
unfolding spaced
length-spaced [] = omega arith
length-spaced ((n, b) ∷ l) =
    omega (arith, length-spaced l, length-append (to_hstring n) (spaced (map (λ e. e.0) l)))

nothing-Apart : (l : List Entry) → Apart [] l
nothing-Apart [] = tt
nothing-Apart (e ∷ l) = (tt, nothing-Apart l)

-- Blocks with names that are not empty and differ from each other are encoded to a user area that is
-- decoded, without an error or an endless loop, to the same blocks in the order of their names.
pub decode_user_area-encode_user_area :
    (blocks : List Entry)
    → All IsNamed blocks
    → AreDistinct blocks
    → decode_user_area (encode_user_area blocks) ≡ returns (to_blocks (sort_entries blocks))
unfolding decode_user_area encode_user_area
decode_user_area-encode_user_area blocks named distinct =
    let l = sort_entries blocks in
    rw
      ((parse_hollerith_string-to_hstring (spaced (map (λ e. e.0) l))
        (spaced (map (λ e. e.1) l))).0)
      (rw
        (parse_block_names-spaced (suc (length (spaced (map (λ e. e.0) l)))) l
          (All-sort_entries IsNamed blocks named) (omega (arith, length-spaced l)))
        (parse_blocks-spaced l [] (nothing-Apart l) (sort_entries-AreDistinct blocks distinct)))

-- ===== src/Datatypes/MiscInfo/RoundTrip.antt =====
-- datatypes.py: printing and reading the misc-info that a client builds for a new text.
use mathlib.Core.List.{map-append}
use pylyskom.Base.{
  ◌==◌, ◌||◌, ℕ, suc, ◌≡◌, refl, ap, ◌∙◌, inl, true, false, Bytes, List, [], ◌∷◌, ◌++◌,
  append_assoc, append-nil, map, length, contains, All, some, arith,
}
use pylyskom.Result.{ok}
use pylyskom.Protocol.{decimal, read_int, read_int_and_next, read_first_non_ws}
use pylyskom.Datatypes.Basic.{parse_int, join, array_to_string}
use pylyskom.Datatypes.Basic.RoundTrip.{
  ReadsField, SkipsSpace, parse_int-decimal, parse_array-to_string,
}
use pylyskom.Datatypes.MiscInfo.{
  mi_rec_time, mi_sent_at, MiscData, number, RawMiscInfo, MiRecipient, MiCommentTo, CookedMiscInfo,
  new_recipient, new_comment_to, new_misc_info, recipient_types, comment_to_types,
  parse_raw_misc_info, recipient_item, decode_recipient, comment_item, decode_comment, cook_item,
  cook, parse_cooked_misc_info, misc_tuples, tuples_to_string, misc_info_to_string,
}

-- A recipient or a comment as a client gives it: its type, and the conference or text.
abbrev pub Item : Type 0
Item = ℕ × ℕ

abbrev pub IsRecipient : Item → Type 0
IsRecipient (t, n) = contains recipient_types t ≡ true

abbrev pub IsCommentTo : Item → Type 0
IsCommentTo (t, n) = contains comment_to_types t ≡ true

abbrev to_recipient : Item → MiRecipient
to_recipient (t, n) = new_recipient t (number n)

abbrev to_comment : Item → MiCommentTo
to_comment (t, n) = new_comment_to t (number n)

abbrev to_raw : Item → RawMiscInfo
to_raw (t, n) = record { type = t; value = number n }

abbrev to_tuple : Item → ℕ × MiscData
to_tuple (t, n) = (t, number n)

-- The misc-info with these comments and recipients.
abbrev pub outgoing : List Item → List Item → CookedMiscInfo
outgoing cs rs = record {
  recipient_list = map to_recipient rs;
  comment_to_list = map to_comment cs;
  comment_in_list = [];
}

item_to_string : Item → Bytes
item_to_string (t, n) = decimal t ++ b' ' ∷ decimal n

decode_recipient-recipients :
    (r : MiRecipient) (rs : List Item)
    → All IsRecipient rs
    → decode_recipient r (map to_raw rs) ≡ (r, 0)
unfolding decode_recipient recipient_item
decode_recipient-recipients r [] h = refl
decode_recipient-recipients r ((t, n) ∷ rs) h = ground arith

decode_comment-items :
    (c : MiCommentTo) (cs rs : List Item)
    → All IsCommentTo cs
    → All IsRecipient rs
    → decode_comment c (map to_raw cs ++ map to_raw rs) ≡ (c, 0)
unfolding decode_comment comment_item
decode_comment-items c [] [] h k = refl
decode_comment-items c [] ((t, n) ∷ rs) h k = ground arith
decode_comment-items c ((t, n) ∷ cs) rs h k = ground arith

module _ (obj : CookedMiscInfo) (t n : ℕ) where
  cook_item-recipient :
      (rs : List Item)
      → All IsRecipient ((t, n) ∷ rs)
      → cook_item obj (to_raw (t, n)) (map to_raw rs)
        ≡ some (0, record obj { recipient_list = obj.recipient_list ++ to_recipient (t, n) ∷ [] })
  unfolding cook_item
  cook_item-recipient rs h = rw (h.0, decode_recipient-recipients (to_recipient (t, n)) rs h.1) refl

  comment-not-recipient : IsCommentTo (t, n) → contains recipient_types t ≡ false
  comment-not-recipient h = ground arith

  cook_item-comment :
      (cs rs : List Item)
      → All IsCommentTo ((t, n) ∷ cs)
      → All IsRecipient rs
      → cook_item obj (to_raw (t, n)) (map to_raw cs ++ map to_raw rs)
        ≡ some (0, record obj { comment_to_list = obj.comment_to_list ++ to_comment (t, n) ∷ [] })
  unfolding cook_item
  cook_item-comment cs rs h k =
      rw (comment-not-recipient h.0, h.0, decode_comment-items (to_comment (t, n)) cs rs h.1 k) refl

cook-recipients :
    (rs : List Item) (obj : CookedMiscInfo)
    → All IsRecipient rs
    → cook 0 (map to_raw rs) obj
      ≡ ok (record obj { recipient_list = obj.recipient_list ++ map to_recipient rs })
unfolding cook
cook-recipients [] obj h = rw append-nil refl
cook-recipients ((t, n) ∷ rs) obj h =
    rw (cook_item-recipient obj t n rs h, cook) (cook-recipients rs _ h.1 ∙ rw append_assoc refl)

cook-items :
    (cs rs : List Item) (obj : CookedMiscInfo)
    → All IsCommentTo cs
    → All IsRecipient rs
    → cook 0 (map to_raw cs ++ map to_raw rs) obj
      ≡ ok (record obj {
        recipient_list = obj.recipient_list ++ map to_recipient rs;
        comment_to_list = obj.comment_to_list ++ map to_comment cs;
      })
unfolding cook
cook-items [] rs obj h k = cook-recipients rs obj k ∙ rw append-nil refl
cook-items ((t, n) ∷ cs) rs obj h k =
    rw (cook_item-comment obj t n cs rs h k, cook) (cook-items cs rs _ h.1 k ∙ rw append_assoc refl)

items_to_string : List Item → Bytes
items_to_string [] = []
items_to_string ((t, n) ∷ l) = decimal t ++ b' ' ∷ (decimal n ++ b' ' ∷ items_to_string l)

raw_to_string : RawMiscInfo → Bytes
raw_to_string x = elim x.value [ number n ↦ decimal x.type ++ b' ' ∷ decimal n | _ ↦ [] ]

tuples_to_string-items :
    (l : List Item) → tuples_to_string (map to_tuple l) ≡ ok (items_to_string l)
unfolding tuples_to_string items_to_string
tuples_to_string-items [] = refl
tuples_to_string-items ((t, n) ∷ l) = rw (tuples_to_string-items l, tuples_to_string) refl

misc_tuples-outgoing : (cs rs : List Item) → misc_tuples (outgoing cs rs) ≡ map to_tuple (cs ++ rs)
unfolding misc_tuples
misc_tuples-outgoing [] [] = refl
misc_tuples-outgoing [] (r ∷ rs) = ap (λ l. to_tuple r ∷ l) (misc_tuples-outgoing [] rs)
misc_tuples-outgoing (c ∷ cs) rs = ap (λ l. to_tuple c ∷ l) (misc_tuples-outgoing cs rs)

length-to_tuple : (l : List Item) → length (map to_tuple l) ≡ length (map to_raw l)
length-to_tuple [] = refl
length-to_tuple (x ∷ l) = ap suc (length-to_tuple l)

-- Behind each item stands a space, where an array has one between its elements and one behind them.
items-as-join :
    (x : Item) (l : List Item)
    → items_to_string (x ∷ l) ++ b'}' ∷ []
      ≡ join raw_to_string (map to_raw (x ∷ l)) ++ b' ' ∷ b'}' ∷ []
unfolding items_to_string join raw_to_string
items-as-join (t, n) [] = simp append_assoc
items-as-join (t, n) (y ∷ l) =
    let ih = items-as-join y l in
    simp append_assoc
      (ap (λ s. decimal t ++ b' ' ∷ (decimal n ++ b' ' ∷ s)) (simp append_assoc at ih))

items-as-array :
    (l : List Item)
    → decimal (length (map to_raw l)) ++ b' ' ∷ b'{' ∷ b' ' ∷ (items_to_string l ++ b'}' ∷ [])
      ≡ array_to_string raw_to_string (map to_raw l)
unfolding array_to_string items_to_string decimal
items-as-array [] = refl
items-as-array (x ∷ l) =
    ap (λ s. decimal (length (map to_raw (x ∷ l))) ++ b' ' ∷ b'{' ∷ b' ' ∷ s) (items-as-join x l)

misc_info_to_string-outgoing :
    (cs rs : List Item)
    → misc_info_to_string (outgoing cs rs)
      ≡ ok (array_to_string raw_to_string (map to_raw (cs ++ rs)))
unfolding misc_info_to_string
misc_info_to_string-outgoing cs rs =
    let tuples = misc_tuples-outgoing cs rs in
    rw (ap tuples_to_string tuples ∙ tuples_to_string-items (cs ++ rs), misc_info_to_string)
      (rw (ap (λ (l : List (ℕ × MiscData)). length l) tuples ∙ length-to_tuple (cs ++ rs))
        (ap ok (items-as-array (cs ++ rs))))

raw-SkipsSpace : SkipsSpace parse_raw_misc_info
unfolding parse_raw_misc_info parse_int read_int read_int_and_next read_first_non_ws
raw-SkipsSpace s = refl

-- An item that holds a number is read back.
raw-ReadsField :
    (t n : ℕ)
    → (t == mi_rec_time || t == mi_sent_at) ≡ false
    → ReadsField parse_raw_misc_info (raw_to_string (to_raw (t, n))) (to_raw (t, n))
unfolding parse_raw_misc_info raw_to_string
raw-ReadsField t n h rest = inl (simp (append_assoc, parse_int-decimal, h))

recipient-has-number :
    (t n : ℕ) → IsRecipient (t, n) → (t == mi_rec_time || t == mi_sent_at) ≡ false
recipient-has-number t n h = ground arith

comment-has-number : (t n : ℕ) → IsCommentTo (t, n) → (t == mi_rec_time || t == mi_sent_at) ≡ false
comment-has-number t n h = ground arith

items-ReadsField :
    (cs rs : List Item)
    → All IsCommentTo cs
    → All IsRecipient rs
    → All (λ v. ReadsField parse_raw_misc_info (raw_to_string v) v) (map to_raw (cs ++ rs))
items-ReadsField [] [] h k = tt
items-ReadsField [] ((t, n) ∷ rs) h k =
    (raw-ReadsField t n (recipient-has-number t n k.0), items-ReadsField [] rs h k.1)
items-ReadsField ((t, n) ∷ cs) rs h k =
    (raw-ReadsField t n (comment-has-number t n h.0), items-ReadsField cs rs h.1 k)

-- Misc-info built from comments and recipients of the proper types, without the items that a server
-- adds to them, is sent, and what is sent reads back as it was built, whatever follows.
pub parse_cooked_misc_info-to_string :
    (cs rs : List Item) (rest : Bytes)
    → All IsCommentTo cs
    → All IsRecipient rs
    → (bytes : Bytes) × (misc_info_to_string (outgoing cs rs) ≡ ok bytes)
      × (parse_cooked_misc_info (bytes ++ rest) ≡ (ok (outgoing cs rs), rest))
unfolding parse_cooked_misc_info
parse_cooked_misc_info-to_string cs rs rest h k = (
  array_to_string raw_to_string (map to_raw (cs ++ rs)),
  misc_info_to_string-outgoing cs rs,
  rw
      (parse_array-to_string parse_raw_misc_info raw_to_string raw-SkipsSpace
        (map to_raw (cs ++ rs)) rest (items-ReadsField cs rs h k))
      (rw (map-append, cook-items cs rs new_misc_info h k) refl),
)

-- ===== src/Session/Stored.antt =====
-- komsession.py: the aux-items of a text that was made by `create_new_text`, and the content type that
-- `KomText.__init__` finds among them.
use mathlib.Core.Path.{subst}
use pylyskom.Base.{
  ◌<◌, ◌≡◌, refl, ap, ◌∙◌, ◌⊎◌, inl, inr, List, [], ◌∷◌, true, false, ◌==◌, Option, none, some,
  Bytes, All, ltb, arith,
}
use pylyskom.Result.{Result, ok, raise}
use pylyskom.Requests.Request.{◌>>=◌}
use pylyskom.Datatypes.AuxItem.{
  AuxItem, AuxItemInput, first_aux_items_with_tag, all_aux_items_with_tag,
}
use pylyskom.Utils.Mime.{Str}
use pylyskom.Session.Compose.{encode_char, encode_utf8, aux_item, items_of}
use pylyskom.Session.Reading.{content_type_of}

-- A text has the aux-items that it was created with, in their order, and perhaps others behind.
abbrev pub AreStored : List AuxItemInput → List AuxItem → Type 0
AreStored [] stored = Unit
AreStored (i ∷ items) [] = ⊥
AreStored (i ∷ items) (a ∷ stored) = (a.tag ≡ i.tag) × (a.value ≡ i.value) × AreStored items stored

abbrev pub IsAscii : Str → Type 0
IsAscii s = All (λ c. c < 128) s

encode_utf8-ascii : (s : Str) → IsAscii s → encode_utf8 s ≡ ok s
unfolding encode_utf8 encode_char
encode_utf8-ascii [] h = refl
encode_utf8-ascii (c ∷ s) (small, h) =
    let one : ltb c 128 ≡ true = ground (arith, small) in
    rw (one, encode_utf8, encode_utf8-ascii s h) refl

content_type-first :
    (a : AuxItem) (stored : List AuxItem) → a.tag ≡ 1 → content_type_of (a ∷ stored) ≡ a.value
unfolding content_type_of first_aux_items_with_tag all_aux_items_with_tag
content_type-first a stored h =
    let found : (a.tag == 1) ≡ true = ap (λ n. n == 1) h in rw (found, content_type_of) refl

content_type-behind :
    (a : AuxItem) (stored : List AuxItem)
    → a.tag ≡ 15
    → content_type_of (a ∷ stored) ≡ content_type_of stored
unfolding content_type_of first_aux_items_with_tag all_aux_items_with_tag
content_type-behind a stored h =
    let other : (a.tag == 1) ≡ false = ap (λ n. n == 1) h in rw (other, content_type_of) refl

-- The items of a new text are its content type, perhaps behind the creating software.
abbrev IsTyped : Str → List AuxItemInput → Type 0
IsTyped type items =
    (items ≡ aux_item 1 type ∷ []) ⊎ ((s : Bytes) × (items ≡ aux_item 15 s ∷ aux_item 1 type ∷ []))

items_of-IsTyped :
    (software : Option Str) (type : Str) (items : List AuxItemInput)
    → IsAscii type
    → items_of software type ≡ ok items
    → IsTyped type items
unfolding items_of
items_of-IsTyped none type items h e =
    let x : ok (aux_item 1 type ∷ []) ≡ ok items = (rw (encode_utf8-ascii type h) at e) in inl cc
items_of-IsTyped (some software) type items h e =
    made (encode_utf8 software) ((rw (encode_utf8-ascii type h, items_of) at e))
  where
    made :
        (r : Result Bytes)
        → (do s ← r; t ← ok type; ok (aux_item 15 s ∷ aux_item 1 t ∷ [])) ≡ ok items
        → IsTyped type items
    made (ok s) x = inr (s, cc)
    made (raise k) x = absurd cc

-- The content type that is found among the stored items is the one that the text was made with.
pub content_type_of-items_of :
    (software : Option Str) (type : Str) (items : List AuxItemInput) (stored : List AuxItem)
    → IsAscii type
    → items_of software type ≡ ok items
    → AreStored items stored
    → content_type_of stored ≡ type
unfolding aux_item
content_type_of-items_of software type items stored h e there =
    elim (items_of-IsTyped software type items h e) [
      | inl one ↦ alone stored (subst (λ l. AreStored l stored) one there)
      | inr (s, two) ↦ behind s stored (subst (λ l. AreStored l stored) two there)
    ]
  where
    alone :
        (stored : List AuxItem)
        → AreStored (aux_item 1 type ∷ []) stored
        → content_type_of stored ≡ type
    alone [] there = absurd there
    alone (a ∷ stored) (tag, value, others) = content_type-first a stored tag ∙ value

    behind :
        (s : Bytes) (stored : List AuxItem)
        → AreStored (aux_item 15 s ∷ aux_item 1 type ∷ []) stored
        → content_type_of stored ≡ type
    behind s [] there = absurd there
    behind s (a ∷ stored) (tag, value, others) =
        content_type-behind a stored tag ∙ alone stored others

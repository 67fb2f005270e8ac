-- ===== src/Datatypes/MiscInfo.antt =====
-- datatypes.py: misc-info. The server sends a flat list of tagged items; the client groups each
-- recipient or comment with the items behind it that belong to it.
pub mod RoundTrip
use pylyskom.Base.{
  ℕ, zero, suc, ◌+◌, ◌-◌, ◌≡◌, refl, Bytes, List, [], ◌∷◌, ◌++◌, Bool, ◌||◌, if◌then◌else◌, ◌==◌,
  Option, none, some, length, map, contains,
}
use pylyskom.Result.{Result, ok, raise, protocol_error, type_error}
use pylyskom.Exec.{pure, lift, ◌>>=◌}
use pylyskom.Exec.Stable.{Stable-pure, Stable-lift, Stable-bind, Stable-if}
use pylyskom.Protocol.{Parser, decimal}
use pylyskom.Protocol.Stable.{IsStable}
use pylyskom.Datatypes.Basic.{parse_int, parse_array}
use pylyskom.Datatypes.Basic.Stable.{parse_int-Stable, parse_array-Stable}
use pylyskom.Datatypes.Time.{Time, parse_time, parse_time-Stable}

abbrev pub mi_recpt : ℕ
mi_recpt = 0

abbrev pub mi_cc_recpt : ℕ
mi_cc_recpt = 1

abbrev pub mi_comm_to : ℕ
mi_comm_to = 2

abbrev pub mi_comm_in : ℕ
mi_comm_in = 3

abbrev pub mi_footn_to : ℕ
mi_footn_to = 4

abbrev pub mi_footn_in : ℕ
mi_footn_in = 5

abbrev pub mi_loc_no : ℕ
mi_loc_no = 6

abbrev pub mi_rec_time : ℕ
mi_rec_time = 7

abbrev pub mi_sent_by : ℕ
mi_sent_by = 8

abbrev pub mi_sent_at : ℕ
mi_sent_at = 9

abbrev pub mi_bcc_recpt : ℕ
mi_bcc_recpt = 15

abbrev pub mir_to : ℕ
mir_to = mi_recpt

-- What `RawMiscInfo.data` may hold.
pub data MiscData : Type 0 where
  time : Time → MiscData
  number : ℕ → MiscData

pub record RawMiscInfo : Type 0 where
  pub type : ℕ
  pub value : MiscData

unfoldable pub parse_raw_misc_info : Parser RawMiscInfo
parse_raw_misc_info = do
  type ← parse_int
  if type == mi_rec_time || type == mi_sent_at
      then (do t ← parse_time; pure (record { type = type; value = time t }))
      else (do n ← parse_int; pure (record { type = type; value = number n }))

pub record MiRecipient : Type 0 where
  pub type : ℕ
  pub recpt : MiscData
  pub loc_no : Option MiscData
  pub rec_time : Option MiscData
  pub sent_by : Option MiscData
  pub sent_at : Option MiscData

abbrev pub new_recipient : ℕ → MiscData → MiRecipient
new_recipient type recpt = record {
  type = type;
  recpt = recpt;
  loc_no = none;
  rec_time = none;
  sent_by = none;
  sent_at = none;
}

-- One round of `MIRecipient.decode_additional`: `none` where it returns.
unfoldable pub recipient_item : MiRecipient → RawMiscInfo → Option MiRecipient
recipient_item r x =
    if x.type == mi_loc_no
    then some (record r { loc_no = some x.value })
    else if x.type == mi_rec_time
    then some (record r { rec_time = some x.value })
    else if x.type == mi_sent_by
    then some (record r { sent_by = some x.value })
    else if x.type == mi_sent_at
    then some (record r { sent_at = some x.value })
    else none

-- `MIRecipient.decode_additional` on `raw[i:]`: the recipient, and how far `i` went.
unfoldable pub decode_recipient : MiRecipient → List RawMiscInfo → MiRecipient × ℕ
decode_recipient r [] = (r, 0)
decode_recipient r (x ∷ raw) = elim (recipient_item r x) [
  | none ↦ (r, 0)
  | some r' ↦ let (r'', i) = decode_recipient r' raw in (r'', i + 1)
]

pub record MiCommentTo : Type 0 where
  pub type : ℕ
  pub text_no : MiscData
  pub sent_by : Option MiscData
  pub sent_at : Option MiscData

abbrev pub new_comment_to : ℕ → MiscData → MiCommentTo
new_comment_to type text_no = record {
  type = type;
  text_no = text_no;
  sent_by = none;
  sent_at = none;
}

unfoldable pub comment_item : MiCommentTo → RawMiscInfo → Option MiCommentTo
comment_item c x =
    if x.type == mi_sent_by
    then some (record c { sent_by = some x.value })
    else if x.type == mi_sent_at
    then some (record c { sent_at = some x.value })
    else none

-- `MICommentTo.decode_additional` on `raw[i:]`.
unfoldable pub decode_comment : MiCommentTo → List RawMiscInfo → MiCommentTo × ℕ
decode_comment c [] = (c, 0)
decode_comment c (x ∷ raw) = elim (comment_item c x) [
  | none ↦ (c, 0)
  | some c' ↦ let (c'', i) = decode_comment c' raw in (c'', i + 1)
]

pub record MiCommentIn : Type 0 where
  pub type : ℕ
  pub text_no : MiscData

pub record CookedMiscInfo : Type 0 where
  pub recipient_list : List MiRecipient
  pub comment_to_list : List MiCommentTo
  pub comment_in_list : List MiCommentIn

abbrev pub new_misc_info : CookedMiscInfo
new_misc_info = record { recipient_list = []; comment_to_list = []; comment_in_list = [] }

abbrev pub recipient_types : List ℕ
recipient_types = mi_recpt ∷ mi_cc_recpt ∷ mi_bcc_recpt ∷ []

abbrev pub comment_to_types : List ℕ
comment_to_types = mi_comm_to ∷ mi_footn_to ∷ []

abbrev pub comment_in_types : List ℕ
comment_in_types = mi_comm_in ∷ mi_footn_in ∷ []

-- One round of the `while` of `CookedMiscInfo.parse` at `raw[i] = x`: how many of the items behind
-- `x` it took, and the object; `none` where it raises.
unfoldable pub cook_item :
    CookedMiscInfo → RawMiscInfo → List RawMiscInfo → Option (ℕ × CookedMiscInfo)
cook_item obj x raw =
    if contains recipient_types x.type
    then (let (r, i) = decode_recipient (new_recipient x.type x.value) raw in
        some (i, record obj { recipient_list = obj.recipient_list ++ r ∷ [] }))
    else if contains comment_to_types x.type
    then (let (ct, i) = decode_comment (new_comment_to x.type x.value) raw in
        some (i, record obj { comment_to_list = obj.comment_to_list ++ ct ∷ [] }))
    else if contains comment_in_types x.type
    then some (
      0,
      record obj {
        comment_in_list =
            obj.comment_in_list ++ record { type = x.type - 1; text_no = x.value } ∷ [];
      },
    )
    else none

-- The `while`: `n` items are still to be passed, since an earlier round took them.
unfoldable pub cook : ℕ → List RawMiscInfo → CookedMiscInfo → Result CookedMiscInfo
cook n [] obj = ok obj
cook (suc n) (x ∷ raw) obj = cook n raw obj
cook zero (x ∷ raw) obj = elim (cook_item obj x raw) [
  | none ↦ raise protocol_error
  | some (i, obj') ↦ cook i raw obj'
]

unfoldable pub parse_cooked_misc_info : Parser CookedMiscInfo
parse_cooked_misc_info = do raw ← parse_array parse_raw_misc_info; lift (cook 0 raw new_misc_info)

-- `get_tuples` of the three kinds of item: a comment in cannot be sent.
unfoldable pub misc_tuples : CookedMiscInfo → List (ℕ × MiscData)
misc_tuples m =
    map (λ (c : MiCommentTo). (c.type, c.text_no)) m.comment_to_list
    ++ map (λ (r : MiRecipient). (r.type, r.recpt)) m.recipient_list

-- `b"%d %d "` for each tuple; `%d` of a time is a TypeError.
unfoldable pub tuples_to_string : List (ℕ × MiscData) → Result Bytes
tuples_to_string [] = ok []
tuples_to_string ((t, time _) ∷ l) = raise type_error
tuples_to_string ((t, number n) ∷ l) = elim (tuples_to_string l) [
  | ok s ↦ ok (decimal t ++ b' ' ∷ (decimal n ++ b' ' ∷ s))
  | raise e ↦ raise e
]

unfoldable pub misc_info_to_string : CookedMiscInfo → Result Bytes
misc_info_to_string m = elim (tuples_to_string (misc_tuples m)) [
  | ok s ↦ ok (decimal (length (misc_tuples m)) ++ b' ' ∷ b'{' ∷ b' ' ∷ (s ++ b'}' ∷ []))
  | raise e ↦ raise e
]

pub parse_raw_misc_info-Stable : IsStable parse_raw_misc_info
unfolding parse_raw_misc_info
parse_raw_misc_info-Stable = Stable-bind parse_int-Stable λ type.
    Stable-if _ (Stable-bind parse_time-Stable λ _. Stable-pure _)
      (Stable-bind parse_int-Stable λ _. Stable-pure _)

pub parse_cooked_misc_info-Stable : IsStable parse_cooked_misc_info
unfolding parse_cooked_misc_info
parse_cooked_misc_info-Stable =
    Stable-bind (parse_array-Stable parse_raw_misc_info-Stable) λ raw. Stable-lift _

-- ===== src/Session/Reading.antt =====
-- komsession.py: `KomText.__init__` and the reading of texts. `parse_mime_type` and the codecs
-- (`decode`) are parameters.
use pylyskom.Base.{
  ℕ, Bytes, List, [], ◌∷◌, ◌++◌, Bool, true, false, ◌&&◌, Option, none, some, ◌==◌, if◌then◌else◌,
}
use mathlib.Core.List.{reverse}
use pylyskom.Result.{Result, ok, raise}
use pylyskom.Exec.{Exec, pure, lift, ◌>>=◌}
use pylyskom.Connection.{bytes_eq}
use pylyskom.Datatypes.Time.{Time}
use pylyskom.Datatypes.AuxItem.{AuxItem, first_aux_items_with_tag}
use pylyskom.Datatypes.MiscInfo.{MiRecipient, MiCommentTo, MiCommentIn}
use pylyskom.Datatypes.Text.{TextStat}
use pylyskom.Requests.Request.{number}
use pylyskom.Requests.Calls.To33.{req_get_text}
use pylyskom.Requests.Calls.To122.{req_local_to_global_reverse}
use pylyskom.Utils.Mime.{
  MimeType, Str, Decoding, decode_text, parse_content_type, mime_type_tuple_to_str, text_type,
  x_kom,
}
use pylyskom.Caching
use pylyskom.Caching.{ClientApi, ask}
use pylyskom.Caching.Names.{as_string}
use pylyskom.Caching.Unread.{as_text_mapping, existing}
use pylyskom.Session.{KomSession, each, on_client, check_connection}
use pylyskom.Session.Kom.{KomPerson, KomAuxItem}
use pylyskom.Session.Texts.{text_stat_of}
use pylyskom.Session.Compose.{Body, body_str, body_bytes, user_area}

-- A KomText made with a text-stat.
pub record KomText : Type 0 where
  pub text_no : ℕ
  pub text : Option Bytes
  pub aux_items : List KomAuxItem
  pub author : KomPerson
  pub text_content_type : Str
  pub content_type : Str
  pub subject : Option Str
  pub body : Option Body
  pub creation_time : Time
  pub no_of_marks : ℕ
  pub recipient_list : List MiRecipient
  pub comment_to_list : List MiCommentTo
  pub comment_in_list : List MiCommentIn

-- text.split(b'\n', 1), and `none` for the first part where there is no linefeed
unfoldable pub split_line : Bytes → Option Bytes × Bytes
split_line [] = (none, [])
split_line (c ∷ s) =
    let rest = split_line s in
    if c == 10
    then (some [], s)
    else elim rest.0 [ none ↦ (none, c ∷ s) | some line ↦ (some (c ∷ line), rest.1) ]

-- "text/plain"
abbrev pub text_plain : Str
text_plain = text_type ++ b'/' ∷ b'p' ∷ b'l' ∷ b'a' ∷ b'i' ∷ b'n' ∷ []

-- KomText._get_content_type_from_text_stat
unfoldable pub content_type_of : List AuxItem → Str
content_type_of aux_items = elim (first_aux_items_with_tag aux_items 1) [
  | none ↦ text_plain
  | some a ↦ a.value
]

module _ (decode : Str → Bytes → Decoding) where
  unfoldable pub decode_line : Option Str → Option Bytes → Result Str
  decode_line encoding none = ok []
  decode_line encoding (some line) = decode_text decode line encoding

  unfoldable pub decode_body : Bool → Option Str → Bytes → Result Body
  decode_body false encoding rawbody = ok (body_bytes rawbody)
  decode_body true encoding rawbody = elim (decode_text decode rawbody encoding) [
    | ok s ↦ ok (body_str s)
    | raise e ↦ raise e
  ]

  unfoldable pub with_subject : Result Str → Result Body → Result (Option Str × Option Body)
  with_subject (raise e) body = raise e
  with_subject (ok subject) (raise e) = raise e
  with_subject (ok subject) (ok body) = ok (some subject, some body)

  unfoldable pub decode_area : Result Str → Result (Option Str × Option Body)
  decode_area (raise e) = raise e
  decode_area (ok s) = ok (none, some (body_str s))

  -- KomText._decode_text
  unfoldable pub decode_parts :
      Option Bytes → MimeType → Option Str → Result (Option Str × Option Body)
  decode_parts none m encoding = ok (none, none)
  decode_parts (some text) m encoding =
      if bytes_eq m.main x_kom && bytes_eq m.sub user_area
      then decode_area (decode_text decode text encoding)
      else with_subject (decode_line encoding (split_line text).0)
          (decode_body (bytes_eq m.main text_type) encoding (split_line text).1)

  module _ (parse_mime_type : Str → Result MimeType) where
    unfoldable pub parts_as :
        Option Bytes → Result (MimeType × Option Str) → Result (Str × Option Str × Option Body)
    parts_as text (raise e) = raise e
    parts_as text (ok (m, encoding)) = elim (decode_parts text m encoding) [
      | raise e ↦ raise e
      | ok (subject, body) ↦ ok (mime_type_tuple_to_str m, subject, body)
    ]

    -- The content type, the subject and the body that `KomText.__init__` finds.
    unfoldable pub read_parts : Option Bytes → Str → Result (Str × Option Str × Option Body)
    read_parts text text_content_type =
        parts_as text (parse_content_type parse_mime_type text_content_type)

    module _ {S : Type 0} (api : ClientApi S) where
      -- KomSession._get_komtext
      unfoldable pub text_of : ℕ → Option Bytes → TextStat → Exec (KomSession S) KomText
      text_of text_no text t = do
        ks ← text_stat_of api text_no t
        parts ← lift (read_parts text (content_type_of t.aux_items))
        pure (record {
          text_no = text_no;
          text = text;
          aux_items = ks.aux_items;
          author = ks.author;
          text_content_type = content_type_of t.aux_items;
          content_type = parts.0;
          subject = parts.1;
          body = parts.2;
          creation_time = t.creation_time;
          no_of_marks = t.no_of_marks;
          recipient_list = t.misc_info.recipient_list;
          comment_to_list = t.misc_info.comment_to_list;
          comment_in_list = t.misc_info.comment_in_list;
        })

      unfoldable pub last_text : ℕ → Exec (KomSession S) KomText
      last_text n = on_client (Caching.get_textstat api n) >>= λ t. text_of n none t

      module _ (close : S → Result (Unit {0})) where
        -- KomSession.get_text
        unfoldable pub get_text : ℕ → Exec (KomSession S) KomText
        get_text text_no = check_connection close do
          t ← on_client (Caching.get_textstat api text_no)
          text ← on_client (ask api as_string req_get_text (number text_no ∷ []))
          text_of text_no (some text) t

        -- KomSession.get_last_texts
        unfoldable pub get_last_texts : ℕ → ℕ → Exec (KomSession S) (List KomText)
        get_last_texts conf_no no_of_texts = check_connection close do
          mapping ← on_client (
              ask api as_text_mapping req_local_to_global_reverse
                (number conf_no ∷ number 0 ∷ number no_of_texts ∷ []))
          texts ← each last_text (existing mapping.list)
          pure (reverse texts)

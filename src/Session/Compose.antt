-- ===== src/Session/Compose.antt =====
-- komsession.py: `KomText.create_new_text`, and `KomSession.create_text`. `parse_mime_type` and
-- base64 are parameters.
use pylyskom.Base.{
  ℕ, ◌+◌, ◌/◌, ◌%◌, Bytes, List, [], ◌∷◌, ◌++◌, ◌&&◌, leb, ltb, Option, none, some, if◌then◌else◌,
}
use pylyskom.Result.{Result, ok, raise, type_error, value_error, session_error, unspecified}
use pylyskom.Exec
use pylyskom.Exec.{Exec, pure, lift}
use pylyskom.Connection.{bytes_eq}
use pylyskom.Datatypes.AuxItem.{AuxItemInput}
use pylyskom.Datatypes.MiscInfo
use pylyskom.Datatypes.MiscInfo.{
  MiRecipient, MiCommentTo, CookedMiscInfo, mi_recpt, mi_cc_recpt, mi_bcc_recpt, mi_comm_to,
  mi_footn_to, new_recipient, new_comment_to, new_misc_info,
}
use pylyskom.Requests.Request.{bytes, cooked, aux_items, encode_latin1, ◌>>=◌}
use pylyskom.Requests.Calls.To88.{req_create_text}
use pylyskom.Utils.Mime.{
  MimeType, Str, parse_content_type, mime_type_tuple_to_str, text_type, x_kom, charset,
  without_param,
}
use pylyskom.Caching.{ClientApi, ask}
use pylyskom.Session.{KomSession, on_client, check_connection, as_int}

-- str.encode('utf-8') of one character; half of a surrogate pair cannot be encoded.
unfoldable pub encode_char : ℕ → Result Bytes
encode_char c =
    if ltb c 128
    then ok (c ∷ [])
    else if ltb c 2048
    then ok ((192 + c / 64) ∷ (128 + c % 64) ∷ [])
    else if leb 55296 c && ltb c 57344
    then raise value_error
    else if ltb c 65536
    then ok ((224 + c / 4096) ∷ (128 + (c / 64) % 64) ∷ (128 + c % 64) ∷ [])
    else ok
        ((240 + c / 262144) ∷ (128 + (c / 4096) % 64) ∷ (128 + (c / 64) % 64) ∷ (128 + c % 64) ∷ [])

unfoldable pub encode_utf8 : Str → Result Bytes
encode_utf8 [] = ok []
encode_utf8 (c ∷ s) = do x ← encode_char c; rest ← encode_utf8 s; ok (x ++ rest)

-- A body is a str, or bytes where it was given in base64.
pub data Body : Type 0 where
  body_str : Str → Body
  body_bytes : Bytes → Body

-- "user-area", "image", "utf-8", "base64"
abbrev pub user_area : Str
user_area = b'u' ∷ b's' ∷ b'e' ∷ b'r' ∷ b'-' ∷ b'a' ∷ b'r' ∷ b'e' ∷ b'a' ∷ []

abbrev pub image : Str
image = b'i' ∷ b'm' ∷ b'a' ∷ b'g' ∷ b'e' ∷ []

abbrev pub utf_8 : Str
utf_8 = b'u' ∷ b't' ∷ b'f' ∷ b'-' ∷ b'8' ∷ []

abbrev pub base64 : Str
base64 = b'b' ∷ b'a' ∷ b's' ∷ b'e' ∷ b'6' ∷ b'4' ∷ []

-- The three branches for `fulltext`; a subject that is not there, and a body of the wrong kind,
-- raise what Python's + and encode raise.
unfoldable pub text_fulltext : Option Str → Body → Result Bytes
text_fulltext (some subject) (body_str body) = encode_utf8 (subject ++ 10 ∷ body)
text_fulltext _ _ = raise type_error

unfoldable pub user_area_fulltext : Body → Result Bytes
user_area_fulltext (body_str body) = encode_latin1 body
user_area_fulltext (body_bytes body) = raise unspecified

unfoldable pub image_fulltext : Option Str → Body → Result Bytes
image_fulltext none body = raise unspecified
image_fulltext (some subject) (body_bytes body) = do s ← encode_latin1 subject; ok (s ++ 10 ∷ body)
image_fulltext (some subject) (body_str body) = do s ← encode_latin1 subject; raise type_error

unfoldable pub fulltext_of : MimeType → Option Str → Body → Result Bytes
fulltext_of m subject body =
    if bytes_eq m.main text_type
    then text_fulltext subject body
    else if bytes_eq m.main x_kom && bytes_eq m.sub user_area
    then user_area_fulltext body
    else if bytes_eq m.main image
    then image_fulltext subject body
    else raise session_error

-- The type of the encoded text: a text gets `charset=utf-8`, which it did not have.
unfoldable pub final_type : MimeType → MimeType
final_type m =
    if bytes_eq m.main text_type
    then record m { params = without_param charset m.params ++ (charset, utf_8) ∷ [] }
    else m

-- MIRecipient_str_to_type
unfoldable pub recipient_type : Str → Result ℕ
recipient_type s =
    if bytes_eq s (b't' ∷ b'o' ∷ [])
    then ok mi_recpt
    else if bytes_eq s (b'c' ∷ b'c' ∷ [])
    then ok mi_cc_recpt
    else if bytes_eq s (b'b' ∷ b'c' ∷ b'c' ∷ [])
    then ok mi_bcc_recpt
    else raise unspecified

-- MICommentTo_str_to_type, on "comment" and "footnote"
unfoldable pub comment_type : Str → Result ℕ
comment_type s =
    if bytes_eq s (b'c' ∷ b'o' ∷ b'm' ∷ b'm' ∷ b'e' ∷ b'n' ∷ b't' ∷ [])
    then ok mi_comm_to
    else if bytes_eq s (b'f' ∷ b'o' ∷ b'o' ∷ b't' ∷ b'n' ∷ b'o' ∷ b't' ∷ b'e' ∷ [])
    then ok mi_footn_to
    else raise unspecified

unfoldable pub recipients_of : List (Str × ℕ) → Result (List MiRecipient)
recipients_of [] = ok []
recipients_of ((type, conf_no) ∷ l) = do
  n ← recipient_type type
  rest ← recipients_of l
  ok (new_recipient n (MiscInfo.number conf_no) ∷ rest)

unfoldable pub comments_of : List (Str × ℕ) → Result (List MiCommentTo)
comments_of [] = ok []
comments_of ((type, text_no) ∷ l) = do
  n ← comment_type type
  rest ← comments_of l
  ok (new_comment_to n (MiscInfo.number text_no) ∷ rest)

-- AuxItemInput(tag=..., data=...)
unfoldable pub aux_item : ℕ → Bytes → AuxItemInput
aux_item tag value = record {
  tag = tag;
  flags = 0 ∷ 0 ∷ 0 ∷ 0 ∷ 0 ∷ 0 ∷ 0 ∷ 0 ∷ [];
  inherit_limit = 0;
  value = value;
}

-- Of a KomText, what `create_text` sends.
pub record NewText : Type 0 where
  pub fulltext : Bytes
  pub recipient_list : List MiRecipient
  pub comment_to_list : List MiCommentTo
  pub items : List AuxItemInput

-- The aux-items: the creating software (15), and the content type (1).
unfoldable pub items_of : Option Str → Str → Result (List AuxItemInput)
items_of none type = do t ← encode_utf8 type; ok (aux_item 1 t ∷ [])
items_of (some software) type = do
  s ← encode_utf8 software
  t ← encode_utf8 type
  ok (aux_item 15 s ∷ aux_item 1 t ∷ [])

module _ (parse_mime_type : Str → Result MimeType) where
  -- The content type is parsed, printed without its charset, and parsed again.
  unfoldable pub reparsed : Str → Result MimeType
  reparsed content_type = do
    w ← parse_content_type parse_mime_type content_type
    parse_mime_type (mime_type_tuple_to_str w.0)

  -- KomText.create_new_text
  unfoldable pub create_new_text :
      Option Str → Body → Str → Option Str → List (Str × ℕ) → List (Str × ℕ) → Result NewText
  create_new_text subject body content_type creating_software recipient_list comment_to_list = do
    m ← reparsed content_type
    fulltext ← fulltext_of m subject body
    recipients ← recipients_of recipient_list
    comments ← comments_of comment_to_list
    items ← items_of creating_software (mime_type_tuple_to_str (final_type m))
    ok (record {
      fulltext = fulltext;
      recipient_list = recipients;
      comment_to_list = comments;
      items = items;
    })

-- The `if content_encoding is not None`.
unfoldable pub body_of : (Str → Result Bytes) → Option Str → Str → Result Body
body_of b64decode none body = ok (body_str body)
body_of b64decode (some encoding) body =
    if bytes_eq encoding base64
    then (do decoded ← b64decode body; ok (body_bytes decoded))
    else raise value_error

-- "%s" of a name that may be None.
unfoldable pub shown : Option Str → Str
shown none = b'N' ∷ b'o' ∷ b'n' ∷ b'e' ∷ []
shown (some s) = s

module _ {S : Type 0} (api : ClientApi S) (close : S → Result (Unit {0}))
    (parse_mime_type : Str → Result MimeType) (b64decode : Str → Result Bytes) where
  unfoldable pub send_new_text : NewText → Exec (KomSession S) ℕ
  send_new_text t = on_client (
      ask api as_int req_create_text (
        bytes t.fulltext
        ∷ cooked (record new_misc_info {
          recipient_list = t.recipient_list;
          comment_to_list = t.comment_to_list;
        })
        ∷ aux_items t.items
        ∷ []))

  -- The text that `create_text` makes in the session.
  unfoldable pub new_text :
      KomSession S
      → Option Str
      → Str
      → Str
      → Option Str
      → List (Str × ℕ)
      → List (Str × ℕ)
      → Result NewText
  new_text s subject body content_type content_encoding recipient_list comment_to_list = do
    b ← body_of b64decode content_encoding body
    create_new_text parse_mime_type subject b content_type
        (some (shown s.client_name ++ b' ' ∷ shown s.client_version)) recipient_list comment_to_list

  -- KomSession.create_text
  unfoldable pub create_text :
      Option Str → Str → Str → Option Str → List (Str × ℕ) → List (Str × ℕ) → Exec (KomSession S) ℕ
  create_text subject body content_type content_encoding recipient_list comment_to_list =
      check_connection close (λ s.
        Exec.◌>>=◌
          (lift
            (new_text s subject body content_type content_encoding recipient_list comment_to_list))
          send_new_text s)

-- ===== src/Utils/Mime.antt =====
-- utils.py: content types and the decoding of texts. `mimeparse.parse_mime_type` and Python's codecs
-- are parameters; a str is the numbers of its characters.
use pylyskom.Base.{ℕ, Bytes, List, [], ◌∷◌, ◌++◌, ◌&&◌, Option, none, some, if◌then◌else◌}
use pylyskom.Result.{Result, ok, raise, unspecified}
use pylyskom.Connection.{bytes_eq}

abbrev pub Str : Type 0
Str = List ℕ

-- A dict from str to str.
abbrev pub Params : Type 0
Params = List (Str × Str)

-- The type, the subtype and the parameters.
pub record MimeType : Type 0 where
  pub main : Str
  pub sub : Str
  pub params : Params

-- "x-kom", "text", "x-kom-basic", "charset", "x-ctext", "latin1"
abbrev pub x_kom : Str
x_kom = b'x' ∷ b'-' ∷ b'k' ∷ b'o' ∷ b'm' ∷ []

abbrev pub text_type : Str
text_type = b't' ∷ b'e' ∷ b'x' ∷ b't' ∷ []

abbrev pub x_kom_basic : Str
x_kom_basic = x_kom ++ b'-' ∷ b'b' ∷ b'a' ∷ b's' ∷ b'i' ∷ b'c' ∷ []

abbrev pub charset : Str
charset = b'c' ∷ b'h' ∷ b'a' ∷ b'r' ∷ b's' ∷ b'e' ∷ b't' ∷ []

abbrev pub x_ctext : Str
x_ctext = b'x' ∷ b'-' ∷ b'c' ∷ text_type

abbrev pub latin1 : Str
latin1 = b'l' ∷ b'a' ∷ b't' ∷ b'i' ∷ b'n' ∷ b'1' ∷ []

unfoldable pub param : Str → Params → Option Str
param key [] = none
param key ((k, v) ∷ params) = let rest = param key params in if bytes_eq k key then some v else rest

unfoldable pub without_param : Str → Params → Params
without_param key [] = []
without_param key ((k, v) ∷ params) =
    let rest = without_param key params in if bytes_eq k key then rest else (k, v) ∷ rest

-- x-kom/text is another name of text/x-kom-basic.
unfoldable pub named : MimeType → MimeType
named m =
    if bytes_eq m.main x_kom && bytes_eq m.sub text_type
    then record m { main = text_type; sub = x_kom_basic }
    else m

unfoldable pub known_encoding : Option Str → Option Str
known_encoding none = none
known_encoding (some e) = if bytes_eq e x_ctext then some latin1 else some e

unfoldable pub content_type_of : MimeType → MimeType × Option Str
content_type_of m =
    (record m { params = without_param charset m.params }, known_encoding (param charset m.params))

-- parse_content_type, with what `parse_mime_type` returned or raised
unfoldable pub parse_content_type : (Str → Result MimeType) → Str → Result (MimeType × Option Str)
parse_content_type parse_mime_type content_type = elim (parse_mime_type content_type) [
  | ok m ↦ ok (content_type_of (named m))
  | raise e ↦ raise unspecified
]

-- ";" and "k=v" for each parameter
unfoldable pub params_to_str : Params → Str
params_to_str [] = []
params_to_str ((k, v) ∷ params) = b';' ∷ (k ++ b'=' ∷ (v ++ params_to_str params))

-- mime_type_tuple_to_str
unfoldable pub mime_type_tuple_to_str : MimeType → Str
mime_type_tuple_to_str m = m.main ++ b'/' ∷ (m.sub ++ params_to_str m.params)

-- What bytes.decode(encoding) does: LookupError, UnicodeDecodeError, or the str.
pub data Decoding : Type 0 where
  unknown_encoding malformed : Decoding
  decoded : Str → Decoding

-- The outcome of the second attempt, where an exception is raised on.
unfoldable pub backed_up : Decoding → Result Str
backed_up (decoded s) = ok s
backed_up _ = raise unspecified

-- decode_text, with its default `backup_encoding`
unfoldable pub decode_text : (Str → Bytes → Decoding) → Bytes → Option Str → Result Str
decode_text decode text encoding =
    let backup = backed_up (decode latin1 text) in
    elim (decode (elim encoding [ none ↦ latin1 | some e ↦ e ]) text) [
      | decoded s ↦ ok s
      | unknown_encoding ↦ backup
      | malformed ↦ backup
    ]

-- ===== src/Session/UserAreas.antt =====
-- komsession.py: the blocks of a user area. JSON, the codecs and `parse_mime_type` are parameters.
-- `none` where `decode_user_area` never returns.
use pylyskom.Base.{
  ℕ, Bytes, List, [], ◌∷◌, ◌++◌, Bool, true, false, Option, none, some, ◌==◌, if◌then◌else◌,
}
use pylyskom.Result.{Result, ok, raise, value_error, session_error, unspecified}
use pylyskom.Exec.{Exec, pure, lift, ◌>>=◌}
use pylyskom.Connection.{bytes_eq}
use pylyskom.Requests.Request.{number, encode_latin1}
use pylyskom.Requests.Calls.To62.{req_get_person_stat, req_set_user_area}
use pylyskom.Utils.Mime.{MimeType, Str, Decoding, decoded, x_kom}
use pylyskom.Utils.UserArea.{Blocks, Entry, put_block, decode_user_area, encode_user_area}
use pylyskom.Caching.{ClientApi, ask, as_person}
use pylyskom.Session.{KomSession, on_client, check_connection, perform}
use pylyskom.Session.Compose.{Body, body_str, user_area, utf_8, create_text}
use pylyskom.Session.Reading.{KomText, get_text}

-- A block as it is stored, or as JSON.
pub data Block (J : Type 0) : Type 0 where
  stored : Bytes → Block J
  json : J → Block J

-- "x-kom/user-area"
abbrev pub user_area_type : Str
user_area_type = x_kom ++ b'/' ∷ user_area

-- blocks.get(block_name); a block may be None, too.
unfoldable pub block_of : Blocks → Bytes → Option Bytes
block_of [] name = none
block_of ((n, b) ∷ blocks) name =
    let rest = block_of blocks name in if bytes_eq n name then b else rest

-- text.body.encode('latin1'), of a text whose type is that of user areas
unfoldable pub area_of : KomText → Result Bytes
area_of t = if bytes_eq t.content_type user_area_type then encoded t.body else raise session_error
  where
    encoded : Option Body → Result Bytes
    encoded (some (body_str s)) = encode_latin1 s
    encoded _ = raise unspecified

-- The names and blocks that `encode_user_area` goes through; None is no hollerith string.
unfoldable pub entries_of : Blocks → Result (List Entry)
entries_of [] = ok []
entries_of ((n, none) ∷ blocks) = raise unspecified
entries_of ((n, some b) ∷ blocks) = elim (entries_of blocks) [
  | ok rest ↦ ok ((n, b) ∷ rest)
  | raise e ↦ raise e
]

-- body.decode('utf-8'), in `create_text`
unfoldable pub decoded_body : Decoding → Result Str
decoded_body (decoded s) = ok s
decoded_body _ = raise value_error

-- The blocks of a user area; no area has none.
unfoldable pub blocks_in : {S : Type 0} → Option Bytes → Exec S (Option Blocks)
blocks_in none = pure (some [])
blocks_in (some bytes) = elim (decode_user_area bytes) [
  | none ↦ pure none
  | some r ↦ lift r >>= λ blocks. pure (some blocks)
]

module _ {S : Type 0} (api : ClientApi S) (close : S → Result (Unit {0}))
    (decode : Str → Bytes → Decoding) (parse_mime_type : Str → Result MimeType) where
  -- The user area of a person, if there is one.
  unfoldable pub area : ℕ → Exec (KomSession S) (Option Bytes)
  area pers_no =
      on_client (ask api as_person req_get_person_stat (number pers_no ∷ [])) >>= λ person_stat.
      found person_stat.user_area
    where
      found : ℕ → Exec (KomSession S) (Option Bytes)
      found n s =
          if n == 0
          then (ok none, s)
          else (get_text decode parse_mime_type api close n >>= λ t.
                lift (area_of t) >>= λ bytes. pure (some bytes))
              s

  module _ {J : Type 0} (loads : Bytes → Result J) where
    unfoldable pub block_as : Bool → Option Bytes → Result (Option (Block J))
    block_as json_decode none = ok none
    block_as false (some b) = ok (some (stored b))
    block_as true (some b) = elim (loads b) [ ok j ↦ ok (some (json j)) | raise e ↦ raise e ]

    -- KomSession.get_user_area_block, with json.loads of the decoded block
    unfoldable pub get_user_area_block :
        ℕ → Bytes → Bool → Exec (KomSession S) (Option (Option (Block J)))
    get_user_area_block pers_no block_name json_decode = check_connection close (
        area pers_no >>= blocks_in >>= λ blocks. elim blocks [
          | none ↦ pure none
          | some l ↦ lift (block_as json_decode (block_of l block_name)) >>= λ b. pure (some b)
        ])

  module _ {J : Type 0} (dumps : J → Result Bytes) (b64decode : Str → Result Bytes) where
    unfoldable pub bytes_of : Block J → Result Bytes
    bytes_of (stored b) = ok b
    bytes_of (json j) = dumps j

    -- The new text, and the request that makes it the user area.
    unfoldable pub store_area : ℕ → Blocks → Exec (KomSession S) (Unit {0})
    store_area pers_no blocks = do
      entries ← lift (entries_of blocks)
      body ← lift (decoded_body (decode utf_8 (encode_user_area entries)))
      text_no ← create_text api close parse_mime_type b64decode none body user_area_type none [] []
      perform api close req_set_user_area (number pers_no ∷ number text_no ∷ [])

    -- KomSession.set_user_area_block, with the encoded json.dumps of the block
    unfoldable pub set_user_area_block :
        ℕ → Bytes → Block J → Exec (KomSession S) (Option (Unit {0}))
    set_user_area_block pers_no block_name block = check_connection close (
        area pers_no >>= blocks_in >>= λ blocks. elim blocks [
          | none ↦ pure none
          | some l ↦ lift (bytes_of block) >>= λ b.
              store_area pers_no (put_block l block_name (some b)) >>= λ u. pure (some u)
        ])

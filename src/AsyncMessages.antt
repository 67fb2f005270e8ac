-- ===== src/AsyncMessages.antt =====
-- asyncmsg.py: the messages that the server sends on its own account.
pub mod Dispatch
use pylyskom.Dict.{Dict}
use pylyskom.Base.{[], ◌∷◌, ℕ, Bytes, List, true, false, Option, none, some, ◌==◌, if◌then◌else◌}
use pylyskom.Exec.{pure, ◌>>=◌}
use pylyskom.Protocol.{Parser}
use pylyskom.Datatypes.Basic.{parse_string, parse_int, parse_array}
use pylyskom.Datatypes.AuxItem.{AuxItem, parse_aux_item}
use pylyskom.Datatypes.Text.{TextStat, parse_text_stat}
use pylyskom.Datatypes.Session.{WhoInfo, parse_who_info}

pub data AsyncMessage : Type 0 where
  async_new_text_old : ℕ → TextStat → AsyncMessage
  async_new_name : ℕ → Bytes → Bytes → AsyncMessage
  async_i_am_on : WhoInfo → AsyncMessage
  async_sync_db : AsyncMessage
  async_leave_conf : ℕ → AsyncMessage
  async_login : ℕ → ℕ → AsyncMessage
  async_rejected_connection : AsyncMessage
  async_send_message : ℕ → ℕ → Bytes → AsyncMessage
  async_logout : ℕ → ℕ → AsyncMessage
  async_deleted_text : ℕ → TextStat → AsyncMessage
  async_new_text : ℕ → TextStat → AsyncMessage
  async_new_recipient : ℕ → ℕ → ℕ → AsyncMessage
  async_sub_recipient : ℕ → ℕ → ℕ → AsyncMessage
  async_new_membership : ℕ → ℕ → AsyncMessage
  async_new_user_area : ℕ → ℕ → ℕ → AsyncMessage
  async_new_presentation : ℕ → ℕ → ℕ → AsyncMessage
  async_new_motd : ℕ → ℕ → ℕ → AsyncMessage
  async_text_aux_changed : ℕ → List AuxItem → List AuxItem → AsyncMessage

-- MSG_NO
unfoldable pub msg_no : AsyncMessage → ℕ
msg_no (async_new_text_old _ _) = 0
msg_no (async_new_name _ _ _) = 5
msg_no (async_i_am_on _) = 6
msg_no async_sync_db = 7
msg_no (async_leave_conf _) = 8
msg_no (async_login _ _) = 9
msg_no async_rejected_connection = 11
msg_no (async_send_message _ _ _) = 12
msg_no (async_logout _ _) = 13
msg_no (async_deleted_text _ _) = 14
msg_no (async_new_text _ _) = 15
msg_no (async_new_recipient _ _ _) = 16
msg_no (async_sub_recipient _ _ _) = 17
msg_no (async_new_membership _ _) = 18
msg_no (async_new_user_area _ _ _) = 19
msg_no (async_new_presentation _ _ _) = 20
msg_no (async_new_motd _ _ _) = 21
msg_no (async_text_aux_changed _ _ _) = 22

unfoldable pub parse_async_new_text_old : Parser AsyncMessage
parse_async_new_text_old = do
  text_no ← parse_int
  text_stat ← parse_text_stat true
  pure (async_new_text_old text_no text_stat)

unfoldable pub parse_async_new_name : Parser AsyncMessage
parse_async_new_name = do
  conf_no ← parse_int
  old_name ← parse_string
  new_name ← parse_string
  pure (async_new_name conf_no old_name new_name)

unfoldable pub parse_async_i_am_on : Parser AsyncMessage
parse_async_i_am_on = do info ← parse_who_info; pure (async_i_am_on info)

unfoldable pub parse_async_sync_db : Parser AsyncMessage
parse_async_sync_db = pure async_sync_db

unfoldable pub parse_async_leave_conf : Parser AsyncMessage
parse_async_leave_conf = do conf_no ← parse_int; pure (async_leave_conf conf_no)

unfoldable pub parse_async_login : Parser AsyncMessage
parse_async_login = do
  person_no ← parse_int
  session_no ← parse_int
  pure (async_login person_no session_no)

unfoldable pub parse_async_rejected_connection : Parser AsyncMessage
parse_async_rejected_connection = pure async_rejected_connection

unfoldable pub parse_async_send_message : Parser AsyncMessage
parse_async_send_message = do
  recipient ← parse_int
  sender ← parse_int
  message ← parse_string
  pure (async_send_message recipient sender message)

unfoldable pub parse_async_logout : Parser AsyncMessage
parse_async_logout = do
  person_no ← parse_int
  session_no ← parse_int
  pure (async_logout person_no session_no)

unfoldable pub parse_async_deleted_text : Parser AsyncMessage
parse_async_deleted_text = do
  text_no ← parse_int
  text_stat ← parse_text_stat false
  pure (async_deleted_text text_no text_stat)

unfoldable pub parse_async_new_text : Parser AsyncMessage
parse_async_new_text = do
  text_no ← parse_int
  text_stat ← parse_text_stat false
  pure (async_new_text text_no text_stat)

unfoldable pub parse_async_new_recipient : Parser AsyncMessage
parse_async_new_recipient = do
  text_no ← parse_int
  conf_no ← parse_int
  type ← parse_int
  pure (async_new_recipient text_no conf_no type)

unfoldable pub parse_async_sub_recipient : Parser AsyncMessage
parse_async_sub_recipient = do
  text_no ← parse_int
  conf_no ← parse_int
  type ← parse_int
  pure (async_sub_recipient text_no conf_no type)

unfoldable pub parse_async_new_membership : Parser AsyncMessage
parse_async_new_membership = do
  person_no ← parse_int
  conf_no ← parse_int
  pure (async_new_membership person_no conf_no)

unfoldable pub parse_async_new_user_area : Parser AsyncMessage
parse_async_new_user_area = do
  person_no ← parse_int
  old_user_area ← parse_int
  new_user_area ← parse_int
  pure (async_new_user_area person_no old_user_area new_user_area)

unfoldable pub parse_async_new_presentation : Parser AsyncMessage
parse_async_new_presentation = do
  conf_no ← parse_int
  old_presentation ← parse_int
  new_presentation ← parse_int
  pure (async_new_presentation conf_no old_presentation new_presentation)

unfoldable pub parse_async_new_motd : Parser AsyncMessage
parse_async_new_motd = do
  conf_no ← parse_int
  old_motd ← parse_int
  new_motd ← parse_int
  pure (async_new_motd conf_no old_motd new_motd)

unfoldable pub parse_async_text_aux_changed : Parser AsyncMessage
parse_async_text_aux_changed = do
  text_no ← parse_int
  deleted ← parse_array parse_aux_item
  added ← parse_array parse_aux_item
  pure (async_text_aux_changed text_no deleted added)

-- async_dict: the class's `parse` under its message number.
unfoldable pub async_dict : Dict (Parser AsyncMessage)
async_dict =
    (0, parse_async_new_text_old)
    ∷ (5, parse_async_new_name)
    ∷ (6, parse_async_i_am_on)
    ∷ (7, parse_async_sync_db)
    ∷ (8, parse_async_leave_conf)
    ∷ (9, parse_async_login)
    ∷ (11, parse_async_rejected_connection)
    ∷ (12, parse_async_send_message)
    ∷ (13, parse_async_logout)
    ∷ (14, parse_async_deleted_text)
    ∷ (15, parse_async_new_text)
    ∷ (16, parse_async_new_recipient)
    ∷ (17, parse_async_sub_recipient)
    ∷ (18, parse_async_new_membership)
    ∷ (19, parse_async_new_user_area)
    ∷ (20, parse_async_new_presentation)
    ∷ (21, parse_async_new_motd)
    ∷ (22, parse_async_text_aux_changed)
    ∷ []

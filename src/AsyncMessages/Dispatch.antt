-- ===== src/AsyncMessages/Dispatch.antt =====
-- asyncmsg.py: the readers in `async_dict`, and the numbers that they stand under.
use pylyskom.Base.{All, ℕ, ◌≡◌, refl, true, false, some}
use pylyskom.Exec.Stable.{Stable-pure, Stable-bind}
use pylyskom.Exec.Gives.{Gives, Gives-pure, Gives-bind}
use pylyskom.Dict
use pylyskom.Protocol.{Parser}
use pylyskom.Protocol.Stable.{IsStable}
use pylyskom.Datatypes.Basic.{parse_string, parse_int, parse_array}
use pylyskom.Datatypes.Basic.Stable.{parse_string-Stable, parse_int-Stable, parse_array-Stable}
use pylyskom.Datatypes.AuxItem.{parse_aux_item, parse_aux_item-Stable}
use pylyskom.Datatypes.Text.{parse_text_stat, parse_text_stat-Stable}
use pylyskom.Datatypes.Session.{parse_who_info, parse_who_info-Stable}
use pylyskom.AsyncMessages.{
  AsyncMessage, msg_no, async_dict, parse_async_new_text_old, parse_async_new_name,
  parse_async_i_am_on, parse_async_sync_db, parse_async_leave_conf, parse_async_login,
  parse_async_rejected_connection, parse_async_send_message, parse_async_logout,
  parse_async_deleted_text, parse_async_new_text, parse_async_new_recipient,
  parse_async_sub_recipient, parse_async_new_membership, parse_async_new_user_area,
  parse_async_new_presentation, parse_async_new_motd, parse_async_text_aux_changed,
}

pub parse_async_new_text_old-Stable : IsStable parse_async_new_text_old
unfolding parse_async_new_text_old
parse_async_new_text_old-Stable =
    Stable-bind parse_int-Stable λ _. Stable-bind (parse_text_stat-Stable true) λ _. Stable-pure _

pub parse_async_new_name-Stable : IsStable parse_async_new_name
unfolding parse_async_new_name
parse_async_new_name-Stable =
    Stable-bind parse_int-Stable
      λ _. Stable-bind parse_string-Stable λ _. Stable-bind parse_string-Stable λ _. Stable-pure _

pub parse_async_i_am_on-Stable : IsStable parse_async_i_am_on
unfolding parse_async_i_am_on
parse_async_i_am_on-Stable = Stable-bind parse_who_info-Stable λ _. Stable-pure _

pub parse_async_sync_db-Stable : IsStable parse_async_sync_db
unfolding parse_async_sync_db
parse_async_sync_db-Stable = Stable-pure _

pub parse_async_leave_conf-Stable : IsStable parse_async_leave_conf
unfolding parse_async_leave_conf
parse_async_leave_conf-Stable = Stable-bind parse_int-Stable λ _. Stable-pure _

pub parse_async_login-Stable : IsStable parse_async_login
unfolding parse_async_login
parse_async_login-Stable =
    Stable-bind parse_int-Stable λ _. Stable-bind parse_int-Stable λ _. Stable-pure _

pub parse_async_rejected_connection-Stable : IsStable parse_async_rejected_connection
unfolding parse_async_rejected_connection
parse_async_rejected_connection-Stable = Stable-pure _

pub parse_async_send_message-Stable : IsStable parse_async_send_message
unfolding parse_async_send_message
parse_async_send_message-Stable =
    Stable-bind parse_int-Stable
      λ _. Stable-bind parse_int-Stable λ _. Stable-bind parse_string-Stable λ _. Stable-pure _

pub parse_async_logout-Stable : IsStable parse_async_logout
unfolding parse_async_logout
parse_async_logout-Stable =
    Stable-bind parse_int-Stable λ _. Stable-bind parse_int-Stable λ _. Stable-pure _

pub parse_async_deleted_text-Stable : IsStable parse_async_deleted_text
unfolding parse_async_deleted_text
parse_async_deleted_text-Stable =
    Stable-bind parse_int-Stable λ _. Stable-bind (parse_text_stat-Stable false) λ _. Stable-pure _

pub parse_async_new_text-Stable : IsStable parse_async_new_text
unfolding parse_async_new_text
parse_async_new_text-Stable =
    Stable-bind parse_int-Stable λ _. Stable-bind (parse_text_stat-Stable false) λ _. Stable-pure _

pub parse_async_new_recipient-Stable : IsStable parse_async_new_recipient
unfolding parse_async_new_recipient
parse_async_new_recipient-Stable =
    Stable-bind parse_int-Stable
      λ _. Stable-bind parse_int-Stable λ _. Stable-bind parse_int-Stable λ _. Stable-pure _

pub parse_async_sub_recipient-Stable : IsStable parse_async_sub_recipient
unfolding parse_async_sub_recipient
parse_async_sub_recipient-Stable =
    Stable-bind parse_int-Stable
      λ _. Stable-bind parse_int-Stable λ _. Stable-bind parse_int-Stable λ _. Stable-pure _

pub parse_async_new_membership-Stable : IsStable parse_async_new_membership
unfolding parse_async_new_membership
parse_async_new_membership-Stable =
    Stable-bind parse_int-Stable λ _. Stable-bind parse_int-Stable λ _. Stable-pure _

pub parse_async_new_user_area-Stable : IsStable parse_async_new_user_area
unfolding parse_async_new_user_area
parse_async_new_user_area-Stable =
    Stable-bind parse_int-Stable
      λ _. Stable-bind parse_int-Stable λ _. Stable-bind parse_int-Stable λ _. Stable-pure _

pub parse_async_new_presentation-Stable : IsStable parse_async_new_presentation
unfolding parse_async_new_presentation
parse_async_new_presentation-Stable =
    Stable-bind parse_int-Stable
      λ _. Stable-bind parse_int-Stable λ _. Stable-bind parse_int-Stable λ _. Stable-pure _

pub parse_async_new_motd-Stable : IsStable parse_async_new_motd
unfolding parse_async_new_motd
parse_async_new_motd-Stable =
    Stable-bind parse_int-Stable
      λ _. Stable-bind parse_int-Stable λ _. Stable-bind parse_int-Stable λ _. Stable-pure _

pub parse_async_text_aux_changed-Stable : IsStable parse_async_text_aux_changed
unfolding parse_async_text_aux_changed
parse_async_text_aux_changed-Stable = Stable-bind parse_int-Stable λ _.
    Stable-bind (parse_array-Stable parse_aux_item-Stable)
      λ _. Stable-bind (parse_array-Stable parse_aux_item-Stable) λ _. Stable-pure _

-- The entry under `n` is stable, and gives messages whose MSG_NO is `n`.
pub record IsEntry (n : ℕ) (p : Parser AsyncMessage) : Type 0 where
  pub stable : IsStable p
  pub numbered : Gives (λ m. msg_no m ≡ n) p

entry : {n : ℕ} {p : Parser AsyncMessage} → IsStable p → Gives (λ m. msg_no m ≡ n) p → IsEntry n p
entry s g = record { stable = s; numbered = g }

async_dict-All : All (λ (n, p). IsEntry n p) async_dict
unfolding async_dict msg_no parse_async_new_text_old parse_async_new_name parse_async_i_am_on
    parse_async_sync_db parse_async_leave_conf parse_async_login parse_async_rejected_connection
    parse_async_send_message parse_async_logout parse_async_deleted_text parse_async_new_text
    parse_async_new_recipient parse_async_sub_recipient parse_async_new_membership
    parse_async_new_user_area parse_async_new_presentation parse_async_new_motd
    parse_async_text_aux_changed
async_dict-All = (
  entry parse_async_new_text_old-Stable
      (Gives-bind (parse_int) λ _. Gives-bind (parse_text_stat true) λ _. Gives-pure _ refl),
  (
    entry parse_async_new_name-Stable (
        Gives-bind (parse_int)
          λ _. Gives-bind (parse_string) λ _. Gives-bind (parse_string) λ _. Gives-pure _ refl),
    (
      entry parse_async_i_am_on-Stable (Gives-bind (parse_who_info) λ _. Gives-pure _ refl),
      (
        entry parse_async_sync_db-Stable (Gives-pure _ refl),
        (
          entry parse_async_leave_conf-Stable (Gives-bind (parse_int) λ _. Gives-pure _ refl),
          (
            entry parse_async_login-Stable
                (Gives-bind (parse_int) λ _. Gives-bind (parse_int) λ _. Gives-pure _ refl),
            (
              entry parse_async_rejected_connection-Stable (Gives-pure _ refl),
              (
                entry parse_async_send_message-Stable (
                    Gives-bind (parse_int) λ _.
                      Gives-bind (parse_int) λ _. Gives-bind (parse_string) λ _. Gives-pure _ refl),
                (
                  entry parse_async_logout-Stable
                      (Gives-bind (parse_int) λ _. Gives-bind (parse_int) λ _. Gives-pure _ refl),
                  (
                    entry parse_async_deleted_text-Stable (
                        Gives-bind (parse_int)
                          λ _. Gives-bind (parse_text_stat false) λ _. Gives-pure _ refl),
                    (
                      entry parse_async_new_text-Stable (
                          Gives-bind (parse_int)
                            λ _. Gives-bind (parse_text_stat false) λ _. Gives-pure _ refl),
                      (
                        entry parse_async_new_recipient-Stable (
                            Gives-bind (parse_int) λ _.
                              Gives-bind (parse_int)
                                λ _. Gives-bind (parse_int) λ _. Gives-pure _ refl),
                        (
                          entry parse_async_sub_recipient-Stable (
                              Gives-bind (parse_int) λ _.
                                Gives-bind (parse_int)
                                  λ _. Gives-bind (parse_int) λ _. Gives-pure _ refl),
                          (
                            entry parse_async_new_membership-Stable (
                                Gives-bind (parse_int)
                                  λ _. Gives-bind (parse_int) λ _. Gives-pure _ refl),
                            (
                              entry parse_async_new_user_area-Stable (
                                  Gives-bind (parse_int) λ _.
                                    Gives-bind (parse_int)
                                      λ _. Gives-bind (parse_int) λ _. Gives-pure _ refl),
                              (
                                entry parse_async_new_presentation-Stable (
                                    Gives-bind (parse_int) λ _.
                                      Gives-bind (parse_int)
                                        λ _. Gives-bind (parse_int) λ _. Gives-pure _ refl),
                                (
                                  entry parse_async_new_motd-Stable (
                                      Gives-bind (parse_int) λ _.
                                        Gives-bind (parse_int)
                                          λ _. Gives-bind (parse_int) λ _. Gives-pure _ refl),
                                  (
                                    entry parse_async_text_aux_changed-Stable (
                                        Gives-bind (parse_int) λ _.
                                          Gives-bind (parse_array parse_aux_item) λ _.
                                            Gives-bind (parse_array parse_aux_item)
                                              λ _. Gives-pure _ refl),
                                    tt,
                                  ),
                                ),
                              ),
                            ),
                          ),
                        ),
                      ),
                    ),
                  ),
                ),
              ),
            ),
          ),
        ),
      ),
    ),
  ),
)

-- What `async_dict` has under a number reads messages of that number, wherever the bytes stop.
pub async_dict-IsEntry :
    (n : ℕ) {p : Parser AsyncMessage} → Dict.get async_dict n ≡ some p → IsEntry n p
async_dict-IsEntry n e = Dict.get-All IsEntry async_dict n async_dict-All e

-- ===== src/Requests/Calls/To62.antt =====
-- requests.py: the request classes with call numbers 35 to 62.
use pylyskom.Base.{[], ◌∷◌}
use pylyskom.Requests.Request.{RequestClass, argument, argument_or, int, string, time}

abbrev pub req_get_time : RequestClass
req_get_time = record { call_no = 35; args = [] }

abbrev pub req_add_footnote : RequestClass
req_add_footnote = record {
  call_no = 37;
  args = argument "text_no" int ∷ argument "footnote_to" int ∷ [];
}

abbrev pub req_sub_footnote : RequestClass
req_sub_footnote = record {
  call_no = 38;
  args = argument "text_no" int ∷ argument "footnote_to" int ∷ [];
}

abbrev pub req_set_unread : RequestClass
req_set_unread = record {
  call_no = 40;
  args = argument "conf_no" int ∷ argument "no_of_unread" int ∷ [];
}

abbrev pub req_set_motd_of_lyskom : RequestClass
req_set_motd_of_lyskom = record { call_no = 41; args = argument "text_no" int ∷ [] }

abbrev pub req_enable : RequestClass
req_enable = record { call_no = 42; args = argument "level" int ∷ [] }

abbrev pub req_sync_kom : RequestClass
req_sync_kom = record { call_no = 43; args = [] }

abbrev pub req_shutdown_kom : RequestClass
req_shutdown_kom = record { call_no = 44; args = argument "exit_val" int ∷ [] }

abbrev pub req_get_person_stat : RequestClass
req_get_person_stat = record { call_no = 49; args = argument "pers_no" int ∷ [] }

abbrev pub req_get_unread_confs : RequestClass
req_get_unread_confs = record { call_no = 52; args = argument "pers_no" int ∷ [] }

abbrev pub req_send_message : RequestClass
req_send_message = record {
  call_no = 53;
  args = argument "conf_no" int ∷ argument "message" string ∷ [];
}

abbrev pub req_disconnect : RequestClass
req_disconnect = record { call_no = 55; args = argument "session_no" int ∷ [] }

abbrev pub req_who_am_i : RequestClass
req_who_am_i = record { call_no = 56; args = [] }

abbrev pub req_set_user_area : RequestClass
req_set_user_area = record {
  call_no = 57;
  args = argument "pers_no" int ∷ argument "user_area" int ∷ [];
}

abbrev pub req_get_last_text : RequestClass
req_get_last_text = record { call_no = 58; args = argument "before" time ∷ [] }

abbrev pub req_find_next_text_no : RequestClass
req_find_next_text_no = record { call_no = 60; args = argument "start" int ∷ [] }

abbrev pub req_find_previous_text_no : RequestClass
req_find_previous_text_no = record { call_no = 61; args = argument "start" int ∷ [] }

abbrev pub req_login : RequestClass
req_login = record {
  call_no = 62;
  args = argument "person" int ∷ argument "password" string ∷ argument_or "invisible" int 1 ∷ [];
}

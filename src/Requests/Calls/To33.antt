-- ===== src/Requests/Calls/To33.antt =====
-- requests.py: the request classes with call numbers 1 to 33.
use pylyskom.Base.{[], ◌∷◌}
use pylyskom.Protocol.{max_text_size}
use pylyskom.Datatypes.MiscInfo.{mir_to}
use pylyskom.Requests.Request.{
  RequestClass, argument, argument_or, int, string, any_conf_type, array_int, flags16,
}

abbrev pub req_logout : RequestClass
req_logout = record { call_no = 1; args = [] }

abbrev pub req_change_conference : RequestClass
req_change_conference = record { call_no = 2; args = argument "conf_no" int ∷ [] }

abbrev pub req_change_name : RequestClass
req_change_name = record {
  call_no = 3;
  args = argument "conf_no" int ∷ argument "new_name" string ∷ [];
}

abbrev pub req_change_what_i_am_doing : RequestClass
req_change_what_i_am_doing = record { call_no = 4; args = argument "what" string ∷ [] }

abbrev pub req_set_priv_bits : RequestClass
req_set_priv_bits = record {
  call_no = 7;
  args = argument "person" int ∷ argument "privileges" flags16 ∷ [];
}

abbrev pub req_set_passwd : RequestClass
req_set_passwd = record {
  call_no = 8;
  args = argument "person" int ∷ argument "old_pwd" string ∷ argument "new_pwd" string ∷ [];
}

abbrev pub req_delete_conf : RequestClass
req_delete_conf = record { call_no = 11; args = argument "conf" int ∷ [] }

abbrev pub req_sub_member : RequestClass
req_sub_member = record {
  call_no = 15;
  args = argument "conf_no" int ∷ argument "pers_no" int ∷ [];
}

abbrev pub req_set_presentation : RequestClass
req_set_presentation = record {
  call_no = 16;
  args = argument "conf_no" int ∷ argument "text_no" int ∷ [];
}

abbrev pub req_set_etc_motd : RequestClass
req_set_etc_motd = record {
  call_no = 17;
  args = argument "conf_no" int ∷ argument "text_no" int ∷ [];
}

abbrev pub req_set_supervisor : RequestClass
req_set_supervisor = record {
  call_no = 18;
  args = argument "conf_no" int ∷ argument "admin" int ∷ [];
}

abbrev pub req_set_permitted_submitters : RequestClass
req_set_permitted_submitters = record {
  call_no = 19;
  args = argument "conf_no" int ∷ argument "perm_sub" int ∷ [];
}

abbrev pub req_set_super_conf : RequestClass
req_set_super_conf = record {
  call_no = 20;
  args = argument "conf_no" int ∷ argument "super_conf" int ∷ [];
}

abbrev pub req_set_conf_type : RequestClass
req_set_conf_type = record {
  call_no = 21;
  args = argument "conf_no" int ∷ argument "conf_type" any_conf_type ∷ [];
}

abbrev pub req_set_garb_nice : RequestClass
req_set_garb_nice = record {
  call_no = 22;
  args = argument "conf_no" int ∷ argument "nice" int ∷ [];
}

abbrev pub req_get_marks : RequestClass
req_get_marks = record { call_no = 23; args = [] }

abbrev pub req_get_text : RequestClass
req_get_text = record {
  call_no = 25;
  args =
      argument "text_no" int
      ∷ argument_or "start_char" int 0
      ∷ argument_or "end_char" int max_text_size
      ∷ [];
}

abbrev pub req_mark_as_read : RequestClass
req_mark_as_read = record {
  call_no = 27;
  args = argument "conf_no" int ∷ argument "texts" array_int ∷ [];
}

abbrev pub req_delete_text : RequestClass
req_delete_text = record { call_no = 29; args = argument "text_no" int ∷ [] }

abbrev pub req_add_recipient : RequestClass
req_add_recipient = record {
  call_no = 30;
  args = argument "text_no" int ∷ argument "conf_no" int ∷ argument_or "recpt_type" int mir_to ∷ [];
}

abbrev pub req_sub_recipient : RequestClass
req_sub_recipient = record {
  call_no = 31;
  args = argument "text_no" int ∷ argument "conf_no" int ∷ [];
}

abbrev pub req_add_comment : RequestClass
req_add_comment = record {
  call_no = 32;
  args = argument "text_no" int ∷ argument "comment_to" int ∷ [];
}

abbrev pub req_sub_comment : RequestClass
req_sub_comment = record {
  call_no = 33;
  args = argument "text_no" int ∷ argument "comment_to" int ∷ [];
}

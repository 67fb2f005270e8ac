-- ===== src/Requests/Calls/To88.antt =====
-- requests.py: the request classes with call numbers 69 to 88.
use pylyskom.Base.{[], ◌∷◌}
use pylyskom.Requests.Request.{
  RequestClass, argument, int, string, any_conf_type, array_aux_item_input, array_int, misc_info,
  info_old,
}

abbrev pub req_set_client_version : RequestClass
req_set_client_version = record {
  call_no = 69;
  args = argument "client_name" string ∷ argument "client_version" string ∷ [];
}

abbrev pub req_get_client_name : RequestClass
req_get_client_name = record { call_no = 70; args = argument "session_no" int ∷ [] }

abbrev pub req_get_client_version : RequestClass
req_get_client_version = record { call_no = 71; args = argument "session_no" int ∷ [] }

abbrev pub req_mark_text : RequestClass
req_mark_text = record {
  call_no = 72;
  args = argument "text_no" int ∷ argument "mark_type" int ∷ [];
}

abbrev pub req_unmark_text : RequestClass
req_unmark_text = record { call_no = 73; args = argument "text_no" int ∷ [] }

abbrev pub req_re_z_lookup : RequestClass
req_re_z_lookup = record {
  call_no = 74;
  args = argument "regexp" string ∷ argument "want_persons" int ∷ argument "want_confs" int ∷ [];
}

abbrev pub req_get_version_info : RequestClass
req_get_version_info = record { call_no = 75; args = [] }

abbrev pub req_lookup_z_name : RequestClass
req_lookup_z_name = record {
  call_no = 76;
  args = argument "name" string ∷ argument "want_pers" int ∷ argument "want_confs" int ∷ [];
}

abbrev pub req_set_last_read : RequestClass
req_set_last_read = record {
  call_no = 77;
  args = argument "conference" int ∷ argument "last_read" int ∷ [];
}

abbrev pub req_get_uconf_stat : RequestClass
req_get_uconf_stat = record { call_no = 78; args = argument "conf_no" int ∷ [] }

abbrev pub req_set_info : RequestClass
req_set_info = record { call_no = 79; args = argument "info" info_old ∷ [] }

abbrev pub req_accept_async : RequestClass
req_accept_async = record { call_no = 80; args = argument "request_list" array_int ∷ [] }

abbrev pub req_query_async : RequestClass
req_query_async = record { call_no = 81; args = [] }

abbrev pub req_user_active : RequestClass
req_user_active = record { call_no = 82; args = [] }

abbrev pub req_who_is_on_dynamic : RequestClass
req_who_is_on_dynamic = record {
  call_no = 83;
  args =
      argument "want_visible" int ∷ argument "want_invisible" int ∷ argument "active_last" int ∷ [];
}

abbrev pub req_get_static_session_info : RequestClass
req_get_static_session_info = record { call_no = 84; args = argument "session_no" int ∷ [] }

abbrev pub req_get_collate_table : RequestClass
req_get_collate_table = record { call_no = 85; args = [] }

abbrev pub req_create_text : RequestClass
req_create_text = record {
  call_no = 86;
  args =
      argument "text" string
      ∷ argument "misc_info" misc_info
      ∷ argument "aux_items" array_aux_item_input
      ∷ [];
}

abbrev pub req_create_anonymous_text : RequestClass
req_create_anonymous_text = record {
  call_no = 87;
  args =
      argument "text" string
      ∷ argument "misc_info" misc_info
      ∷ argument "aux_items" array_aux_item_input
      ∷ [];
}

abbrev pub req_create_conf : RequestClass
req_create_conf = record {
  call_no = 88;
  args =
      argument "name" string
      ∷ argument "type" any_conf_type
      ∷ argument "aux_items" array_aux_item_input
      ∷ [];
}

-- ===== src/Requests/Calls/To103.antt =====
-- requests.py: the request classes with call numbers 89 to 103.
use pylyskom.Base.{[], ◌∷◌}
use pylyskom.Requests.Request.{RequestClass, argument, int, string, array_aux_item_input, flags8}

abbrev pub req_create_person : RequestClass
req_create_person = record {
  call_no = 89;
  args =
      argument "name" string
      ∷ argument "passwd" string
      ∷ argument "flags" flags8
      ∷ argument "aux_items" array_aux_item_input
      ∷ [];
}

abbrev pub req_get_text_stat : RequestClass
req_get_text_stat = record { call_no = 90; args = argument "text_no" int ∷ [] }

abbrev pub req_get_conf_stat : RequestClass
req_get_conf_stat = record { call_no = 91; args = argument "conf_no" int ∷ [] }

abbrev pub req_modify_text_info : RequestClass
req_modify_text_info = record {
  call_no = 92;
  args = argument "text" int ∷ argument "delete" int ∷ argument "add" array_aux_item_input ∷ [];
}

abbrev pub req_modify_conf_info : RequestClass
req_modify_conf_info = record {
  call_no = 93;
  args = argument "conf" int ∷ argument "delete" int ∷ argument "add" array_aux_item_input ∷ [];
}

abbrev pub req_get_info : RequestClass
req_get_info = record { call_no = 94; args = [] }

abbrev pub req_modify_system_info : RequestClass
req_modify_system_info = record {
  call_no = 95;
  args = argument "items_to_delete" int ∷ argument "items_to_add" array_aux_item_input ∷ [];
}

abbrev pub req_query_predefined_aux_items : RequestClass
req_query_predefined_aux_items = record { call_no = 96; args = [] }

abbrev pub req_set_expire : RequestClass
req_set_expire = record { call_no = 97; args = argument "conf_no" int ∷ argument "expire" int ∷ [] }

abbrev pub req_query_read_texts10 : RequestClass
req_query_read_texts10 = record {
  call_no = 98;
  args = argument "person" int ∷ argument "conference" int ∷ [];
}

abbrev pub req_get_membership10 : RequestClass
req_get_membership10 = record {
  call_no = 99;
  args =
      argument "person" int
      ∷ argument "first" int
      ∷ argument "no_of_confs" int
      ∷ argument "want_read_texts" int
      ∷ [];
}

abbrev pub req_add_member : RequestClass
req_add_member = record {
  call_no = 100;
  args =
      argument "conf_no" int
      ∷ argument "pers_no" int
      ∷ argument "priority" int
      ∷ argument "where" int
      ∷ argument "type" flags8
      ∷ [];
}

abbrev pub req_get_members : RequestClass
req_get_members = record {
  call_no = 101;
  args = argument "conf" int ∷ argument "first" int ∷ argument "no_of_members" int ∷ [];
}

abbrev pub req_set_membership_type : RequestClass
req_set_membership_type = record {
  call_no = 102;
  args = argument "pers" int ∷ argument "conf" int ∷ argument "type" flags8 ∷ [];
}

abbrev pub req_local_to_global : RequestClass
req_local_to_global = record {
  call_no = 103;
  args =
      argument "conf_no" int
      ∷ argument "first_local_no" int
      ∷ argument "no_of_existing_texts" int
      ∷ [];
}

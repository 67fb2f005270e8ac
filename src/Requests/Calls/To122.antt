-- ===== src/Requests/Calls/To122.antt =====
-- requests.py: the request classes with call numbers 104 to 122.
use pylyskom.Base.{[], ◌∷◌}
use pylyskom.Requests.Request.{RequestClass, argument, int, string, array_read_range, flags8}

abbrev pub req_map_created_texts : RequestClass
req_map_created_texts = record {
  call_no = 104;
  args =
      argument "author" int
      ∷ argument "first_local_no" int
      ∷ argument "no_of_existing_texts" int
      ∷ [];
}

abbrev pub req_set_keep_commented : RequestClass
req_set_keep_commented = record {
  call_no = 105;
  args = argument "conf_no" int ∷ argument "keep_commented" int ∷ [];
}

abbrev pub req_set_pers_flags : RequestClass
req_set_pers_flags = record {
  call_no = 106;
  args = argument "pers_no" int ∷ argument "flags" flags8 ∷ [];
}

abbrev pub req_query_read_texts11 : RequestClass
req_query_read_texts11 = record {
  call_no = 107;
  args =
      argument "person" int
      ∷ argument "conference" int
      ∷ argument "want_read_ranges" int
      ∷ argument "max_ranges" int
      ∷ [];
}

abbrev pub req_get_membership11 : RequestClass
req_get_membership11 = record {
  call_no = 108;
  args =
      argument "person" int
      ∷ argument "first" int
      ∷ argument "no_of_confs" int
      ∷ argument "want_read_ranges" int
      ∷ argument "max_ranges" int
      ∷ [];
}

abbrev pub req_mark_as_unread : RequestClass
req_mark_as_unread = record {
  call_no = 109;
  args = argument "conference" int ∷ argument "text" int ∷ [];
}

abbrev pub req_set_read_ranges : RequestClass
req_set_read_ranges = record {
  call_no = 110;
  args = argument "conference" int ∷ argument "read_ranges" array_read_range ∷ [];
}

abbrev pub req_get_stats_description : RequestClass
req_get_stats_description = record { call_no = 111; args = [] }

abbrev pub req_get_stats : RequestClass
req_get_stats = record { call_no = 112; args = argument "what" string ∷ [] }

abbrev pub req_get_boottime_info : RequestClass
req_get_boottime_info = record { call_no = 113; args = [] }

abbrev pub req_first_unused_conf_no : RequestClass
req_first_unused_conf_no = record { call_no = 114; args = [] }

abbrev pub req_first_unused_text_no : RequestClass
req_first_unused_text_no = record { call_no = 115; args = [] }

abbrev pub req_find_next_conf_no : RequestClass
req_find_next_conf_no = record { call_no = 116; args = argument "start" int ∷ [] }

abbrev pub req_find_previous_conf_no : RequestClass
req_find_previous_conf_no = record { call_no = 117; args = argument "start" int ∷ [] }

abbrev pub req_get_scheduling : RequestClass
req_get_scheduling = record { call_no = 118; args = argument "session_no" int ∷ [] }

abbrev pub req_set_scheduling : RequestClass
req_set_scheduling = record {
  call_no = 119;
  args = argument "session_no" int ∷ argument "priority" int ∷ argument "weight" int ∷ [];
}

abbrev pub req_set_connection_time_format : RequestClass
req_set_connection_time_format = record { call_no = 120; args = argument "use_utc" int ∷ [] }

abbrev pub req_local_to_global_reverse : RequestClass
req_local_to_global_reverse = record {
  call_no = 121;
  args =
      argument "conf_no" int
      ∷ argument "local_no_ceiling" int
      ∷ argument "no_of_existing_texts" int
      ∷ [];
}

abbrev pub req_map_created_texts_reverse : RequestClass
req_map_created_texts_reverse = record {
  call_no = 122;
  args =
      argument "author" int
      ∷ argument "local_no_ceiling" int
      ∷ argument "no_of_existing_texts" int
      ∷ [];
}

-- ===== src/Requests/Calls.antt =====
-- requests.py: every request class.
pub mod To33
pub mod To62
pub mod To88
pub mod To103
pub mod To122
use pylyskom.Base.{List, [], ◌∷◌}
use pylyskom.Requests.Request.{RequestClass}
use To33.{
  req_logout, req_change_conference, req_change_name, req_change_what_i_am_doing, req_set_priv_bits,
  req_set_passwd, req_delete_conf, req_sub_member, req_set_presentation, req_set_etc_motd,
  req_set_supervisor, req_set_permitted_submitters, req_set_super_conf, req_set_conf_type,
  req_set_garb_nice, req_get_marks, req_get_text, req_mark_as_read, req_delete_text,
  req_add_recipient, req_sub_recipient, req_add_comment, req_sub_comment,
}
use To62.{
  req_get_time, req_add_footnote, req_sub_footnote, req_set_unread, req_set_motd_of_lyskom,
  req_enable, req_sync_kom, req_shutdown_kom, req_get_person_stat, req_get_unread_confs,
  req_send_message, req_disconnect, req_who_am_i, req_set_user_area, req_get_last_text,
  req_find_next_text_no, req_find_previous_text_no, req_login,
}
use To88.{
  req_set_client_version, req_get_client_name, req_get_client_version, req_mark_text,
  req_unmark_text, req_re_z_lookup, req_get_version_info, req_lookup_z_name, req_set_last_read,
  req_get_uconf_stat, req_set_info, req_accept_async, req_query_async, req_user_active,
  req_who_is_on_dynamic, req_get_static_session_info, req_get_collate_table, req_create_text,
  req_create_anonymous_text, req_create_conf,
}
use To103.{
  req_create_person, req_get_text_stat, req_get_conf_stat, req_modify_text_info,
  req_modify_conf_info, req_get_info, req_modify_system_info, req_query_predefined_aux_items,
  req_set_expire, req_query_read_texts10, req_get_membership10, req_add_member, req_get_members,
  req_set_membership_type, req_local_to_global,
}
use To122.{
  req_map_created_texts, req_set_keep_commented, req_set_pers_flags, req_query_read_texts11,
  req_get_membership11, req_mark_as_unread, req_set_read_ranges, req_get_stats_description,
  req_get_stats, req_get_boottime_info, req_first_unused_conf_no, req_first_unused_text_no,
  req_find_next_conf_no, req_find_previous_conf_no, req_get_scheduling, req_set_scheduling,
  req_set_connection_time_format, req_local_to_global_reverse, req_map_created_texts_reverse,
}

-- In the order of the call numbers.
unfoldable pub request_classes : List RequestClass
request_classes =
    req_logout ∷ req_change_conference ∷ req_change_name ∷ req_change_what_i_am_doing
    ∷ req_set_priv_bits ∷ req_set_passwd ∷ req_delete_conf ∷ req_sub_member ∷ req_set_presentation
    ∷ req_set_etc_motd ∷ req_set_supervisor ∷ req_set_permitted_submitters ∷ req_set_super_conf
    ∷ req_set_conf_type ∷ req_set_garb_nice ∷ req_get_marks ∷ req_get_text ∷ req_mark_as_read
    ∷ req_delete_text ∷ req_add_recipient ∷ req_sub_recipient ∷ req_add_comment ∷ req_sub_comment
    ∷ req_get_time ∷ req_add_footnote ∷ req_sub_footnote ∷ req_set_unread ∷ req_set_motd_of_lyskom
    ∷ req_enable ∷ req_sync_kom ∷ req_shutdown_kom ∷ req_get_person_stat ∷ req_get_unread_confs
    ∷ req_send_message ∷ req_disconnect ∷ req_who_am_i ∷ req_set_user_area ∷ req_get_last_text
    ∷ req_find_next_text_no ∷ req_find_previous_text_no ∷ req_login ∷ req_set_client_version
    ∷ req_get_client_name ∷ req_get_client_version ∷ req_mark_text ∷ req_unmark_text
    ∷ req_re_z_lookup ∷ req_get_version_info ∷ req_lookup_z_name ∷ req_set_last_read
    ∷ req_get_uconf_stat ∷ req_set_info ∷ req_accept_async ∷ req_query_async ∷ req_user_active
    ∷ req_who_is_on_dynamic ∷ req_get_static_session_info ∷ req_get_collate_table ∷ req_create_text
    ∷ req_create_anonymous_text ∷ req_create_conf ∷ req_create_person ∷ req_get_text_stat
    ∷ req_get_conf_stat ∷ req_modify_text_info ∷ req_modify_conf_info ∷ req_get_info
    ∷ req_modify_system_info ∷ req_query_predefined_aux_items ∷ req_set_expire
    ∷ req_query_read_texts10 ∷ req_get_membership10 ∷ req_add_member ∷ req_get_members
    ∷ req_set_membership_type ∷ req_local_to_global ∷ req_map_created_texts ∷ req_set_keep_commented
    ∷ req_set_pers_flags ∷ req_query_read_texts11 ∷ req_get_membership11 ∷ req_mark_as_unread
    ∷ req_set_read_ranges ∷ req_get_stats_description ∷ req_get_stats ∷ req_get_boottime_info
    ∷ req_first_unused_conf_no ∷ req_first_unused_text_no ∷ req_find_next_conf_no
    ∷ req_find_previous_conf_no ∷ req_get_scheduling ∷ req_set_scheduling
    ∷ req_set_connection_time_format ∷ req_local_to_global_reverse ∷ req_map_created_texts_reverse
    ∷ []

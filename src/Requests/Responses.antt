-- ===== src/Requests/Responses.antt =====
-- requests.py: `response_dict`, the reader of the reply for each call number.
use pylyskom.Base.{ℕ, ◌≡◌, Bytes, List, [], ◌∷◌, false, some, All}
use pylyskom.Exec.{pure, ◌>>=◌}
use pylyskom.Exec.Stable.{Stable-pure, Stable-bind}
use pylyskom.Protocol.{Parser}
use pylyskom.Protocol.Stable.{IsStable}
use pylyskom.Dict
use pylyskom.Dict.{Dict}
use pylyskom.Datatypes.Basic.{parse_empty, parse_string, parse_int, parse_array}
use pylyskom.Datatypes.Basic.Stable.{
  parse_empty-Stable, parse_string-Stable, parse_int-Stable, parse_array-Stable,
}
use pylyskom.Datatypes.Time.{Time, parse_time, parse_time-Stable}
use pylyskom.Datatypes.Conference.{
  Conference, UConference, ConfZInfo, parse_conference, parse_u_conference, parse_conf_z_info,
  parse_conference-Stable, parse_u_conference-Stable, parse_conf_z_info-Stable,
}
use pylyskom.Datatypes.Person.{Person, parse_person, parse_person-Stable}
use pylyskom.Datatypes.Membership.{
  Membership10, Membership11, Member, parse_membership10, parse_membership11, parse_member,
  parse_membership10-Stable, parse_membership11-Stable, parse_member-Stable,
}
use pylyskom.Datatypes.Server.{
  Info, VersionInfo, StaticServerInfo, parse_info, parse_version_info, parse_static_server_info,
  parse_info-Stable, parse_version_info-Stable, parse_static_server_info-Stable,
}
use pylyskom.Datatypes.Session.{
  DynamicSessionInfo, StaticSessionInfo, SchedulingInfo, parse_dynamic_session_info,
  parse_static_session_info, parse_scheduling_info, parse_dynamic_session_info-Stable,
  parse_static_session_info-Stable, parse_scheduling_info-Stable,
}
use pylyskom.Datatypes.Text.{
  TextStat, TextList, TextMapping, Mark, parse_text_stat, parse_text_list, parse_text_mapping,
  parse_mark, parse_text_stat-Stable, parse_text_list-Stable, parse_text_mapping-Stable,
  parse_mark-Stable,
}
use pylyskom.Datatypes.Statistics.{
  StatsDescription, Stats, parse_stats_description, parse_stats, parse_stats_description-Stable,
  parse_stats-Stable,
}

-- One constructor for each class that `response_dict` names.
pub data Reply : Type 0 where
  empty : Reply
  int : ℕ → Reply
  static_server_info : StaticServerInfo → Reply
  string : Bytes → Reply
  conference : Conference → Reply
  info : Info → Reply
  text_list : TextList → Reply
  array_mark : List Mark → Reply
  array_member : List Member → Reply
  array_membership11 : List Membership11 → Reply
  array_membership10 : List Membership10 → Reply
  person : Person → Reply
  scheduling_info : SchedulingInfo → Reply
  static_session_info : StaticSessionInfo → Reply
  array_stats : List Stats → Reply
  stats_description : StatsDescription → Reply
  text_stat : TextStat → Reply
  time : Time → Reply
  u_conference : UConference → Reply
  ints : List ℕ → Reply
  version_info : VersionInfo → Reply
  text_mapping : TextMapping → Reply
  array_conf_z_info : List ConfZInfo → Reply
  membership11 : Membership11 → Reply
  membership10 : Membership10 → Reply
  array_dynamic_session_info : List DynamicSessionInfo → Reply

unfoldable pub empty_reply : Parser Reply
empty_reply = do _ ← parse_empty; pure empty

unfoldable pub reply : {A : Type 0} → (A → Reply) → Parser A → Parser Reply
reply c p = do value ← p; pure (c value)

empty_reply-Stable : IsStable empty_reply
unfolding empty_reply
empty_reply-Stable = Stable-bind parse_empty-Stable λ _. Stable-pure _

reply-Stable : {A : Type 0} (c : A → Reply) {p : Parser A} → IsStable p → IsStable (reply c p)
unfolding reply
reply-Stable c h = Stable-bind h λ _. Stable-pure _

unfoldable pub response_dict : Dict (Parser Reply)
response_dict =
    (1, empty_reply)
    ∷ (2, empty_reply)
    ∷ (3, empty_reply)
    ∷ (4, empty_reply)
    ∷ (7, empty_reply)
    ∷ (8, empty_reply)
    ∷ (11, empty_reply)
    ∷ (15, empty_reply)
    ∷ (16, empty_reply)
    ∷ (17, empty_reply)
    ∷ (18, empty_reply)
    ∷ (19, empty_reply)
    ∷ (20, empty_reply)
    ∷ (21, empty_reply)
    ∷ (22, empty_reply)
    ∷ (23, reply array_mark (parse_array parse_mark))
    ∷ (25, reply string (parse_string))
    ∷ (27, empty_reply)
    ∷ (29, empty_reply)
    ∷ (30, empty_reply)
    ∷ (31, empty_reply)
    ∷ (32, empty_reply)
    ∷ (33, empty_reply)
    ∷ (34, reply text_list (parse_text_list))
    ∷ (35, reply time (parse_time))
    ∷ (37, empty_reply)
    ∷ (38, empty_reply)
    ∷ (40, empty_reply)
    ∷ (41, empty_reply)
    ∷ (42, empty_reply)
    ∷ (43, empty_reply)
    ∷ (44, empty_reply)
    ∷ (49, reply person (parse_person))
    ∷ (52, reply ints (parse_array parse_int))
    ∷ (53, empty_reply)
    ∷ (55, empty_reply)
    ∷ (56, reply int (parse_int))
    ∷ (57, empty_reply)
    ∷ (58, reply int (parse_int))
    ∷ (60, reply int (parse_int))
    ∷ (61, reply int (parse_int))
    ∷ (62, empty_reply)
    ∷ (69, empty_reply)
    ∷ (70, reply string (parse_string))
    ∷ (71, reply string (parse_string))
    ∷ (72, empty_reply)
    ∷ (73, empty_reply)
    ∷ (74, reply array_conf_z_info (parse_array parse_conf_z_info))
    ∷ (75, reply version_info (parse_version_info))
    ∷ (76, reply array_conf_z_info (parse_array parse_conf_z_info))
    ∷ (77, empty_reply)
    ∷ (78, reply u_conference (parse_u_conference))
    ∷ (79, empty_reply)
    ∷ (80, empty_reply)
    ∷ (81, reply ints (parse_array parse_int))
    ∷ (82, empty_reply)
    ∷ (83, reply array_dynamic_session_info (parse_array parse_dynamic_session_info))
    ∷ (84, reply static_session_info (parse_static_session_info))
    ∷ (85, reply string (parse_string))
    ∷ (86, reply int (parse_int))
    ∷ (87, reply int (parse_int))
    ∷ (88, reply int (parse_int))
    ∷ (89, reply int (parse_int))
    ∷ (90, reply text_stat (parse_text_stat false))
    ∷ (91, reply conference (parse_conference))
    ∷ (92, empty_reply)
    ∷ (93, empty_reply)
    ∷ (94, reply info (parse_info))
    ∷ (95, empty_reply)
    ∷ (96, reply ints (parse_array parse_int))
    ∷ (97, empty_reply)
    ∷ (98, reply membership10 (parse_membership10))
    ∷ (99, reply array_membership10 (parse_array parse_membership10))
    ∷ (100, empty_reply)
    ∷ (101, reply array_member (parse_array parse_member))
    ∷ (102, empty_reply)
    ∷ (103, reply text_mapping (parse_text_mapping))
    ∷ (104, reply text_mapping (parse_text_mapping))
    ∷ (105, empty_reply)
    ∷ (106, empty_reply)
    ∷ (107, reply membership11 (parse_membership11))
    ∷ (108, reply array_membership11 (parse_array parse_membership11))
    ∷ (109, empty_reply)
    ∷ (110, empty_reply)
    ∷ (111, reply stats_description (parse_stats_description))
    ∷ (112, reply array_stats (parse_array parse_stats))
    ∷ (113, reply static_server_info (parse_static_server_info))
    ∷ (114, reply int (parse_int))
    ∷ (115, reply int (parse_int))
    ∷ (116, reply int (parse_int))
    ∷ (117, reply int (parse_int))
    ∷ (118, reply scheduling_info (parse_scheduling_info))
    ∷ (119, empty_reply)
    ∷ (120, empty_reply)
    ∷ (121, reply text_mapping (parse_text_mapping))
    ∷ (122, reply text_mapping (parse_text_mapping))
    ∷ []

response_dict-All : All (λ (n, p). IsStable p) response_dict
unfolding response_dict
response_dict-All = (
  empty_reply-Stable,
  (
    empty_reply-Stable,
    (
      empty_reply-Stable,
      (
        empty_reply-Stable,
        (
          empty_reply-Stable,
          (
            empty_reply-Stable,
            (
              empty_reply-Stable,
              (
                empty_reply-Stable,
                (
                  empty_reply-Stable,
                  (
                    empty_reply-Stable,
                    (
                      empty_reply-Stable,
                      (
                        empty_reply-Stable,
                        (
                          empty_reply-Stable,
                          (
                            empty_reply-Stable,
                            (
                              empty_reply-Stable,
                              (
                                (reply-Stable array_mark (parse_array-Stable parse_mark-Stable)),
                                (
                                  (reply-Stable string parse_string-Stable),
                                  (
                                    empty_reply-Stable,
                                    (
                                      empty_reply-Stable,
                                      (
                                        empty_reply-Stable,
                                        (
                                          empty_reply-Stable,
                                          (
                                            empty_reply-Stable,
                                            (
                                              empty_reply-Stable,
                                              (
                                                (reply-Stable text_list parse_text_list-Stable),
                                                (
                                                  (reply-Stable time parse_time-Stable),
                                                  (
                                                    empty_reply-Stable,
                                                    (
                                                      empty_reply-Stable,
                                                      (
                                                        empty_reply-Stable,
                                                        (
                                                          empty_reply-Stable,
                                                          (
                                                            empty_reply-Stable,
                                                            (
                                                            empty_reply-Stable,
                                                            (
                                                            empty_reply-Stable,
                                                            (
                                                            (reply-Stable person
                                                            parse_person-Stable),
                                                            (
                                                            (reply-Stable ints
                                                            (parse_array-Stable parse_int-Stable)),
                                                            (
                                                            empty_reply-Stable,
                                                            (
                                                            empty_reply-Stable,
                                                            (
                                                            (reply-Stable int parse_int-Stable),
                                                            (
                                                            empty_reply-Stable,
                                                            (
                                                            (reply-Stable int parse_int-Stable),
                                                            (
                                                            (reply-Stable int parse_int-Stable),
                                                            (
                                                            (reply-Stable int parse_int-Stable),
                                                            (
                                                            empty_reply-Stable,
                                                            (
                                                            empty_reply-Stable,
                                                            (
                                                            (reply-Stable string
                                                            parse_string-Stable),
                                                            (
                                                            (reply-Stable string
                                                            parse_string-Stable),
                                                            (
                                                            empty_reply-Stable,
                                                            (
                                                            empty_reply-Stable,
                                                            (
                                                            (reply-Stable array_conf_z_info (
                                                            parse_array-Stable
                                                            parse_conf_z_info-Stable)),
                                                            (
                                                            (reply-Stable version_info
                                                            parse_version_info-Stable),
                                                            (
                                                            (reply-Stable array_conf_z_info (
                                                            parse_array-Stable
                                                            parse_conf_z_info-Stable)),
                                                            (
                                                            empty_reply-Stable,
                                                            (
                                                            (reply-Stable u_conference
                                                            parse_u_conference-Stable),
                                                            (
                                                            empty_reply-Stable,
                                                            (
                                                            empty_reply-Stable,
                                                            (
                                                            (reply-Stable ints
                                                            (parse_array-Stable parse_int-Stable)),
                                                            (
                                                            empty_reply-Stable,
                                                            (
                                                            (reply-Stable array_dynamic_session_info
                                                            (parse_array-Stable
                                                            parse_dynamic_session_info-Stable)),
                                                            (
                                                            (reply-Stable static_session_info
                                                            parse_static_session_info-Stable),
                                                            (
                                                            (reply-Stable string
                                                            parse_string-Stable),
                                                            (
                                                            (reply-Stable int parse_int-Stable),
                                                            (
                                                            (reply-Stable int parse_int-Stable),
                                                            (
                                                            (reply-Stable int parse_int-Stable),
                                                            (
                                                            (reply-Stable int parse_int-Stable),
                                                            (
                                                            (reply-Stable text_stat
                                                            (parse_text_stat-Stable false)),
                                                            (
                                                            (reply-Stable conference
                                                            parse_conference-Stable),
                                                            (
                                                            empty_reply-Stable,
                                                            (
                                                            empty_reply-Stable,
                                                            (
                                                            (reply-Stable info parse_info-Stable),
                                                            (
                                                            empty_reply-Stable,
                                                            (
                                                            (reply-Stable ints
                                                            (parse_array-Stable parse_int-Stable)),
                                                            (
                                                            empty_reply-Stable,
                                                            (
                                                            (reply-Stable membership10
                                                            parse_membership10-Stable),
                                                            (
                                                            (reply-Stable array_membership10 (
                                                            parse_array-Stable
                                                            parse_membership10-Stable)),
                                                            (
                                                            empty_reply-Stable,
                                                            (
                                                            (reply-Stable array_member (
                                                            parse_array-Stable
                                                            parse_member-Stable)),
                                                            (
                                                            empty_reply-Stable,
                                                            (
                                                            (reply-Stable text_mapping
                                                            parse_text_mapping-Stable),
                                                            (
                                                            (reply-Stable text_mapping
                                                            parse_text_mapping-Stable),
                                                            (
                                                            empty_reply-Stable,
                                                            (
                                                            empty_reply-Stable,
                                                            (
                                                            (reply-Stable membership11
                                                            parse_membership11-Stable),
                                                            (
                                                            (reply-Stable array_membership11 (
                                                            parse_array-Stable
                                                            parse_membership11-Stable)),
                                                            (
                                                            empty_reply-Stable,
                                                            (
                                                            empty_reply-Stable,
                                                            (
                                                            (reply-Stable stats_description
                                                            parse_stats_description-Stable),
                                                            (
                                                            (reply-Stable array_stats (
                                                            parse_array-Stable parse_stats-Stable)),
                                                            (
                                                            (reply-Stable static_server_info
                                                            parse_static_server_info-Stable),
                                                            (
                                                            (reply-Stable int parse_int-Stable),
                                                            (
                                                            (reply-Stable int parse_int-Stable),
                                                            (
                                                            (reply-Stable int parse_int-Stable),
                                                            (
                                                            (reply-Stable int parse_int-Stable),
                                                            (
                                                            (reply-Stable scheduling_info
                                                            parse_scheduling_info-Stable),
                                                            (
                                                            empty_reply-Stable,
                                                            (
                                                            empty_reply-Stable,
                                                            (
                                                            (reply-Stable text_mapping
                                                            parse_text_mapping-Stable),
                                                            (
                                                            (reply-Stable text_mapping
                                                            parse_text_mapping-Stable),
                                                            tt,
                                                            ),
                                                            ),
                                                            ),
                                                            ),
                                                            ),
                                                            ),
                                                            ),
                                                            ),
                                                            ),
                                                            ),
                                                            ),
                                                            ),
                                                            ),
                                                            ),
                                                            ),
                                                            ),
                                                            ),
                                                            ),
                                                            ),
                                                            ),
                                                            ),
                                                            ),
                                                            ),
                                                            ),
                                                            ),
                                                            ),
                                                            ),
                                                            ),
                                                            ),
                                                            ),
                                                            ),
                                                            ),
                                                            ),
                                                            ),
                                                            ),
                                                            ),
                                                            ),
                                                            ),
                                                            ),
                                                            ),
                                                            ),
                                                            ),
                                                            ),
                                                            ),
                                                            ),
                                                            ),
                                                            ),
                                                            ),
                                                            ),
                                                            ),
                                                            ),
                                                            ),
                                                            ),
                                                            ),
                                                            ),
                                                            ),
                                                            ),
                                                            ),
                                                            ),
                                                            ),
                                                            ),
                                                            ),
                                                            ),
                                                            ),
                                                            ),
                                                            ),
                                                          ),
                                                        ),
                                                      ),
                                                    ),
                                                  ),
                                                ),
                                              ),
                                            ),
                                          ),
                                        ),
                                      ),
                                    ),
                                  ),
                                ),
                              ),
                            ),
                          ),
                        ),
                      ),
                    ),
                  ),
                ),
              ),
            ),
          ),
        ),
      ),
    ),
  ),
)

-- The reader of every reply is stable.
pub response_dict-Stable :
    (call_no : ℕ) {p : Parser Reply} → Dict.get response_dict call_no ≡ some p → IsStable p
response_dict-Stable call_no e =
    Dict.get-All (λ _ p. IsStable p) response_dict call_no response_dict-All e

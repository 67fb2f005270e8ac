-- ===== src/Errors.antt =====
-- errors.py: the errors that the server reports, by their numbers.
use pylyskom.Base.{ℕ, ◌≡◌, refl, ap, ◌∙◌, sym, [], ◌∷◌, some, All, ◌↔◌}
use pylyskom.Dict
use pylyskom.Dict.{Dict}

-- The subclasses of ServerError.
pub data ServerError : Type 0 where
  not_implemented obsolete_call invalid_password string_too_long login_first login_disallowed :
      ServerError
  conference_zero undefined_conference undefined_person access_denied permission_denied not_member :
      ServerError
  no_such_text text_zero no_such_local_text local_text_zero bad_name index_out_of_range :
      ServerError
  conference_exists person_exists secret_public letterbox ldb_error illegal_misc : ServerError
  illegal_info_type already_recipient already_comment already_footnote not_recipient not_comment :
      ServerError
  not_footnote recipient_limit comment_limit footnote_limit mark_limit not_author : ServerError
  no_connect out_ofmemory server_is_crazy client_is_crazy undefined_session regexp_error :
      ServerError
  not_marked temporary_failure long_array anonymous_rejected illegal_aux_item aux_item_permission :
      ServerError
  unknown_async internal_error feature_disabled message_not_sent invalid_membership_type
        invalid_range :
      ServerError
  invalid_range_list undefined_measurement priority_denied weight_denied weight_zero bad_bool :
      ServerError

unfoldable pub error_dict : Dict ServerError
error_dict =
    (2, not_implemented)
    ∷ (3, obsolete_call)
    ∷ (4, invalid_password)
    ∷ (5, string_too_long)
    ∷ (6, login_first)
    ∷ (7, login_disallowed)
    ∷ (8, conference_zero)
    ∷ (9, undefined_conference)
    ∷ (10, undefined_person)
    ∷ (11, access_denied)
    ∷ (12, permission_denied)
    ∷ (13, not_member)
    ∷ (14, no_such_text)
    ∷ (15, text_zero)
    ∷ (16, no_such_local_text)
    ∷ (17, local_text_zero)
    ∷ (18, bad_name)
    ∷ (19, index_out_of_range)
    ∷ (20, conference_exists)
    ∷ (21, person_exists)
    ∷ (22, secret_public)
    ∷ (23, letterbox)
    ∷ (24, ldb_error)
    ∷ (25, illegal_misc)
    ∷ (26, illegal_info_type)
    ∷ (27, already_recipient)
    ∷ (28, already_comment)
    ∷ (29, already_footnote)
    ∷ (30, not_recipient)
    ∷ (31, not_comment)
    ∷ (32, not_footnote)
    ∷ (33, recipient_limit)
    ∷ (34, comment_limit)
    ∷ (35, footnote_limit)
    ∷ (36, mark_limit)
    ∷ (37, not_author)
    ∷ (38, no_connect)
    ∷ (39, out_ofmemory)
    ∷ (40, server_is_crazy)
    ∷ (41, client_is_crazy)
    ∷ (42, undefined_session)
    ∷ (43, regexp_error)
    ∷ (44, not_marked)
    ∷ (45, temporary_failure)
    ∷ (46, long_array)
    ∷ (47, anonymous_rejected)
    ∷ (48, illegal_aux_item)
    ∷ (49, aux_item_permission)
    ∷ (50, unknown_async)
    ∷ (51, internal_error)
    ∷ (52, feature_disabled)
    ∷ (53, message_not_sent)
    ∷ (54, invalid_membership_type)
    ∷ (55, invalid_range)
    ∷ (56, invalid_range_list)
    ∷ (57, undefined_measurement)
    ∷ (58, priority_denied)
    ∷ (59, weight_denied)
    ∷ (60, weight_zero)
    ∷ (61, bad_bool)
    ∷ []

-- The number that stands in a comment beside each class.
abbrev pub documented_no : ServerError → ℕ
documented_no not_implemented = 2
documented_no obsolete_call = 3
documented_no invalid_password = 4
documented_no string_too_long = 5
documented_no login_first = 6
documented_no login_disallowed = 7
documented_no conference_zero = 8
documented_no undefined_conference = 9
documented_no undefined_person = 10
documented_no access_denied = 11
documented_no permission_denied = 12
documented_no not_member = 13
documented_no no_such_text = 14
documented_no text_zero = 15
documented_no no_such_local_text = 16
documented_no local_text_zero = 17
documented_no bad_name = 18
documented_no index_out_of_range = 19
documented_no conference_exists = 20
documented_no person_exists = 21
documented_no secret_public = 22
documented_no letterbox = 23
documented_no ldb_error = 24
documented_no illegal_misc = 25
documented_no illegal_info_type = 26
documented_no already_recipient = 27
documented_no already_comment = 28
documented_no already_footnote = 29
documented_no not_recipient = 30
documented_no not_comment = 31
documented_no not_footnote = 32
documented_no recipient_limit = 33
documented_no comment_limit = 34
documented_no footnote_limit = 35
documented_no mark_limit = 36
documented_no not_author = 37
documented_no no_connect = 38
documented_no out_ofmemory = 39
documented_no server_is_crazy = 40
documented_no client_is_crazy = 41
documented_no undefined_session = 42
documented_no regexp_error = 43
documented_no not_marked = 44
documented_no temporary_failure = 45
documented_no long_array = 46
documented_no anonymous_rejected = 47
documented_no illegal_aux_item = 48
documented_no aux_item_permission = 49
documented_no unknown_async = 50
documented_no internal_error = 51
documented_no feature_disabled = 52
documented_no message_not_sent = 53
documented_no invalid_membership_type = 54
documented_no invalid_range = 55
documented_no invalid_range_list = 56
documented_no undefined_measurement = 57
documented_no priority_denied = 58
documented_no weight_denied = 59
documented_no weight_zero = 60
documented_no bad_bool = 61

abbrev IsDocumented : ℕ × ServerError → Type 0
IsDocumented (n, e) = documented_no e ≡ n

error_dict-All : All IsDocumented error_dict
unfolding error_dict
error_dict-All = (
  refl,
  (
    refl,
    (
      refl,
      (
        refl,
        (
          refl,
          (
            refl,
            (
              refl,
              (
                refl,
                (
                  refl,
                  (
                    refl,
                    (
                      refl,
                      (
                        refl,
                        (
                          refl,
                          (
                            refl,
                            (
                              refl,
                              (
                                refl,
                                (
                                  refl,
                                  (
                                    refl,
                                    (
                                      refl,
                                      (
                                        refl,
                                        (
                                          refl,
                                          (
                                            refl,
                                            (
                                              refl,
                                              (
                                                refl,
                                                (
                                                  refl,
                                                  (
                                                    refl,
                                                    (
                                                      refl,
                                                      (
                                                        refl,
                                                        (
                                                          refl,
                                                          (
                                                            refl,
                                                            (
                                                            refl,
                                                            (
                                                            refl,
                                                            (
                                                            refl,
                                                            (
                                                            refl,
                                                            (
                                                            refl,
                                                            (
                                                            refl,
                                                            (
                                                            refl,
                                                            (
                                                            refl,
                                                            (
                                                            refl,
                                                            (
                                                            refl,
                                                            (
                                                            refl,
                                                            (
                                                            refl,
                                                            (
                                                            refl,
                                                            (
                                                            refl,
                                                            (
                                                            refl,
                                                            (
                                                            refl,
                                                            (
                                                            refl,
                                                            (
                                                            refl,
                                                            (
                                                            refl,
                                                            (
                                                            refl,
                                                            (
                                                            refl,
                                                            (
                                                            refl,
                                                            (
                                                            refl,
                                                            (
                                                            refl,
                                                            (
                                                            refl,
                                                            (
                                                            refl,
                                                            (refl, (refl, (refl, (refl, tt)))),
                                                            ),
                                                            ),
                                                            ),
                                                            ),
                                                            ),
                                                            ),
                                                            ),
                                                            ),
                                                            ),
                                                            ),
                                                            ),
                                                            ),
                                                            ),
                                                            ),
                                                            ),
                                                            ),
                                                            ),
                                                            ),
                                                            ),
                                                            ),
                                                            ),
                                                            ),
                                                            ),
                                                            ),
                                                            ),
                                                            ),
                                                          ),
                                                        ),
                                                      ),
                                                    ),
                                                  ),
                                                ),
                                              ),
                                            ),
                                          ),
                                        ),
                                      ),
                                    ),
                                  ),
                                ),
                              ),
                            ),
                          ),
                        ),
                      ),
                    ),
                  ),
                ),
              ),
            ),
          ),
        ),
      ),
    ),
  ),
)

found : (e : ServerError) → Dict.get error_dict (documented_no e) ≡ some e
unfolding error_dict Dict.get
found not_implemented = refl
found obsolete_call = refl
found invalid_password = refl
found string_too_long = refl
found login_first = refl
found login_disallowed = refl
found conference_zero = refl
found undefined_conference = refl
found undefined_person = refl
found access_denied = refl
found permission_denied = refl
found not_member = refl
found no_such_text = refl
found text_zero = refl
found no_such_local_text = refl
found local_text_zero = refl
found bad_name = refl
found index_out_of_range = refl
found conference_exists = refl
found person_exists = refl
found secret_public = refl
found letterbox = refl
found ldb_error = refl
found illegal_misc = refl
found illegal_info_type = refl
found already_recipient = refl
found already_comment = refl
found already_footnote = refl
found not_recipient = refl
found not_comment = refl
found not_footnote = refl
found recipient_limit = refl
found comment_limit = refl
found footnote_limit = refl
found mark_limit = refl
found not_author = refl
found no_connect = refl
found out_ofmemory = refl
found server_is_crazy = refl
found client_is_crazy = refl
found undefined_session = refl
found regexp_error = refl
found not_marked = refl
found temporary_failure = refl
found long_array = refl
found anonymous_rejected = refl
found illegal_aux_item = refl
found aux_item_permission = refl
found unknown_async = refl
found internal_error = refl
found feature_disabled = refl
found message_not_sent = refl
found invalid_membership_type = refl
found invalid_range = refl
found invalid_range_list = refl
found undefined_measurement = refl
found priority_denied = refl
found weight_denied = refl
found weight_zero = refl
found bad_bool = refl

-- `error_dict` has a class under a number exactly when the comment beside the class has that number:
-- no class is missing, none stands under two numbers, and no number has two.
pub error_dict-documented :
    (n : ℕ) (e : ServerError) → (Dict.get error_dict n ≡ some e) ↔ (documented_no e ≡ n)
error_dict-documented n e = (
  Dict.get-All (λ n e. documented_no e ≡ n) error_dict n error_dict-All,
  λ same. ap (Dict.get error_dict) (sym same) ∙ found e,
)

-- ===== src/Caching/Members.antt =====
-- cachedconnection.py: the operations of `CachingPersonClient`.
use pylyskom.Base.{ℕ, List, [], ◌∷◌, Bool, true, false, none, some, ◌==◌, if◌then◌else◌}
use pylyskom.Result.{Result, ok, raise, unspecified, server_error}
use pylyskom.Errors.{not_member}
use pylyskom.Exec.{Exec, ◌>>=◌, ◌>>◌}
use pylyskom.Datatypes.Membership.{Membership11}
use pylyskom.Requests.Request.{Value, number, numbers, str}
use pylyskom.Requests.Responses
use pylyskom.Requests.Responses.{Reply}
use pylyskom.Requests.Calls.To33.{req_logout, req_change_conference, req_mark_as_read}
use pylyskom.Requests.Calls.To62.{req_login}
use pylyskom.Requests.Calls.To122.{req_get_membership11, req_query_read_texts11, req_mark_as_unread}
use pylyskom.Memberships
use pylyskom.Memberships.{PersonCaches, get_cached, update_cached}
use pylyskom.Caching.{ClientApi, CachingPersonClient, Place, on_person, request, ask, cached}

unfoldable pub as_membership : Reply → Result Membership11
as_membership (Responses.membership11 m) = ok m
as_membership _ = raise unspecified

unfoldable pub as_memberships : Reply → Result (List Membership11)
as_memberships (Responses.array_membership11 l) = ok l
as_memberships _ = raise unspecified

-- What a request for nothing gave; its reply is not looked at.
unfoldable pub done : Result Reply → Result (Unit {0})
done (ok r) = ok tt
done (raise e) = raise e

abbrev pub flag : Bool → Value
flag b = number (if b then 1 else 0)

-- The `except NotMember: pass`.
unfoldable pub but_not_member : {S : Type 0} → Result Reply × S → Result (Unit {0}) × S
but_not_member (ok r, s) = (ok tt, s)
but_not_member (raise (server_error not_member status), s) = (ok tt, s)
but_not_member (raise e, s) = (raise e, s)

abbrev pub memberships : {S : Type 0} → Place S Membership11
memberships = record {
  view = λ s. s.person.memberships;
  update = λ c s. record s { person = record s.person { memberships = c } };
}

module _ {S : Type 0} (api : ClientApi S) where
  -- CachingPersonClient.login
  unfoldable pub login : ℕ → List ℕ → Exec (CachingPersonClient S) (Unit {0})
  login pers_no password =
      request api req_login (number pers_no ∷ str password ∷ []) (("invisible", number 0) ∷ [])
      >> on_person (Memberships.login (ok tt) pers_no)

  -- CachingPersonClient.logout
  unfoldable pub logout : Exec (CachingPersonClient S) (Unit {0})
  logout = request api req_logout [] [] >> on_person (Memberships.logout (ok tt))

  -- CachingPersonClient.change_conference. `prev_conf_no` is read before the request, in which no
  -- handler changes it.
  unfoldable pub change_conference : ℕ → Exec (CachingPersonClient S) (Unit {0})
  change_conference conf_no =
      request api req_change_conference (number conf_no ∷ []) []
      >> on_person (Memberships.change_conference (ok tt) conf_no)

  -- CachingPersonClient.mark_as_read_local
  unfoldable pub mark_as_read_local : ℕ → ℕ → Exec (CachingPersonClient S) (Unit {0})
  mark_as_read_local conf_no local_text_no s =
      but_not_member
        (request api req_mark_as_read (number conf_no ∷ numbers (local_text_no ∷ []) ∷ []) [] s)

  -- CachingPersonClient.mark_as_unread_local
  unfoldable pub mark_as_unread_local : ℕ → ℕ → Exec (CachingPersonClient S) (Unit {0})
  mark_as_unread_local conf_no local_text_no s =
      but_not_member
        (request api req_mark_as_unread (number conf_no ∷ number local_text_no ∷ []) [] s)

  -- `ReqGetMembership11(pers_no, first, no_of_confs, want_read_ranges, 0)`
  unfoldable pub fetch_memberships :
      ℕ → ℕ → ℕ → Bool → Exec (CachingPersonClient S) (List Membership11)
  fetch_memberships pers_no first no_of_confs want_read_ranges =
      ask api as_memberships req_get_membership11
        (number pers_no ∷ number first ∷ number no_of_confs ∷ flag want_read_ranges ∷ number 0 ∷ [])

  -- `self._update_cached_memberships_by_position(memberships)`, and the memberships.
  unfoldable pub remember : List Membership11 → Exec (CachingPersonClient S) (List Membership11)
  remember l s = (
    ok l,
    record s {
      person = record s.person {
        memberships_by_position = update_cached l s.person.memberships_by_position;
      };
    },
  )

  -- The branch for the current person.
  unfoldable pub own_memberships : ℕ → ℕ → Exec (CachingPersonClient S) (List Membership11)
  own_memberships first no_of_confs s =
      elim (get_cached s.person.memberships_by_position first no_of_confs) [
        | some l ↦ (ok l, s)
        | none ↦ (fetch_memberships s.person.pers_no first no_of_confs false >>= remember) s
      ]

  -- CachingPersonClient.get_memberships
  unfoldable pub get_memberships :
      ℕ → ℕ → ℕ → Bool → Exec (CachingPersonClient S) (List Membership11)
  get_memberships pers_no first no_of_confs true s = fetch_memberships pers_no 0 no_of_confs true s
  get_memberships pers_no first no_of_confs false s =
      if pers_no == s.person.pers_no
      then own_memberships first no_of_confs s
      else fetch_memberships pers_no 0 no_of_confs false s

  unfoldable pub query_read_texts : ℕ → ℕ → Bool → Exec (CachingPersonClient S) Membership11
  query_read_texts pers_no conf_no want_read_ranges =
      ask api as_membership req_query_read_texts11
        (number pers_no ∷ number conf_no ∷ flag want_read_ranges ∷ number 0 ∷ [])

  -- CachingPersonClient._fetch_membership
  unfoldable pub fetch_membership : ℕ → Exec (CachingPersonClient S) Membership11
  fetch_membership conf_no s = query_read_texts s.person.pers_no conf_no false s

  -- CachingPersonClient.get_membership
  unfoldable pub get_membership : ℕ → ℕ → Bool → Exec (CachingPersonClient S) Membership11
  get_membership pers_no conf_no true s = query_read_texts pers_no conf_no true s
  get_membership pers_no conf_no false s =
      if pers_no == s.person.pers_no
      then cached memberships fetch_membership conf_no s
      else query_read_texts pers_no conf_no false s

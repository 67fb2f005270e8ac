-- ===== src/Session/Memberships.antt =====
-- komsession.py: the memberships of a person in a `KomSession`. `fuel` bounds the requests for one
-- conference's unread texts, and `none` stands for a bound that is too small.
use pylyskom.Base.{
  ℕ, List, [], ◌∷◌, length, Bool, true, false, not, ◌&&◌, Option, none, some, ◌==◌, ltb,
  if◌then◌else◌,
}
use pylyskom.Result.{Result, ok, raise, assertion_error, unspecified}
use pylyskom.Exec.{Exec, pure, throw, ◌>>=◌}
use pylyskom.Datatypes.Membership.{Membership11}
use pylyskom.Requests.Request.{number, bits}
use pylyskom.Requests.Responses
use pylyskom.Requests.Responses.{Reply}
use pylyskom.Requests.Calls.To33.{req_sub_member}
use pylyskom.Requests.Calls.To62.{req_get_unread_confs, req_set_unread}
use pylyskom.Requests.Calls.To103.{req_add_member}
use pylyskom.Caching.{ClientApi, ask}
use pylyskom.Caching.Members
use pylyskom.Caching.Unread
use pylyskom.Session.{KomSession, each, on_client, check_connection, perform}
use pylyskom.Session.Kom.{KomMembership, kom_membership, KomMembershipUnread}
use pylyskom.Session.Names.{no_flags, person_of, uconference_of}

unfoldable pub as_ints : Reply → Result (List ℕ)
as_ints (Responses.ints l) = ok l
as_ints _ = raise unspecified

-- membership.type.passive, the bit with number 1
unfoldable pub is_passive : Membership11 → Bool
is_passive m = bit m.type
  where
    bit : List ℕ → Bool
    bit (_ ∷ b ∷ _) = not (b == 0)
    bit _ = false

-- The memberships that the `for` of `get_memberships` goes on with.
unfoldable pub wanted : Bool → List Membership11 → List Membership11
wanted passive [] = []
wanted passive (m ∷ l) =
    let rest = wanted passive l in if not passive && is_passive m then rest else m ∷ rest

-- [ m for m in memberships if m.no_of_unread > 0 ]
unfoldable pub with_unread : List KomMembershipUnread → List KomMembershipUnread
with_unread [] = []
with_unread (m ∷ l) = let rest = with_unread l in if ltb 0 m.no_of_unread then m ∷ rest else rest

-- The elements, if they are all there.
unfoldable pub all_of : {A : Type 0} → List (Option A) → Option (List A)
all_of [] = some []
all_of (none ∷ l) = none
all_of (some x ∷ l) = elim (all_of l) [ none ↦ none | some rest ↦ some (x ∷ rest) ]

unfoldable pub unread_of : ℕ → ℕ → Option (List ℕ) → Option KomMembershipUnread
unread_of pers_no conf_no none = none
unread_of pers_no conf_no (some l) =
    some
      (record { pers_no = pers_no; conf_no = conf_no; no_of_unread = length l; unread_texts = l })

module _ {S : Type 0} (api : ClientApi S) where
  -- The `KomMembership` of a membership in the list.
  unfoldable pub membership_of : ℕ → Membership11 → Exec (KomSession S) KomMembership
  membership_of pers_no m = do
    added_by ← person_of api m.added_by
    conference ← uconference_of api m.conference
    pure (kom_membership pers_no m added_by conference)

module _ {S : Type 0} (api : ClientApi S) (close : S → Result (Unit {0})) where
  -- KomSession.add_membership
  unfoldable pub add_membership : ℕ → ℕ → ℕ → ℕ → Exec (KomSession S) (Unit {0})
  add_membership pers_no conf_no priority position = check_connection close (
      perform api close req_add_member
        (number conf_no ∷ number pers_no ∷ number priority ∷ number position ∷ bits no_flags ∷ []))

  -- KomSession.delete_membership
  unfoldable pub delete_membership : ℕ → ℕ → Exec (KomSession S) (Unit {0})
  delete_membership pers_no conf_no =
      check_connection close
        (perform api close req_sub_member (number conf_no ∷ number pers_no ∷ []))

  -- KomSession.get_membership
  unfoldable pub get_membership : ℕ → ℕ → Exec (KomSession S) KomMembership
  get_membership pers_no conf_no = check_connection close do
    membership ← on_client (Members.get_membership api pers_no conf_no false)
    added_by ← person_of api membership.added_by
    conference ← uconference_of api conf_no
    pure (kom_membership pers_no membership added_by conference)

  -- KomSession.get_membership_unread
  unfoldable pub get_membership_unread :
      ℕ → ℕ → ℕ → Exec (KomSession S) (Option KomMembershipUnread)
  get_membership_unread fuel pers_no conf_no = check_connection close do
    membership ← on_client (Members.get_membership api pers_no conf_no true)
    unread ← on_client (Unread.get_unread_texts_from_membership api fuel membership)
    pure (unread_of pers_no conf_no unread)

  -- The branch of `get_memberships` with `unread`.
  unfoldable pub unread_memberships : ℕ → Exec (KomSession S) (List KomMembership × Bool)
  unread_memberships pers_no = do
    conf_nos ← on_client (ask api as_ints req_get_unread_confs (number pers_no ∷ []))
    memberships ← each (get_membership pers_no) conf_nos
    pure (memberships, false)

  -- The other branch.
  unfoldable pub listed_memberships :
      ℕ → ℕ → ℕ → Bool → Exec (KomSession S) (List KomMembership × Bool)
  listed_memberships pers_no first no_of_confs passive = do
    ms_list ← on_client (Members.get_memberships api pers_no first no_of_confs false)
    memberships ← each (membership_of api pers_no) (wanted passive ms_list)
    pure (memberships, not (ltb (length ms_list) no_of_confs))

  -- KomSession.get_memberships
  unfoldable pub get_memberships :
      ℕ → ℕ → ℕ → Bool → Bool → Exec (KomSession S) (List KomMembership × Bool)
  get_memberships pers_no first no_of_confs true true =
      check_connection close (throw assertion_error)
  get_memberships pers_no first no_of_confs true false =
      check_connection close (unread_memberships pers_no)
  get_memberships pers_no first no_of_confs false passive =
      check_connection close (listed_memberships pers_no first no_of_confs passive)

  -- KomSession.get_membership_unreads
  unfoldable pub get_membership_unreads :
      ℕ → ℕ → Exec (KomSession S) (Option (List KomMembershipUnread))
  get_membership_unreads fuel pers_no = check_connection close do
    conf_nos ← on_client (ask api as_ints req_get_unread_confs (number pers_no ∷ []))
    memberships ← each (get_membership_unread fuel pers_no) conf_nos
    pure (elim (all_of memberships) [ none ↦ none | some l ↦ some (with_unread l) ])

  -- KomSession.set_unread
  unfoldable pub set_unread : ℕ → ℕ → Exec (KomSession S) (Unit {0})
  set_unread conf_no no_of_unread =
      check_connection close
        (perform api close req_set_unread (number conf_no ∷ number no_of_unread ∷ []))

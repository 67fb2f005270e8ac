-- ===== src/Memberships.antt =====
-- cachedconnection.py: what `CachingPersonClient` remembers of the logged in person's memberships.
-- A method that sends a request takes its outcome as an argument.
pub mod Positions
use pylyskom.Base.{ℕ, zero, suc, ◌+◌, List, [], ◌∷◌, Bool, Option, none, some, ◌==◌, if◌then◌else◌}
use pylyskom.Result.{Result, ok, raise}
use pylyskom.Exec.{Exec}
use pylyskom.Dict
use pylyskom.Dict.{Dict}
use pylyskom.Datatypes.Membership.{Membership11}
use pylyskom.Cache.{Cache, new_cache, invalidate, invalidate_all}

pub record PersonCaches : Type 0 where
  pub pers_no : ℕ
  pub current_conference_no : ℕ
  pub memberships : Cache Membership11
  -- The keys are the positions in the membership list.
  pub memberships_by_position : Dict Membership11

unfoldable pub new_person_caches : PersonCaches
new_person_caches = record {
  pers_no = 0;
  current_conference_no = 0;
  memberships = new_cache;
  memberships_by_position = [];
}

-- `_get_cached_memberships_by_position`, on the dict: the memberships at `first` and the positions
-- behind it, `no_of_confs` of them, if all are there.
unfoldable pub get_cached : Dict Membership11 → ℕ → ℕ → Option (List Membership11)
get_cached d first zero = some []
get_cached d first (suc no_of_confs) = elim (Dict.get d first) [
  | none ↦ none
  | some m ↦ elim (get_cached d (first + 1) no_of_confs) [ none ↦ none | some l ↦ some (m ∷ l) ]
]

-- `_update_cached_memberships_by_position`, on the dict
unfoldable pub update_cached : List Membership11 → Dict Membership11 → Dict Membership11
update_cached [] d = d
update_cached (m ∷ l) d = update_cached l (Dict.put d m.position m)

-- The `for` of `_invalidate_membership` over the positions: where a membership in the conference is.
unfoldable pub find_position : Dict Membership11 → ℕ → List ℕ → Option ℕ
find_position d conf_no [] = none
find_position d conf_no (pos ∷ positions) = elim (Dict.get d pos) [
  | none ↦ find_position d conf_no positions
  | some m ↦
      let rest = find_position d conf_no positions in
      if m.conference == conf_no then some pos else rest
]

unfoldable pub forget_conference : ℕ → Dict Membership11 → Dict Membership11
forget_conference conf_no d = elim (find_position d conf_no (Dict.keys d)) [
  | none ↦ d
  | some found_at ↦ Dict.remove d found_at
]

-- CachingPersonClient._invalidate_membership
unfoldable pub invalidate_membership : ℕ → PersonCaches → PersonCaches
invalidate_membership conf_no s = record s {
  memberships = invalidate conf_no s.memberships;
  memberships_by_position = forget_conference conf_no s.memberships_by_position;
}

-- CachingPersonClient.change_conference
unfoldable pub change_conference : Result (Unit {0}) → ℕ → Exec PersonCaches (Unit {0})
change_conference (raise e) conf_no s = (raise e, s)
change_conference (ok _) conf_no s =
    let moved = record s { current_conference_no = conf_no } in
    if s.current_conference_no == 0
    then (ok tt, moved)
    else (ok tt, invalidate_membership s.current_conference_no moved)

-- CachingPersonClient.login
unfoldable pub login : Result (Unit {0}) → ℕ → Exec PersonCaches (Unit {0})
login (raise e) pers_no s = (raise e, s)
login (ok _) pers_no s = (ok tt, record s { pers_no = pers_no })

-- CachingPersonClient.logout
unfoldable pub logout : Result (Unit {0}) → Exec PersonCaches (Unit {0})
logout (raise e) s = (raise e, s)
logout (ok _) s = (
  ok tt,
  record s {
    pers_no = 0;
    memberships_by_position = [];
    memberships = invalidate_all s.memberships;
  },
)

-- CachingPersonClient._cpah_leave_conf
unfoldable pub cpah_leave_conf : ℕ → PersonCaches → PersonCaches
cpah_leave_conf conf_no s = record s {
  memberships = invalidate conf_no s.memberships;
  memberships_by_position = [];
}

-- CachingPersonClient._cpah_new_membership
unfoldable pub cpah_new_membership : PersonCaches → PersonCaches
cpah_new_membership s = record s { memberships_by_position = [] }

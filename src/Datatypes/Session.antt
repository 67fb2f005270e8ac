-- ===== src/Datatypes/Session.antt =====
-- datatypes.py: information about sessions.
use pylyskom.Base.{ℕ, Bytes, List}
use pylyskom.Exec.{pure, ◌>>=◌}
use pylyskom.Exec.Stable.{Stable-pure, Stable-bind}
use pylyskom.Protocol.{Parser}
use pylyskom.Protocol.Stable.{IsStable}
use pylyskom.Datatypes.Basic.{parse_string, parse_int}
use pylyskom.Datatypes.Basic.Stable.{parse_string-Stable, parse_int-Stable}
use pylyskom.Datatypes.Time.{Time, parse_time, parse_time-Stable}
use pylyskom.Datatypes.Flags.{parse_session_flags, parse_session_flags-Stable}

pub record DynamicSessionInfo : Type 0 where
  pub session : ℕ
  pub person : ℕ
  pub working_conference : ℕ
  pub idle_time : ℕ
  pub flags : List ℕ
  pub what_am_i_doing : Bytes

unfoldable pub parse_dynamic_session_info : Parser DynamicSessionInfo
parse_dynamic_session_info = do
  session ← parse_int
  person ← parse_int
  working_conference ← parse_int
  idle_time ← parse_int
  flags ← parse_session_flags
  what_am_i_doing ← parse_string
  pure (record {
    session = session;
    person = person;
    working_conference = working_conference;
    idle_time = idle_time;
    flags = flags;
    what_am_i_doing = what_am_i_doing;
  })

pub parse_dynamic_session_info-Stable : IsStable parse_dynamic_session_info
unfolding parse_dynamic_session_info
parse_dynamic_session_info-Stable = Stable-bind parse_int-Stable λ _.
    Stable-bind parse_int-Stable λ _. Stable-bind parse_int-Stable λ _.
      Stable-bind parse_int-Stable λ _.
        Stable-bind parse_session_flags-Stable
          λ _. Stable-bind parse_string-Stable λ _. Stable-pure _

pub record StaticSessionInfo : Type 0 where
  pub username : Bytes
  pub hostname : Bytes
  pub ident_user : Bytes
  pub bufection_time : Time

unfoldable pub parse_static_session_info : Parser StaticSessionInfo
parse_static_session_info = do
  username ← parse_string
  hostname ← parse_string
  ident_user ← parse_string
  bufection_time ← parse_time
  pure (record {
    username = username;
    hostname = hostname;
    ident_user = ident_user;
    bufection_time = bufection_time;
  })

pub parse_static_session_info-Stable : IsStable parse_static_session_info
unfolding parse_static_session_info
parse_static_session_info-Stable = Stable-bind parse_string-Stable λ _.
    Stable-bind parse_string-Stable
      λ _. Stable-bind parse_string-Stable λ _. Stable-bind parse_time-Stable λ _. Stable-pure _

pub record SchedulingInfo : Type 0 where
  pub priority : ℕ
  pub weight : ℕ

unfoldable pub parse_scheduling_info : Parser SchedulingInfo
parse_scheduling_info = do
  priority ← parse_int
  weight ← parse_int
  pure (record { priority = priority; weight = weight })

pub parse_scheduling_info-Stable : IsStable parse_scheduling_info
unfolding parse_scheduling_info
parse_scheduling_info-Stable =
    Stable-bind parse_int-Stable λ _. Stable-bind parse_int-Stable λ _. Stable-pure _

pub record WhoInfo : Type 0 where
  pub person : ℕ
  pub working_conference : ℕ
  pub session : ℕ
  pub what_am_i_doing : Bytes
  pub username : Bytes

unfoldable pub parse_who_info : Parser WhoInfo
parse_who_info = do
  person ← parse_int
  working_conference ← parse_int
  session ← parse_int
  what_am_i_doing ← parse_string
  username ← parse_string
  pure (record {
    person = person;
    working_conference = working_conference;
    session = session;
    what_am_i_doing = what_am_i_doing;
    username = username;
  })

pub parse_who_info-Stable : IsStable parse_who_info
unfolding parse_who_info
parse_who_info-Stable = Stable-bind parse_int-Stable λ _. Stable-bind parse_int-Stable λ _.
    Stable-bind parse_int-Stable
      λ _. Stable-bind parse_string-Stable λ _. Stable-bind parse_string-Stable λ _. Stable-pure _

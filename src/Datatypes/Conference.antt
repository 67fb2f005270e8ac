-- ===== src/Datatypes/Conference.antt =====
-- datatypes.py: conferences.
use pylyskom.Base.{ℕ, Bytes, List}
use pylyskom.Exec.{pure, ◌>>=◌}
use pylyskom.Exec.Stable.{Stable-pure, Stable-bind}
use pylyskom.Protocol.{Parser}
use pylyskom.Protocol.Stable.{IsStable}
use pylyskom.Datatypes.Basic.{parse_string, parse_int, parse_array}
use pylyskom.Datatypes.Basic.Stable.{parse_string-Stable, parse_int-Stable, parse_array-Stable}
use pylyskom.Datatypes.Time.{Time, parse_time, parse_time-Stable}
use pylyskom.Datatypes.Flags.{
  parse_conf_type, parse_conf_type-Stable, parse_extended_conf_type,
  parse_extended_conf_type-Stable,
}
use pylyskom.Datatypes.AuxItem.{AuxItem, parse_aux_item, parse_aux_item-Stable}

pub record ConfZInfo : Type 0 where
  pub name : Bytes
  pub type : List ℕ
  pub conf_no : ℕ

unfoldable pub parse_conf_z_info : Parser ConfZInfo
parse_conf_z_info = do
  name ← parse_string
  type ← parse_conf_type
  conf_no ← parse_int
  pure (record { name = name; type = type; conf_no = conf_no })

pub parse_conf_z_info-Stable : IsStable parse_conf_z_info
unfolding parse_conf_z_info
parse_conf_z_info-Stable =
    Stable-bind parse_string-Stable
      λ _. Stable-bind parse_conf_type-Stable λ _. Stable-bind parse_int-Stable λ _. Stable-pure _

pub record Conference : Type 0 where
  pub name : Bytes
  pub type : List ℕ
  pub creation_time : Time
  pub last_written : Time
  pub creator : ℕ
  pub presentation : ℕ
  pub supervisor : ℕ
  pub permitted_submitters : ℕ
  pub super_conf : ℕ
  pub msg_of_day : ℕ
  pub nice : ℕ
  pub keep_commented : ℕ
  pub no_of_members : ℕ
  pub first_local_no : ℕ
  pub no_of_texts : ℕ
  pub expire : ℕ
  pub aux_items : List AuxItem

unfoldable pub parse_conference : Parser Conference
parse_conference = do
  name ← parse_string
  type ← parse_extended_conf_type
  creation_time ← parse_time
  last_written ← parse_time
  creator ← parse_int
  presentation ← parse_int
  supervisor ← parse_int
  permitted_submitters ← parse_int
  super_conf ← parse_int
  msg_of_day ← parse_int
  nice ← parse_int
  keep_commented ← parse_int
  no_of_members ← parse_int
  first_local_no ← parse_int
  no_of_texts ← parse_int
  expire ← parse_int
  aux_items ← parse_array parse_aux_item
  pure (record {
    name = name;
    type = type;
    creation_time = creation_time;
    last_written = last_written;
    creator = creator;
    presentation = presentation;
    supervisor = supervisor;
    permitted_submitters = permitted_submitters;
    super_conf = super_conf;
    msg_of_day = msg_of_day;
    nice = nice;
    keep_commented = keep_commented;
    no_of_members = no_of_members;
    first_local_no = first_local_no;
    no_of_texts = no_of_texts;
    expire = expire;
    aux_items = aux_items;
  })

pub parse_conference-Stable : IsStable parse_conference
unfolding parse_conference
parse_conference-Stable = Stable-bind parse_string-Stable λ _.
    Stable-bind parse_extended_conf_type-Stable λ _. Stable-bind parse_time-Stable λ _.
      Stable-bind parse_time-Stable λ _. Stable-bind parse_int-Stable λ _.
        Stable-bind parse_int-Stable λ _. Stable-bind parse_int-Stable λ _.
          Stable-bind parse_int-Stable λ _. Stable-bind parse_int-Stable λ _.
            Stable-bind parse_int-Stable λ _. Stable-bind parse_int-Stable λ _.
              Stable-bind parse_int-Stable λ _. Stable-bind parse_int-Stable λ _.
                Stable-bind parse_int-Stable λ _. Stable-bind parse_int-Stable λ _.
                  Stable-bind parse_int-Stable
                    λ _. Stable-bind (parse_array-Stable parse_aux_item-Stable) λ _. Stable-pure _

pub record UConference : Type 0 where
  pub name : Bytes
  pub type : List ℕ
  pub highest_local_no : ℕ
  pub nice : ℕ

unfoldable pub parse_u_conference : Parser UConference
parse_u_conference = do
  name ← parse_string
  type ← parse_extended_conf_type
  highest_local_no ← parse_int
  nice ← parse_int
  pure (record { name = name; type = type; highest_local_no = highest_local_no; nice = nice })

pub parse_u_conference-Stable : IsStable parse_u_conference
unfolding parse_u_conference
parse_u_conference-Stable = Stable-bind parse_string-Stable λ _.
    Stable-bind parse_extended_conf_type-Stable
      λ _. Stable-bind parse_int-Stable λ _. Stable-bind parse_int-Stable λ _. Stable-pure _

-- ===== src/Datatypes/Person.antt =====
-- datatypes.py: persons.
use pylyskom.Base.{ℕ, Bytes, List}
use pylyskom.Exec.{pure, ◌>>=◌}
use pylyskom.Exec.Stable.{Stable-pure, Stable-bind}
use pylyskom.Protocol.{Parser}
use pylyskom.Protocol.Stable.{IsStable}
use pylyskom.Datatypes.Basic.{parse_string, parse_int}
use pylyskom.Datatypes.Basic.Stable.{parse_string-Stable, parse_int-Stable}
use pylyskom.Datatypes.Time.{Time, parse_time, parse_time-Stable}
use pylyskom.Datatypes.Flags.{
  parse_priv_bits, parse_priv_bits-Stable, parse_personal_flags, parse_personal_flags-Stable,
}

pub record Person : Type 0 where
  pub username : Bytes
  pub privileges : List ℕ
  pub flags : List ℕ
  pub last_login : Time
  pub user_area : ℕ
  pub total_time_present : ℕ
  pub sessions : ℕ
  pub created_lines : ℕ
  pub created_bytes : ℕ
  pub read_texts : ℕ
  pub no_of_text_fetches : ℕ
  pub created_persons : ℕ
  pub created_confs : ℕ
  pub first_created_local_no : ℕ
  pub no_of_created_texts : ℕ
  pub no_of_marks : ℕ
  pub no_of_confs : ℕ

unfoldable pub parse_person : Parser Person
parse_person = do
  username ← parse_string
  privileges ← parse_priv_bits
  flags ← parse_personal_flags
  last_login ← parse_time
  user_area ← parse_int
  total_time_present ← parse_int
  sessions ← parse_int
  created_lines ← parse_int
  created_bytes ← parse_int
  read_texts ← parse_int
  no_of_text_fetches ← parse_int
  created_persons ← parse_int
  created_confs ← parse_int
  first_created_local_no ← parse_int
  no_of_created_texts ← parse_int
  no_of_marks ← parse_int
  no_of_confs ← parse_int
  pure (record {
    username = username;
    privileges = privileges;
    flags = flags;
    last_login = last_login;
    user_area = user_area;
    total_time_present = total_time_present;
    sessions = sessions;
    created_lines = created_lines;
    created_bytes = created_bytes;
    read_texts = read_texts;
    no_of_text_fetches = no_of_text_fetches;
    created_persons = created_persons;
    created_confs = created_confs;
    first_created_local_no = first_created_local_no;
    no_of_created_texts = no_of_created_texts;
    no_of_marks = no_of_marks;
    no_of_confs = no_of_confs;
  })

pub parse_person-Stable : IsStable parse_person
unfolding parse_person
parse_person-Stable = Stable-bind parse_string-Stable λ _. Stable-bind parse_priv_bits-Stable λ _.
    Stable-bind parse_personal_flags-Stable λ _. Stable-bind parse_time-Stable λ _.
      Stable-bind parse_int-Stable λ _. Stable-bind parse_int-Stable λ _.
        Stable-bind parse_int-Stable λ _. Stable-bind parse_int-Stable λ _.
          Stable-bind parse_int-Stable λ _. Stable-bind parse_int-Stable λ _.
            Stable-bind parse_int-Stable λ _. Stable-bind parse_int-Stable λ _.
              Stable-bind parse_int-Stable λ _. Stable-bind parse_int-Stable λ _.
                Stable-bind parse_int-Stable λ _.
                  Stable-bind parse_int-Stable λ _. Stable-bind parse_int-Stable λ _. Stable-pure _

-- ===== src/Datatypes/Server.antt =====
-- datatypes.py: information about the server.
use pylyskom.Base.{ℕ, ◌≡◌, Bytes, List, ◌∷◌, ◌++◌, false, contains, append_assoc}
use pylyskom.Result.{ok}
use pylyskom.Exec.{pure, ◌>>=◌}
use pylyskom.Exec.Stable.{Stable-pure, Stable-bind}
use pylyskom.Protocol.{Parser, digits, decimal}
use pylyskom.Protocol.Stable.{IsStable}
use pylyskom.Datatypes.Basic.{parse_string, parse_int, parse_array, int_to_string}
use pylyskom.Datatypes.Basic.RoundTrip.{parse_int-decimal, parse_int-to_string}
use pylyskom.Datatypes.Basic.Stable.{parse_string-Stable, parse_int-Stable, parse_array-Stable}
use pylyskom.Datatypes.Time.{Time, parse_time, parse_time-Stable}
use pylyskom.Datatypes.AuxItem.{AuxItem, parse_aux_item, parse_aux_item-Stable}

pub record Info : Type 0 where
  pub version : ℕ
  pub conf_pres_conf : ℕ
  pub pers_pres_conf : ℕ
  pub motd_conf : ℕ
  pub kom_news_conf : ℕ
  pub motd_of_lyskom : ℕ
  pub aux_item_list : List AuxItem

unfoldable pub parse_info : Parser Info
parse_info = do
  version ← parse_int
  conf_pres_conf ← parse_int
  pers_pres_conf ← parse_int
  motd_conf ← parse_int
  kom_news_conf ← parse_int
  motd_of_lyskom ← parse_int
  aux_item_list ← parse_array parse_aux_item
  pure (record {
    version = version;
    conf_pres_conf = conf_pres_conf;
    pers_pres_conf = pers_pres_conf;
    motd_conf = motd_conf;
    kom_news_conf = kom_news_conf;
    motd_of_lyskom = motd_of_lyskom;
    aux_item_list = aux_item_list;
  })

pub parse_info-Stable : IsStable parse_info
unfolding parse_info
parse_info-Stable = Stable-bind parse_int-Stable λ _. Stable-bind parse_int-Stable λ _.
    Stable-bind parse_int-Stable λ _. Stable-bind parse_int-Stable λ _.
      Stable-bind parse_int-Stable λ _.
        Stable-bind parse_int-Stable
          λ _. Stable-bind (parse_array-Stable parse_aux_item-Stable) λ _. Stable-pure _

pub record InfoOld : Type 0 where
  pub version : ℕ
  pub conf_pres_conf : ℕ
  pub pers_pres_conf : ℕ
  pub motd_conf : ℕ
  pub kom_news_conf : ℕ
  pub motd_of_lyskom : ℕ

unfoldable pub parse_info_old : Parser InfoOld
parse_info_old = do
  version ← parse_int
  conf_pres_conf ← parse_int
  pers_pres_conf ← parse_int
  motd_conf ← parse_int
  kom_news_conf ← parse_int
  motd_of_lyskom ← parse_int
  pure (record {
    version = version;
    conf_pres_conf = conf_pres_conf;
    pers_pres_conf = pers_pres_conf;
    motd_conf = motd_conf;
    kom_news_conf = kom_news_conf;
    motd_of_lyskom = motd_of_lyskom;
  })

pub parse_info_old-Stable : IsStable parse_info_old
unfolding parse_info_old
parse_info_old-Stable = Stable-bind parse_int-Stable λ _. Stable-bind parse_int-Stable λ _.
    Stable-bind parse_int-Stable λ _.
      Stable-bind parse_int-Stable
        λ _. Stable-bind parse_int-Stable λ _. Stable-bind parse_int-Stable λ _. Stable-pure _

pub record VersionInfo : Type 0 where
  pub protocol_version : ℕ
  pub server_software : Bytes
  pub software_version : Bytes

unfoldable pub parse_version_info : Parser VersionInfo
parse_version_info = do
  protocol_version ← parse_int
  server_software ← parse_string
  software_version ← parse_string
  pure (record {
    protocol_version = protocol_version;
    server_software = server_software;
    software_version = software_version;
  })

pub parse_version_info-Stable : IsStable parse_version_info
unfolding parse_version_info
parse_version_info-Stable =
    Stable-bind parse_int-Stable
      λ _. Stable-bind parse_string-Stable λ _. Stable-bind parse_string-Stable λ _. Stable-pure _

pub record StaticServerInfo : Type 0 where
  pub boot_time : Time
  pub save_time : Time
  pub db_status : Bytes
  pub existing_texts : ℕ
  pub highest_text_no : ℕ
  pub existing_confs : ℕ
  pub existing_persons : ℕ
  pub highest_conf_no : ℕ

unfoldable pub parse_static_server_info : Parser StaticServerInfo
parse_static_server_info = do
  boot_time ← parse_time
  save_time ← parse_time
  db_status ← parse_string
  existing_texts ← parse_int
  highest_text_no ← parse_int
  existing_confs ← parse_int
  existing_persons ← parse_int
  highest_conf_no ← parse_int
  pure (record {
    boot_time = boot_time;
    save_time = save_time;
    db_status = db_status;
    existing_texts = existing_texts;
    highest_text_no = highest_text_no;
    existing_confs = existing_confs;
    existing_persons = existing_persons;
    highest_conf_no = highest_conf_no;
  })

pub parse_static_server_info-Stable : IsStable parse_static_server_info
unfolding parse_static_server_info
parse_static_server_info-Stable = Stable-bind parse_time-Stable λ _.
    Stable-bind parse_time-Stable λ _. Stable-bind parse_string-Stable λ _.
      Stable-bind parse_int-Stable λ _. Stable-bind parse_int-Stable λ _.
        Stable-bind parse_int-Stable
          λ _. Stable-bind parse_int-Stable λ _. Stable-bind parse_int-Stable λ _. Stable-pure _

unfoldable pub info_old_to_string : InfoOld → Bytes
info_old_to_string i =
    decimal i.version
    ++ b' '
      ∷ (decimal i.conf_pres_conf
          ++ b' '
            ∷ (decimal i.pers_pres_conf
                ++ b' '
                  ∷ (decimal i.motd_conf
                      ++ b' ' ∷ (decimal i.kom_news_conf ++ b' ' ∷ decimal i.motd_of_lyskom))))

-- The server information that SetInfo sends is read back, and the byte behind it, which is no digit,
-- is taken.
pub parse_info_old-to_string :
    (i : InfoOld) (c : ℕ) (rest : Bytes)
    → contains digits c ≡ false
    → parse_info_old (info_old_to_string i ++ c ∷ rest) ≡ (ok i, rest)
unfolding parse_info_old info_old_to_string int_to_string
parse_info_old-to_string i c rest stop =
    simp (append_assoc, parse_int-decimal, parse_int-to_string i.motd_of_lyskom c rest stop)

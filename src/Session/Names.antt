-- ===== src/Session/Names.antt =====
-- komsession.py: logging in, persons, conferences and their names in a `KomSession`.
use pylyskom.Base.{
  ℕ, List, [], ◌∷◌, Bool, true, false, not, Option, none, some, ◌==◌, if◌then◌else◌,
}
use pylyskom.Result.{Result, ok, raise, name_not_found, ambiguous_name}
use pylyskom.Exec.{Exec, pure, lift, ◌>>=◌, ◌>>◌}
use pylyskom.Datatypes.Flags
use pylyskom.Datatypes.AuxItem.{AuxItem, AuxItemInput}
use pylyskom.Requests.Request.{number, str, bytes, bits, conf_type, aux_items, encode_latin1}
use pylyskom.Requests.Calls.To33.{req_delete_conf}
use pylyskom.Requests.Calls.To88.{req_create_conf}
use pylyskom.Requests.Calls.To103.{req_create_person}
use pylyskom.Caching
use pylyskom.Caching.{ClientApi, request, ask}
use pylyskom.Caching.Members
use pylyskom.Caching.Names.{Matches}
use pylyskom.Session.{Str, KomSession, each, on_client, check_connection, perform, as_int}
use pylyskom.Session.Kom.{
  KomPerson, KomAuxItem, kom_aux_item, KomUConference, kom_u_conference, KomConference,
}

-- KomSession._exact_lookup_match
unfoldable pub exact_lookup_match : Matches → Result ℕ
exact_lookup_match [] = raise name_not_found
exact_lookup_match (m ∷ []) = ok m.0
exact_lookup_match (m ∷ m' ∷ matches) = raise ambiguous_name

-- PersonalFlags(), ConfType()
abbrev pub no_flags : List ℕ
no_flags = 0 ∷ 0 ∷ 0 ∷ 0 ∷ 0 ∷ 0 ∷ 0 ∷ 0 ∷ []

abbrev pub no_conf_type : List ℕ
no_conf_type = 0 ∷ 0 ∷ 0 ∷ 0 ∷ []

module _ {S : Type 0} (api : ClientApi S) where
  -- KomSession._get_person
  unfoldable pub person_of : ℕ → Exec (KomSession S) KomPerson
  person_of pers_no = on_client (Caching.Names.conf_name api pers_no false) >>= λ username.
      pure (record { pers_no = pers_no; username = username })

  -- KomSession._get_komauxitem
  unfoldable pub aux_item_of : AuxItem → Exec (KomSession S) KomAuxItem
  aux_item_of a = person_of a.creator >>= λ creator. pure (kom_aux_item a creator)

  -- KomSession._get_uconference
  unfoldable pub uconference_of : ℕ → Exec (KomSession S) KomUConference
  uconference_of conf_no =
      on_client (Caching.get_uconference api conf_no) >>= λ u. pure (kom_u_conference conf_no u)

  -- None for the number 0.
  unfoldable pub uconference_or_none : ℕ → Exec (KomSession S) (Option KomUConference)
  uconference_or_none conf_no s =
      if conf_no == 0 then (ok none, s) else (uconference_of conf_no >>= λ u. pure (some u)) s

  -- KomSession._get_conference
  unfoldable pub conference_of : ℕ → Exec (KomSession S) KomConference
  conference_of conf_no = do
    conf ← on_client (Caching.get_conference api conf_no)
    items ← each aux_item_of conf.aux_items
    super_conf ← uconference_or_none conf.super_conf
    permitted_submitters ← uconference_or_none conf.permitted_submitters
    creator ← person_of conf.creator
    supervisor ← uconference_of conf.supervisor
    pure (record {
      conf_no = conf_no;
      creator = creator;
      supervisor = supervisor;
      permitted_submitters = permitted_submitters;
      super_conf = super_conf;
      aux_items = items;
      conf = conf;
    })

module _ {S : Type 0} (api : ClientApi S) (close : S → Result (Unit {0})) where
  -- KomSession.login
  unfoldable pub login : ℕ → Str → Exec (KomSession S) KomPerson
  login pers_no password =
      check_connection close
        (on_client (Members.login api pers_no password) >> person_of api pers_no)

  -- KomSession.logout
  unfoldable pub logout : Exec (KomSession S) (Unit {0})
  logout = check_connection close (on_client (Members.logout api))

  -- KomSession.is_logged_in
  unfoldable pub is_logged_in : Exec (KomSession S) Bool
  is_logged_in = check_connection close (on_client (λ c. (ok (not (c.person.pers_no == 0)), c)))

  -- KomSession.get_current_person_no
  unfoldable pub get_current_person_no : Exec (KomSession S) ℕ
  get_current_person_no = on_client (λ c. (ok c.person.pers_no, c))

  -- KomSession.change_conference
  unfoldable pub change_conference : ℕ → Exec (KomSession S) (Unit {0})
  change_conference conf_no =
      check_connection close (on_client (Members.change_conference api conf_no))

  -- KomSession.create_person
  unfoldable pub create_person : Str → Str → Exec (KomSession S) KomPerson
  create_person name passwd = check_connection close (
      on_client (
        ask api as_int req_create_person
          (str name ∷ str passwd ∷ bits no_flags ∷ aux_items [] ∷ []))
      >>= person_of api)

  -- KomSession.get_person
  unfoldable pub get_person : ℕ → Exec (KomSession S) KomPerson
  get_person pers_no = check_connection close (person_of api pers_no)

  -- KomSession.create_conference
  unfoldable pub create_conference : Str → List AuxItemInput → Exec (KomSession S) ℕ
  create_conference name items = check_connection close (
      lift (encode_latin1 name) >>= λ encoded. on_client (
        ask api as_int req_create_conf
          (bytes encoded ∷ conf_type (Flags.conf_type no_conf_type) ∷ aux_items items ∷ [])))

  -- KomSession.delete_conference
  unfoldable pub delete_conference : ℕ → Exec (KomSession S) (Unit {0})
  delete_conference conf_no =
      check_connection close (perform api close req_delete_conf (number conf_no ∷ []))

  -- KomSession.lookup_name
  unfoldable pub lookup_name : Str → Bool → Bool → Exec (KomSession S) Matches
  lookup_name name want_pers want_confs =
      check_connection close (on_client (Caching.Names.lookup_name api name want_pers want_confs))

  -- KomSession.lookup_name_exact
  unfoldable pub lookup_name_exact : Str → Bool → Bool → Exec (KomSession S) ℕ
  lookup_name_exact name want_pers want_confs =
      lookup_name name want_pers want_confs >>= λ matches. lift (exact_lookup_match matches)

  -- KomSession.re_lookup_name
  unfoldable pub re_lookup_name : Str → Bool → Bool → Exec (KomSession S) Matches
  re_lookup_name regexp want_pers want_confs =
      check_connection close
        (on_client (Caching.Names.regexp_lookup api regexp want_pers want_confs true))

  -- KomSession.re_lookup_name_exact
  unfoldable pub re_lookup_name_exact : Str → Bool → Bool → Exec (KomSession S) ℕ
  re_lookup_name_exact regexp want_pers want_confs =
      re_lookup_name regexp want_pers want_confs >>= λ matches. lift (exact_lookup_match matches)

  -- KomSession.get_conf_name
  unfoldable pub get_conf_name : ℕ → Exec (KomSession S) Str
  get_conf_name conf_no =
      check_connection close (on_client (Caching.Names.conf_name api conf_no false))

  -- KomSession.get_conference, for `micro` and not
  unfoldable pub get_uconference : ℕ → Exec (KomSession S) KomUConference
  get_uconference conf_no = check_connection close (uconference_of api conf_no)

  unfoldable pub get_conference : ℕ → Exec (KomSession S) KomConference
  get_conference conf_no = check_connection close (conference_of api conf_no)

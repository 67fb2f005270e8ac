-- ===== src/Caching.antt =====
-- cachedconnection.py: `CachingPersonClient` with what it inherits from `CachingClient`, over the
-- client whose `request` it calls.
pub mod Names
pub mod Unread
pub mod Members
pub mod Gaps
pub mod Complete
pub mod Truth
pub mod Uses
pub mod Always
pub mod Renames
pub mod Fetching
use pylyskom.Base.{ℕ, ◌+◌, List, [], ◌∷◌, Option, none, some}
use pylyskom.Result.{Result, ok, raise, unspecified}
use pylyskom.Exec.{Exec, pure, throw, lift, ◌>>=◌, ◌>>◌}
use pylyskom.Dict
use pylyskom.Dict.{Dict}
use pylyskom.AsyncMessages.{AsyncMessage, async_leave_conf, async_new_membership}
use pylyskom.Datatypes.Conference.{Conference, UConference, ConfZInfo}
use pylyskom.Datatypes.Person.{Person}
use pylyskom.Datatypes.Membership.{Membership11}
use pylyskom.Datatypes.Text.{TextStat, TextMapping}
use pylyskom.Requests.Request.{Request, RequestClass, Value, number, numbers, Kwargs, new_request}
use pylyskom.Requests.Responses
use pylyskom.Requests.Responses.{Reply}
use pylyskom.Requests.Calls.To62.{req_get_person_stat}
use pylyskom.Requests.Calls.To88.{
  req_accept_async, req_get_uconf_stat, req_mark_text, req_unmark_text,
}
use pylyskom.Requests.Calls.To103.{req_get_conf_stat, req_get_text_stat}
use pylyskom.Cache
use pylyskom.Cache.{Cache, Caches, new_cache, set, invalidate_textstat, handle_async_message}
use pylyskom.Cache.Invalidation.{initial_handlers}
use pylyskom.Memberships.{PersonCaches, new_person_caches, cpah_leave_conf, cpah_new_membership}

-- What `self._client.request` does: the outcome, the client behind it, and the messages that its
-- async handler was called with meanwhile, up to one whose handler raised.
pub record ClientApi (S : Type 0) : Type 0 where
  pub request : Request → S → Result Reply × S × List AsyncMessage

pub record CachingPersonClient (S : Type 0) : Type 0 where
  pub client : S
  pub caches : Caches
  pub person : PersonCaches

-- The handlers that `CachingPersonClient.__init__` adds to those of `CachingClient`.
unfoldable pub handle_for_person : AsyncMessage → PersonCaches → PersonCaches
handle_for_person (async_leave_conf conf_no) p = cpah_leave_conf conf_no p
handle_for_person (async_new_membership pers_no conf_no) p = cpah_new_membership p
handle_for_person _ p = p

module _ {S : Type 0} where
  unfoldable pub new_caching_client : S → CachingPersonClient S
  new_caching_client client = record {
    client = client;
    caches = record {
      uconferences = new_cache;
      conferences = new_cache;
      persons = new_cache;
      textstats = new_cache;
    };
    person = new_person_caches;
  }

  abbrev pub on_caches : {A : Type 0} → Exec Caches A → Exec (CachingPersonClient S) A
  on_caches m s = let w = m s.caches in (w.0, record s { caches = w.1 })

  abbrev pub on_person : {A : Type 0} → Exec PersonCaches A → Exec (CachingPersonClient S) A
  on_person m s = let w = m s.person in (w.0, record s { person = w.1 })

  -- `_handle_async_message`, with the handlers of both classes
  unfoldable pub handle_message : AsyncMessage → Exec (CachingPersonClient S) (Unit {0})
  handle_message msg =
      on_caches (handle_async_message initial_handlers msg)
      >> on_person (λ p. (ok tt, handle_for_person msg p))

  unfoldable pub handle_messages : List AsyncMessage → Exec (CachingPersonClient S) (Unit {0})
  handle_messages [] = pure tt
  handle_messages (msg ∷ l) = handle_message msg >> handle_messages l

-- The attribute that the code reads from a reply; one of another class does not have it.
unfoldable pub as_u_conference : Reply → Result UConference
as_u_conference (Responses.u_conference u) = ok u
as_u_conference _ = raise unspecified

unfoldable pub as_conference : Reply → Result Conference
as_conference (Responses.conference c) = ok c
as_conference _ = raise unspecified

unfoldable pub as_person : Reply → Result Person
as_person (Responses.person p) = ok p
as_person _ = raise unspecified

unfoldable pub as_text_stat : Reply → Result TextStat
as_text_stat (Responses.text_stat t) = ok t
as_text_stat _ = raise unspecified

-- Where a cache is kept in the client.
pub record Place (S V : Type 0) : Type 0 where
  pub view : CachingPersonClient S → Cache V
  pub update : Cache V → CachingPersonClient S → CachingPersonClient S

module _ {S : Type 0} where
  abbrev pub uconferences : Place S UConference
  uconferences = record {
    view = λ s. s.caches.uconferences;
    update = λ c s. record s { caches = record s.caches { uconferences = c } };
  }

  abbrev pub conferences : Place S Conference
  conferences = record {
    view = λ s. s.caches.conferences;
    update = λ c s. record s { caches = record s.caches { conferences = c } };
  }

  abbrev pub persons : Place S Person
  persons = record {
    view = λ s. s.caches.persons;
    update = λ c s. record s { caches = record s.caches { persons = c } };
  }

  abbrev pub textstats : Place S TextStat
  textstats = record {
    view = λ s. s.caches.textstats;
    update = λ c s. record s { caches = record s.caches { textstats = c } };
  }

  module _ {V : Type 0} (p : Place S V) where
    -- `self[no] = ...`, in the cache as the fetcher left it.
    unfoldable pub store : ℕ → Result V × CachingPersonClient S → Result V × CachingPersonClient S
    store n (ok v, s) = (ok v, p.update (set n v (p.view s)) s)
    store n (raise e, s) = (raise e, s)

    -- `Cache.__getitem__`, with a fetcher that may change the caches
    unfoldable pub cached :
        (ℕ → Exec (CachingPersonClient S) V) → ℕ → Exec (CachingPersonClient S) V
    cached fetcher n s =
        let c = p.view s in
        elim (Dict.get c.dict n) [
          | some v ↦ (ok v, p.update (record c { cached = c.cached + 1 }) s)
          | none ↦ store n (fetcher n (p.update (record c { uncached = c.uncached + 1 }) s))
        ]

module _ {S : Type 0} (api : ClientApi S) where
  -- What came of the request that was made, once the messages were handled.
  unfoldable pub answered :
      Result Reply × S × List AsyncMessage → Exec (CachingPersonClient S) Reply
  answered (w, client, msgs) s = (handle_messages msgs >> lift w) (record s { client = client })

  unfoldable pub send : Request → Exec (CachingPersonClient S) Reply
  send r s = answered (api.request r s.client) s

  -- CachingClient.request, of a request made from its class and arguments
  unfoldable pub request : RequestClass → List Value → Kwargs → Exec (CachingPersonClient S) Reply
  request cls args kwargs = lift (new_request cls args kwargs) >>= send

  -- The request of both `__init__`, once the handlers are registered, whose keys are the same.
  unfoldable pub accept_async : Exec (CachingPersonClient S) Reply
  accept_async = request req_accept_async (numbers (Dict.keys initial_handlers) ∷ []) []

  -- CachingPersonClient.__init__
  unfoldable pub open_caching_client : S → Result Reply × CachingPersonClient S
  open_caching_client client = (accept_async >> accept_async) (new_caching_client client)

  unfoldable pub ask :
      {A : Type 0} → (Reply → Result A) → RequestClass → List Value → Exec (CachingPersonClient S) A
  ask read cls args = request cls args [] >>= λ r. lift (read r)

  unfoldable pub fetch_uconference : ℕ → Exec (CachingPersonClient S) UConference
  fetch_uconference n = ask as_u_conference req_get_uconf_stat (number n ∷ [])

  unfoldable pub fetch_conference : ℕ → Exec (CachingPersonClient S) Conference
  fetch_conference n = ask as_conference req_get_conf_stat (number n ∷ [])

  unfoldable pub fetch_person : ℕ → Exec (CachingPersonClient S) Person
  fetch_person n = ask as_person req_get_person_stat (number n ∷ [])

  unfoldable pub fetch_textstat : ℕ → Exec (CachingPersonClient S) TextStat
  fetch_textstat n = ask as_text_stat req_get_text_stat (number n ∷ [])

  unfoldable pub get_uconference : ℕ → Exec (CachingPersonClient S) UConference
  get_uconference = cached uconferences fetch_uconference

  unfoldable pub get_conference : ℕ → Exec (CachingPersonClient S) Conference
  get_conference = cached conferences fetch_conference

  unfoldable pub get_person : ℕ → Exec (CachingPersonClient S) Person
  get_person = cached persons fetch_person

  unfoldable pub get_textstat : ℕ → Exec (CachingPersonClient S) TextStat
  get_textstat = cached textstats fetch_textstat

  -- CachingClient.mark_text
  unfoldable pub mark_text : ℕ → ℕ → Exec (CachingPersonClient S) (Unit {0})
  mark_text text_no mark_type =
      request req_mark_text (number text_no ∷ number mark_type ∷ []) []
      >> on_caches (invalidate_textstat text_no)

  -- CachingClient.unmark_text
  unfoldable pub unmark_text : ℕ → Exec (CachingPersonClient S) (Unit {0})
  unmark_text text_no =
      request req_unmark_text (number text_no ∷ []) [] >> on_caches (invalidate_textstat text_no)

-- ===== src/Caching/Uses.antt =====
-- cachedconnection.py: the methods of a `CachingPersonClient`, called one after the other.
use pylyskom.Base.{
  ℕ, inl, inr, List, Bool, true, false, Bool-cases, Option-cases, ◌==◌, if◌then◌else◌,
}
use pylyskom.Result.{Result, ok, raise, server_error}
use pylyskom.Errors.{not_member}
use pylyskom.Exec.{Exec}
use pylyskom.Dict
use pylyskom.Datatypes.Conference.{UConference}
use pylyskom.Requests.Request.{RequestClass, Value, Kwargs}
use pylyskom.Requests.Responses.{Reply}
use pylyskom.Memberships.{PersonCaches, get_cached}
use pylyskom.Cache.{Cache, invalidate_textstat}
use pylyskom.Caching.{
  ClientApi, CachingPersonClient, Place, on_person, on_caches, cached, store, conferences,
  textstats, persons, fetch_person, get_person, fetch_conference, fetch_textstat, get_conference,
  get_textstat, get_uconference, request, mark_text, unmark_text,
}
use pylyskom.Caching.Members.{
  but_not_member, login, logout, change_conference, mark_as_read_local, mark_as_unread_local,
  fetch_memberships, remember, own_memberships, get_memberships,
}
use pylyskom.Caching.Names.{or_else}
use pylyskom.Caching.Truth.{
  Announces, IsTrue, KeepsTrue, KeepsTrue-bind, request-KeepsTrue, ask-KeepsTrue, Fresh,
  get_uconference-Fresh,
}

module _ {S : Type 0} (now : S → ℕ → UConference → Type 0) where
  pub or_else-IsTrue :
      {A : Type 0} (a : A) (w : Result A × CachingPersonClient S)
      → IsTrue now w.1
      → IsTrue now (or_else a w).1
  unfolding or_else
  or_else-IsTrue a (ok b, t) h = h
  or_else-IsTrue a (raise e, t) h = h

  but_not_member-IsTrue :
      (w : Result Reply × CachingPersonClient S) → IsTrue now w.1 → IsTrue now (but_not_member w).1
  unfolding but_not_member
  but_not_member-IsTrue (ok r, t) h = h
  but_not_member-IsTrue (raise (server_error not_member status), t) h = h
  but_not_member-IsTrue (raise e, t) h = h

  person-KeepsTrue : {A : Type 0} (m : Exec PersonCaches A) → KeepsTrue now (on_person m)
  person-KeepsTrue m = record { at = λ s t. t }

  textstat-KeepsTrue : (n : ℕ) → KeepsTrue now (on_caches (invalidate_textstat n))
  unfolding invalidate_textstat
  textstat-KeepsTrue n = record { at = λ s t. t }

  -- A cache that is none of the uconferences.
  module _ {V : Type 0} (p : Place S V)
      (apart : (c : Cache V) (s : CachingPersonClient S)
        → IsTrue now s
        → IsTrue now (p.update c s)) where
    store-IsTrue :
        (n : ℕ) (w : Result V × CachingPersonClient S) → IsTrue now w.1 → IsTrue now (store p n w).1
    unfolding store
    store-IsTrue n (ok v, t) h = apart _ t h
    store-IsTrue n (raise e, t) h = h

    pub cached-KeepsTrue :
        (fetcher : ℕ → Exec (CachingPersonClient S) V)
        → ((n : ℕ) → KeepsTrue now (fetcher n))
        → (n : ℕ) → KeepsTrue now (cached p fetcher n)
    unfolding cached
    cached-KeepsTrue fetcher h n = record {
      at = λ s t. elim (Option-cases (Dict.get (p.view s).dict n)) [
        | inl missed ↦ rw (missed, cached) (store-IsTrue n _ ((h n).at _ (apart _ s t)))
        | inr (v, there) ↦ rw (there, cached) (apart _ s t)
      ];
    }

  pub if-KeepsTrue :
      {A : Type 0} (b : Bool) {m n : Exec (CachingPersonClient S) A}
      → KeepsTrue now m
      → KeepsTrue now n
      → KeepsTrue now (if b then m else n)
  if-KeepsTrue true h k = h
  if-KeepsTrue false h k = k

module _ {S : Type 0} (api : ClientApi S) (now : S → ℕ → UConference → Type 0)
    (server : Announces api now) where
  pub asks :
      (cls : RequestClass) (args : List Value) (kwargs : Kwargs)
      → KeepsTrue now (request api cls args kwargs)
  asks = request-KeepsTrue api now server

  Fresh-IsTrue :
      (n : ℕ) (w : Result UConference × CachingPersonClient S)
      → Fresh api now server n w
      → IsTrue now w.1
  Fresh-IsTrue n (ok u, t) h = h.0
  Fresh-IsTrue n (raise e, t) h = h

  pub get_uconference-KeepsTrue : (n : ℕ) → KeepsTrue now (get_uconference api n)
  get_uconference-KeepsTrue n = record {
    at = λ s t.
        Fresh-IsTrue n (get_uconference api n s) (get_uconference-Fresh api now server n s t);
  }

  pub get_conference-KeepsTrue : (n : ℕ) → KeepsTrue now (get_conference api n)
  unfolding get_conference fetch_conference
  get_conference-KeepsTrue =
      cached-KeepsTrue now conferences (λ c s t. t) (fetch_conference api)
        λ n. ask-KeepsTrue api now server _ _ _

  pub get_person-KeepsTrue : (n : ℕ) → KeepsTrue now (get_person api n)
  unfolding get_person fetch_person
  get_person-KeepsTrue =
      cached-KeepsTrue now persons (λ c s t. t) (fetch_person api)
        λ n. ask-KeepsTrue api now server _ _ _

  pub get_textstat-KeepsTrue : (n : ℕ) → KeepsTrue now (get_textstat api n)
  unfolding get_textstat fetch_textstat
  get_textstat-KeepsTrue =
      cached-KeepsTrue now textstats (λ c s t. t) (fetch_textstat api)
        λ n. ask-KeepsTrue api now server _ _ _

  pub mark_text-KeepsTrue :
      (text_no mark_type : ℕ) → KeepsTrue now (mark_text api text_no mark_type)
  unfolding mark_text
  mark_text-KeepsTrue text_no mark_type =
      KeepsTrue-bind (asks _ _ _) λ _. textstat-KeepsTrue now text_no

  pub unmark_text-KeepsTrue : (text_no : ℕ) → KeepsTrue now (unmark_text api text_no)
  unfolding unmark_text
  unmark_text-KeepsTrue text_no = KeepsTrue-bind (asks _ _ _) λ _. textstat-KeepsTrue now text_no

  pub login-KeepsTrue :
      (pers_no : ℕ) (password : List ℕ) → KeepsTrue now (login api pers_no password)
  unfolding login
  login-KeepsTrue pers_no password = KeepsTrue-bind (asks _ _ _) λ _. person-KeepsTrue now _

  pub logout-KeepsTrue : KeepsTrue now (logout api)
  unfolding logout
  logout-KeepsTrue = KeepsTrue-bind (asks _ _ _) λ _. person-KeepsTrue now _

  pub change_conference-KeepsTrue : (conf_no : ℕ) → KeepsTrue now (change_conference api conf_no)
  unfolding change_conference
  change_conference-KeepsTrue conf_no = KeepsTrue-bind (asks _ _ _) λ _. person-KeepsTrue now _

  pub mark_as_read_local-KeepsTrue :
      (conf_no n : ℕ) → KeepsTrue now (mark_as_read_local api conf_no n)
  unfolding mark_as_read_local
  mark_as_read_local-KeepsTrue conf_no n = record {
    at = λ s t. but_not_member-IsTrue now _ ((asks _ _ _).at s t);
  }

  pub mark_as_unread_local-KeepsTrue :
      (conf_no n : ℕ) → KeepsTrue now (mark_as_unread_local api conf_no n)
  unfolding mark_as_unread_local
  mark_as_unread_local-KeepsTrue conf_no n = record {
    at = λ s t. but_not_member-IsTrue now _ ((asks _ _ _).at s t);
  }

  pub fetch_memberships-KeepsTrue :
      (p f n : ℕ) (b : Bool) → KeepsTrue now (fetch_memberships api p f n b)
  unfolding fetch_memberships
  fetch_memberships-KeepsTrue p f n b = ask-KeepsTrue api now server _ _ _

  pub own_memberships-KeepsTrue : (f n : ℕ) → KeepsTrue now (own_memberships api f n)
  unfolding own_memberships remember
  own_memberships-KeepsTrue f n = record {
    at = λ s t. elim (Option-cases (get_cached s.person.memberships_by_position f n)) [
      | inl missed ↦
          rw (missed, own_memberships)
            ((KeepsTrue-bind (fetch_memberships-KeepsTrue s.person.pers_no f n false)
                λ l. record { at = λ u h. h }).at
              s t)
      | inr (l, there) ↦ rw (there, own_memberships) t
    ];
  }

  pub get_memberships-KeepsTrue :
      (p f n : ℕ) (b : Bool) → KeepsTrue now (get_memberships api p f n b)
  unfolding get_memberships
  get_memberships-KeepsTrue p f n true = record { at = (fetch_memberships-KeepsTrue p 0 n true).at }
  get_memberships-KeepsTrue p f n false = record {
    at = λ s t. elim (Bool-cases (p == s.person.pers_no)) [
      | inl own ↦ rw (own, get_memberships) ((own_memberships-KeepsTrue f n).at s t)
      | inr other ↦ rw (other, get_memberships) ((fetch_memberships-KeepsTrue p 0 n false).at s t)
    ];
  }

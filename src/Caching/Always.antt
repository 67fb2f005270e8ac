-- ===== src/Caching/Always.antt =====
-- cachedconnection.py: a `CachingPersonClient` from its start on.
use pylyskom.Base.{
  ℕ, inl, inr, List, [], ◌∷◌, Bool, true, false, Bool-cases, Option, none, some, ◌==◌,
}
use pylyskom.Result.{ok}
use pylyskom.Dict
use pylyskom.Datatypes.Conference.{UConference}
use pylyskom.Requests.Request.{RequestClass, Value, Kwargs}
use pylyskom.Cache.{new_cache}
use pylyskom.Caching.{
  ClientApi, CachingPersonClient, new_caching_client, open_caching_client, accept_async, get_person,
  get_conference, get_textstat, get_uconference, request, mark_text, unmark_text,
}
use pylyskom.Caching.Members.{
  login, logout, change_conference, mark_as_read_local, mark_as_unread_local, get_memberships,
  query_read_texts, fetch_membership, get_membership, memberships,
}
use pylyskom.Caching.Names.{
  conf_name, lookup_number, lookup_z_name, lookup_name, regexp_to_send, re_z_lookup, regexp_lookup,
  int_of,
}
use pylyskom.Datatypes.Membership.{Membership11}
use pylyskom.Caching.Unread.{get_unread_texts_from_membership}
use pylyskom.Caching.Fetching.{unread-KeepsTrue}
use pylyskom.Caching.Truth.{
  Announces, IsTrue, KeepsTrue, KeepsTrue-bind, KeepsTrue-lift, ask-KeepsTrue, Fresh,
  get_uconference-Fresh,
}
use pylyskom.Caching.Uses.{
  or_else-IsTrue, if-KeepsTrue, cached-KeepsTrue, asks, get_uconference-KeepsTrue,
  get_conference-KeepsTrue, get_person-KeepsTrue, get_textstat-KeepsTrue, mark_text-KeepsTrue,
  unmark_text-KeepsTrue, login-KeepsTrue, logout-KeepsTrue, change_conference-KeepsTrue,
  mark_as_read_local-KeepsTrue, mark_as_unread_local-KeepsTrue, get_memberships-KeepsTrue,
}

module _ {S : Type 0} (api : ClientApi S) (now : S → ℕ → UConference → Type 0)
    (server : Announces api now) where
  query-KeepsTrue : (p c : ℕ) (b : Bool) → KeepsTrue now (query_read_texts api p c b)
  unfolding query_read_texts
  query-KeepsTrue p c b = ask-KeepsTrue api now server _ _ _

  fetch_membership-KeepsTrue : (n : ℕ) → KeepsTrue now (fetch_membership api n)
  unfolding fetch_membership
  fetch_membership-KeepsTrue n = record {
    at = λ s t. (query-KeepsTrue s.person.pers_no n false).at s t;
  }

  get_membership-KeepsTrue : (p c : ℕ) (b : Bool) → KeepsTrue now (get_membership api p c b)
  unfolding get_membership
  get_membership-KeepsTrue p c true = record { at = (query-KeepsTrue p c true).at }
  get_membership-KeepsTrue p c false = record {
    at = λ s t. elim (Bool-cases (p == s.person.pers_no)) [
      | inl own ↦
          rw (own, get_membership)
            ((cached-KeepsTrue now memberships (λ c s t. t) (fetch_membership api)
                fetch_membership-KeepsTrue c).at
              s t)
      | inr other ↦ rw (other, get_membership) ((query-KeepsTrue p c false).at s t)
    ];
  }

  conf_name-KeepsTrue : (n : ℕ) (b : Bool) → KeepsTrue now (conf_name api n b)
  unfolding conf_name
  conf_name-KeepsTrue n b = record {
    at = λ s t. or_else-IsTrue now [] _ (
        (KeepsTrue-bind (get_uconference-KeepsTrue api now server n) λ u. KeepsTrue-lift (ok _)).at
          s t);
  }

  lookup_number-KeepsTrue : (o : Option ℕ) (p c : Bool) → KeepsTrue now (lookup_number api o p c)
  unfolding lookup_number
  lookup_number-KeepsTrue none p c = record { at = λ s t. t }
  lookup_number-KeepsTrue (some n) p c = record {
    at = λ s t. or_else-IsTrue now [] _ (
        (KeepsTrue-bind (get_uconference-KeepsTrue api now server n) λ u.
            KeepsTrue-bind (get_uconference-KeepsTrue api now server n)
              λ v. KeepsTrue-lift (ok _)).at
          s t);
  }

  lookup_z_name-KeepsTrue :
      (name : List ℕ) (p c : Bool) → KeepsTrue now (lookup_z_name api name p c)
  unfolding lookup_z_name
  lookup_z_name-KeepsTrue name p c =
      KeepsTrue-bind (KeepsTrue-bind (asks api now server _ _ _) λ r. KeepsTrue-lift _)
        λ l. KeepsTrue-lift (ok _)

  lookup_name-KeepsTrue : (name : List ℕ) (p c : Bool) → KeepsTrue now (lookup_name api name p c)
  unfolding lookup_name
  lookup_name-KeepsTrue [] p c = lookup_z_name-KeepsTrue [] p c
  lookup_name-KeepsTrue (x ∷ name) p c =
      if-KeepsTrue now (x == b'#') (lookup_number-KeepsTrue (int_of name) p c)
        (lookup_z_name-KeepsTrue (x ∷ name) p c)

  regexp_to_send-KeepsTrue :
      (regexp : List ℕ) (b : Bool) → KeepsTrue now (regexp_to_send api regexp b)
  unfolding regexp_to_send
  regexp_to_send-KeepsTrue regexp true = KeepsTrue-lift (ok regexp)
  regexp_to_send-KeepsTrue regexp false =
      KeepsTrue-bind (ask-KeepsTrue api now server _ _ _) λ t. KeepsTrue-lift (ok _)

  re_z_lookup-KeepsTrue :
      (regexp : List ℕ) (p c b : Bool) → KeepsTrue now (re_z_lookup api regexp p c b)
  unfolding re_z_lookup
  re_z_lookup-KeepsTrue regexp p c b = KeepsTrue-bind (regexp_to_send-KeepsTrue regexp b) λ sent.
      KeepsTrue-bind (KeepsTrue-bind (asks api now server _ _ _) λ r. KeepsTrue-lift _)
        λ l. KeepsTrue-lift (ok _)

  regexp_lookup-KeepsTrue :
      (regexp : List ℕ) (p c b : Bool) → KeepsTrue now (regexp_lookup api regexp p c b)
  unfolding regexp_lookup
  regexp_lookup-KeepsTrue [] p c b = re_z_lookup-KeepsTrue [] p c b
  regexp_lookup-KeepsTrue (x ∷ regexp) p c b =
      if-KeepsTrue now (x == b'#') (lookup_name-KeepsTrue (x ∷ regexp) p c)
        (re_z_lookup-KeepsTrue (x ∷ regexp) p c b)

-- A call of a method, with what it returns left out.
pub data Call : Type 0 where
  requests : RequestClass → List Value → Kwargs → Call
  gets_uconference gets_conference gets_person gets_textstat unmarks_text changes_conference :
      ℕ → Call
  marks_text marks_read marks_unread : ℕ → ℕ → Call
  logs_in : ℕ → List ℕ → Call
  logs_out : Call
  gets_unread : ℕ → Membership11 → Call
  gets_memberships : ℕ → ℕ → ℕ → Bool → Call
  gets_membership : ℕ → ℕ → Bool → Call
  names : ℕ → Bool → Call
  looks_up : List ℕ → Bool → Bool → Call
  looks_up_regexp : List ℕ → Bool → Bool → Bool → Call

module _ {S : Type 0} (api : ClientApi S) where
  abbrev pub call : Call → CachingPersonClient S → CachingPersonClient S
  call (requests cls args kwargs) s = (request api cls args kwargs s).1
  call (gets_uconference n) s = (get_uconference api n s).1
  call (gets_conference n) s = (get_conference api n s).1
  call (gets_person n) s = (get_person api n s).1
  call (gets_unread fuel m) s = (get_unread_texts_from_membership api fuel m s).1
  call (gets_textstat n) s = (get_textstat api n s).1
  call (unmarks_text n) s = (unmark_text api n s).1
  call (changes_conference n) s = (change_conference api n s).1
  call (marks_text n type) s = (mark_text api n type s).1
  call (marks_read c n) s = (mark_as_read_local api c n s).1
  call (marks_unread c n) s = (mark_as_unread_local api c n s).1
  call (logs_in n password) s = (login api n password s).1
  call logs_out s = (logout api s).1
  call (gets_memberships p f n b) s = (get_memberships api p f n b s).1
  call (gets_membership p c b) s = (get_membership api p c b s).1
  call (names n b) s = (conf_name api n b s).1
  call (looks_up name p c) s = (lookup_name api name p c s).1
  call (looks_up_regexp regexp p c b) s = (regexp_lookup api regexp p c b s).1

  abbrev pub calls : List Call → CachingPersonClient S → CachingPersonClient S
  calls [] s = s
  calls (x ∷ l) s = calls l (call x s)

module _ {S : Type 0} (api : ClientApi S) (now : S → ℕ → UConference → Type 0)
    (server : Announces api now) where
  call-IsTrue : (x : Call) (s : CachingPersonClient S) → IsTrue now s → IsTrue now (call api x s)
  call-IsTrue (requests cls args kwargs) s = (asks api now server cls args kwargs).at s
  call-IsTrue (gets_uconference n) s = (get_uconference-KeepsTrue api now server n).at s
  call-IsTrue (gets_conference n) s = (get_conference-KeepsTrue api now server n).at s
  call-IsTrue (gets_person n) s = (get_person-KeepsTrue api now server n).at s
  call-IsTrue (gets_unread fuel m) s = (unread-KeepsTrue api now server fuel m).at s
  call-IsTrue (gets_textstat n) s = (get_textstat-KeepsTrue api now server n).at s
  call-IsTrue (unmarks_text n) s = (unmark_text-KeepsTrue api now server n).at s
  call-IsTrue (changes_conference n) s = (change_conference-KeepsTrue api now server n).at s
  call-IsTrue (marks_text n type) s = (mark_text-KeepsTrue api now server n type).at s
  call-IsTrue (marks_read c n) s = (mark_as_read_local-KeepsTrue api now server c n).at s
  call-IsTrue (marks_unread c n) s = (mark_as_unread_local-KeepsTrue api now server c n).at s
  call-IsTrue (logs_in n password) s = (login-KeepsTrue api now server n password).at s
  call-IsTrue logs_out s = (logout-KeepsTrue api now server).at s
  call-IsTrue (gets_memberships p f n b) s = (get_memberships-KeepsTrue api now server p f n b).at s
  call-IsTrue (gets_membership p c b) s = (get_membership-KeepsTrue api now server p c b).at s
  call-IsTrue (names n b) s = (conf_name-KeepsTrue api now server n b).at s
  call-IsTrue (looks_up name p c) s = (lookup_name-KeepsTrue api now server name p c).at s
  call-IsTrue (looks_up_regexp regexp p c b) s =
      (regexp_lookup-KeepsTrue api now server regexp p c b).at s

  calls-IsTrue :
      (l : List Call) (s : CachingPersonClient S) → IsTrue now s → IsTrue now (calls api l s)
  calls-IsTrue [] s h = h
  calls-IsTrue (x ∷ l) s h = calls-IsTrue l (call api x s) (call-IsTrue x s h)

  new-IsTrue : (c : S) → IsTrue now (new_caching_client c)
  unfolding new_caching_client new_cache Dict.get
  new-IsTrue c n u h = absurd cc

  open-IsTrue : (c : S) → IsTrue now (open_caching_client api c).1
  unfolding open_caching_client accept_async
  open-IsTrue c =
      (KeepsTrue-bind (asks api now server _ _ _) λ r. asks api now server _ _ _).at
        (new_caching_client c) (new-IsTrue c)

-- Let the client answer as `Announces` says. After any calls of the methods of a new
-- `CachingPersonClient`, in any order and whatever they raise, a lookup of a uconference that
-- returns a value, from the cache or not, returns one that is true then.
pub calls-Fresh :
    {S : Type 0} (api : ClientApi S) (now : S → ℕ → UConference → Type 0)
    (server : Announces api now) (c : S) (l : List Call) (n : ℕ)
    → Fresh api now server n (get_uconference api n (calls api l (open_caching_client api c).1))
calls-Fresh api now server c l n =
    get_uconference-Fresh api now server n (calls api l (open_caching_client api c).1)
      (calls-IsTrue api now server l (open_caching_client api c).1 (open-IsTrue api now server c))

-- ===== src/Session.antt =====
-- komsession.py: `KomSession`, over the client that its factory makes. A str is the numbers of its
-- characters; arguments that are bytes are decoded by the caller.
pub mod Kom
pub mod Names
pub mod Memberships
pub mod Texts
pub mod Compose
pub mod Reading
pub mod UserAreas
pub mod Encoding
pub mod RoundTrip
pub mod Stored
pub mod Closing
use pylyskom.Base.{
  ℕ, List, [], ◌∷◌, ◌++◌, map, Bool, true, false, not, ◌||◌, Option, none, some, ◌==◌,
  if◌then◌else◌,
}
use pylyskom.Result.{
  Result, ok, raise, Error, socket_error, session_not_connected, session_exception, assertion_error,
  unspecified,
}
use pylyskom.Exec.{Exec, pure, throw, lift, ◌>>=◌, ◌>>◌}
use pylyskom.Requests.Request.{Value, number, str, RequestClass}
use pylyskom.Requests.Responses
use pylyskom.Requests.Responses.{Reply}
use pylyskom.Requests.Calls.To62.{req_disconnect, req_who_am_i}
use pylyskom.Requests.Calls.To88.{req_set_client_version, req_user_active}
use pylyskom.Requests.Calls.To122.{req_set_connection_time_format}
use pylyskom.Caching.{ClientApi, CachingPersonClient, new_caching_client, request, ask}

abbrev pub Str : Type 0
Str = List ℕ

pub record KomSession (S : Type 0) : Type 0 where
  pub client : Option (CachingPersonClient S)
  pub session_no : Option ℕ
  pub client_name : Option Str
  pub client_version : Option Str

unfoldable pub new_session : {S : Type 0} → KomSession S
new_session = record { client = none; session_no = none; client_name = none; client_version = none }

unfoldable pub is_connected : {S : Type 0} → KomSession S → Bool
is_connected s = elim s.client [ none ↦ false | some c ↦ true ]

unfoldable pub as_int : Reply → Result ℕ
as_int (Responses.int n) = ok n
as_int _ = raise unspecified

-- The result of `f` on a list, one element after the other.
unfoldable pub each : {S A B : Type 0} → (A → Exec S B) → List A → Exec S (List B)
each f [] = pure []
each f (x ∷ l) = do y ← f x; rest ← each f l; pure (y ∷ rest)

module _ {S : Type 0} where
  -- The client after one of its methods.
  unfoldable pub with_client :
      {A : Type 0} → KomSession S → Result A × CachingPersonClient S → Result A × KomSession S
  with_client s (r, c) = (r, record s { client = some c })

  -- A method of `self._client`; None has none.
  unfoldable pub on_client : {A : Type 0} → Exec (CachingPersonClient S) A → Exec (KomSession S) A
  on_client m s = elim s.client [ none ↦ (raise unspecified, s) | some c ↦ with_client s (m c) ]

  unfoldable pub name_client : Str → Str → Exec (KomSession S) (Unit {0})
  name_client client_name client_version s =
      (ok tt, record s { client_name = some client_name; client_version = some client_version })

  unfoldable pub number_session : ℕ → Exec (KomSession S) (Unit {0})
  number_session n s = (ok tt, record s { session_no = some n })

-- The errno values EPIPE, ECONNRESET, ENOTCONN and ETIMEDOUT of Linux.
unfoldable pub is_lost : ℕ → Bool
is_lost errno = (errno == 32) || (errno == 104) || (errno == 107) || (errno == 110)

-- `close` is what `self._client.close()` returns or raises.
module _ {S : Type 0} (close : S → Result (Unit {0})) where
  -- KomSession.close
  unfoldable pub close_session : Exec (KomSession S) (Unit {0})
  close_session s = elim s.client [
    | none ↦ (ok tt, new_session)
    | some c ↦ (close c.client, new_session)
  ]

  -- The `except` of `check_connection`.
  unfoldable pub but_lost : {A : Type 0} → Result A × KomSession S → Result A × KomSession S
  but_lost (ok a, s) = (ok a, s)
  but_lost (raise (socket_error errno), s) = elim (is_lost errno) [
    | true ↦ (close_session >> throw session_not_connected) s
    | false ↦ (raise session_exception, s)
  ]
  but_lost (raise e, s) = (raise e, s)

  unfoldable pub check_connection : {A : Type 0} → Exec (KomSession S) A → Exec (KomSession S) A
  check_connection f s = elim (is_connected s) [
    | true ↦ but_lost (f s)
    | false ↦ (raise session_not_connected, s)
  ]

unfoldable pub is_number : ℕ → Option ℕ → Bool
is_number n none = false
is_number n (some m) = n == m

module _ {S : Type 0} (api : ClientApi S) (close : S → Result (Unit {0})) where
  abbrev pub perform : RequestClass → List Value → Exec (KomSession S) (Unit {0})
  perform cls args = on_client (request api cls args []) >> pure tt

  -- KomSession.who_am_i
  unfoldable pub who_am_i : Exec (KomSession S) ℕ
  who_am_i = check_connection close (on_client (ask api as_int req_who_am_i []))

  -- KomSession.user_is_active
  unfoldable pub user_is_active : Exec (KomSession S) (Unit {0})
  user_is_active = check_connection close (perform req_user_active [])

  -- The lines of `connect` behind the factory, which made `client`.
  unfoldable pub introduce : CachingPersonClient S → Str → Str → Exec (KomSession S) (Unit {0})
  introduce client client_name client_version s =
      (perform req_set_client_version (str client_name ∷ str client_version ∷ [])
          >> (name_client client_name client_version
              >> (who_am_i >>= λ n.
                  number_session n >> perform req_set_connection_time_format (number 1 ∷ []))))
        (record s { client = some client })

  -- KomSession.connect, with what the factory returned or raised
  unfoldable pub connect :
      Result (CachingPersonClient S) → Str → Str → Exec (KomSession S) (Unit {0})
  connect made client_name client_version s = elim (is_connected s) [
    | true ↦ (raise assertion_error, s)
    | false ↦ (lift made >>= λ client. introduce client client_name client_version) s
  ]

  -- The `if` behind the request of `disconnect`.
  unfoldable pub close_own : ℕ → Exec (KomSession S) (Unit {0})
  close_own session_no s =
      if (session_no == 0) || is_number session_no s.session_no
      then close_session close s
      else (ok tt, s)

  -- KomSession.disconnect
  unfoldable pub disconnect : ℕ → Exec (KomSession S) (Unit {0})
  disconnect session_no =
      check_connection close
        (perform req_disconnect (number session_no ∷ []) >> close_own session_no)

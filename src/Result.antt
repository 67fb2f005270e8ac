-- ===== src/Result.antt =====
-- The outcome of code that may raise (errors.py, and the Python exceptions that the code raises).
use pylyskom.Base.{ℕ}
use pylyskom.Errors.{ServerError}

-- `not_enough_data` is NotEnoughDataInBufferError; `server_error e status` is an object of
-- the class `e`, with its argument. The rest carry the name of their class.
pub data Error : Type 0 where
  not_enough_data receive_error bad_initial_response protocol_error : Error
  bad_request_id unimplemented_async key_error : ℕ → Error
  server_error : ServerError → ℕ → Error
  -- KomSessionNotConnected, KomSessionException, KomSessionError; `socket_error` has its errno.
  session_not_connected session_exception session_error name_not_found ambiguous_name : Error
  socket_error : ℕ → Error
  type_error value_error runtime_error assertion_error unspecified : Error

pub data Result {ℓ} (A : Type ℓ) : Type ℓ where
  ok : A → Result A
  raise : Error → Result A

-- Only running out of received bytes is retried.
abbrev pub IsExhausted : Error → Type 0
IsExhausted not_enough_data = Unit
IsExhausted _ = ⊥

abbrev pub IsShort {ℓ} : {A : Type ℓ} → Result A → Type 0
IsShort (ok a) = ⊥
IsShort (raise e) = IsExhausted e

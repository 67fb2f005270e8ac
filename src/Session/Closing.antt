-- ===== src/Session/Closing.antt =====
-- komsession.py: what a `KomSession` does about its connection.
use pylyskom.Base.{
  ℕ, ◌≡◌, refl, ap, ◌∙◌, inl, inr, ◌⊎◌, List, [], ◌∷◌, true, false, Option-cases, contains, arith,
}
use pylyskom.Result.{
  Result, ok, raise, Error, socket_error, session_not_connected, session_exception,
}
use pylyskom.Exec.{Exec, ◌>>◌, throw}
use pylyskom.Session.{
  KomSession, new_session, is_connected, close_session, but_lost, check_connection, is_lost,
}

-- The errno values of a broken pipe, a connection reset by the peer, a socket that is not connected,
-- and a connection that timed out.
abbrev pub lost_errnos : List ℕ
lost_errnos = 32 ∷ 104 ∷ 107 ∷ 110 ∷ []

-- An error that shows a lost connection; another error of the socket; an error of another kind.
abbrev pub HasLost : Error → Type 0
HasLost (socket_error errno) = contains lost_errnos errno ≡ true
HasLost e = ⊥

abbrev pub HasFailed : Error → Type 0
HasFailed (socket_error errno) = contains lost_errnos errno ≡ false
HasFailed e = ⊥

abbrev pub IsOther : Error → Type 0
IsOther (socket_error errno) = ⊥
IsOther e = Unit

-- What the caller of a decorated method sees, then and in a later call of `g`, from what the method
-- returned or raised.
abbrev pub Seen :
    {S A B : Type 0}
    → (S → Result (Unit {0}))
    → Exec (KomSession S) B
    → Result A × KomSession S
    → Result A × KomSession S
    → Type 0
Seen close g (ok a, t) w = w ≡ (ok a, t)
Seen close g (raise e, t) w =
    (HasLost e
      → (w.1 ≡ new_session)
        × ((w.0 ≡ raise session_not_connected)
            ⊎ ((x : Error) × (w.0 ≡ raise x) × ((close_session close t).0 ≡ raise x)))
        × (check_connection close g w.1 ≡ (raise session_not_connected, w.1)))
    × (HasFailed e → w ≡ (raise session_exception, t))
    × (IsOther e → w ≡ (raise e, t))

module _ {S : Type 0} (close : S → Result (Unit {0})) where
  -- A closed session is a new one, whatever the client's `close` does.
  pub close_session-new : (s : KomSession S) → (close_session close s).1 ≡ new_session
  unfolding close_session
  close_session-new s = elim (Option-cases s.client) [
    | inl e ↦ rw (e, close_session) refl
    | inr (c, e) ↦ rw (e, close_session) refl
  ]

  closed-raises :
      {A : Type 0} (w : Result (Unit {0}) × KomSession S)
      → let v = ((λ (t : KomSession S). w) >> throw {A = A} session_not_connected) new_session in
        (v.1 ≡ w.1)
        × ((v.0 ≡ raise session_not_connected) ⊎ ((x : Error) × (v.0 ≡ raise x) × (w.0 ≡ raise x)))
  closed-raises (ok u, t) = (refl, inl refl)
  closed-raises (raise x, t) = (refl, inr (x, refl, refl))

  -- A closed session runs no method.
  closed-Ignores :
      {B : Type 0} (g : Exec (KomSession S) B) (s : KomSession S)
      → s ≡ new_session
      → check_connection close g s ≡ (raise session_not_connected, s)
  unfolding check_connection is_connected new_session
  closed-Ignores g s e =
      let off : is_connected s ≡ false = ap is_connected e in rw (off, check_connection) refl

  is_lost-lost_errnos : (errno : ℕ) → is_lost errno ≡ contains lost_errnos errno
  unfolding is_lost
  is_lost-lost_errnos errno = ground arith

  but_lost-Seen :
      {A B : Type 0} (g : Exec (KomSession S) B) (w : Result A × KomSession S)
      → Seen close g w (but_lost close w)
  unfolding but_lost
  but_lost-Seen g (ok a, t) = refl
  but_lost-Seen g (raise (socket_error errno), t) = (
    λ lost.
        let (closed, raises) = closed-raises (close_session close t) in
        let now = closed ∙ close_session-new t in
        rw (is_lost-lost_errnos errno ∙ lost, but_lost) (now, raises, closed-Ignores g _ now),
    λ failed. rw (is_lost-lost_errnos errno ∙ failed, but_lost) refl,
    λ other. absurd other,
  )
  but_lost-Seen g (raise e, t) = ((λ x. absurd x), (λ x. absurd x), λ u. refl)

  -- A method `f` with `check_connection`, and one `g` called behind it: without a connection, `f`
  -- raises KomSessionNotConnected and nothing else happens. With one, what `f` returns is returned; a
  -- broken pipe, a reset, a missing or a timed out connection closes the session, which is a new one
  -- then, and raises KomSessionNotConnected, or what closing raised, and `g` raises
  -- KomSessionNotConnected without being run; another error of the socket is a KomSessionException, and
  -- any other exception goes through, both with the session as `f` left it.
  pub check_connection-Seen :
      {A B : Type 0} (f : Exec (KomSession S) A) (g : Exec (KomSession S) B) (s : KomSession S)
      → (is_connected s ≡ false → check_connection close f s ≡ (raise session_not_connected, s))
        × (is_connected s ≡ true → Seen close g (f s) (check_connection close f s))
  unfolding check_connection
  check_connection-Seen f g s =
      (λ e. rw (e, check_connection) refl, λ e. rw (e, check_connection) (but_lost-Seen g (f s)))

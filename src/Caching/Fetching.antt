-- ===== src/Caching/Fetching.antt =====
-- cachedconnection.py: `get_unread_texts_from_membership` beside what the cache of uconferences holds.
use pylyskom.Base.{ℕ, zero, suc, ◌-◌, ◌++◌, List, [], ◌∷◌, Option, none, some, if◌then◌else◌, ltb}
use pylyskom.Result.{Result, ok, raise, server_error}
use pylyskom.Errors.{no_such_local_text}
use pylyskom.Exec.{Exec}
use pylyskom.Datatypes.Conference.{UConference}
use pylyskom.Datatypes.Membership.{Membership11}
use pylyskom.Datatypes.Text.{TextMapping}
use pylyskom.Caching.{ClientApi, CachingPersonClient}
use pylyskom.Caching.Unread.{
  Progress, existing, but_no_such_text, map_texts, fetch_gap, fetch_gaps, fetch_rest,
  get_unread_texts_from_membership,
}
use pylyskom.Caching.Truth.{
  Announces, IsTrue, KeepsTrue, KeepsTrue-bind, KeepsTrue-lift, ask-KeepsTrue,
}

module _ {S : Type 0} (api : ClientApi S) (now : S → ℕ → UConference → Type 0)
    (server : Announces api now) where
  but_no_such_text-IsTrue :
      (w : Result TextMapping × CachingPersonClient S)
      → IsTrue now w.1
      → IsTrue now (but_no_such_text w).1
  unfolding but_no_such_text
  but_no_such_text-IsTrue (ok m, t) h = h
  but_no_such_text-IsTrue (raise (server_error no_such_local_text status), t) h = h
  but_no_such_text-IsTrue (raise e, t) h = h

  map_texts-KeepsTrue : (c l n : ℕ) → KeepsTrue now (map_texts api c l n)
  unfolding map_texts
  map_texts-KeepsTrue c l n = record {
    at = λ s t. but_no_such_text-IsTrue _ ((ask-KeepsTrue api now server _ _ _).at s t);
  }

  -- What goes on from a mapping, or without one.
  found-KeepsTrue :
      {A : Type 0} (f : TextMapping → Exec (CachingPersonClient S) A)
      (m : Exec (CachingPersonClient S) A)
      → ((mapping : TextMapping) → KeepsTrue now (f mapping))
      → KeepsTrue now m
      → (found : Option TextMapping)
      → KeepsTrue now (elim found [ some mapping ↦ f mapping | none ↦ m ])
  found-KeepsTrue f m h k none = k
  found-KeepsTrue f m h k (some mapping) = h mapping

  fetch_gap-KeepsTrue : (fuel c l n : ℕ) (p : Progress) → KeepsTrue now (fetch_gap api fuel c l n p)
  unfolding fetch_gap
  fetch_gap-KeepsTrue zero c l n p = KeepsTrue-lift (ok p)
  fetch_gap-KeepsTrue (suc fuel) c l zero p = KeepsTrue-lift (ok p)
  fetch_gap-KeepsTrue (suc fuel) c l (suc k) (unread, more) =
      let n = if ltb 255 (suc k) then 255 else suc k in
      KeepsTrue-bind (map_texts-KeepsTrue c l n) λ found.
        found-KeepsTrue
          (λ mapping.
            fetch_gap api fuel c mapping.range_end (suc k - n)
              (unread ++ existing mapping.list, mapping.later_texts_exists))
          (fetch_gap api fuel c l (suc k - n) (unread, 0))
          (λ mapping. fetch_gap-KeepsTrue fuel c mapping.range_end _ _)
          (fetch_gap-KeepsTrue fuel c l _ _) found

  fetch_gaps-KeepsTrue :
      (c : ℕ) (gaps : List (ℕ × ℕ)) (p : Progress) → KeepsTrue now (fetch_gaps api c gaps p)
  unfolding fetch_gaps
  fetch_gaps-KeepsTrue c [] p = KeepsTrue-lift (ok p)
  fetch_gaps-KeepsTrue c ((first, n) ∷ gaps) p =
      KeepsTrue-bind (fetch_gap-KeepsTrue n c first n p) (fetch_gaps-KeepsTrue c gaps)

  fetch_rest-KeepsTrue : (fuel c l : ℕ) (p : Progress) → KeepsTrue now (fetch_rest api fuel c l p)
  unfolding fetch_rest
  fetch_rest-KeepsTrue fuel c l (unread, zero) = KeepsTrue-lift (ok (some unread))
  fetch_rest-KeepsTrue zero c l (unread, suc more) = KeepsTrue-lift (ok none)
  fetch_rest-KeepsTrue (suc fuel) c l (unread, suc more) =
      KeepsTrue-bind (map_texts-KeepsTrue c l 255) λ found.
        found-KeepsTrue
          (λ mapping.
            fetch_rest api fuel c mapping.range_end
              (unread ++ existing mapping.list, mapping.later_texts_exists))
          (fetch_rest api fuel c l (unread, 0))
          (λ mapping. fetch_rest-KeepsTrue fuel c mapping.range_end _)
          (fetch_rest-KeepsTrue fuel c l (unread, 0)) found

  pub unread-KeepsTrue :
      (fuel : ℕ) (m : Membership11) → KeepsTrue now (get_unread_texts_from_membership api fuel m)
  unfolding get_unread_texts_from_membership
  unread-KeepsTrue fuel m = KeepsTrue-bind (fetch_gaps-KeepsTrue m.conference _ ([], 1)) λ p.
      KeepsTrue-bind (fetch_rest-KeepsTrue fuel m.conference _ p) λ unread. KeepsTrue-lift (ok _)

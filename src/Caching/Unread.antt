-- ===== src/Caching/Unread.antt =====
-- cachedconnection.py: `CachingClient.get_unread_texts_from_membership`.
use pylyskom.Base.{
  ℕ, zero, suc, ◌-◌, List, [], ◌∷◌, ◌++◌, Option, none, some, ◌==◌, ltb, if◌then◌else◌,
}
use pylyskom.Result.{Result, ok, raise, unspecified, server_error}
use pylyskom.Errors.{no_such_local_text}
use pylyskom.Exec.{Exec, pure, ◌>>=◌}
use pylyskom.Datatypes.Membership.{Membership11}
use pylyskom.Datatypes.Text.{TextMapping}
use pylyskom.Requests.Request.{number}
use pylyskom.Requests.Responses
use pylyskom.Requests.Responses.{Reply}
use pylyskom.Requests.Calls.To103.{req_local_to_global}
use pylyskom.Caching.{ClientApi, CachingPersonClient, ask}
use pylyskom.Utils.Ranges.{read_ranges_to_gaps_and_last}

unfoldable pub as_text_mapping : Reply → Result TextMapping
as_text_mapping (Responses.text_mapping m) = ok m
as_text_mapping _ = raise unspecified

-- The `except NoSuchLocalText`, where there is no mapping.
unfoldable pub but_no_such_text :
    {S : Type 0} → Result TextMapping × S → Result (Option TextMapping) × S
but_no_such_text (ok m, s) = (ok (some m), s)
but_no_such_text (raise (server_error no_such_local_text status), s) = (ok none, s)
but_no_such_text (raise e, s) = (raise e, s)

-- [e[1] for e in mapping.list if e[1] != 0]
unfoldable pub existing : List (ℕ × ℕ) → List ℕ
existing [] = []
existing ((local, global) ∷ l) =
    let rest = existing l in if global == 0 then rest else global ∷ rest

-- The final `[text_no for text_no in unread if text_no != 0]`.
unfoldable pub nonzero : List ℕ → List ℕ
nonzero [] = []
nonzero (n ∷ l) = let rest = nonzero l in if n == 0 then rest else n ∷ rest

-- `unread` and `more_to_fetch`
abbrev pub Progress : Type 0
Progress = List ℕ × ℕ

module _ {S : Type 0} (api : ClientApi S) where
  unfoldable pub map_texts : ℕ → ℕ → ℕ → Exec (CachingPersonClient S) (Option TextMapping)
  map_texts conference first_local n s = but_no_such_text (
      ask api as_text_mapping req_local_to_global
        (number conference ∷ number first_local ∷ number n ∷ []) s)

  -- The `while gap_len > 0`, on fuel.
  unfoldable pub fetch_gap : ℕ → ℕ → ℕ → ℕ → Progress → Exec (CachingPersonClient S) Progress
  fetch_gap zero conference first_local gap_len p = pure p
  fetch_gap (suc fuel) conference first_local zero p = pure p
  fetch_gap (suc fuel) conference first_local (suc k) (unread, more_to_fetch) =
      let n = if ltb 255 (suc k) then 255 else suc k in
      map_texts conference first_local n >>= λ found. elim found [
        | some mapping ↦
            fetch_gap fuel conference mapping.range_end (suc k - n)
              (unread ++ existing mapping.list, mapping.later_texts_exists)
        | none ↦ fetch_gap fuel conference first_local (suc k - n) (unread, 0)
      ]

  -- The `for` over the gaps.
  unfoldable pub fetch_gaps : ℕ → List (ℕ × ℕ) → Progress → Exec (CachingPersonClient S) Progress
  fetch_gaps conference [] p = pure p
  fetch_gaps conference ((first, gap_len) ∷ gaps) p =
      fetch_gap gap_len conference first gap_len p >>= fetch_gaps conference gaps

  -- The `while more_to_fetch`, on fuel; `none` where that is too little.
  unfoldable pub fetch_rest : ℕ → ℕ → ℕ → Progress → Exec (CachingPersonClient S) (Option (List ℕ))
  fetch_rest fuel conference first_local (unread, zero) = pure (some unread)
  fetch_rest zero conference first_local (unread, suc more) = pure none
  fetch_rest (suc fuel) conference first_local (unread, suc more) =
      map_texts conference first_local 255 >>= λ found. elim found [
        | some mapping ↦
            fetch_rest fuel conference mapping.range_end
              (unread ++ existing mapping.list, mapping.later_texts_exists)
        | none ↦ fetch_rest fuel conference first_local (unread, 0)
      ]

  -- CachingClient.get_unread_texts_from_membership
  unfoldable pub get_unread_texts_from_membership :
      ℕ → Membership11 → Exec (CachingPersonClient S) (Option (List ℕ))
  get_unread_texts_from_membership fuel membership =
      let w = read_ranges_to_gaps_and_last membership.read_ranges in
      fetch_gaps membership.conference w.0 ([], 1) >>= λ p.
      fetch_rest fuel membership.conference w.1 p >>= λ unread.
      pure (elim unread [ none ↦ none | some l ↦ some (nonzero l) ])

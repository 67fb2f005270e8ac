-- ===== src/Memberships/Positions.antt =====
-- cachedconnection.py: storing, handing out and invalidating the memberships by position.
use pylyskom.Base.{
  ℕ, ◌+◌, ◌<◌, ◌≡◌, refl, sym, ap, ◌∙◌, ◌↔◌, List, [], ◌∷◌, length, true, false, Bool-cases,
  Option-cases, inl, inr, none, some, ◌==◌, ==_iff, contains, arith,
}
use pylyskom.Dict
use pylyskom.Dict.{Dict}
use pylyskom.Datatypes.Membership.{Membership11}
use pylyskom.Memberships.{get_cached, update_cached, find_position, forget_conference}

-- Memberships at `first` and the positions behind it, in order.
abbrev pub AreFrom : ℕ → List Membership11 → Type 0
AreFrom first [] = Unit
AreFrom first (m ∷ l) = (Membership11.position m ≡ first) × AreFrom (first + 1) l

-- Storing memberships of later positions leaves the earlier ones.
update_cached-before :
    (l : List Membership11) (d : Dict Membership11) (first p : ℕ)
    → AreFrom first l
    → p < first
    → Dict.get (update_cached l d) p ≡ Dict.get d p
unfolding update_cached
update_cached-before [] d first p h k = refl
update_cached-before (m ∷ l) d first p (e, h) k =
    let other : (m.position == p) ≡ false = ground arith in
    update_cached-before l (Dict.put d m.position m) (first + 1) p h (omega (arith, k))
    ∙ Dict.get-put d m.position p m
    ∙ (rw other refl)

-- Memberships that were fetched from a position on, and stored, are handed out for the same
-- positions as they were fetched, without another request.
pub get_cached-update_cached :
    (l : List Membership11) (d : Dict Membership11) (first : ℕ)
    → AreFrom first l
    → get_cached (update_cached l d) first (length l) ≡ some l
unfolding get_cached update_cached
get_cached-update_cached [] d first h = refl
get_cached-update_cached (m ∷ l) d first (e, h) =
    let here : (m.position == first) ≡ true = ground arith in
    let there : Dict.get (update_cached l (Dict.put d m.position m)) first ≡ some m =
      update_cached-before l (Dict.put d m.position m) (first + 1) first h (omega arith)
      ∙ Dict.get-put d m.position first m
      ∙ (rw here refl) in
    rw (there, get_cached, get_cached-update_cached l (Dict.put d m.position m) (first + 1) h) refl

keys-get :
    (d : Dict Membership11) (p : ℕ) {m : Membership11}
    → Dict.get d p ≡ some m
    → contains (Dict.keys d) p ≡ true
unfolding Dict.get Dict.keys
keys-get [] p e = absurd cc
keys-get ((j, w) ∷ d) p e = elim (Bool-cases (j == p)) [
  | inl same ↦ rw same refl
  | inr other ↦ rw other (keys-get d p (rw other at e))
]

-- At one position: is its membership in the conference?
find-found :
    (d : Dict Membership11) (conf_no : ℕ) (positions : List ℕ) (p : ℕ)
    → find_position d conf_no positions ≡ some p
    → (m : Membership11) × (Dict.get d p ≡ some m) × ((m.conference == conf_no) ≡ true)
unfolding find_position
find-found d conf_no [] p e = absurd cc
find-found d conf_no (pos ∷ positions) p e = elim (Option-cases (Dict.get d pos)) [
  | inl missing ↦ find-found d conf_no positions p (rw (missing, find_position) at e)
  | inr (m, found) ↦ elim (Bool-cases (m.conference == conf_no)) [
    | inl yes' ↦
        let here : some pos ≡ some p = (rw (found, find_position, yes') at e) in
        let same : pos ≡ p = cc in (m, ap (Dict.get d) (sym same) ∙ found, yes')
    | inr no' ↦ find-found d conf_no positions p (rw (found, find_position, no') at e)
  ]
]

find-none :
    (d : Dict Membership11) (conf_no : ℕ) (positions : List ℕ) (p : ℕ) {m : Membership11}
    → find_position d conf_no positions ≡ none
    → contains positions p ≡ true
    → Dict.get d p ≡ some m
    → (m.conference == conf_no) ≡ false
unfolding find_position
find-none d conf_no [] p e h k = absurd cc
find-none d conf_no (pos ∷ positions) p {m} e h k = elim (Option-cases (Dict.get d pos)) [
  | inl missing ↦ elim (Bool-cases (pos == p)) [
    | inl same ↦
        let there : pos ≡ p = ground arith in
        let x : none ≡ some m = sym missing ∙ ap (Dict.get d) there ∙ k in absurd cc
    | inr other ↦
        find-none d conf_no positions p (rw (missing, find_position) at e) (rw other at h) k
  ]
  | inr (w, found) ↦ elim (Bool-cases (w.conference == conf_no)) [
    | inl yes' ↦ let x : some pos ≡ none = (rw (found, find_position, yes') at e) in absurd cc
    | inr no' ↦ elim (Bool-cases (pos == p)) [
      | inl same ↦
          let there : pos ≡ p = ground arith in
          let x : some w ≡ some m = sym found ∙ ap (Dict.get d) there ∙ k in
          let y : w ≡ m = cc in ap (λ (v : Membership11). v.conference == conf_no) (sym y) ∙ no'
      | inr other ↦
          find-none d conf_no positions p (rw (found, find_position, no') at e) (rw other at h) k
    ]
  ]
]

-- Each conference stands at one position at most, as in the server's list.
pub record HasNoTwins (d : Dict Membership11) : Type 0 where
  pub at :
      (p q : ℕ) (m n : Membership11)
      → Dict.get d p ≡ some m
      → Dict.get d q ≡ some n
      → m.conference ≡ n.conference
      → p ≡ q

-- Where each conference stands at one position at most, invalidating a conference forgets exactly
-- its membership: a position still has a membership if it had it and it is in another conference.
pub forget_conference-keeps :
    (conf_no : ℕ) (d : Dict Membership11) (p : ℕ) (m : Membership11)
    → HasNoTwins d
    → (Dict.get (forget_conference conf_no d) p ≡ some m)
      ↔ (Dict.get d p ≡ some m) × ((m.conference == conf_no) ≡ false)
unfolding forget_conference
forget_conference-keeps conf_no d p m one =
    elim (Option-cases (find_position d conf_no (Dict.keys d))) [
      | inl nowhere ↦
          rw (nowhere, forget_conference)
            (λ e. (e, find-none d conf_no (Dict.keys d) p nowhere (keys-get d p e) e), λ w. w.0)
      | inr (q, somewhere) ↦
          let (n, at_q, there) = find-found d conf_no (Dict.keys d) q somewhere in
          rw (somewhere, forget_conference, Dict.get-remove d q p)
            (elim (Bool-cases (q == p)) [
              | inl same ↦
                  let q_is_p : q ≡ p = ground arith in
                  rw same (
                    λ e. absurd (let x : none ≡ some m = e in cc),
                    λ (e, apart). absurd (twin n at_q there q_is_p e apart),
                  )
              | inr other ↦ rw other (
                λ e. (
                  e,
                  elim (Bool-cases (m.conference == conf_no)) [
                    | inl in' ↦
                        let together : p ≡ q = one.at p q m n e at_q (
                          omega (
                            arith,
                            (==_iff m.conference conf_no).0 in',
                            (==_iff n.conference conf_no).0 there,
                          )) in
                        absurd (ground arith)
                    | inr out ↦ out
                  ],
                ),
                λ w. w.0,
              )
            ])
    ]
  where
    twin :
        {q : ℕ} (n : Membership11)
        → Dict.get d q ≡ some n
        → (n.conference == conf_no) ≡ true
        → q ≡ p
        → Dict.get d p ≡ some m
        → (m.conference == conf_no) ≡ false
        → ⊥
    twin n at_q there e at_p apart =
        let x : some n ≡ some m = sym at_q ∙ ap (Dict.get d) e ∙ at_p in
        let y : n ≡ m = cc in
        let z : true ≡ false =
          sym there ∙ ap (λ (v : Membership11). v.conference == conf_no) y ∙ apart in
        cc

-- ===== src/Exec/Gives.antt =====
-- What a run returns, if it returns.

use pylyskom.Result.{Result, ok, raise}
use pylyskom.Exec.{Exec, pure, continue, ◌>>=◌}

abbrev pub Holds {ℓ κ} : {A : Type ℓ} → (A → Type κ) → Result A → Type κ
Holds P (ok a) = P a
Holds P (raise e) = Unit

-- Each value that the run returns has `P`.
pub record Gives {ℓ κ κ'} {S : Type ℓ} {A : Type κ} (P : A → Type κ') (m : Exec S A)
    : Type (ℓ ⊔ κ') where
  pub at : (s : S) → Holds P (m s).0

module _ {ℓ κ κ'} {S : Type ℓ} {A : Type κ} {P : A → Type κ'} where
  pub Gives-pure : (a : A) → P a → Gives {S = S} P (pure a)
  Gives-pure a h = record { at = λ s. h }

module _ {ℓ κ κ' κ''} {S : Type ℓ} {A : Type κ} {B : Type κ'} {P : B → Type κ''} where
  after :
      (f : A → Exec S B) (r : Result A) (s : S)
      → ((a : A) → Gives P (f a))
      → Holds P (continue r f s).0
  after f (ok a) s h = (h a).at s
  after f (raise e) s h = tt

  pub Gives-bind : (m : Exec S A) {f : A → Exec S B} → ((a : A) → Gives P (f a)) → Gives P (m >>= f)
  Gives-bind m {f} h = record { at = λ s. after f (m s).0 (m s).1 h }

module _ {ℓ κ κ' λ₁ λ₂} {S : Type ℓ} {A : Type κ} {B : Type κ'} {Q : A → Type λ₁}
    {P : B → Type λ₂} where
  after_what :
      (f : A → Exec S B) (r : Result A) (s : S)
      → ((a : A) → Q a → Gives P (f a))
      → Holds Q r
      → Holds P (continue r f s).0
  after_what f (ok a) s h q = (h a q).at s
  after_what f (raise e) s h q = tt

  -- The same, where the rest of a block relies on what the first step gives.
  pub Gives-then :
      {m : Exec S A} {f : A → Exec S B}
      → Gives Q m
      → ((a : A) → Q a → Gives P (f a))
      → Gives P (m >>= f)
  Gives-then {m} {f} q h = record { at = λ s. after_what f (m s).0 (m s).1 h (q.at s) }

module _ {κ κ' κ''} {A : Type κ} {Q : A → Type κ'} {P : A → Type κ''} where
  weaker : (r : Result A) → ((a : A) → Q a → P a) → Holds Q r → Holds P r
  weaker (ok a) h x = h a x
  weaker (raise e) h x = tt

  pub Gives-weaken {ℓ} : {S : Type ℓ} {m : Exec S A} → Gives Q m → ((a : A) → Q a → P a) → Gives P m
  Gives-weaken {m = m} q h = record { at = λ s. weaker (m s).0 h (q.at s) }

-- ===== src/Exec.antt =====
-- Code that reads and writes a state and may raise: a method of an object, or a parser that takes
-- bytes from a receive buffer. What was consumed or written before a raise stays so.
pub mod Stable
pub mod Gives
use pylyskom.Base.{◌≡◌, refl}
use pylyskom.Result.{Error, Result, ok, raise}

abbrev pub Exec {ℓ κ} : Type ℓ → Type κ → Type (ℓ ⊔ κ)
Exec S A = S → Result A × S

module _ {ℓ κ} {S : Type ℓ} {A : Type κ} where
  abbrev pub pure : A → Exec S A
  pure a s = (ok a, s)

  abbrev pub throw : Error → Exec S A
  throw e s = (raise e, s)

  -- Code that touches no state.
  abbrev pub lift : Result A → Exec S A
  lift r s = (r, s)

module _ {ℓ κ κ'} {S : Type ℓ} {A : Type κ} {B : Type κ'} where
  -- The rest of a block, after a step that gave `r`.
  abbrev pub continue : Result A → (A → Exec S B) → Exec S B
  continue (ok a) f s = f a s
  continue (raise e) f s = (raise e, s)

  infixl 10 ◌>>=◌ ◌>>◌
  abbrev pub ◌>>=◌ : Exec S A → (A → Exec S B) → Exec S B
  ◌>>=◌ m f s = continue (m s).0 f (m s).1

  abbrev pub ◌>>◌ : Exec S A → Exec S B → Exec S B
  m >> n = m >>= λ _. n

module _ {ℓ κ κ' κ''} {S : Type ℓ} {A : Type κ} {B : Type κ'} {C : Type κ''} where
  continue_assoc :
      (r : Result A) (f : A → Exec S B) (g : B → Exec S C) (s : S)
      → continue r (λ a. f a >>= g) s ≡ continue (continue r f s).0 g (continue r f s).1
  continue_assoc (ok a) f g s = refl
  continue_assoc (raise e) f g s = refl

  pub bind_assoc :
      (m : Exec S A) (f : A → Exec S B) (g : B → Exec S C) (s : S)
      → (m >>= λ a. f a >>= g) s ≡ (m >>= f >>= g) s
  bind_assoc m f g s = continue_assoc (m s).0 f g (m s).1

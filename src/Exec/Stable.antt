-- ===== src/Exec/Stable.antt =====
-- Code that does not care where the received bytes stop, as long as they reach far enough: with
-- more bytes behind, it does the same and leaves those bytes.
use pylyskom.Base.{ℕ, ◌≤◌, Bytes, ◌≡◌, ◌⊎◌, inl, inr, refl, Bool, true, false, if◌then◌else◌, arith}
use pylyskom.Result.{Error, Result, ok, raise, IsShort}
use pylyskom.Exec.{Exec, pure, throw, lift, continue, ◌>>=◌}

-- A state that holds received bytes: how more are put behind them, and how many there are.
pub record Buffered {ℓ} (S : Type ℓ) : Type ℓ where
  pub grow : S → Bytes → S
  pub size : S → ℕ

module _ {ℓ κ} {S : Type ℓ} {A : Type κ} (g : Buffered S) where
  pub record Stable (m : Exec S A) : Type (ℓ ⊔ κ) where
    -- Each run ends short of bytes, or goes the same way when bytes `t` are put behind.
    pub at : (s : S) (t : Bytes) → IsShort (m s).0 ⊎ (m (g.grow s t) ≡ ((m s).0, g.grow (m s).1 t))
    pub shrinks : (s : S) → g.size (m s).1 ≤ g.size s

module _ {ℓ κ} {S : Type ℓ} {A : Type κ} {g : Buffered S} where
  pub Stable-pure : (a : A) → Stable g (pure a)
  Stable-pure a = record { at = λ s t. inr refl; shrinks = λ s. omega arith }

  pub Stable-throw : (e : Error) → Stable g (throw {A = A} e)
  Stable-throw e = record { at = λ s t. inr refl; shrinks = λ s. omega arith }

  pub Stable-lift : (r : Result A) → Stable g (lift r)
  Stable-lift r = record { at = λ s t. inr refl; shrinks = λ s. omega arith }

  pub Stable-if :
      (b : Bool) {m n : Exec S A} → Stable g m → Stable g n → Stable g (if b then m else n)
  Stable-if true km kn = km
  Stable-if false km kn = kn

module _ {ℓ κ κ'} {S : Type ℓ} {A : Type κ} {B : Type κ'} {g : Buffered S} where
  bind_step :
      (f : A → Exec S B) (r : Result A) (s : S) (t : Bytes) (w : Result A × S)
      → ((a : A) → Stable g (f a))
      → IsShort r ⊎ (w ≡ (r, g.grow s t))
      → IsShort (continue r f s).0
        ⊎ (continue w.0 f w.1 ≡ ((continue r f s).0, g.grow (continue r f s).1 t))
  bind_step f (ok a) s t w k (inl h) = absurd h
  bind_step f (ok a) s t w k (inr e) = rw e ((k a).at s t)
  bind_step f (raise x) s t w k (inl h) = inl h
  bind_step f (raise x) s t w k (inr e) = inr (rw e refl)

  continue_shrinks :
      (f : A → Exec S B) (r : Result A) (s : S)
      → ((a : A) → Stable g (f a))
      → g.size (continue r f s).1 ≤ g.size s
  continue_shrinks f (ok a) s k = (k a).shrinks s
  continue_shrinks f (raise x) s k = omega arith

  pub Stable-bind :
      {m : Exec S A} {f : A → Exec S B}
      → Stable g m
      → ((a : A) → Stable g (f a))
      → Stable g (m >>= f)
  Stable-bind {m} {f} km kf = record {
    at = λ s t. bind_step f (m s).0 (m s).1 t (m (g.grow s t)) kf (km.at s t);
    shrinks = λ s. omega (arith, km.shrinks s, continue_shrinks f (m s).0 (m s).1 kf);
  }

pub ruleset stable_rules = (Stable-pure, Stable-throw, Stable-lift, Stable-if, Stable-bind)

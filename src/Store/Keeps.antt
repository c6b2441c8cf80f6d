-- ===== src/Store/Keeps.antt =====
-- Actions that keep a property of the state, and the rules that build them.
use poly_notifier.Store.Rows.{Result, ok, err}
use poly_notifier.Store.World.{Exec, pure, attempt, continue, ◌>>=◌}

pub record Keeps {ℓ κ μ} {S : Type ℓ} {A : Type κ} (P : S → Type μ) (m : Exec S A)
    : Type (ℓ ⊔ μ) where
  pub at : (s : S) → P s → P (m s).1

module _ {ℓ κ μ} {S : Type ℓ} {A : Type κ} {P : S → Type μ} where
  pub Keeps-pure : (a : A) → Keeps P (pure a)
  unfolding ◌>>=◌
  Keeps-pure a = record { at = λ s h. h }

  pub Keeps-attempt : {m : Exec S A} → Keeps P m → Keeps P (attempt m)
  unfolding ◌>>=◌
  Keeps-attempt k = record { at = k.at }

  keeps_outcome {ν} :
      {B : Type ν} (f : A → Exec S B) (r : Result A) (s : S)
      → ((a : A) → Keeps P (f a))
      → P s
      → P (continue r f s).1
  keeps_outcome f (ok a) s k h = (k a).at s h
  keeps_outcome f (err e) s k h = h

  pub Keeps-bind {ν} :
      {B : Type ν} {m : Exec S A} {f : A → Exec S B}
      → Keeps P m
      → ((a : A) → Keeps P (f a))
      → Keeps P (m >>= f)
  unfolding ◌>>=◌
  Keeps-bind {m} {f} k next = record { at = λ s h. keeps_outcome f (m s).0 (m s).1 next (k.at s h) }

pub ruleset keeps_rules = (Keeps-pure, Keeps-attempt, Keeps-bind)

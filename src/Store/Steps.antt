-- ===== src/Store/Steps.antt =====
-- Running an action step by step, where the outcome of the first step is known.
use poly_notifier.Common.{◌≡◌, ap}
use poly_notifier.Store.Rows.{ok}
use poly_notifier.Store.World.{Exec, attempt, continue, ◌>>=◌}

module _ {ℓ κ μ} {S : Type ℓ} {A : Type κ} {B : Type μ} where
  pub bound :
      (m : Exec S A) (g : A → Exec S B) (s s' : S) (a : A) → m s ≡ (ok a, s') → (m >>= g) s ≡ g a s'
  unfolding ◌>>=◌
  bound m g s s' a e = ap (λ o. continue o.0 g o.1) e

module _ {ℓ κ} {S : Type ℓ} {A : Type κ} where
  pub attempted :
      (m : Exec S A) (s s' : S) (a : A) → m s ≡ (ok a, s') → attempt m s ≡ (ok (ok a), s')
  unfolding ◌>>=◌
  attempted m s s' a e = ap (λ o. (ok o.0, o.1)) e

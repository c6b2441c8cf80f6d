-- ===== src/Polymarket/Http/Calls.antt =====
-- How many calls of the outside world an action makes: none, or one.
use poly_notifier.Common.{◌≡◌, refl, ◌∙◌, String, List}
use poly_notifier.Store.Rows.{Result, ok, err}
use poly_notifier.Store.World.{World, Exec, continue, ask, tick, ◌>>=◌}
use poly_notifier.Polymarket.Http.{HttpOps, lift, context, fetch}

module _ {A : Type 0} where
  -- The state stays as it is.
  abbrev pub Still : Exec World A → Type 0
  Still m = (w : World) → (m w).1 ≡ w

  -- One call, and nothing else.
  abbrev pub Ticks : Exec World A → Type 0
  Ticks m = (w : World) → (m w).1 ≡ tick w

module _ {A B : Type 0} where
  continue-Still :
      (r : Result A) (g : A → Exec World B) (w : World)
      → ((a : A) → Still (g a))
      → (continue r g w).1 ≡ w
  continue-Still (ok a) g w h = h a w
  continue-Still (err e) g w h = refl

  pub Ticks-bind :
      (m : Exec World A) (g : A → Exec World B)
      → Ticks m
      → ((a : A) → Still (g a))
      → Ticks (m >>= g)
  unfolding ◌>>=◌
  Ticks-bind m g h k w = continue-Still (m w).0 g (m w).1 k ∙ h w

  pub Still-bind :
      (m : Exec World A) (g : A → Exec World B)
      → Still m
      → ((a : A) → Still (g a))
      → Still (m >>= g)
  unfolding ◌>>=◌
  Still-bind m g h k w = continue-Still (m w).0 g (m w).1 k ∙ h w

-- A request is one call.
pub fetch-Ticks :
    (h : HttpOps) (url : String) (query : List (String × String)) (failed reading : String)
    (refusal : String → String → String)
    → Ticks (fetch h url query failed reading refusal)
unfolding fetch ask
fetch-Ticks h url query failed reading refusal =
    Ticks-bind (ask (λ call. context failed (h.send url query call))) _ (λ w. refl)
      λ response. Still-bind (lift (context reading response.text)) _ (λ w. refl) λ body w. refl

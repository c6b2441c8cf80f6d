-- ===== src/Alert/Rules/Crossing.antt =====
-- What a rule says of the prices, and how often a crossing alert fires along a feed.
use poly_notifier.Common.{
  ℕ, ◌+◌, ◌≤◌, ◌≡◌, refl, ◌↔◌, ◌⊎◌, inl, inr, true, false, Option, none, some, List, [], ◌∷◌, arith,
  if◌then◌else◌, Bool-cases,
}
use mathlib.Core.Path.{subst}
use poly_notifier.Store.Rows.{AlertType, above, below, cross}
use poly_notifier.Interfaces.{DecimalOps, IsOrdered}
use poly_notifier.Alert.Rules.{AlertRule, crosses, passes, evaluate}

module _ (n : DecimalOps) where
  open n use {Decimal, lt, le}

  -- On which side of the threshold a price stands.
  abbrev Under : Decimal → Decimal → Type 0
  Under threshold price = le threshold price ≡ false

  abbrev Over : Decimal → Decimal → Type 0
  Over threshold price = le price threshold ≡ false

  -- When an alert of each kind should fire, in terms of sides.
  abbrev pub Fires : AlertType → Decimal → Decimal → Option Decimal → Type 0
  Fires above threshold current previous = ¬ Under threshold current
  Fires below threshold current previous = ¬ Over threshold current
  Fires cross threshold current none = ⊥
  Fires cross threshold current (some prev) =
      (Under threshold prev × ¬ Under threshold current)
      ⊎ (Over threshold prev × ¬ Over threshold current)

  -- The prices of a feed in order, each with the one before it, as the engine hands them over.
  pub firings : AlertRule n → Option Decimal → List Decimal → ℕ
  firings rule previous [] = 0
  firings rule previous (price ∷ prices) =
      let rest = firings rule (some price) prices in
      if evaluate n rule price previous then rest + 1 else rest

  -- A feed that never falls.
  abbrev pub Rising : Decimal → List Decimal → Type 0
  Rising price [] = Unit
  Rising price (next ∷ prices) = (le price next ≡ true) × Rising next prices

module _ (n : DecimalOps) (o : IsOrdered n) where
  open n use {Decimal, lt, le}

  passes-Fires :
      (type : AlertType) (threshold current : Decimal) (previous : Option Decimal)
      → (passes n type threshold current previous ≡ true) ↔ Fires n type threshold current previous
  unfolding passes
  passes-Fires above threshold current previous = ground arith
  passes-Fires below threshold current previous = ground arith
  passes-Fires cross threshold current none = ground arith
  passes-Fires cross threshold current (some prev) =
      ground (arith, o.lt-not-le prev threshold, o.lt-not-le threshold prev)

  -- `evaluate` answers true exactly when the kind of the rule says so: at or above the threshold, at
  -- or below it, or from strictly one side of it to the threshold or beyond. Without a previous
  -- price no crossing fires.
  pub evaluate-Fires :
      (rule : AlertRule n) (current : Decimal) (previous : Option Decimal)
      → (evaluate n rule current previous ≡ true)
        ↔ Fires n rule.alert_type rule.threshold current previous
  unfolding evaluate
  evaluate-Fires rule current previous =
      passes-Fires rule.alert_type rule.threshold current previous

  module _ (rule : AlertRule n) (is_cross : rule.alert_type ≡ cross) where
    -- From the threshold or above it, a price that does not fall crosses nothing.
    evaluate-settled :
        (price next : Decimal)
        → le rule.threshold price ≡ true
        → le price next ≡ true
        → evaluate n rule next (some price) ≡ false
    unfolding evaluate passes
    evaluate-settled price next reached rises =
        rw (is_cross, passes)
          (ground (
            arith,
            o.lt-not-le price rule.threshold,
            o.lt-not-le rule.threshold price,
            o.le_trans price next rule.threshold rises,
          ))

    firings-settled :
        (price : Decimal) (prices : List Decimal)
        → le rule.threshold price ≡ true
        → Rising n price prices
        → firings n rule (some price) prices ≡ 0
    unfolding firings
    firings-settled price [] reached rising = refl
    firings-settled price (next ∷ prices) reached rising =
        rw (evaluate-settled price next reached rising.0)
          (firings-settled next prices (o.le_trans _ _ _ reached rising.0) rising.1)

    -- A crossing alert that fires on a rise has reached its threshold.
    evaluate-reached :
        (price next : Decimal)
        → le price next ≡ true
        → evaluate n rule next (some price) ≡ true
        → le rule.threshold next ≡ true
    unfolding evaluate passes
    evaluate-reached price next rises fired =
        let crossed : crosses n rule.threshold next (some price) ≡ true =
          subst (λ type. passes n type rule.threshold next (some price) ≡ true) is_cross fired in
        unfold crosses in
        ground (
          arith,
          o.lt-not-le price rule.threshold,
          o.lt-not-le rule.threshold price,
          o.le_trans price next rule.threshold rises,
        )

    -- However long a feed that never falls is, a crossing alert fires on it at most once.
    pub firings-Rising :
        (price : Decimal) (prices : List Decimal)
        → Rising n price prices
        → firings n rule (some price) prices ≤ 1
    unfolding firings
    firings-Rising price [] rising = omega arith
    firings-Rising price (next ∷ prices) rising =
        elim (Bool-cases (evaluate n rule next (some price))) [
          | inl fired ↦ rw fired (
              omega (
                arith,
                firings-settled next prices (evaluate-reached price next rising.0 fired) rising.1,
              ))
          | inr calm ↦ rw calm (firings-Rising next prices rising.1)
        ]

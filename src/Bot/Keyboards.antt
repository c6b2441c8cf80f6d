-- ===== src/Bot/Keyboards.antt =====
-- crates/pn-bot/src/keyboards.rs: the inline keyboards, and the numbers that their buttons carry.
use Prim.Native.String.{count}
use poly_notifier.Common.{ℕ, suc, ◌-◌, ℤ, String, ◌<>◌, List, [], ◌∷◌, map, if◌then◌else◌, leb}
use poly_notifier.Common.Texts.{take_chars}
use poly_notifier.Common.Numerals.{show_ℕ, show_ℤ}
use poly_notifier.Bot.State.{MarketOption, Button, Keyboard}

abbrev max_label_len : ℕ
max_label_len = 40

unfoldable pub truncate : String → String
unfolding take_chars
truncate s = if leb (count s) max_label_len then s else take_chars (max_label_len - 1) s <> "…"

abbrev pub button : String → String → Button
button label callback_data = record { label = label; callback_data = callback_data }

-- One row for every item, with its place.
abbrev pub enumerated {ℓ} : {A : Type ℓ} → (ℕ → A → List Button) → ℕ → List A → Keyboard
enumerated row i [] = []
enumerated row i (x ∷ xs) = row i x ∷ enumerated row (suc i) xs

unfoldable pub market_list_keyboard : List MarketOption → Keyboard
unfolding truncate show_ℕ
market_list_keyboard markets =
    enumerated (λ i m. button (truncate m.question) ("market:" <> show_ℕ i) ∷ []) 0 markets

unfoldable pub outcome_keyboard : List String → Keyboard
unfolding show_ℕ
outcome_keyboard outcomes =
    enumerated (λ i label. button label ("outcome:" <> show_ℕ i) ∷ []) 0 outcomes

unfoldable pub alert_type_keyboard : Keyboard
alert_type_keyboard =
    (button "Above threshold" "alert_type:above"
      ∷ button "Below threshold" "alert_type:below"
      ∷ button "Cross threshold" "alert_type:cross"
      ∷ [])
    ∷ []

unfoldable pub subscription_list_keyboard : List (ℤ × String) → Keyboard
unfolding truncate show_ℤ
subscription_list_keyboard subscriptions =
    map (λ (id, label). button (truncate label) ("sub:" <> show_ℤ id) ∷ []) subscriptions

unfoldable pub unsubscribe_keyboard : List (ℤ × String) → Keyboard
unfolding truncate show_ℤ
unsubscribe_keyboard subscriptions =
    map (λ (id, label). button (truncate label) ("unsub:" <> show_ℤ id) ∷ []) subscriptions

unfoldable pub confirm_keyboard : Keyboard
confirm_keyboard = (button "Yes" "confirm:yes" ∷ button "No" "confirm:no" ∷ []) ∷ []

-- ===== src/Bot/Effects/Frames.antt =====
-- The statements of the bot: what a success makes of the users and of the alerts.
use poly_notifier.Common.{
  ℕ, ℤ, pos, String, ◌==◌, int_eq, string_eq, ◌≡◌, refl, true, false, not, ◌&&◌, Option, none, [],
  ◌∷◌, ◌++◌, find, any, change_where, Bool-cases, Option-cases, inl, inr,
}
use poly_notifier.Store.Rows.{F64}
use poly_notifier.Store.World.{Db}
use poly_notifier.Store.Users.{insert_user, has_key, new_user}
use poly_notifier.Store.Markets.{upsert_row}
use poly_notifier.Store.Logs.{insert_feedback_row, has_user}
use poly_notifier.Store.Triples.{Leaves}
use poly_notifier.Bot.Rows.{
  insert_subscription, insert_alert_row, change_oldest_alert, is_alert_type, is_oldest, is_for,
  new_alert,
}

-- Neither the users nor the alerts change.
abbrev pub Same : Db → Db → Type 0
Same d d' = (d'.users ≡ d.users) × (d'.alerts ≡ d.alerts)

pub insert_user-frame :
    (telegram_id : ℤ) (bot_id : String) (username : Option String) (at : ℕ) (d : Db)
    → Leaves
        (λ id d'.
          (d'.users ≡ d.users ++ new_user (pos d.next_user) telegram_id bot_id username at ∷ [])
          × (d'.alerts ≡ d.alerts))
        (insert_user telegram_id bot_id username at d)
unfolding Leaves insert_user
insert_user-frame telegram_id bot_id username at d =
    elim (Bool-cases (any (has_key telegram_id bot_id) d.users)) [
      | inl known ↦ rw (known, Leaves) tt
      | inr new ↦ rw (new, Leaves) (refl, refl)
    ]

pub upsert_row-frame :
    (c question outcomes token_ids : String) (at called : ℕ) (d : Db)
    → Leaves (λ id. Same d) (upsert_row c question none outcomes token_ids at called d)
unfolding Leaves upsert_row
upsert_row-frame c question outcomes token_ids at called d =
    elim (Option-cases (find (λ m. m.condition_id == c) d.markets)) [
      | inl new ↦ rw (new, Leaves) (refl, refl)
      | inr (m, known) ↦ rw (known, Leaves) (refl, refl)
    ]

pub insert_subscription-frame :
    (user_id market_id outcome_index : ℤ) (at : ℕ) (d : Db)
    → Leaves (λ n. Same d) (insert_subscription user_id market_id outcome_index at d)
unfolding Leaves insert_subscription
insert_subscription-frame user_id market_id outcome_index at d =
    elim (Bool-cases (any (is_for user_id market_id outcome_index) d.subscriptions)) [
      | inl known ↦ rw (known, Leaves) (refl, refl)
      | inr new ↦ elim (Bool-cases (has_user user_id d && any (λ k. k.id == market_id) d.markets)) [
        | inl there_are ↦ rw (new, there_are, Leaves) (refl, refl)
        | inr absent ↦ rw (new, absent, Leaves) tt
      ]
    ]

pub insert_alert_row-frame :
    (id : ℤ) (t : String) (x : F64) (at : ℕ) (d : Db)
    → Leaves
        (λ n d'.
          (d'.users ≡ d.users)
          × ((is_alert_type t ≡ true)
              × (d'.alerts ≡ d.alerts ++ new_alert (pos d.next_alert) id t x at ∷ [])))
        (insert_alert_row id t x at d)
unfolding Leaves insert_alert_row
insert_alert_row-frame id t x at d = elim (Bool-cases (is_alert_type t)) [
  | inl good ↦ elim (Bool-cases (any (λ s. s.id == id) d.subscriptions)) [
    | inl there_is ↦ rw (good, there_is, Leaves) (refl, (good, refl))
    | inr absent ↦ rw (good, absent, Leaves) tt
  ]
  | inr bad ↦ rw (bad, Leaves) tt
]

pub change_oldest_alert-frame :
    (id : ℤ) (t : String) (x : F64) (d : Db)
    → Leaves
        (λ n d'.
          (d'.users ≡ d.users)
          × ((any (is_oldest id d) d.alerts && not (is_alert_type t) ≡ false)
              × (d'.alerts
                  ≡ change_where
                      (is_oldest id d)
                      (λ a. record a { alert_type = t; threshold = x })
                      d.alerts)))
        (change_oldest_alert id t x d)
unfolding Leaves change_oldest_alert
change_oldest_alert-frame id t x d =
    elim (Bool-cases (any (is_oldest id d) d.alerts && not (is_alert_type t))) [
      | inl bad ↦ rw (bad, Leaves) tt
      | inr good ↦ rw (good, Leaves) (refl, (good, refl))
    ]

pub insert_feedback_row-frame :
    (id : ℤ) (body : String) (at : ℕ) (d : Db)
    → Leaves (λ n. Same d) (insert_feedback_row id body at d)
unfolding Leaves insert_feedback_row
insert_feedback_row-frame id body at d = elim (Bool-cases (has_user id d)) [
  | inl there_is ↦ rw (there_is, Leaves) (refl, refl)
  | inr absent ↦ rw (absent, Leaves) tt
]

-- ===== src/Bot/Effects/Quota/Kept.antt =====
-- The subscription limit of dialogues.rs is kept by every effect, and so by every run of the bot.
use mathlib.Core.Path.{subst}
use poly_notifier.Common.{
  ℕ, ◌+◌, ℤ, pos, leb_ℤ, int_eq, String, ◌==◌, string_eq, ◌≡◌, refl, sym, false, not, ◌&&◌, Option,
  none, List, any, find, Member, map-change_where, map-append_one, Bool-cases, Option-cases, inl,
  inr,
}
use poly_notifier.Store.Rows.{F64, User}
use poly_notifier.Store.World.{Db}
use poly_notifier.Store.Users.{insert_user, set_username, has_key}
use poly_notifier.Store.Markets.{upsert_row}
use poly_notifier.Store.Logs.{insert_feedback_row, has_user}
use poly_notifier.Store.Triples.{Leaves, Leaves-ok}
use poly_notifier.Bot.State.{BotDeps, Update, Session}
use poly_notifier.Bot.Rows.{
  insert_subscription, insert_alert_row, change_oldest_alert, delete_subscription, is_oldest,
  is_alert_type, is_for, new_subscription,
}
use poly_notifier.Bot.Effects
use poly_notifier.Bot.Effects.{Effect, Effects, active_count}
use poly_notifier.Bot.Dispatch.{dispatch}
use poly_notifier.Bot.Effects.Updates.{dispatch-Effects, Effects-keeps}
use poly_notifier.Bot.Effects.Quota.{
  IsWithinQuota, Holds, limits, join_user, add_subscription, drop_subscriptions, Member-map,
}

module _ (b : BotDeps) where
  same_rows :
      (d d' : Db)
      → d'.next_user ≡ d.next_user
      → limits d' ≡ limits d
      → d'.subscriptions ≡ d.subscriptions
      → IsWithinQuota d
      → IsWithinQuota d'
  unfolding IsWithinQuota
  same_rows d d' n l s h = rw (n, l, s) h

  insert_user-Leaves :
      (telegram_id : ℤ) (username : Option String) (at : ℕ) (d : Db)
      → IsWithinQuota d
      → Leaves (λ id. IsWithinQuota) (insert_user telegram_id b.bot_id username at d)
  unfolding Leaves IsWithinQuota insert_user
  insert_user-Leaves telegram_id username at d h =
      elim (Bool-cases (any (has_key telegram_id b.bot_id) d.users)) [
        | inl known ↦ rw (known, Leaves) tt
        | inr new ↦
            rw (new, Leaves)
              (subst (λ ls. Holds (d.next_user + 1) ls d.subscriptions)
                (sym (map-append_one (λ u. (u.id, u.max_subscriptions)) d.users _))
                (join_user d.next_user (limits d) d.subscriptions h))
      ]

  insert_subscription-Leaves :
      (user : User) (market_id outcome_index : ℤ) (at : ℕ) (d : Db)
      → Member user d.users
      → leb_ℤ user.max_subscriptions (pos (active_count user.id d)) ≡ false
      → IsWithinQuota d
      → Leaves (λ n. IsWithinQuota) (insert_subscription user.id market_id outcome_index at d)
  unfolding Leaves IsWithinQuota insert_subscription
  insert_subscription-Leaves user market_id outcome_index at d m free h =
      elim (Bool-cases (any (is_for user.id market_id outcome_index) d.subscriptions)) [
        | inl known ↦ rw (known, Leaves) h
        | inr new ↦
            elim (Bool-cases (has_user user.id d && any (λ k. k.id == market_id) d.markets)) [
              | inl there_are ↦
                  rw (new, there_are, Leaves)
                    (add_subscription user.id user.max_subscriptions d.next_user (limits d)
                      d.subscriptions
                      (new_subscription (pos d.next_subscription) user.id market_id outcome_index
                        at)
                      (refl, refl) free
                      (Member-map (λ u. (u.id, u.max_subscriptions)) user d.users m) h)
              | inr absent ↦ rw (new, absent, Leaves) tt
            ]
      ]

  insert_alert_row-Leaves :
      (id : ℤ) (t : String) (x : F64) (at : ℕ) (d : Db)
      → IsWithinQuota d
      → Leaves (λ n. IsWithinQuota) (insert_alert_row id t x at d)
  unfolding Leaves insert_alert_row
  insert_alert_row-Leaves id t x at d h = elim (Bool-cases (is_alert_type t)) [
    | inl good ↦ elim (Bool-cases (any (λ s. s.id == id) d.subscriptions)) [
      | inl there_is ↦ rw (good, there_is, Leaves) (same_rows d _ refl refl refl h)
      | inr absent ↦ rw (good, absent, Leaves) tt
    ]
    | inr bad ↦ rw (bad, Leaves) tt
  ]

  upsert_row-Leaves :
      (c question outcomes token_ids : String) (at called : ℕ) (d : Db)
      → IsWithinQuota d
      → Leaves (λ id. IsWithinQuota) (upsert_row c question none outcomes token_ids at called d)
  unfolding Leaves upsert_row
  upsert_row-Leaves c question outcomes token_ids at called d h =
      elim (Option-cases (find (λ m. m.condition_id == c) d.markets)) [
        | inl new ↦ rw (new, Leaves) (same_rows d _ refl refl refl h)
        | inr (m, known) ↦ rw (known, Leaves) (same_rows d _ refl refl refl h)
      ]

  insert_feedback_row-Leaves :
      (id : ℤ) (body : String) (at : ℕ) (d : Db)
      → IsWithinQuota d
      → Leaves (λ n. IsWithinQuota) (insert_feedback_row id body at d)
  unfolding Leaves insert_feedback_row
  insert_feedback_row-Leaves id body at d h = elim (Bool-cases (has_user id d)) [
    | inl there_is ↦ rw (there_is, Leaves) (same_rows d _ refl refl refl h)
    | inr absent ↦ rw (absent, Leaves) tt
  ]

  change_oldest_alert-Leaves :
      (id : ℤ) (t : String) (x : F64) (d : Db)
      → IsWithinQuota d
      → Leaves (λ n. IsWithinQuota) (change_oldest_alert id t x d)
  unfolding Leaves change_oldest_alert
  change_oldest_alert-Leaves id t x d h =
      elim (Bool-cases (any (is_oldest id d) d.alerts && not (is_alert_type t))) [
        | inl bad ↦ rw (bad, Leaves) tt
        | inr good ↦ rw (good, Leaves) (same_rows d _ refl refl refl h)
      ]

  keeps_quota : (d d' : Db) → Effect b d d' → IsWithinQuota d → IsWithinQuota d'
  unfolding set_username delete_subscription IsWithinQuota
  keeps_quota d d' (Effects.create telegram_id username at id _ _ e) h =
      Leaves-ok _ _ id d' (insert_user-Leaves telegram_id username at d h) e
  keeps_quota d d' (Effects.rename username at id _) h =
      same_rows d d' refl (map-change_where _ _ _ d.users λ u. refl) refl h
  keeps_quota d d' (Effects.upsert c question outcomes token_ids at called id _ _ e) h =
      Leaves-ok _ _ id d' (upsert_row-Leaves c question outcomes token_ids at called d h) e
  keeps_quota d d' (Effects.subscribe user market_id outcome_index at n _ _ m free e) h =
      Leaves-ok _ _ n d' (insert_subscription-Leaves user market_id outcome_index at d m free h) e
  keeps_quota d d' (Effects.alert id t pct at n _ _ r e) h =
      Leaves-ok _ _ n d' (insert_alert_row-Leaves id t _ at d h) e
  keeps_quota d d' (Effects.realert id t pct n _ _ r e) h =
      Leaves-ok _ _ n d' (change_oldest_alert-Leaves id t _ d h) e
  keeps_quota d d' (Effects.remove id _) h =
      drop_subscriptions _ d.next_user (limits d) d.subscriptions h
  keeps_quota d d' (Effects.rezone tz at id _ clean) h =
      same_rows d d' refl (map-change_where _ _ _ d.users λ u. refl) refl h
  keeps_quota d d' (Effects.comment id body at n _ _ e) h =
      Leaves-ok _ _ n d' (insert_feedback_row-Leaves id body at d h) e

  -- From rows in which the ids of the users are apart and below the next, and no user has more active
  -- subscriptions than the limit of the row, every run of the bot leads to such rows, whatever updates
  -- come, whatever the services answer and whatever fails.
  pub dispatch-IsWithinQuota :
      (us : List Update) (s : Session) → IsWithinQuota s.db → IsWithinQuota (dispatch b us s).db
  dispatch-IsWithinQuota us s h =
      Effects-keeps b IsWithinQuota keeps_quota s.db (dispatch b us s).db (dispatch-Effects b us s)
        h

-- ===== src/Bot/Effects/Valid.antt =====
-- What dialogues.rs and handlers.rs let into the rows: alert types, thresholds and timezones.
use mathlib.Core.Path.{subst}
use poly_notifier.Common.{
  ℤ, String, ◌==◌, string_eq, int_eq, ◌≡◌, refl, sym, Bool, true, false, not, ◌&&◌, List, [], ◌∷◌,
  any, change_where, All, All-append, All-keep, Bool-cases, inl, inr, arith,
}
use poly_notifier.Common.Texts.{any_char}
use poly_notifier.Store.Rows.{F64, User, Alert}
use poly_notifier.Store.World.{Db}
use poly_notifier.Store.Users.{set_username}
use poly_notifier.Store.Triples.{Leaves-ok}
use poly_notifier.Interfaces.{FloatOps, IsRounding}
use poly_notifier.Bot.State.{BotDeps, Update, Session}
use poly_notifier.Bot.Rows.{is_alert_type, is_oldest, delete_subscription}
use poly_notifier.Bot.Handlers.{is_forbidden}
use poly_notifier.Bot.Dialogues.{threshold_of}
use poly_notifier.Bot.Dispatch.{dispatch}
use poly_notifier.Bot.Effects
use poly_notifier.Bot.Effects.{Effect, Effects, IsPercentage}
use poly_notifier.Bot.Effects.Updates.{dispatch-Effects, Effects-keeps}
use poly_notifier.Bot.Effects.Frames.{
  insert_user-frame, upsert_row-frame, insert_subscription-frame, insert_alert_row-frame,
  change_oldest_alert-frame, insert_feedback_row-frame,
}

-- The type is one that the engine knows, and the threshold is a fraction.
abbrev pub IsAlert : FloatOps → Alert → Type 0
IsAlert n a =
    (is_alert_type a.alert_type ≡ true)
    × ((n.le (n.number 0) a.threshold ≡ true) × (n.le a.threshold (n.number 1) ≡ true))

-- Without the characters ; ' " and \.
abbrev pub IsClean : User → Type 0
IsClean u = any_char is_forbidden u.timezone ≡ false

All-change_where {ℓ κ} :
    {A : Type ℓ} (P : A → Type κ) (p : A → Bool) (f : A → A) (xs : List A)
    → ((x : A) → P x → P (f x))
    → All P xs
    → All P (change_where p f xs)
All-change_where P p f [] h each = tt
All-change_where P p f (x ∷ xs) h each = elim (Bool-cases (p x)) [
  | inl in_it ↦ rw in_it (h x each.0, All-change_where P p f xs h each.1)
  | inr out ↦ rw out (each.0, All-change_where P p f xs h each.1)
]

change_where-none {ℓ} :
    {A : Type ℓ} (p : A → Bool) (f : A → A) (xs : List A)
    → any p xs ≡ false
    → change_where p f xs ≡ xs
change_where-none p f [] h = refl
change_where-none p f (x ∷ xs) h = ground (arith, h, change_where-none p f xs)

module _ (b : BotDeps) where
  abbrev ValidAlerts : Db → Type 0
  ValidAlerts d = All (IsAlert b.float) d.alerts

  abbrev CleanZones : Db → Type 0
  CleanZones d = All IsClean d.users

  keeps_zones : (d d' : Db) → Effect b d d' → CleanZones d → CleanZones d'
  unfolding set_username delete_subscription
  keeps_zones d d' (Effects.create telegram_id username at id _ _ e) h =
      subst (All IsClean)
        (sym (Leaves-ok _ _ id d' (insert_user-frame telegram_id b.bot_id username at d) e).0)
        (All-append _ d.users _ h (refl, tt))
  keeps_zones d d' (Effects.rename username at id _) h =
      All-change_where IsClean (λ u. u.id == id)
        (λ u. record u { username = username; updated_at = at }) d.users (λ u c. c) h
  keeps_zones d d' (Effects.upsert c question outcomes token_ids at called id _ _ e) h =
      subst (All IsClean)
        (sym (Leaves-ok _ _ id d' (upsert_row-frame c question outcomes token_ids at called d) e).0)
        h
  keeps_zones d d' (Effects.subscribe user market_id outcome_index at n _ _ m free e) h =
      subst (All IsClean)
        (sym
          (Leaves-ok _ _ n d' (insert_subscription-frame user.id market_id outcome_index at d) e).0)
        h
  keeps_zones d d' (Effects.alert id t pct at n _ _ r e) h =
      subst (All IsClean) (sym (Leaves-ok _ _ n d' (insert_alert_row-frame id t _ at d) e).0) h
  keeps_zones d d' (Effects.realert id t pct n _ _ r e) h =
      subst (All IsClean) (sym (Leaves-ok _ _ n d' (change_oldest_alert-frame id t _ d) e).0) h
  keeps_zones d d' (Effects.remove id _) h = h
  keeps_zones d d' (Effects.rezone tz at id _ clean) h =
      All-change_where IsClean (λ u. u.id == id) (λ u. record u { timezone = tz; updated_at = at })
        d.users (λ u c. clean) h
  keeps_zones d d' (Effects.comment id body at n _ _ e) h =
      subst (All IsClean) (sym (Leaves-ok _ _ n d' (insert_feedback_row-frame id body at d) e).0) h

  module _ (law : IsRounding b.float) where
    fraction :
        (t : String) (pct : F64)
        → is_alert_type t ≡ true
        → IsPercentage b pct
        → (is_alert_type t ≡ true)
          × ((b.float.le (b.float.number 0) (threshold_of b pct) ≡ true)
              × (b.float.le (threshold_of b pct) (b.float.number 1) ≡ true))
    fraction t pct good r = (good, law.div_hundred pct r.0 r.1)

    changed_alerts :
        (id : ℤ) (t : String) (pct : F64) (d : Db)
        → IsPercentage b pct
        → any (is_oldest id d) d.alerts && not (is_alert_type t) ≡ false
        → ValidAlerts d
        → All (IsAlert b.float) (
            change_where
              (is_oldest id d)
              (λ a. record a { alert_type = t; threshold = threshold_of b pct })
              d.alerts)
    changed_alerts id t pct d r check h = elim (Bool-cases (is_alert_type t)) [
      | inl good ↦
          All-change_where (IsAlert b.float) (is_oldest id d)
            (λ a. record a { alert_type = t; threshold = threshold_of b pct }) d.alerts
            (λ a v. fraction t pct good r) h
      | inr bad ↦
          subst (All (IsAlert b.float))
            (sym (change_where-none (is_oldest id d) _ d.alerts (ground (arith, bad, check)))) h
    ]

    keeps_alerts : (d d' : Db) → Effect b d d' → ValidAlerts d → ValidAlerts d'
    unfolding set_username delete_subscription
    keeps_alerts d d' (Effects.create telegram_id username at id _ _ e) h =
        subst (All (IsAlert b.float))
          (sym (Leaves-ok _ _ id d' (insert_user-frame telegram_id b.bot_id username at d) e).1) h
    keeps_alerts d d' (Effects.rename username at id _) h = h
    keeps_alerts d d' (Effects.upsert c question outcomes token_ids at called id _ _ e) h =
        subst (All (IsAlert b.float))
          (sym
            (Leaves-ok _ _ id d' (upsert_row-frame c question outcomes token_ids at called d) e).1)
          h
    keeps_alerts d d' (Effects.subscribe user market_id outcome_index at n _ _ m free e) h =
        subst (All (IsAlert b.float))
          (sym
            (Leaves-ok _ _ n d' (insert_subscription-frame user.id market_id outcome_index at d)
              e).1)
          h
    keeps_alerts d d' (Effects.alert id t pct at n _ _ r e) h =
        let f = Leaves-ok _ _ n d' (insert_alert_row-frame id t _ at d) e in
        subst (All (IsAlert b.float)) (sym f.1.1)
          (All-append _ d.alerts _ h (fraction t pct f.1.0 r, tt))
    keeps_alerts d d' (Effects.realert id t pct n _ _ r e) h =
        let f = Leaves-ok _ _ n d' (change_oldest_alert-frame id t _ d) e in
        subst (All (IsAlert b.float)) (sym f.1.1) (changed_alerts id t pct d r f.1.0 h)
    keeps_alerts d d' (Effects.remove id _) h = All-keep _ _ d.alerts h
    keeps_alerts d d' (Effects.rezone tz at id _ clean) h = h
    keeps_alerts d d' (Effects.comment id body at n _ _ e) h =
        subst (All (IsAlert b.float))
          (sym (Leaves-ok _ _ n d' (insert_feedback_row-frame id body at d) e).1) h

    -- Where division by 100 rounds as documented, and every alert has a type that the engine knows and
    -- a threshold from 0 to 1, every run of the bot leads to such alerts, whatever users type, whatever
    -- the services answer and whatever fails.
    pub dispatch-IsAlert :
        (us : List Update) (s : Session)
        → All (IsAlert b.float) s.db.alerts
        → All (IsAlert b.float) (dispatch b us s).db.alerts
    dispatch-IsAlert us s h =
        Effects-keeps b ValidAlerts keeps_alerts s.db (dispatch b us s).db (dispatch-Effects b us s)
          h

  -- When no user's timezone has one of the characters ; ' " and \, none has after any run of the bot,
  -- whatever users type, whatever the services answer and whatever fails.
  pub dispatch-IsClean :
      (us : List Update) (s : Session)
      → All IsClean s.db.users
      → All IsClean (dispatch b us s).db.users
  dispatch-IsClean us s h =
      Effects-keeps b CleanZones keeps_zones s.db (dispatch b us s).db (dispatch-Effects b us s) h

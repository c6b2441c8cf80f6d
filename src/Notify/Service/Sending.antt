-- ===== src/Notify/Service/Sending.antt =====
-- service.rs and telegram.rs together: a delivery sends its message once or not at all.
use poly_notifier.Common.{
  ℕ, zero, suc, String, int_eq, string_eq, ◌≡◌, ◌∙◌, refl, ◌⊎◌, inl, inr, Option, none, some, List,
  [], ◌∷◌, ◌++◌, arith, Option-cases,
}
use mathlib.Core.Path.{subst}
use poly_notifier.Store.Rows.{Result, ok, err, Error, other, NotificationRequest}
use poly_notifier.Store.World.{World, Sent, telegram_send}
use poly_notifier.Notify.Telegram.{BotRegistry, get_bot, send_by, send_message}
use poly_notifier.Notify.Service.{max_retries, send_from, send_with_retries}

abbrev pub message_of : NotificationRequest → Sent
message_of req = record { bot_id = req.bot_id; chat_id = req.user_telegram_id; text = req.message }

abbrev pub Outcome : Sent → List Sent → Result (Unit {0}) × World → Type 0
Outcome m before out =
    ((out.0 ≡ ok tt) × (out.1.sent ≡ before ++ m ∷ []))
    ⊎ ((e : Error) × ((out.0 ≡ err e) × (out.1.sent ≡ before)))

-- The message went out once and the call says so, or it did not and the call fails; nothing else
-- of the database or of the environment changed.
pub record Sends (m : Sent) (w : World) (out : Result (Unit {0}) × World) : Type 0 where
  pub same_db : out.1.db ≡ w.db
  pub same_env : out.1.env ≡ w.env
  pub outcome : Outcome m w.sent out

send_by-Sends :
    (bot : Option String) (req : NotificationRequest) (w : World)
    → Sends (message_of req) w (send_by bot req.bot_id req.user_telegram_id req.message w)
unfolding send_by telegram_send
send_by-Sends none req w = record {
  same_db = refl;
  same_env = refl;
  outcome = inr (_, (refl, refl));
}
send_by-Sends (some bot) req w = elim (Option-cases (w.telegram_fault w.calls)) [
  | inl accepted ↦
      rw (accepted, telegram_send)
        (record { same_db = refl; same_env = refl; outcome = inl (refl, refl) })
  | inr (e, refused) ↦
      rw (refused, telegram_send)
        (record { same_db = refl; same_env = refl; outcome = inr (other e, (refl, refl)) })
]

module _ (bots : BotRegistry) (req : NotificationRequest) where
  retry_step :
      (left : ℕ) (w : World) (out : Result (Unit {0}) × World)
      → Sends (message_of req) w out
      → ((e : Error) (w' : World) → Sends (message_of req) w' (send_from bots req left e w'))
      → Sends
          (message_of req)
          w
          (elim out.0 [ ok _ ↦ (ok tt, out.1) | err e ↦ send_from bots req left e out.1 ])
  retry_step left w (ok _, w') sends next = sends
  retry_step left w (err e, w') sends next = elim sends.outcome [
    | inl (impossible, gone) ↦ ground (arith, impossible)
    | inr (e', (same, kept)) ↦
        let rest = next e w' in
        record {
          same_db = rest.same_db ∙ sends.same_db;
          same_env = rest.same_env ∙ sends.same_env;
          outcome =
              subst (λ before. Outcome (message_of req) before (send_from bots req left e w')) kept
                rest.outcome;
        }
  ]

  send_from-Sends :
      (left : ℕ) (e : Error) (w : World) → Sends (message_of req) w (send_from bots req left e w)
  unfolding send_from send_message
  send_from-Sends zero e w = record {
    same_db = refl;
    same_env = refl;
    outcome = inr (e, (refl, refl));
  }
  send_from-Sends (suc left) e w =
      retry_step left w _ (send_by-Sends (get_bot bots req.bot_id) req w)
        (λ e' w'. send_from-Sends left e' w')

  pub send_with_retries-Sends :
      (w : World) → Sends (message_of req) w (send_with_retries bots req w)
  unfolding send_with_retries
  send_with_retries-Sends w = send_from-Sends max_retries (other "") w

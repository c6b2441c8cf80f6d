-- ===== src/Notify/Service/Retries.antt =====
-- service.rs, send_with_retries: when a delivery succeeds.
use poly_notifier.Common.{
  ℕ, ◌+◌, ◌≤◌, String, ◌≡◌, refl, ap, ◌↔◌, ◌⊎◌, inl, inr, Option, none, some, arith, Option-cases,
  zero, suc,
}
use poly_notifier.Store.Rows.{Result, Error, ok, err, other, NotificationRequest}
use poly_notifier.Store.World.{World, telegram_send, tick}
use poly_notifier.Notify.Telegram.{BotRegistry, get_bot, send_by, send_message}
use poly_notifier.Notify.Service.{send_from, send_with_retries}

-- One of the first three Telegram requests is accepted.
abbrev pub OneOfThree : (ℕ → Option String) → ℕ → Type 0
OneOfThree fault c = (fault c ≡ none) ⊎ ((fault (c + 1) ≡ none) ⊎ (fault (c + 1 + 1) ≡ none))

module _ (bots : BotRegistry) (req : NotificationRequest) (token : String) where
  abbrev pub Known : Type 0
  Known = get_bot bots req.bot_id ≡ some token

  abbrev request : World → Result (Unit {0}) × World
  request = send_message bots req.bot_id req.user_telegram_id req.message

  request_refused :
      (w : World) (e : String)
      → Known
      → w.telegram_fault w.calls ≡ some e
      → request w ≡ (err (other e), tick w)
  unfolding send_message send_by telegram_send
  request_refused w e known refused = rw (known, refused, telegram_send) refl

  request_accepted :
      (w : World)
      → Known
      → w.telegram_fault w.calls ≡ none
      → ((request w).0 ≡ ok tt) × ((request w).1.calls ≡ w.calls + 1)
  unfolding send_message send_by telegram_send
  request_accepted w known accepted = rw (known, accepted, telegram_send) (refl, refl)

  send_refused :
      (left : ℕ) (last_error : Error) (w : World) (e : String)
      → Known
      → w.telegram_fault w.calls ≡ some e
      → send_from bots req (suc left) last_error w ≡ send_from bots req left (other e) (tick w)
  unfolding send_from
  send_refused left last_error w e known refused =
      ap (λ out. elim out.0 [ ok _ ↦ (ok tt, out.1) | err e' ↦ send_from bots req left e' out.1 ])
        (request_refused w e known refused)

  send_accepted :
      (left : ℕ) (last_error : Error) (w : World)
      → Known
      → w.telegram_fault w.calls ≡ none
      → ((send_from bots req (suc left) last_error w).0 ≡ ok tt)
        × ((send_from bots req (suc left) last_error w).1.calls ≡ w.calls + 1)
  unfolding send_from
  send_accepted left last_error w known accepted =
      let done = request_accepted w known accepted in rw (done.0, send_from) (refl, done.1)

  -- Whether a delivery with some attempts left succeeds, and how many requests it makes.
  abbrev Succeeds : Type 0 → ℕ → ℕ → Error → World → Type 0
  Succeeds P left bound e w =
      (((send_from bots req left e w).0 ≡ ok tt) ↔ P)
      × ((send_from bots req left e w).1.calls ≤ bound)

  -- The first of some next requests that Telegram accepts.
  abbrev pub OneOf : ℕ → (ℕ → Option String) → ℕ → Type 0
  OneOf zero fault c = ⊥
  OneOf (suc n) fault c = (fault c ≡ none) ⊎ OneOf n fault (c + 1)

  send_from-ok :
      (left : ℕ) (e : Error) (w : World)
      → Known
      → Succeeds (OneOf left w.telegram_fault w.calls) left (w.calls + left) e w
  unfolding send_from
  send_from-ok zero e w known = (ground arith, omega arith)
  send_from-ok (suc left) e w known = elim (Option-cases (w.telegram_fault w.calls)) [
    | inl accepted ↦
        let done = send_accepted left e w known accepted in
        ((λ _. inl accepted, λ _. done.0), omega (arith, done.1))
    | inr (e', refused) ↦
        let rest = send_from-ok left (other e') (tick w) known in
        rw (send_refused left e w e' known refused) (
          (
            λ h. inr (rest.0.0 h),
            λ h. elim h [
              | inl impossible ↦ ground (arith, impossible, refused)
              | inr later ↦ rest.0.1 later
            ],
          ),
          omega (arith, rest.1),
        )
  ]

-- With a registered bot, a delivery succeeds exactly when Telegram accepts one of the next three
-- requests, and no more than three are made.
pub send_with_retries-ok :
    (bots : BotRegistry) (req : NotificationRequest) (token : String) (w : World)
    → get_bot bots req.bot_id ≡ some token
    → (((send_with_retries bots req w).0 ≡ ok tt) ↔ OneOfThree w.telegram_fault w.calls)
      × ((send_with_retries bots req w).1.calls ≤ w.calls + 3)
unfolding send_with_retries
send_with_retries-ok bots req token w known =
    let three = send_from-ok bots req token 3 (other "") w known in
    (ground (arith, three.0), three.1)

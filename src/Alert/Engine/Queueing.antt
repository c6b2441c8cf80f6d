-- ===== src/Alert/Engine/Queueing.antt =====
-- engine.rs: a rule that passes its test and has no stamp puts its request into the channel.
use poly_notifier.Common.{
  ℕ, ◌==◌, int_eq, string_eq, ◌≡◌, refl, sym, ap, ◌∙◌, true, false, Option, none, some, List, [],
  ◌∷◌, ◌++◌, Member, here, there, All-Member, Member-append_right,
}
use mathlib.Core.Path.{subst}
use mathlib.Core.List.{append-nil}
use poly_notifier.Common.Dict.{get, insert}
use poly_notifier.Common.Sorting.{Pairwise}
use poly_notifier.Store.Rows.{NotificationRequest, ok}
use poly_notifier.Store.World.{◌>>=◌}
use poly_notifier.Store.Steps.{bound}
use poly_notifier.Store.Events.{PriceUpdate}
use poly_notifier.Interfaces.{Libraries}
use poly_notifier.Alert.Rules.{AlertRule, evaluate}
use poly_notifier.Alert.Engine.{Engine}
use poly_notifier.Alert.Engine.Rounds.{Appends, Appends-trans, Handled, handle_rule-Handled}
use poly_notifier.Alert.Engine.Handle.{
  request, handle_rule, handle_rules, handle_watched, handle_price_update,
}

module _ (l : Libraries) where
  open l use {decimal}

  still_open :
      (s t : Engine l) (rs : List NotificationRequest)
      → Appends l s t rs
      → ((n : ℕ) → s.channel_open n ≡ true)
      → (n : ℕ) → t.channel_open n ≡ true
  still_open s t rs a there_is n =
      subst (λ e. e.channel_open n ≡ true) (sym a.same_env) (there_is n)

  -- The first rule, and then the others.
  after_one :
      (r : AlertRule decimal) (update : PriceUpdate decimal) (previous : Option decimal.Decimal)
      (rules : List (AlertRule decimal)) (s : Engine l)
      (one : Handled l r update
        (evaluate decimal r update.price previous)
        s
        (handle_rule l update previous r s))
      (rs : List NotificationRequest)
      → (let rest = handle_rules l update previous rules (handle_rule l update previous r s).1 in
          rest.0 ≡ ok tt
          → Appends l (handle_rule l update previous r s).1 rest.1 rs
          → (let out = handle_rules l update previous (r ∷ rules) s in
              (out.0 ≡ ok tt) × Appends l s out.1 (one.requests ++ rs)))
  unfolding handle_rules
  after_one r update previous rules s one rs done more =
      let t : Engine l = (handle_rule l update previous r s).1 in
      let e =
        bound (handle_rule l update previous r) (λ _. handle_rules l update previous rules) s t tt
          (ap (λ o. (o, t)) one.returned) in
      (
        ap (λ o. o.0) e ∙ done,
        subst (λ o. Appends l s o.1 (one.requests ++ rs)) (sym e)
            (Appends-trans l s t (handle_rules l update previous rules t).1 one.requests rs
              one.appends more),
      )

  -- The rounds over some rules return and append requests only.
  handle_rules-Appends :
      (update : PriceUpdate decimal) (previous : Option decimal.Decimal)
      (rules : List (AlertRule decimal)) (s : Engine l)
      → ((n : ℕ) → s.channel_open n ≡ true)
      → (let out = handle_rules l update previous rules s in
          (rs : List NotificationRequest) × (out.0 ≡ ok tt) × Appends l s out.1 rs)
  unfolding handle_rules ◌>>=◌
  handle_rules-Appends update previous [] s there_is =
      ([], refl, record { same_env = refl; same_users = refl; queued = sym (append-nil s.queue) })
  handle_rules-Appends update previous (r ∷ rules) s there_is =
      let t : Engine l = (handle_rule l update previous r s).1 in
      let one = handle_rule-Handled l r update previous s there_is in
      let (rs, done, more) =
        handle_rules-Appends update previous rules t
          (still_open s t one.requests one.appends there_is) in
      let (returns, appends) = after_one r update previous rules s one rs done more in
      (one.requests ++ rs, returns, appends)

  abbrev pub Differs : AlertRule decimal → AlertRule decimal → Type 0
  Differs r q = (r.alert_id == q.alert_id) ≡ false

  -- A rule of the list that passes, whose alert has no stamp, has its request among the appended.
  handle_rules-queues :
      (update : PriceUpdate decimal) (previous : Option decimal.Decimal) (q : AlertRule decimal)
      (rules : List (AlertRule decimal)) (s : Engine l)
      → Member q rules
      → Pairwise Differs rules
      → evaluate decimal q update.price previous ≡ true
      → get q.alert_id s.dedup.last_triggered ≡ none
      → ((n : ℕ) → s.channel_open n ≡ true)
      → (let out = handle_rules l update previous rules s in
          (rs : List NotificationRequest) × (out.0 ≡ ok tt)
          × Appends l s out.1 rs
          × Member (request l q update) rs)
  unfolding handle_rules
  handle_rules-queues update previous q _ s (here rules) apart passes fresh there_is =
      let t : Engine l = (handle_rule l update previous q s).1 in
      let one = handle_rule-Handled l q update previous s there_is in
      let (rs, done, more) =
        handle_rules-Appends update previous rules t
          (still_open s t one.requests one.appends there_is) in
      let (returns, appends) = after_one q update previous rules s one rs done more in
      (
        one.requests ++ rs,
        returns,
        appends,
        subst (λ xs. Member (request l q update) (xs ++ rs)) (sym (one.fires passes fresh))
            (here rs),
      )
  handle_rules-queues update previous q _ s (there r rules m) apart passes fresh there_is =
      let t : Engine l = (handle_rule l update previous r s).1 in
      let one = handle_rule-Handled l r update previous s there_is in
      let (rs, done, more, there_too) =
        handle_rules-queues update previous q rules t m apart.1 passes
          (one.others q.alert_id (All-Member (Differs r) q rules m apart.0) ∙ fresh)
          (still_open s t one.requests one.appends there_is) in
      let (returns, appends) = after_one r update previous rules s one rs done more in
      (
        one.requests ++ rs,
        returns,
        appends,
        Member-append_right (request l q update) one.requests rs there_too,
      )

  -- On a tick of a watched token, a rule of it that passes, whose alert has no stamp and is of no other
  -- rule of the token, has its request in the channel afterwards, if the channel is open.
  pub handle_price_update-queues :
      (update : PriceUpdate decimal) (q : AlertRule decimal) (rules : List (AlertRule decimal))
      (s : Engine l)
      → get update.token_id s.rule_cache ≡ some rules
      → Member q rules
      → Pairwise Differs rules
      → evaluate decimal q update.price (get update.token_id s.prev_prices) ≡ true
      → get q.alert_id s.dedup.last_triggered ≡ none
      → ((n : ℕ) → s.channel_open n ≡ true)
      → (let out = handle_price_update l update s in
          (rs : List NotificationRequest) × (out.0 ≡ ok tt)
          × Appends l s out.1 rs
          × Member (request l q update) rs)
  unfolding handle_price_update handle_watched
  handle_price_update-queues update q rules s watched m apart passes fresh there_is =
      let s' : Engine l = record s {
        prev_prices = insert update.token_id update.price s.prev_prices;
      } in
      subst
        (λ o.
          let out = handle_watched l update (get update.token_id s.prev_prices) o s' in
          (rs : List NotificationRequest) × (out.0 ≡ ok tt)
          × Appends l s out.1 rs
          × Member (request l q update) rs)
        (sym watched)
        (let (rs, done, a, queued) =
            handle_rules-queues update (get update.token_id s.prev_prices) q rules s' m apart passes
              fresh there_is in
          (
            rs,
            done,
            record { same_env = a.same_env; same_users = a.same_users; queued = a.queued },
            queued,
          ))

-- ===== src/Alert/Engine/Rounds.antt =====
-- engine.rs: one rule on a price tick, and what it appends to the channel.
use poly_notifier.Common.{
  ℕ, ◌+◌, ℤ, ◌==◌, int_eq, string_eq, ◌≡◌, refl, sym, ap, ◌∙◌, Bool, true, false, Option, none,
  some, List, [], ◌∷◌, ◌++◌, Bool-cases, Option-cases, inl, inr, nothing, if◌then◌else◌,
}
use mathlib.Core.Path.{subst}
use mathlib.Core.List.{append_assoc, append-nil}
use poly_notifier.Common.Dict.{get, insert, get-insert}
use poly_notifier.Store.Rows.{NotificationRequest, Result, ok}
use poly_notifier.Store.World.{◌>>=◌, now, statement, enqueue}
use poly_notifier.Store.Steps.{bound}
use poly_notifier.Store.Events.{PriceUpdate}
use poly_notifier.Interfaces.{Libraries}
use poly_notifier.Alert.Rules.{AlertRule, evaluate}
use poly_notifier.Alert.Dedup.{can_fire, can_fire_since, cooled_down, mark_fired}
use poly_notifier.Alert.Engine.{Engine}
use poly_notifier.Alert.Engine.Handle.{
  cooldown_of, request, mark, set_dedup, may_fire, fire, fire_if, persist_triggered, handle_rule,
}

module _ (l : Libraries) where
  open l use {decimal}

  -- A step returns, keeps the environment and the users, and appends requests to the channel.
  pub record Appends (s t : Engine l) (rs : List NotificationRequest) : Type 0 where
    pub same_env : t.env ≡ s.env
    pub same_users : t.users ≡ s.users
    pub queued : t.queue ≡ s.queue ++ rs

  fire_lem :
      (r : AlertRule decimal) (update : PriceUpdate decimal) (s : Engine l)
      → ((n : ℕ) → s.channel_open n ≡ true)
      → (let out = fire l r update s in
          (out.0 ≡ ok tt)
          × Appends s out.1 (request l r update ∷ [])
          × (out.1.dedup ≡ record {
            last_triggered = insert r.alert_id (s.clock s.calls) s.dedup.last_triggered;
          }))
  unfolding fire ◌>>=◌ mark set_dedup mark_fired now enqueue persist_triggered statement
  fire_lem r update s there_is = elim (Option-cases (s.db_fault (s.calls + 1 + 1 + 1))) [
    | inl sound ↦
        rw (there_is (s.calls + 1), enqueue)
          (rw (sound, statement)
            (refl, record { same_env = refl; same_users = refl; queued = refl }, refl))
    | inr (x, fault) ↦
        rw (there_is (s.calls + 1), enqueue)
          (rw (fault, statement)
            (refl, record { same_env = refl; same_users = refl; queued = refl }, refl))
  ]

  never : false ≡ true → ⊥
  never h = cc

  -- The test of the cooldown answers, and changes nothing but the number of calls.
  since_lem :
      (last : Option ℕ) (cooldown_minutes : ℤ) (s : Engine l)
      → (let out = can_fire_since last cooldown_minutes s.world in
          (b : Bool) × (out.0 ≡ ok b)
          × Appends s (record s { world = out.1 }) []
          × (last ≡ none → b ≡ true))
  unfolding can_fire_since now ◌>>=◌
  since_lem none c s = (
    true,
    refl,
    record { same_env = refl; same_users = refl; queued = sym (append-nil s.queue) },
    λ h. refl,
  )
  since_lem (some last) c s = (
    cooled_down last c (s.clock s.calls),
    refl,
    record { same_env = refl; same_users = refl; queued = sym (append-nil s.queue) },
    λ h. elim (nothing last (sym h)) [ ],
  )

  fire_if_lem :
      (b : Bool) (r : AlertRule decimal) (update : PriceUpdate decimal) (s : Engine l)
      → ((n : ℕ) → s.channel_open n ≡ true)
      → (let out = fire_if l b r update s in
          (out.0 ≡ ok tt)
          × Appends s out.1 (if b then request l r update ∷ [] else [])
          × ((id : ℤ)
              → (r.alert_id == id) ≡ false
              → get id out.1.dedup.last_triggered ≡ get id s.dedup.last_triggered))
  unfolding fire_if ◌>>=◌
  fire_if_lem false r update s there_is = (
    refl,
    record { same_env = refl; same_users = refl; queued = sym (append-nil s.queue) },
    λ id other. refl,
  )
  fire_if_lem true r update s there_is =
      let (done, appends, marked) = fire_lem r update s there_is in
      (
        done,
        appends,
        λ id other.
            ap (λ d. get id d.last_triggered) marked
            ∙ get-insert r.alert_id id (s.clock s.calls) s.dedup.last_triggered
            ∙ ap (λ b. if b then some (s.clock s.calls) else get id s.dedup.last_triggered) other,
      )

  pub Appends-trans :
      (s t u : Engine l) (rs ss : List NotificationRequest)
      → Appends s t rs
      → Appends t u ss
      → Appends s u (rs ++ ss)
  Appends-trans s t u rs ss a b = record {
    same_env = b.same_env ∙ a.same_env;
    same_users = b.same_users ∙ a.same_users;
    queued = b.queued ∙ ap (λ q. q ++ ss) a.queued ∙ append_assoc s.queue rs ss;
  }

  -- One rule, by its outcome: its request is appended where it passes, and the stamps of other alerts
  -- stay.
  pub record Handled (r : AlertRule decimal) (update : PriceUpdate decimal) (passes : Bool)
      (s : Engine l) (out : Result (Unit {0}) × Engine l) : Type 0 where
    pub returned : out.0 ≡ ok tt
    pub requests : List NotificationRequest
    pub appends : Appends s out.1 requests
    pub fires :
        passes ≡ true
        → get r.alert_id s.dedup.last_triggered ≡ none
        → requests ≡ request l r update ∷ []
    pub others :
        (id : ℤ)
        → (r.alert_id == id) ≡ false
        → get id out.1.dedup.last_triggered ≡ get id s.dedup.last_triggered

  fire_if-Handled :
      (b : Bool) (r : AlertRule decimal) (update : PriceUpdate decimal) (s s' : Engine l)
      → ((n : ℕ) → s.channel_open n ≡ true)
      → Appends s s' []
      → s'.dedup ≡ s.dedup
      → (get r.alert_id s.dedup.last_triggered ≡ none → b ≡ true)
      → Handled r update true s (fire_if l b r update s')
  fire_if-Handled b r update s s' there_is moved same free =
      let (done, appends, kept) =
        fire_if_lem b r update s'
          (λ n. subst (λ e. e.channel_open n ≡ true) (sym moved.same_env) (there_is n)) in
      record {
        returned = done;
        requests = if b then request l r update ∷ [] else [];
        appends = Appends-trans s s' (fire_if l b r update s').1 [] _ moved appends;
        fires = λ _ fresh. ap (λ c. if c then request l r update ∷ [] else []) (free fresh);
        others = λ id other. kept id other ∙ ap (λ d. get id d.last_triggered) same;
      }

  pub handle_rule-Handled :
      (r : AlertRule decimal) (update : PriceUpdate decimal) (previous : Option decimal.Decimal)
      (s : Engine l)
      → ((n : ℕ) → s.channel_open n ≡ true)
      → Handled r update
          (evaluate decimal r update.price previous)
          s
          (handle_rule l update previous r s)
  unfolding handle_rule may_fire can_fire ◌>>=◌
  handle_rule-Handled r update previous s there_is =
      elim (Bool-cases (evaluate decimal r update.price previous)) [
        | inl passes ↦
            let c = cooldown_of s.config r.cooldown_minutes in
            let s' : Engine l = record s { world = (can_fire s.dedup r.alert_id c s.world).1 } in
            let (b, answered, moved, free) =
              since_lem (get r.alert_id s.dedup.last_triggered) c s in
            rw passes (
              subst (Handled r update true s)
                (sym (
                  bound (may_fire l r) (λ free. fire_if l free r update) s s' b
                    (ap (λ o. (o, s')) answered)))
                (fire_if-Handled b r update s s' there_is moved refl free))
        | inr fails ↦ rw fails (record {
          returned = refl;
          requests = [];
          appends = record {
            same_env = refl;
            same_users = refl;
            queued = sym (append-nil s.queue);
          };
          fires = λ impossible. elim (never impossible) [ ];
          others = λ id other. refl;
        })
      ]

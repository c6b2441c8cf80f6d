-- ===== src/Alert/Engine/Calls.antt =====
-- engine.rs and dedup.rs together: what the database and the clock keep after a firing.
use poly_notifier.Common.{
  ℕ, ◌≤◌, ℤ, String, ◌==◌, int_eq, string_eq, ◌≡◌, Bool, true, Option, none, some, List, [], ◌∷◌,
  arith, All, change_where, Bool-cases, Option-cases, inl, inr, sym,
}
use mathlib.Core.Path.{subst}
use poly_notifier.Store.Rows.{Alert, ok, err, NotificationRequest, Result}
use poly_notifier.Store.World.{
  Env, World, Db, Exec, ◌>>=◌, now, statement, select, enqueue, settle, tick,
}
use poly_notifier.Store.Keeps.{Keeps, Keeps-pure, Keeps-bind}
use poly_notifier.Store.Alerts.{triggered}
use poly_notifier.Store.Markets.{update_market_prices}
use poly_notifier.Alert.Engine.Handle.{persist_triggered}

-- A stamp at or after a time.
abbrev pub Since : ℕ → Option ℕ → Type 0
Since t none = ⊥
Since t (some u) = t ≤ u

-- Every row of the alert carries a stamp at or after a time.
abbrev pub Saved : ℤ → ℕ → List Alert → Type 0
Saved id t = All (λ a. a.id ≡ id → Since t a.last_triggered_at)

Saved-change_where :
    (id other : ℤ) (t at : ℕ) (rows : List Alert)
    → t ≤ at
    → Saved id t rows
    → Saved id t (change_where (λ a. a.id == other) (triggered at) rows)
Saved-change_where id other t at [] h s = tt
Saved-change_where id other t at (a ∷ rows) h s = elim (Bool-cases (a.id == other)) [
  | inl same ↦ rw same (λ _. h, Saved-change_where id other t at rows h s.1)
  | inr differs ↦ rw differs (s.0, Saved-change_where id other t at rows h s.1)
]

-- A clock that never goes back.
abbrev pub Monotone : Env → Type 0
Monotone e = (i j : ℕ) → i ≤ j → e.clock i ≤ e.clock j

module _ (e : Env) (mono : Monotone e) (id : ℤ) (c : ℕ) (saved : Bool) where
  -- The environment is the same, at least `c` calls were made, and, where the first firing was
  -- saved, the rows of the alert show it.
  pub record After (w : World) : Type 0 where
    pub same_env : w.env ≡ e
    pub later : c ≤ w.calls
    pub rows : saved ≡ true → Saved id (e.clock c) w.alerts

  pub clock-After : {w : World} → After w → e.clock c ≤ w.clock w.calls
  clock-After {w} h =
      subst (λ x. e.clock c ≤ x.clock w.calls) (sym h.same_env) (mono c w.calls h.later)

  pub now-After : Keeps After now
  unfolding now
  now-After = record {
    at = λ w h. record { same_env = h.same_env; later = omega (arith, h.later); rows = h.rows };
  }

  abbrev pub db_after {ℓ} : {A : Type ℓ} → Db → Result (A × Db) → Db
  db_after d (err _) = d
  db_after d (ok (a, d')) = d'

  -- A query that keeps the rows of the alert as the first firing left them, or later.
  abbrev pub KeepsRows {ℓ} : {A : Type ℓ} → (ℕ → Db → Result (A × Db)) → Type 0
  KeepsRows f =
      (at : ℕ) (d : Db)
      → e.clock c ≤ at
      → (saved ≡ true → Saved id (e.clock c) d.alerts)
      → saved ≡ true
      → Saved id (e.clock c) (db_after d (f at d)).alerts

  settle-After {ℓ} :
      {A : Type ℓ} (r : Result (A × Db)) (w : World)
      → After w
      → (saved ≡ true → Saved id (e.clock c) (db_after w.db r).alerts)
      → After (settle r w).1
  settle-After (err x) w h k = h
  settle-After (ok (a, d)) w h k = record { same_env = h.same_env; later = h.later; rows = k }

  pub tick-After : {w : World} → After w → After (tick w)
  tick-After h = record { same_env = h.same_env; later = omega (arith, h.later); rows = h.rows }

  statement-After {ℓ} :
      {A : Type ℓ} (f : ℕ → Db → Result (A × Db)) → KeepsRows f → Keeps After (statement f)
  unfolding statement
  statement-After f k = record {
    at = λ w h. elim (Option-cases (w.db_fault w.calls)) [
      | inl sound ↦
          rw (sound, statement)
            (settle-After (f (w.clock w.calls) w.db) (tick w) (tick-After h)
              (k (w.clock w.calls) w.db (clock-After h) h.rows))
      | inr (x, fault) ↦ rw (fault, statement) (tick-After h)
    ];
  }

  pub select-After {ℓ} : {A : Type ℓ} (q : Db → A) → Keeps After (select q)
  select-After q = statement-After (λ _ d. ok (q d, d)) (λ at d _ h. h)

  pub enqueue-After : (r : NotificationRequest) → Keeps After (enqueue r)
  unfolding enqueue
  enqueue-After r = record { at = λ w h. ground (arith, tick-After h) }

  -- An action that goes on from a clock reading may use that the reading is not before `c`.
  now-bind-After {ℓ} :
      {A : Type ℓ} (f : ℕ → Exec World A)
      → ((at : ℕ) → e.clock c ≤ at → Keeps After (f at))
      → Keeps After (now >>= f)
  unfolding now ◌>>=◌
  now-bind-After f k = record {
    at = λ w h. (k (w.clock w.calls) (clock-After h)).at (tick w) (tick-After h);
  }

  pub persist-After : (other : ℤ) → Keeps After (persist_triggered other)
  unfolding persist_triggered
  persist-After other = now-bind-After _ λ at reached.
      Keeps-bind
        (statement-After _
          λ _ d _ h s. Saved-change_where id other (e.clock c) at d.alerts reached (h s))
        (λ _. Keeps-pure tt)

  pub prices-After :
      (market_id : ℤ) (json : String) → Keeps After (update_market_prices market_id json)
  unfolding update_market_prices
  prices-After market_id json =
      now-bind-After _ λ at _. Keeps-bind (statement-After _ λ _ d _ h. h) (λ _. Keeps-pure tt)

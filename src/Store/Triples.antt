-- ===== src/Store/Triples.antt =====
-- Actions with what holds of a part of the state before them, after a result and after an error,
-- and the rules that compose them.
use poly_notifier.Common.{ℕ, ℤ, String, ◌≡◌, refl, sym, Option, none, some, Option-cases, inl, inr}
use mathlib.Core.Path.{subst}
use poly_notifier.Store.Rows.{Result, ok, err}
use poly_notifier.Store.World.{
  Db, World, Exec, pure, attempt, continue, ◌>>=◌, statement, settle, tick, select, select_one,
  or_no_row, now, ask, telegram_request, telegram_send,
}

-- What holds of a result and of what the state shows then.
unfoldable pub After {ℓ κ} :
    {A : Type ℓ} {V : Type κ} → (A → V → Type κ) → (V → Type κ) → Result A → V → Type κ
After Q E (ok a) v = Q a v
After Q E (err e) v = E v

pub record Triple {ℓ κ μ} {S : Type ℓ} {V : Type μ} {A : Type κ} (view : S → V) (P : V → Type μ)
    (m : Exec S A) (Q : A → V → Type μ) (E : V → Type μ) : Type (ℓ ⊔ μ) where
  pub at : (s : S) → P (view s) → After Q E (m s).0 (view (m s).1)

module _ {κ μ} {V : Type μ} {A : Type κ} where
  after_weaker :
      (Q R : A → V → Type μ) (E F : V → Type μ) (r : Result A) (v : V)
      → ((a : A) → Q a v → R a v)
      → (E v → F v)
      → After Q E r v
      → After R F r v
  unfolding After
  after_weaker Q R E F (ok a) v q e h = q a h
  after_weaker Q R E F (err x) v q e h = e h

  both : (P : V → Type μ) (r : Result A) (v : V) → P v → After (λ a. P) P r v
  unfolding After
  both P (ok a) v p = p
  both P (err e) v p = p

module _ {ℓ κ μ} {S : Type ℓ} {V : Type μ} {A : Type κ} {view : S → V} where
  pub Triple-pure :
      {P E : V → Type μ} {Q : A → V → Type μ} (a : A)
      → ((v : V) → P v → Q a v)
      → Triple view P (pure a) Q E
  unfolding ◌>>=◌ After
  Triple-pure a h = record { at = λ s. h (view s) }

  after_outcome {ν} :
      {B : Type ν} {Q : A → V → Type μ} {R : B → V → Type μ} {E : V → Type μ} (f : A → Exec S B)
      (r : Result A) (s : S)
      → After Q E r (view s)
      → ((a : A) → Triple view (Q a) (f a) R E)
      → After R E (continue r f s).0 (view (continue r f s).1)
  unfolding After
  after_outcome f (ok a) s h k = (k a).at s h
  after_outcome f (err e) s h k = h

  pub Triple-bind {ν} :
      {B : Type ν} {P E : V → Type μ} {Q : A → V → Type μ} {R : B → V → Type μ} {m : Exec S A}
      {f : A → Exec S B}
      → Triple view P m Q E
      → ((a : A) → Triple view (Q a) (f a) R E)
      → Triple view P (m >>= f) R E
  unfolding ◌>>=◌
  Triple-bind {m} {f} h k = record { at = λ s p. after_outcome f (m s).0 (m s).1 (h.at s p) k }

  pub Triple-attempt :
      {P E F : V → Type μ} {Q : A → V → Type μ} {m : Exec S A}
      → Triple view P m Q E
      → Triple view P (attempt m) (After Q E) F
  unfolding ◌>>=◌ After
  Triple-attempt {m} h = record { at = λ s p. h.at s p }

  pub Triple-weaken :
      {P : V → Type μ} {Q R : A → V → Type μ} {E F : V → Type μ} {m : Exec S A}
      → ((a : A) (v : V) → Q a v → R a v)
      → ((v : V) → E v → F v)
      → Triple view P m Q E
      → Triple view P m R F
  Triple-weaken {Q} {R} {E} {F} {m} q e h = record {
    at = λ s p.
        after_weaker Q R E F (m s).0 (view (m s).1) (λ a. q a (view (m s).1)) (e (view (m s).1))
          (h.at s p);
  }

  pub Triple-before :
      {P R E : V → Type μ} {Q : A → V → Type μ} {m : Exec S A}
      → ((v : V) → R v → P v)
      → Triple view P m Q E
      → Triple view R m Q E
  Triple-before {m} f h = record { at = λ s r. h.at s (f (view s) r) }

  -- An action that leaves what the state shows.
  pub Triple-same :
      {P : V → Type μ} {m : Exec S A}
      → ((s : S) → view (m s).1 ≡ view s)
      → Triple view P m (λ a. P) P
  Triple-same {P} {m} same = record {
    at = λ s p. both P (m s).0 (view (m s).1) (subst P (sym (same s)) p);
  }

-- What holds of the rows that a statement leaves.
unfoldable pub Leaves {κ μ} : {A : Type κ} → (A → Db → Type μ) → Result (A × Db) → Type μ
Leaves Q (ok (a, d)) = Q a d
Leaves Q (err e) = Unit

pub Leaves-ok {κ μ} :
    {A : Type κ} (Q : A → Db → Type μ) (r : Result (A × Db)) (a : A) (d : Db)
    → Leaves Q r
    → r ≡ ok (a, d)
    → Q a d
unfolding Leaves
Leaves-ok Q r a d h e = subst (Leaves Q) e h

abbrev pub rows_of_world : World → Db
rows_of_world w = w.db

module _ {κ} {A : Type κ} where
  settle-After :
      (Q : A → Db → Type 0) (E : Db → Type 0) (w : World) (r : Result (A × Db))
      → E w.db
      → Leaves Q r
      → After Q E (settle r (tick w)).0 (rows_of_world (settle r (tick w)).1)
  unfolding Leaves After
  settle-After Q E w (ok (a, d)) e q = q
  settle-After Q E w (err x) e q = e

  -- A statement that fails leaves the rows as they are.
  pub Triple-statement :
      {P : Db → Type 0} {Q : A → Db → Type 0} {E : Db → Type 0} (f : ℕ → Db → Result (A × Db))
      → ((d : Db) → P d → E d)
      → ((at : ℕ) (d : Db) → P d → Leaves Q (f at d))
      → Triple rows_of_world P (statement f) Q E
  unfolding statement After
  Triple-statement {Q} {E} f e q = record {
    at = λ w p. elim (Option-cases (w.db_fault w.calls)) [
      | inl none_of ↦
          rw (none_of, statement)
            (settle-After Q E w (f (w.clock w.calls) w.db) (e w.db p) (q (w.clock w.calls) w.db p))
      | inr (x, fault) ↦ rw (fault, statement) (e w.db p)
    ];
  }

row-Leaves :
    {A : Type 0} (P : Db → Type 0) (q : Db → Option A) (d : Db) (o : Option A)
    → P d
    → q d ≡ o
    → Leaves (λ a d'. P d' × (q d' ≡ some a)) (or_no_row d o)
unfolding Leaves
row-Leaves P q d none p e = tt
row-Leaves P q d (some a) p e = (p, e)

module _ (P : Db → Type 0) where
  pub Triple-select :
      {A : Type 0} (q : Db → A) → Triple rows_of_world P (select q) (λ a d. P d × (q d ≡ a)) P
  unfolding Leaves
  Triple-select q = Triple-statement _ (λ d p. p) (λ at d p. (p, refl))

  pub Triple-select_one :
      {A : Type 0} (q : Db → Option A)
      → Triple rows_of_world P (select_one q) (λ a d. P d × (q d ≡ some a)) P
  Triple-select_one q = Triple-statement _ (λ d p. p) (λ at d p. row-Leaves P q d (q d) p refl)

  -- The clock, the services and Telegram change no row.
  pub Triple-now : Triple rows_of_world P now (λ a. P) P
  unfolding now
  Triple-now = Triple-same λ w. refl

  pub Triple-ask : {A : Type 0} (f : ℕ → Result A) → Triple rows_of_world P (ask f) (λ a. P) P
  unfolding ask
  Triple-ask f = Triple-same λ w. refl

  pub Triple-request : Triple rows_of_world P telegram_request (λ a. P) P
  unfolding telegram_request
  Triple-request = Triple-same λ w. elim (Option-cases (w.telegram_fault w.calls)) [
    | inl none_of ↦ rw (none_of, telegram_request) refl
    | inr (e, fault) ↦ rw (fault, telegram_request) refl
  ]

  pub Triple-telegram :
      (bot_id : String) (chat : ℤ) (text : String)
      → Triple rows_of_world P (telegram_send bot_id chat text) (λ a. P) P
  unfolding telegram_send
  Triple-telegram bot_id chat text = Triple-same λ w.
      elim (Option-cases (w.telegram_fault w.calls)) [
        | inl none_of ↦ rw (none_of, telegram_send) refl
        | inr (e, fault) ↦ rw (fault, telegram_send) refl
      ]

-- ===== src/Monitor/Aggregator/Laws.antt =====
-- aggregator.rs: the set of watched tokens is what the active markets list.
use text.Mathlib.TextEquality.{eq_iff}
use poly_notifier.Common.{
  String, ◌==◌, string_eq, ◌≡◌, refl, ap, ◌∙◌, Bool, true, false, ◌||◌, none, some, List, [], ◌∷◌,
  ◌++◌, map, any, arith, Bool-cases, Option-cases, inl, inr,
}
use poly_notifier.Store.Rows.{Market, ok, err, serialization}
use poly_notifier.Store.World.{World, statement, ◌>>=◌}
use poly_notifier.Store.Subscriptions.{subscribed_markets}
use poly_notifier.Interfaces.{JsonOps}
use poly_notifier.Monitor.Aggregator.{
  member, add, extend, token_id_rows, collect_ids, get_active_token_ids,
}

any-append {ℓ} :
    {A : Type ℓ} (p : A → Bool) (xs ys : List A) → any p (xs ++ ys) ≡ (any p xs || any p ys)
any-append p [] ys = refl
any-append p (x ∷ xs) ys = ground (arith, any-append p xs ys)

any-member :
    (p : String → Bool) (t : String) (set : List String)
    → member t set ≡ true
    → p t ≡ true
    → any p set ≡ true
any-member p t [] h k = ground (arith, h)
any-member p t (x ∷ set) h k = elim (Bool-cases (x == t)) [
  | inl same ↦ rw (ap p ((eq_iff x t).0 same) ∙ k) refl
  | inr differs ↦ ground (arith, any-member p t set, differs, h, k)
]

any-add :
    (p : String → Bool) (t : String) (set : List String) → any p (add t set) ≡ (any p set || p t)
any-add p t set = elim (Bool-cases (member t set)) [
  | inl there ↦ rw there (ground (arith, any-member p t set there))
  | inr absent ↦ rw absent (any-append p set (t ∷ []) ∙ ground arith)
]

any-extend :
    (p : String → Bool) (set ids : List String) → any p (extend set ids) ≡ (any p set || any p ids)
unfolding extend
any-extend p set [] = ground arith
any-extend p set (t ∷ ids) = any-extend p (add t set) ids ∙ rw (any-add p t set) (ground arith)

any-map :
    (p : String → Bool) (markets : List Market)
    → any p (map (λ m. m.token_ids) markets) ≡ any (λ m. p m.token_ids) markets
any-map p [] = refl
any-map p (m ∷ markets) = ap (λ b. p m.token_ids || b) (any-map p markets)

any-token_id_rows :
    (p : String → Bool) (markets : List Market)
    → any p (token_id_rows markets) ≡ any (λ m. p m.token_ids) markets
unfolding token_id_rows extend
any-token_id_rows p markets = any-extend p [] (map (λ m. m.token_ids) markets) ∙ any-map p markets

module _ (json : JsonOps) where
  -- A column that is not a JSON list of strings.
  abbrev pub broken : String → Bool
  broken row = elim (json.parse_strings row) [ none ↦ true | some ids ↦ false ]

  -- The column lists the token.
  abbrev pub lists : String → String → Bool
  lists t row = elim (json.parse_strings row) [ none ↦ false | some ids ↦ member t ids ]

  broken-none : (row : String) → json.parse_strings row ≡ none → broken row ≡ true
  broken-none row e = rw (e, broken) refl

  broken-some :
      (row : String) (ids : List String) → json.parse_strings row ≡ some ids → broken row ≡ false
  broken-some row ids e = rw (e, broken) refl

  lists-some :
      (t row : String) (ids : List String)
      → json.parse_strings row ≡ some ids
      → lists t row ≡ member t ids
  lists-some t row ids e = rw (e, lists) refl

  collect_ids-none :
      (set : List String) (row : String) (rows : List String)
      → json.parse_strings row ≡ none
      → collect_ids json set (row ∷ rows) ≡ err (serialization row)
  unfolding collect_ids
  collect_ids-none set row rows e = rw (e, collect_ids) refl

  collect_ids-some :
      (set : List String) (row : String) (ids rows : List String)
      → json.parse_strings row ≡ some ids
      → collect_ids json set (row ∷ rows) ≡ collect_ids json (extend set ids) rows
  unfolding collect_ids
  collect_ids-some set row ids rows e =
      ap
        (λ o. elim o [
          | none ↦ err (serialization row)
          | some ids' ↦ collect_ids json (extend set ids') rows
        ])
        e

  abbrev Collected : List String → List String → Type 0
  Collected set rows =
      (ids : List String) × ((collect_ids json set rows ≡ ok ids)
        × ((t : String) → member t ids ≡ (member t set || any (lists t) rows)))

  collected : (set rows : List String) → any broken rows ≡ false → Collected set rows
  unfolding collect_ids
  collected set [] sound = (set, (refl, λ t. ground arith))
  collected set (row ∷ rows) sound = elim (Option-cases (json.parse_strings row)) [
    | inl none_of ↦ ground (arith, sound, broken-none row none_of)
    | inr (ids, parsed) ↦
        let rest =
          collected (extend set ids) rows (ground (arith, sound, broken-some row ids parsed)) in
        (
          rest.0,
          (
            collect_ids-some set row ids rows parsed ∙ rest.1.0,
            λ t.
                rest.1.1 t
                ∙ rw (any-extend (λ x. x == t) set ids, lists-some t row ids parsed) (ground arith),
          ),
        )
  ]

  collected_err :
      (set rows : List String)
      → any broken rows ≡ true
      → (row : String) × (collect_ids json set rows ≡ err (serialization row))
  collected_err set [] h = ground (arith, h)
  collected_err set (row ∷ rows) h = elim (Option-cases (json.parse_strings row)) [
    | inl none_of ↦ (row, collect_ids-none set row rows none_of)
    | inr (ids, parsed) ↦
        let rest =
          collected_err (extend set ids) rows (ground (arith, h, broken-some row ids parsed)) in
        (rest.0, collect_ids-some set row ids rows parsed ∙ rest.1)
  ]

  -- When the query succeeds and every active market with an active subscription has a column that
  -- parses, the watched set has a token exactly when one of these markets lists it.
  pub get_active_token_ids-member :
      (w : World)
      → w.db_fault w.calls ≡ none
      → any (λ m. broken m.token_ids) (subscribed_markets w.db) ≡ false
      → (ids : List String) × (((get_active_token_ids json w).0 ≡ ok ids)
          × ((t : String)
              → member t ids ≡ any (λ m. lists t m.token_ids) (subscribed_markets w.db)))
  unfolding get_active_token_ids ◌>>=◌ statement
  get_active_token_ids-member w sound whole =
      let rest =
        collected [] (token_id_rows (subscribed_markets w.db))
          (any-token_id_rows broken (subscribed_markets w.db) ∙ whole) in
      rw (sound, statement)
        (
          rest.0,
          (rest.1.0, λ t. rest.1.1 t ∙ any-token_id_rows (lists t) (subscribed_markets w.db)),
        )

  -- When the query succeeds and some such column does not parse, the whole aggregation fails.
  pub get_active_token_ids-err :
      (w : World)
      → w.db_fault w.calls ≡ none
      → any (λ m. broken m.token_ids) (subscribed_markets w.db) ≡ true
      → (row : String) × ((get_active_token_ids json w).0 ≡ err (serialization row))
  unfolding get_active_token_ids ◌>>=◌ statement
  get_active_token_ids-err w sound bad =
      rw (sound, statement)
        (collected_err [] (token_id_rows (subscribed_markets w.db))
          (any-token_id_rows broken (subscribed_markets w.db) ∙ bad))

-- ===== src/Alert/Engine/Cache.antt =====
-- engine.rs, refresh_cache: the rule cache holds every rule under its token.
use mathlib.Core.List.{filter_map, append-nil, append_assoc}
use mathlib.Core.Path.{subst}
use text.Mathlib.TextEquality.{eq_iff}
use poly_notifier.Common.{
  String, ◌==◌, string_eq, Eq, ◌≡◌, refl, sym, ap, ◌∙◌, false, Option, none, some, List, [], ◌∷◌,
  ◌++◌, arith, keep, keep-append, is_some, if◌then◌else◌, Bool-cases, Option-cases, inl, inr,
}
use poly_notifier.Common.Dict.{Dict, get, insert, get-insert}
use poly_notifier.Store.Rows.{err, database}
use poly_notifier.Store.World.{statement, tick, ◌>>=◌}
use poly_notifier.Interfaces.{Libraries}
use poly_notifier.Alert.Rules.{AlertRule}
use poly_notifier.Alert.Engine.{Engine}
use poly_notifier.Alert.Engine.Refresh.{
  Cache, AlertRow, or_default, push_rule, group_by_token, copy_entries, alert_rows, rule_of_row,
  install_rules, refresh_with, refresh_cache, refresh_condition_tokens, set_conditions,
}

-- No key stands twice.
abbrev Distinct {ℓ κ} : {K : Type ℓ} {V : Type κ} ⦃e : Eq K⦄ → Dict K V → Type κ
Distinct [] = Unit
Distinct ((k, v) ∷ m) = (get k m ≡ none) × Distinct m

beq_swap {ℓ} : {K : Type ℓ} ⦃e : Eq K⦄ (j k : K) → (j == k) ≡ false → (k == j) ≡ false
beq_swap ⦃e⦄ j k h = ground (arith, e.beq_iff j k, e.beq_iff k j)

module _ {ℓ κ} {K : Type ℓ} {V : Type κ} ⦃e : Eq K⦄ where
  insert-Distinct : (k : K) (v : V) (m : Dict K V) → Distinct m → Distinct (insert k v m)
  unfolding insert get
  insert-Distinct k v [] d = (refl, tt)
  insert-Distinct k v ((j, w) ∷ m) d = elim (Bool-cases (j == k)) [
    | inl same ↦ rw same d
    | inr differs ↦
        rw differs (get-insert k j v m ∙ rw (beq_swap j k differs) d.0, insert-Distinct k v m d.1)
  ]

module _ (l : Libraries) where
  open l use {decimal}

  -- The entry of a token: none without a rule.
  abbrev pub entry : List (AlertRule decimal) → Option (List (AlertRule decimal))
  entry [] = none
  entry (r ∷ rules) = some (r ∷ rules)

  abbrev pub of_token : String → List (AlertRule decimal) → List (AlertRule decimal)
  of_token token_id = keep (λ r. r.token_id == token_id)

  entry-snoc :
      (rules : List (AlertRule decimal)) (r : AlertRule decimal)
      → entry (rules ++ r ∷ []) ≡ some (rules ++ r ∷ [])
  entry-snoc [] r = refl
  entry-snoc (x ∷ rules) r = refl

  or_default-entry : (rules : List (AlertRule decimal)) → or_default l (entry rules) ≡ rules
  or_default-entry [] = refl
  or_default-entry (r ∷ rules) = refl

  get-push_rule :
      (m : Cache l) (r : AlertRule decimal) (token_id : String) (rules : List (AlertRule decimal))
      → get token_id m ≡ entry rules
      → get token_id (push_rule l m r) ≡ entry (rules ++ of_token token_id (r ∷ []))
  unfolding push_rule
  get-push_rule m r token_id rules h =
      get-insert r.token_id token_id (or_default l (get r.token_id m) ++ r ∷ []) m
      ∙ elim (Bool-cases (r.token_id == token_id)) [
        | inl same ↦
            let held : get r.token_id m ≡ entry rules =
              subst (λ k. get k m ≡ entry rules) (sym ((eq_iff r.token_id token_id).0 same)) h in
            rw (same, held, or_default-entry rules) (sym (entry-snoc rules r))
        | inr differs ↦ rw (differs, append-nil) h
      ]

  get-group_by_token :
      (m : Cache l) (token_id : String) (before rules : List (AlertRule decimal))
      → get token_id m ≡ entry before
      → get token_id (group_by_token l m rules) ≡ entry (before ++ of_token token_id rules)
  unfolding group_by_token
  get-group_by_token m token_id before [] h = rw append-nil h
  get-group_by_token m token_id before (r ∷ rules) h =
      get-group_by_token (push_rule l m r) token_id (before ++ of_token token_id (r ∷ [])) rules
        (get-push_rule m r token_id before h)
      ∙ ap entry (
          append_assoc before (of_token token_id (r ∷ [])) (of_token token_id rules)
          ∙ ap (◌++◌ before) (
              sym (keep-append (λ (x : AlertRule decimal). x.token_id == token_id) (r ∷ []) rules)))

  group_by_token-Distinct :
      (m : Cache l) (rules : List (AlertRule decimal))
      → Distinct m
      → Distinct (group_by_token l m rules)
  unfolding group_by_token push_rule
  group_by_token-Distinct m [] d = d
  group_by_token-Distinct m (r ∷ rules) d =
      group_by_token-Distinct (push_rule l m r) rules (insert-Distinct r.token_id _ m d)

  -- Copying the entries of a map with distinct keys keeps every entry.
  get-copy_entries :
      (entries cache : Cache l) (token_id : String)
      → Distinct entries
      → get token_id (copy_entries l entries cache)
        ≡ (if is_some (get token_id entries) then get token_id entries else get token_id cache)
  unfolding copy_entries get
  get-copy_entries [] cache token_id d = refl
  get-copy_entries ((k, rules) ∷ entries) cache token_id d =
      get-copy_entries entries (insert k rules cache) token_id d.1
      ∙ elim (Bool-cases (k == token_id)) [
        | inl same ↦
            let absent : get token_id entries ≡ none =
              subst (λ x. get x entries ≡ none) ((eq_iff k token_id).0 same) d.0 in
            ground (arith, absent, get-insert k token_id rules cache)
        | inr differs ↦ ground (arith, get-insert k token_id rules cache)
      ]

  -- The rules that a refresh makes of the rows of the database.
  abbrev pub db_rules : Engine l → List (AlertRule decimal)
  db_rules s = filter_map (rule_of_row l) (alert_rows s.db)

  cache_kept : (s : Engine l) → (refresh_condition_tokens l s).1.rule_cache ≡ s.rule_cache
  unfolding refresh_condition_tokens statement ◌>>=◌ set_conditions
  cache_kept s = elim (Option-cases (s.db_fault s.calls)) [
    | inl sound ↦ rw (sound, statement) refl
    | inr (fault, e) ↦ rw (e, statement) refl
  ]

  chosen_entry :
      (rules : List (AlertRule decimal))
      → (if is_some (entry rules) then entry rules else none) ≡ entry rules
  chosen_entry [] = refl
  chosen_entry (r ∷ rules) = refl

  installed :
      (s : Engine l) (rules : List (AlertRule decimal)) (token_id : String)
      → get token_id (install_rules l rules s).1.rule_cache ≡ entry (of_token token_id rules)
  unfolding install_rules get
  installed s rules token_id =
      get-copy_entries (group_by_token l [] rules) [] token_id (group_by_token-Distinct [] rules tt)
      ∙ rw (get-group_by_token [] token_id [] rules refl) (chosen_entry (of_token token_id rules))

  get-refresh_with :
      (s : Engine l) (rows : List AlertRow) (token_id : String)
      → get token_id (refresh_with l rows s).1.rule_cache
        ≡ entry (of_token token_id (filter_map (rule_of_row l) rows))
  unfolding refresh_with ◌>>=◌ install_rules
  get-refresh_with s rows token_id =
      ap (get token_id) (cache_kept (install_rules l (filter_map (rule_of_row l) rows) s).1)
      ∙ installed s (filter_map (rule_of_row l) rows) token_id

  -- When the query of the alerts succeeds, the cache afterwards has under each token exactly the
  -- rules of that token, in row order, and no entry for a token without rules; what it held before
  -- is gone.
  pub get-refresh_cache :
      (s : Engine l) (token_id : String)
      → s.db_fault s.calls ≡ none
      → get token_id (refresh_cache l s).1.rule_cache ≡ entry (of_token token_id (db_rules s))
  unfolding refresh_cache statement ◌>>=◌
  get-refresh_cache s token_id sound =
      rw (sound, statement) (get-refresh_with _ (alert_rows s.db) token_id)

  -- When it fails, the refresh fails and changes nothing but the number of calls.
  refresh_cache_failed :
      (s : Engine l) (fault : String)
      → s.db_fault s.calls ≡ some fault
      → refresh_cache l s ≡ (err (database fault), record s { world = tick s.world })
  unfolding refresh_cache statement ◌>>=◌
  refresh_cache_failed s fault e = rw (e, statement)

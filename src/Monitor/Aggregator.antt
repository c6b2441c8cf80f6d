-- ===== src/Monitor/Aggregator.antt =====
-- crates/pn-monitor/src/aggregator.rs: the tokens that the database asks to be watched.
pub mod Laws
use poly_notifier.Common.{
  String, ◌==◌, string_eq, Bool, Option, none, some, List, [], ◌∷◌, ◌++◌, map, any, if◌then◌else◌,
}
use poly_notifier.Common.Dict.{Dict, insert}
use poly_notifier.Store.Rows.{Market, Result, ok, err, serialization}
use poly_notifier.Store.World.{World, Exec, ◌>>=◌, select}
use poly_notifier.Store.Subscriptions.{subscribed_markets}
use poly_notifier.Interfaces.{JsonOps}

-- A HashSet is a list without repetition; the source leaves its order open.
abbrev pub member : String → List String → Bool
member t = any (λ x. x == t)

abbrev pub add : String → List String → List String
add t set = if member t set then set else set ++ t ∷ []

unfoldable pub extend : List String → List String → List String
extend set [] = set
extend set (t ∷ ids) = extend (add t set) ids

-- SELECT DISTINCT m.token_ids
abbrev pub token_id_rows : List Market → List String
unfolding extend
token_id_rows markets = extend [] (map (λ m. m.token_ids) markets)

module _ (json : JsonOps) where
  -- The loop over the rows: the first row that does not parse ends it.
  unfoldable pub collect_ids : List String → List String → Result (List String)
  collect_ids set [] = ok set
  collect_ids set (row ∷ rows) = elim (json.parse_strings row) [
    | none ↦ err (serialization row)
    | some ids ↦ collect_ids (extend set ids) rows
  ]

  abbrev pub result {ℓ} : {A : Type ℓ} → Result A → Exec World A
  result r w = (r, w)

  unfoldable pub get_active_token_ids : Exec World (List String)
  unfolding token_id_rows
  get_active_token_ids = do
    rows ← select (λ d. token_id_rows (subscribed_markets d))
    result (collect_ids [] rows)

  -- for token_id in ids { mapping.insert(token_id, condition_id.clone()) }
  unfoldable pub insert_all : String → List String → Dict String String → Dict String String
  insert_all condition_id [] mapping = mapping
  insert_all condition_id (t ∷ ids) mapping =
      insert_all condition_id ids (insert t condition_id mapping)

  unfoldable pub collect_conditions : Dict String String → List Market → Result (Dict String String)
  collect_conditions mapping [] = ok mapping
  collect_conditions mapping (m ∷ markets) = elim (json.parse_strings m.token_ids) [
    | none ↦ err (serialization m.token_ids)
    | some ids ↦ collect_conditions (insert_all m.condition_id ids mapping) markets
  ]

  -- DISTINCT leaves every market, since condition_id is unique.
  unfoldable pub get_token_to_condition : Exec World (Dict String String)
  get_token_to_condition = do rows ← select subscribed_markets; result (collect_conditions [] rows)

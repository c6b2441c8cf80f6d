-- ===== src/Monitor/Service/Follows.antt =====
-- service.rs: the connection watches the set that the service holds, and the set follows the database.
use poly_notifier.Common.{
  ℕ, String, ◌==◌, string_eq, ◌≡◌, refl, sym, ap, ◌∙◌, Bool, true, false, ◌||◌, none, List, [], ◌∷◌,
  any, all, arith, Bool-cases, inl, inr,
}
use mathlib.Core.Path.{subst}
use text.Mathlib.TextEquality.{eq_iff}
use poly_notifier.Store.Rows.{Result, ok, err}
use poly_notifier.Store.World.{World}
use poly_notifier.Store.Subscriptions.{subscribed_markets}
use poly_notifier.Interfaces.{JsonOps}
use poly_notifier.Monitor.Aggregator.{member, get_active_token_ids}
use poly_notifier.Monitor.Aggregator.Laws.{broken, lists, get_active_token_ids-member}
use poly_notifier.Monitor.Service.{
  Monitor, same_set, spawn_connection, connect, connect_unless, refreshed, Event, cancelled,
  refresh_tick, exited, Status, running, stopped, handle_event, loop, run,
  fetch_token_ids_with_retry,
}

all-any :
    (a b : List String) (t : String)
    → all (λ x. member x b) a ≡ true
    → member t a ≡ true
    → member t b ≡ true
all-any [] b t h k = ground (arith, k)
all-any (x ∷ a) b t h k = elim (Bool-cases (x == t)) [
  | inl same ↦ subst (λ v. member v b ≡ true) ((eq_iff x t).0 same) (ground (arith, h))
  | inr differs ↦ ground (arith, all-any a b t, h, k, differs)
]

same_set-member : (a b : List String) (t : String) → same_set a b ≡ true → member t a ≡ member t b
same_set-member a b t h = ground (arith, all-any a b t, all-any b a t, h)

module _ (json : JsonOps) where
  -- The connection was started with the set that the service holds.
  abbrev pub Consistent : Status json → Type 0
  Consistent (stopped w) = Unit
  Consistent (running m) = m.connection.token_ids ≡ m.current_ids

  connect_unless-Consistent :
      (is_cancelled : Bool) (fetched : (List String × Bool) × World)
      → Consistent (connect_unless json is_cancelled fetched)
  unfolding connect_unless connect spawn_connection
  connect_unless-Consistent is_cancelled ((ids, ended), w) =
      elim (Bool-cases (ended || is_cancelled)) [
        | inl is_over ↦ rw is_over tt
        | inr goes_on ↦ rw goes_on refl
      ]

  refreshed-Consistent :
      (m : Monitor) (out : Result (List String) × World)
      → m.connection.token_ids ≡ m.current_ids
      → Consistent (running (refreshed json m out))
  unfolding refreshed connect spawn_connection
  refreshed-Consistent m (err e, w) h = h
  refreshed-Consistent m (ok ids, w) h = elim (Bool-cases (same_set ids m.current_ids)) [
    | inl same ↦ rw same h
    | inr changed ↦ rw changed refl
  ]

  handle_event-Consistent :
      (event : Event json) (m : Monitor)
      → Consistent (running m)
      → Consistent (handle_event json event m)
  unfolding handle_event
  handle_event-Consistent cancelled m h = tt
  handle_event-Consistent refresh_tick m h = refreshed-Consistent m _ h
  handle_event-Consistent (exited patience is_cancelled) m h =
      connect_unless-Consistent is_cancelled (fetch_token_ids_with_retry json patience m.world)

  loop-Consistent :
      (events : List (Event json)) (s : Status json)
      → Consistent s
      → Consistent (loop json events s)
  unfolding loop
  loop-Consistent events (stopped w) h = tt
  loop-Consistent [] (running m) h = h
  loop-Consistent (event ∷ events) (running m) h =
      loop-Consistent events (handle_event json event m) (handle_event-Consistent event m h)

  -- Whatever happens to the database and in whatever order the events come, a service that runs has
  -- a connection that was started with exactly the token set that the service holds.
  pub run-Consistent :
      (patience : ℕ) (is_cancelled : Bool) (events : List (Event json)) (w : World)
      → Consistent (run json patience is_cancelled events w)
  unfolding run
  run-Consistent patience is_cancelled events w =
      loop-Consistent events _
        (connect_unless-Consistent is_cancelled (fetch_token_ids_with_retry json patience w))

  follows_ok :
      (m : Monitor) (w : World) (ids : List String) (t : String)
      → m.connection.token_ids ≡ m.current_ids
      → member t (refreshed json m (ok ids, w)).connection.token_ids ≡ member t ids
  unfolding refreshed connect spawn_connection
  follows_ok m w ids t h = elim (Bool-cases (same_set ids m.current_ids)) [
    | inl same ↦ rw same (ap (member t) h ∙ sym (same_set-member ids m.current_ids t same))
    | inr changed ↦ rw changed refl
  ]

  follows :
      (m : Monitor) (out : Result (List String) × World) (ids : List String)
      → m.connection.token_ids ≡ m.current_ids
      → out.0 ≡ ok ids
      → (t : String) → member t (refreshed json m out).connection.token_ids ≡ member t ids
  follows m (r, w) ids h e t =
      subst (λ r'. member t (refreshed json m (r', w)).connection.token_ids ≡ member t ids) (sym e)
        (follows_ok m w ids t h)

  -- After a refresh whose query succeeds and finds no broken column, the connection of a consistent
  -- service watches a token exactly when an active market with an active subscription lists it.
  pub refreshed-follows :
      (m : Monitor) (t : String)
      → m.connection.token_ids ≡ m.current_ids
      → m.db_fault m.calls ≡ none
      → any (λ x. broken json x.token_ids) (subscribed_markets m.db) ≡ false
      → member t (refreshed json m (get_active_token_ids json m.world)).connection.token_ids
        ≡ any (λ x. lists json t x.token_ids) (subscribed_markets m.db)
  refreshed-follows m t h sound whole =
      let found = get_active_token_ids-member json m.world sound whole in
      follows m _ found.0 h found.1.0 t ∙ found.1.1 t

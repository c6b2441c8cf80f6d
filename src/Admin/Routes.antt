-- ===== src/Admin/Routes.antt =====
-- crates/pn-admin/src/routes.rs: the routes, each behind the check of the token. axum's matching of
-- paths and bodies is taken as done: a request comes with the route that it matches.
pub mod Guarded
use poly_notifier.Common.{ℕ, ℤ, String, Option, List}
use poly_notifier.Store.World.{World}
use poly_notifier.Admin.Auth.{Header, auth_middleware}
use poly_notifier.Admin.Handlers
use poly_notifier.Admin.Handlers.{Response, UserListEntry}
use poly_notifier.Admin.Handlers.Reports
use poly_notifier.Admin.Handlers.Reports.{FeedbackListEntry, StatsResponse}

pub data Route : Type 0 where
  put_tier : ℤ → String → Route
  put_limit : ℤ → ℤ → Route
  get_users get_feedback get_stats : Route

pub data Reply : Type 0 where
  tier : Response (ℤ × String) → Reply
  limit : Response (ℤ × ℤ) → Reply
  users : Response (List UserListEntry) → Reply
  feedback : Response (List FeedbackListEntry) → Reply
  stats : Response StatsResponse → Reply

pub record Texts : Type 0 where
  -- str::to_lowercase
  pub to_lowercase : String → String
  -- SQLite's strftime('%Y-%m-%dT%H:%M:%SZ', ...)
  pub strftime : ℕ → String

abbrev pub mapped {ℓ κ} : {A : Type ℓ} {B : Type κ} → (A → B) → A × World → B × World
mapped f (a, w) = (f a, w)

unfoldable pub handle : Texts → Route → World → Reply × World
unfolding Handlers.update_tier Handlers.update_limit Handlers.list_users Reports.list_feedback
    Reports.get_stats
handle t (put_tier telegram_id body) w =
    mapped tier (Handlers.update_tier t.to_lowercase telegram_id body w)
handle t (put_limit telegram_id max) w = mapped limit (Handlers.update_limit telegram_id max w)
handle t get_users w = mapped users (Handlers.list_users w)
handle t get_feedback w = mapped feedback (Reports.list_feedback t.strftime w)
handle t get_stats w = mapped stats (Reports.get_stats w)

-- The layer of the middleware stands before every route.
unfoldable pub build_router : Texts → String → Header → Route → World → Option Reply × World
unfolding auth_middleware handle
build_router t admin_password header route w =
    auth_middleware admin_password header (handle t route) w

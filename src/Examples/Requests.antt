-- ===== src/Examples/Requests.antt =====
-- The theorems on the administration at concrete requests.
use poly_notifier.Common.{
  pos, negsuc, ◌≡◌, refl, true, List, [], ◌∷◌, All, none, some, ◌==◌, string_eq, option_eq, ◌<>◌,
  if◌then◌else◌,
}
use poly_notifier.Admin.Handlers.{of_user, json, update_tier}
use poly_notifier.Admin.Handlers.Valid.{
  IsValid, put_tier, put_limit, Request, serve, serve-IsValid, update_tier-sets,
}
use poly_notifier.Admin.Routes.{Texts, Reply, handle, build_router}
use poly_notifier.Admin.Routes
use poly_notifier.Admin.Routes.Guarded.{build_router-guards}
use poly_notifier.Examples.{small_world}

abbrev requests : List Request
requests =
    put_tier (pos 77) "gold"
    ∷ put_limit (pos 77) (negsuc 0)
    ∷ put_tier (pos 77) "premium"
    ∷ put_limit (pos 77) (pos 9)
    ∷ []

serve-IsValid_example : All IsValid (serve (λ s. s) requests small_world).users
serve-IsValid_example = serve-IsValid (λ s. s) requests small_world ((refl, refl), tt)

update_tier-sets_example :
    let out = update_tier (λ s. s) (pos 77) "premium" small_world in
    (out.0 ≡ json (pos 77, "premium"))
    × All (λ u. of_user (pos 77) u ≡ true → u.tier ≡ "premium") out.1.users
update_tier-sets_example = update_tier-sets (λ s. s) (pos 77) "premium" small_world refl refl refl

abbrev plain_texts : Texts
plain_texts = record { to_lowercase = λ s. s; strftime = λ at. "now" }

build_router-guards_example :
    build_router plain_texts "secret"
      (some (some "Bearer guess"))
      (Routes.put_tier (pos 77) "premium")
      small_world
    ≡ (if some (some "Bearer guess") == some (some ("Bearer " <> "secret"))
        then (
          some (handle plain_texts (Routes.put_tier (pos 77) "premium") small_world).0,
          (handle plain_texts (Routes.put_tier (pos 77) "premium") small_world).1,
        )
        else (none, small_world))
build_router-guards_example =
    build_router-guards plain_texts "secret" (some (some "Bearer guess"))
      (Routes.put_tier (pos 77) "premium") small_world

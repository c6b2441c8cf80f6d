-- ===== src/Admin/Auth.antt =====
-- crates/pn-admin/src/auth.rs: the check of the bearer token.
use poly_notifier.Common.{String, string_eq, ◌==◌, Bool, false, Option, none, some, if◌then◌else◌}
use mathlib.Core.Option
use poly_notifier.Common.Texts.{strip_prefix}

-- The Authorization header of a request: whether there is one, and its text if that is valid.
abbrev pub Header : Type 0
Header = Option (Option String)

abbrev pub joined {ℓ} : {A : Type ℓ} → Option (Option A) → Option A
joined none = none
joined (some a) = a

-- None is Err(401).
unfoldable pub extract_bearer_token : Header → Option String
unfolding strip_prefix
extract_bearer_token header = joined (Option.map (strip_prefix "Bearer ") (joined header))

-- Whether a token passes.
abbrev pub passes : String → Option String → Bool
passes admin_password none = false
passes admin_password (some token) = token == admin_password

-- `none` is the answer 401, and otherwise what `next` answers.
unfoldable pub auth_middleware {ℓ κ} :
    {S : Type ℓ} {A : Type κ} → String → Header → (S → A × S) → S → Option A × S
unfolding extract_bearer_token
auth_middleware admin_password header next s =
    if passes admin_password (extract_bearer_token header)
    then (let (reply, s') = next s in (some reply, s'))
    else (none, s)

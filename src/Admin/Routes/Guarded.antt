-- ===== src/Admin/Routes/Guarded.antt =====
-- auth.rs and routes.rs: who gets through to a handler.
use poly_notifier.Common.{
  String, ◌<>◌, string_eq, ◌==◌, ◌≡◌, refl, ap, sym, ◌∙◌, Bool, true, false, Option, none, some,
  arith, option_eq, beq_refl, Option-cases, inl, inr, if◌then◌else◌,
}
use poly_notifier.Common.Texts.{strip_prefix, strip_prefix-append, append-strip_prefix}
use poly_notifier.Store.World.{World}
use poly_notifier.Admin.Auth.{Header, extract_bearer_token, passes, auth_middleware}
use poly_notifier.Admin.Routes.{Texts, Route, handle, build_router}

-- Two tests are equal where they agree on true.
same_test : (a b : Bool) → (a ≡ true → b ≡ true) → (b ≡ true → a ≡ true) → a ≡ b
same_test true b h k = sym (h refl)
same_test false true h k = k refl
same_test false false h k = refl

of_none : (pw : String) (o : Option String) → o ≡ none → passes pw o ≡ true → ⊥
of_none pw o e h = ground (arith, e, h)

let_through : (p pw s : String) → passes pw (strip_prefix p s) ≡ true → (s == (p <> pw)) ≡ true
let_through p pw s h = elim (Option-cases (strip_prefix p s)) [
  | inl other ↦ elim (of_none pw (strip_prefix p s) other h) [ ]
  | inr (t, e) ↦ (string_eq.beq_iff s (p <> pw)).1 (
      append-strip_prefix p s t e
      ∙ ap (λ x. p <> x) ((string_eq.beq_iff t pw).0 (ap (passes pw) (sym e) ∙ h)))
]

is_let_through : (p pw s : String) → (s == (p <> pw)) ≡ true → passes pw (strip_prefix p s) ≡ true
is_let_through p pw s h =
    ap (λ x. passes pw (strip_prefix p x)) ((string_eq.beq_iff s (p <> pw)).0 h)
    ∙ ap (passes pw) (strip_prefix-append p pw)
    ∙ beq_refl pw

-- The test of the middleware, on every header.
passes-extract_bearer_token :
    (pw : String) (header : Header)
    → passes pw (extract_bearer_token header) ≡ (header == some (some ("Bearer " <> pw)))
unfolding extract_bearer_token
passes-extract_bearer_token pw none = refl
passes-extract_bearer_token pw (some none) = refl
passes-extract_bearer_token pw (some (some s)) =
    same_test (passes pw (strip_prefix "Bearer " s)) (s == ("Bearer " <> pw))
      (let_through "Bearer " pw s) (is_let_through "Bearer " pw s)

-- A request reaches the handler of its route exactly when its Authorization header is the word Bearer,
-- a blank and the password; the reply and the state are then those of the handler. Any other request,
-- without a header or with one that is no text included, is answered with 401 and changes nothing:
-- no row, no message and no call of the database.
pub build_router-guards :
    (t : Texts) (admin_password : String) (header : Header) (route : Route) (w : World)
    → build_router t admin_password header route w ≡ (
        if header == some (some ("Bearer " <> admin_password))
        then (some (handle t route w).0, (handle t route w).1)
        else (none, w))
unfolding build_router auth_middleware
build_router-guards t admin_password header route w =
    ap (λ b. if b then (some (handle t route w).0, (handle t route w).1) else (none, w))
      (passes-extract_bearer_token admin_password header)

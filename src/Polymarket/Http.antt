-- ===== src/Polymarket/Http.antt =====
-- The requests of the REST clients. What reqwest hands back is a parameter: the answer to a request
-- goes by the number of the call.
pub mod Calls
use poly_notifier.Common.{
  ℕ, String, ◌<>◌, Bool, ◌&&◌, Option, none, some, List, leb, ltb, if◌then◌else◌,
}
use poly_notifier.Store.Rows.{Result, ok, err, other}
use poly_notifier.Store.World.{World, Exec, ◌>>=◌, ask}

-- reqwest::Response: its status, and what reading the body gives.
pub record HttpResponse : Type 0 where
  pub status : ℕ
  pub text : Result String

pub record HttpOps : Type 0 where
  pub base_url : String
  -- .get(url).query(pairs).send().await
  pub send : String → List (String × String) → ℕ → Result HttpResponse
  -- Display of a StatusCode
  pub show_status : ℕ → String

-- StatusCode::is_success
abbrev pub is_success : ℕ → Bool
is_success status = leb 200 status && ltb status 300

-- with_context: the error is another one.
abbrev pub context {ℓ} : {A : Type ℓ} → String → Result A → Result A
context text (ok a) = ok a
context text (err e) = err (other text)

-- with_context on an Option, or on a parser's result whose error is not looked at.
abbrev pub required {ℓ} : {A : Type ℓ} → String → Option A → Result A
required text (some a) = ok a
required text none = err (other text)

-- `?` on a value that is at hand.
abbrev pub lift {ℓ} : {A : Type ℓ} → Result A → Exec World A
lift r w = (r, w)

-- bail! unless the status is a success; the message gets the status and the body.
abbrev pub checked : (String → String → String) → HttpOps → ℕ → String → Result String
checked refusal h status body =
    if is_success status then ok body else err (other (refusal (h.show_status status) body))

-- A GET request up to its body, in the words of its three errors.
unfoldable pub fetch :
    HttpOps
    → String
    → List (String × String)
    → String
    → String
    → (String → String → String)
    → Exec World String
fetch h url query failed reading refusal = do
  response ← ask (λ call. context failed (h.send url query call))
  body ← lift (context reading response.text)
  lift (checked refusal h response.status body)

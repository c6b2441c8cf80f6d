-- ===== src/Startup/Registered.antt =====
-- main.rs and pn-notify/src/telegram.rs: the handles that the registry has for the bots that are started.
use poly_notifier.Common.{
  String, ◌==◌, string_eq, beq_refl, ◌≡◌, refl, ap, ◌∙◌, true, List, [], ◌∷◌, map, All, is_some,
  Bool-cases, inl, inr, Option, some, none, if◌then◌else◌,
}
use poly_notifier.Common.Dict.{get-insert}
use poly_notifier.Store.Rows.{Result, ok, err}
use poly_notifier.Notify.Telegram.{BotRegistry, new_registry, register, get_bot, bot_id_of}
use poly_notifier.Startup.{register_all, started, started_with, start, bot_tokens}

abbrev Has : BotRegistry → String → Type 0
Has r bot_id = is_some (get_bot r bot_id) ≡ true

-- A registration adds its bot, and no other is lost.
Has-register_self : (r : BotRegistry) (token : String) → Has (register r token) (bot_id_of token)
unfolding get_bot register
Has-register_self r token =
    rw (get-insert (bot_id_of token) (bot_id_of token) token r.bots, beq_refl (bot_id_of token))
      refl

Has-register :
    (r : BotRegistry) (token bot_id : String) → Has r bot_id → Has (register r token) bot_id
unfolding get_bot register
Has-register r token bot_id h = elim (Bool-cases (bot_id_of token == bot_id)) [
  | inl same ↦ rw (get-insert (bot_id_of token) bot_id token r.bots, same) refl
  | inr different ↦ rw (get-insert (bot_id_of token) bot_id token r.bots, different) h
]

Has-register_all :
    (tokens : List String) (r : BotRegistry) (bot_id : String)
    → Has r bot_id
    → Has (register_all tokens r) bot_id
unfolding register_all
Has-register_all [] r bot_id h = h
Has-register_all (token ∷ tokens) r bot_id h =
    Has-register_all tokens (register r token) bot_id (Has-register r token bot_id h)

registered-Has :
    (tokens : List String) (r : BotRegistry)
    → All (λ b. Has (register_all tokens r) b.0) (map started tokens)
unfolding register_all
registered-Has [] r = tt
registered-Has (token ∷ tokens) r = (
  Has-register_all tokens (register r token) (bot_id_of token) (Has-register_self r token),
  registered-Has tokens (register r token),
)

-- The last of the tokens with a bot id, or the handle from before.
abbrev pub latest : String → Option String → List String → Option String
latest bot_id before [] = before
latest bot_id before (token ∷ tokens) =
    latest bot_id (if bot_id_of token == bot_id then some token else before) tokens

get_bot-register_all :
    (bot_id : String) (tokens : List String) (r : BotRegistry)
    → get_bot (register_all tokens r) bot_id ≡ latest bot_id (get_bot r bot_id) tokens
unfolding get_bot register_all register
get_bot-register_all bot_id [] r = refl
get_bot-register_all bot_id (token ∷ tokens) r =
    get_bot-register_all bot_id tokens (register r token)
    ∙ ap (λ o. latest bot_id o tokens) (get-insert (bot_id_of token) bot_id token r.bots)

-- What a notification for a bot id finds, where the program starts.
abbrev pub handle : String → Result (BotRegistry × List (String × String)) → Option String
handle bot_id (ok (r, bots)) = get_bot r bot_id
handle bot_id (err e) = none

abbrev pub started_bots : Result (BotRegistry × List (String × String)) → List (String × String)
started_bots (ok (r, bots)) = bots
started_bots (err e) = []

started_with-serves :
    (bot_id : String) (tokens : List String)
    → (handle bot_id (started_with tokens) ≡ latest bot_id none tokens)
      × All
          (λ b. is_some (handle b.0 (started_with tokens)) ≡ true)
          (started_bots (started_with tokens))
unfolding new_registry get_bot register_all
started_with-serves bot_id [] = (refl, tt)
started_with-serves bot_id (token ∷ tokens) = (
  get_bot-register_all bot_id (token ∷ tokens) new_registry,
  registered-Has (token ∷ tokens) new_registry,
)

-- For every setting of the tokens and every bot id, the registry of the program that starts has exactly
-- the last token with that id, and every bot that is started has a handle under its id.
pub start-serves :
    (setting : Option String) (bot_id : String)
    → (handle bot_id (start setting) ≡ latest bot_id none (bot_tokens setting))
      × All (λ b. is_some (handle b.0 (start setting)) ≡ true) (started_bots (start setting))
unfolding start
start-serves setting bot_id = started_with-serves bot_id (bot_tokens setting)

-- ===== src/Notify/Telegram.antt =====
-- crates/pn-notify/src/telegram.rs: the registry of the bots. A teloxide handle is its token.
use text.Mathlib.Text.{get?, find?}
use poly_notifier.Common.{
  ℕ, ℤ, String, ◌<>◌, string_eq, Option, none, some, List, [], map, length, get_elem?,
}
use poly_notifier.Common.Dict.{Dict, get, insert}
use poly_notifier.Store.Rows.{err, other}
use poly_notifier.Store.World.{Exec, World, telegram_send}

pub record BotRegistry : Type 0 where
  pub bots : Dict String String

-- BotRegistry::new
unfoldable pub new_registry : BotRegistry
new_registry = record { bots = [] }

abbrev or_text : String → Option String → String
or_text text none = text
or_text text (some t) = t

-- token.split(':').next().unwrap_or(token)
abbrev up_to : String → Option ℕ → String
up_to token none = token
up_to token (some i) = or_text token (get? token 0 i)

unfoldable pub bot_id_of : String → String
bot_id_of token = up_to token (find? token ":")

unfoldable pub register : BotRegistry → String → BotRegistry
unfolding bot_id_of insert
register r token = record { bots = insert (bot_id_of token) token r.bots }

-- BotRegistry::get
unfoldable pub get_bot : BotRegistry → String → Option String
unfolding get
get_bot r bot_id = get bot_id r.bots

unfoldable bot_ids : BotRegistry → List String
bot_ids r = map (λ e. e.0) r.bots

unfoldable first_bot_id : BotRegistry → Option String
first_bot_id r = get_elem? (map (λ e. e.0) r.bots) 0

unfoldable len : BotRegistry → ℕ
len r = length r.bots

-- A bot that is not registered sends nothing.
unfoldable pub send_by : Option String → String → ℤ → String → Exec World (Unit {0})
send_by none bot_id chat_id text w =
    (err (other ("bot '" <> bot_id <> "' not found in registry")), w)
send_by (some bot) bot_id chat_id text w = telegram_send bot_id chat_id text w

unfoldable pub send_message : BotRegistry → String → ℤ → String → Exec World (Unit {0})
unfolding send_by get_bot
send_message r bot_id chat_id text = send_by (get_bot r bot_id) bot_id chat_id text

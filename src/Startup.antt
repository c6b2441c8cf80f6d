-- ===== src/Startup.antt =====
-- crates/poly-notifier/src/main.rs: the tokens of the bots, the registry and the bots that are started.
pub mod Registered
use Prim.Native.Char.{Char, code}
use Prim.Native.String
use Prim.Native.String.{◌∷◌}
use poly_notifier.Common.{
  ℕ, String, ◌==◌, string_eq, Bool, not, Option, none, some, List, [], map, keep, nat_beq,
  if◌then◌else◌,
}
use poly_notifier.Common.Texts.{trim, trim_start, trim_end}
use poly_notifier.Store.Rows.{Result, ok, err, other}
use poly_notifier.Notify.Telegram.{BotRegistry, new_registry, register, bot_id_of}

abbrev onto_first : Char → List String → List String
onto_first c [] = List.◌∷◌ (String.◌∷◌ c "") []
onto_first c (List.◌∷◌ part parts) = List.◌∷◌ (String.◌∷◌ c part) parts

-- s.split(separator)
unfoldable pub split : Char → String → List String
split separator String.[] = List.◌∷◌ "" []
split separator (String.◌∷◌ c s) =
    let rest = split separator s in
    if nat_beq (code c) (code separator) then List.◌∷◌ "" rest else onto_first c rest

-- env::var("TELEGRAM_BOT_TOKENS").unwrap_or_default()
abbrev or_blank : Option String → String
or_blank none = ""
or_blank (some text) = text

-- The parts between commas that are not blank, trimmed.
unfoldable pub bot_tokens : Option String → List String
unfolding split trim_start trim_end
bot_tokens setting = map trim (keep (λ s. not (trim s == "")) (split "," (or_blank setting)))

-- for token in &bot_tokens { bot_registry.register(token) }
unfoldable pub register_all : List String → BotRegistry → BotRegistry
unfolding register
register_all [] r = r
register_all (List.◌∷◌ token tokens) r = register_all tokens (register r token)

-- A bot that is started: its id and its token. `split(':').next()` is never None.
abbrev pub started : String → String × String
started token = (bot_id_of token, token)

abbrev pub started_with : List String → Result (BotRegistry × List (String × String))
started_with [] = err (other "TELEGRAM_BOT_TOKENS environment variable is required")
started_with (List.◌∷◌ token tokens) =
    ok (register_all (List.◌∷◌ token tokens) new_registry, map started (List.◌∷◌ token tokens))

-- The registry of the notification service and the bots that are spawned, or the refusal to start.
unfoldable pub start : Option String → Result (BotRegistry × List (String × String))
unfolding bot_tokens register_all new_registry
start setting = started_with (bot_tokens setting)

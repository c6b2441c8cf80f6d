-- ===== src/Examples/Tokens.antt =====
-- The setting of the bot tokens and the theorem of Startup/Registered.
use poly_notifier.Common.{String, ◌≡◌, refl, Option, none, some, [], ◌∷◌, All, is_some, true}
use poly_notifier.Startup.{bot_tokens, start, split}
use poly_notifier.Startup.Registered.{latest, handle, started_bots, start-serves}
use poly_notifier.Common.Texts.{trim_start, trim_end}
use poly_notifier.Notify.Telegram.{bot_id_of}

-- Two tokens of one bot, a blank part and another bot.
abbrev setting : Option String
setting = some " 7:old,, 8:x ,7:new"

bot_tokens_test : bot_tokens setting ≡ "7:old" ∷ "8:x" ∷ "7:new" ∷ []
unfolding bot_tokens split trim_start trim_end
bot_tokens_test = refl

started_test : started_bots (start setting) ≡ ("7", "7:old") ∷ ("8", "8:x") ∷ ("7", "7:new") ∷ []
unfolding start bot_tokens split trim_start trim_end bot_id_of
started_test = refl

start-serves_example :
    (handle "7" (start setting) ≡ latest "7" none (bot_tokens setting))
    × All (λ b. is_some (handle b.0 (start setting)) ≡ true) (started_bots (start setting))
start-serves_example = start-serves setting "7"

latest_test : latest "7" none ("7:old" ∷ "8:x" ∷ "7:new" ∷ []) ≡ some "7:new"
unfolding bot_id_of
latest_test = refl

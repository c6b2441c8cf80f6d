-- ===== src/Bot.antt =====
-- crates/pn-bot: the dialogues, the command handlers and the routing of updates of one Telegram bot.
pub mod State
pub mod Keyboards
pub mod Rows
pub mod Dialogues
pub mod Handlers
pub mod Dispatch
pub mod Effects
pub mod Moves
pub mod Taps
pub mod Removal
pub mod Subscribing

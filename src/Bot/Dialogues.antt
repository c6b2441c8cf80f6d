-- ===== src/Bot/Dialogues.antt =====
-- crates/pn-bot/src/dialogues.rs: what the subscribe flow and the alert flow share.
pub mod Subscribe
pub mod Alert
use Prim.Native.Char.{Char, code}
use poly_notifier.Common.{
  ℕ, ℤ, String, ◌==◌, string_eq, ◌<>◌, Bool, true, false, ◌&&◌, ◌||◌, Option, none, some, List,
  if◌then◌else◌, nat_beq, get_elem?,
}
use poly_notifier.Common.Int.{as_usize}
use poly_notifier.Common.Texts.{strip_prefix, trim, behind, before}
use poly_notifier.Common.Numerals.{show_ℤ, parse_usize, parse_i64}
use poly_notifier.Store.Rows.{F64}
use poly_notifier.Interfaces.{FloatOps}
use poly_notifier.Store.World.{Exec, pure, ◌>>=◌, ◌>>◌}
use poly_notifier.Bot.State.{DialogueState, Sender, BotDeps, Session, update_dialogue, say}
use poly_notifier.Bot.Rows.{is_alert_type}

-- The characters / ? #
abbrev ends_slug : Char → Bool
ends_slug c = nat_beq (code c) 47 || (nat_beq (code c) 63 || nat_beq (code c) 35)

abbrev nonempty : String → Option String
nonempty s = if s == "" then none else some s

abbrev slug_of : Option String → Option String
unfolding before
slug_of none = none
slug_of (some after) = nonempty (before ends_slug after)

unfoldable pub extract_slug_from_url : String → Option String
unfolding slug_of behind
extract_slug_from_url text = slug_of (behind "/event/" (trim text))

-- outcomes.get(outcome_index as usize), or the number itself
abbrev or_outcome : ℤ → Option String → String
or_outcome outcome_index none = "Outcome " <> show_ℤ outcome_index
or_outcome outcome_index (some label) = label

unfoldable pub outcome_label : List String → ℤ → String
unfolding show_ℤ
outcome_label outcomes outcome_index =
    or_outcome outcome_index (get_elem? outcomes (as_usize outcome_index))

-- data.strip_prefix(p).and_then(|s| s.parse().ok())
abbrev pub parsed {ℓ} : {A : Type ℓ} → (String → Option A) → Option String → Option A
parsed parse none = none
parsed parse (some s) = parse s

unfoldable pub tapped_index : String → String → Option ℕ
unfolding strip_prefix parse_usize
tapped_index prefix text = parsed parse_usize (strip_prefix prefix text)

unfoldable pub tapped_id : String → String → Option ℤ
unfolding strip_prefix parse_i64
tapped_id prefix text = parsed parse_i64 (strip_prefix prefix text)

abbrev pub valid_type : String → Option String
valid_type t = if is_alert_type t then some t else none

unfoldable pub tapped_alert_type : String → Option String
unfolding strip_prefix
tapped_alert_type text = parsed valid_type (strip_prefix "alert_type:" text)

unfoldable pub threshold_prompt : String → String
threshold_prompt alert_type =
    if alert_type == "above"
    then "Enter the price threshold (0–100%). Alert fires when price rises ABOVE it:"
    else if alert_type == "below"
    then "Enter the price threshold (0–100%). Alert fires when price falls BELOW it:"
    else "Enter the price threshold (0–100%). Alert fires when price CROSSES it:"

-- The percentage that the user types.
pub data Percentage : Type 0 where
  valid : (pct : F64) → Percentage
  out_of_range invalid : Percentage

module _ (n : FloatOps) where
  abbrev pub ranged : Option F64 → Percentage
  ranged none = invalid
  ranged (some pct) =
      if n.le (n.number 0) pct && n.le pct (n.number 100) then valid pct else out_of_range

  unfoldable pub read_percentage : String → Percentage
  read_percentage text = ranged (n.parse_f64 text)

module _ (b : BotDeps) where
  unfoldable pub percentage_of :
      ℤ → (F64 → Exec Session (Unit {0})) → Percentage → Exec Session (Unit {0})
  percentage_of chat f (valid pct) = f pct
  percentage_of chat f out_of_range = say b chat "Threshold must be between 0 and 100. Try again:"
  percentage_of chat f invalid = say b chat "Invalid number. Please enter a value like 70:"

  -- The message as a percentage, or the complaint that it is none.
  unfoldable pub with_percentage :
      ℤ → Option String → (F64 → Exec Session (Unit {0})) → Exec Session (Unit {0})
  unfolding percentage_of read_percentage
  with_percentage chat none f = say b chat "Please send a number (e.g. 70)."
  with_percentage chat (some text) f = percentage_of chat f (read_percentage b.float (trim text))

  -- The sender of the message, without whom nothing happens.
  abbrev pub with_sender :
      Option Sender → (Sender → Exec Session (Unit {0})) → Exec Session (Unit {0})
  with_sender none f = pure tt
  with_sender (some sender) f = f sender

  -- The tapped alert type, and the wait for its threshold.
  unfoldable pub ask_threshold :
      ℤ → Option ℤ → (String → DialogueState) → Option String → Exec Session (Unit {0})
  unfolding update_dialogue threshold_prompt
  ask_threshold key chat next none = pure tt
  ask_threshold key none next (some alert_type) = pure tt
  ask_threshold key (some chat) next (some alert_type) = do
    say b chat (threshold_prompt alert_type)
    update_dialogue key (next alert_type)

  abbrev pub threshold_of : F64 → F64
  threshold_of pct = b.float.div pct (b.float.number 100)

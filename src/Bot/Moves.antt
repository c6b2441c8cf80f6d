-- ===== src/Bot/Moves.antt =====
-- The conversations as a graph: which state may follow which, and the rules for actions that keep to it.
pub mod Dialogues
pub mod Thresholds
pub mod Handlers
pub mod Updates
use mathlib.Core.Path.{subst}
use poly_notifier.Common.{
  ℕ, ℤ, String, ◌==◌, int_eq, int_beq_iff, beq_refl, ◌≡◌, refl, sym, ap, ◌∙◌, Bool, true, false,
  ◌⊎◌, inl, inr, Option, none, some, List, [], ◌∷◌, map, take, get_elem?, Bool-cases,
}
use poly_notifier.Common.Dict.{Dict, get, insert, get-insert}
use poly_notifier.Store.Rows.{F64, Result, ok, err}
use poly_notifier.Store.World.{World, Exec, pure, attempt, ◌>>=◌}
use poly_notifier.Store.Triples.{
  After, Triple, Triple-pure, Triple-bind, Triple-attempt, Triple-weaken, Triple-before,
  Triple-same,
}
use poly_notifier.Common.Texts.{trim}
use poly_notifier.Polymarket.Types.{GammaMarket}
use poly_notifier.Bot.Dialogues.{
  parsed, tapped_index, tapped_id, tapped_alert_type, extract_slug_from_url, read_percentage, valid,
}
use poly_notifier.Bot.Dialogues.Subscribe.{option_of}
use poly_notifier.Bot.State
use poly_notifier.Bot.State.{
  Message, Command, CallbackQuery, Update, message, callback_query, MarketOption, DialogueState,
  idle, awaiting_url, awaiting_market_selection, awaiting_outcome_selection,
  awaiting_subscribe_alert_type, awaiting_subscribe_alert_threshold, awaiting_alert_subscription,
  awaiting_alert_type, awaiting_alert_threshold, Keyboard, BotDeps, Session, in_world,
  update_dialogue, state_or_idle, say, say_with, answer_callback_query,
}
use poly_notifier.Bot.Rows.{is_alert_type}

-- The answer of the Gamma service that a text asks for.
abbrev pub found_for : BotDeps → String → Option String → ℕ → Result (List GammaMarket)
found_for b text (some slug) = b.get_market_by_slug slug
found_for b text none = b.search_markets text

-- The markets are the first ten of an answer to the text of the message.
pub record Offers (b : BotDeps) (msg : Message) (ms : List MarketOption) : Type 0 where
  pub text : String
  pub said : msg.text ≡ some text
  pub found : List GammaMarket
  pub call : ℕ
  pub answer : found_for b (trim text) (extract_slug_from_url (trim text)) call ≡ ok found
  pub first_ten : ms ≡ map (option_of b) (take 10 found)

-- The message is a percentage from 0 to 100.
abbrev pub IsPercentage : BotDeps → Message → Type 0
IsPercentage b msg =
    (text : String) × (pct : F64) × (msg.text ≡ some text)
    × (read_percentage b.float (trim text) ≡ valid pct)

-- The message is plain text in the chat, or that command; the button was tapped in the chat.
abbrev pub Says : BotDeps → ℤ → Message → Option Command → Type 0
Says b chat msg command = (msg.chat_id ≡ chat) × (b.parse_command msg ≡ command)

abbrev pub TappedIn : ℤ → CallbackQuery → Type 0
TappedIn chat q = q.chat ≡ some chat

-- One step of the conversation of a chat, by the update that takes it. The commands /subscribe and
-- /alert start anew from any state.
pub data Edge (b : BotDeps) (chat : ℤ) : Update → DialogueState → DialogueState → Type 0 where
  begin_subscribe :
      (msg : Message) (st : DialogueState)
      → Says b chat msg (some State.subscribe)
      → Edge b chat (message msg) st awaiting_url
  begin_alert :
      (msg : Message) (st : DialogueState)
      → Says b chat msg (some State.alert)
      → Edge b chat (message msg) st awaiting_alert_subscription
  markets_found :
      (msg : Message) (ms : List MarketOption)
      → Says b chat msg none
      → Offers b msg ms
      → Edge b chat (message msg) awaiting_url (awaiting_market_selection ms)
  market_found :
      (msg : Message) (m : MarketOption)
      → Says b chat msg none
      → Offers b msg (m ∷ [])
      → Edge b chat (message msg) awaiting_url (awaiting_outcome_selection m)
  market_tapped :
      (q : CallbackQuery) (ms : List MarketOption) (m : MarketOption) (i : ℕ)
      → TappedIn chat q
      → parsed (tapped_index "market:") q.data_text ≡ some i
      → get_elem? ms i ≡ some m
      → Edge b chat (callback_query q) (awaiting_market_selection ms) (awaiting_outcome_selection m)
  market_missed :
      (q : CallbackQuery) (ms : List MarketOption) (i : ℕ)
      → TappedIn chat q
      → parsed (tapped_index "market:") q.data_text ≡ some i
      → get_elem? ms i ≡ none
      → Edge b chat (callback_query q) (awaiting_market_selection ms) idle
  outcome_chosen :
      (q : CallbackQuery) (m : MarketOption) (i : ℤ)
      → TappedIn chat q
      → parsed (tapped_id "outcome:") q.data_text ≡ some i
      → Edge b chat
          (callback_query q)
          (awaiting_outcome_selection m)
          (awaiting_subscribe_alert_type m i)
  subscribe_type_chosen :
      (q : CallbackQuery) (m : MarketOption) (i : ℤ) (t : String)
      → TappedIn chat q
      → parsed tapped_alert_type q.data_text ≡ some t
      → is_alert_type t ≡ true
      → Edge b chat
          (callback_query q)
          (awaiting_subscribe_alert_type m i)
          (awaiting_subscribe_alert_threshold m i t)
  subscribe_done :
      (msg : Message) (m : MarketOption) (i : ℤ) (t : String)
      → Says b chat msg none
      → IsPercentage b msg
      → Edge b chat (message msg) (awaiting_subscribe_alert_threshold m i t) idle
  subscription_chosen :
      (q : CallbackQuery) (id : ℤ) (question : String)
      → TappedIn chat q
      → parsed (tapped_id "sub:") q.data_text ≡ some id
      → Edge b chat (callback_query q) awaiting_alert_subscription (awaiting_alert_type id question)
  subscription_missed :
      (q : CallbackQuery) (id : ℤ)
      → TappedIn chat q
      → parsed (tapped_id "sub:") q.data_text ≡ some id
      → Edge b chat (callback_query q) awaiting_alert_subscription idle
  type_chosen :
      (q : CallbackQuery) (id : ℤ) (question t : String)
      → TappedIn chat q
      → parsed tapped_alert_type q.data_text ≡ some t
      → is_alert_type t ≡ true
      → Edge b chat
          (callback_query q)
          (awaiting_alert_type id question)
          (awaiting_alert_threshold id question t)
  alert_done :
      (msg : Message) (id : ℤ) (question t : String)
      → Says b chat msg none
      → IsPercentage b msg
      → Edge b chat (message msg) (awaiting_alert_threshold id question t) idle

-- What the updates make of the conversation: each of them takes one step or none.
pub data Walk (b : BotDeps) (chat : ℤ) : List Update → DialogueState → DialogueState → Type 0 where
  rest : (st : DialogueState) → Walk b chat [] st st
  stay :
      (u : Update) (us : List Update) (st st' : DialogueState)
      → Walk b chat us st st'
      → Walk b chat (u ∷ us) st st'
  walk :
      (u : Update) (us : List Update) (st st' st'' : DialogueState)
      → Edge b chat u st st'
      → Walk b chat us st' st''
      → Walk b chat (u ∷ us) st st''

abbrev pub Dialogues : Type 0
Dialogues = Dict ℤ DialogueState

abbrev pub state_in : ℤ → Dialogues → DialogueState
state_in chat ds = state_or_idle (get chat ds)

abbrev pub dialogues_of : Session → Dialogues
dialogues_of s = s.dialogues

-- Every chat keeps its state or takes one step.
abbrev pub Moved : BotDeps → Update → Dialogues → Dialogues → Type 0
Moved b u ds v =
    (chat : ℤ)
    → (state_in chat v ≡ state_in chat ds) ⊎ Edge b chat u (state_in chat ds) (state_in chat v)

module _ (b : BotDeps) (u : Update) (ds : Dialogues) where
  abbrev pub Still : Dialogues → Type 0
  Still v = v ≡ ds

  -- An action that changes no conversation, and one that may move one.
  abbrev pub Quiet : {A : Type 0} → Exec Session A → Type 0
  Quiet m = Triple dialogues_of Still m (λ a. Still) (Moved b u ds)

  abbrev pub Moves : {A : Type 0} → Exec Session A → Type 0
  Moves m = Triple dialogues_of Still m (λ a. Moved b u ds) (Moved b u ds)

  pub Still-Moved : (v : Dialogues) → Still v → Moved b u ds v
  Still-Moved v e chat = inl (ap (state_in chat) e)

  pub quietly : {A : Type 0} (m : Exec World A) → Quiet (in_world m)
  unfolding in_world
  quietly m = Triple-weaken (λ a v p. p) Still-Moved (Triple-same λ s. refl)

  pub pure-Quiet : {A : Type 0} (a : A) → Quiet (pure a)
  pure-Quiet a = Triple-pure a λ v p. p

  settled : {A : Type 0} (r : Result A) (v : Dialogues) → After (λ a. Still) Still r v → Still v
  unfolding After
  settled (ok a) v p = p
  settled (err e) v p = p

  pub attempt-Quiet : {A : Type 0} (m : Exec World A) → Quiet (attempt (in_world m))
  unfolding in_world
  attempt-Quiet m = Triple-weaken settled Still-Moved (Triple-attempt (Triple-same λ s. refl))

  pub Quiet-Moves : {A : Type 0} {m : Exec Session A} → Quiet m → Moves m
  Quiet-Moves h = Triple-weaken (λ a. Still-Moved) (λ v p. p) h

  pub say_with-Quiet : (chat : ℤ) (text : String) (kb : Keyboard) → Quiet (say_with b chat text kb)
  say_with-Quiet chat text kb =
      Triple-bind (quietly _) λ a. Triple-weaken (λ a v p. p) Still-Moved (Triple-same λ s. refl)

  at_key :
      (key : ℤ) (st : DialogueState)
      → Edge b key u (state_in key ds) st
      → Edge b key u (state_in key ds) (state_in key (insert key st ds))
  at_key key st e = rw (get-insert key key st ds, beq_refl key) e

  inserted :
      (key : ℤ) (st : DialogueState)
      → Edge b key u (state_in key ds) st
      → Moved b u ds (insert key st ds)
  inserted key st e chat = elim (Bool-cases (key == chat)) [
    | inl same ↦ inr (
        subst (λ c. Edge b c u (state_in c ds) (state_in c (insert key st ds)))
          ((int_beq_iff key chat).0 same) (at_key key st e))
    | inr other ↦ inl (rw (get-insert key chat st ds, other) refl)
  ]

  -- The end of a handler: the conversation of the chat takes a step.
  pub moving :
      (key : ℤ) (st : DialogueState)
      → Edge b key u (state_in key ds) st
      → Moves (update_dialogue key st)
  unfolding update_dialogue After
  moving key st e = record {
    at = λ s p. subst (λ v. Moved b u ds (insert key st v)) (sym p) (inserted key st e);
  }

  -- What comes after the step.
  pub carried_on :
      {A : Type 0} (m : Exec World A)
      → Triple dialogues_of (Moved b u ds) (in_world m) (λ a. Moved b u ds) (Moved b u ds)
  unfolding in_world
  carried_on m = Triple-same λ s. refl

  -- What is known of a result besides the conversations.
  pub knowing :
      {A : Type 0} {K : Type 0} {m : Exec Session A}
      → (K → Moves m)
      → Triple dialogues_of (λ v. Still v × K) m (λ a. Moved b u ds) (Moved b u ds)
  knowing h = record { at = λ s p. (h p.1).at s p.0 }

-- ===== src/Bot/Effects/Dialogues.antt =====
-- dialogues.rs: the handlers of the conversations do only what the bot may do to the rows.
use poly_notifier.Common.{
  ℕ, ℤ, String, ◌==◌, string_eq, refl, Option, none, some, List, [], ◌∷◌, Bool-cases, inl, inr,
  get_elem?, map, take,
}
use poly_notifier.Common.Texts.{trim}
use poly_notifier.Store.Rows.{Result, ok, err}
use poly_notifier.Store.World.{Db, Exec, pure, attempt}
use poly_notifier.Store.Triples.{
  After, Triple, Triple-pure, Triple-bind, Triple-attempt, Triple-weaken, Triple-same, Triple-ask,
  Triple-request, Triple-telegram,
}
use poly_notifier.Polymarket.Types.{GammaMarket}
use poly_notifier.Bot.State.{
  MarketOption, DialogueState, Message, CallbackQuery, Keyboard, BotDeps, Session, update_dialogue,
  say, say_with, answer_callback_query,
}
use poly_notifier.Bot.Dialogues.{ask_threshold, extract_slug_from_url}
use poly_notifier.Bot.Dialogues.Subscribe.{
  handle_subscribe_start, option_of, offer_outcomes, offer_markets, show_found, look_up, search,
  url_text, handle_url_input, pick_market, market_at, handle_market_selection, outcome_tapped,
  handle_outcome_selection, handle_subscribe_alert_type_selection,
}
use poly_notifier.Bot.Effects.{rows_of_session, Triple-in_world, From}

module _ (b : BotDeps) where
  module _ (P : Db → Type 0) where
    pub Triple-say :
        (chat : ℤ) (text : String) → Triple rows_of_session P (say b chat text) (λ a. P) P
    Triple-say chat text = Triple-in_world (Triple-telegram P b.bot_id chat text)

    pub Triple-say_with :
        (chat : ℤ) (text : String) (kb : Keyboard)
        → Triple rows_of_session P (say_with b chat text kb) (λ a. P) P
    Triple-say_with chat text kb = Triple-bind (Triple-say chat text) λ a. Triple-same λ s. refl

    pub Triple-update :
        (chat : ℤ) (st : DialogueState)
        → Triple rows_of_session P (update_dialogue chat st) (λ a. P) P
    unfolding update_dialogue
    Triple-update chat st = Triple-same λ s. refl

    pub Triple-answer : Triple rows_of_session P answer_callback_query (λ a. P) P
    Triple-answer = Triple-in_world (Triple-request P)

  module _ (d₀ : Db) where
    -- An action of a conversation that does only what the bot may do.
    abbrev pub Stays : {A : Type 0} → Exec Session A → Type 0
    Stays m = Triple rows_of_session (From b d₀) m (λ a. From b d₀) (From b d₀)

    abbrev F : Db → Type 0
    F = From b d₀

    pub done : Stays {A = Unit {0}} (pure tt)
    done = Triple-pure tt λ d p. p

    pub handle_subscribe_start-Stays : (msg : Message) → Stays (handle_subscribe_start b msg)
    unfolding handle_subscribe_start
    handle_subscribe_start-Stays msg =
        Triple-bind (Triple-update F msg.chat_id _) λ a. Triple-say F msg.chat_id _

    offer_outcomes-Stays : (chat : ℤ) (m : MarketOption) → Stays (offer_outcomes b chat m)
    unfolding offer_outcomes
    offer_outcomes-Stays chat m =
        Triple-bind (Triple-say_with F chat _ _) λ a. Triple-update F chat _

    offer_markets-Stays : (chat : ℤ) (ms : List MarketOption) → Stays (offer_markets b chat ms)
    unfolding offer_markets
    offer_markets-Stays chat [] =
        Triple-bind (Triple-say_with F chat _ _) λ a. Triple-update F chat _
    offer_markets-Stays chat (m ∷ []) = offer_outcomes-Stays chat m
    offer_markets-Stays chat (m ∷ n ∷ ms) =
        Triple-bind (Triple-say_with F chat _ _) λ a. Triple-update F chat _

    show_found-Stays : (chat : ℤ) (r : Result (List GammaMarket)) → Stays (show_found b chat r)
    unfolding show_found
    show_found-Stays chat (err e) = Triple-say F chat _
    show_found-Stays chat (ok []) = Triple-say F chat _
    show_found-Stays chat (ok (m ∷ ms)) =
        offer_markets-Stays chat (map (option_of b) (take 10 (m ∷ ms)))

    look_up-Stays : (text : String) (o : Option String) → Stays (look_up b text o)
    look_up-Stays text none = Triple-in_world (Triple-ask F _)
    look_up-Stays text (some slug) = Triple-in_world (Triple-ask F _)

    settled : {A : Type 0} (r : Result A) (d : Db) → After (λ a. F) F r d → F d
    unfolding After
    settled (ok a) d p = p
    settled (err e) d p = p

    -- The outcome of an action that stays may be looked at.
    pub attempt-Stays : {A : Type 0} {m : Exec Session A} → Stays m → Stays (attempt m)
    attempt-Stays h = Triple-weaken settled (λ d p. p) (Triple-attempt h)

    search-Stays : (chat : ℤ) (text : String) → Stays (search b chat text)
    unfolding search
    search-Stays chat text = Triple-bind (Triple-say F chat _) λ a.
        Triple-bind (attempt-Stays (look_up-Stays text (extract_slug_from_url text)))
          λ r. show_found-Stays chat r

    url_text-Stays : (chat : ℤ) (o : Option String) → Stays (url_text b chat o)
    unfolding url_text
    url_text-Stays chat none = Triple-say F chat _
    url_text-Stays chat (some text) = elim (Bool-cases (trim text == "")) [
      | inl empty ↦ rw empty (Triple-say F chat _)
      | inr query ↦ rw query (search-Stays chat (trim text))
    ]

    pub handle_url_input-Stays : (msg : Message) → Stays (handle_url_input b msg)
    unfolding handle_url_input
    handle_url_input-Stays msg = url_text-Stays msg.chat_id msg.text

    pick_market-Stays :
        (key : ℤ) (chat : Option ℤ) (o : Option MarketOption) → Stays (pick_market b key chat o)
    unfolding pick_market
    pick_market-Stays key none none = Triple-update F key _
    pick_market-Stays key (some chat) none =
        Triple-bind (Triple-say F chat _) λ a. Triple-update F key _
    pick_market-Stays key none (some m) = done
    pick_market-Stays key (some chat) (some m) = offer_outcomes-Stays chat m

    market_at-Stays :
        (key : ℤ) (chat : Option ℤ) (ms : List MarketOption) (o : Option ℕ)
        → Stays (market_at b key chat ms o)
    unfolding market_at
    market_at-Stays key chat ms none = done
    market_at-Stays key chat ms (some i) = pick_market-Stays key chat (get_elem? ms i)

    pub handle_market_selection-Stays :
        (key : ℤ) (q : CallbackQuery) (ms : List MarketOption)
        → Stays (handle_market_selection b key q ms)
    unfolding handle_market_selection
    handle_market_selection-Stays key q ms =
        Triple-bind (Triple-answer F) λ a. market_at-Stays key q.chat ms _

    outcome_tapped-Stays :
        (key : ℤ) (chat : Option ℤ) (m : MarketOption) (o : Option ℤ)
        → Stays (outcome_tapped b key chat m o)
    unfolding outcome_tapped
    outcome_tapped-Stays key chat m none = done
    outcome_tapped-Stays key none m (some i) = done
    outcome_tapped-Stays key (some chat) m (some i) =
        Triple-bind (Triple-say_with F chat _ _) λ a. Triple-update F key _

    pub handle_outcome_selection-Stays :
        (key : ℤ) (q : CallbackQuery) (m : MarketOption)
        → Stays (handle_outcome_selection b key q m)
    unfolding handle_outcome_selection
    handle_outcome_selection-Stays key q m =
        Triple-bind (Triple-answer F) λ a. outcome_tapped-Stays key q.chat m _

    pub ask_threshold-Stays :
        (key : ℤ) (chat : Option ℤ) (next : String → DialogueState) (o : Option String)
        → Stays (ask_threshold b key chat next o)
    unfolding ask_threshold
    ask_threshold-Stays key chat next none = done
    ask_threshold-Stays key none next (some t) = done
    ask_threshold-Stays key (some chat) next (some t) =
        Triple-bind (Triple-say F chat _) λ a. Triple-update F key _

    pub handle_subscribe_alert_type_selection-Stays :
        (key : ℤ) (q : CallbackQuery) (m : MarketOption) (i : ℤ)
        → Stays (handle_subscribe_alert_type_selection b key q m i)
    unfolding handle_subscribe_alert_type_selection
    handle_subscribe_alert_type_selection-Stays key q m i =
        Triple-bind (Triple-answer F) λ a. ask_threshold-Stays key q.chat _ _

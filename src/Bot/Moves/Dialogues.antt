-- ===== src/Bot/Moves/Dialogues.antt =====
-- dialogues.rs: the handlers of the conversations take the steps of the graph.
use mathlib.Core.Path.{subst}
use poly_notifier.Common.{
  sym, ◌∙◌, ℕ, ℤ, String, ◌==◌, string_eq, ◌≡◌, refl, true, Option, none, some, List, [], ◌∷◌,
  Bool-cases, inl, inr, get_elem?, guarded, nothing, map, take,
}
use poly_notifier.Common.Texts.{trim}
use poly_notifier.Store.Rows.{Result, ok, err}
use poly_notifier.Store.World.{Exec, pure, attempt, ask, ◌>>=◌, ◌>>◌}
use poly_notifier.Store.Triples.{Triple, After, Triple-bind}
use poly_notifier.Polymarket.Types.{GammaMarket}
use poly_notifier.Bot.State
use poly_notifier.Bot.State.{
  message, callback_query, Session, in_world, answer_callback_query, MarketOption, DialogueState,
  idle, awaiting_url, awaiting_market_selection, awaiting_outcome_selection,
  awaiting_subscribe_alert_type, awaiting_alert_type, Message, CallbackQuery, Update, BotDeps,
}
use poly_notifier.Bot.Rows.{is_alert_type}
use poly_notifier.Bot.Dialogues.{
  ask_threshold, extract_slug_from_url, tapped_alert_type, parsed, valid_type,
}
use poly_notifier.Common.Texts.{strip_prefix}
use poly_notifier.Bot.Dialogues.Subscribe.{
  handle_subscribe_start, option_of, offer_outcomes, offer_markets, show_found, look_up, search,
  url_text, handle_url_input, pick_market, market_at, handle_market_selection, outcome_tapped,
  handle_outcome_selection, handle_subscribe_alert_type_selection,
}
use poly_notifier.Bot.Dialogues.Alert.{handle_alert_type_selection}
use poly_notifier.Bot.Moves.{
  Edge, begin_subscribe, markets_found, market_found, market_tapped, market_missed, outcome_chosen,
  subscribe_type_chosen, type_chosen, Dialogues, state_in, Moves, quietly, pure-Quiet, Quiet-Moves,
  say_with-Quiet, moving, carried_on, Offers, found_for, TappedIn, Still, Moved, dialogues_of,
  knowing,
}

module _ (b : BotDeps) (u : Update) (ds : Dialogues) where
  still : {A : Type 0} (a : A) → Moves b u ds (pure a)
  still a = Quiet-Moves b u ds (pure-Quiet b u ds a)

  offer_outcomes-Moves :
      (chat : ℤ) (m : MarketOption)
      → Edge b chat u (state_in chat ds) (awaiting_outcome_selection m)
      → Moves b u ds (offer_outcomes b chat m)
  unfolding offer_outcomes
  offer_outcomes-Moves chat m e =
      Triple-bind (say_with-Quiet b u ds chat _ _) λ a. moving b u ds chat _ e

  offer_markets-Moves :
      (chat : ℤ) (ms : List MarketOption)
      → Edge b chat u (state_in chat ds) (awaiting_market_selection ms)
      → ((m : MarketOption)
          → ms ≡ m ∷ []
          → Edge b chat u (state_in chat ds) (awaiting_outcome_selection m))
      → Moves b u ds (offer_markets b chat ms)
  unfolding offer_markets
  offer_markets-Moves chat [] many one =
      Triple-bind (say_with-Quiet b u ds chat _ _) λ a. moving b u ds chat _ many
  offer_markets-Moves chat (m ∷ []) many one = offer_outcomes-Moves chat m (one m refl)
  offer_markets-Moves chat (m ∷ n ∷ ms) many one =
      Triple-bind (say_with-Quiet b u ds chat _ _) λ a. moving b u ds chat _ many

  -- The tapped place, if there is one, is a market of the list.
  pick_market-Moves :
      (key : ℤ) (chat : Option ℤ) (o : Option MarketOption)
      → ((m : MarketOption)
          → o ≡ some m
          → Edge b key u (state_in key ds) (awaiting_outcome_selection m))
      → (o ≡ none → Edge b key u (state_in key ds) idle)
      → ((c : ℤ) → chat ≡ some c → c ≡ key)
      → Moves b u ds (pick_market b key chat o)
  unfolding pick_market
  pick_market-Moves key none none hit miss k = moving b u ds key idle (miss refl)
  pick_market-Moves key (some chat) none hit miss k =
      Triple-bind (quietly b u ds _) λ a. moving b u ds key idle (miss refl)
  pick_market-Moves key none (some m) hit miss k = still tt
  pick_market-Moves key (some chat) (some m) hit miss k = offer_outcomes-Moves chat m (
      subst (λ c. Edge b c u (state_in c ds) (awaiting_outcome_selection m)) (sym (k chat refl))
        (hit m refl))

  market_at-Moves :
      (key : ℤ) (chat : Option ℤ) (ms : List MarketOption) (o : Option ℕ)
      → ((i : ℕ) (m : MarketOption)
          → o ≡ some i
          → get_elem? ms i ≡ some m
          → Edge b key u (state_in key ds) (awaiting_outcome_selection m))
      → ((i : ℕ) → o ≡ some i → get_elem? ms i ≡ none → Edge b key u (state_in key ds) idle)
      → ((c : ℤ) → chat ≡ some c → c ≡ key)
      → Moves b u ds (market_at b key chat ms o)
  unfolding market_at
  market_at-Moves key chat ms none hit miss k = still tt
  market_at-Moves key chat ms (some i) hit miss k =
      pick_market-Moves key chat (get_elem? ms i) (λ m. hit i m refl) (miss i refl) k

  outcome_tapped-Moves :
      (key : ℤ) (chat : Option ℤ) (m : MarketOption) (o : Option ℤ)
      → ((i : ℤ) → o ≡ some i → Edge b key u (state_in key ds) (awaiting_subscribe_alert_type m i))
      → Moves b u ds (outcome_tapped b key chat m o)
  unfolding outcome_tapped
  outcome_tapped-Moves key chat m none e = still tt
  outcome_tapped-Moves key none m (some i) e = still tt
  outcome_tapped-Moves key (some chat) m (some i) e =
      Triple-bind (say_with-Quiet b u ds chat _ _) λ a. moving b u ds key _ (e i refl)

  ask_threshold-Moves :
      (key : ℤ) (chat : Option ℤ) (next : String → DialogueState) (o : Option String)
      → ((t : String) → o ≡ some t → Edge b key u (state_in key ds) (next t))
      → Moves b u ds (ask_threshold b key chat next o)
  unfolding ask_threshold
  ask_threshold-Moves key chat next none h = still tt
  ask_threshold-Moves key none next (some t) h = still tt
  ask_threshold-Moves key (some chat) next (some t) h =
      Triple-bind (quietly b u ds _) λ a. moving b u ds key _ (h t refl)

-- Only the three types that the engine knows are taken.
parsed-some :
    (f : String → Option String) (o : Option String) (t : String)
    → ((s t : String) → f s ≡ some t → is_alert_type t ≡ true)
    → parsed f o ≡ some t
    → is_alert_type t ≡ true
parsed-some f none t k h = elim (nothing t h) [ ]
parsed-some f (some s) t k h = k s t h

tapped_type :
    (o : Option String) (t : String) → parsed tapped_alert_type o ≡ some t → is_alert_type t ≡ true
unfolding tapped_alert_type
tapped_type o t h =
    parsed-some tapped_alert_type o t
      (λ s t k. parsed-some valid_type (strip_prefix "alert_type:" s) t (guarded is_alert_type) k) h

module _ (b : BotDeps) (ds : Dialogues) where
  -- What the conversation of a chat may do on plain text, or on a button.
  module _ (msg : Message) (plain : b.parse_command msg ≡ none)
      (url : state_in msg.chat_id ds ≡ awaiting_url) where
    many_found :
        (ms : List MarketOption)
        → Offers b msg ms
        → Edge b msg.chat_id (message msg) (state_in msg.chat_id ds) (awaiting_market_selection ms)
    many_found ms o = rw url (markets_found msg ms (refl, plain) o)

    one_found :
        (m : MarketOption)
        → Offers b msg (m ∷ [])
        → Edge b msg.chat_id (message msg) (state_in msg.chat_id ds) (awaiting_outcome_selection m)
    one_found m o = rw url (market_found msg m (refl, plain) o)

    show_found-Moves :
        (r : Result (List GammaMarket))
        → ((found : List GammaMarket)
            → r ≡ ok found
            → Offers b msg (map (option_of b) (take 10 found)))
        → Moves b (message msg) ds (show_found b msg.chat_id r)
    unfolding show_found
    show_found-Moves (err x) offers = Quiet-Moves b (message msg) ds (quietly b (message msg) ds _)
    show_found-Moves (ok []) offers = Quiet-Moves b (message msg) ds (quietly b (message msg) ds _)
    show_found-Moves (ok (m ∷ ms)) offers =
        offer_markets-Moves b (message msg) ds msg.chat_id (map (option_of b) (take 10 (m ∷ ms)))
          (many_found _ (offers (m ∷ ms) refl))
          (λ n single. one_found n (subst (Offers b msg) single (offers (m ∷ ms) refl)))

    -- The answer, by the number of the call that it answers.
    abbrev Answers : String → Option String → Result (List GammaMarket) → Type 0
    Answers text o r = (i : ℕ) × (found_for b text o i ≡ r)

    looked_up :
        (text : String) (o : Option String)
        → Triple dialogues_of
            (Still b (message msg) ds)
            (attempt (look_up b text o))
            (λ r v. Still b (message msg) ds v × Answers text o r)
            (Moved b (message msg) ds)
    unfolding in_world ask After ◌>>=◌
    looked_up text none = record { at = λ s p. (p, (s.calls, refl)) }
    looked_up text (some slug) = record { at = λ s p. (p, (s.calls, refl)) }

    search-Moves :
        (text : String)
        → msg.text ≡ some text
        → Moves b (message msg) ds (search b msg.chat_id (trim text))
    unfolding search
    search-Moves text said = Triple-bind (quietly b (message msg) ds _) λ a.
        Triple-bind (looked_up (trim text) (extract_slug_from_url (trim text))) λ r.
          knowing b (message msg) ds λ known. show_found-Moves r λ found is_ok. record {
            text = text;
            said = said;
            found = found;
            call = known.0;
            answer = known.1 ∙ is_ok;
            first_ten = refl;
          }

    url_text-Moves :
        (o : Option String) → msg.text ≡ o → Moves b (message msg) ds (url_text b msg.chat_id o)
    unfolding url_text
    url_text-Moves none said = Quiet-Moves b (message msg) ds (quietly b (message msg) ds _)
    url_text-Moves (some text) said = elim (Bool-cases (trim text == "")) [
      | inl empty ↦ rw empty (Quiet-Moves b (message msg) ds (quietly b (message msg) ds _))
      | inr query ↦ rw query (search-Moves text said)
    ]

    pub handle_url_input-Moves : Moves b (message msg) ds (handle_url_input b msg)
    unfolding handle_url_input
    handle_url_input-Moves = url_text-Moves msg.text refl

  pub handle_subscribe_start-Moves :
      (msg : Message)
      → b.parse_command msg ≡ some State.subscribe
      → Moves b (message msg) ds (handle_subscribe_start b msg)
  unfolding handle_subscribe_start
  handle_subscribe_start-Moves msg command =
      Triple-bind
        (moving b (message msg) ds msg.chat_id awaiting_url (begin_subscribe msg _ (refl, command)))
        λ a. carried_on b (message msg) ds _

  module _ (key : ℤ) (q : CallbackQuery) (tap : TappedIn key q) where
    -- A tap is answered before anything else.
    answered :
        (m : Exec Session (Unit {0}))
        → Moves b (callback_query q) ds m
        → Moves b (callback_query q) ds (answer_callback_query >> m)
    answered m h = Triple-bind (quietly b (callback_query q) ds _) λ a. h

    pub handle_market_selection-Moves :
        (ms : List MarketOption)
        → state_in key ds ≡ awaiting_market_selection ms
        → ((c : ℤ) → q.chat ≡ some c → c ≡ key)
        → Moves b (callback_query q) ds (handle_market_selection b key q ms)
    unfolding handle_market_selection
    handle_market_selection-Moves ms e k = answered _ (
        market_at-Moves b (callback_query q) ds key q.chat ms _
          (λ i m place there_is. rw e (market_tapped q ms m i tap place there_is))
          (λ i place missing. rw e (market_missed q ms i tap place missing)) k)

    pub handle_outcome_selection-Moves :
        (m : MarketOption)
        → state_in key ds ≡ awaiting_outcome_selection m
        → Moves b (callback_query q) ds (handle_outcome_selection b key q m)
    unfolding handle_outcome_selection
    handle_outcome_selection-Moves m e = answered _ (
        outcome_tapped-Moves b (callback_query q) ds key q.chat m _
          (λ i place. rw e (outcome_chosen q m i tap place)))

    pub handle_subscribe_alert_type_selection-Moves :
        (m : MarketOption) (i : ℤ)
        → state_in key ds ≡ awaiting_subscribe_alert_type m i
        → Moves b (callback_query q) ds (handle_subscribe_alert_type_selection b key q m i)
    unfolding handle_subscribe_alert_type_selection
    handle_subscribe_alert_type_selection-Moves m i e = answered _ (
        ask_threshold-Moves b (callback_query q) ds key q.chat _ _
          (λ t h. rw e (subscribe_type_chosen q m i t tap h (tapped_type q.data_text t h))))

    pub handle_alert_type_selection-Moves :
        (id : ℤ) (question : String)
        → state_in key ds ≡ awaiting_alert_type id question
        → Moves b (callback_query q) ds (handle_alert_type_selection b key q id question)
    unfolding handle_alert_type_selection
    handle_alert_type_selection-Moves id question e = answered _ (
        ask_threshold-Moves b (callback_query q) ds key q.chat _ _
          (λ t h. rw e (type_chosen q id question t tap h (tapped_type q.data_text t h))))

-- ===== src/Lib.antt =====
-- poly-notifier, a Telegram service that watches Polymarket prices: a monitor keeps a connection for
-- the tokens of the active subscriptions and broadcasts their prices, an alert engine compares each
-- price with the rules of its token and queues notifications, and a notification service delivers
-- the queue through Telegram bots within a rate limit and logs what it did. All of them share one
-- SQLite database.
--
-- The parts, and the files that model them:
--   crates/pn-common/src/models.rs, error.rs, events.rs: Store/Rows, Store/Columns (the JSON columns of
--     a market) and Store/Events
--   crates/pn-common/src/db.rs, migrations/: Store/Users, Markets, Subscriptions, Alerts and Logs,
--     one function for each query helper, with the constraints of the tables
--   crates/pn-alert/src/rules.rs: Alert/Rules (evaluate)
--   crates/pn-alert/src/dedup.rs: Alert/Dedup (can_fire, mark_fired, load_from_alerts)
--   crates/pn-alert/src/engine.rs: Alert/Engine (the state), its Refresh (refresh_cache), Flush
--     (flush_prices_to_db), Handle (handle_price_update) and Run (run)
--   crates/pn-notify/src/rate_limiter.rs: Notify/RateLimiter (check_and_consume)
--   crates/pn-notify/src/telegram.rs: Notify/Telegram (register, send_message)
--   crates/pn-notify/src/service.rs: Notify/Service (handle, send_with_retries, log_attempt, run)
--   crates/pn-monitor/src/aggregator.rs: Monitor/Aggregator
--   crates/pn-monitor/src/manager.rs: Monitor/Manager (run, calculate_backoff)
--   crates/pn-monitor/src/service.rs: Monitor/Service (run)
--   crates/pn-polymarket/src/types.rs, gamma.rs, clob.rs, ws.rs: Polymarket/Types, Gamma, Clob and Ws
--     (run; its Parsing has parse_ws_message), and Http for the requests that the clients share
--   crates/pn-scheduler/src/daily_summary.rs: Scheduler/Summary (the query, the groups, format_summary)
--     and Scheduler/Job (send_summaries, run)
--   crates/pn-admin/src/handlers.rs: Admin/Handlers (update_tier, update_limit, list_users) and its
--     Reports (list_feedback, get_stats)
--   crates/pn-admin/src/auth.rs, routes.rs: Admin/Auth (auth_middleware), Admin/Routes (build_router)
--   crates/pn-bot/src/dialogues.rs: Bot/State (DialogueState, the sessions of the chats), Bot/Dialogues
--     and its Subscribe and Alert (the handlers of the two flows), Bot/Rows (their SQL statements)
--   crates/pn-bot/src/keyboards.rs: Bot/Keyboards
--   crates/pn-bot/src/handlers.rs: Bot/Handlers and its Lists (/list and /prices)
--   crates/pn-bot/src/lib.rs, commands.rs: Bot/Dispatch (schema, dispatch_callback, the dispatcher)
--   crates/poly-notifier/src/main.rs: Startup (the tokens, the registry, the bots that are started)
--   Pipeline: the engine and the notification service one after the other
--   Examples: the theorems at concrete inputs
--
-- Store/World is what the parts share: the tables, the clock, the messages that Telegram accepted
-- and the notification channel. A call of the outside world is numbered, and an environment says for
-- each number what the clock reads and whether the database, Telegram or the channel refuses; a
-- statement about every environment covers every pattern of failures. An operation is a function
-- from a state to a result and a state. The loops of the services take the list of what
-- `tokio::select!` hands to them. A table is a list of rows, a DashMap or HashMap a list of pairs,
-- a HashSet a list without repetition; times are nanoseconds.
--
-- rust_decimal, serde_json and chrono's formatting are parameters (Interfaces); f64 is its bit
-- pattern. The loops are structural on the events, on the attempts that are left (send_from, which
-- starts with MAX_RETRIES) or on the pauses before a cancellation (retry), so that none needs fuel.
-- A u32 counter is a natural number where a theorem bounds it, and saturates where the source does.
--
-- The bot is about two relations: Bot/Effects says what the bot may do to the rows (Effect),
-- Bot/Moves which state of a conversation an update may make of which (Edge); the proofs go along
-- the handlers by the rules of Store/Triples. The answers of the Gamma and CLOB services, the parser
-- of commands and the arithmetic of f64 are parameters (BotDeps). The updates of a bot are handled
-- one after another, as the dispatcher does for the updates of one chat; two chats whose handlers
-- interleave are not modelled. InMemStorage is a map from chats to states.
--
-- The clients of Polymarket stand on what the libraries below them answer: reqwest's answer to a request
-- by the number of the call, serde_json's values, tungstenite's messages as the list that the loop is
-- handed. A receiver that is dropped is one that has taken a given number of events. The requests that
-- join_all starts together have consecutive numbers. The daily summary goes through the users in the
-- order of their ids, where the HashMap of the source leaves the order open. A request of the
-- administrator comes with the route that axum matches it to.
--
-- Not modelled: the configuration (deserialisation by the config crate), init_db, and the rest of
-- main.rs, which wires the services together and waits for the signal to stop. What BotDeps says of
-- the web services is not tied to the models of the clients. Logging and pauses change no state and
-- are left out.
pub mod Common
pub mod Store
pub mod Interfaces
pub mod Polymarket
pub mod Alert
pub mod Notify
pub mod Monitor
pub mod Scheduler
pub mod Admin
pub mod Bot
pub mod Startup
pub mod Pipeline
pub mod Examples

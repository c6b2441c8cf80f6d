-- ===== src/Polymarket/Ws.antt =====
-- crates/pn-polymarket/src/ws.rs: the loop of a connection. The socket is a parameter: what connecting
-- and sending the subscription answer, and what the loop is handed.
pub mod Parsing
pub mod Forwards
pub mod Reports
use poly_notifier.Common.{
  ℕ, ◌+◌, String, string_eq, Bool, List, [], ◌∷◌, ◌++◌, length, ltb, if◌then◌else◌,
}
use poly_notifier.Store.Rows.{Error, Result, ok, err}
use poly_notifier.Polymarket.Types.{WsEvent}
use poly_notifier.Polymarket.Http.{context}
use poly_notifier.Polymarket.Ws.Parsing.{WsOps, build_subscribe_message, parse_ws_message}

-- tungstenite's Message, as far as the loop tells them apart
pub data Message : Type 0 where
  text ping pong : String → Message
  close other : Message

-- What `tokio::select!` hands to the loop: the cancellation, a tick of the ping timer and whether the
-- ping can be sent, the end of the stream, a read error or a message.
pub data Input : Type 0 where
  cancelled closed read_error : Input
  ping_tick : Bool → Input
  incoming : Message → Input

module _ (o : WsOps) where
  abbrev pub Event : Type 0
  Event = WsEvent o.decimal

  -- What a connection wrote to the socket and sent to the channel of events.
  pub record Progress : Type 0 where
    pub written : List Message
    pub forwarded : List Event

  -- The loop waits for more, or `run` has returned.
  pub data Status : Type 0 where
    waiting returned : Progress → Status
    failed : Error → Status

  -- event_tx.send for each event. The receiver is dropped when it has got `room` events; the first
  -- event after that leaves `run`.
  unfoldable pub forward : ℕ → List Event → Progress → Status
  forward room [] p = waiting p
  forward room (event ∷ events) p =
      let rest = forward room events (record p { forwarded = p.forwarded ++ event ∷ [] }) in
      if ltb (length p.forwarded) room then rest else returned p

  abbrev pub write : Message → Progress → Progress
  write m p = record p { written = p.written ++ m ∷ [] }

  unfoldable pub handle_message : ℕ → Message → Progress → Status
  unfolding forward parse_ws_message
  handle_message room (text t) p = forward room (parse_ws_message o t) p
  handle_message room (ping payload) p = waiting (write (pong payload) p)
  handle_message room (pong payload) p = waiting p
  handle_message room close p = returned p
  handle_message room other p = waiting p

  unfoldable pub handle_input : ℕ → Input → Progress → Status
  unfolding handle_message
  handle_input room cancelled p = returned (write close p)
  handle_input room closed p = returned p
  handle_input room read_error p = returned p
  handle_input room (ping_tick sent) p = if sent then waiting (write (ping "") p) else returned p
  handle_input room (incoming m) p = handle_message room m p

  unfoldable pub loop : ℕ → List Input → Status → Status
  unfolding handle_input
  loop room inputs (returned p) = returned p
  loop room inputs (failed e) = failed e
  loop room [] (waiting p) = waiting p
  loop room (input ∷ inputs) (waiting p) = loop room inputs (handle_input room input p)

  -- The subscription goes out before the loop starts.
  abbrev pub subscribed : List String → Result (Unit {0}) → Status
  subscribed token_ids (err e) = failed e
  subscribed token_ids (ok _) =
      waiting (record { written = text (build_subscribe_message o token_ids) ∷ []; forwarded = [] })

  abbrev pub connected : List String → Result (Unit {0}) → Result (Unit {0}) → Status
  connected token_ids (err e) sending = failed e
  connected token_ids (ok _) sending =
      subscribed token_ids (context "failed to send subscribe message" sending)

  -- With what connecting and sending the subscription answer.
  unfoldable pub run : ℕ → List String → Result (Unit {0}) → Result (Unit {0}) → List Input → Status
  unfolding loop build_subscribe_message
  run room token_ids connecting sending inputs =
      loop room inputs (connected token_ids (context "WebSocket connect failed" connecting) sending)

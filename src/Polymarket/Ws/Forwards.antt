-- ===== src/Polymarket/Ws/Forwards.antt =====
-- ws.rs: which events a connection forwards.
use poly_notifier.Common.{
  ℕ, zero, suc, ◌≤◌, String, ◌≡◌, refl, sym, ap, ◌∙◌, true, false, List, [], ◌∷◌, ◌++◌, length,
  take, flat_map, ltb, arith, Bool-cases, inl, inr,
}
use mathlib.Core.List.{append_assoc}
use poly_notifier.Store.Rows.{ok}
use poly_notifier.Polymarket.Ws.Parsing.{WsOps, parse_ws_message}
use poly_notifier.Polymarket.Ws.{
  Event, text, ping, pong, close, other, Input, cancelled, closed, read_error, ping_tick, incoming,
  Progress, Status, waiting, returned, failed, forward, handle_message, handle_input, loop, write,
  run,
}

-- The text frames before the first input that ends the loop.
abbrev pub texts_before_end : List Input → List String
texts_before_end [] = []
texts_before_end (cancelled ∷ inputs) = []
texts_before_end (closed ∷ inputs) = []
texts_before_end (read_error ∷ inputs) = []
texts_before_end (ping_tick false ∷ inputs) = []
texts_before_end (ping_tick true ∷ inputs) = texts_before_end inputs
texts_before_end (incoming (text t) ∷ inputs) = t ∷ texts_before_end inputs
texts_before_end (incoming (ping payload) ∷ inputs) = texts_before_end inputs
texts_before_end (incoming (pong payload) ∷ inputs) = texts_before_end inputs
texts_before_end (incoming close ∷ inputs) = []
texts_before_end (incoming other ∷ inputs) = texts_before_end inputs

module _ {A : Type 0} where
  take-full : (n : ℕ) (xs ys : List A) → n ≡ length xs → take n (xs ++ ys) ≡ xs
  take-full zero [] ys h = refl
  take-full (suc n) [] ys h = ground (arith, h)
  take-full zero (x ∷ xs) ys h = ground (arith, h)
  take-full (suc n) (x ∷ xs) ys h = ap (λ r. x ∷ r) (take-full n xs ys (omega arith))

  take-all : (n : ℕ) (xs : List A) → length xs ≤ n → take n (xs ++ []) ≡ xs
  take-all zero [] h = refl
  take-all (suc n) [] h = refl
  take-all zero (x ∷ xs) h = ground (arith, h)
  take-all (suc n) (x ∷ xs) h = ap (λ r. x ∷ r) (take-all n xs (omega arith))

  length-one_more : (xs : List A) (x : A) → length (xs ++ x ∷ []) ≡ suc (length xs)
  length-one_more [] x = refl
  length-one_more (y ∷ xs) x = ap suc (length-one_more xs x)

module _ (o : WsOps) where
  abbrev pub sent_by : Status o → List (Event o)
  sent_by (waiting p) = p.forwarded
  sent_by (returned p) = p.forwarded
  sent_by (failed e) = []

  loop-returned :
      (room : ℕ) (inputs : List Input) (p : Progress o)
      → loop o room inputs (returned p) ≡ returned p
  unfolding loop
  loop-returned room [] p = refl
  loop-returned room (input ∷ inputs) p = refl

  -- What is forwarded of the events of one frame and of the rest.
  loop-forward :
      (room : ℕ) (inputs : List Input) (more : List (Event o))
      → ((p : Progress o)
          → length p.forwarded ≤ room
          → sent_by (loop o room inputs (waiting p)) ≡ take room (p.forwarded ++ more))
      → (events : List (Event o)) (p : Progress o) → length p.forwarded ≤ room
      → sent_by (loop o room inputs (forward o room events p))
        ≡ take room (p.forwarded ++ (events ++ more))
  unfolding forward
  loop-forward room inputs more rest [] p h = rest p h
  loop-forward room inputs more rest (event ∷ events) p h =
      elim (Bool-cases (ltb (length p.forwarded) room)) [
        | inl fits ↦
            let p' : Progress o = record p { forwarded = p.forwarded ++ event ∷ [] } in
            rw fits (
              loop-forward room inputs more rest events p'
                (ground (arith, fits, length-one_more p.forwarded event))
              ∙ ap (take room) (append_assoc p.forwarded (event ∷ []) (events ++ more)))
        | inr full ↦ rw full (
            ap sent_by (loop-returned room inputs p)
            ∙ sym (take-full room p.forwarded (event ∷ (events ++ more)) (ground (arith, full, h))))
      ]

  abbrev all_of : List Input → List (Event o)
  all_of inputs = flat_map (parse_ws_message o) (texts_before_end inputs)

  -- An input that ends the loop.
  ended :
      (room : ℕ) (inputs : List Input) (p : Progress o)
      → length p.forwarded ≤ room
      → sent_by (loop o room inputs (returned p)) ≡ take room (p.forwarded ++ [])
  ended room inputs p h =
      ap sent_by (loop-returned room inputs p) ∙ sym (take-all room p.forwarded h)

  loop-forwards :
      (room : ℕ) (inputs : List Input) (p : Progress o)
      → length p.forwarded ≤ room
      → sent_by (loop o room inputs (waiting p)) ≡ take room (p.forwarded ++ all_of inputs)
  unfolding loop handle_input handle_message
  loop-forwards room [] p h = sym (take-all room p.forwarded h)
  loop-forwards room (cancelled ∷ inputs) p h = ended room inputs (write o close p) h
  loop-forwards room (closed ∷ inputs) p h = ended room inputs p h
  loop-forwards room (read_error ∷ inputs) p h = ended room inputs p h
  loop-forwards room (ping_tick false ∷ inputs) p h = ended room inputs p h
  loop-forwards room (ping_tick true ∷ inputs) p h =
      loop-forwards room inputs (write o (ping "") p) h
  loop-forwards room (incoming (text t) ∷ inputs) p h =
      loop-forward room inputs (all_of inputs) (loop-forwards room inputs) (parse_ws_message o t) p
        h
  loop-forwards room (incoming (ping payload) ∷ inputs) p h =
      loop-forwards room inputs (write o (pong payload) p) h
  loop-forwards room (incoming (pong payload) ∷ inputs) p h = loop-forwards room inputs p h
  loop-forwards room (incoming close ∷ inputs) p h = ended room inputs p h
  loop-forwards room (incoming other ∷ inputs) p h = loop-forwards room inputs p h

  -- A connection that comes up forwards exactly the events of the text frames that it reads before
  -- the first input that ends it (a cancellation, the end of the stream, a read error, a ping that
  -- cannot be sent or a close frame), in their order and each once, up to as many as its receiver
  -- takes.
  pub run-forwards :
      (room : ℕ) (token_ids : List String) (inputs : List Input)
      → sent_by (run o room token_ids (ok tt) (ok tt) inputs)
        ≡ take room (flat_map (parse_ws_message o) (texts_before_end inputs))
  unfolding run
  run-forwards room token_ids inputs = loop-forwards room inputs _ (omega arith)

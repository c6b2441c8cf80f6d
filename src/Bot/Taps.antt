-- ===== src/Bot/Taps.antt =====
-- keyboards.rs against dialogues.rs and lib.rs: what a tapped button says is what the handlers read.
use poly_notifier.Common.{
  ℕ, zero, suc, ◌+◌, ◌<◌, ◌≤◌, ◌^◌, ℤ, pos, String, ◌<>◌, ◌≡◌, refl, ap, ◌∙◌, Option, none, some,
  List, [], ◌∷◌, map, length, get_elem?, All, arith,
}
use poly_notifier.Common.Int.{pos_part, neg_part}
use poly_notifier.Common.Texts.{strip_prefix-append}
use poly_notifier.Common.Numerals.{
  show_ℕ, show_ℤ, parse_usize-show_ℕ, parse_i64-show_ℕ, parse_i64-show_ℤ,
}
use poly_notifier.Bot.State.{MarketOption, Button, Keyboard}
use poly_notifier.Bot.Keyboards.{
  button, enumerated, truncate, market_list_keyboard, outcome_keyboard, subscription_list_keyboard,
  unsubscribe_keyboard,
}
use poly_notifier.Bot.Dialogues.{parsed, tapped_index, tapped_id}

-- What the first button of a row carries.
abbrev first_data : Option (List Button) → Option String
first_data none = none
first_data (some []) = none
first_data (some (x ∷ row)) = some x.callback_data

abbrev pub row_data : ℕ → Keyboard → Option String
row_data i kb = first_data (get_elem? kb i)

no_place : (i : ℕ) → i < 0 → ⊥
no_place i h = omega arith

enumerated-row_data {ℓ} :
    {A : Type ℓ} (label : A → String) (prefix : String) (k i : ℕ) (xs : List A)
    → i < length xs
    → row_data i (enumerated (λ j x. button (label x) (prefix <> show_ℕ j) ∷ []) k xs)
      ≡ some (prefix <> show_ℕ (k + i))
enumerated-row_data label prefix k i [] h = elim (no_place i h) [ ]
enumerated-row_data label prefix k zero (x ∷ xs) h =
    ap (λ n. some (prefix <> show_ℕ n)) (omega arith)
enumerated-row_data label prefix k (suc i) (x ∷ xs) h =
    enumerated-row_data label prefix (suc k) i xs (omega arith)
    ∙ ap (λ n. some (prefix <> show_ℕ n)) (omega arith)

tapped_index-show :
    (prefix : String) (i : ℕ) → i < 2 ^ 64 → tapped_index prefix (prefix <> show_ℕ i) ≡ some i
unfolding tapped_index
tapped_index-show prefix i h = rw (strip_prefix-append prefix (show_ℕ i)) (parse_usize-show_ℕ i h)

tapped_id-show :
    (prefix : String) (i : ℕ) → i < 2 ^ 63 → tapped_id prefix (prefix <> show_ℕ i) ≡ some (pos i)
unfolding tapped_id
tapped_id-show prefix i h = rw (strip_prefix-append prefix (show_ℕ i)) (parse_i64-show_ℕ i h)

-- The numbers of an i64.
abbrev pub IsI64 : ℤ → Type 0
IsI64 z = (pos_part z < 2 ^ 63) × (neg_part z ≤ 2 ^ 63)

pub tapped_id-show_ℤ :
    (prefix : String) (z : ℤ) → IsI64 z → tapped_id prefix (prefix <> show_ℤ z) ≡ some z
unfolding tapped_id
tapped_id-show_ℤ prefix z h =
    rw (strip_prefix-append prefix (show_ℤ z)) (parse_i64-show_ℤ z h.0 h.1)

-- For a list of fewer than 2^64 markets and of fewer than 2^63 outcomes, row i of the keyboard of the
-- markets carries data that the handler of market selections reads as the index i, and row i of the
-- keyboard of the outcomes data that the handler of outcome selections reads as the index i.
pub keyboards-tapped_index :
    (markets : List MarketOption) (outcomes : List String) (i j : ℕ)
    → i < length markets
    → length markets < 2 ^ 64
    → j < length outcomes
    → length outcomes < 2 ^ 63
    → (parsed (tapped_index "market:") (row_data i (market_list_keyboard markets)) ≡ some i)
      × (parsed (tapped_id "outcome:") (row_data j (outcome_keyboard outcomes)) ≡ some (pos j))
unfolding market_list_keyboard outcome_keyboard
keyboards-tapped_index markets outcomes i j h small k few = (
  ap (parsed (tapped_index "market:"))
        (enumerated-row_data (λ m. truncate m.question) "market:" 0 i markets h)
      ∙ tapped_index-show "market:" (0 + i) (omega arith)
      ∙ ap some (omega arith),
  ap (parsed (tapped_id "outcome:"))
        (enumerated-row_data (λ label. label) "outcome:" 0 j outcomes k)
      ∙ tapped_id-show "outcome:" (0 + j) (omega arith)
      ∙ ap (λ n. some (pos n)) (omega arith),
)

-- What every row of a keyboard says, read by a handler.
abbrev pub read_rows : String → Keyboard → List (Option ℤ)
read_rows prefix kb = map (λ row. parsed (tapped_id prefix) (first_data (some row))) kb

rows_read :
    (prefix : String) (items : List (ℤ × String))
    → All (λ it. IsI64 it.0) items
    → read_rows prefix
        (map (λ (id, label). button (truncate label) (prefix <> show_ℤ id) ∷ []) items)
      ≡ map (λ it. some it.0) items
rows_read prefix [] h = refl
rows_read prefix (it ∷ items) h =
    rw (tapped_id-show_ℤ prefix it.0 h.0, rows_read prefix items h.1) refl

-- For subscription ids that are i64 values, the rows of the keyboards of /alert and /unsubscribe carry
-- data that their handlers read as the ids of the listed subscriptions, row by row.
pub keyboards-read_rows :
    (items : List (ℤ × String))
    → All (λ it. IsI64 it.0) items
    → (read_rows "sub:" (subscription_list_keyboard items) ≡ map (λ it. some it.0) items)
      × (read_rows "unsub:" (unsubscribe_keyboard items) ≡ map (λ it. some it.0) items)
unfolding subscription_list_keyboard unsubscribe_keyboard
keyboards-read_rows items h = (rows_read "sub:" items h, rows_read "unsub:" items h)

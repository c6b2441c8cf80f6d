-- ===== src/Common/Numerals.antt =====
-- The decimal numerals of `Display` and `FromStr` for usize and i64, which read back what they print.
use Prim.Native.Nat.{ℕ, zero, suc, ◌+◌, ◌-◌, ◌*◌, ◌/◌, ◌%◌, ◌^◌, ◌<◌, ◌≤◌}
use Prim.Native.Char.{Char, code}
use Prim.Native.String.{String, ◌∷◌}
use mathlib.Core.Path.{subst, ◌≡◌, refl, sym, ap, ◌∙◌}
use mathlib.Core.Bool.{Bool, true, false, ◌&&◌}
use mathlib.Core.Logic.{inl, inr}
use mathlib.Core.Option.{Option, none, some}
use native.Mathlib.Omega.{arith}
use poly_notifier.Common.Tests.{ltb, leb, if◌then◌else◌, Bool-cases}
use poly_notifier.Common.Int.{ℤ, pos, negsuc, neg_part, pos_part}
use poly_notifier.Common.Texts.{strip_prefix}

-- The digit of a number below 10.
unfoldable digit_char : ℕ → Char
digit_char zero = "0"
digit_char (suc zero) = "1"
digit_char (suc (suc zero)) = "2"
digit_char (suc (suc (suc zero))) = "3"
digit_char (suc (suc (suc (suc zero)))) = "4"
digit_char (suc (suc (suc (suc (suc zero))))) = "5"
digit_char (suc (suc (suc (suc (suc (suc zero)))))) = "6"
digit_char (suc (suc (suc (suc (suc (suc (suc zero))))))) = "7"
digit_char (suc (suc (suc (suc (suc (suc (suc (suc zero)))))))) = "8"
digit_char _ = "9"

-- The digits of n in front of a text, where the fuel is above n.
unfoldable show_fuel : ℕ → ℕ → String → String
unfolding digit_char
show_fuel zero n after = after
show_fuel (suc fuel) n after = elim (ltb n 10) [
  | true ↦ digit_char n ∷ after
  | false ↦ show_fuel fuel (n / 10) (digit_char (n % 10) ∷ after)
]

-- Display for usize
unfoldable pub show_ℕ : ℕ → String
unfolding show_fuel
show_ℕ n = show_fuel (suc n) n ""

-- Display for i64
unfoldable pub show_ℤ : ℤ → String
unfolding show_ℕ
show_ℤ (pos n) = show_ℕ n
show_ℤ (negsuc n) = "-" ∷ show_ℕ (suc n)

abbrev is_digit : ℕ → Bool
is_digit n = leb 48 n && leb n 57

unfoldable parse_digits : ℕ → String → Option ℕ
parse_digits acc String.[] = some acc
parse_digits acc (String.◌∷◌ c s) =
    let rest = parse_digits (acc * 10 + (code c - 48)) s in if is_digit (code c) then rest else none

-- One digit or more.
unfoldable pub parse_number : String → Option ℕ
unfolding parse_digits
parse_number String.[] = none
parse_number (String.◌∷◌ c s) = parse_digits 0 (c ∷ s)

abbrev below : ℕ → ℕ → Option ℕ
below bound n = if ltb n bound then some n else none

abbrev checked {ℓ} : {A : Type ℓ} → (ℕ → Option A) → Option ℕ → Option A
checked f none = none
checked f (some n) = f n

-- The text that is left behind a sign, or the whole text without one.
abbrev unsigned : String → Option String → String
unsigned s none = s
unsigned s (some rest) = rest

-- str::parse::<usize>() on a 64-bit target, which takes one leading plus sign.
unfoldable pub parse_usize : String → Option ℕ
unfolding strip_prefix parse_number
parse_usize s = checked (below (2 ^ 64)) (parse_number (unsigned s (strip_prefix "+" s)))

abbrev positive : ℕ → Option ℤ
positive n = if ltb n (2 ^ 63) then some (pos n) else none

abbrev negative : ℕ → Option ℤ
negative zero = some (pos 0)
negative (suc n) = if ltb n (2 ^ 63) then some (negsuc n) else none

abbrev signed : String → Option String → Option ℤ
signed s none = checked positive (parse_number (unsigned s (strip_prefix "+" s)))
signed s (some rest) = checked negative (parse_number rest)

-- str::parse::<i64>(), which takes one leading sign.
unfoldable pub parse_i64 : String → Option ℤ
unfolding strip_prefix parse_number
parse_i64 s = signed s (strip_prefix "-" s)

-- What the lemmas need of the digits below 10.
absurd_below : (n : ℕ) → n < 0 → ⊥
absurd_below n h = omega arith

code-digit_char : (n : ℕ) → n < 10 → code (digit_char n) ≡ 48 + n
unfolding digit_char
code-digit_char zero h = refl
code-digit_char (suc zero) h = refl
code-digit_char (suc (suc zero)) h = refl
code-digit_char (suc (suc (suc zero))) h = refl
code-digit_char (suc (suc (suc (suc zero)))) h = refl
code-digit_char (suc (suc (suc (suc (suc zero))))) h = refl
code-digit_char (suc (suc (suc (suc (suc (suc zero)))))) h = refl
code-digit_char (suc (suc (suc (suc (suc (suc (suc zero))))))) h = refl
code-digit_char (suc (suc (suc (suc (suc (suc (suc (suc zero)))))))) h = refl
code-digit_char (suc (suc (suc (suc (suc (suc (suc (suc (suc n))))))))) h = omega arith

is_digit-digit : (n : ℕ) → n < 10 → is_digit (48 + n) ≡ true
is_digit-digit n h = ground (arith, h)

minus_base : (n : ℕ) → 48 + n - 48 ≡ n
minus_base n = omega arith

parse_digits-digit :
    (acc n : ℕ) (s : String)
    → n < 10
    → parse_digits acc (digit_char n ∷ s) ≡ parse_digits (acc * 10 + n) s
unfolding parse_digits
parse_digits-digit acc n s h = rw (code-digit_char n h, is_digit-digit n h, minus_base n) refl

first_digit : (n : ℕ) → 0 * 10 + n ≡ n
first_digit n = omega arith

last_digit : (n : ℕ) → n / 10 * 10 + n % 10 ≡ n
last_digit n = omega arith

show_fuel-one :
    (fuel n : ℕ) (s : String) → ltb n 10 ≡ true → show_fuel (suc fuel) n s ≡ digit_char n ∷ s
unfolding show_fuel
show_fuel-one fuel n s small = rw (small, show_fuel) refl

show_fuel-more :
    (fuel n : ℕ) (s : String)
    → ltb n 10 ≡ false
    → show_fuel (suc fuel) n s ≡ show_fuel fuel (n / 10) (digit_char (n % 10) ∷ s)
unfolding show_fuel
show_fuel-more fuel n s large = rw (large, show_fuel) refl

parse_digits-show_fuel :
    (fuel n : ℕ) (s : String) → n < fuel → parse_digits 0 (show_fuel fuel n s) ≡ parse_digits n s
parse_digits-show_fuel zero n s h = elim (absurd_below n h) [ ]
parse_digits-show_fuel (suc fuel) n s h = elim (Bool-cases (ltb n 10)) [
  | inl small ↦ rw (show_fuel-one fuel n s small) (
      parse_digits-digit 0 n s (ground (arith, small)) ∙ ap (λ k. parse_digits k s) (first_digit n))
  | inr large ↦ rw (show_fuel-more fuel n s large) (
      parse_digits-show_fuel fuel (n / 10) (digit_char (n % 10) ∷ s) (ground (arith, h, large))
      ∙ parse_digits-digit (n / 10) (n % 10) s (omega arith)
      ∙ ap (λ k. parse_digits k s) (last_digit n))
]

-- What a numeral starts with.
abbrev Starts : String → Type 0
Starts s = (d : ℕ) × (t : String) × (d < 10) × (s ≡ digit_char d ∷ t)

show_fuel-Starts : (fuel n : ℕ) (s : String) → n < fuel → Starts (show_fuel fuel n s)
show_fuel-Starts zero n s h = elim (absurd_below n h) [ ]
show_fuel-Starts (suc fuel) n s h = elim (Bool-cases (ltb n 10)) [
  | inl small ↦ (n, s, ground (arith, small), show_fuel-one fuel n s small)
  | inr large ↦
      subst Starts (sym (show_fuel-more fuel n s large))
        (show_fuel-Starts fuel (n / 10) (digit_char (n % 10) ∷ s) (ground (arith, h, large)))
]

show_ℕ-Starts : (n : ℕ) → Starts (show_ℕ n)
unfolding show_ℕ
show_ℕ-Starts n = show_fuel-Starts (suc n) n "" (omega arith)

-- A sign is no digit.
strip_plus : (s : String) → Starts s → strip_prefix "+" s ≡ none
unfolding strip_prefix
strip_plus s (d, t, h, e) = rw e (rw (code-digit_char d h) (ground (arith, h)))

strip_minus : (s : String) → Starts s → strip_prefix "-" s ≡ none
unfolding strip_prefix
strip_minus s (d, t, h, e) = rw e (rw (code-digit_char d h) (ground (arith, h)))

parse_number-Starts : (s : String) → Starts s → parse_number s ≡ parse_digits 0 s
unfolding parse_number
parse_number-Starts s (d, t, h, e) = rw e refl

parse_number-show_ℕ : (n : ℕ) → parse_number (show_ℕ n) ≡ some n
unfolding show_ℕ parse_digits
parse_number-show_ℕ n =
    parse_number-Starts (show_ℕ n) (show_ℕ-Starts n)
    ∙ parse_digits-show_fuel (suc n) n "" (omega arith)

-- A usize reads back what it prints.
pub parse_usize-show_ℕ : (n : ℕ) → n < 2 ^ 64 → parse_usize (show_ℕ n) ≡ some n
unfolding parse_usize
parse_usize-show_ℕ n h =
    rw (strip_plus (show_ℕ n) (show_ℕ-Starts n), parse_number-show_ℕ n) (ground (arith, h))

pub parse_i64-show_ℕ : (n : ℕ) → n < 2 ^ 63 → parse_i64 (show_ℕ n) ≡ some (pos n)
unfolding parse_i64
parse_i64-show_ℕ n h =
    rw
      (
        strip_minus (show_ℕ n) (show_ℕ-Starts n),
        strip_plus (show_ℕ n) (show_ℕ-Starts n),
        parse_number-show_ℕ n,
      )
      (ground (arith, h))

-- An i64 reads back what it prints.
pub parse_i64-show_ℤ :
    (z : ℤ) → pos_part z < 2 ^ 63 → neg_part z ≤ 2 ^ 63 → parse_i64 (show_ℤ z) ≡ some z
unfolding show_ℤ parse_i64 strip_prefix
parse_i64-show_ℤ (pos n) h k = parse_i64-show_ℕ n h
parse_i64-show_ℤ (negsuc n) h k = rw (parse_number-show_ℕ (suc n)) (ground (arith, k))

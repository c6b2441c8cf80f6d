-- ===== src/Interfaces.antt =====
-- The third-party libraries whose values the code computes with, as interfaces: rust_decimal,
-- serde_json, and the arithmetic of f64, which has no numbers here.
use poly_notifier.Common.{String, ◌≡◌, Bool, true, not, Option, List, ◌⊎◌, ℕ}
use poly_notifier.Store.Rows.{F64}

-- rust_decimal::Decimal
pub record DecimalOps : Type 1 where
  pub Decimal : Type 0
  -- < and <=
  pub lt : Decimal → Decimal → Bool
  pub le : Decimal → Decimal → Bool
  -- Decimal::ZERO and is_zero
  pub zero_price : Decimal
  pub is_zero : Decimal → Bool
  -- Decimal::try_from(f64)
  pub of_f64 : F64 → Option Decimal
  -- Decimal::from_str
  pub from_str : String → Option Decimal
  -- * Decimal::from(100)
  pub percent : Decimal → Decimal
  -- Display
  pub show : Decimal → String
  -- serde_json::to_string of a list
  pub to_json : List Decimal → Option String

-- Decimal implements Ord: its tests are those of one total order of the values.
pub record IsOrdered (n : DecimalOps) : Type 0 where
  pub lt-not-le : (a b : n.Decimal) → n.lt a b ≡ not (n.le b a)
  pub le_trans : (a b c : n.Decimal) → n.le a b ≡ true → n.le b c ≡ true → n.le a c ≡ true
  pub le_total : (a b : n.Decimal) → (n.le a b ≡ true) ⊎ (n.le b a ≡ true)

-- f64. A literal of the source is the number it stands for.
pub record FloatOps : Type 0 where
  pub number : ℕ → F64
  -- str::parse::<f64>()
  pub parse_f64 : String → Option F64
  pub le : F64 → F64 → Bool
  pub div : F64 → F64 → F64
  pub mul : F64 → F64 → F64
  -- {:.0} and {:.1}
  pub show_whole : F64 → String
  pub show_tenths : F64 → String
  -- serde_json::from_str to a list
  pub parse_floats : String → Option (List F64)

-- Division by 100 rounds to nearest, which keeps the order, and 0 / 100 and 100 / 100 are exact.
pub record IsRounding (n : FloatOps) : Type 0 where
  pub div_hundred :
      (p : F64)
      → n.le (n.number 0) p ≡ true
      → n.le p (n.number 100) ≡ true
      → (n.le (n.number 0) (n.div p (n.number 100)) ≡ true)
        × (n.le (n.div p (n.number 100)) (n.number 1) ≡ true)

-- serde_json on lists of strings
pub record JsonOps : Type 0 where
  pub parse_strings : String → Option (List String)
  pub print_strings : List String → String

-- The libraries that the alert engine, the monitor and the scheduler compute with.
pub record Libraries : Type 1 where
  pub decimal : DecimalOps
  pub json : JsonOps
  -- chrono's format("%Y-%m-%d %H:%M:%S UTC")
  pub format_utc : ℕ → String

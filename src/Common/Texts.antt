-- ===== src/Common/Texts.antt =====
-- Text as the standard library of the source reads and writes it: prefixes, white space, and the
-- decimal numbers of `Display` and `FromStr`.
use Prim.Native.Nat.{ℕ, zero, suc}
use Prim.Native.Char.{Char, code}
use Prim.Native.String
use Prim.Native.String.{String, ◌∷◌, ◌++◌ as ◌<>◌}
use text.Mathlib.TextLemmas.{nil-append, cons-append}
use mathlib.Core.Path.{◌≡◌, refl, ap, sym, ◌∙◌}
use native.Mathlib.Omega.{arith}
use text.Mathlib.TextEquality.{Char-path}
use mathlib.Core.Bool.{Bool, true, false, ◌&&◌, ◌||◌}
use mathlib.Core.List.{List, []}
use mathlib.Core.Option.{Option, none, some}
use poly_notifier.Common.Tests.{leb, nat_beq, nat_beq_iff, if◌then◌else◌}

-- s.strip_prefix(p)
unfoldable pub strip_prefix : String → String → Option String
strip_prefix String.[] s = some s
strip_prefix (String.◌∷◌ c p) String.[] = none
strip_prefix (String.◌∷◌ c p) (String.◌∷◌ d s) =
    if nat_beq (code c) (code d) then strip_prefix p s else none

pub strip_prefix-append : (p s : String) → strip_prefix p (String.◌++◌ p s) ≡ some s
unfolding strip_prefix
strip_prefix-append String.[] s = rw (nil-append s) refl
strip_prefix-append (String.◌∷◌ c p) s =
    rw (cons-append c p s, (nat_beq_iff (code c) (code c)).1 refl) (strip_prefix-append p s)

cut_of : (b : Bool) (o : Option String) (s : String) → (if b then o else none) ≡ some s → b ≡ true
cut_of true o s h = refl
cut_of false o s h = ground (arith, h)

-- What is left after a prefix is taken off is what stood behind it.
pub append-strip_prefix : (p s t : String) → strip_prefix p s ≡ some t → s ≡ String.◌++◌ p t
unfolding strip_prefix
append-strip_prefix String.[] s t h = rw (nil-append t) (ground (arith, h))
append-strip_prefix (String.◌∷◌ c p) String.[] t h = ground (arith, h)
append-strip_prefix (String.◌∷◌ c p) (String.◌∷◌ d s) t h =
    let same = cut_of (nat_beq (code c) (code d)) (strip_prefix p s) t h in
    rw (cons-append c p t) (
      ap (λ x. x ∷ s) (sym (Char-path c d ((nat_beq_iff (code c) (code d)).0 same)))
      ∙ ap (λ x. c ∷ x) (append-strip_prefix p s t (rw same at h)))

abbrev or_else {ℓ} : {A : Type ℓ} → Option A → Option A → Option A
or_else none b = b
or_else (some a) b = some a

-- A text that starts with another character does not start with the prefix.
pub strip_prefix-other :
    (c d : Char) (p q s : String)
    → nat_beq (code c) (code d) ≡ false
    → strip_prefix (c ∷ p) (String.◌++◌ (d ∷ q) s) ≡ none
unfolding strip_prefix
strip_prefix-other c d p q s h = rw (cons-append d q s, h) refl

-- char::is_whitespace: the code points of White_Space
abbrev is_whitespace : Char → Bool
is_whitespace c =
    let n = code c in
    (leb 9 n && leb n 13)
    || (nat_beq n 32
        || (nat_beq n 133
            || (nat_beq n 160
                || (nat_beq n 5760
                    || ((leb 8192 n && leb n 8202)
                        || (nat_beq n 8232
                            || (nat_beq n 8233
                                || (nat_beq n 8239 || (nat_beq n 8287 || nat_beq n 12288)))))))))

unfoldable pub trim_start : String → String
trim_start String.[] = ""
trim_start (String.◌∷◌ c s) = let rest = trim_start s in if is_whitespace c then rest else c ∷ s

abbrev is_empty : String → Bool
is_empty String.[] = true
is_empty (String.◌∷◌ c s) = false

unfoldable pub trim_end : String → String
trim_end String.[] = ""
trim_end (String.◌∷◌ c s) =
    let rest = trim_end s in if is_whitespace c && is_empty rest then "" else c ∷ rest

abbrev pub trim : String → String
trim s = trim_end (trim_start s)

-- Whether a character passes a test: str::contains of a set of characters.
abbrev pub any_char : (Char → Bool) → String → Bool
any_char p String.[] = false
any_char p (String.◌∷◌ c s) = p c || any_char p s

-- s.chars().take(n).collect()
unfoldable pub take_chars : ℕ → String → String
take_chars zero s = ""
take_chars (suc n) String.[] = ""
take_chars (suc n) (String.◌∷◌ c s) = c ∷ take_chars n s

-- The text behind the first place where a pattern stands.
unfoldable pub behind : String → String → Option String
unfolding strip_prefix
behind p String.[] = strip_prefix p ""
behind p (String.◌∷◌ c s) = or_else (strip_prefix p (c ∷ s)) (behind p s)

-- The text in front of the first character that passes a test: the first item of a split.
unfoldable pub before : (Char → Bool) → String → String
before p String.[] = ""
before p (String.◌∷◌ c s) = let rest = before p s in if p c then "" else c ∷ rest

-- lines.join(separator)
unfoldable pub join : String → List String → String
join separator [] = ""
join separator (List.◌∷◌ line []) = line
join separator (List.◌∷◌ line (List.◌∷◌ next lines)) =
    line <> (separator <> join separator (List.◌∷◌ next lines))

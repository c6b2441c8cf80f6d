-- ===== src/Common/Lists.antt =====
-- Lists measured and indexed by native numbers, and the predicates on lists that statements use.
use Prim.Native.Nat.{ℕ, zero, suc, ◌≤◌}
use mathlib.Core.Path.{subst, ap, ◌≡◌, refl}
use mathlib.Core.Bool.{Bool, true, false, not, ◌||◌, ◌&&◌}
use mathlib.Core.Logic.{inl, inr}
use mathlib.Core.List.{List, [], ◌∷◌, ◌++◌, map, filter_map}
use mathlib.Core.Option.{Option, none, some}
use native.Mathlib.Omega.{arith}
use poly_notifier.Common.Tests.{if◌then◌else◌, Option-cases, Bool-cases}

module _ {ℓ} {A : Type ℓ} where
  abbrev pub length : List A → ℕ
  length [] = 0
  length (x ∷ xs) = suc (length xs)

  abbrev pub get_elem? : List A → ℕ → Option A
  get_elem? [] i = none
  get_elem? (x ∷ xs) zero = some x
  get_elem? (x ∷ xs) (suc i) = get_elem? xs i

  abbrev pub take : ℕ → List A → List A
  take zero xs = []
  take (suc n) [] = []
  take (suc n) (x ∷ xs) = x ∷ take n xs

  -- The items that pass a Boolean test, in order.
  abbrev pub keep : (A → Bool) → List A → List A
  keep p [] = []
  keep p (x ∷ xs) = let rest = keep p xs in if p x then x ∷ rest else rest

  abbrev pub find : (A → Bool) → List A → Option A
  find p [] = none
  find p (x ∷ xs) = let rest = find p xs in if p x then some x else rest

  abbrev pub any : (A → Bool) → List A → Bool
  any p [] = false
  any p (x ∷ xs) = p x || any p xs

  abbrev pub all : (A → Bool) → List A → Bool
  all p [] = true
  all p (x ∷ xs) = p x && all p xs

  abbrev pub All {κ} : (A → Type κ) → List A → Type κ
  All P [] = Unit
  All P (x ∷ xs) = P x × All P xs

  -- UPDATE ... WHERE p
  abbrev pub change_where : (A → Bool) → (A → A) → List A → List A
  change_where p f [] = []
  change_where p f (x ∷ xs) = (if p x then f x else x) ∷ change_where p f xs

  abbrev pub insert_by : (A → A → Bool) → A → List A → List A
  insert_by before x [] = x ∷ []
  insert_by before x (y ∷ ys) = if before x y then x ∷ y ∷ ys else y ∷ insert_by before x ys

  -- ORDER BY: a stable sort, the items that `before` does not separate staying in row order.
  abbrev pub order_by : (A → A → Bool) → List A → List A
  order_by before [] = []
  order_by before (x ∷ xs) = insert_by (λ a b. not (before b a)) x (order_by before xs)

  abbrev pub flat_map {κ} : {B : Type κ} → (A → List B) → List A → List B
  flat_map f [] = []
  flat_map f (x ∷ xs) = f x ++ flat_map f xs

  pub All-any {κ} : {P : A → Type κ} (xs : List A) → ((x : A) → P x) → All P xs
  All-any [] h = tt
  All-any (x ∷ xs) h = (h x, All-any xs h)

  pub All-append {κ} : (P : A → Type κ) (xs ys : List A) → All P xs → All P ys → All P (xs ++ ys)
  All-append P [] ys h k = k
  All-append P (x ∷ xs) ys h k = (h.0, All-append P xs ys h.1 k)

  pub keep-append : (p : A → Bool) (xs ys : List A) → keep p (xs ++ ys) ≡ keep p xs ++ keep p ys
  keep-append p [] ys = refl
  keep-append p (x ∷ xs) ys = ground (arith, keep-append p xs ys)

  -- What is found is there.
  pub find-any :
      (p q : A → Bool) (xs : List A) (x : A) → find p xs ≡ some x → q x ≡ true → any q xs ≡ true
  find-any p q [] x h k = ground (arith, h)
  find-any p q (y ∷ xs) x h k = elim (Bool-cases (p y)) [
    | inl here ↦ ground (arith, here, h, k)
    | inr elsewhere ↦ ground (arith, elsewhere, h, find-any p q xs x)
  ]

-- A place of an item in a list.
pub data Member {ℓ} {A : Type ℓ} (x : A) : List A → Type ℓ where
  here : (xs : List A) → Member x (x ∷ xs)
  there : (y : A) (xs : List A) → Member x xs → Member x (y ∷ xs)

module _ {ℓ} {A : Type ℓ} where
  pub some_inj : (x y : A) → some y ≡ some x → y ≡ x
  some_inj x y h = cc

  pub nothing : (x : A) → none ≡ some x → ⊥
  nothing x h = cc

  found_here : (x y : A) (xs : List A) → some y ≡ some x → Member x (y ∷ xs)
  found_here x y xs h = subst (λ z. Member z (y ∷ xs)) (some_inj x y h) (here xs)

  pub length-keep-keep :
      (p q : A → Bool) (xs : List A) → length (keep p (keep q xs)) ≤ length (keep p xs)
  length-keep-keep p q [] = omega arith
  length-keep-keep p q (x ∷ xs) = ground (arith, length-keep-keep p q xs)

  pub find-Member : (p : A → Bool) (xs : List A) (x : A) → find p xs ≡ some x → Member x xs
  find-Member p [] x h = elim (nothing x h) [ ]
  find-Member p (y ∷ xs) x h = elim (Bool-cases (p y)) [
    | inl yes_here ↦ found_here x y xs (ground (arith, yes_here, h))
    | inr elsewhere ↦ there y xs (find-Member p xs x (ground (arith, elsewhere, h)))
  ]

  pub get_elem?-Member : (xs : List A) (i : ℕ) (x : A) → get_elem? xs i ≡ some x → Member x xs
  get_elem?-Member [] i x h = elim (nothing x h) [ ]
  get_elem?-Member (y ∷ xs) zero x h = found_here x y xs h
  get_elem?-Member (y ∷ xs) (suc i) x h = there y xs (get_elem?-Member xs i x h)

  -- What a test lets through passes it.
  pub guarded : (p : A → Bool) (x y : A) → (if p x then some x else none) ≡ some y → p y ≡ true
  guarded p x y h = elim (Bool-cases (p x)) [
    | inl good ↦
        subst (λ z. p z ≡ true)
          (some_inj y x (subst (λ c. (if c then some x else none) ≡ some y) good h)) good
    | inr bad ↦ elim (nothing y (subst (λ c. (if c then some x else none) ≡ some y) bad h)) [ ]
  ]

  -- What holds of all holds of each.
  pub All-Member {κ} : (P : A → Type κ) (x : A) (xs : List A) → Member x xs → All P xs → P x
  All-Member P x _ (here xs) h = h.0
  All-Member P x _ (there y xs m) h = All-Member P x xs m h.1

module _ {ℓ κ} {A : Type ℓ} where
  pub All-keep : (P : A → Type κ) (p : A → Bool) (xs : List A) → All P xs → All P (keep p xs)
  All-keep P p [] h = tt
  All-keep P p (x ∷ xs) h = elim (Bool-cases (p x)) [
    | inl in_it ↦ rw in_it (h.0, All-keep P p xs h.1)
    | inr out ↦ rw out (All-keep P p xs h.1)
  ]

  pub All-weaken : (P Q : A → Type κ) (xs : List A) → ((x : A) → P x → Q x) → All P xs → All Q xs
  All-weaken P Q [] f h = tt
  All-weaken P Q (x ∷ xs) f h = (f x h.0, All-weaken P Q xs f h.1)

module _ {ℓ κ} {A : Type ℓ} {B : Type κ} where
  pub map-change_where :
      (f : A → B) (p : A → Bool) (g : A → A) (xs : List A)
      → ((x : A) → f (g x) ≡ f x)
      → map f (change_where p g xs) ≡ map f xs
  map-change_where f p g [] h = refl
  map-change_where f p g (x ∷ xs) h = elim (Bool-cases (p x)) [
    | inl in_it ↦ rw (in_it, h x, map-change_where f p g xs h) refl
    | inr out ↦ rw (out, map-change_where f p g xs h) refl
  ]

  pub map-append_one :
      (f : A → B) (xs : List A) (x : A) → map f (xs ++ x ∷ []) ≡ map f xs ++ f x ∷ []
  map-append_one f [] x = refl
  map-append_one f (y ∷ xs) x = ap (◌∷◌ (f y)) (map-append_one f xs x)

module _ {ℓ κ μ} {A : Type ℓ} {B : Type κ} (Q : B → Type μ) where
  pub All-map : (f : A → B) (xs : List A) → ((x : A) → Q (f x)) → All Q (map f xs)
  All-map f [] h = tt
  All-map f (x ∷ xs) h = (h x, All-map f xs h)

  pub All-flat_map_any :
      (f : A → List B) (xs : List A) → ((x : A) → All Q (f x)) → All Q (flat_map f xs)
  All-flat_map_any f [] h = tt
  All-flat_map_any f (x ∷ xs) h = All-append Q (f x) (flat_map f xs) (h x) (All-flat_map_any f xs h)

  pub All-flat_map {ν} :
      {P : A → Type ν} (f : A → List B) (xs : List A)
      → ((x : A) → P x → All Q (f x))
      → All P xs
      → All Q (flat_map f xs)
  All-flat_map f [] h each = tt
  All-flat_map f (x ∷ xs) h each =
      All-append Q (f x) (flat_map f xs) (h x each.0) (All-flat_map f xs h each.1)

  pub All-filter_map {ν} :
      {P : A → Type ν} (f : A → Option B) (xs : List A)
      → ((x : A) (y : B) → P x → f x ≡ some y → Q y)
      → All P xs
      → All Q (filter_map f xs)
  unfolding filter_map
  All-filter_map f [] h each = tt
  All-filter_map f (x ∷ xs) h each = elim (Option-cases (f x)) [
    | inl none_of ↦ rw (none_of, filter_map) (All-filter_map f xs h each.1)
    | inr (y, one) ↦ rw (one, filter_map) (h x y each.0 one, All-filter_map f xs h each.1)
  ]

module _ {ℓ} {A : Type ℓ} where
  pub Member-append_left : (x : A) (xs ys : List A) → Member x xs → Member x (xs ++ ys)
  Member-append_left x _ ys (here xs) = here (xs ++ ys)
  Member-append_left x _ ys (there y xs m) = there y (xs ++ ys) (Member-append_left x xs ys m)

  pub Member-append_right : (x : A) (xs ys : List A) → Member x ys → Member x (xs ++ ys)
  Member-append_right x [] ys m = m
  Member-append_right x (y ∷ xs) ys m = there y (xs ++ ys) (Member-append_right x xs ys m)

-- ===== src/Common/Sorting.antt =====
-- What `order_by` and `flat_map` do to properties of the items and of their pairs.
use mathlib.Core.Path.{◌≡◌, refl, ap, ◌∙◌}
use mathlib.Core.Bool.{Bool, not}
use mathlib.Core.Logic.{inl, inr}
use mathlib.Core.List.{List, [], ◌∷◌, ◌++◌, append_assoc}
use poly_notifier.Common.Tests.{Bool-cases}
use poly_notifier.Common.Lists.{All, insert_by, order_by, flat_map}

-- A relation holds of every two items, in their order.
abbrev pub Pairwise {ℓ κ} : {A : Type ℓ} → (A → A → Type κ) → List A → Type κ
Pairwise R [] = Unit
Pairwise R (x ∷ xs) = All (R x) xs × Pairwise R xs

module _ {ℓ κ} {A : Type ℓ} where
  All-insert_by :
      (P : A → Type κ) (before : A → A → Bool) (x : A) (xs : List A)
      → P x
      → All P xs
      → All P (insert_by before x xs)
  All-insert_by P before x [] h k = (h, tt)
  All-insert_by P before x (y ∷ ys) h k = elim (Bool-cases (before x y)) [
    | inl first ↦ rw first (h, k)
    | inr later ↦ rw later (k.0, All-insert_by P before x ys h k.1)
  ]

  pub All-order_by :
      (P : A → Type κ) (before : A → A → Bool) (xs : List A) → All P xs → All P (order_by before xs)
  All-order_by P before [] h = tt
  All-order_by P before (x ∷ xs) h =
      All-insert_by P (λ a b. not (before b a)) x (order_by before xs) h.0
        (All-order_by P before xs h.1)

  module _ (R : A → A → Type κ) (R_sym : (x y : A) → R x y → R y x) where
    Pairwise-insert_by :
        (before : A → A → Bool) (x : A) (xs : List A)
        → All (R x) xs
        → Pairwise R xs
        → Pairwise R (insert_by before x xs)
    Pairwise-insert_by before x [] h k = (tt, tt)
    Pairwise-insert_by before x (y ∷ ys) h k = elim (Bool-cases (before x y)) [
      | inl first ↦ rw first (h, k)
      | inr later ↦ rw later (
        All-insert_by (R y) before x ys (R_sym x y h.0) k.0,
        Pairwise-insert_by before x ys h.1 k.1,
      )
    ]

    pub Pairwise-order_by :
        (before : A → A → Bool) (xs : List A) → Pairwise R xs → Pairwise R (order_by before xs)
    Pairwise-order_by before [] h = tt
    Pairwise-order_by before (x ∷ xs) h =
        Pairwise-insert_by (λ a b. not (before b a)) x (order_by before xs)
          (All-order_by (R x) before xs h.0) (Pairwise-order_by before xs h.1)

module _ {ℓ κ} {A : Type ℓ} {B : Type κ} where
  flat_map-append :
      (f : A → List B) (xs ys : List A) → flat_map f (xs ++ ys) ≡ flat_map f xs ++ flat_map f ys
  flat_map-append f [] ys = refl
  flat_map-append f (x ∷ xs) ys = simp (flat_map-append f xs ys, append_assoc)

module _ {ℓ κ μ} {A : Type ℓ} {B : Type κ} {C : Type μ} where
  pub flat_map-flat_map :
      (f : A → List B) (g : B → List C) (xs : List A)
      → flat_map g (flat_map f xs) ≡ flat_map (λ x. flat_map g (f x)) xs
  flat_map-flat_map f g [] = refl
  flat_map-flat_map f g (x ∷ xs) =
      flat_map-append g (f x) (flat_map f xs)
      ∙ ap (λ r. flat_map g (f x) ++ r) (flat_map-flat_map f g xs)

-- ===== src/Polymarket/Clob/Prices.antt =====
-- clob.rs: which prices a batch of requests leaves in the map.
use poly_notifier.Common.{
  String, ◌==◌, string_eq, ◌≡◌, refl, ap, ◌∙◌, beq_refl, false, Option, none, some, List, [], ◌∷◌,
  All, arith, if◌then◌else◌, Bool-cases, inl, inr,
}
use mathlib.Core.Path.{subst}
use poly_notifier.Common.Dict.{Dict, get, get-insert}
use poly_notifier.Common.Sorting.{Pairwise}
use poly_notifier.Store.Rows.{Result, ok, err}
use poly_notifier.Store.World.{World, Exec, tick, continue, pure, ◌>>=◌}
use poly_notifier.Store.Steps.{bound}
use poly_notifier.Polymarket.Http.Calls.{Ticks, Ticks-bind, Still-bind, fetch-Ticks}
use poly_notifier.Polymarket.Clob.{
  ClobClient, Decimal, fetch_midpoint, fetch_price, fetch_all, put_price, collect, get_midpoints,
  get_prices, refused,
}

abbrev pub Differs : String → String → Type 0
Differs a b = (a == b) ≡ false

abbrev pub price_of {ℓ} : {A : Type ℓ} → Result A → Option A
price_of (ok a) = some a
price_of (err e) = none

module _ (c : ClobClient) where
  fetch_midpoint-Ticks : (t : String) → Ticks (fetch_midpoint c t)
  unfolding fetch_midpoint
  fetch_midpoint-Ticks t =
      Ticks-bind _ _ (fetch-Ticks c.http _ _ _ _ (refused c "midpoint" t))
        λ body. Still-bind _ _ (λ w. refl) λ text w. refl

  fetch_price-Ticks : (t : String) → Ticks (fetch_price c t)
  unfolding fetch_price
  fetch_price-Ticks t =
      Ticks-bind _ _ (fetch-Ticks c.http _ _ _ _ (refused c "price" t))
        λ body. Still-bind _ _ (λ w. refl) λ text w. refl

  -- The results of the requests, each at its call.
  abbrev results :
      (String → Exec World (Decimal c)) → List String → World → List (Result (Decimal c))
  results f [] w = []
  results f (t ∷ ts) w = (f t w).0 ∷ results f ts (tick w)

  abbrev after_all : List String → World → World
  after_all [] w = w
  after_all (t ∷ ts) w = after_all ts (tick w)

  fetch_all_lem :
      (f : String → Exec World (Decimal c))
      → ((t : String) → Ticks (f t))
      → (ts : List String) (w : World) → fetch_all c f ts w ≡ (ok (results f ts w), after_all ts w)
  unfolding fetch_all ◌>>=◌
  fetch_all_lem f one [] w = refl
  fetch_all_lem f one (t ∷ ts) w =
      ap (λ v. continue (fetch_all c f ts v).0 (λ rs. pure ((f t w).0 ∷ rs)) (fetch_all c f ts v).1)
        (one t w)
      ∙ ap (λ o. continue o.0 (λ rs. pure ((f t w).0 ∷ rs)) o.1) (fetch_all_lem f one ts (tick w))

  get-put_price :
      (t u : String) (r : Result (Decimal c)) (m : Dict String (Decimal c))
      → Differs u t
      → get t (put_price c u r m) ≡ get t m
  get-put_price t u (ok p) m h = get-insert u t p m ∙ ap (λ b. if b then some p else get t m) h
  get-put_price t u (err e) m h = refl

  -- The later tokens leave the entry of a token alone.
  get-collect :
      (t : String) (ts : List String) (rs : List (Result (Decimal c))) (m : Dict String (Decimal c))
      → All (λ u. Differs u t) ts
      → get t (collect c ts rs m) ≡ get t m
  unfolding collect
  get-collect t [] rs m h = refl
  get-collect t (u ∷ ts) [] m h = refl
  get-collect t (u ∷ ts) (r ∷ rs) m h =
      get-collect t ts rs (put_price c u r m) h.1 ∙ get-put_price t u r m h.0

  own_entry :
      (t : String) (r : Result (Decimal c)) (m : Dict String (Decimal c))
      → get t m ≡ none
      → get t (put_price c t r m) ≡ price_of r
  own_entry t (ok p) m h = get-insert t t p m ∙ ap (λ b. if b then some p else get t m) (beq_refl t)
  own_entry t (err e) m h = h

  -- What the request for a token answers, if there is one: they are made in the order of the list, each
  -- at the next call.
  abbrev pub answer_for :
      (String → Exec World (Decimal c)) → String → List String → World → Option (Decimal c)
  answer_for f t [] w = none
  answer_for f t (u ∷ ts) w = if u == t then price_of (f t w).0 else answer_for f t ts (tick w)

  All-flip : (t : String) (ts : List String) → All (Differs t) ts → All (λ u. Differs u t) ts
  All-flip t [] h = tt
  All-flip t (u ∷ ts) h =
      (ground (arith, h.0, string_eq.beq_iff t u, string_eq.beq_iff u t), All-flip t ts h.1)

  get-collect-results :
      (f : String → Exec World (Decimal c)) (t : String) (ts : List String) (w : World)
      (m : Dict String (Decimal c))
      → Pairwise Differs ts
      → get t m ≡ none
      → get t (collect c ts (results f ts w) m) ≡ answer_for f t ts w
  unfolding collect
  get-collect-results f t [] w m apart free = free
  get-collect-results f t (u ∷ ts) w m apart free = elim (Bool-cases (u == t)) [
    | inl same ↦
        let e : u ≡ t = (string_eq.beq_iff u t).0 same in
        rw same (
          ap (λ v. get t (collect c ts (results f ts (tick w)) (put_price c v (f v w).0 m))) e
          ∙ get-collect t ts (results f ts (tick w)) (put_price c t (f t w).0 m)
              (All-flip t ts (subst (λ v. All (Differs v) ts) e apart.0))
          ∙ own_entry t (f t w).0 m free)
    | inr different ↦ rw different (
        get-collect-results f t ts (tick w) (put_price c u (f u w).0 m) apart.1
          (get-put_price t u (f u w).0 m different ∙ free))
  ]

  -- What both batches do.
  batch :
      (f : String → Exec World (Decimal c))
      → ((t : String) → Ticks (f t))
      → (ts : List String) (w : World) (t : String) → Pairwise Differs ts
      → (m : Dict String (Decimal c)) × (((fetch_all c f ts >>= λ rs. pure (collect c ts rs []))
            w).0
          ≡ ok m)
        × (get t m ≡ answer_for f t ts w)
  unfolding ◌>>=◌ get
  batch f one ts w t apart = (
    collect c ts (results f ts w) [],
    ap (λ o. o.0)
        (bound (fetch_all c f ts) (λ rs. pure (collect c ts rs [])) w (after_all ts w)
          (results f ts w) (fetch_all_lem f one ts w)),
    get-collect-results f t ts w [] apart refl,
  )

  -- For distinct tokens, get_midpoints and get_prices return a map whatever fails, and in it a token
  -- has exactly the price that the request for that token answers, and no entry where there is no such
  -- request or it fails: a failing request takes no entry from another token.
  pub get_midpoints-isolates :
      (ts : List String) (w : World) (t : String)
      → Pairwise Differs ts
      → ((m : Dict String (Decimal c)) × ((get_midpoints c ts w).0 ≡ ok m)
          × (get t m ≡ answer_for (fetch_midpoint c) t ts w))
        × ((m : Dict String (Decimal c)) × ((get_prices c ts w).0 ≡ ok m)
            × (get t m ≡ answer_for (fetch_price c) t ts w))
  unfolding get_midpoints get_prices
  get_midpoints-isolates ts w t apart = (
    batch (fetch_midpoint c) fetch_midpoint-Ticks ts w t apart,
    batch (fetch_price c) fetch_price-Ticks ts w t apart,
  )

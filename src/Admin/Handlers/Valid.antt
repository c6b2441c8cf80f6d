-- ===== src/Admin/Handlers/Valid.antt =====
-- handlers.rs: what the updates keep and what they achieve.
use poly_notifier.Common.{
  ℕ, ◌+◌, ℤ, pos, String, int_eq, ◌≡◌, refl, Bool, true, false, none, List, [], ◌∷◌, change_where,
  All, any, keep, length, suc, ltb_ℤ, arith, Bool-cases, Option-cases, inl, inr,
}
use poly_notifier.Store.Rows.{User}
use poly_notifier.Store.World.{World, now, statement, ◌>>=◌}
use poly_notifier.Admin.Handlers.{json, is_tier, of_user, put, answer, update_tier, update_limit}

-- A tier of the enum, and a limit that is not negative.
abbrev pub IsValid : User → Type 0
IsValid u = (is_tier u.tier ≡ true) × (ltb_ℤ u.max_subscriptions (pos 0) ≡ false)

All-change_where :
    (P : User → Type 0) (p : User → Bool) (f : User → User) (rows : List User)
    → ((u : User) → P u → P (f u))
    → All P rows
    → All P (change_where p f rows)
All-change_where P p f [] k h = tt
All-change_where P p f (u ∷ rows) k h = elim (Bool-cases (p u)) [
  | inl hit ↦ rw hit (k u h.0, All-change_where P p f rows k h.1)
  | inr miss ↦ rw miss (h.0, All-change_where P p f rows k h.1)
]

put-All {ℓ} :
    {A : Type ℓ} (P : User → Type 0) (body : A) (telegram_id : ℤ) (f : ℕ → User → User) (w : World)
    → ((at : ℕ) (u : User) → P u → P (f at u))
    → All P w.users
    → All P (put body telegram_id f w).1.users
unfolding put now ◌>>=◌ statement
put-All P body telegram_id f w k h = elim (Option-cases (w.db_fault (w.calls + 1))) [
  | inl sound ↦
      rw (sound, statement)
        (All-change_where P (of_user telegram_id) (f (w.clock w.calls)) w.users
          (k (w.clock w.calls)) h)
  | inr (e, fault) ↦ rw (fault, statement) h
]

-- A request of the administrator.
pub data Request : Type 0 where
  put_tier : ℤ → String → Request
  put_limit : ℤ → ℤ → Request

unfoldable pub serve : (String → String) → List Request → World → World
serve to_lowercase [] w = w
serve to_lowercase (put_tier id body ∷ requests) w =
    serve to_lowercase requests (update_tier to_lowercase id body w).1
serve to_lowercase (put_limit id max ∷ requests) w =
    serve to_lowercase requests (update_limit id max w).1

update_tier-IsValid :
    (to_lowercase : String → String) (id : ℤ) (body : String) (w : World)
    → All IsValid w.users
    → All IsValid (update_tier to_lowercase id body w).1.users
unfolding update_tier
update_tier-IsValid to_lowercase id body w h = elim (Bool-cases (is_tier (to_lowercase body))) [
  | inl good ↦
      rw good
        (put-All {A = ℤ × String} IsValid (id, to_lowercase body) id _ w (λ at u v. (good, v.1)) h)
  | inr bad ↦ rw bad h
]

update_limit-IsValid :
    (id max : ℤ) (w : World) → All IsValid w.users → All IsValid (update_limit id max w).1.users
unfolding update_limit
update_limit-IsValid id max w h = elim (Bool-cases (ltb_ℤ max (pos 0))) [
  | inl bad ↦ rw bad h
  | inr good ↦ rw good (put-All {A = ℤ × ℤ} IsValid (id, max) id _ w (λ at u v. (v.0, good)) h)
]

-- Whatever requests come and whatever the database refuses, every user keeps a tier of the enum and
-- a limit that is not negative.
pub serve-IsValid :
    (to_lowercase : String → String) (requests : List Request) (w : World)
    → All IsValid w.users
    → All IsValid (serve to_lowercase requests w).users
unfolding serve
serve-IsValid to_lowercase [] w h = h
serve-IsValid to_lowercase (put_tier id body ∷ requests) w h =
    serve-IsValid to_lowercase requests _ (update_tier-IsValid to_lowercase id body w h)
serve-IsValid to_lowercase (put_limit id max ∷ requests) w h =
    serve-IsValid to_lowercase requests _ (update_limit-IsValid id max w h)

keep-some :
    (p : User → Bool) (rows : List User)
    → any p rows ≡ true
    → (n : ℕ) × (length (keep p rows) ≡ suc n)
keep-some p [] h = ground (arith, h)
keep-some p (u ∷ rows) h = elim (Bool-cases (p u)) [
  | inl hit ↦ rw hit (length (keep p rows), refl)
  | inr miss ↦ rw miss (keep-some p rows (ground (arith, h, miss)))
]

-- Every row that a change selects has what the change gives.
All-changed :
    (Q : User → Type 0) (p : User → Bool) (f : User → User) (rows : List User)
    → ((u : User) → Q (f u))
    → ((u : User) → p (f u) ≡ p u)
    → All (λ u. p u ≡ true → Q u) (change_where p f rows)
All-changed Q p f [] k same = tt
All-changed Q p f (u ∷ rows) k same = elim (Bool-cases (p u)) [
  | inl hit ↦ rw hit ((λ _. k u), All-changed Q p f rows k same)
  | inr miss ↦ rw miss ((λ yes_hit. ground (arith, miss, yes_hit)), All-changed Q p f rows k same)
]

-- With a tier of the enum and a user of that Telegram id, an update of the tier that the database
-- accepts is answered with the tier, and every user of that Telegram id, of whatever bot, has it then.
pub update_tier-sets :
    (to_lowercase : String → String) (id : ℤ) (body : String) (w : World)
    → is_tier (to_lowercase body) ≡ true
    → any (of_user id) w.users ≡ true
    → w.db_fault (w.calls + 1) ≡ none
    → (let out = update_tier to_lowercase id body w in
        (out.0 ≡ json (id, to_lowercase body))
        × All (λ u. of_user id u ≡ true → u.tier ≡ to_lowercase body) out.1.users)
unfolding update_tier put now ◌>>=◌ statement answer
update_tier-sets to_lowercase id body w good there sound =
    let found = keep-some (of_user id) w.users there in
    rw (good, sound, statement, found.1, answer)
      (
        refl,
        All-changed (λ u. u.tier ≡ to_lowercase body) (of_user id) _ w.users (λ u. refl)
            (λ u. refl),
      )

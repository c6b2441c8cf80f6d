-- ===== src/Bot/Effects/Quota.antt =====
-- The subscription limit of dialogues.rs, over everything that the bot does to the rows.
pub mod Kept
use mathlib.Core.Path.{subst}
use poly_notifier.Common.{
  ℕ, zero, suc, ◌+◌, ◌≤◌, ℤ, pos, negsuc, ltb_ℤ, leb_ℤ, int_eq, int_beq, int_beq_iff, String, ◌==◌,
  string_eq, ◌≡◌, refl, sym, ap, ◌∙◌, Bool, true, false, not, ◌&&◌, Option, none, some, List, [],
  ◌∷◌, ◌++◌, map, keep, any, find, change_where, length, All, All-append, All-keep, All-weaken,
  Member, All-Member, length-keep-keep, keep-append, map-change_where, Bool-cases, beq_refl, inl,
  inr, arith, if◌then◌else◌, here, there,
}
use poly_notifier.Store.Rows.{F64, User, Subscription, Result, ok, err}
use poly_notifier.Store.World.{Db}
use poly_notifier.Store.Users.{insert_user, set_username, has_key}
use poly_notifier.Store.Markets.{upsert_row}
use poly_notifier.Store.Logs.{insert_feedback_row, has_user}
use poly_notifier.Store.Triples.{Leaves, Leaves-ok}
use poly_notifier.Store.Subscriptions.{is_active_of}
use poly_notifier.Bot.State.{BotDeps, Update, Session}
use poly_notifier.Bot.Rows.{
  insert_subscription, insert_alert_row, change_oldest_alert, delete_subscription, set_timezone,
  is_alert_type, is_for, new_subscription,
}
use poly_notifier.Bot.Effects
use poly_notifier.Bot.Effects.{Effect, Effects, active_count}
use poly_notifier.Bot.Dispatch.{dispatch}
use poly_notifier.Bot.Effects.Updates.{dispatch-Effects, Effects-keeps}

-- The ids of the users, which the primary key keeps apart, with their limits.
abbrev pub limits : Db → List (ℤ × ℤ)
limits d = map (λ u. (u.id, u.max_subscriptions)) d.users

abbrev pub Apart : ℤ → List (ℤ × ℤ) → Type 0
Apart id = All (λ l. (l.0 == id) ≡ false)

abbrev pub Distinct : List (ℤ × ℤ) → Type 0
Distinct [] = Unit
Distinct (l ∷ ls) = Apart l.0 ls × Distinct ls

abbrev pub count_in : ℤ → List Subscription → ℕ
count_in id subs = length (keep (is_active_of id) subs)

abbrev pub Within : List Subscription → ℤ × ℤ → Type 0
Within subs l = leb_ℤ (pos (count_in l.0 subs)) l.1 ≡ true

-- The ids of AUTOINCREMENT are apart and below the next, the subscriptions belong to ids below the
-- next, and no user has more active subscriptions than the limit.
pub record Holds (next : ℕ) (ls : List (ℤ × ℤ)) (subs : List Subscription) : Type 0 where
  pub ids : Distinct ls
  pub fresh : All (λ l. ltb_ℤ l.0 (pos next) ≡ true) ls
  pub owned : All (λ s. ltb_ℤ s.user_id (pos next) ≡ true) subs
  pub within : All (Within subs) ls

unfoldable pub IsWithinQuota : Db → Type 0
IsWithinQuota d = Holds d.next_user (limits d) d.subscriptions

-- An id below the next is not the next.
below_next : (a : ℤ) (n : ℕ) → ltb_ℤ a (pos n) ≡ true → (a == pos n) ≡ false
below_next (pos m) n h = ground (arith, h)
below_next (negsuc m) n h = ground (arith, h)

next_below : (n : ℕ) → ltb_ℤ (pos n) (pos (n + 1)) ≡ true
next_below n = ground arith

below_more : (a : ℤ) (n : ℕ) → ltb_ℤ a (pos n) ≡ true → ltb_ℤ a (pos (n + 1)) ≡ true
below_more (pos m) n h = ground (arith, h)
below_more (negsuc m) n h = ground (arith, h)

apart_sym : (a c : ℤ) → (a == c) ≡ false → (c == a) ≡ false
apart_sym a c h = ground (arith, int_beq_iff a c, int_beq_iff c a, h)

Distinct-append :
    (ls : List (ℤ × ℤ)) (id limit : ℤ)
    → Distinct ls
    → Apart id ls
    → Distinct (ls ++ (id, limit) ∷ [])
Distinct-append [] id limit h k = (tt, tt)
Distinct-append (l ∷ ls) id limit h k =
    (All-append _ ls _ h.0 (apart_sym l.0 id k.0, tt), Distinct-append ls id limit h.1 k.1)

none_of :
    (n : ℕ) (subs : List Subscription)
    → All (λ s. ltb_ℤ s.user_id (pos n) ≡ true) subs
    → count_in (pos n) subs ≡ 0
none_of n [] h = refl
none_of n (s ∷ subs) h = rw (below_next s.user_id n h.0) (none_of n subs h.1)

-- A new user has no subscription yet, and a limit of 5.
pub join_user :
    (next : ℕ) (ls : List (ℤ × ℤ)) (subs : List Subscription)
    → Holds next ls subs
    → Holds (next + 1) (ls ++ (pos next, pos 5) ∷ []) subs
join_user next ls subs h = record {
  ids =
      Distinct-append ls (pos next) (pos 5) h.ids
        (All-weaken _ _ ls (λ l. below_next l.0 next) h.fresh);
  fresh =
      All-append _ ls _ (All-weaken _ _ ls (λ l. below_more l.0 next) h.fresh)
        (next_below next, tt);
  owned = All-weaken _ _ subs (λ s. below_more s.user_id next) h.owned;
  within = All-append _ ls _ h.within (rw (none_of next subs h.owned) refl, tt);
}

-- An active subscription of a user.
abbrev IsOwnedBy : ℤ → Subscription → Type 0
IsOwnedBy id s = (s.user_id ≡ id) × (s.is_active ≡ true)

length_snoc {ℓ} : {A : Type ℓ} (xs : List A) (x : A) → length (xs ++ x ∷ []) ≡ suc (length xs)
length_snoc [] x = refl
length_snoc (y ∷ xs) x = ap suc (length_snoc xs x)

length_end {ℓ} : {A : Type ℓ} (xs : List A) → length (xs ++ []) ≡ length xs
length_end [] = refl
length_end (y ∷ xs) = ap suc (length_end xs)

counts : (id : ℤ) (s : Subscription) → IsOwnedBy id s → is_active_of id s ≡ true
counts id s m = rw (m.0, m.1) (rw (beq_refl id) refl)

passes :
    (id j : ℤ) (s : Subscription) → s.user_id ≡ id → (id == j) ≡ false → is_active_of j s ≡ false
passes id j s m apart = rw m (rw apart refl)

count_raised :
    (id : ℤ) (subs : List Subscription) (s : Subscription)
    → IsOwnedBy id s
    → count_in id (subs ++ s ∷ []) ≡ suc (count_in id subs)
count_raised id subs s m =
    rw (keep-append (is_active_of id) subs (s ∷ []), counts id s m)
      (length_snoc (keep (is_active_of id) subs) s)

count_same :
    (id j : ℤ) (subs : List Subscription) (s : Subscription)
    → s.user_id ≡ id
    → (id == j) ≡ false
    → count_in j (subs ++ s ∷ []) ≡ count_in j subs
count_same id j subs s m apart =
    rw (keep-append (is_active_of j) subs (s ∷ []), passes id j s m apart)
      (length_end (keep (is_active_of j) subs))

room : (limit : ℤ) (n : ℕ) → leb_ℤ limit (pos n) ≡ false → leb_ℤ (pos (suc n)) limit ≡ true
room (pos m) n h = ground (arith, h)
room (negsuc m) n h = ground (arith, h)

less : (limit : ℤ) (k n : ℕ) → k ≤ n → leb_ℤ (pos n) limit ≡ true → leb_ℤ (pos k) limit ≡ true
less (pos m) k n h e = ground (arith, h, e)
less (negsuc m) k n h e = ground (arith, h, e)

-- A subscription of the user with the ids apart raises one count.
raise_others :
    (id : ℤ) (ls : List (ℤ × ℤ)) (subs : List Subscription) (s : Subscription)
    → s.user_id ≡ id
    → Apart id ls
    → All (Within subs) ls
    → All (Within (subs ++ s ∷ [])) ls
raise_others id [] subs s m apart h = tt
raise_others id (l ∷ ls) subs s m apart h = (
  ap (λ n. leb_ℤ (pos n) l.1) (count_same id l.0 subs s m (apart_sym l.0 id apart.0)) ∙ h.0,
  raise_others id ls subs s m apart.1 h.1,
)

other_id :
    (id : ℤ) (limit : ℤ) (k : ℤ) (ls : List (ℤ × ℤ))
    → Member (id, limit) ls
    → Apart k ls
    → (id == k) ≡ false
other_id id limit k ls m h = All-Member (λ l. (l.0 == k) ≡ false) (id, limit) ls m h

raise :
    (id limit : ℤ) (ls : List (ℤ × ℤ)) (subs : List Subscription) (s : Subscription)
    → IsOwnedBy id s
    → leb_ℤ limit (pos (count_in id subs)) ≡ false
    → Member (id, limit) ls
    → Distinct ls
    → All (Within subs) ls
    → All (Within (subs ++ s ∷ [])) ls
raise id limit _ subs s m free (here ls) distinct h = (
  ap (λ n. leb_ℤ (pos n) limit) (count_raised id subs s m) ∙ room limit (count_in id subs) free,
  raise_others id ls subs s m.0 distinct.0 h.1,
)
raise id limit _ subs s m free (there l ls at) distinct h = (
  ap (λ n. leb_ℤ (pos n) l.1)
        (count_same id l.0 subs s m.0 (other_id id limit l.0 ls at distinct.0))
      ∙ h.0,
  raise id limit ls subs s m free at distinct.1 h.1,
)

pub add_subscription :
    (id limit : ℤ) (next : ℕ) (ls : List (ℤ × ℤ)) (subs : List Subscription) (s : Subscription)
    → IsOwnedBy id s
    → leb_ℤ limit (pos (count_in id subs)) ≡ false
    → Member (id, limit) ls
    → Holds next ls subs
    → Holds next ls (subs ++ s ∷ [])
add_subscription id limit next ls subs s m free at h = record {
  ids = h.ids;
  fresh = h.fresh;
  owned = All-append _ subs _ h.owned (
    ap (λ k. ltb_ℤ k (pos next)) m.0
        ∙ All-Member (λ l. ltb_ℤ l.0 (pos next) ≡ true) (id, limit) ls at h.fresh,
    tt,
  );
  within = raise id limit ls subs s m free at h.ids h.within;
}

pub drop_subscriptions :
    (p : Subscription → Bool) (next : ℕ) (ls : List (ℤ × ℤ)) (subs : List Subscription)
    → Holds next ls subs
    → Holds next ls (keep p subs)
drop_subscriptions p next ls subs h = record {
  ids = h.ids;
  fresh = h.fresh;
  owned = All-keep _ p subs h.owned;
  within =
      All-weaken _ _ ls (λ l. less l.1 _ _ (length-keep-keep (is_active_of l.0) p subs)) h.within;
}

pub Member-map {ℓ κ} :
    {A : Type ℓ} {B : Type κ} (f : A → B) (x : A) (xs : List A)
    → Member x xs
    → Member (f x) (map f xs)
Member-map f x _ (here xs) = here (map f xs)
Member-map f x _ (there y xs m) = there (f y) (map f xs) (Member-map f x xs m)

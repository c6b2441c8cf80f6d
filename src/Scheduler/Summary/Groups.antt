-- ===== src/Scheduler/Summary/Groups.antt =====
-- daily_summary.rs: the rows of the query, which come user by user, are grouped as they come.
use poly_notifier.Common.{
  ℤ, ◌==◌, int_eq, beq_refl, ◌≡◌, refl, sym, ap, ◌∙◌, ◌&&◌, false, none, some, List, [], ◌∷◌, ◌++◌,
  keep, flat_map, All, All-append, All-map, All-flat_map_any,
}
use mathlib.Core.List.{append_assoc, append-nil}
use poly_notifier.Common.Dict.{Dict, get, insert}
use poly_notifier.Common.Sorting.{Pairwise}
use poly_notifier.Store.Rows.{User}
use poly_notifier.Store.World.{Db}
use poly_notifier.Scheduler.Summary.{
  SummaryRow, row_of, rows_of, Group, with_row, add_row, group_rows,
}

-- No entry has the key.
abbrev Fresh {ℓ} : {V : Type ℓ} → ℤ → Dict ℤ V → Type 0
Fresh k = All (λ e. (e.0 == k) ≡ false)

module _ {V : Type 0} where
  get-last : (k : ℤ) (v : V) (m : Dict ℤ V) → Fresh k m → get k (m ++ (k, v) ∷ []) ≡ some v
  unfolding get
  get-last k v [] h = rw (beq_refl k) refl
  get-last k v ((j, w) ∷ m) h = rw (h.0) (get-last k v m h.1)

  insert-last :
      (k : ℤ) (v w : V) (m : Dict ℤ V)
      → Fresh k m
      → insert k v (m ++ (k, w) ∷ []) ≡ m ++ (k, v) ∷ []
  unfolding insert
  insert-last k v w [] h = rw (beq_refl k) refl
  insert-last k v w ((j, u) ∷ m) h = rw (h.0) (ap (λ r. (j, u) ∷ r) (insert-last k v w m h.1))

  get-Fresh : (k : ℤ) (m : Dict ℤ V) → Fresh k m → get k m ≡ none
  unfolding get
  get-Fresh k [] h = refl
  get-Fresh k ((j, w) ∷ m) h = rw (h.0) (get-Fresh k m h.1)

  insert-Fresh : (k : ℤ) (v : V) (m : Dict ℤ V) → Fresh k m → insert k v m ≡ m ++ (k, v) ∷ []
  unfolding insert
  insert-Fresh k v [] h = refl
  insert-Fresh k v ((j, u) ∷ m) h = rw (h.0) (ap (λ r. (j, u) ∷ r) (insert-Fresh k v m h.1))

-- A row of a user.
abbrev Of : User → SummaryRow → Type 0
Of u row = (row.user_id ≡ u.id) × (row.telegram_id ≡ u.telegram_id) × (row.bot_id ≡ u.bot_id)

rows_of-Of : (d : Db) (u : User) → All (Of u) (rows_of d u)
unfolding rows_of
rows_of-Of d u = All-flat_map_any (Of u) _ _ λ s.
    All-map (Of u) (row_of u s)
      (keep (λ m. (m.id == s.market_id) && (s.is_active && m.is_active)) d.markets)
      λ m. (refl, refl, refl)

abbrev entry : User → List SummaryRow → ℤ × Group
entry u rows = (u.id, (u.telegram_id, u.bot_id, rows))

-- The entry of a user, if there is a row.
abbrev pub entry_of : User → List SummaryRow → List (ℤ × Group)
entry_of u [] = []
entry_of u (row ∷ rows) = entry u (row ∷ rows) ∷ []

add-last :
    (u : User) (row : SummaryRow) (rows : List SummaryRow) (m : Dict ℤ Group)
    → Of u row
    → Fresh u.id m
    → add_row row (m ++ entry u rows ∷ []) ≡ m ++ entry u (rows ++ row ∷ []) ∷ []
unfolding add_row
add-last u row rows m own fresh =
    let m' : Dict ℤ Group = m ++ entry u rows ∷ [] in
    ap (λ k. insert k (with_row row (get k m')) m') own.0
    ∙ ap (λ g. insert u.id (with_row row g) m')
        (get-last u.id (u.telegram_id, u.bot_id, rows) m fresh)
    ∙ insert-last u.id (u.telegram_id, u.bot_id, rows ++ row ∷ []) (u.telegram_id, u.bot_id, rows) m
        fresh

add-Fresh :
    (u : User) (row : SummaryRow) (m : Dict ℤ Group)
    → Of u row
    → Fresh u.id m
    → add_row row m ≡ m ++ entry u (row ∷ []) ∷ []
unfolding add_row
add-Fresh u row m own fresh =
    ap (λ k. insert k (with_row row (get k m)) m) own.0
    ∙ ap (λ g. insert u.id (with_row row g) m) (get-Fresh u.id m fresh)
    ∙ ap (λ t. insert u.id (t, row.bot_id, row ∷ []) m) own.1
    ∙ ap (λ b. insert u.id (u.telegram_id, b, row ∷ []) m) own.2
    ∙ insert-Fresh u.id (u.telegram_id, u.bot_id, row ∷ []) m fresh

-- The further rows of the user that was added last.
group-last :
    (u : User) (done rows rest : List SummaryRow) (m : Dict ℤ Group)
    → All (Of u) rows
    → Fresh u.id m
    → group_rows (rows ++ rest) (m ++ entry u done ∷ [])
      ≡ group_rows rest (m ++ entry u (done ++ rows) ∷ [])
unfolding group_rows
group-last u done [] rest m own fresh =
    ap (λ r. group_rows rest (m ++ entry u r ∷ [])) (sym (append-nil done))
group-last u done (row ∷ rows) rest m own fresh =
    ap (group_rows (rows ++ rest)) (add-last u row done m own.0 fresh)
    ∙ group-last u (done ++ row ∷ []) rows rest m own.1 fresh
    ∙ ap (λ r. group_rows rest (m ++ entry u r ∷ [])) (append_assoc done (row ∷ []) rows)

-- All rows of a user.
group-user :
    (u : User) (rows rest : List SummaryRow) (m : Dict ℤ Group)
    → All (Of u) rows
    → Fresh u.id m
    → group_rows (rows ++ rest) m ≡ group_rows rest (m ++ entry_of u rows)
unfolding group_rows
group-user u [] rest m own fresh = ap (group_rows rest) (sym (append-nil m))
group-user u (row ∷ rows) rest m own fresh =
    ap (group_rows (rows ++ rest)) (add-Fresh u row m own.0 fresh)
    ∙ group-last u (row ∷ []) rows rest m own.1 fresh

abbrev pub IsApart : User → User → Type 0
IsApart u v = (u.id == v.id) ≡ false

Fresh-entry_of : (u v : User) (rows : List SummaryRow) → IsApart u v → Fresh v.id (entry_of u rows)
Fresh-entry_of u v [] h = tt
Fresh-entry_of u v (row ∷ rows) h = (h, tt)

Fresh-later :
    (u : User) (rows : List SummaryRow) (m : Dict ℤ Group) (us : List User)
    → All (IsApart u) us
    → All (λ v. Fresh v.id m) us
    → All (λ v. Fresh v.id (m ++ entry_of u rows)) us
Fresh-later u rows m [] apart fresh = tt
Fresh-later u rows m (v ∷ us) apart fresh = (
  All-append (λ e. (e.0 == v.id) ≡ false) m (entry_of u rows) fresh.0
      (Fresh-entry_of u v rows apart.0),
  Fresh-later u rows m us apart.1 fresh.1,
)

-- Every user with a row has one group, which has exactly the rows of that user.
pub group_rows-users :
    (d : Db) (us : List User) (m : Dict ℤ Group)
    → Pairwise IsApart us
    → All (λ u. Fresh u.id m) us
    → group_rows (flat_map (rows_of d) us) m ≡ m ++ flat_map (λ u. entry_of u (rows_of d u)) us
unfolding group_rows
group_rows-users d [] m apart fresh = sym (append-nil m)
group_rows-users d (u ∷ us) m apart fresh =
    group-user u (rows_of d u) (flat_map (rows_of d) us) m (rows_of-Of d u) fresh.0
    ∙ group_rows-users d us (m ++ entry_of u (rows_of d u)) apart.1
        (Fresh-later u (rows_of d u) m us apart.0 fresh.1)
    ∙ append_assoc m (entry_of u (rows_of d u)) (flat_map (λ u. entry_of u (rows_of d u)) us)

-- ===== src/Hub/Admins/Race.antt =====
-- Two deletions at once: PostgreSQL's default isolation lets both count the admins before either has
-- removed one.
use timekpr_next_hub.Base.{ℕ, ◌≡◌, ◌≢◌, refl, ◌==◌, true, false, List, [], ◌∷◌, arith, length, ltb}
use timekpr_next_hub.Hub.Rows.{delete_one}
use timekpr_next_hub.Hub.Admins.{Admin, has_admin_id}

-- `delete_admin_account` up to its commit: it has begun, it has counted more than one admin, or it has
-- committed.
pub data Phase : Type 0 where
  begun passed committed : Phase

-- The admins' rows, and two transactions with the account that each deletes.
pub record Deletions : Type 0 where
  pub admins : List Admin
  pub first : Phase
  pub first_target : ℕ
  pub second : Phase
  pub second_target : ℕ

-- A transaction counts the rows that are committed, and later removes its own target.
pub data Step : Deletions → Deletions → Type 0 where
  first_counts :
      (s : Deletions)
      → s.first ≡ begun
      → ltb 1 (length s.admins) ≡ true
      → Step s (record s { first = passed })
  first_removes :
      (s : Deletions)
      → s.first ≡ passed
      → Step s (record s {
        first = committed;
        admins = delete_one (has_admin_id s.first_target) s.admins;
      })
  second_counts :
      (s : Deletions)
      → s.second ≡ begun
      → ltb 1 (length s.admins) ≡ true
      → Step s (record s { second = passed })
  second_removes :
      (s : Deletions)
      → s.second ≡ passed
      → Step s (record s {
        second = committed;
        admins = delete_one (has_admin_id s.second_target) s.admins;
      })

pub data Reach (s : Deletions) : Deletions → Type 0 where
  here : Reach s s
  next : {t u : Deletions} → Reach s t → Step t u → Reach s u

abbrev pub both_begun : Admin → Admin → Deletions
both_begun a b = record {
  admins = a ∷ b ∷ [];
  first = begun;
  first_target = a.id;
  second = begun;
  second_target = b.id;
}

apart : (n m : ℕ) → n ≢ m → (m == n) ≡ false
apart n m h = ground (arith, h)

-- Two admins who each have the other's account deleted at the same time can leave the hub without one.
pub both_begun-empties :
    (a b : Admin) → a.id ≢ b.id → (end : Deletions) × Reach (both_begun a b) end × (end.admins ≡ [])
unfolding delete_one
both_begun-empties a b h =
    let s1 = both_begun a b in
    let s2 : Deletions = record s1 { first = passed } in
    let s3 : Deletions = record s2 { second = passed } in
    let s4 : Deletions = record s3 {
      first = committed;
      admins = delete_one (has_admin_id a.id) s3.admins;
    } in
    (
      _,
      next
          (next (next (next here (first_counts s1 refl refl)) (second_counts s2 refl refl))
            (first_removes s3 refl))
          (second_removes s4 refl),
      emptied,
    )
  where
    emptied : delete_one (has_admin_id b.id) (delete_one (has_admin_id a.id) (a ∷ b ∷ [])) ≡ []
    emptied = ground arith

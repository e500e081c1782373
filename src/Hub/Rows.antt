-- ===== src/Hub/Rows.antt =====
-- The statements that the hub's services send to PostgreSQL, on a table as a list of rows: an insert
-- with ON CONFLICT, a delete, and a query with GROUP BY. A row's key is unique in its table.
use timekpr_next_hub.Base.{
  ℕ, suc, ◌≤◌, ◌≡◌, refl, ap, Bool, true, false, none, some, List, [], ◌∷◌, arith, if◌then◌else◌,
  if-elim, find, keep, any, Bool-cases, inl, inr, All,
}

module _ {ℓ} {A : Type ℓ} where
  -- INSERT ... ON CONFLICT (key) DO UPDATE: the row with the key is updated, or else `row` is added.
  unfoldable pub insert_or_update : (A → Bool) → (A → A) → A → List A → List A
  insert_or_update same update row [] = row ∷ []
  insert_or_update same update row (r ∷ rows) =
      let later = insert_or_update same update row rows in
      if same r then update r ∷ rows else r ∷ later

  -- DELETE of the one row that a query has found.
  unfoldable pub delete_one : (A → Bool) → List A → List A
  delete_one same [] = []
  delete_one same (r ∷ rows) =
      let later = delete_one same rows in if same r then rows else r ∷ later

  -- How many rows a condition selects.
  abbrev pub selected : (A → Bool) → List A → ℕ
  selected p [] = 0
  selected p (r ∷ rows) = if p r then suc (selected p rows) else selected p rows

  -- What an insert does to a query: one that selects the row's key sees the new row, or the old one
  -- updated; one that selects neither sees what it saw.
  pub find-insert_or_update :
      (same : A → Bool) (update : A → A) (row : A) (rows : List A)
      → same row ≡ true
      → ((r : A) → same r ≡ true → same (update r) ≡ true)
      → find same (insert_or_update same update row rows)
        ≡ some (elim (find same rows) [ none ↦ row | some r ↦ update r ])
  unfolding insert_or_update
  find-insert_or_update same update row [] h keeps = rw (h) refl
  find-insert_or_update same update row (r ∷ rows) h keeps =
      if-elim
        (λ out.
          find same out ≡ some (elim (find same (r ∷ rows)) [ none ↦ row | some x ↦ update x ]))
        (same r) (update r ∷ rows) (r ∷ insert_or_update same update row rows)
        (λ hit. rw (keeps r hit, hit) refl)
        (λ miss. rw (miss) (find-insert_or_update same update row rows h keeps))

  pub keep-insert_or_update :
      (same other : A → Bool) (update : A → A) (row : A) (rows : List A)
      → ((r : A) → same r ≡ true → other r ≡ false)
      → ((r : A) → same r ≡ true → other (update r) ≡ false)
      → other row ≡ false
      → keep other (insert_or_update same update row rows) ≡ keep other rows
  unfolding insert_or_update
  keep-insert_or_update same other update row [] apart moved h = rw (h) refl
  keep-insert_or_update same other update row (r ∷ rows) apart moved h =
      if-elim (λ out. keep other out ≡ keep other (r ∷ rows)) (same r) (update r ∷ rows)
        (r ∷ insert_or_update same update row rows) (λ hit. rw (apart r hit, moved r hit) refl)
        (λ miss.
          ap (λ kept. if other r then r ∷ kept else kept)
            (keep-insert_or_update same other update row rows apart moved h))

  -- A query for one row is the first of a query for all of them.
  pub find_of_keep : (p : A → Bool) (xs : List A) → find p xs ≡ find p (keep p xs)
  find_of_keep p [] = refl
  find_of_keep p (x ∷ xs) = elim (Bool-cases (p x)) [
    | inl hit ↦ rw (hit, hit) refl
    | inr miss ↦ rw (miss) (find_of_keep p xs)
  ]

  -- An insert keeps the key unique, and so does a delete, after which the key has no row.
  pub insert_or_update-selected :
      (same : A → Bool) (update : A → A) (row : A) (rows : List A)
      → same row ≡ true
      → ((r : A) → same r ≡ true → same (update r) ≡ true)
      → selected same rows ≤ 1
      → selected same (insert_or_update same update row rows) ≡ 1
  unfolding insert_or_update
  insert_or_update-selected same update row [] h keeps unique = rw (h) refl
  insert_or_update-selected same update row (r ∷ rows) h keeps unique =
      ground (arith, keeps r, insert_or_update-selected same update row rows h keeps)

  pub delete_one-selected :
      (same : A → Bool) (rows : List A)
      → selected same rows ≤ 1
      → selected same (delete_one same rows) ≡ 0
  unfolding delete_one
  delete_one-selected same [] unique = refl
  delete_one-selected same (r ∷ rows) unique = ground (arith, delete_one-selected same rows)

  pub find_of_none : (p : A → Bool) (xs : List A) → selected p xs ≡ 0 → find p xs ≡ none
  find_of_none p [] h = refl
  find_of_none p (x ∷ xs) h = ground (arith, find_of_none p xs)

  pub keep-delete_one :
      (same other : A → Bool) (rows : List A)
      → ((r : A) → same r ≡ true → other r ≡ false)
      → keep other (delete_one same rows) ≡ keep other rows
  unfolding delete_one
  keep-delete_one same other [] apart = refl
  keep-delete_one same other (r ∷ rows) apart =
      if-elim (λ out. keep other out ≡ keep other (r ∷ rows)) (same r) rows
        (r ∷ delete_one same rows) (λ hit. rw (apart r hit) refl)
        (λ miss.
          ap (λ kept. if other r then r ∷ kept else kept) (keep-delete_one same other rows apart))

  pub any-insert_or_update :
      (same : A → Bool) (update : A → A) (row : A) (rows : List A)
      → same row ≡ true
      → ((r : A) → same r ≡ true → same (update r) ≡ true)
      → any same (insert_or_update same update row rows) ≡ true
  unfolding insert_or_update
  any-insert_or_update same update row [] h keeps = rw (h) refl
  any-insert_or_update same update row (r ∷ rows) h keeps =
      ground (arith, keeps r, any-insert_or_update same update row rows h keeps)

  pub any_of_none : (p : A → Bool) (xs : List A) → selected p xs ≡ 0 → any p xs ≡ false
  any_of_none p [] h = refl
  any_of_none p (x ∷ xs) h = ground (arith, any_of_none p xs)

pub All-weaken {ℓ κ} :
    {A : Type ℓ} (P Q : A → Type κ) (xs : List A) → ((a : A) → P a → Q a) → All P xs → All Q xs
All-weaken P Q [] h k = tt
All-weaken P Q (x ∷ xs) h (px, k) = (h x px, All-weaken P Q xs h k)

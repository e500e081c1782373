-- ===== src/Hub/Limits/Keyed.antt =====
-- A table whose key is a user and a day: what an upsert and a delete do to the row that a query finds.
use timekpr_next_hub.Base.{
  ℕ, ◌≤◌, ◌≡◌, refl, sym, ap, ◌∙◌, fun_ext, ◌==◌, ◌&&◌, Bool, true, false, none, some, List, [],
  ◌∷◌, arith, find, keep, if◌then◌else◌, Bool-cases, inl, inr,
}
use timekpr_next_hub.Hub.Rows.{
  insert_or_update, delete_one, selected, find-insert_or_update, keep-insert_or_update,
  find_of_keep, insert_or_update-selected, delete_one-selected, find_of_none, keep-delete_one,
}

abbrev pub same_key : ℕ → ℕ → ℕ → ℕ → Bool
same_key user_id day u d = u == user_id && d == day

same_key_eq : (a b u d x y : ℕ) → same_key a b u d ≡ true → (x == u && y == d) ≡ (x == a && y == b)
same_key_eq a b u d x y h = ground arith

other_key :
    (a b u d x y : ℕ)
    → same_key a b u d ≡ false
    → (x == a && y == b) ≡ true
    → (x == u && y == d) ≡ false
other_key a b u d x y h k = ground arith

module _ {ℓ} {A : Type ℓ} where
  selected_of_keep : (p : A → Bool) (xs : List A) → selected p xs ≡ selected p (keep p xs)
  selected_of_keep p [] = refl
  selected_of_keep p (x ∷ xs) = elim (Bool-cases (p x)) [
    | inl hit ↦ rw (hit, hit, selected_of_keep p xs) refl
    | inr miss ↦ rw (miss) (selected_of_keep p xs)
  ]

module _ {ℓ} {A : Type ℓ} (user_of day_of : A → ℕ) where
  abbrev pub of : ℕ → ℕ → A → Bool
  of user_id day r = user_of r == user_id && day_of r == day

  abbrev pub KeyedRows : List A → Type 0
  KeyedRows rows = (user_id day : ℕ) → selected (of user_id day) rows ≤ 1

  pub same_rows : (a b u d : ℕ) → same_key a b u d ≡ true → of u d ≡ of a b
  same_rows a b u d h = fun_ext (λ r. same_key_eq a b u d (user_of r) (day_of r) h)

  module _ (update : A → A) (row : A) (rows : List A) (user_id day : ℕ)
      (fits : of user_id day row ≡ true)
      (keeps : (r : A) → of user_id day r ≡ true → of user_id day (update r) ≡ true) where
    abbrev put : List A
    put = insert_or_update (of user_id day) update row rows

    pub find-put :
        (u d : ℕ)
        → find (of u d) put ≡ (
            if same_key user_id day u d
            then some (elim (find (of user_id day) rows) [ none ↦ row | some r ↦ update r ])
            else find (of u d) rows)
    find-put u d = elim (Bool-cases (same_key user_id day u d)) [
      | inl here ↦
          rw (here, same_rows user_id day u d here)
            (find-insert_or_update (of user_id day) update row rows fits keeps)
      | inr there ↦
          let apart : (r : A) → of user_id day r ≡ true → of u d r ≡ false =
            λ r k. other_key user_id day u d (user_of r) (day_of r) there k in
          rw (there) (
            find_of_keep (of u d) put
            ∙ ap (find (of u d)) (
                keep-insert_or_update (of user_id day) (of u d) update row rows apart
                  (λ r k. apart (update r) (keeps r k)) (apart row fits))
            ∙ sym (find_of_keep (of u d) rows))
    ]

    pub put-KeyedRows : KeyedRows rows → KeyedRows put
    put-KeyedRows keyed u d = elim (Bool-cases (same_key user_id day u d)) [
      | inl here ↦
          rw
            (
              same_rows user_id day u d here,
              insert_or_update-selected (of user_id day) update row rows fits keeps
                  (keyed user_id day),
            )
            (omega arith)
      | inr there ↦
          let apart : (r : A) → of user_id day r ≡ true → of u d r ≡ false =
            λ r k. other_key user_id day u d (user_of r) (day_of r) there k in
          rw
            (
              selected_of_keep (of u d) put,
              keep-insert_or_update (of user_id day) (of u d) update row rows apart
                  (λ r k. apart (update r) (keeps r k)) (apart row fits),
              ← selected_of_keep (of u d) rows,
            )
            (keyed u d)
    ]

  module _ (rows : List A) (user_id day : ℕ) where
    pub find-delete_one :
        KeyedRows rows
        → (u d : ℕ)
        → find (of u d) (delete_one (of user_id day) rows)
          ≡ (if same_key user_id day u d then none else find (of u d) rows)
    find-delete_one keyed u d = elim (Bool-cases (same_key user_id day u d)) [
      | inl here ↦
          rw (here, same_rows user_id day u d here)
            (find_of_none (of user_id day) _
              (delete_one-selected (of user_id day) rows (keyed user_id day)))
      | inr there ↦ rw (there) (
          find_of_keep (of u d) (delete_one (of user_id day) rows)
          ∙ ap (find (of u d)) (
              keep-delete_one (of user_id day) (of u d) rows
                (λ r k. other_key user_id day u d (user_of r) (day_of r) there k))
          ∙ sym (find_of_keep (of u d) rows))
    ]

    pub delete_one-KeyedRows : KeyedRows rows → KeyedRows (delete_one (of user_id day) rows)
    delete_one-KeyedRows keyed u d = elim (Bool-cases (same_key user_id day u d)) [
      | inl here ↦
          rw
            (
              same_rows user_id day u d here,
              delete_one-selected (of user_id day) rows (keyed user_id day),
            )
            (omega arith)
      | inr there ↦
          rw
            (
              selected_of_keep (of u d) (delete_one (of user_id day) rows),
              keep-delete_one (of user_id day) (of u d) rows
                  (λ r k. other_key user_id day u d (user_of r) (day_of r) there k),
              ← selected_of_keep (of u d) rows,
            )
            (keyed u d)
    ]

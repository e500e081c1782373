-- ===== src/Base/Sort.antt =====
-- Python's `sorted(xs, key=...)` with numbers for keys: a stable sort.
use timekpr_next_hub.Base.Tests.{leb, if◌then◌else◌}
use timekpr_next_hub.Base.Lists.{All, any}
use Prim.Native.Nat.{ℕ, ◌≤◌}
use mathlib.Core.Path.{◌≡◌, refl}
use mathlib.Core.Bool.{Bool, true, false, ◌||◌}
use mathlib.Core.List.{List, [], ◌∷◌}
use native.Mathlib.Omega.{arith}

module _ {ℓ} {A : Type ℓ} (key : A → ℕ) where
  abbrev pub insert_by : A → List A → List A
  insert_by x [] = x ∷ []
  insert_by x (y ∷ ys) =
      let rest = insert_by x ys in if leb (key x) (key y) then x ∷ y ∷ ys else y ∷ rest

  unfoldable pub sorted_by : List A → List A
  sorted_by [] = []
  sorted_by (x ∷ xs) = insert_by x (sorted_by xs)

  -- The keys rise, from `lo` on.
  abbrev pub Ascending : ℕ → List A → Type 0
  Ascending lo [] = Unit
  Ascending lo (x ∷ xs) = (lo ≤ key x) × Ascending (key x) xs

  insert_by-Ascending :
      (lo : ℕ) (x : A) (xs : List A) → lo ≤ key x → Ascending lo xs → Ascending lo (insert_by x xs)
  insert_by-Ascending lo x [] h s = (h, tt)
  insert_by-Ascending lo x (y ∷ ys) h s = ground (arith, insert_by-Ascending (key y) x ys)

  pub sorted_by-Ascending : (xs : List A) → Ascending 0 (sorted_by xs)
  unfolding sorted_by
  sorted_by-Ascending [] = tt
  sorted_by-Ascending (x ∷ xs) =
      insert_by-Ascending 0 x (sorted_by xs) (omega arith) (sorted_by-Ascending xs)

module _ {ℓ κ} {A : Type ℓ} (P : A → Type κ) (key : A → ℕ) where
  insert_by-All : (x : A) (xs : List A) → P x → All P xs → All P (insert_by key x xs)
  insert_by-All x [] p h = (p, tt)
  insert_by-All x (y ∷ ys) p h =
      elim (leb (key x) (key y))
        as (λ b. All P (if b then x ∷ y ∷ ys else y ∷ insert_by key x ys)) [
          | true ↦ (p, h)
          | false ↦ (h.0, insert_by-All x ys p h.1)
        ]

  pub sorted_by-All : (xs : List A) → All P xs → All P (sorted_by key xs)
  unfolding sorted_by
  sorted_by-All [] h = tt
  sorted_by-All (x ∷ xs) h = insert_by-All x (sorted_by key xs) h.0 (sorted_by-All xs h.1)

module _ {ℓ} {A : Type ℓ} (p : A → Bool) (key : A → ℕ) where
  any-insert_by : (x : A) (xs : List A) → any p (insert_by key x xs) ≡ (p x || any p xs)
  any-insert_by x [] = refl
  any-insert_by x (y ∷ ys) = ground (arith, any-insert_by x ys)

  pub any-sorted_by : (xs : List A) → any p (sorted_by key xs) ≡ any p xs
  unfolding sorted_by
  any-sorted_by [] = refl
  any-sorted_by (x ∷ xs) = ground (arith, any-insert_by x (sorted_by key xs), any-sorted_by xs)

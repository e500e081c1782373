-- ===== src/Base/Chars/Strip.antt =====
-- Stripping a text at its ends, and parting it at a character.
use timekpr_next_hub.Base.Tests.{◌==◌}
use timekpr_next_hub.Base.Lists.{any}
use Prim.Native.Nat.{ℕ}
use mathlib.Core.Path.{◌≡◌, refl, ap, ◌∙◌}
use mathlib.Core.Bool.{Bool, false, ◌||◌}
use mathlib.Core.List.{[], ◌∷◌, ◌++◌}
use native.Mathlib.Omega.{arith}
use timekpr_next_hub.Base.Chars.{Chars, is_nil, lstrip, rstrip, partition_at}

module _ (p : ℕ → Bool) where
  pub rstrip-cons : (c : ℕ) (s : Chars) → p c ≡ false → rstrip p (c ∷ s) ≡ c ∷ rstrip p s
  unfolding rstrip
  rstrip-cons c s h = ground arith

  not_nil : (s t : Chars) (c : ℕ) → is_nil (s ++ (c ∷ t)) ≡ false
  not_nil [] t c = refl
  not_nil (d ∷ s) t c = refl

  -- A text that ends as it is stripped, behind anything, after a character that is not stripped.
  pub rstrip-append :
      (s t : Chars) (c : ℕ) → p c ≡ false → rstrip p t ≡ t → rstrip p (s ++ (c ∷ t)) ≡ s ++ (c ∷ t)
  unfolding rstrip
  rstrip-append [] t c h k = rstrip-cons c t h ∙ ap (λ r. c ∷ r) k
  rstrip-append (d ∷ s) t c h k = rw (rstrip-append s t c h k, not_nil s t c) refl

  pub lstrip-cons : (c : ℕ) (s : Chars) → p c ≡ false → lstrip p (c ∷ s) ≡ c ∷ s
  unfolding lstrip
  lstrip-cons c s h = rw (h) refl

or_false : (a b : Bool) → (a || b) ≡ false → (a ≡ false) × (b ≡ false)
or_false a b h = ground arith

-- The first part has no such character: it is what stands before.
pub partition_at-append :
    (c : ℕ) (before after : Chars)
    → any (λ d. c == d) before ≡ false
    → partition_at c (before ++ (c ∷ after)) ≡ (before, after)
unfolding partition_at
partition_at-append c [] after h = ground arith
partition_at-append c (d ∷ before) after h =
    let (other, more) = or_false (c == d) (any (λ e. c == e) before) h in
    rw (other, partition_at-append c before after more) refl

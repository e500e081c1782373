-- ===== src/Base/Count.antt =====
-- How many numbers below a bound pass a test.
use timekpr_next_hub.Base.Tests.{ltb, leb}
use Prim.Native.Nat.{ℕ, zero, suc, ◌+◌, ◌-◌, ◌≤◌, ◌<◌, min}
use mathlib.Core.Path.{◌≡◌, refl}
use mathlib.Core.Bool.{Bool, true, false, ◌||◌, ◌&&◌}
use native.Mathlib.Omega.{arith}

abbrev pub one_if : Bool → ℕ
one_if true = 1
one_if false = 0

pub count_below : ℕ → (ℕ → Bool) → ℕ
count_below zero p = 0
count_below (suc n) p = count_below n p + one_if (p n)

-- `start <= t < end`
abbrev pub in_range : ℕ → ℕ → ℕ → Bool
in_range start end t = leb start t && ltb t end

pub count_below-or :
    (n : ℕ) (p q : ℕ → Bool)
    → ((t : ℕ) → t < n → (p t && q t) ≡ false)
    → count_below n (λ t. p t || q t) ≡ count_below n p + count_below n q
unfolding count_below
count_below-or zero p q h = omega arith
count_below-or (suc n) p q h =
    ground (arith, count_below-or n p q (λ t lt. h t (omega arith)), h n (omega arith))

-- Below `n`, the range has the part of its length that lies there.
range_below :
    (n start end : ℕ) → start ≤ end → count_below n (in_range start end) ≡ min n end - min n start
unfolding count_below
range_below zero start end h = omega arith
range_below (suc n) start end h = ground (arith, range_below n start end h)

pub count_below-range :
    (n start end : ℕ) → start ≤ end → end ≤ n → count_below n (in_range start end) ≡ end - start
count_below-range n start end h k = omega (arith, range_below n start end h)

pub count_below-ext :
    (n : ℕ) (p q : ℕ → Bool) → ((t : ℕ) → t < n → p t ≡ q t) → count_below n p ≡ count_below n q
unfolding count_below
count_below-ext zero p q h = refl
count_below-ext (suc n) p q h =
    ground (arith, count_below-ext n p q (λ t lt. h t (omega arith)), h n (omega arith))

pub count_none : (n : ℕ) → 0 ≡ count_below n (λ t. false)
unfolding count_below
count_none zero = refl
count_none (suc n) = omega (arith, count_none n)

pub count_below_mono :
    (n : ℕ) (p q : ℕ → Bool)
    → ((t : ℕ) → p t ≡ true → q t ≡ true)
    → count_below n p ≤ count_below n q
unfolding count_below
count_below_mono zero p q h = omega arith
count_below_mono (suc n) p q h = ground (arith, count_below_mono n p q h, h n)

pub count_below-or_le :
    (n : ℕ) (p q : ℕ → Bool) → count_below n (λ t. p t || q t) ≤ count_below n p + count_below n q
unfolding count_below
count_below-or_le zero p q = omega arith
count_below-or_le (suc n) p q = ground (arith, count_below-or_le n p q)

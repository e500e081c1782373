-- ===== src/Hub/Editor/Times.antt =====
-- A time that the policy editor shows as hours and minutes, submitted again.
use timekpr_next_hub.Base.{ℕ}
use timekpr_next_hub.Base.Int.{ℤ, pos}

-- The hours and minutes of a field, as the numbers that are typed.
abbrev pub typed : ℕ × ℕ → ℤ × ℤ
typed (h, m) = (pos h, pos m)

-- ===== src/Core/AllowedHours/Expand.antt =====
-- `intervals_to_hours` allows exactly the minutes of the intervals, in records that timekpr admits.
use timekpr_next_hub.Base.{
  ℕ, zero, suc, ◌+◌, ◌-◌, ◌*◌, ◌≤◌, ◌<◌, ◌≡◌, refl, Bool, ◌&&◌, ◌||◌, List, [], ◌∷◌, ◌++◌, arith,
  any, All,
}
use timekpr_next_hub.Base.Count.{in_range}
use timekpr_next_hub.Core.AllowedHours.{
  TimeInterval, HourRecord, IsInterval, hour_record, hours_from, interval_hours, intervals_to_hours,
  first_hour, last_hour, hours_in_day,
}
use timekpr_next_hub.Core.AllowedHours.Minutes.{
  interval_allows, record_allows, intervals_allow, records_allow,
}

any-append {ℓ} :
    {A : Type ℓ} (p : A → Bool) (xs ys : List A) → any p (xs ++ ys) ≡ (any p xs || any p ys)
any-append p [] ys = refl
any-append p (x ∷ xs) ys = ground (arith, any-append p xs ys)

module _ (m : ℕ) (u : Bool) where
  hour_record-allows :
      (iv : TimeInterval) (h : ℕ)
      → record_allows m u (hour_record iv h)
        ≡ (interval_allows m u iv && in_range (h * 60) (h * 60 + 60) m)
  hour_record-allows iv h = ground arith

  hours_from-allows :
      (iv : TimeInterval) (h k : ℕ)
      → records_allow m u (hours_from iv h k)
        ≡ (interval_allows m u iv && in_range (h * 60) ((h + k) * 60) m)
  unfolding hours_from
  hours_from-allows iv h zero = ground arith
  hours_from-allows iv h (suc k) =
      ground (arith, hours_from-allows iv (suc h) k, hour_record-allows iv h)

  interval_hours-allows :
      (iv : TimeInterval)
      → IsInterval iv
      → records_allow m u (interval_hours iv) ≡ interval_allows m u iv
  unfolding interval_hours
  interval_hours-allows iv h =
      ground (arith, hours_from-allows iv (first_hour iv) (last_hour iv + 1 - first_hour iv))

-- A minute is allowed, with a flag, by the hour records of valid intervals exactly when it is by the
-- intervals.
pub intervals_to_hours-allows :
    (m : ℕ) (u : Bool) (ivs : List TimeInterval)
    → All IsInterval ivs
    → records_allow m u (intervals_to_hours ivs) ≡ intervals_allow m u ivs
unfolding intervals_to_hours
intervals_to_hours-allows m u [] h = refl
intervals_to_hours-allows m u (iv ∷ rest) h = ground (
  arith,
  any-append (record_allows m u) (interval_hours iv) (intervals_to_hours rest),
  interval_hours-allows m u iv h.0,
  intervals_to_hours-allows m u rest h.1,
)

-- What timekpr admits as one hour of a day: an hour of the clock, and a part of it that is not empty.
abbrev pub IsHourRecord : HourRecord → Type 0
IsHourRecord r = (r.hour < hours_in_day) × (r.start_min < r.end_min) × (r.end_min ≤ 60)

All-append {ℓ κ} :
    {A : Type ℓ} (P : A → Type κ) (xs ys : List A) → All P xs → All P ys → All P (xs ++ ys)
All-append P [] ys hx hy = hy
All-append P (x ∷ xs) ys hx hy = (hx.0, All-append P xs ys hx.1 hy)

hours_from-IsHourRecord :
    (iv : TimeInterval) (h k : ℕ)
    → IsInterval iv
    → first_hour iv ≤ h
    → h + k ≤ last_hour iv + 1
    → All IsHourRecord (hours_from iv h k)
unfolding hours_from
hours_from-IsHourRecord iv h zero v lo hi = tt
hours_from-IsHourRecord iv h (suc k) v lo hi = (
  (omega arith, omega arith, omega arith),
  hours_from-IsHourRecord iv (suc h) k v (omega arith) (omega arith),
)

pub intervals_to_hours-IsHourRecord :
    (ivs : List TimeInterval) → All IsInterval ivs → All IsHourRecord (intervals_to_hours ivs)
unfolding intervals_to_hours
intervals_to_hours-IsHourRecord [] v = tt
intervals_to_hours-IsHourRecord (iv ∷ rest) v =
    All-append IsHourRecord (interval_hours iv) (intervals_to_hours rest)
      (hours_from-IsHourRecord iv _ _ v.0 (omega arith) (omega arith))
      (intervals_to_hours-IsHourRecord rest v.1)

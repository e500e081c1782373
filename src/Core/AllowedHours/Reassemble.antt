-- ===== src/Core/AllowedHours/Reassemble.antt =====
-- `hours_to_intervals` allows exactly the minutes of the records, and raises on none that are valid.
use timekpr_next_hub.Base.{
  ℕ, ◌<◌, ◌≡◌, refl, ◌∙◌, Bool, ◌||◌, Option, none, some, List, [], ◌∷◌, arith, All, if-elim,
}
use timekpr_next_hub.Base.Sort.{sorted_by, sorted_by-All, any-sorted_by}
use timekpr_next_hub.Core.AllowedHours.{
  TimeInterval, HourRecord, IsInterval, close, run_of, is_empty, continues, reassemble,
  construct_all, hours_to_intervals, intervals_to_hours,
}
use timekpr_next_hub.Core.AllowedHours.Minutes.{record_allows, intervals_allow, records_allow}
use timekpr_next_hub.Core.AllowedHours.Expand.{
  IsHourRecord, intervals_to_hours-IsHourRecord, intervals_to_hours-allows,
}

-- The current run is not empty.
abbrev IsOpen : Option TimeInterval → Type 0
IsOpen none = Unit
IsOpen (some run) = run.start_min < run.end_min

module _ (m : ℕ) (u : Bool) where
  reassemble-allows :
      (cur : Option TimeInterval) (records : List HourRecord)
      → IsOpen cur
      → intervals_allow m u (reassemble cur records)
        ≡ (intervals_allow m u (close cur) || records_allow m u records)
  unfolding reassemble
  reassemble-allows none [] o = refl
  reassemble-allows (some run) [] o = ground arith
  reassemble-allows none (r ∷ rest) o =
      if-elim (λ cur. intervals_allow m u (reassemble cur rest) ≡ records_allow m u (r ∷ rest))
        (is_empty r) _ _ (λ skip. ground (arith, reassemble-allows none rest tt))
        (λ begin. ground (arith, reassemble-allows (some (run_of r)) rest (ground arith)))
  reassemble-allows (some run) (r ∷ rest) o =
      let Allows : List TimeInterval → Type 0 = λ ivs.
        intervals_allow m u ivs
        ≡ (intervals_allow m u (run ∷ []) || records_allow m u (r ∷ rest)) in
      if-elim Allows (is_empty r) _ _ (λ skip. ground (arith, reassemble-allows (some run) rest o))
        λ kept.
          if-elim Allows (continues run r) _ _
            (λ merge. ground (
              arith,
              reassemble-allows (some (record run { end_min = (run_of r).end_min })) rest
                  (ground arith),
            ))
            (λ part. ground (arith, reassemble-allows (some (run_of r)) rest (ground arith)))

-- Runs of valid records are intervals of one day.
reassemble-IsInterval :
    (cur : Option TimeInterval) (records : List HourRecord)
    → All IsInterval (close cur)
    → All IsHourRecord records
    → All IsInterval (reassemble cur records)
unfolding reassemble
reassemble-IsInterval cur [] c v = c
reassemble-IsInterval none (r ∷ rest) c v =
    if-elim (λ cur. All IsInterval (reassemble cur rest)) (is_empty r) _ _
      (λ skip. reassemble-IsInterval none rest tt v.1)
      (λ begin. reassemble-IsInterval (some (run_of r)) rest (omega arith) v.1)
reassemble-IsInterval (some run) (r ∷ rest) c v =
    if-elim (All IsInterval) (is_empty r) _ _ (λ skip. reassemble-IsInterval (some run) rest c v.1)
      λ kept.
        if-elim (All IsInterval) (continues run r) _ _
          (λ merge.
            reassemble-IsInterval (some (record run { end_min = (run_of r).end_min })) rest
              (ground arith) v.1)
          (λ part. (c.0, reassemble-IsInterval (some (run_of r)) rest (omega arith) v.1))

construct_all-IsInterval :
    (ivs : List TimeInterval) → All IsInterval ivs → construct_all ivs ≡ some ivs
unfolding construct_all
construct_all-IsInterval [] v = refl
construct_all-IsInterval (iv ∷ rest) v = ground (arith, construct_all-IsInterval rest v.1)

-- Reassembling valid hour records never raises, every interval that it returns is a valid one, and
-- a minute is allowed, with a flag, by the intervals exactly when it is by the records.
pub hours_to_intervals-allows :
    (records : List HourRecord)
    → All IsHourRecord records
    → (ivs : List TimeInterval) × (hours_to_intervals records ≡ some ivs)
      × All IsInterval ivs
      × ((m : ℕ) (u : Bool) → intervals_allow m u ivs ≡ records_allow m u records)
unfolding hours_to_intervals
hours_to_intervals-allows records v =
    let ordered = sorted_by (λ (r : HourRecord). r.hour) records in
    let valid =
      reassemble-IsInterval none ordered tt (sorted_by-All IsHourRecord (λ r. r.hour) records v) in
    (
      reassemble none ordered,
      construct_all-IsInterval (reassemble none ordered) valid,
      valid,
      λ m u.
          reassemble-allows m u none ordered tt
          ∙ any-sorted_by (record_allows m u) (λ (r : HourRecord). r.hour) records,
    )

-- Intervals expanded to hour records and put together again allow the same minutes, with the same
-- flags, as they did: the way back does not raise, and it returns valid intervals.
pub hours_to_intervals-intervals_to_hours :
    (ivs : List TimeInterval)
    → All IsInterval ivs
    → (back : List TimeInterval) × (hours_to_intervals (intervals_to_hours ivs) ≡ some back)
      × All IsInterval back
      × ((m : ℕ) (u : Bool) → intervals_allow m u back ≡ intervals_allow m u ivs)
hours_to_intervals-intervals_to_hours ivs v =
    let (back, e, valid, same) =
      hours_to_intervals-allows (intervals_to_hours ivs) (intervals_to_hours-IsHourRecord ivs v) in
    (back, e, valid, λ m u. same m u ∙ intervals_to_hours-allows m u ivs v)

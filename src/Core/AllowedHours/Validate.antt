-- ===== src/Core/AllowedHours/Validate.antt =====
-- `validate_intervals` accepts exactly the lists that give each clock hour at most one record.
use timekpr_next_hub.Base.{
  ℕ, zero, suc, ◌+◌, ◌-◌, ◌≤◌, ◌≡◌, refl, ◌↔◌, Bool, ◌&&◌, none, List, [], ◌∷◌, ◌++◌, arith, All,
  leb, ◌==◌,
}
use timekpr_next_hub.Base.Count.{in_range, one_if}
use timekpr_next_hub.Base.Sort.{Ascending, insert_by, sorted_by, sorted_by-Ascending, sorted_by-All}
use timekpr_next_hub.Core.AllowedHours.{
  TimeInterval, HourRecord, IsInterval, hours_from, interval_hours, intervals_to_hours, first_hour,
  last_hour, first_conflict, validate_intervals,
}

-- The number of records that a list has for an hour.
abbrev pub records_at : ℕ → List HourRecord → ℕ
records_at h [] = 0
records_at h (r ∷ rest) = one_if (r.hour == h) + records_at h rest

-- The interval has a minute in the hour.
abbrev touches : ℕ → TimeInterval → Bool
touches h iv = leb (first_hour iv) h && leb h (last_hour iv)

abbrev touching : ℕ → List TimeInterval → ℕ
touching h [] = 0
touching h (iv ∷ rest) = one_if (touches h iv) + touching h rest

tail_no_conflict :
    (a : TimeInterval) (rest : List TimeInterval)
    → first_conflict (a ∷ rest) ≡ none
    → first_conflict rest ≡ none
unfolding first_conflict
tail_no_conflict a [] e = refl
tail_no_conflict a (b ∷ rest) e = ground arith

module _ (h : ℕ) where
  records_at-append :
      (xs ys : List HourRecord) → records_at h (xs ++ ys) ≡ records_at h xs + records_at h ys
  records_at-append [] ys = omega arith
  records_at-append (x ∷ xs) ys = omega (arith, records_at-append xs ys)

  hours_from-at :
      (iv : TimeInterval) (s k : ℕ)
      → records_at h (hours_from iv s k) ≡ one_if (in_range s (s + k) h)
  unfolding hours_from
  hours_from-at iv s zero = ground arith
  hours_from-at iv s (suc k) = ground (arith, hours_from-at iv (suc s) k)

  intervals_to_hours-at :
      (ivs : List TimeInterval)
      → All IsInterval ivs
      → records_at h (intervals_to_hours ivs) ≡ touching h ivs
  unfolding intervals_to_hours
  intervals_to_hours-at [] v = refl
  intervals_to_hours-at (iv ∷ rest) v = ground (
    arith,
    records_at-append (interval_hours iv) (intervals_to_hours rest),
    hours_from-at iv (first_hour iv) (last_hour iv + 1 - first_hour iv),
    intervals_to_hours-at rest v.1,
  )

  touching-insert_by :
      (key : TimeInterval → ℕ) (iv : TimeInterval) (ivs : List TimeInterval)
      → touching h (insert_by key iv ivs) ≡ touching h (iv ∷ ivs)
  touching-insert_by key iv [] = refl
  touching-insert_by key iv (x ∷ xs) = ground (arith, touching-insert_by key iv xs)

  touching-sorted_by :
      (key : TimeInterval → ℕ) (ivs : List TimeInterval)
      → touching h (sorted_by key ivs) ≡ touching h ivs
  unfolding sorted_by
  touching-sorted_by key [] = refl
  touching-sorted_by key (iv ∷ rest) =
      omega (arith, touching-insert_by key iv (sorted_by key rest), touching-sorted_by key rest)

  -- Without a conflict, nothing later reaches back into an hour of `a`.
  later_hours_free :
      (a : TimeInterval) (rest : List TimeInterval)
      → first_conflict (a ∷ rest) ≡ none
      → All IsInterval (a ∷ rest)
      → h ≤ last_hour a
      → touching h rest ≡ 0
  unfolding first_conflict
  later_hours_free a [] e v k = refl
  later_hours_free a (b ∷ rest) e v k = ground (arith, later_hours_free b rest)

  no_conflict-single :
      (ivs : List TimeInterval)
      → first_conflict ivs ≡ none
      → All IsInterval ivs
      → touching h ivs ≤ 1
  no_conflict-single [] e v = omega arith
  no_conflict-single (a ∷ rest) e v =
      ground (
        arith,
        later_hours_free a rest e v,
        no_conflict-single rest (tail_no_conflict a rest e) v.1,
      )

single-no_conflict :
    (lo : ℕ) (ivs : List TimeInterval)
    → ((h : ℕ) → touching h ivs ≤ 1)
    → All IsInterval ivs
    → Ascending (λ (iv : TimeInterval). iv.start_min) lo ivs
    → first_conflict ivs ≡ none
unfolding first_conflict
single-no_conflict lo [] once v s = refl
single-no_conflict lo (a ∷ []) once v s = refl
single-no_conflict lo (a ∷ b ∷ rest) once v s = ground (
  arith,
  once (first_hour b),
  single-no_conflict a.start_min (b ∷ rest) (λ h. omega (arith, once h)) v.1 s.1,
)

-- Valid intervals are accepted exactly when their hour records have no clock hour twice, which is
-- what timekpr can store.
pub validate_intervals_iff :
    (ivs : List TimeInterval)
    → All IsInterval ivs
    → (validate_intervals ivs ≡ none) ↔ ((h : ℕ) → records_at h (intervals_to_hours ivs) ≤ 1)
unfolding validate_intervals
validate_intervals_iff ivs v =
    let key : TimeInterval → ℕ = λ iv. iv.start_min in
    let valid = sorted_by-All IsInterval key ivs v in
    (
      λ e h. omega (
        arith,
        intervals_to_hours-at h ivs v,
        touching-sorted_by h key ivs,
        no_conflict-single h (sorted_by key ivs) e valid,
      ),
      λ once.
          single-no_conflict 0 (sorted_by key ivs)
            (λ h.
              omega (arith, once h, intervals_to_hours-at h ivs v, touching-sorted_by h key ivs))
            valid (sorted_by-Ascending key ivs),
    )

-- ===== src/Core/EffectivePolicy/Hours.antt =====
-- The hours that a device is served for each weekday.
use timekpr_next_hub.Base.{
  ℕ, ◌==◌, ◌&&◌, ◌≡◌, refl, ap, ◌∙◌, Bool, true, false, some, List, [], ◌∷◌, arith, if◌then◌else◌,
  if-elim,
}
use timekpr_next_hub.Core.AllowedHours.{HourRecord}
use timekpr_next_hub.Core.Models.{Weekday, PolicyPayload, same_weekday, iso_number}
use timekpr_next_hub.Core.EffectivePolicy.{
  WeekHours, hours_of, or_unrestricted, materialize_allowed_hours, put_hours, is_allowed_weekday,
  with_day_hour_override,
}

-- Every one of the seven days has an entry: the policy's hours, or the whole day where the policy has
-- none.
pub materialize_allowed_hours-covers :
    (hours : WeekHours) (day : Weekday)
    → hours_of day (materialize_allowed_hours hours) ≡ some (or_unrestricted (hours_of day hours))
unfolding materialize_allowed_hours
materialize_allowed_hours-covers hours Weekday.mon = refl
materialize_allowed_hours-covers hours Weekday.tue = refl
materialize_allowed_hours-covers hours Weekday.wed = refl
materialize_allowed_hours-covers hours Weekday.thu = refl
materialize_allowed_hours-covers hours Weekday.fri = refl
materialize_allowed_hours-covers hours Weekday.sat = refl
materialize_allowed_hours-covers hours Weekday.sun = refl

equal_tests : (a b c : ℕ) → (a == b) ≡ true → (a == c) ≡ (b == c)
equal_tests a b c h = ground arith

apart_tests : (a b c : ℕ) → (a == b) ≡ false → ((a == c) && (b == c)) ≡ false
apart_tests a b c h = ground arith

drop_shadowed {ℓ} :
    {A : Type ℓ} (p q : Bool) (x y z : A)
    → p ≡ q
    → (if q then x else z) ≡ (if q then x else if p then y else z)
drop_shadowed true true x y z h = refl
drop_shadowed true false x y z h = cc
drop_shadowed false true x y z h = refl
drop_shadowed false false x y z h = refl

swap_tests {ℓ} :
    {A : Type ℓ} (p q : Bool) (x y z : A)
    → (p && q) ≡ false
    → (if p then y else if q then x else z) ≡ (if q then x else if p then y else z)
swap_tests true true x y z h = cc
swap_tests true false x y z h = refl
swap_tests false true x y z h = refl
swap_tests false false x y z h = refl

put_hours-hours_of :
    (weekday day : Weekday) (intervals : List HourRecord) (hours : WeekHours)
    → hours_of day (put_hours weekday intervals hours)
      ≡ (if same_weekday weekday day then some intervals else hours_of day hours)
put_hours-hours_of weekday day intervals [] = refl
put_hours-hours_of weekday day intervals ((d, h) ∷ rest) =
    if-elim
      (λ out.
        hours_of day out
        ≡ (if same_weekday weekday day then some intervals else hours_of day ((d, h) ∷ rest)))
      (same_weekday d weekday) ((weekday, intervals) ∷ rest)
      ((d, h) ∷ put_hours weekday intervals rest)
      (λ hit.
        drop_shadowed (same_weekday d day) (same_weekday weekday day) (some intervals) (some h)
          (hours_of day rest)
          (equal_tests (iso_number d) (iso_number weekday) (iso_number day) hit))
      (λ miss.
        ap (λ o. if same_weekday d day then some h else o)
          (put_hours-hours_of weekday day intervals rest)
        ∙ swap_tests (same_weekday d day) (same_weekday weekday day) (some intervals) (some h)
            (hours_of day rest)
            (apart_tests (iso_number d) (iso_number weekday) (iso_number day) miss))

replaced :
    (m : WeekHours) (b : Bool) (weekday day : Weekday) (intervals : List HourRecord)
    (kept : List HourRecord)
    → hours_of day m ≡ some kept
    → hours_of day (if b then put_hours weekday intervals m else m)
      ≡ (if b then if same_weekday weekday day then some intervals else some kept else some kept)
replaced m true weekday day intervals kept h =
    put_hours-hours_of weekday day intervals m
    ∙ ap (λ o. if same_weekday weekday day then some intervals else o) h
replaced m false weekday day intervals kept h = h

-- The hours that a day's override makes of the policy: the override for its own weekday, where the
-- user may log in on it, and for every other weekday what the policy has.
pub with_day_hour_override-hours :
    (payload : PolicyPayload) (weekday day : Weekday) (intervals : List HourRecord)
    → hours_of day (with_day_hour_override payload weekday intervals).allowed_hours ≡ (
        if is_allowed_weekday weekday payload.allowed_weekdays
        then if same_weekday weekday day
          then some intervals
          else some (or_unrestricted (hours_of day payload.allowed_hours))
        else some (or_unrestricted (hours_of day payload.allowed_hours)))
unfolding with_day_hour_override
with_day_hour_override-hours payload weekday day intervals =
    replaced (materialize_allowed_hours payload.allowed_hours)
      (is_allowed_weekday weekday payload.allowed_weekdays) weekday day intervals
      (or_unrestricted (hours_of day payload.allowed_hours))
      (materialize_allowed_hours-covers payload.allowed_hours day)

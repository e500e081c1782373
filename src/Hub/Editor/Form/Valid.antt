-- ===== src/Hub/Editor/Form/Valid.antt =====
-- What an accepted form of the policy editor promises.
use timekpr_next_hub.Base.{
  ◌*◌, ◌&&◌, ◌≡◌, ◌≢◌, refl, ap, subst, Bool, true, false, Option, none, some, List, [], ◌∷◌, arith,
  keep, any, length, All, if-elim, ==_iff,
}
use timekpr_next_hub.Base.Int.{ℤ, pos, ◌≤ℤ◌}
use timekpr_next_hub.Core.AllowedHours.{HourRecord}
use timekpr_next_hub.Core.AllowedHours.Expand.{IsHourRecord}
use timekpr_next_hub.Core.Models.{Weekday, PlayTimeActivity, weekday_tokens, same_weekday}
use timekpr_next_hub.Core.EffectivePolicy.{WeekHours, hours_of}
use timekpr_next_hub.Hub.Policy.{PolicyUpdate}
use timekpr_next_hub.Hub.Editor.{DayForm, parse_day_hours, hours_of_day}
use timekpr_next_hub.Hub.Editor.Parsed.{parse_day_hours-IsHourRecord}
use timekpr_next_hub.Hub.Editor.Form.{
  FormResult, accepted, unprocessable, crashed, ◌>>=◌, required, PolicyForm, parse_daily,
  parse_week, some_weekday, parse_cap, hm_fields, parse_activities, parse_fields, between_0_and,
  all_of, is_update, policy_update, with_activities, parse_policy_form,
}

-- The hours of a day, present and valid.
abbrev pub HasHours : WeekHours → Weekday → Type 0
HasHours week day =
    (records : List HourRecord) × (hours_of day week ≡ some records)
    × All IsHourRecord records
    × (records ≢ [])

abbrev pub IsWithin : ℤ → ℤ → Type 0
IsWithin top s = (pos 0 ≤ℤ s) × (s ≤ℤ top)

-- An update that a device can carry out.
pub record IsUpdate (update : PolicyUpdate) : Type 0 where
  pub seven_limits : length update.daily_limits_s ≡ 7
  pub limits_within : All (IsWithin (pos 86400)) update.daily_limits_s
  pub weekly_within : IsWithin (pos (7 * 86400)) update.weekly_limit_s
  pub monthly_within : IsWithin (pos (31 * 86400)) update.monthly_limit_s
  pub a_weekday : update.allowed_weekdays ≢ []
  pub hours : (day : Weekday) → HasHours update.allowed_hours day
  pub pt_seven_limits : length update.playtime.daily_limits_s ≡ 7
  pub pt_limits_within : All (IsWithin (pos 86400)) update.playtime.daily_limits_s

accepted_inj {ℓ} : {A : Type ℓ} (a b : A) → accepted a ≡ accepted b → a ≡ b
accepted_inj a b e = cc

module _ {ℓ κ} {A : Type ℓ} (P : A → Type κ) where
  abbrev Gives : FormResult A → Type (ℓ ⊔ κ)
  Gives outcome = (a : A) → outcome ≡ accepted a → P a

  accepted-Gives : (a : A) → P a → Gives (accepted a)
  accepted-Gives a holds b e = subst P (accepted_inj a b e) holds

  unprocessable-Gives : Gives unprocessable
  unprocessable-Gives a e = cc

  crashed-Gives : Gives crashed
  crashed-Gives a e = cc

  bind-Gives {ι} :
      {B : Type ι} (step : FormResult B) (next : B → FormResult A)
      → ((b : B) → step ≡ accepted b → Gives (next b))
      → Gives (step >>= next)
  bind-Gives (accepted b) next each = each b refl
  bind-Gives unprocessable next each = unprocessable-Gives
  bind-Gives crashed next each = crashed-Gives

required-some {ℓ} :
    {A : Type ℓ} (found : Option A) (a : A) → required found ≡ accepted a → found ≡ some a
required-some none a e = cc
required-some (some b) a e = ap some (accepted_inj b a e)

abbrev is_in : Weekday → List Weekday → Bool
is_in day = any (λ d. same_weekday d day)

-- A week has hours on each of the days.
Covers : List Weekday → WeekHours → Type 0
Covers days week = (day : Weekday) → is_in day days ≡ true → HasHours week day

nil-Covers : Covers [] []
unfolding Covers
nil-Covers day within = cc

cons-Covers :
    (d : Weekday) (records : List HourRecord) (days : List Weekday) (week : WeekHours)
    → All IsHourRecord records × (records ≢ [])
    → Covers days week
    → Covers (d ∷ days) ((d, records) ∷ week)
unfolding Covers
cons-Covers d records days week valid later day within =
    if-elim
      (λ found.
        (kept : List HourRecord) × (found ≡ some kept) × All IsHourRecord kept × (kept ≢ []))
      (same_weekday d day) _ _ (λ same. (records, refl, valid.0, valid.1))
      (λ other. later day (ground arith))

parse_week-Covers :
    (hours : Weekday → DayForm) (days : List Weekday) → Gives (Covers days) (parse_week hours days)
parse_week-Covers hours [] = accepted-Gives _ [] nil-Covers
parse_week-Covers hours (d ∷ days) =
    bind-Gives _ (required (parse_day_hours (hours d))) _ λ records parsed.
      bind-Gives _ (parse_week hours days) _ λ week rest. accepted-Gives _ _ (
        cons-Covers d records days week
          (parse_day_hours-IsHourRecord (hours d) records (required-some _ records parsed))
          (parse_week-Covers hours days week rest))

each_weekday : (day : Weekday) → is_in day weekday_tokens ≡ true
each_weekday Weekday.mon = refl
each_weekday Weekday.tue = refl
each_weekday Weekday.wed = refl
each_weekday Weekday.thu = refl
each_weekday Weekday.fri = refl
each_weekday Weekday.sat = refl
each_weekday Weekday.sun = refl

some_weekday-nonempty : (days kept : List Weekday) → some_weekday days ≡ some kept → kept ≢ []
some_weekday-nonempty [] kept e = cc
some_weekday-nonempty (d ∷ days) kept e = cc

-- What is known before the validators run.
record IsParsed (update : PolicyUpdate) : Type 0 where
  weekdays : update.allowed_weekdays ≢ []
  covered : Covers weekday_tokens update.allowed_hours

parse_fields-IsParsed : (form : PolicyForm) → Gives IsParsed (parse_fields form)
unfolding parse_fields
parse_fields-IsParsed form = bind-Gives _ (parse_daily form) _ λ daily e1.
    bind-Gives _ (parse_week form.hours weekday_tokens) _ λ week e2.
      bind-Gives _ (required (some_weekday (keep form.allowed_weekday weekday_tokens))) _ λ days e3.
        bind-Gives _ (required form.lockout_type) _ λ lockout e4.
          bind-Gives _ (parse_cap form.weekly_cap_enabled form.weekly _) _ λ weekly e5.
            bind-Gives _ (parse_cap form.monthly_cap_enabled form.monthly _) _ λ monthly e6.
              bind-Gives _ (hm_fields form.pt_daily (hours_of_day 0 7)) _ λ pt e7.
                accepted-Gives _ _ (record {
                  weekdays = some_weekday-nonempty _ days (required-some _ days e3);
                  covered = parse_week-Covers form.hours weekday_tokens week e2;
                })

both : (a b : Bool) → (a && b) ≡ true → (a ≡ true) × (b ≡ true)
both true b h = (refl, h)
both false b h = cc

between_0_and-IsWithin : (top s : ℤ) → between_0_and top s ≡ true → IsWithin top s
between_0_and-IsWithin top s h = ground arith

all_of-IsWithin :
    (top : ℤ) (xs : List ℤ) → all_of (between_0_and top) xs ≡ true → All (IsWithin top) xs
all_of-IsWithin top [] h = tt
all_of-IsWithin top (x ∷ xs) h =
    let split = both _ _ h in (between_0_and-IsWithin top x split.0, all_of-IsWithin top xs split.1)

is_update-IsUpdate :
    (update : PolicyUpdate) → IsParsed update → is_update update ≡ true → IsUpdate update
unfolding Covers
is_update-IsUpdate update parsed h0 =
    let h1 = both _ _ h0 in
    let h2 = both _ _ h1.0 in
    let h3 = both _ _ h2.0 in
    let h4 = both _ _ h3.0 in
    let h5 = both _ _ h4.0 in
    let h6 = both _ _ h5.0 in
    let h7 = both _ _ h6.0 in
    let h8 = both _ _ h7.0 in
    record {
      seven_limits = (==_iff _ _).0 h8.0;
      limits_within = all_of-IsWithin (pos 86400) _ h8.1;
      weekly_within = between_0_and-IsWithin (pos (7 * 86400)) _ h7.1;
      monthly_within = between_0_and-IsWithin (pos (31 * 86400)) _ h6.1;
      a_weekday = parsed.weekdays;
      hours = λ day. parsed.covered day (each_weekday day);
      pt_seven_limits = (==_iff _ _).0 h2.1;
      pt_limits_within = all_of-IsWithin (pos 86400) _ h1.1;
    }

with_activities-IsParsed :
    (update : PolicyUpdate) (activities : List PlayTimeActivity)
    → IsParsed update
    → IsParsed (with_activities update activities)
with_activities-IsParsed update activities parsed = record {
  weekdays = parsed.weekdays;
  covered = parsed.covered;
}

policy_update-IsUpdate :
    (update : PolicyUpdate) → IsParsed update → Gives IsUpdate (policy_update update)
unfolding policy_update
policy_update-IsUpdate update parsed =
    if-elim (Gives IsUpdate) (is_update update) _ _
      (λ valid. accepted-Gives IsUpdate update (is_update-IsUpdate update parsed valid))
      (λ invalid. unprocessable-Gives IsUpdate)

-- Whatever is submitted: a form that is accepted is an update with seven daily limits from 0 to 24 hours,
-- a weekly limit of at most 7 days, a monthly one of at most 31 days, at least one weekday, and on every
-- weekday at least one hour, all of its hours valid; the limits of the play time are seven and within a
-- day as well.
pub parse_policy_form-IsUpdate :
    (form : PolicyForm) (update : PolicyUpdate)
    → parse_policy_form form ≡ accepted update
    → IsUpdate update
unfolding parse_policy_form
parse_policy_form-IsUpdate form = bind-Gives IsUpdate (parse_fields form) _ λ fields parsed.
    bind-Gives IsUpdate (parse_activities form.pt_activities) _ λ activities e.
      policy_update-IsUpdate _
        (with_activities-IsParsed fields activities (parse_fields-IsParsed form fields parsed))

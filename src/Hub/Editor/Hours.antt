-- ===== src/Hub/Editor/Hours.antt =====
-- A day's hours, shown and submitted again.
use timekpr_next_hub.Base.{
  ℕ, ◌*◌, ◌/◌, ◌%◌, ◌≡◌, ◌≢◌, ◌≤◌, ◌<◌, refl, sym, subst, ◌∙◌, ◌&&◌, ◌||◌, not, ltb, Bool, true,
  false, Option, none, some, List, [], ◌∷◌, arith, map, All, if-elim,
}
use timekpr_next_hub.Core.AllowedHours.{
  TimeInterval, HourRecord, IsInterval, time_interval, unrestricted, intervals_to_hours,
  hours_to_intervals, validate_intervals, first_conflict,
}
use timekpr_next_hub.Base.Sort.{sorted_by}
use timekpr_next_hub.Core.AllowedHours.Expand.{IsHourRecord, intervals_to_hours-allows}
use timekpr_next_hub.Core.AllowedHours.Reassemble.{hours_to_intervals-allows}
use timekpr_next_hub.Core.AllowedHours.Minutes.{records_allow, intervals_allow}
use timekpr_next_hub.Hub.Sync.Lookup.{some_inj}
use timekpr_next_hub.Hub.Editor.{
  HoursMode, DayView, all_day_view, is_full_day, view_of, classify_day_hours, parse_time_str,
  parse_day_hours, submitted, between, fmt_hm,
}

-- A time of the day is read back as it is shown.
pub parse_time_str-fmt_hm : (m : ℕ) → m ≤ 24 * 60 → parse_time_str (some (fmt_hm m)) ≡ some m
unfolding parse_time_str
parse_time_str-fmt_hm m h = ground arith

pub one_interval : (iv : TimeInterval) → validate_intervals (iv ∷ []) ≡ none
unfolding validate_intervals first_conflict sorted_by
one_interval iv = refl

pub time_interval-valid : (iv : TimeInterval) → IsInterval iv → time_interval iv ≡ some iv
unfolding time_interval
time_interval-valid iv h = ground arith

pub unrestricted-IsInterval : All IsInterval unrestricted
unfolding unrestricted
unrestricted-IsInterval = ((omega arith, omega arith), tt)

unrestricted-allows :
    (m : ℕ) (u : Bool) → intervals_allow m u unrestricted ≡ (ltb m (24 * 60) && not u)
unfolding unrestricted
unrestricted-allows m u = ground arith

pub classify_day_hours-merged :
    (records : List HourRecord) (ivs : List TimeInterval)
    → hours_to_intervals records ≡ some ivs
    → classify_day_hours (some records) ≡ some (view_of records ivs)
unfolding classify_day_hours
classify_day_hours-merged records ivs merged = rw merged refl

-- What the field of a time keeps of what the page puts there.
module _ (time_input : ℕ × ℕ → Option (ℕ × ℕ)) where
  -- A time from 00:00 to 23:59 is kept.
  abbrev pub Keeps : Type 0
  Keeps = (h m : ℕ) → h < 24 → m < 60 → time_input (h, m) ≡ some (h, m)

  -- A valid window is saved as its hours.
  parse-between :
      (a b : ℕ) (hours : List ℕ)
      → Keeps
      → IsInterval (record { start_min = a; end_min = b; unaccounted = false })
      → b < 24 * 60
      → parse_day_hours (
          submitted time_input (record {
            mode = between;
            from_min = a;
            to_min = b;
            hours = hours;
            unaccounted = false;
          }))
        ≡ some
            (intervals_to_hours (record { start_min = a; end_min = b; unaccounted = false } ∷ []))
  unfolding parse_day_hours submitted
  parse-between a b hours keeps valid early =
      rw
        (
          keeps (a / 60) (a % 60) (omega arith) (omega arith),
          keeps (b / 60) (b % 60) (omega arith) (omega arith),
          parse_time_str-fmt_hm a (omega arith),
          parse_time_str-fmt_hm b (omega arith),
          time_interval-valid (record { start_min = a; end_min = b; unaccounted = false }) valid,
          one_interval (record { start_min = a; end_min = b; unaccounted = false }),
        )
        refl

  -- What a day that is saved allows, against the intervals that it was shown from: all of it counted.
  record IsSaved (view : DayView) (ivs : List TimeInterval) : Type 0 where
    saved : List HourRecord
    parsed : parse_day_hours (submitted time_input view) ≡ some saved
    all_counted :
        (m : ℕ)
        → records_allow m false saved ≡ (intervals_allow m false ivs || intervals_allow m true ivs)
    none_uncounted : (m : ℕ) → records_allow m true saved ≡ false

  pub all_day_parsed :
      parse_day_hours (submitted time_input all_day_view) ≡ some (intervals_to_hours unrestricted)
  unfolding parse_day_hours submitted
  all_day_parsed = refl

  pub unrestricted-counted :
      (m : ℕ) → records_allow m true (intervals_to_hours unrestricted) ≡ false
  unrestricted-counted m =
      intervals_to_hours-allows m true unrestricted unrestricted-IsInterval
      ∙ unrestricted-allows m true
      ∙ ground arith

  full_day-IsSaved : (iv : TimeInterval) → is_full_day iv ≡ true → IsSaved all_day_view (iv ∷ [])
  full_day-IsSaved iv full = record {
    saved = intervals_to_hours unrestricted;
    parsed = all_day_parsed;
    all_counted = λ m. ground (
      arith,
      intervals_to_hours-allows m false unrestricted unrestricted-IsInterval,
      unrestricted-allows m false,
    );
    none_uncounted = unrestricted-counted;
  }

  between-IsSaved :
      (records : List HourRecord) (iv : TimeInterval)
      → Keeps
      → All IsInterval (iv ∷ [])
      → not iv.unaccounted ≡ true
      → iv.end_min < 24 * 60
      → IsSaved
          (record {
            mode = between;
            from_min = iv.start_min;
            to_min = iv.end_min;
            hours = map (λ (r : HourRecord). r.hour) records;
            unaccounted = false;
          })
          (iv ∷ [])
  between-IsSaved records iv keeps valid counted early =
      let shown : TimeInterval = record {
        start_min = iv.start_min;
        end_min = iv.end_min;
        unaccounted = false;
      } in
      record {
        saved = intervals_to_hours (shown ∷ []);
        parsed = parse-between iv.start_min iv.end_min _ keeps valid.0 early;
        all_counted = λ m. ground (arith, intervals_to_hours-allows m false (shown ∷ []) valid);
        none_uncounted = λ m. ground (arith, intervals_to_hours-allows m true (shown ∷ []) valid);
      }

  -- A view in the custom mode, or of a window to the end of the day, promises nothing.
  IsKeptBy : List TimeInterval → DayView → Type 0
  IsKeptBy ivs view =
      view.mode ≢ HoursMode.custom
      → (view.mode ≡ between → view.to_min < 24 * 60)
      → IsSaved view ivs

  view_of-IsKeptBy :
      (records : List HourRecord) (ivs : List TimeInterval)
      → Keeps
      → All IsInterval ivs
      → IsKeptBy ivs (view_of records ivs)
  unfolding view_of IsKeptBy
  view_of-IsKeptBy records [] keeps valid = λ mode. absurd (mode refl)
  view_of-IsKeptBy records (iv ∷ []) keeps valid =
      if-elim (IsKeptBy (iv ∷ [])) (is_full_day iv) _ _
        (λ full mode early. full_day-IsSaved iv full)
        (λ partial.
          if-elim (IsKeptBy (iv ∷ [])) (not iv.unaccounted) _ _
            (λ counted mode early. between-IsSaved records iv keeps valid counted (early refl))
            (λ uncounted mode. absurd (mode refl)))
  view_of-IsKeptBy records (iv ∷ more ∷ rest) keeps valid = λ mode. absurd (mode refl)

  -- The hours of a day, valid records, are shown, not in the custom mode, and where they are shown as a
  -- window it ends before 24:00; a browser keeps the times from 00:00 to 23:59. Submitting the day as
  -- it is shown is accepted, and the records that it is saved as allow the same minutes of the day,
  -- all of them counted.
  pub unchanged_day-allows :
      (records : List HourRecord) (view : DayView)
      → Keeps
      → All IsHourRecord records
      → classify_day_hours (some records) ≡ some view
      → view.mode ≢ HoursMode.custom
      → (view.mode ≡ between → view.to_min < 24 * 60)
      → (saved : List HourRecord) × (parse_day_hours (submitted time_input view) ≡ some saved)
        × ((m : ℕ)
            → records_allow m false saved
              ≡ (records_allow m false records || records_allow m true records))
        × ((m : ℕ) → records_allow m true saved ≡ false)
  unfolding IsKeptBy
  unchanged_day-allows records view keeps valid shown mode early =
      let (ivs, merged, valid_ivs, allowed) = hours_to_intervals-allows records valid in
      let same : view_of records ivs ≡ view =
        some_inj _ _ (sym (classify_day_hours-merged records ivs merged) ∙ shown) in
      let kept =
        subst (IsKeptBy ivs) same (view_of-IsKeptBy records ivs keeps valid_ivs) mode early in
      (
        kept.saved,
        kept.parsed,
        λ m. kept.all_counted m ∙ rw (allowed m false, allowed m true) refl,
        kept.none_uncounted,
      )

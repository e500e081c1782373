-- ===== src/Hub/Editor/Form.antt =====
-- hub/timekpr_hub/api/ui/policy.py, _parse_policy_form: the submitted form becomes a PolicyUpdate, and
-- the validators of PolicyUpdate, PlayTimePayload and PlayTimeActivity in
-- core/timekpr_hub_core/models.py. A number of the form comes parsed (none where `int` raises); the
-- activities come as the stripped mask and description of each line.
pub mod Valid
pub mod Crash
pub mod Tests
use text.Mathlib.Text.{find?}
use timekpr_next_hub.Base.{
  ℕ, zero, suc, ◌+◌, ◌*◌, ◌==◌, ◌&&◌, ◌||◌, not, leb, ltb, String, str_eq, Bool, true, false,
  Option, none, some, List, [], ◌∷◌, map, keep, any, length, if◌then◌else◌,
}
use Prim.Native.String.{count}
use timekpr_next_hub.Base.Int.{ℤ, pos, leb_ℤ}
use timekpr_next_hub.Core.AllowedHours.{HourRecord}
use timekpr_next_hub.Core.Models.{
  Weekday, LockoutType, PlayTimeActivity, PlayTimePayload, weekday_tokens,
}
use timekpr_next_hub.Core.EffectivePolicy.{WeekHours}
use timekpr_next_hub.Hub.Policy.{PolicyUpdate, seven}
use timekpr_next_hub.Hub.Editor.{DayForm, parse_day_hours, hm_seconds, hours_of_day}

-- What a request comes to: a value, the answer 422, or an exception that nothing catches, which is
-- the answer 500.
pub data FormResult {ℓ} (A : Type ℓ) : Type ℓ where
  accepted : A → FormResult A
  unprocessable crashed : FormResult A

infixl 5 ◌>>=◌
abbrev pub ◌>>=◌ {ℓ κ} :
    {A : Type ℓ} {B : Type κ} → FormResult A → (A → FormResult B) → FormResult B
accepted a >>= next = next a
unprocessable >>= next = unprocessable
crashed >>= next = crashed

-- An HTTPException for what is not there.
abbrev pub required {ℓ} : {A : Type ℓ} → Option A → FormResult A
required none = unprocessable
required (some a) = accepted a

pub record PolicyForm : Type 0 where
  pub daily_same : Bool
  pub daily_master : Option (ℤ × ℤ)
  pub daily : ℕ → Option (ℤ × ℤ)
  pub hours : Weekday → DayForm
  pub allowed_weekday : Weekday → Bool
  pub lockout_type : Option LockoutType
  pub weekly_cap_enabled : Bool
  pub weekly : Option (ℤ × ℤ)
  pub monthly_cap_enabled : Bool
  pub monthly : Option (ℤ × ℤ)
  pub wake_from : String
  pub wake_to : String
  pub track_inactive : Bool
  pub hide_tray_icon : Bool
  pub pt_enabled : Bool
  pub pt_override : Bool
  pub pt_unaccounted : Bool
  pub pt_allowed_weekday : Weekday → Bool
  pub pt_daily : ℕ → Option (ℤ × ℤ)
  pub pt_activities : List (String × String)
  pub note : String

-- `_hm_seconds` of a field.
abbrev pub hm_field : Option (ℤ × ℤ) → FormResult ℤ
hm_field none = crashed
hm_field (some hm) = accepted (hm_seconds hm)

abbrev pub hm_fields : (ℕ → Option (ℤ × ℤ)) → List ℕ → FormResult (List ℤ)
hm_fields field [] = accepted []
hm_fields field (i ∷ rest) = do
  s ← hm_field (field i)
  limits ← hm_fields field rest
  accepted (s ∷ limits)

abbrev pub parse_daily : PolicyForm → FormResult (List ℤ)
parse_daily form =
    if form.daily_same
    then hm_field form.daily_master >>= (λ master_s. accepted (seven master_s))
    else hm_fields form.daily (hours_of_day 0 7)

abbrev pub parse_week : (Weekday → DayForm) → List Weekday → FormResult WeekHours
parse_week hours [] = accepted []
parse_week hours (day ∷ rest) = do
  records ← required (parse_day_hours (hours day))
  week ← parse_week hours rest
  accepted ((day, records) ∷ week)

abbrev pub some_weekday : List Weekday → Option (List Weekday)
some_weekday [] = none
some_weekday (d ∷ days) = some (d ∷ days)

abbrev pub parse_cap : Bool → Option (ℤ × ℤ) → ℤ → FormResult ℤ
parse_cap enabled field uncapped = if enabled then hm_field field else accepted uncapped

-- `value or None`
abbrev pub or_none : String → Option String
or_none value = if str_eq value "" then none else some value

abbrev has : String → String → Bool
has text part = elim (find? text part) [ none ↦ false | some at_byte ↦ true ]

-- The validators of `PlayTimeActivity`.
abbrev pub is_activity : String → String → Bool
is_activity mask description =
    leb 1 (count mask)
    && leb (count mask) 255
    && leb (count description) 255
    && not (has mask "[" || has mask "]")

unfoldable pub parse_activities : List (String × String) → FormResult (List PlayTimeActivity)
parse_activities [] = accepted []
parse_activities ((mask, description) ∷ lines) =
    let later = parse_activities lines in
    if str_eq mask ""
    then later
    else if is_activity mask description
    then later
      >>= (λ activities. accepted (record { mask = mask; description = description } ∷ activities))
    else crashed

-- Everything but the activities, as `PolicyUpdate` takes it.
unfoldable pub parse_fields : PolicyForm → FormResult PolicyUpdate
parse_fields form = do
  daily_limits_s ← parse_daily form
  allowed_hours ← parse_week form.hours weekday_tokens
  allowed_weekdays ← required (some_weekday (keep form.allowed_weekday weekday_tokens))
  lockout_type ← required form.lockout_type
  weekly_limit_s ← parse_cap form.weekly_cap_enabled form.weekly (pos (7 * 86400))
  monthly_limit_s ← parse_cap form.monthly_cap_enabled form.monthly (pos (31 * 86400))
  pt_daily_limits_s ← hm_fields form.pt_daily (hours_of_day 0 7)
  accepted (record {
    daily_limits_s = daily_limits_s;
    weekly_limit_s = weekly_limit_s;
    monthly_limit_s = monthly_limit_s;
    allowed_weekdays = allowed_weekdays;
    allowed_hours = allowed_hours;
    lockout_type = lockout_type;
    wake_from = or_none form.wake_from;
    wake_to = or_none form.wake_to;
    track_inactive = form.track_inactive;
    hide_tray_icon = form.hide_tray_icon;
    playtime = record {
      enabled = form.pt_enabled;
      override_enabled = form.pt_override;
      unaccounted_intervals_enabled = form.pt_unaccounted;
      allowed_weekdays = keep form.pt_allowed_weekday weekday_tokens;
      daily_limits_s = pt_daily_limits_s;
      activities = [];
    };
    note = form.note;
  })

abbrev pub between_0_and : ℤ → ℤ → Bool
between_0_and top s = leb_ℤ (pos 0) s && leb_ℤ s top

abbrev pub all_of {ℓ} : {A : Type ℓ} → (A → Bool) → List A → Bool
all_of p [] = true
all_of p (x ∷ xs) = p x && all_of p xs

-- The texts that `^([01]?[0-9]|2[0-3])$` matches.
abbrev hour_texts : List String
hour_texts =
    "0" ∷ "1" ∷ "2" ∷ "3" ∷ "4" ∷ "5" ∷ "6" ∷ "7" ∷ "8" ∷ "9" ∷ "00" ∷ "01" ∷ "02" ∷ "03" ∷ "04"
    ∷ "05" ∷ "06" ∷ "07" ∷ "08" ∷ "09" ∷ "10" ∷ "11" ∷ "12" ∷ "13" ∷ "14" ∷ "15" ∷ "16" ∷ "17"
    ∷ "18" ∷ "19" ∷ "20" ∷ "21" ∷ "22" ∷ "23" ∷ []

abbrev pub is_wake_hour : Option String → Bool
is_wake_hour none = true
is_wake_hour (some text) = any (str_eq text) hour_texts

-- The validators of `PolicyUpdate`, and those of its play time but for the activities.
abbrev pub is_update : PolicyUpdate → Bool
is_update update =
    (length update.daily_limits_s == 7)
    && all_of (between_0_and (pos 86400)) update.daily_limits_s
    && between_0_and (pos (7 * 86400)) update.weekly_limit_s
    && between_0_and (pos (31 * 86400)) update.monthly_limit_s
    && is_wake_hour update.wake_from
    && is_wake_hour update.wake_to
    && leb (count update.note) 500
    && (length update.playtime.daily_limits_s == 7)
    && all_of (between_0_and (pos 86400)) update.playtime.daily_limits_s

-- `PolicyUpdate(...)`, with ValidationError caught.
unfoldable pub policy_update : PolicyUpdate → FormResult PolicyUpdate
policy_update update = if is_update update then accepted update else unprocessable

abbrev pub with_activities : PolicyUpdate → List PlayTimeActivity → PolicyUpdate
with_activities update activities = record update {
  playtime = record update.playtime { activities = activities };
}

-- `_parse_policy_form`
unfoldable pub parse_policy_form : PolicyForm → FormResult PolicyUpdate
parse_policy_form form = do
  update ← parse_fields form
  activities ← parse_activities form.pt_activities
  policy_update (with_activities update activities)

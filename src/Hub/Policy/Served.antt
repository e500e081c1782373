-- ===== src/Hub/Policy/Served.antt =====
-- What a device is sent of its policy, by what it reports to have applied.
use mathlib.Core.Bool.{decide, decide_iff}
use timekpr_next_hub.Base.{
  ℕ, ◌≡◌, ◌≢◌, refl, sym, ap, String, true, false, Option, none, some, List, Bool-cases, inl, inr,
}
use timekpr_next_hub.Core.Models.{PolicyPayload}
use timekpr_next_hub.Core.EffectivePolicy.{
  Revision, Revision-discrete, hashed, legacy, policy_revision, materialize_allowed_hours,
  with_day_hour_override,
}
use timekpr_next_hub.Hub.Tables.{Policy, DayHourOverride}
use timekpr_next_hub.Hub.Policy.{
  day_hour_override, effective_policy_payload, policy_to_payload, served_policy, weekday_of,
}

false-true : false ≡ true → ⊥
false-true h = cc

-- The payload of the stored policy, with the hours of every weekday written out.
abbrev pub ordinary : Policy → PolicyPayload
ordinary policy = record (policy_to_payload policy) {
  allowed_hours = materialize_allowed_hours (policy_to_payload policy).allowed_hours;
}

-- The same with the override's hours on its weekday.
abbrev pub special : Policy → DayHourOverride → ℕ → PolicyPayload
special policy o day = with_day_hour_override (ordinary policy) (weekday_of day) o.intervals_json

module _ (digest : PolicyPayload → String) (overrides : List DayHourOverride)
    (policy : Policy) where
  payload_on_day :
      (day : ℕ) (o : DayHourOverride)
      → day_hour_override overrides policy.user_id day ≡ some o
      → effective_policy_payload digest overrides policy day true
        ≡ (special policy o day, policy_revision digest (special policy o day))
  unfolding effective_policy_payload
  payload_on_day day o found = rw (found) refl

  payload_on_other :
      (day : ℕ)
      → day_hour_override overrides policy.user_id day ≡ none
      → effective_policy_payload digest overrides policy day true
        ≡ (ordinary policy, policy_revision digest (ordinary policy))
  unfolding effective_policy_payload
  payload_on_other day absent = rw (absent) refl

  same_digest :
      (p q : PolicyPayload)
      → policy_revision digest p ≡ policy_revision digest q
      → digest p ≡ digest q
  unfolding policy_revision
  same_digest p q h = ap (λ r. elim r [ hashed v d ↦ d | legacy v ↦ "" ]) h

  module _ (day version_applied : ℕ) (payload : PolicyPayload)
      (e : effective_policy_payload digest overrides policy day true
        ≡ (payload, policy_revision digest payload)) where
    served-applied :
        served_policy digest overrides policy day
          (some (policy_revision digest payload))
          version_applied
        ≡ (none, policy_revision digest payload)
    unfolding served_policy
    served-applied =
        let r = policy_revision digest payload in
        let same = (decide_iff (Revision-discrete r r)).1 refl in rw (e, served_policy, same) refl

    served-changed :
        (applied : PolicyPayload)
        → digest applied ≢ digest payload
        → served_policy digest overrides policy day
            (some (policy_revision digest applied))
            version_applied
          ≡ (some payload, policy_revision digest payload)
    unfolding served_policy
    served-changed applied apart =
        let d =
          Revision-discrete (policy_revision digest applied) (policy_revision digest payload) in
        elim (Bool-cases (decide d)) [
          | inl same ↦ absurd (apart (same_digest applied payload ((decide_iff d).0 same)))
          | inr other ↦ rw (e, served_policy, other) refl
        ]

  -- A user has an override of the hours on one day and none on another, and the hash tells the policy's
  -- ordinary payload from the one with the override's hours on the weekday of that day. On the day of
  -- the override, a device that reports to have applied the ordinary payload is sent the one with the
  -- override, and nothing once it reports this one; on the other day, a device that reports the one with
  -- the override is sent the ordinary payload again, and nothing once it reports that. The answer names
  -- the revision of the day's payload, whatever version the device reports.
  pub served_policy-override :
      (day other_day version_applied : ℕ) (o : DayHourOverride)
      → day_hour_override overrides policy.user_id day ≡ some o
      → day_hour_override overrides policy.user_id other_day ≡ none
      → digest (ordinary policy) ≢ digest (special policy o day)
      → let served : ℕ → PolicyPayload → Option PolicyPayload × Revision = λ on applied.
        served_policy digest overrides policy on
          (some (policy_revision digest applied))
          version_applied in
        let usual = ordinary policy in
        let changed = special policy o day in
        (served day usual ≡ (some changed, policy_revision digest changed))
        × (served day changed ≡ (none, policy_revision digest changed))
        × (served other_day changed ≡ (some usual, policy_revision digest usual))
        × (served other_day usual ≡ (none, policy_revision digest usual))
  served_policy-override day other_day version_applied o found absent apart =
      let on = payload_on_day day o found in
      let off = payload_on_other other_day absent in
      (
        served-changed day version_applied _ on (ordinary policy) apart,
        served-applied day version_applied _ on,
        served-changed other_day version_applied _ off (special policy o day) (λ e. apart (sym e)),
        served-applied other_day version_applied _ off,
      )

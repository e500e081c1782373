-- ===== src/Agent/Tick/Modes.antt =====
-- What the hub's answer makes the agent do: observing, pushing a policy, and being revoked.
use timekpr_next_hub.Base.{
  ◌≡◌, refl, String, Bool, Option, some, if◌then◌else◌, inl, inr, Bool-cases,
}
use timekpr_next_hub.Base.Int.{ℤ}
use timekpr_next_hub.Core.Models.{EnforcementMode, PolicyPayload}
use timekpr_next_hub.Agent.Timekpr.{Timekpr, UserObservation}
use timekpr_next_hub.Agent.PolicyPush.{apply_policy_push}
use timekpr_next_hub.Agent.State.{ActiveSpan, UserState}
use timekpr_next_hub.Agent.Tick.{SyncUserResponse, get_or_keep, apply_response}

module _ (timekpr : Timekpr) (config : timekpr.Config) (username : String) (obs : UserObservation)
    (force : Bool) (span : Option ActiveSpan) (now : ℤ) (resp : SyncUserResponse)
    (us : UserState) where
  abbrev outcome : timekpr.Config × UserState
  outcome = apply_response timekpr config username obs force span now resp us

  -- On a device that the hub only observes, an answer makes no call at all, and leaves the offset,
  -- the applied policy version and revision, and the last push error as they were, whatever policy
  -- and target the answer carries.
  pub observe_writes_nothing :
      resp.enforcement ≡ EnforcementMode.observe
      → (outcome.0 ≡ config)
        × (outcome.1.applied_offset_s ≡ us.applied_offset_s)
        × (outcome.1.policy_version_applied ≡ us.policy_version_applied)
        × (outcome.1.policy_revision_applied ≡ us.policy_revision_applied)
        × (outcome.1.last_policy_push_error ≡ us.last_policy_push_error)
  unfolding apply_response
  observe_writes_nothing e = rw (e, apply_response) (refl, refl, refl, refl, refl)

  -- A policy in the answer to an enforcing device is pushed to the daemon before the balance is set.
  -- The version and the revision that the agent reports as applied become those of the answer when
  -- every setter that was needed has succeeded, and stay as they were otherwise.
  pub enforce_marks_applied :
      (policy : PolicyPayload)
      → resp.enforcement ≡ EnforcementMode.enforce
      → resp.policy ≡ some policy
      → let push = apply_policy_push timekpr config username policy in
        (outcome.1.policy_version_applied
          ≡ (if push.ok then resp.policy_version else us.policy_version_applied))
        × (outcome.1.policy_revision_applied ≡ (
            if push.ok
            then get_or_keep resp.policy_revision us.policy_revision_applied
            else us.policy_revision_applied))
  unfolding apply_response
  enforce_marks_applied policy e p =
      let push = apply_policy_push timekpr config username policy in
      elim (Bool-cases push.ok) [
        | inl done ↦ rw (e, p, done, apply_response) (refl, refl)
        | inr failed ↦ rw (e, p, failed, apply_response) (refl, refl)
      ]

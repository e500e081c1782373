-- ===== src/Agent/Tick.antt =====
-- agent/timekpr_hub_agent/tick.py: one pass over every managed user. The daemon is the parameter
-- `Timekpr`, the hub a function from the request to its answer, the time zones a table.
pub mod Run
pub mod Span
pub mod Modes
pub mod Offline
pub mod Revoked
pub mod NewDay
pub mod Missed
pub mod Midnight
mod Tests
use timekpr_next_hub.Base.{
  ℕ, ◌+◌, ◌*◌, ◌-◌, min, String, Bool, true, false, ◌&&◌, ◌||◌, not, Option, none, some, List, [],
  ◌∷◌, ◌++◌, str_eq, ltb, length, drop, take, if◌then◌else◌,
}
use timekpr_next_hub.Base.Int.{ℤ, pos, negsuc, ◌+ℤ◌, ◌-ℤ◌, ltb_ℤ, leb_ℤ, eqb_ℤ, max_ℤ, min_ℤ}
use timekpr_next_hub.Base.Dict.{Dict, lookup, insert}
use timekpr_next_hub.Core.Convergence.{
  Op, Plan, HubTarget, CumulativeState, default_config, plan, advance_cumulative,
  reset_for_new_canonical_day,
}
use timekpr_next_hub.Core.Models.{
  ActivityState, EnforcementMode, OfflinePolicy, PolicyPayload, draining, idle, logged_out,
}
use timekpr_next_hub.Agent.Timekpr.{Timekpr, UserObservation, enforce, set_time_left}
use timekpr_next_hub.Agent.PolicyPush.{Push, apply_policy_push}
use timekpr_next_hub.Agent.PolicyPush.Labels.{joined_labels}
use timekpr_next_hub.Base.Chars.{Chars}
use timekpr_next_hub.Agent.State.{
  ActiveSpan, LastEnforcement, UserState, AgentState, user, with_user, enforced, observed, revoked,
}

abbrev pub max_poll_ms : ℕ
max_poll_ms = 90000

abbrev pub max_pending_spans : ℕ
max_pending_spans = 200

abbrev pub max_push_error_len : ℕ
max_push_error_len = 256

-- `timedelta(seconds=s)` in microseconds.
abbrev pub seconds : ℤ → ℤ
seconds (pos s) = pos (s * 1_000_000)
seconds (negsuc s) = negsuc (s * 1_000_000 + 999_999)

-- The time zones of the machine: the calendar day of an instant, in UTC and in a zone that is known.
pub record Zones : Type 0 where
  pub utc_day : ℤ → String
  pub zone_day : String → Option (ℤ → String)

unfoldable pub canonical_day_str : Zones → ℤ → String → String
canonical_day_str zones now tz_name =
    if str_eq tz_name ""
    then zones.utc_day now
    else elim (zones.zone_day tz_name) [ none ↦ zones.utc_day now | some day ↦ day now ]

-- The counter after this tick's reading, whether the next write is absolute, and the count that
-- this tick's use is measured from: `run_tick`, the three cases of the user's day.
unfoldable pub read_counter : UserState → UserObservation → String → CumulativeState × Bool × ℤ
unfolding advance_cumulative reset_for_new_canonical_day
read_counter us obs today =
    if str_eq us.day ""
    then (record { cum_local_s = obs.spent_day_s; raw_prev_s = obs.spent_day_s }, true, pos 0)
    else if not (str_eq us.day today)
    then (reset_for_new_canonical_day obs.spent_day_s, true, pos 0)
    else (
      advance_cumulative (record { cum_local_s = us.cum_local_s; raw_prev_s = us.raw_prev_s })
          obs.spent_day_s default_config,
      false,
      us.cum_local_s,
    )

abbrev pub activity_of : ℤ → UserObservation → ActivityState
activity_of burned obs =
    if ltb_ℤ (pos 0) burned then draining else if obs.logged_in then idle else logged_out

-- The span that this tick reports, begun no earlier than the last one that reached the hub ended.
unfoldable pub emit_span : UserState → UserObservation → ℤ → ℤ → Option ActiveSpan
unfolding max_ℤ
emit_span us obs burned now =
    if obs.active && ltb_ℤ (pos 0) burned
    then some (record {
      start =
          if eqb_ℤ us.last_tick_utc (pos 0)
          then now -ℤ seconds burned
          else max_ℤ (now -ℤ seconds burned) us.last_tick_utc;
      end = now;
      burned_s = burned;
    })
    else none

-- What one user's part of the first loop computes.
pub record Measured : Type 0 where
  pub user_state : UserState
  pub force_absolute : Bool
  pub activity_state : ActivityState
  pub span : Option ActiveSpan

unfoldable pub measure : UserState → UserObservation → String → ℤ → Measured
unfolding read_counter emit_span max_ℤ
measure us obs today now =
    let (cum_state, force_absolute, cum_local_before) = read_counter us obs today in
    let us' = record us {
      day = today;
      cum_local_s = cum_state.cum_local_s;
      raw_prev_s = cum_state.raw_prev_s;
    } in
    let burned = max_ℤ (cum_state.cum_local_s -ℤ cum_local_before) (pos 0) in
    record {
      user_state = us';
      force_absolute = force_absolute;
      activity_state = activity_of burned obs;
      span = emit_span us obs burned now;
    }

abbrev pub span_list : Option ActiveSpan → List ActiveSpan
span_list none = []
span_list (some span) = span ∷ []

-- `SyncUserRequest`
pub record SyncUser : Type 0 where
  pub username : String
  pub cumulative_spent_s : ℤ
  pub active_spans : List ActiveSpan
  pub observed : UserObservation
  pub activity_state : ActivityState
  pub policy_version_applied : ℕ
  pub policy_revision_applied : String
  pub policy_push_error : Option Chars

unfoldable pub request_of : String → UserObservation → Measured → SyncUser
request_of username obs m = record {
  username = username;
  cumulative_spent_s = m.user_state.cum_local_s;
  active_spans = m.user_state.pending_spans ++ span_list m.span;
  observed = obs;
  activity_state = m.activity_state;
  policy_version_applied = m.user_state.policy_version_applied;
  policy_revision_applied = m.user_state.policy_revision_applied;
  policy_push_error = m.user_state.last_policy_push_error;
}

-- `_buffer_unsent_span`
unfoldable pub buffer_unsent_span : UserState → Option ActiveSpan → UserState
buffer_unsent_span us none = us
buffer_unsent_span us (some span) =
    let pending = us.pending_spans ++ span ∷ [] in
    record us {
      pending_spans =
          if ltb max_pending_spans (length pending)
          then drop (length pending - max_pending_spans) pending
          else pending;
    }

-- One user of the hub's answer. `none` stands for a key that the answer does not have.
pub record SyncUserResponse : Type 0 where
  pub effective_limit_today_s : ℤ
  pub global_spent_s : ℤ
  pub enforcement : EnforcementMode
  pub policy : Option PolicyPayload
  pub policy_version : ℕ
  pub policy_revision : Option String
  pub offline_policy : Option OfflinePolicy
  pub offline_grace_s : Option ℤ
  pub offline_cap_s : Option ℤ

abbrev pub get_or_keep {ℓ} : {A : Type ℓ} → Option A → A → A
get_or_keep none old = old
get_or_keep (some new) old = new

-- The cached values, and the emptied buffer: the first part of the loop over the answer.
unfoldable pub record_contact : UserState → ℤ → Option ActiveSpan → SyncUserResponse → UserState
record_contact us now span resp = record us {
  last_effective_limit_today_s = resp.effective_limit_today_s;
  last_global_spent_s = resp.global_spent_s;
  last_hub_contact_utc = now;
  cum_local_at_contact_s = us.cum_local_s;
  last_offline_policy = get_or_keep resp.offline_policy us.last_offline_policy;
  last_offline_grace_s = get_or_keep resp.offline_grace_s us.last_offline_grace_s;
  last_offline_cap_s = get_or_keep resp.offline_cap_s us.last_offline_cap_s;
  pending_spans = [];
  last_tick_utc = elim span [ none ↦ us.last_tick_utc | some _ ↦ now ];
}

module _ (timekpr : Timekpr) where
  -- `_apply_convergence`: the answer of `set_time_left` is not used.
  unfoldable pub apply_convergence :
      timekpr.Config
      → String
      → UserObservation
      → HubTarget
      → UserState
      → Bool
      → Bool
      → timekpr.Config × UserState
  unfolding plan enforce
  apply_convergence config username obs target us force_absolute dry_run =
      let result =
        plan
          (record {
            balance_s = obs.balance_s;
            spent_local_s = obs.spent_day_s;
            limit_today_s = obs.limit_today_s;
          })
          target us.applied_offset_s force_absolute default_config in
      if dry_run then (config, us) else (
        elim result.op [
          | Op.noop ↦ config
          | op ↦ (enforce timekpr config username (set_time_left op result.seconds)).0
        ],
        record us { applied_offset_s = result.new_applied_offset_s },
      )

  -- What the tick does with a policy payload in the answer.
  unfoldable pub apply_payload :
      timekpr.Config → String → SyncUserResponse → UserState → timekpr.Config × UserState
  unfolding apply_policy_push
  apply_payload config username resp us = elim resp.policy [
    | none ↦ (config, us)
    | some policy ↦
        let push = apply_policy_push timekpr config username policy in
        let noted = record us {
          last_policy_push_error = elim push.failed [
            | [] ↦ none
            | l ∷ ls ↦ some (take max_push_error_len (joined_labels (l ∷ ls)))
          ];
        } in
        (
          push.config,
          if push.ok
              then record noted {
                policy_version_applied = resp.policy_version;
                policy_revision_applied =
                    get_or_keep resp.policy_revision noted.policy_revision_applied;
              }
              else noted,
        )
  ]

  -- One turn of the loop over the answered users.
  unfoldable pub apply_response :
      timekpr.Config
      → String
      → UserObservation
      → Bool
      → Option ActiveSpan
      → ℤ
      → SyncUserResponse
      → UserState
      → timekpr.Config × UserState
  unfolding apply_convergence apply_payload record_contact
  apply_response config username obs force_absolute span now resp us =
      let contacted = record_contact us now span resp in
      let target : HubTarget = record {
        limit_today_s = resp.effective_limit_today_s;
        global_spent_s = resp.global_spent_s;
      } in
      elim resp.enforcement [
        | EnforcementMode.observe ↦
            apply_convergence config username obs target
              (record contacted { last_enforcement = observed }) force_absolute true
        | EnforcementMode.enforce ↦
            let (config', pushed) =
              apply_payload config username resp
                (record contacted { last_enforcement = enforced }) in
            apply_convergence config' username obs target pushed force_absolute false
      ]

  -- `_apply_offline_policy`
  unfoldable pub apply_offline_policy :
      timekpr.Config → String → UserObservation → UserState → ℤ → timekpr.Config × UserState
  unfolding apply_convergence max_ℤ min_ℤ
  apply_offline_policy config username obs us now =
      let since_contact = now -ℤ us.last_hub_contact_utc in
      let in_grace =
        leb_ℤ (pos 0) since_contact && ltb_ℤ since_contact (seconds us.last_offline_grace_s) in
      let local_since_contact = max_ℤ (us.cum_local_s -ℤ us.cum_local_at_contact_s) (pos 0) in
      let estimated = us.last_global_spent_s +ℤ local_since_contact in
      let capped_target : HubTarget = record {
        limit_today_s =
            min_ℤ us.last_effective_limit_today_s (us.last_global_spent_s +ℤ us.last_offline_cap_s);
        global_spent_s = estimated;
      } in
      let closed_target : HubTarget = record {
        limit_today_s = obs.limit_today_s;
        global_spent_s = obs.limit_today_s;
      } in
      if in_grace then (config, us) else elim us.last_offline_policy [
        | OfflinePolicy.open_policy ↦ (config, us)
        | OfflinePolicy.capped ↦ apply_convergence config username obs capped_target us false false
        | OfflinePolicy.closed ↦ apply_convergence config username obs closed_target us false false
      ]

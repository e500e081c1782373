-- ===== src/Agent/Tick/Missed.antt =====
-- A tick of agent/timekpr_hub_agent/tick.py that does not reach the hub, for one managed user.
use timekpr_next_hub.Base.{ℕ, ◌≡◌, refl, ap, subst, ◌∙◌, String, false, some, [], ◌∷◌, if-elim}
use timekpr_next_hub.Base.Int.{ℤ}
use timekpr_next_hub.Base.Dict.{insert}
use timekpr_next_hub.Core.Convergence.{HubTarget}
use timekpr_next_hub.Core.Models.{OfflinePolicy}
use timekpr_next_hub.Agent.Timekpr.{Timekpr, UserObservation}
use timekpr_next_hub.Agent.State.{UserState, AgentState, user, with_user}
use timekpr_next_hub.Agent.Tick.{
  Zones, apply_offline_policy, apply_convergence, canonical_day_str, measure, buffer_unsent_span,
}
use timekpr_next_hub.Agent.Tick.Run.{
  Seen, unreachable, run_tick, begin_pass, measure_all, finish_tick, offline_all, or_known,
}
use timekpr_next_hub.Agent.Tick.Offline.{some_inj, grace_test}
use timekpr_next_hub.Agent.Tick.NewDay.{measured, contact, counter, own_user}

module _ (timekpr : Timekpr) where
  -- A correction changes the offset only.
  converged-kept :
      (config : timekpr.Config) (username : String) (obs : UserObservation) (target : HubTarget)
      (us : UserState)
      → let us' = (apply_convergence timekpr config username obs target us false false).1 in
        (contact us' ≡ contact us) × (counter us' ≡ counter us)
  unfolding apply_convergence
  converged-kept config username obs target us = (refl, refl)

  kept_by :
      (config : timekpr.Config) (username : String) (obs : UserObservation) (us : UserState)
      (policy : OfflinePolicy) (capped_target closed_target : HubTarget)
      → let out : timekpr.Config × UserState = elim policy [
        | OfflinePolicy.open_policy ↦ (config, us)
        | OfflinePolicy.capped ↦
            apply_convergence timekpr config username obs capped_target us false false
        | OfflinePolicy.closed ↦
            apply_convergence timekpr config username obs closed_target us false false
      ] in
        (contact out.1 ≡ contact us) × (counter out.1 ≡ counter us)
  kept_by config username obs us OfflinePolicy.open_policy a b = (refl, refl)
  kept_by config username obs us OfflinePolicy.capped a b = converged-kept config username obs a us
  kept_by config username obs us OfflinePolicy.closed a b = converged-kept config username obs b us

  pub offline-kept :
      (config : timekpr.Config) (username : String) (obs : UserObservation) (us : UserState)
      (now : ℤ)
      → let us' = (apply_offline_policy timekpr config username obs us now).1 in
        (contact us' ≡ contact us) × (counter us' ≡ counter us)
  unfolding apply_offline_policy
  offline-kept config username obs us now =
      if-elim
        (λ (out : timekpr.Config × UserState).
          (contact out.1 ≡ contact us) × (counter out.1 ≡ counter us))
        (grace_test us now) _ _ (λ _. (refl, refl))
        (λ _. kept_by config username obs us us.last_offline_policy _ _)

  measured_alone :
      (config : timekpr.Config) (state : AgentState) (username today : String) (now : ℤ)
      (obs : UserObservation)
      → timekpr.observation config username ≡ some obs
      → let m = measure (user state username) obs today now in
        let pass =
          measure_all timekpr config today now (username ∷ []) (begin_pass timekpr state) in
        (pass.state ≡ with_user state username m.user_state)
        × (pass.seen
            ≡ (username, record { obs = obs; force_absolute = m.force_absolute; span = m.span })
              ∷ [])
  unfolding measure_all insert
  measured_alone config state username today now obs seen = rw (seen, measure_all) (refl, refl)

  seen_alone :
      (config : timekpr.Config) (now : ℤ) (username : String) (s : Seen) (state : AgentState)
      (us : UserState)
      → let (config', us') =
          apply_offline_policy timekpr config username s.obs (buffer_unsent_span us s.span) now in
        offline_all timekpr config now ((username, s) ∷ []) (with_user state username us)
        ≡ (config', with_user (with_user state username us) username us')
  unfolding offline_all
  seen_alone config now username s state us =
      let e : user (with_user state username us) username ≡ us = own_user state username us in
      ap
        (λ v.
          let (config', us') =
            apply_offline_policy timekpr config username s.obs (buffer_unsent_span v s.span) now in
          (config', with_user (with_user state username us) username us'))
        e

  -- What a tick without the hub makes, for one managed user.
  abbrev pub missed :
      Zones
      → timekpr.Config
      → AgentState
      → String
      → String
      → ℤ
      → ℕ
      → timekpr.Config × AgentState × ℕ
  missed zones config state username tz_name now previous_poll_ms =
      let today = canonical_day_str zones now (or_known (some state.hub_tz) tz_name) in
      finish_tick timekpr config
        (measure_all timekpr config today now (username ∷ []) (begin_pass timekpr state)) now
        previous_poll_ms unreachable

  pub run_tick-missed :
      (zones : Zones) (config : timekpr.Config) (state : AgentState) (username tz_name : String)
      (now : ℤ) (previous_poll_ms : ℕ) (done : timekpr.Config × AgentState × ℕ)
      → run_tick timekpr zones
          (λ _. some unreachable)
          config
          state
          (username ∷ [])
          tz_name
          now
          previous_poll_ms
        ≡ some done
      → missed zones config state username tz_name now previous_poll_ms ≡ done
  unfolding run_tick
  run_tick-missed zones config state username tz_name now previous_poll_ms done h =
      some_inj _ done h

  missed-alone :
      (zones : Zones) (config : timekpr.Config) (state : AgentState) (username tz_name : String)
      (now : ℤ) (previous_poll_ms : ℕ) (obs : UserObservation)
      → timekpr.observation config username ≡ some obs
      → let today = canonical_day_str zones now (or_known (some state.hub_tz) tz_name) in
        let us = measured (user state username) obs today now in
        let done = missed zones config state username tz_name now previous_poll_ms in
        let (config', us') = apply_offline_policy timekpr config username obs us now in
        (done.0 ≡ config') × (user done.1 username ≡ us') × (done.1.hub_tz ≡ state.hub_tz)
  unfolding finish_tick
  missed-alone zones config state username tz_name now previous_poll_ms obs seen =
      let today = canonical_day_str zones now (or_known (some state.hub_tz) tz_name) in
      let (known, watched) = measured_alone config state username today now obs seen in
      let m = measure (user state username) obs today now in
      let s : Seen = record { obs = obs; force_absolute = m.force_absolute; span = m.span } in
      let pass = measure_all timekpr config today now (username ∷ []) (begin_pass timekpr state) in
      let e =
        ap (λ seen. offline_all timekpr config now seen pass.state) watched
        ∙ ap (offline_all timekpr config now ((username, s) ∷ [])) known
        ∙ seen_alone config now username s state m.user_state in
      (
        ap (λ r. r.0) e,
        ap (λ r. user r.1 username) e ∙ own_user (with_user state username m.user_state) username _,
        ap (λ r. r.1.hub_tz) e,
      )

  -- The same, with the name of the day.
  pub missed-on :
      (zones : Zones) (config : timekpr.Config) (state : AgentState)
      (username tz_name today : String) (now : ℤ) (previous_poll_ms : ℕ) (obs : UserObservation)
      → timekpr.observation config username ≡ some obs
      → canonical_day_str zones now (or_known (some state.hub_tz) tz_name) ≡ today
      → let us = measured (user state username) obs today now in
        let done = missed zones config state username tz_name now previous_poll_ms in
        let (config', us') = apply_offline_policy timekpr config username obs us now in
        (done.0 ≡ config') × (user done.1 username ≡ us') × (done.1.hub_tz ≡ state.hub_tz)
  missed-on zones config state username tz_name today now previous_poll_ms obs seen day =
      subst
        (λ d.
          let us = measured (user state username) obs d now in
          let done = missed zones config state username tz_name now previous_poll_ms in
          let (config', us') = apply_offline_policy timekpr config username obs us now in
          (done.0 ≡ config') × (user done.1 username ≡ us') × (done.1.hub_tz ≡ state.hub_tz))
        day (missed-alone zones config state username tz_name now previous_poll_ms obs seen)

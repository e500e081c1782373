-- ===== src/Agent/Tick/Midnight.antt =====
-- `run_tick` of agent/timekpr_hub_agent/tick.py on a day that has begun without the hub.
use timekpr_next_hub.Base.{ℕ, ◌≡◌, sym, ap, ◌∙◌, String, false, some, [], ◌∷◌, arith, str_eq}
use timekpr_next_hub.Base.Int.{ℤ, pos, ◌+ℤ◌, ◌-ℤ◌, ◌≤ℤ◌, int_laws, max_ℤ, min_ℤ}
use timekpr_next_hub.Core.Convergence.{HubTarget}
use timekpr_next_hub.Core.Models.{OfflinePolicy}
use timekpr_next_hub.Agent.Timekpr.{Timekpr, UserObservation}
use timekpr_next_hub.Agent.State.{UserState, AgentState, user}
use timekpr_next_hub.Agent.Tick.{Zones, apply_offline_policy, apply_convergence, canonical_day_str}
use timekpr_next_hub.Agent.Tick.Run.{unreachable, run_tick, or_known}
use timekpr_next_hub.Agent.Tick.Offline.{Expired, grace_test-Expired}
use timekpr_next_hub.Agent.Tick.NewDay.{
  measured, contact, counter, target_of, measured-offset, measured-new_day, measured-same_day,
}
use timekpr_next_hub.Agent.Tick.Missed.{offline-kept, run_tick-missed, missed-on}

max-nothing : (a : ℤ) → a ≤ℤ pos 0 → max_ℤ a (pos 0) ≡ pos 0
unfolding max_ℤ
max-nothing a h = ground arith

-- The target that counts nothing since the last contact.
abbrev pub nothing_spent : UserState → HubTarget
nothing_spent us = record {
  limit_today_s =
      min_ℤ us.last_effective_limit_today_s (us.last_global_spent_s +ℤ us.last_offline_cap_s);
  global_spent_s = us.last_global_spent_s;
}

module _ (timekpr : Timekpr) where
  same_offset :
      (config : timekpr.Config) (username : String) (obs : UserObservation)
      (target target' : HubTarget) (us us' : UserState)
      → target ≡ target'
      → us.applied_offset_s ≡ us'.applied_offset_s
      → (apply_convergence timekpr config username obs target us false false).0
        ≡ (apply_convergence timekpr config username obs target' us' false false).0
  unfolding apply_convergence
  same_offset config username obs target target' us us' e offsets =
      ap (λ t. (apply_convergence timekpr config username obs t us false false).0) e
      ∙ ap
          (λ v.
            (apply_convergence timekpr config username obs target'
              (record us { applied_offset_s = v }) false false).0)
          offsets

  -- Where the counter is not above what it was at the last contact, nothing is counted.
  offline-uncounted :
      (config : timekpr.Config) (username : String) (obs : UserObservation) (us : UserState)
      (now : ℤ)
      → us.last_offline_policy ≡ OfflinePolicy.capped
      → Expired us now
      → us.cum_local_s ≤ℤ us.cum_local_at_contact_s
      → apply_offline_policy timekpr config username obs us now
        ≡ apply_convergence timekpr config username obs (nothing_spent us) us false false
  unfolding apply_offline_policy
  offline-uncounted config username obs us now e h lower =
      let used = us.cum_local_s -ℤ us.cum_local_at_contact_s in
      let toward : ℤ → timekpr.Config × UserState = λ spent_s.
        apply_convergence timekpr config username obs
          (record (nothing_spent us) { global_spent_s = spent_s }) us false false in
      let corrected : apply_offline_policy timekpr config username obs us now
          ≡ toward (us.last_global_spent_s +ℤ max_ℤ used (pos 0)) =
        simp (grace_test-Expired us now h, e, apply_offline_policy) in
      let nothing : us.last_global_spent_s +ℤ max_ℤ used (pos 0) ≡ us.last_global_spent_s =
        rw (max-nothing used (omega int_laws)) (omega int_laws) in
      corrected ∙ ap toward nothing

  second_tick :
      (config : timekpr.Config) (username today : String) (obs : UserObservation)
      (us us1 : UserState) (now raw : ℤ)
      → str_eq today "" ≡ false
      → contact us1 ≡ contact us
      → counter us1 ≡ (today, pos 0, raw)
      → raw ≤ℤ obs.spent_day_s
      → obs.spent_day_s -ℤ raw ≤ℤ us.cum_local_at_contact_s
      → us.last_offline_policy ≡ OfflinePolicy.capped
      → Expired us now
      → let out =
          apply_offline_policy timekpr config username obs (measured us1 obs today now) now in
        (out.0
          ≡ (apply_convergence timekpr config username obs (nothing_spent us) us1 false false).0)
        × (out.1.cum_local_s ≡ obs.spent_day_s -ℤ raw)
  second_tick config username today obs us us1 now raw named kept held more small capped expired =
      let us2 = measured us1 obs today now in
      let (kept2, counted) = measured-same_day us1 obs today now raw named held more in
      let same : contact us2 ≡ contact us = kept2 ∙ kept in
      let policy = ap (λ c. c.6) same ∙ capped in
      let lower : us2.cum_local_s ≤ℤ us2.cum_local_at_contact_s =
        rw (counted, ap (λ c. c.3) same) small in
      let over : Expired us2 now = rw (ap (λ c. c.2) same, ap (λ c. c.4) same) expired in
      let e = offline-uncounted config username obs us2 now policy over lower in
      (
        ap (λ r. r.0) e
            ∙ same_offset config username obs _ _ us2 us1 (ap target_of same)
                (measured-offset us1 obs today now),
        ap (λ (k : String × ℤ × ℤ). k.1) (offline-kept timekpr config username obs us2 now).1
            ∙ counted,
      )

  -- The user's day is from before, and two ticks of a later day do not reach the hub; the time that
  -- timekpr counts for that day does not fall between them. Under the `capped` policy, once the grace
  -- is over at the second tick, its correction counts nothing since the last contact, although the
  -- agent's counter holds the time used between the two, as long as this is no more than what the
  -- counter was at that contact.
  pub run_tick-uncounted :
      (zones : Zones) (config config' : timekpr.Config) (state : AgentState)
      (username tz_name today : String) (now now' : ℤ) (previous_poll_ms previous_poll_ms' : ℕ)
      (obs obs' : UserObservation) (first second : timekpr.Config × AgentState × ℕ)
      → timekpr.observation config username ≡ some obs
      → timekpr.observation config' username ≡ some obs'
      → canonical_day_str zones now (or_known (some state.hub_tz) tz_name) ≡ today
      → canonical_day_str zones now' (or_known (some state.hub_tz) tz_name) ≡ today
      → str_eq today "" ≡ false
      → let us = user state username in
        str_eq us.day "" ≡ false
        → str_eq us.day today ≡ false
        → obs.spent_day_s ≤ℤ obs'.spent_day_s
        → obs'.spent_day_s -ℤ obs.spent_day_s ≤ℤ us.cum_local_at_contact_s
        → us.last_offline_policy ≡ OfflinePolicy.capped
        → Expired us now'
        → run_tick timekpr zones
            (λ _. some unreachable)
            config
            state
            (username ∷ [])
            tz_name
            now
            previous_poll_ms
          ≡ some first
        → run_tick timekpr zones
            (λ _. some unreachable)
            config'
            first.1
            (username ∷ [])
            tz_name
            now'
            previous_poll_ms'
          ≡ some second
        → (second.0
            ≡ (apply_convergence timekpr config' username obs'
                (nothing_spent us)
                (user first.1 username)
                false
                false).0)
          × ((user second.1 username).cum_local_s ≡ obs'.spent_day_s -ℤ obs.spent_day_s)
  run_tick-uncounted zones config config' state username tz_name today now now' previous_poll_ms
        previous_poll_ms' obs obs' first second seen seen' day day' named known other more small
        capped expired ran ran' =
      let us = user state username in
      let e =
        run_tick-missed timekpr zones config state username tz_name now previous_poll_ms first
          ran in
      let e' =
        run_tick-missed timekpr zones config' first.1 username tz_name now' previous_poll_ms' second
          ran' in
      let (config1, user1, tz1) =
        missed-on timekpr zones config state username tz_name today now previous_poll_ms obs seen
          day in
      let tz = ap (λ r. r.1.hub_tz) (sym e) ∙ tz1 in
      let (config2, user2, tz2) =
        missed-on timekpr zones config' first.1 username tz_name today now' previous_poll_ms' obs'
          seen' (ap (λ tz. canonical_day_str zones now' (or_known (some tz) tz_name)) tz ∙ day') in
      let (kept, held) = offline-kept timekpr config username obs (measured us obs today now) now in
      let (kept0, held0) = measured-new_day us obs today now known other in
      let after_first = ap (λ r. user r.1 username) (sym e) ∙ user1 in
      let (corrected, counted) =
        second_tick config' username today obs' us (user first.1 username) now' obs.spent_day_s
          named (ap contact after_first ∙ kept ∙ kept0) (ap counter after_first ∙ held ∙ held0) more
          small capped expired in
      (
        ap (λ r. r.0) (sym e') ∙ config2 ∙ corrected,
        ap (λ r. (user r.1 username).cum_local_s) (sym e')
            ∙ ap (λ (u : UserState). u.cum_local_s) user2
            ∙ counted,
      )

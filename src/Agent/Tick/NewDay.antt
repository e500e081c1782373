-- ===== src/Agent/Tick/NewDay.antt =====
-- What `run_tick` of agent/timekpr_hub_agent/tick.py measures of a user on the first tick of a day and on
-- the next one.
use timekpr_next_hub.Base.{
  ◌≡◌, refl, ap, ◌∙◌, String, false, Option, none, some, arith, str_eq, eq_iff, true,
}
use timekpr_next_hub.Base.Int.{ℤ, pos, ◌+ℤ◌, ◌-ℤ◌, ◌≤ℤ◌, leb_ℤ, int_laws, min_ℤ}
use timekpr_next_hub.Core.Convergence.{
  HubTarget, default_config, advance_cumulative, reset_for_new_canonical_day,
}
use timekpr_next_hub.Core.Models.{OfflinePolicy}
use timekpr_next_hub.Agent.Timekpr.{UserObservation}
use timekpr_next_hub.Agent.State.{ActiveSpan, UserState, AgentState, user, with_user}
use timekpr_next_hub.Agent.Tick.{measure, read_counter, buffer_unsent_span}
use timekpr_next_hub.Agent.Tick.Revoked.{user-with_user}

-- What the correction without the hub starts from.
abbrev pub measured : UserState → UserObservation → String → ℤ → UserState
measured us obs today now =
    let m = measure us obs today now in buffer_unsent_span m.user_state m.span

-- What a tick without the hub keeps of a user, the counter apart.
abbrev pub contact : UserState → ℤ × ℤ × ℤ × ℤ × ℤ × ℤ × OfflinePolicy
contact us = (
  us.last_effective_limit_today_s, us.last_global_spent_s, us.last_hub_contact_utc,
  us.cum_local_at_contact_s, us.last_offline_grace_s, us.last_offline_cap_s, us.last_offline_policy,
)

abbrev pub counter : UserState → String × ℤ × ℤ
counter us = (us.day, us.cum_local_s, us.raw_prev_s)

abbrev pub target_of : ℤ × ℤ × ℤ × ℤ × ℤ × ℤ × OfflinePolicy → HubTarget
target_of (limit_s, spent_s, at, held_s, grace_s, cap_s, policy) = record {
  limit_today_s = min_ℤ limit_s (spent_s +ℤ cap_s);
  global_spent_s = spent_s;
}

buffered :
    (us : UserState) (span : Option ActiveSpan)
    → (contact (buffer_unsent_span us span) ≡ contact us)
      × (counter (buffer_unsent_span us span) ≡ counter us)
unfolding buffer_unsent_span
buffered us none = (refl, refl)
buffered us (some span) = (refl, refl)

buffered-offset :
    (us : UserState) (span : Option ActiveSpan)
    → (buffer_unsent_span us span).applied_offset_s ≡ us.applied_offset_s
unfolding buffer_unsent_span
buffered-offset us none = refl
buffered-offset us (some span) = refl

pub measured-offset :
    (us : UserState) (obs : UserObservation) (today : String) (now : ℤ)
    → (measured us obs today now).applied_offset_s ≡ us.applied_offset_s
unfolding measure
measured-offset us obs today now =
    buffered-offset (measure us obs today now).user_state (measure us obs today now).span

pub measured-new_day :
    (us : UserState) (obs : UserObservation) (today : String) (now : ℤ)
    → str_eq us.day "" ≡ false
    → str_eq us.day today ≡ false
    → (contact (measured us obs today now) ≡ contact us)
      × (counter (measured us obs today now) ≡ (today, pos 0, obs.spent_day_s))
unfolding measure read_counter reset_for_new_canonical_day
measured-new_day us obs today now known other =
    let (c, n) = buffered (measure us obs today now).user_state (measure us obs today now).span in
    (c, n ∙ rw (known, other) refl)

leb_of_le : (a b : ℤ) → a ≤ℤ b → leb_ℤ a b ≡ true
leb_of_le a b h = ground arith

from_zero : (a : ℤ) → pos 0 +ℤ a ≡ a
from_zero a = omega int_laws

same_text : (a : String) → str_eq a a ≡ true
same_text a = (eq_iff a a).1 refl

pub own_user : (state : AgentState) (n : String) (u : UserState) → user (with_user state n u) n ≡ u
own_user state n u = user-with_user state n n u ∙ rw (same_text n) refl

advance_from_zero :
    (raw spent : ℤ)
    → raw ≤ℤ spent
    → (advance_cumulative
        (record { cum_local_s = pos 0; raw_prev_s = raw })
        spent
        default_config).cum_local_s
      ≡ spent -ℤ raw
unfolding advance_cumulative
advance_from_zero raw spent h = rw (leb_of_le raw spent h) (from_zero (spent -ℤ raw))

read_counter-same_day :
    (us : UserState) (obs : UserObservation) (today : String) (raw : ℤ)
    → str_eq today "" ≡ false
    → us.day ≡ today
    → us.cum_local_s ≡ pos 0
    → us.raw_prev_s ≡ raw
    → raw ≤ℤ obs.spent_day_s
    → (read_counter us obs today).0.cum_local_s ≡ obs.spent_day_s -ℤ raw
unfolding read_counter
read_counter-same_day us obs today raw named day zero_held raw_held more =
    rw (day, named, same_text today, zero_held, raw_held)
      (advance_from_zero raw obs.spent_day_s more)

pub measured-same_day :
    (us : UserState) (obs : UserObservation) (today : String) (now raw : ℤ)
    → str_eq today "" ≡ false
    → counter us ≡ (today, pos 0, raw)
    → raw ≤ℤ obs.spent_day_s
    → (contact (measured us obs today now) ≡ contact us)
      × ((measured us obs today now).cum_local_s ≡ obs.spent_day_s -ℤ raw)
unfolding measure
measured-same_day us obs today now raw named held more =
    let (c, n) = buffered (measure us obs today now).user_state (measure us obs today now).span in
    (
      c,
      ap (λ (k : String × ℤ × ℤ). k.1) n
          ∙ read_counter-same_day us obs today raw named (ap (λ (k : String × ℤ × ℤ). k.0) held)
              (ap (λ (k : String × ℤ × ℤ). k.1) held) (ap (λ (k : String × ℤ × ℤ). k.2) held) more,
    )

-- ===== src/Agent/Tick/Tests.antt =====
-- The theorems about a tick at concrete users, answers and clocks.
use timekpr_next_hub.Base.{ℕ, ◌≡◌, ◌*◌, inr, refl, min, true, false, none, some, [], ◌∷◌, arith}
use timekpr_next_hub.Base.Int.{ℤ, pos, ◌-ℤ◌}
use timekpr_next_hub.Core.Convergence.{HubTarget}
use timekpr_next_hub.Core.Models.{EnforcementMode}
use timekpr_next_hub.Agent.Timekpr.{Timekpr, UserObservation}
use timekpr_next_hub.Agent.PolicyPush.Tests.{recorder, policy, held}
use timekpr_next_hub.Agent.State.{ActiveSpan, UserState, AgentState, fresh, user, with_user}
use timekpr_next_hub.Agent.Tick.{
  Zones, SyncUserResponse, max_poll_ms, apply_offline_policy, apply_convergence, canonical_day_str,
}
use timekpr_next_hub.Agent.Tick.Run.{
  Pass, revoked, unreachable, finish_tick, run_tick, measure_all, begin_pass, offline_all,
}
use timekpr_next_hub.Agent.Tick.Offline.{IsCapped, offline-capped}
use timekpr_next_hub.Agent.Tick.Midnight.{nothing_spent, run_tick-uncounted}
use timekpr_next_hub.Base.Dict.{lookup}
use timekpr_next_hub.Agent.Tick.Revoked.{books, finish_tick-revoked}

abbrev timekpr : Timekpr
timekpr = recorder (some held)

abbrev obs : UserObservation
obs = record {
  balance_s = pos 600;
  spent_day_s = pos 600;
  limit_today_s = pos 7200;
  logged_in = true;
  active = true;
}

abbrev now : ℤ
now = pos 1_000_000_000

-- A user whose last contact was ten seconds ago.
abbrev known : UserState
known = record fresh {
  day = "2026-03-08";
  cum_local_s = pos 600;
  raw_prev_s = pos 600;
  last_hub_contact_utc = pos 990_000_000;
  last_tick_utc = pos 990_000_000;
  last_effective_limit_today_s = pos 3600;
  last_global_spent_s = pos 700;
  cum_local_at_contact_s = pos 590;
}

abbrev span : ActiveSpan
span = record { start = pos 990_000_000; end = pos 1_000_000_000; burned_s = pos 10 }

abbrev answer : SyncUserResponse
answer = record {
  effective_limit_today_s = pos 3600;
  global_spent_s = pos 700;
  enforcement = EnforcementMode.enforce;
  policy = some policy;
  policy_version = 3;
  policy_revision = some "revision";
  offline_policy = none;
  offline_grace_s = none;
  offline_cap_s = none;
}

abbrev later : ℤ
later = pos 9_000_000_000_000

offline-capped_example :
    (target : HubTarget) × IsCapped known target
    × (apply_offline_policy timekpr [] "ada" obs known later
        ≡ apply_convergence timekpr [] "ada" obs target known false false)
unfolding ◌-ℤ◌
offline-capped_example = offline-capped timekpr [] "ada" obs known later refl (inr (omega arith))

abbrev zones : Zones
zones = record { utc_day = λ instant. "2026-03-08"; zone_day = λ name. none }

abbrev nobody : AgentState
nobody = record { users = []; hub_tz = "" }

abbrev one_seen : Pass
one_seen = record {
  state = record { users = ("ada", known) ∷ []; hub_tz = "" };
  sync_users = [];
  seen = ("ada", record { obs = obs; force_absolute = false; span = some span }) ∷ [];
}

finish_tick-revoked_example :
    let done = finish_tick timekpr [] one_seen now 60000 revoked in
    (done.0 ≡ [])
    × (books (user done.1 "ada") ≡ books (user one_seen.state "ada"))
    × (done.2 ≡ min (60000 * 2) max_poll_ms)
finish_tick-revoked_example = finish_tick-revoked timekpr [] one_seen now 60000 "ada"

-- The day has changed without the hub: ada has spent a minute of it at the first tick, and four more
-- at the second, a day later than the last contact.
abbrev before : AgentState
before = record { users = ("ada", record known { day = "2026-03-07" }) ∷ []; hub_tz = "" }

abbrev at_spent : ℤ → UserObservation
at_spent s = record obs { spent_day_s = s }

-- A daemon whose state is the time that it counts for the day; it accepts every call.
abbrev watching : Timekpr
watching = record {
  Config = ℤ;
  observation = λ s username. some (at_spent s);
  applied_policy = λ s username. none;
  send = λ s username call. (s, true);
}

abbrev missed_tick : ℤ → AgentState → ℤ → ℤ × AgentState × ℕ
missed_tick s state instant =
    finish_tick watching s
      (measure_all watching s "2026-03-08" instant ("ada" ∷ []) (begin_pass watching state)) instant
      20000 unreachable

abbrev first : ℤ × AgentState × ℕ
first = missed_tick (pos 60) before now

abbrev second : ℤ × AgentState × ℕ
second = missed_tick (pos 300) first.1 later

run_tick-uncounted_example :
    (second.0
      ≡ (apply_convergence watching
          (pos 300)
          "ada"
          (at_spent (pos 300))
          (nothing_spent (user before "ada"))
          (user first.1 "ada")
          false
          false).0)
    × ((user second.1 "ada").cum_local_s ≡ pos 300 -ℤ pos 60)
unfolding run_tick canonical_day_str user lookup ◌-ℤ◌ finish_tick offline_all with_user
run_tick-uncounted_example =
    run_tick-uncounted watching zones (pos 60) (pos 300) before "ada" "" "2026-03-08" now later
      20000 20000 (at_spent (pos 60)) (at_spent (pos 300)) first second refl refl refl refl refl
      refl refl (omega arith) (omega arith) refl (inr (omega arith)) refl refl

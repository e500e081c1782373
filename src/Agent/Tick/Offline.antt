-- ===== src/Agent/Tick/Offline.antt =====
-- Enforcement while the hub cannot be reached, and the next poll delay.
use timekpr_next_hub.Base.{
  ℕ, ◌≤◌, ◌≡◌, refl, subst, String, Bool, true, false, ◌&&◌, Option, none, some, List, arith, inl,
  inr, ◌⊎◌, Bool-cases,
}
use timekpr_next_hub.Base.Int.{ℤ, pos, ◌+ℤ◌, ◌-ℤ◌, ◌≤ℤ◌, ◌<ℤ◌, int_laws, max_ℤ, min_ℤ, ltb_ℤ, leb_ℤ}
use timekpr_next_hub.Core.Convergence.{HubTarget}
use timekpr_next_hub.Core.Models.{OfflinePolicy}
use timekpr_next_hub.Agent.Timekpr.{Timekpr, UserObservation}
use timekpr_next_hub.Agent.State.{UserState, AgentState}
use timekpr_next_hub.Agent.Tick.{
  Zones, SyncUser, max_poll_ms, seconds, apply_offline_policy, apply_convergence, canonical_day_str,
}
use timekpr_next_hub.Agent.Tick.Run.{
  SyncResult, Pass, answered, revoked, unreachable, finish_tick, run_tick, measure_all, begin_pass,
  or_known,
}

-- The last contact is in the past, and no longer ago than the user's grace.
abbrev pub InGrace : UserState → ℤ → Type 0
InGrace us now =
    (us.last_hub_contact_utc ≤ℤ now)
    × (now -ℤ us.last_hub_contact_utc <ℤ seconds us.last_offline_grace_s)

-- The two ways in which the grace is over: a clock that went back, or a grace that has passed.
abbrev pub Expired : UserState → ℤ → Type 0
Expired us now =
    (now <ℤ us.last_hub_contact_utc)
    ⊎ (seconds us.last_offline_grace_s ≤ℤ now -ℤ us.last_hub_contact_utc)

abbrev pub grace_test : UserState → ℤ → Bool
grace_test us now =
    let since = now -ℤ us.last_hub_contact_utc in
    leb_ℤ (pos 0) since && ltb_ℤ since (seconds us.last_offline_grace_s)

test_of : (a b : ℤ) → pos 0 ≤ℤ a → a <ℤ b → (leb_ℤ (pos 0) a && ltb_ℤ a b) ≡ true
test_of a b h k = ground arith

no_test_of : (a b : ℤ) → (a <ℤ pos 0) ⊎ (b ≤ℤ a) → (leb_ℤ (pos 0) a && ltb_ℤ a b) ≡ false
no_test_of a b (inl h) = ground arith
no_test_of a b (inr h) = ground arith

grace_test-InGrace : (us : UserState) (now : ℤ) → InGrace us now → grace_test us now ≡ true
grace_test-InGrace us now h =
    test_of (now -ℤ us.last_hub_contact_utc) (seconds us.last_offline_grace_s) (omega int_laws) h.1

pub grace_test-Expired : (us : UserState) (now : ℤ) → Expired us now → grace_test us now ≡ false
grace_test-Expired us now (inl h) =
    no_test_of (now -ℤ us.last_hub_contact_utc) (seconds us.last_offline_grace_s)
      (inl (omega int_laws))
grace_test-Expired us now (inr h) =
    no_test_of (now -ℤ us.last_hub_contact_utc) (seconds us.last_offline_grace_s) (inr h)

max-ge : (a b : ℤ) → (a ≤ℤ max_ℤ a b) × (b ≤ℤ max_ℤ a b)
unfolding max_ℤ
max-ge a b = ground arith

min-le : (a b : ℤ) → (min_ℤ a b ≤ℤ a) × (min_ℤ a b ≤ℤ b)
unfolding min_ℤ
min-le a b = ground arith

-- What the target of the `capped` policy promises: it counts at least the hub's last total, and what
-- the counter has gained since the contact; what is left of the limit is within the cap less that
-- gain; and the limit is within what the hub last allowed.
pub record IsCapped (us : UserState) (target : HubTarget) : Type 0 where
  pub no_refund : us.last_global_spent_s ≤ℤ target.global_spent_s
  pub counts_use :
      us.last_global_spent_s +ℤ (us.cum_local_s -ℤ us.cum_local_at_contact_s)
      ≤ℤ target.global_spent_s
  pub within_cap :
      target.limit_today_s -ℤ target.global_spent_s
      ≤ℤ us.last_offline_cap_s -ℤ (us.cum_local_s -ℤ us.cum_local_at_contact_s)
  pub within_limit : target.limit_today_s ≤ℤ us.last_effective_limit_today_s

module _ (timekpr : Timekpr) (config : timekpr.Config) (username : String) (obs : UserObservation)
    (us : UserState) (now : ℤ) where
  abbrev outcome : timekpr.Config × UserState
  outcome = apply_offline_policy timekpr config username obs us now

  -- While the hub has been away for less than the user's grace, and at any time under the `open`
  -- policy, a tick without the hub changes neither the daemon nor the user's state.
  pub offline-frozen :
      InGrace us now ⊎ (us.last_offline_policy ≡ OfflinePolicy.open_policy) → outcome ≡ (config, us)
  unfolding apply_offline_policy
  offline-frozen (inl h) = rw (grace_test-InGrace us now h, apply_offline_policy) refl
  offline-frozen (inr e) = elim (Bool-cases (grace_test us now)) [
    | inl h ↦ rw (h, apply_offline_policy) refl
    | inr h ↦ simp (h, e, apply_offline_policy)
  ]

  -- Under the `capped` policy, once the grace is over, a clock that went back before the last contact
  -- included, a tick without the hub is an ordinary correction towards a target that counts
  -- at least what the user's counter has gained since the contact, never less than the hub's last
  -- total, and leaves at most the cap less that gain.
  pub offline-capped :
      us.last_offline_policy ≡ OfflinePolicy.capped
      → Expired us now
      → (target : HubTarget) × IsCapped us target
        × (outcome ≡ apply_convergence timekpr config username obs target us false false)
  unfolding apply_offline_policy
  offline-capped e h =
      let used = us.cum_local_s -ℤ us.cum_local_at_contact_s in
      let (counted, whole) = max-ge used (pos 0) in
      let (within, capped) =
        min-le us.last_effective_limit_today_s (us.last_global_spent_s +ℤ us.last_offline_cap_s) in
      (
        record {
          limit_today_s =
              min_ℤ us.last_effective_limit_today_s
                (us.last_global_spent_s +ℤ us.last_offline_cap_s);
          global_spent_s = us.last_global_spent_s +ℤ max_ℤ used (pos 0);
        },
        record {
          no_refund = omega int_laws;
          counts_use = omega int_laws;
          within_cap = omega int_laws;
          within_limit = within;
        },
        simp (grace_test-Expired us now h, e, apply_offline_policy),
      )

pub some_inj {ℓ} : {A : Type ℓ} (a b : A) → some a ≡ some b → a ≡ b
some_inj a b h = cc

nothing_done {ℓ} : {A : Type ℓ} (a : A) → none ≡ some a → ⊥
nothing_done a h = cc

module _ (timekpr : Timekpr) where
  finish_tick-poll_bound :
      (config : timekpr.Config) (pass : Pass) (now : ℤ) (previous_poll_ms : ℕ) (r : SyncResult)
      → (finish_tick timekpr config pass now previous_poll_ms r).2 ≤ max_poll_ms
  unfolding finish_tick
  finish_tick-poll_bound config pass now previous_poll_ms (answered response) = omega arith
  finish_tick-poll_bound config pass now previous_poll_ms revoked = omega arith
  finish_tick-poll_bound config pass now previous_poll_ms unreachable = omega arith

  finished_poll_bound :
      (config : timekpr.Config) (pass : Pass) (now : ℤ) (previous_poll_ms : ℕ)
      (done : timekpr.Config × AgentState × ℕ) (r : Option SyncResult)
      → let out : Option (timekpr.Config × AgentState × ℕ) = elim r [
        | none ↦ none
        | some result ↦ some (finish_tick timekpr config pass now previous_poll_ms result)
      ] in
        out ≡ some done → done.2 ≤ max_poll_ms
  finished_poll_bound config pass now previous_poll_ms done none h = absurd (nothing_done done h)
  finished_poll_bound config pass now previous_poll_ms done (some result) h =
      subst (λ (out : timekpr.Config × AgentState × ℕ). out.2 ≤ max_poll_ms) (some_inj _ done h)
        (finish_tick-poll_bound config pass now previous_poll_ms result)

  -- A tick never asks for a longer delay than the service's watchdog bears, whatever the hub answers
  -- and whatever delay came before.
  pub run_tick-poll_bound :
      (zones : Zones) (sync : List SyncUser → Option SyncResult) (config : timekpr.Config)
      (state : AgentState) (managed_users : List String) (tz_name : String) (now : ℤ)
      (previous_poll_ms : ℕ) (done : timekpr.Config × AgentState × ℕ)
      → run_tick timekpr zones sync config state managed_users tz_name now previous_poll_ms
        ≡ some done
      → done.2 ≤ max_poll_ms
  unfolding run_tick
  run_tick-poll_bound zones sync config state managed_users tz_name now previous_poll_ms done h =
      let today = canonical_day_str zones now (or_known (some state.hub_tz) tz_name) in
      let pass = measure_all timekpr config today now managed_users (begin_pass timekpr state) in
      finished_poll_bound config pass now previous_poll_ms done (sync pass.sync_users) h

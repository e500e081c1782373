-- ===== src/Agent/State.antt =====
-- agent/timekpr_hub_agent/state.py: what the agent keeps of each user between ticks. Clock values are
-- whole microseconds since the epoch.
pub mod File
use timekpr_next_hub.Base.{ℕ, String, Option, none, some, List, []}
use timekpr_next_hub.Base.Int.{ℤ, pos}
use timekpr_next_hub.Base.Dict.{Dict, lookup, insert}
use timekpr_next_hub.Core.Models.{OfflinePolicy}
use timekpr_next_hub.Base.Chars.{Chars}

-- `ActiveSpan`, as the tick emits it.
pub record ActiveSpan : Type 0 where
  pub start : ℤ
  pub end : ℤ
  pub burned_s : ℤ

-- `last_enforcement`: "" or what the last tick did.
pub data LastEnforcement : Type 0 where
  unset enforced observed revoked : LastEnforcement

pub record UserState : Type 0 where
  pub day : String
  pub cum_local_s : ℤ
  pub raw_prev_s : ℤ
  pub applied_offset_s : ℤ
  pub policy_version_applied : ℕ
  pub policy_revision_applied : String
  pub last_enforcement : LastEnforcement
  pub last_policy_push_error : Option Chars
  pub last_effective_limit_today_s : ℤ
  pub last_global_spent_s : ℤ
  pub last_hub_contact_utc : ℤ
  pub last_offline_policy : OfflinePolicy
  pub last_offline_grace_s : ℤ
  pub last_offline_cap_s : ℤ
  pub cum_local_at_contact_s : ℤ
  pub last_tick_utc : ℤ
  pub pending_spans : List ActiveSpan

-- `UserState()`
abbrev pub fresh : UserState
fresh = record {
  day = "";
  cum_local_s = pos 0;
  raw_prev_s = pos 0;
  applied_offset_s = pos 0;
  policy_version_applied = 0;
  policy_revision_applied = "";
  last_enforcement = unset;
  last_policy_push_error = none;
  last_effective_limit_today_s = pos 0;
  last_global_spent_s = pos 0;
  last_hub_contact_utc = pos 0;
  last_offline_policy = OfflinePolicy.capped;
  last_offline_grace_s = pos 900;
  last_offline_cap_s = pos 1800;
  cum_local_at_contact_s = pos 0;
  last_tick_utc = pos 0;
  pending_spans = [];
}

pub record AgentState : Type 0 where
  pub users : Dict UserState
  pub hub_tz : String

-- `AgentState.user`: a user that is not known yet begins with a fresh state, which a write then keeps.
unfoldable pub user : AgentState → String → UserState
unfolding lookup
user state username = elim (lookup username state.users) [ none ↦ fresh | some u ↦ u ]

unfoldable pub with_user : AgentState → String → UserState → AgentState
unfolding insert
with_user state username u = record state { users = insert username u state.users }

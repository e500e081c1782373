-- ===== src/Agent/Tick/Run.antt =====
-- `run_tick` of agent/timekpr_hub_agent/tick.py as a whole, and its next poll delay.
use timekpr_next_hub.Base.{
  ℕ, ◌*◌, min, String, Bool, Option, none, some, List, [], ◌∷◌, ◌++◌, str_eq, if◌then◌else◌,
}
use timekpr_next_hub.Base.Int.{ℤ}
use timekpr_next_hub.Base.Dict.{Dict, lookup, insert}
use timekpr_next_hub.Agent.Timekpr.{Timekpr, UserObservation}
use timekpr_next_hub.Agent.State.{ActiveSpan, LastEnforcement, AgentState, user, with_user}
use timekpr_next_hub.Agent.Tick.{
  Zones, SyncUser, SyncUserResponse, max_poll_ms, canonical_day_str, measure, request_of,
  buffer_unsent_span, apply_response, apply_offline_policy, get_or_keep,
}

-- The values of `observations` and `this_tick_spans`.
pub record Seen : Type 0 where
  pub obs : UserObservation
  pub force_absolute : Bool
  pub span : Option ActiveSpan

-- What the first loop builds.
pub record Pass : Type 0 where
  pub state : AgentState
  pub sync_users : List SyncUser
  pub seen : Dict Seen

-- The answer of `hub.sync`: a response, or one of the two errors that `run_tick` handles,
-- DeviceRevokedError and HubUnreachableError.
pub record SyncResponse : Type 0 where
  pub next_poll_ms : Option ℕ
  pub hub_tz : Option String
  pub users : List (String × SyncUserResponse)

pub data SyncResult : Type 0 where
  answered : SyncResponse → SyncResult
  revoked unreachable : SyncResult

-- `{u["username"]: u for u in response["users"]}`
abbrev pub by_username :
    Dict SyncUserResponse → List (String × SyncUserResponse) → Dict SyncUserResponse
by_username built [] = built
by_username built ((name, u) ∷ rest) = by_username (insert name u built) rest

-- `response.get("hub_tz") or state.hub_tz`
abbrev pub or_known : Option String → String → String
or_known none known = known
or_known (some tz) known = if str_eq tz "" then known else tz

module _ (timekpr : Timekpr) where
  -- The first loop, over the managed users.
  unfoldable pub measure_all : timekpr.Config → String → ℤ → List String → Pass → Pass
  unfolding measure request_of user with_user
  measure_all config today now [] pass = pass
  measure_all config today now (username ∷ rest) pass =
      measure_all config today now rest (elim (timekpr.observation config username) [
        | none ↦ pass
        | some obs ↦
            let m = measure (user pass.state username) obs today now in
            record {
              state = with_user pass.state username m.user_state;
              sync_users = pass.sync_users ++ request_of username obs m ∷ [];
              seen =
                  insert username
                    (record { obs = obs; force_absolute = m.force_absolute; span = m.span })
                    pass.seen;
            }
      ])

  -- The loop over the observations, with the hub's answer.
  unfoldable pub answer_all :
      timekpr.Config
      → Dict SyncUserResponse
      → ℤ
      → Dict Seen
      → AgentState
      → timekpr.Config × AgentState
  unfolding apply_response user with_user lookup
  answer_all config answers now [] state = (config, state)
  answer_all config answers now ((username, s) ∷ rest) state =
      let (config', state') =
        (let one : timekpr.Config × AgentState = elim (lookup username answers) [
          | none ↦ (config, state)
          | some resp ↦
              let (c, us) =
                apply_response timekpr config username s.obs s.force_absolute s.span now resp
                  (user state username) in
              (c, with_user state username us)
        ] in
          one) in
      answer_all config' answers now rest state'

  -- The handler of DeviceRevokedError: no call is made.
  unfoldable pub revoke_all : Dict Seen → AgentState → AgentState
  unfolding buffer_unsent_span user with_user
  revoke_all [] state = state
  revoke_all ((username, s) ∷ rest) state =
      let buffered = buffer_unsent_span (user state username) s.span in
      revoke_all rest
        (with_user state username (record buffered { last_enforcement = LastEnforcement.revoked }))

  -- The handler of HubUnreachableError.
  unfoldable pub offline_all :
      timekpr.Config → ℤ → Dict Seen → AgentState → timekpr.Config × AgentState
  unfolding buffer_unsent_span apply_offline_policy user with_user
  offline_all config now [] state = (config, state)
  offline_all config now ((username, s) ∷ rest) state =
      let buffered = buffer_unsent_span (user state username) s.span in
      let (config', us) = apply_offline_policy timekpr config username s.obs buffered now in
      offline_all config' now rest (with_user state username us)

  -- The rest of `run_tick` once `hub.sync` has returned or raised.
  unfoldable pub finish_tick :
      timekpr.Config → Pass → ℤ → ℕ → SyncResult → timekpr.Config × AgentState × ℕ
  unfolding answer_all revoke_all offline_all
  finish_tick config pass now previous_poll_ms (answered response) =
      let known = record pass.state { hub_tz = or_known response.hub_tz pass.state.hub_tz } in
      let (config', state') =
        answer_all config (by_username [] response.users) now pass.seen known in
      (config', state', min (get_or_keep response.next_poll_ms previous_poll_ms) max_poll_ms)
  finish_tick config pass now previous_poll_ms revoked = (
    config,
    revoke_all pass.seen pass.state,
    min (min (previous_poll_ms * 2) max_poll_ms) max_poll_ms,
  )
  finish_tick config pass now previous_poll_ms unreachable =
      let (config', state') = offline_all config now pass.seen pass.state in
      (config', state', min (min (previous_poll_ms * 2) max_poll_ms) max_poll_ms)

  abbrev pub begin_pass : AgentState → Pass
  begin_pass state = record { state = state; sync_users = []; seen = [] }

  -- `run_tick`: the daemon and the agent's state afterwards, and the next poll delay. None stands for
  -- the RuntimeError of a client without a token, which nothing here handles.
  unfoldable pub run_tick :
      Zones
      → (List SyncUser → Option SyncResult)
      → timekpr.Config
      → AgentState
      → List String
      → String
      → ℤ
      → ℕ
      → Option (timekpr.Config × AgentState × ℕ)
  unfolding measure_all finish_tick canonical_day_str
  run_tick zones sync config state managed_users tz_name now previous_poll_ms =
      let today = canonical_day_str zones now (or_known (some state.hub_tz) tz_name) in
      let pass = measure_all config today now managed_users (begin_pass state) in
      elim (sync pass.sync_users) [
        | none ↦ none
        | some result ↦ some (finish_tick config pass now previous_poll_ms result)
      ]

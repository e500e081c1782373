-- ===== src/Agent/Cli/Loop.antt =====
-- `run` of agent/timekpr_hub_agent/cli.py: it waits for timekpr, and then ticks, saves and sleeps. What the
-- world does between the steps is the record `World`; every step costs one unit of fuel.
pub mod Passes
pub mod Watchdog
use timekpr_next_hub.Base.{
  ℕ, suc, zero, String, Bool, true, false, Option, none, some, List, [], ◌∷◌, ◌++◌, if◌then◌else◌,
}
use timekpr_next_hub.Base.Int.{ℤ}
use timekpr_next_hub.Agent.Timekpr.{Timekpr}
use timekpr_next_hub.Agent.State.{AgentState}
use timekpr_next_hub.Agent.Tick.{Zones, SyncUser}
use timekpr_next_hub.Agent.Tick.Run.{SyncResult, run_tick}

abbrev pub default_poll_ms : ℕ
default_poll_ms = 20000

-- `time.sleep(30)`, in milliseconds.
abbrev pub retry_ms : ℕ
retry_ms = 30000

pub data LoopEffect : Type 0 where
  slept : ℕ → LoopEffect
  saved : AgentState → LoopEffect
  ready watchdog : LoopEffect

-- How the command ends: `break`, or an exception that it does not handle.
pub data End : Type 0 where
  finished crashed : End

module _ (timekpr : Timekpr) where
  -- The answers from outside at each attempt and at each tick, and what happens to the daemon's state
  -- before a tick.
  pub record World : Type 0 where
    pub zones : Zones
    pub found : ℕ → Bool
    pub before : ℕ → timekpr.Config → timekpr.Config
    pub now : ℕ → ℤ
    pub sync : ℕ → List SyncUser → Option SyncResult

  pub record RunArgs : Type 0 where
    pub managed_users : List String
    pub tz : String
    pub once : Bool

  -- The variables of `_cmd_run` in its second loop.
  pub record Loop : Type 0 where
    pub tick : ℕ
    pub ready_sent : Bool
    pub next_poll_ms : ℕ
    pub config : timekpr.Config
    pub state : AgentState

-- What `run_tick` gives.
abbrev pub Ticked : Timekpr → Type 0
Ticked timekpr = timekpr.Config × AgentState × ℕ

-- `none`: the fuel was used up before the command ended.
abbrev pub Trace : Type 0
Trace = List LoopEffect × Option End

abbrev pub then_do : List LoopEffect → Trace → Trace
then_do effects (later, end) = (effects ++ later, end)

abbrev pub ready_if_first : Bool → List LoopEffect
ready_if_first true = []
ready_if_first false = ready ∷ []

module _ {timekpr : Timekpr} (world : World timekpr) (args : RunArgs timekpr) where
  unfoldable pub ticked : Loop timekpr → Option (Ticked timekpr)
  unfolding run_tick
  ticked loop =
      run_tick timekpr world.zones (world.sync loop.tick) (world.before loop.tick loop.config)
        loop.state args.managed_users args.tz (world.now loop.tick) loop.next_poll_ms

  -- The variables after one turn.
  abbrev pub next_loop : Loop timekpr → Ticked timekpr → Loop timekpr
  next_loop loop (config, state, next_poll_ms) = record {
    tick = suc loop.tick;
    ready_sent = true;
    next_poll_ms = next_poll_ms;
    config = config;
    state = state;
  }

  -- What a turn does after its tick and before it sleeps.
  unfoldable pub turn : Loop timekpr → Ticked timekpr → List LoopEffect
  turn loop (config, state, next_poll_ms) =
      saved state ∷ (ready_if_first loop.ready_sent ++ (watchdog ∷ []))

  -- `while True`; an exception of the tick ends the command at once.
  unfoldable pub tick_loop : ℕ → Loop timekpr → Trace
  unfolding ticked turn
  tick_loop zero loop = ([], none)
  tick_loop (suc fuel) loop = elim (ticked loop) [
    | none ↦ ([], some crashed)
    | some done ↦
        let next = next_loop loop done in
        let rest = tick_loop fuel next in
        if args.once
        then (turn loop done, some finished)
        else then_do (turn loop done) (then_do (slept next.next_poll_ms ∷ []) rest)
  ]

  -- `_cmd_run` from the given attempt on: `while enforcer is None`, and then the ticks.
  unfoldable pub cmd_run : ℕ → ℕ → Loop timekpr → Trace
  unfolding tick_loop
  cmd_run zero attempt loop = ([], none)
  cmd_run (suc fuel) attempt loop =
      let ticks = tick_loop fuel loop in
      let retry = cmd_run fuel (suc attempt) loop in
      if world.found attempt then ticks else then_do (slept retry_ms ∷ []) retry

-- Where `_cmd_run` begins, with the state that was loaded.
abbrev pub begin_loop : {timekpr : Timekpr} → timekpr.Config → AgentState → Loop timekpr
begin_loop config state = record {
  tick = 0;
  ready_sent = false;
  next_poll_ms = default_poll_ms;
  config = config;
  state = state;
}

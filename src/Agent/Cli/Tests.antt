-- ===== src/Agent/Cli/Tests.antt =====
-- The theorems about the command line at a concrete machine and loop.
use timekpr_next_hub.Base.{
  ◌≡◌, ◌==◌, refl, ℕ, ◌≤◌, ◌⊎◌, true, false, none, some, [], ◌∷◌, ◌++◌, if◌then◌else◌, arith,
}
use timekpr_next_hub.Base.Int.{pos}
use timekpr_next_hub.Base.Chars.Split.{names_of}
use timekpr_next_hub.Base.Chars.{codes, split_on, is_nil, is_space, is_break, lstrip, rstrip}
use timekpr_next_hub.Base.Chars.Lines.{IsLine}
use timekpr_next_hub.Agent.Config.EnvFile.{IsClean}
use timekpr_next_hub.Agent.HubClient.{status}
use timekpr_next_hub.Agent.PolicyPush.Tests.{recorder, held}
use timekpr_next_hub.Agent.Timekpr.{Timekpr}
use timekpr_next_hub.Agent.State.{AgentState}
use timekpr_next_hub.Agent.Tick.{max_poll_ms}
use timekpr_next_hub.Agent.Tick.Run.{SyncResult}
use timekpr_next_hub.Agent.Cli.{
  Args, EnrollData, EnrollCall, Machine, users_list, config_of, cmd_enroll,
}
use timekpr_next_hub.Agent.Cli.Users.{run_users, run_users-config_of}
use timekpr_next_hub.Agent.Cli.Enroll.{Stopped, Completed, cmd_enroll-cases}
use timekpr_next_hub.Agent.Cli.Loop.{
  World, RunArgs, Ticked, crashed, finished, saved, ready, watchdog, ticked, cmd_run, begin_loop,
}
use timekpr_next_hub.Agent.Cli.Loop.Passes.{retries, cmd_run-once}
use timekpr_next_hub.Agent.Cli.Loop.Watchdog.{is_watched, ready_count, cmd_run-is_watched}

abbrev args : Args
args = record {
  users = some (codes " ada , ,bob ");
  hub_url = some (codes "hub.local:8000/");
  code = none;
  hostname = some (codes "den");
  machine_id = none;
  ca_cert = none;
  tz = codes "UTC";
  no_start = false;
}

abbrev answer : EnrollData
answer = record { device_token = codes "token"; hub_tz = some (codes "Europe/Berlin") }

-- The code is typed; the unit cannot be enabled.
abbrev machine : Machine ℕ
machine = record {
  timekpr_found = true;
  timekprd_ok = true;
  users_to_choose = [];
  users_to_check = codes "ada" ∷ codes "bob" ∷ [];
  snapshot = λ u. some 3600;
  isatty = true;
  typed = λ prompt. codes " K7 ";
  gethostname = codes "den";
  machine_id_files = none ∷ some (codes "f00") ∷ [];
  answer = λ call. status 200 answer;
  succeeds = λ command. false;
}

abbrev call : EnrollCall ℕ
call = record {
  base_url = codes "http://hub.local:8000";
  enrollment_code = codes "K7";
  hostname = codes "den";
  machine_id = codes "f00";
  local_users = codes "ada" ∷ codes "bob" ∷ [];
  local_policies = (codes "ada", 3600) ∷ (codes "bob", 3600) ∷ [];
}

cmd_enroll-cases_example :
    Stopped machine args (cmd_enroll machine args)
    ⊎ Completed machine args (cmd_enroll machine args)
cmd_enroll-cases_example = cmd_enroll-cases machine args

url-IsClean : IsClean (codes "http://hub.local:8000")
unfolding is_space is_break lstrip rstrip
url-IsClean = (refl, refl, refl)

tz-IsClean : IsClean (codes "Europe/Berlin")
unfolding is_space is_break lstrip rstrip
tz-IsClean = (refl, refl, refl)

nothing-IsClean : IsClean []
unfolding lstrip rstrip
nothing-IsClean = (refl, refl, refl)

users_arg-IsLine : IsLine (codes " ada , ,bob ")
unfolding is_break
users_arg-IsLine = refl

same_users : call.local_users ≡ users_list (codes " ada , ,bob ")
unfolding names_of split_on rstrip lstrip is_space
same_users = refl

run_users-config_of_example :
    run_users (some (config_of args call answer))
    ≡ (if is_nil call.local_users then none else some call.local_users)
run_users-config_of_example =
    run_users-config_of args call answer (codes " ada , ,bob ") same_users users_arg-IsLine
      url-IsClean tz-IsClean nothing-IsClean

abbrev timekpr : Timekpr
timekpr = recorder (some held)

-- Timekpr is found at the second attempt; the hub cannot be reached.
abbrev world : World timekpr
world = record {
  zones = record { utc_day = λ instant. "2026-03-08"; zone_day = λ name. none };
  found = λ attempt. 1 == attempt;
  before = λ tick config. config;
  now = λ tick. pos 1_000_000_000;
  sync = λ tick request. some SyncResult.unreachable;
}

abbrev run_args : RunArgs timekpr
run_args = record { managed_users = "ada" ∷ []; tz = "UTC"; once = true }

abbrev nobody : AgentState
nobody = record { users = []; hub_tz = "" }

cmd_run-once_example :
    let run = cmd_run world run_args 5 0 (begin_loop [] nobody) in
    let tick = ticked world run_args (begin_loop [] nobody) in
    ((tick ≡ none) × (run ≡ (retries 1, some crashed)))
    ⊎ ((done : Ticked timekpr) × (tick ≡ some done)
        × (run ≡ (retries 1 ++ (saved done.1 ∷ ready ∷ watchdog ∷ []), some finished)))
cmd_run-once_example = cmd_run-once world run_args 1 5 [] nobody refl (refl, refl) (omega arith)

cmd_run-is_watched_example :
    (is_watched max_poll_ms none (cmd_run world run_args 9 0 (begin_loop [] nobody)).0 ≡ true)
    × (ready_count (cmd_run world run_args 9 0 (begin_loop [] nobody)).0 ≤ 1)
cmd_run-is_watched_example = cmd_run-is_watched world run_args 9 [] nobody

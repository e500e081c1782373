-- ===== src/Agent/Cli/Loop/Passes.antt =====
-- How `run` of agent/timekpr_hub_agent/cli.py ends with `--once`.
use timekpr_next_hub.Base.{
  ℕ, suc, zero, ◌+◌, ◌≤◌, ◌≡◌, refl, sym, ap, ◌∙◌, Bool, true, false, Option, none, some,
  Option-cases, ◌⊎◌, inl, inr, List, [], ◌∷◌, ◌++◌, if◌then◌else◌, arith,
}
use mathlib.Core.List.{append-nil}
use timekpr_next_hub.Agent.Timekpr.{Timekpr}
use timekpr_next_hub.Agent.State.{AgentState}
use timekpr_next_hub.Agent.Cli.Loop.{
  LoopEffect, World, RunArgs, Loop, Ticked, Trace, crashed, finished, slept, saved, ready, watchdog,
  retry_ms, then_do, ticked, next_loop, turn, tick_loop, cmd_run, begin_loop,
}

-- So many sleeps of thirty seconds.
abbrev pub retries : ℕ → List LoopEffect
retries zero = []
retries (suc k) = slept retry_ms ∷ retries k

if_false : {A : Type 0} (b : Bool) (x y : A) → b ≡ false → (if b then x else y) ≡ y
if_false true x y h = absurd (ground arith)
if_false false x y h = refl

-- Timekpr is found after so many attempts, from the given one on, and not before.
abbrev pub FoundAfter : ℕ → ℕ → (ℕ → Bool) → Type 0
FoundAfter zero attempt found = found attempt ≡ true
FoundAfter (suc k) attempt found = (found attempt ≡ false) × FoundAfter k (suc attempt) found

module _ {timekpr : Timekpr} (world : World timekpr) (args : RunArgs timekpr) where
  cmd_run-found :
      (fuel attempt : ℕ) (loop : Loop timekpr)
      → world.found attempt ≡ true
      → cmd_run world args (suc fuel) attempt loop ≡ tick_loop world args fuel loop
  unfolding cmd_run
  cmd_run-found fuel attempt loop found = rw (found) refl

  cmd_run-missing :
      (fuel attempt : ℕ) (loop : Loop timekpr)
      → world.found attempt ≡ false
      → cmd_run world args (suc fuel) attempt loop
        ≡ then_do (slept retry_ms ∷ []) (cmd_run world args fuel (suc attempt) loop)
  unfolding cmd_run
  cmd_run-missing fuel attempt loop missing = rw (missing) refl

  pub tick_loop-crashed :
      (fuel : ℕ) (loop : Loop timekpr)
      → ticked world args loop ≡ none
      → tick_loop world args (suc fuel) loop ≡ ([], some crashed)
  unfolding tick_loop
  tick_loop-crashed fuel loop raised = rw (raised, tick_loop) refl

  pub tick_loop-once :
      (fuel : ℕ) (loop : Loop timekpr) (done : Ticked timekpr)
      → ticked world args loop ≡ some done
      → args.once ≡ true
      → tick_loop world args (suc fuel) loop ≡ (turn world args loop done, some finished)
  unfolding tick_loop
  tick_loop-once fuel loop done ran once = rw (ran, tick_loop, once) refl

  pub tick_loop-service :
      (fuel : ℕ) (loop : Loop timekpr) (done : Ticked timekpr)
      → ticked world args loop ≡ some done
      → args.once ≡ false
      → tick_loop world args (suc fuel) loop
        ≡ then_do (turn world args loop done) (
            then_do
              (slept (next_loop world args loop done).next_poll_ms ∷ [])
              (tick_loop world args fuel (next_loop world args loop done)))
  unfolding tick_loop
  tick_loop-service fuel loop done ran service =
      rw (ran, tick_loop) (if_false args.once _ _ service)

  -- One pass, as its tick ends.
  abbrev pub one_pass : Option (Ticked timekpr) → Trace
  one_pass none = ([], some crashed)
  one_pass (some (config, state, next_poll_ms)) =
      (saved state ∷ ready ∷ watchdog ∷ [], some finished)

  pass_once :
      (fuel : ℕ) (loop : Loop timekpr)
      → loop.ready_sent ≡ false
      → args.once ≡ true
      → tick_loop world args (suc fuel) loop ≡ one_pass (ticked world args loop)
  unfolding turn
  pass_once fuel loop first once = elim (Option-cases (ticked world args loop)) [
    | inl raised ↦ tick_loop-crashed fuel loop raised ∙ sym (ap one_pass raised)
    | inr (done, ran) ↦
        tick_loop-once fuel loop done ran once ∙ rw (first) refl ∙ sym (ap one_pass ran)
  ]

  once_from :
      (k attempt fuel : ℕ) (loop : Loop timekpr)
      → loop.ready_sent ≡ false
      → args.once ≡ true
      → FoundAfter k attempt world.found
      → k + 2 ≤ fuel
      → cmd_run world args fuel attempt loop
        ≡ then_do (retries k) (one_pass (ticked world args loop))
  once_from k attempt zero loop first once found enough = absurd (omega (arith, enough))
  once_from k attempt (suc zero) loop first once found enough = absurd (omega (arith, enough))
  once_from zero attempt (suc (suc fuel)) loop first once found enough =
      cmd_run-found _ attempt loop found ∙ pass_once _ loop first once
  once_from (suc k) attempt (suc (suc fuel)) loop first once found enough =
      cmd_run-missing _ attempt loop found.0
      ∙ ap (then_do (slept retry_ms ∷ []))
          (once_from k (suc attempt) (suc fuel) loop first once found.1 (omega arith))

  -- With `--once`, and timekpr found at the attempt after the first `k`: fuel for these attempts and two
  -- units more is enough, and any more changes nothing. The command ends, after it has slept thirty
  -- seconds `k` times and ticked once with the loaded state. Where the tick raises the RuntimeError of a
  -- client without a token, nothing more is done: the state is not saved and systemd is told nothing.
  -- Else the command saves the state that the tick gives, and tells systemd that it is ready and alive.
  pub cmd_run-once :
      (k fuel : ℕ) (config : timekpr.Config) (state : AgentState)
      → args.once ≡ true
      → FoundAfter k 0 world.found
      → k + 2 ≤ fuel
      → let run = cmd_run world args fuel 0 (begin_loop config state) in
        let tick = ticked world args (begin_loop config state) in
        ((tick ≡ none) × (run ≡ (retries k, some crashed)))
        ⊎ ((done : Ticked timekpr) × (tick ≡ some done)
            × (run ≡ (retries k ++ (saved done.1 ∷ ready ∷ watchdog ∷ []), some finished)))
  cmd_run-once k fuel config state once found enough =
      let loop : Loop timekpr = begin_loop config state in
      let e = once_from k 0 fuel loop refl once found enough in
      elim (Option-cases (ticked world args loop)) [
        | inl raised ↦ inl (
          raised,
          e
              ∙ ap (λ t. then_do (retries k) (one_pass t)) raised
              ∙ ap (λ effects. (effects, some crashed)) (append-nil (retries k)),
        )
        | inr (done, ran) ↦ inr (done, ran, e ∙ ap (λ t. then_do (retries k) (one_pass t)) ran)
      ]

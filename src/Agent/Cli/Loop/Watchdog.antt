-- ===== src/Agent/Cli/Loop/Watchdog.antt =====
-- Without `--once`, `run` of agent/timekpr_hub_agent/cli.py never lets systemd's watchdog wait.
use timekpr_next_hub.Base.{
  ℕ, suc, zero, ◌+◌, ◌≤◌, ◌≡◌, refl, sym, ◌∙◌, Bool, true, false, ◌&&◌, leb, Option, none, some,
  List, [], ◌∷◌, ◌++◌, if-elim, Bool-cases, Option-cases, subst, ◌⊎◌, arith, inl, inr,
}
use mathlib.Core.List.{append-nil}
use timekpr_next_hub.Base.Count.{one_if}
use timekpr_next_hub.Agent.Timekpr.{Timekpr}
use timekpr_next_hub.Agent.State.{AgentState}
use timekpr_next_hub.Agent.Tick.{max_poll_ms}
use timekpr_next_hub.Agent.Tick.Offline.{run_tick-poll_bound}
use timekpr_next_hub.Agent.Cli.Loop.{
  LoopEffect, World, RunArgs, Loop, Ticked, Trace, slept, saved, ready, watchdog, ready_if_first,
  ticked, next_loop, turn, tick_loop, cmd_run, begin_loop,
}
use timekpr_next_hub.Agent.Cli.Loop.Passes.{tick_loop-crashed, tick_loop-once, tick_loop-service}

-- Systemd's watchdog, which waits from the first notification on: the milliseconds that the command has
-- slept since the last one never pass the limit.
abbrev pub is_watched : ℕ → Option ℕ → List LoopEffect → Bool
is_watched limit quiet [] = true
is_watched limit none (slept ms ∷ later) = is_watched limit none later
is_watched limit (some quiet) (slept ms ∷ later) =
    let rest = is_watched limit (some (quiet + ms)) later in leb (quiet + ms) limit && rest
is_watched limit quiet (saved state ∷ later) = is_watched limit quiet later
is_watched limit quiet (ready ∷ later) = is_watched limit (some 0) later
is_watched limit none (watchdog ∷ later) = is_watched limit none later
is_watched limit (some quiet) (watchdog ∷ later) = is_watched limit (some 0) later

abbrev pub ready_count : List LoopEffect → ℕ
ready_count [] = 0
ready_count (slept ms ∷ later) = ready_count later
ready_count (saved state ∷ later) = ready_count later
ready_count (ready ∷ later) = suc (ready_count later)
ready_count (watchdog ∷ later) = ready_count later

module _ {timekpr : Timekpr} (world : World timekpr) (args : RunArgs timekpr) where
  poll_bound :
      (loop : Loop timekpr) (done : Ticked timekpr)
      → ticked world args loop ≡ some done
      → (next_loop world args loop done).next_poll_ms ≤ max_poll_ms
  unfolding ticked
  poll_bound loop done ran =
      run_tick-poll_bound timekpr world.zones (world.sync loop.tick)
        (world.before loop.tick loop.config) loop.state args.managed_users args.tz
        (world.now loop.tick) loop.next_poll_ms done ran

  armed_turn :
      (q : ℕ) (sent : Bool) (later : List LoopEffect)
      → is_watched max_poll_ms (some q) (ready_if_first sent ++ (watchdog ∷ []) ++ later)
        ≡ is_watched max_poll_ms (some 0) later
  armed_turn q true later = refl
  armed_turn q false later = refl

  -- The notifications of a turn, the first one's included.
  turn_watched :
      (quiet : Option ℕ) (loop : Loop timekpr) (done : Ticked timekpr) (later : List LoopEffect)
      → (loop.ready_sent ≡ false) ⊎ ((q : ℕ) × (quiet ≡ some q))
      → is_watched max_poll_ms quiet (turn world args loop done ++ later)
        ≡ is_watched max_poll_ms (some 0) later
  unfolding turn
  turn_watched quiet loop done later (inl first) = rw (first) refl
  turn_watched quiet loop done later (inr (q, armed)) =
      rw (armed) (armed_turn q loop.ready_sent later)

  first_ready :
      (sent : Bool) (later : List LoopEffect)
      → ready_count (ready_if_first sent ++ (watchdog ∷ []) ++ later) + one_if sent
        ≡ suc (ready_count later)
  first_ready true later = omega arith
  first_ready false later = omega arith

  turn_ready :
      (loop : Loop timekpr) (done : Ticked timekpr) (later : List LoopEffect)
      → ready_count (turn world args loop done ++ later) + one_if loop.ready_sent
        ≡ suc (ready_count later)
  unfolding turn
  turn_ready loop done later = first_ready loop.ready_sent later

  turn_end :
      (loop : Loop timekpr) (done : Ticked timekpr)
      → turn world args loop done ++ [] ≡ turn world args loop done
  turn_end loop done = append-nil (turn world args loop done)

  -- The trace of the ticks: systemd is told in time, and once that the command is ready.
  IsQuick : Option ℕ → Bool → List LoopEffect → Type 0
  IsQuick quiet sent effects =
      (is_watched max_poll_ms quiet effects ≡ true) × (ready_count effects + one_if sent ≤ 1)

  Armed : Option ℕ → Loop timekpr → Type 0
  Armed quiet loop = (loop.ready_sent ≡ false) ⊎ ((q : ℕ) × (quiet ≡ some q))

  turn-IsQuick :
      (quiet : Option ℕ) (loop : Loop timekpr) (done : Ticked timekpr) (later : List LoopEffect)
      → Armed quiet loop
      → IsQuick (some 0) true later
      → IsQuick quiet loop.ready_sent (turn world args loop done ++ later)
  unfolding IsQuick Armed
  turn-IsQuick quiet loop done later armed (watched, once_ready) = (
    turn_watched quiet loop done later armed ∙ watched,
    omega (arith, turn_ready loop done later, once_ready),
  )

  add_zero : (n : ℕ) → 0 + n ≡ n
  add_zero n = omega arith

  le_test : (a b : ℕ) → a ≤ b → leb a b ≡ true
  le_test a b h = ground arith

  slept-IsQuick :
      (ms : ℕ) (later : List LoopEffect)
      → ms ≤ max_poll_ms
      → IsQuick (some ms) true later
      → IsQuick (some 0) true (slept ms ∷ later)
  unfolding IsQuick
  slept-IsQuick ms later short (watched, once_ready) =
      (rw (add_zero ms, le_test ms max_poll_ms short) watched, once_ready)

  nothing-IsQuick : (quiet : Option ℕ) (sent : Bool) → IsQuick quiet sent []
  unfolding IsQuick
  nothing-IsQuick quiet true = (refl, omega arith)
  nothing-IsQuick quiet false = (refl, omega arith)

  tick_loop-IsQuick :
      (fuel : ℕ) (quiet : Option ℕ) (loop : Loop timekpr)
      → Armed quiet loop
      → IsQuick quiet loop.ready_sent (tick_loop world args fuel loop).0
  unfolding Armed tick_loop
  tick_loop-IsQuick zero quiet loop armed = nothing-IsQuick quiet loop.ready_sent
  tick_loop-IsQuick (suc fuel) quiet loop armed = elim (Option-cases (ticked world args loop)) [
    | inl raised ↦
        subst (λ t. IsQuick quiet loop.ready_sent t.0)
          (sym (tick_loop-crashed world args fuel loop raised))
          (nothing-IsQuick quiet loop.ready_sent)
    | inr (done, ran) ↦ elim (Bool-cases args.once) [
      | inl once ↦
          subst (λ t. IsQuick quiet loop.ready_sent t.0)
            (sym (tick_loop-once world args fuel loop done ran once))
            (subst (IsQuick quiet loop.ready_sent) (turn_end loop done)
              (turn-IsQuick quiet loop done [] armed (nothing-IsQuick (some 0) true)))
      | inr service ↦
          let next = next_loop world args loop done in
          let rest =
            tick_loop-IsQuick fuel (some next.next_poll_ms) next (inr (next.next_poll_ms, refl)) in
          subst (λ t. IsQuick quiet loop.ready_sent t.0)
            (sym (tick_loop-service world args fuel loop done ran service))
            (turn-IsQuick quiet loop done _ armed
              (slept-IsQuick next.next_poll_ms _ (poll_bound loop done ran) rest))
    ]
  ]

  cmd_run-IsQuick :
      (fuel attempt : ℕ) (loop : Loop timekpr)
      → loop.ready_sent ≡ false
      → IsQuick none false (cmd_run world args fuel attempt loop).0
  unfolding cmd_run IsQuick Armed
  cmd_run-IsQuick zero attempt loop first = nothing-IsQuick none false
  cmd_run-IsQuick (suc fuel) attempt loop first =
      if-elim (λ (t : Trace). IsQuick none false t.0) (world.found attempt) _ _
        (λ found.
          subst (λ b. IsQuick none b (tick_loop world args fuel loop).0) first
            (tick_loop-IsQuick fuel none loop (inl first)))
        (λ missing. cmd_run-IsQuick fuel (suc attempt) loop first)

  -- For any fuel, any state that was loaded, and whatever timekpr, the hub and the clock do: from the first
  -- time that systemd was told that the command is ready, the command never sleeps more than ninety
  -- seconds in all before it notifies the watchdog again, and it says at most once that it is ready.
  pub cmd_run-is_watched :
      (fuel : ℕ) (config : timekpr.Config) (state : AgentState)
      → let effects = (cmd_run world args fuel 0 (begin_loop config state)).0 in
        (is_watched max_poll_ms none effects ≡ true) × (ready_count effects ≤ 1)
  unfolding IsQuick
  cmd_run-is_watched fuel config state =
      let (watched, once_ready) = cmd_run-IsQuick fuel 0 (begin_loop config state) refl in
      (watched, omega (arith, once_ready))

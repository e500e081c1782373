-- ===== src/Agent/Cli/Enroll.antt =====
-- What `enroll` changes on the machine: everything when the hub has accepted the code, and else nothing.
use timekpr_next_hub.Base.{
  ◌≡◌, refl, ◌∙◌, ◌⊎◌, inl, inr, Bool, true, false, List, [], ◌∷◌, keep, if◌then◌else◌, Bool-cases,
}
use timekpr_next_hub.Agent.HubClient.{EnrollError, Enrolled, enroll, device_enrolled, not_enrolled}
use timekpr_next_hub.Agent.Cli.{
  Args, Exit, EnrollData, EnrollCall, Machine, Effect, goes, exits, Run, after, ◌>>=◌, ◌>>◌,
  perform, posted, saved_token, owned_token, wrote_config, ran, enable_unit, restart_unit,
  enroll_or_exit, start_service, prepare, config_of, store_token, apply_enrollment, cmd_enroll,
}
use timekpr_next_hub.Agent.Cli.Quiet.{
  is_change, changes, end_of, Quiet, after-changes, after-end_of, prepare-Quiet,
}

module _ {S : Type 0} (machine : Machine S) where
  -- The commands that an enrollment ends with.
  abbrev pub commands_of : Bool → List (Effect S)
  commands_of true = []
  commands_of false =
      ran enable_unit ∷ (if machine.succeeds enable_unit then ran restart_unit ∷ [] else [])

  -- What the command can end with: what its preparation ends with, or what the hub refuses.
  abbrev pub Refused : Args → Exit → Type 0
  Refused args e =
      (end_of (prepare machine args) ≡ exits e)
      ⊎ ((call : EnrollCall S) × (error : EnrollError) × (end_of (prepare machine args) ≡ goes call)
          × (enroll (machine.answer call) ≡ not_enrolled error)
          × (e ≡ Exit.enroll_error error))

  -- The command ended early, and nothing was changed.
  abbrev pub Stopped : Args → Run S (Unit {0}) → Type 0
  Stopped args r = (e : Exit) × Refused args e × (end_of r ≡ exits e) × (changes r ≡ [])

  -- The hub has accepted a request, and everything was changed, in this order.
  abbrev pub Completed : Args → Run S (Unit {0}) → Type 0
  Completed args r =
      (call : EnrollCall S) × (answer : EnrollData) × (end_of (prepare machine args) ≡ goes call)
      × (enroll (machine.answer call) ≡ device_enrolled answer)
      × (end_of r ≡ goes tt)
      × (changes r
          ≡ saved_token answer.device_token
            ∷ owned_token
            ∷ wrote_config (config_of args call answer)
            ∷ commands_of args.no_start)

  start_service-changes :
      (no_start : Bool)
      → (end_of (start_service machine no_start) ≡ goes tt)
        × (changes (start_service machine no_start) ≡ commands_of no_start)
  unfolding start_service
  start_service-changes true = (refl, refl)
  start_service-changes false = elim (Bool-cases (machine.succeeds enable_unit)) [
    | inl h ↦ rw (h) (refl, refl)
    | inr h ↦ rw (h) (refl, refl)
  ]

  Finished : Args → Run S (Unit {0}) → Type 0
  Finished args r = Stopped args r ⊎ Completed args r

  after-Finished :
      (args : Args) (before : List (Effect S)) (r : Run S (Unit {0}))
      → keep is_change before ≡ []
      → Finished args r
      → Finished args (after before r)
  unfolding Finished
  after-Finished args before r h (inl (e, why, ended, none_)) =
      inl (e, why, after-end_of before r ∙ ended, after-changes before r h ∙ none_)
  after-Finished args before r h (inr (call, answer, made, accepted, ended, all_)) =
      inr (
        call,
        answer,
        made,
        accepted,
        after-end_of before r ∙ ended,
        after-changes before r h ∙ all_,
      )

  bind-Finished :
      {A : Type 0} (args : Args) (r : Run S A) (f : A → Run S (Unit {0}))
      → Quiet r
      → ((e : Exit) → end_of r ≡ exits e → Refused args e)
      → ((a : A) → end_of r ≡ goes a → Finished args (f a))
      → Finished args (r >>= f)
  unfolding Finished
  bind-Finished args (before, goes a) f h why k =
      after-Finished args before (f a) h.quiet (k a refl)
  bind-Finished args (before, exits e) f h why k = inl (e, why e refl, refl, h.quiet)

  -- What follows the answer of the hub.
  answered-Finished :
      (args : Args) (call : EnrollCall S) (result : Enrolled EnrollData)
      → end_of (prepare machine args) ≡ goes call
      → enroll (machine.answer call) ≡ result
      → Finished args (
          (perform (posted call) >> store_token machine result) >>= λ answer.
          apply_enrollment machine args call answer)
  unfolding Finished apply_enrollment
  answered-Finished args call (not_enrolled e) made h =
      inl (Exit.enroll_error e, inr (call, e, made, h, refl), refl, refl)
  answered-Finished args call (device_enrolled answer) made h =
      let started = start_service-changes args.no_start in
      inr (call, answer, made, h, started.0, rw (started.1) refl)

  -- For all arguments and all answers of the machine and of the hub, `enroll` ends in one of two ways.
  -- Either its preparation exits, or the hub refuses the request that was prepared: then it exits for that
  -- reason and has changed nothing, neither the token, nor agent.env, nor the service. Or the hub has
  -- accepted that request: then the command finishes, and what it changed is, in this order: the token is
  -- saved, the token file is given to the service's user, agent.env is written, and unless `--no-start` was
  -- given the unit is enabled and, if that succeeded, restarted.
  pub cmd_enroll-cases :
      (args : Args)
      → Stopped args (cmd_enroll machine args) ⊎ Completed args (cmd_enroll machine args)
  unfolding Finished cmd_enroll enroll_or_exit
  cmd_enroll-cases args =
      bind-Finished args (prepare machine args) _ (prepare-Quiet machine args)
        (λ e ended. inl ended)
        (λ call made. answered-Finished args call (enroll (machine.answer call)) made refl)

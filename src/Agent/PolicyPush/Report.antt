-- ===== src/Agent/PolicyPush/Report.antt =====
-- What a push reports of itself: `_Push` in agent/timekpr_hub_agent/policy_push.py.
use timekpr_next_hub.Base.{
  ℕ, suc, ◌+◌, ◌≡◌, ◌↔◌, refl, String, Bool, true, false, List, [], ◌∷◌, ◌++◌, arith, length,
  if◌then◌else◌, ==_iff,
}
use timekpr_next_hub.Core.Models.{PolicyPayload}
use timekpr_next_hub.Agent.Timekpr.{Timekpr}
use timekpr_next_hub.Agent.PolicyPush.{
  Push, Step, Label, step, run_steps, policy_steps, apply_policy_push,
}

-- How many of the steps the device does not hold already.
abbrev pub missing : List Step → ℕ
missing [] = 0
missing (s ∷ rest) = if s.holds then missing rest else suc (missing rest)

abbrev is_nil {ℓ} : {A : Type ℓ} → List A → Bool
is_nil [] = true
is_nil (x ∷ xs) = false

is_nil-snoc {ℓ} : {A : Type ℓ} (xs : List A) (x : A) → is_nil (xs ++ x ∷ []) ≡ false
is_nil-snoc [] x = refl
is_nil-snoc (y ∷ ys) x = refl

module _ (timekpr : Timekpr) (username : String) where
  abbrev pub State : Type 0
  State = Push timekpr.Config

  -- `ok` says that nothing has failed.
  step-truthful :
      (p : State) (s : Step)
      → p.ok ≡ is_nil p.failed
      → let p' = step timekpr username p s in p'.ok ≡ is_nil p'.failed
  unfolding step
  step-truthful p s h = ground (arith, is_nil-snoc p.failed s.label)

  run_steps-truthful :
      (p : State) (steps : List Step)
      → p.ok ≡ is_nil p.failed
      → let p' = run_steps timekpr username p steps in p'.ok ≡ is_nil p'.failed
  unfolding run_steps
  run_steps-truthful p [] h = h
  run_steps-truthful p (s ∷ rest) h =
      run_steps-truthful (step timekpr username p s) rest (step-truthful p s h)

  run_steps-counts :
      (p : State) (steps : List Step)
      → let p' = run_steps timekpr username p steps in
        (p'.applied_count ≡ p.applied_count + missing steps)
        × (p'.applied_count + p'.skipped_count ≡ p.applied_count + p.skipped_count + length steps)
  unfolding run_steps
  run_steps-counts p [] = (omega arith, omega arith)
  run_steps-counts p (s ∷ rest) = ground (arith, run_steps-counts (step timekpr username p s) rest)

  -- Where every step is held, nothing is sent and nothing fails.
  run_steps-held :
      (p : State) (steps : List Step)
      → missing steps ≡ 0
      → let p' = run_steps timekpr username p steps in
        (p'.config ≡ p.config) × (p'.ok ≡ p.ok) × (p'.failed ≡ p.failed)
  unfolding run_steps step
  run_steps-held p [] h = (refl, refl, refl)
  run_steps-held p (s ∷ rest) h =
      ground (arith, run_steps-held (record p { skipped_count = p.skipped_count + 1 }) rest)

is_nil_iff : (b : Bool) (xs : List Label) → b ≡ is_nil xs → (b ≡ true) ↔ (xs ≡ [])
is_nil_iff b [] h = (λ e. refl, λ e. h)
is_nil_iff b (x ∷ xs) h = (λ e. cc, λ e. cc)

abbrev fresh_push : {C : Type 0} → C → Push C
fresh_push config = record {
  config = config;
  ok = true;
  applied_count = 0;
  skipped_count = 0;
  failed = [];
}

-- A push of a policy with seven daily limits succeeds exactly when no step has failed; it makes one
-- call for each value that the device does not already hold, and skips all others.
pub apply_policy_push-reports :
    (timekpr : Timekpr) (config : timekpr.Config) (username : String) (policy : PolicyPayload)
    → length policy.daily_limits_s ≡ 7
    → let p = apply_policy_push timekpr config username policy in
      let steps = policy_steps (timekpr.applied_policy config username) policy in
      ((p.ok ≡ true) ↔ (p.failed ≡ []))
      × (p.applied_count ≡ missing steps)
      × (p.applied_count + p.skipped_count ≡ length steps)
unfolding apply_policy_push
apply_policy_push-reports timekpr config username policy seven =
    let first = fresh_push config in
    let steps = policy_steps (timekpr.applied_policy config username) policy in
    let counted = run_steps-counts timekpr username first steps in
    rw ((==_iff (length policy.daily_limits_s) 7).1 seven) (
      is_nil_iff _ _ (run_steps-truthful timekpr username first steps refl),
      omega (arith, counted.0),
      omega (arith, counted.1),
    )

-- A push of a policy whose every value the device holds already succeeds and makes no call.
pub apply_policy_push-held :
    (timekpr : Timekpr) (config : timekpr.Config) (username : String) (policy : PolicyPayload)
    → length policy.daily_limits_s ≡ 7
    → missing (policy_steps (timekpr.applied_policy config username) policy) ≡ 0
    → let p = apply_policy_push timekpr config username policy in
      (p.config ≡ config) × (p.ok ≡ true) × (p.failed ≡ [])
unfolding apply_policy_push
apply_policy_push-held timekpr config username policy seven none_missing =
    rw ((==_iff (length policy.daily_limits_s) 7).1 seven) (
      run_steps-held timekpr username (fresh_push config)
        (policy_steps (timekpr.applied_policy config username) policy) none_missing)

-- ===== src/Core/Convergence/Stability.antt =====
-- What the next tick does after a plan has been carried out, with the same target from the hub.
use timekpr_next_hub.Base.{ℕ, ap, ◌≤◌, ◌≡◌, ◌≢◌, Bool, true, false, inl, inr, arith}
use timekpr_next_hub.Base.Int.{
  ℤ, pos, pos_part, neg_part, ◌-ℤ◌, ◌≤ℤ◌, ◌<ℤ◌, neg_ℤ, abs, int_laws, ltb_ℤ,
}
use timekpr_next_hub.Core.Convergence.{
  Op, Observation, HubTarget, ConvergenceConfig, target_balance, needs_absolute, plan,
}
use timekpr_next_hub.Core.Convergence.Daemon.{FakeTimekprDaemon, observe}
use timekpr_next_hub.Core.Convergence.Target.{
  Storable, carry_out, plan-Lands, time_left, missing_is_correction,
}

no_consume : (c : ℤ) (n : ℕ) → abs c ≤ n → ltb_ℤ (pos n) c ≡ false
no_consume c n h = ground arith

no_refund : (c : ℤ) (n : ℕ) → abs c ≤ n → ltb_ℤ c (neg_ℤ (pos n)) ≡ false
unfolding ◌-ℤ◌
no_refund c n h = ground arith

no_reset :
    (o : Observation) (t : HubTarget) (cfg : ConvergenceConfig)
    → o.balance_s ≤ℤ o.limit_today_s
    → abs (target_balance o t -ℤ o.balance_s) ≤ cfg.hard_reset_threshold_s
    → needs_absolute o t false cfg ≡ false
unfolding needs_absolute
no_reset o t cfg fits near = ground arith

-- A balance within the limit and within the deadband of its target needs no write.
near_needs_nothing :
    (o : Observation) (t : HubTarget) (applied : ℤ) (cfg : ConvergenceConfig)
    → o.balance_s ≤ℤ o.limit_today_s
    → abs (target_balance o t -ℤ o.balance_s) ≤ cfg.deadband_s
    → cfg.deadband_s ≤ cfg.hard_reset_threshold_s
    → (plan o t applied false cfg).op ≡ Op.noop
unfolding plan
near_needs_nothing o t applied cfg fits near small = rw (
  no_reset o t cfg fits (omega arith),
  no_consume (target_balance o t -ℤ o.balance_s) cfg.deadband_s near,
  no_refund (target_balance o t -ℤ o.balance_s) cfg.deadband_s near,
)

over_needs_reset :
    (o : Observation) (t : HubTarget) (force : Bool) (cfg : ConvergenceConfig)
    → o.limit_today_s <ℤ o.balance_s
    → needs_absolute o t force cfg ≡ true
unfolding needs_absolute
over_needs_reset o t force cfg over = ground arith

over_sets :
    (o : Observation) (t : HubTarget) (applied : ℤ) (force : Bool) (cfg : ConvergenceConfig)
    → o.limit_today_s <ℤ o.balance_s
    → (plan o t applied force cfg).op ≡ Op.set
unfolding plan
over_sets o t applied force cfg over = rw (over_needs_reset o t force cfg over)

module _ (d : FakeTimekprDaemon) (t : HubTarget) (cfg : ConvergenceConfig) where
  near_settles :
      (again : ℤ)
      → d.balance_s ≤ℤ d.limit_today_s
      → abs (time_left d -ℤ (t.limit_today_s -ℤ t.global_spent_s)) ≤ cfg.deadband_s
      → cfg.deadband_s ≤ cfg.hard_reset_threshold_s
      → (plan (observe d) t again false cfg).op ≡ Op.noop
  unfolding observe
  near_settles again fits near small =
      near_needs_nothing (observe d) t again cfg fits (rw (missing_is_correction d t) at near) small

  exact_is_near :
      time_left d ≡ t.limit_today_s -ℤ t.global_spent_s
      → abs (time_left d -ℤ (t.limit_today_s -ℤ t.global_spent_s)) ≤ cfg.deadband_s
  exact_is_near e =
      let zero_gap : time_left d -ℤ (t.limit_today_s -ℤ t.global_spent_s) ≡ pos 0 =
        omega (int_laws, ap pos_part e, ap neg_part e) in
      rw zero_gap (omega arith)

  exact_fits :
      t.global_spent_s ≤ℤ t.limit_today_s
      → time_left d ≡ t.limit_today_s -ℤ t.global_spent_s
      → d.balance_s ≤ℤ d.limit_today_s
  exact_fits within e = omega (int_laws, ap pos_part e, ap neg_part e)

  exact_exceeds :
      t.limit_today_s <ℤ t.global_spent_s
      → time_left d ≡ t.limit_today_s -ℤ t.global_spent_s
      → d.limit_today_s <ℤ d.balance_s
  exact_exceeds over e = omega (int_laws, ap pos_part e, ap neg_part e)

-- Once a plan has been carried out, the next tick against the same target has nothing to write: the
-- user has not used more than the limit, the balance is storable, and the deadband is not above the
-- threshold of a reset.
pub carry_out-settles :
    (d : FakeTimekprDaemon) (t : HubTarget) (applied again : ℤ) (force : Bool)
    (cfg : ConvergenceConfig)
    → Storable d t
    → t.global_spent_s ≤ℤ t.limit_today_s
    → cfg.deadband_s ≤ cfg.hard_reset_threshold_s
    → let d' = carry_out d (plan (observe d) t applied force cfg) in
      (plan (observe d') t again false cfg).op ≡ Op.noop
carry_out-settles d t applied again force cfg h within small =
    let d' = carry_out d (plan (observe d) t applied force cfg) in
    elim (plan-Lands d t applied force cfg h).1 [
      | inl (_, exact) ↦
          near_settles d' t cfg again (exact_fits d' t cfg within exact)
            (exact_is_near d' t cfg exact) small
      | inr (_, same, fits, near) ↦ rw same (near_settles d t cfg again fits near small)
    ]

-- A user who has used more than the limit is reset on every tick: once a plan has been written, the
-- time left is exactly the target's, yet the next tick writes '=' again, for any offset and force.
pub overspent_writes_again :
    (d : FakeTimekprDaemon) (t : HubTarget) (applied again : ℤ) (force again_force : Bool)
    (cfg : ConvergenceConfig)
    → Storable d t
    → t.limit_today_s <ℤ t.global_spent_s
    → (plan (observe d) t applied force cfg).op ≢ Op.noop
    → let d' = carry_out d (plan (observe d) t applied force cfg) in
      (time_left d' ≡ t.limit_today_s -ℤ t.global_spent_s)
      × ((plan (observe d') t again again_force cfg).op ≡ Op.set)
unfolding observe
overspent_writes_again d t applied again force again_force cfg h over written =
    let d' = carry_out d (plan (observe d) t applied force cfg) in
    elim (plan-Lands d t applied force cfg h).1 [
      | inl (_, exact) ↦ (
        exact,
        over_sets (observe d') t again again_force cfg (exact_exceeds d' t cfg over exact),
      )
      | inr (idle, _, _, _) ↦ absurd (written idle)
    ]

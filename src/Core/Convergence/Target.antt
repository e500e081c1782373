-- ===== src/Core/Convergence/Target.antt =====
-- One plan, carried out by the daemon, brings the time left to what the hub intends.
use timekpr_next_hub.Base.{
  ℕ, ◌≤◌, ◌≡◌, ◌≢◌, refl, Bool, false, ◌⊎◌, inl, inr, ap, ◌∙◌, arith, if-elim,
}
use timekpr_next_hub.Base.Int.{ℤ, pos, ◌+ℤ◌, ◌-ℤ◌, ◌≤ℤ◌, neg_ℤ, abs, max_ℤ, min_ℤ, int_laws, ltb_ℤ}
use timekpr_next_hub.Core.Convergence.{
  Op, Reason, Observation, HubTarget, Plan, ConvergenceConfig, target_balance, needs_absolute, plan,
}
use timekpr_next_hub.Core.Convergence.Daemon.{
  FakeTimekprDaemon, set_time_left, observe, tk_limit_per_day, clamp_balance,
}

-- The agent issues the planned call, and none for `noop` (tick.py, `_apply_convergence`).
unfoldable pub carry_out : FakeTimekprDaemon → Plan → FakeTimekprDaemon
carry_out d p = elim p.op [ Op.noop ↦ d | op ↦ set_time_left d op p.seconds ]

abbrev pub time_left : FakeTimekprDaemon → ℤ
time_left d = d.limit_today_s -ℤ d.balance_s

-- The balance that the target asks for is one that timekpr can store.
pub record Storable (d : FakeTimekprDaemon) (t : HubTarget) : Type 0 where
  pub below : target_balance (observe d) t ≤ℤ tk_limit_per_day
  pub above : neg_ℤ tk_limit_per_day ≤ℤ target_balance (observe d) t

clamp_inside : (b : ℤ) → b ≤ℤ tk_limit_per_day → neg_ℤ tk_limit_per_day ≤ℤ b → clamp_balance b ≡ b
unfolding clamp_balance min_ℤ max_ℤ
clamp_inside b h k = ground arith

relative-fits :
    (o : Observation) (t : HubTarget) (force : Bool) (cfg : ConvergenceConfig)
    → needs_absolute o t force cfg ≡ false
    → o.balance_s ≤ℤ o.limit_today_s
unfolding needs_absolute
relative-fits o t force cfg h = ground arith

within_band :
    (c : ℤ) (n : ℕ) → ltb_ℤ (pos n) c ≡ false → ltb_ℤ c (neg_ℤ (pos n)) ≡ false → abs c ≤ n
unfolding ◌-ℤ◌
within_band c n h k = ground arith

min_left : (a b : ℤ) → a ≤ℤ b → min_ℤ a b ≡ a
unfolding min_ℤ
min_left a b h = ground arith

-- The four outcomes of `plan`, each with what was tested.
module _ (o : Observation) (t : HubTarget) (applied : ℤ) (force : Bool) (cfg : ConvergenceConfig)
    (P : Plan → Type 0) where
  abbrev pub correction : ℤ
  correction = target_balance o t -ℤ o.balance_s

  abbrev pub offset : ℤ
  offset = o.balance_s -ℤ o.spent_local_s

  pub plan-elim :
      ((r : Reason)
        → P (record {
          op = Op.set;
          seconds = t.limit_today_s -ℤ t.global_spent_s;
          new_applied_offset_s = target_balance o t -ℤ o.spent_local_s;
          reason = r;
        }))
      → (o.balance_s ≤ℤ o.limit_today_s
          → P (record {
            op = Op.subtract;
            seconds = correction;
            new_applied_offset_s = offset +ℤ correction;
            reason = Reason.converge_consume;
          }))
      → (o.balance_s ≤ℤ o.limit_today_s
          → P (record {
            op = Op.add;
            seconds = neg_ℤ correction;
            new_applied_offset_s = offset +ℤ correction;
            reason = Reason.converge_refund;
          }))
      → (o.balance_s ≤ℤ o.limit_today_s
          → abs correction ≤ cfg.deadband_s
          → P (record {
            op = Op.noop;
            seconds = pos 0;
            new_applied_offset_s = offset;
            reason = Reason.within_deadband;
          }))
      → P (plan o t applied force cfg)
  unfolding plan
  plan-elim on_set on_subtract on_add on_noop =
      if-elim P (needs_absolute o t force cfg) _ _ (λ _. on_set _)
        λ relative.
          let fits = relative-fits o t force cfg relative in
          if-elim P (ltb_ℤ (pos cfg.deadband_s) correction) _ _ (λ _. on_subtract fits)
            λ below.
              if-elim P (ltb_ℤ correction (neg_ℤ (pos cfg.deadband_s))) _ _ (λ _. on_add fits)
                λ above. on_noop fits (within_band correction cfg.deadband_s below above)

-- A storable balance is reached exactly by each of the three operations.
module _ (d : FakeTimekprDaemon) (b : ℤ) (low : neg_ℤ tk_limit_per_day ≤ℤ b)
    (high : b ≤ℤ tk_limit_per_day) where
  set-reaches : (s : ℤ) → d.limit_today_s -ℤ s ≡ b → (set_time_left d Op.set s).balance_s ≡ b
  unfolding set_time_left
  set-reaches s e = rw e (clamp_inside b high low)

  subtract-reaches :
      (s : ℤ)
      → d.balance_s ≤ℤ d.limit_today_s
      → d.balance_s +ℤ s ≡ b
      → (set_time_left d Op.subtract s).balance_s ≡ b
  unfolding set_time_left
  subtract-reaches s fits e =
      rw (min_left d.balance_s d.limit_today_s fits, e) (clamp_inside b high low)

  add-reaches :
      (s : ℤ)
      → d.balance_s ≤ℤ d.limit_today_s
      → d.balance_s -ℤ s ≡ b
      → (set_time_left d Op.add s).balance_s ≡ b
  unfolding set_time_left
  add-reaches s fits e = rw (min_left d.balance_s d.limit_today_s fits, e) (clamp_inside b high low)

-- From the target balance the time left is the hub's.
left_at_target :
    (d : FakeTimekprDaemon) (t : HubTarget)
    → d.limit_today_s -ℤ target_balance (observe d) t ≡ t.limit_today_s -ℤ t.global_spent_s
unfolding target_balance observe
left_at_target d t = omega int_laws

pub missing_is_correction :
    (d : FakeTimekprDaemon) (t : HubTarget)
    → time_left d -ℤ (t.limit_today_s -ℤ t.global_spent_s)
      ≡ target_balance (observe d) t -ℤ d.balance_s
unfolding target_balance observe
missing_is_correction d t = omega int_laws

offset_after_correction :
    (d : FakeTimekprDaemon) (t : HubTarget)
    → d.balance_s -ℤ d.spent_day_s +ℤ (target_balance (observe d) t -ℤ d.balance_s)
      ≡ target_balance (observe d) t -ℤ d.spent_day_s
offset_after_correction d t = omega int_laws

after_write :
    (d : FakeTimekprDaemon) (t : HubTarget) (d' : FakeTimekprDaemon) {offset : ℤ}
    → d'.balance_s ≡ target_balance (observe d) t
    → d'.limit_today_s ≡ d.limit_today_s
    → offset ≡ target_balance (observe d) t -ℤ d.spent_day_s
    → (offset ≡ d'.balance_s -ℤ d.spent_day_s)
      × (time_left d' ≡ t.limit_today_s -ℤ t.global_spent_s)
after_write d t d' landed same offset_eq = (
  cc,
  ap (λ l. l -ℤ d'.balance_s) same ∙ ap (λ b. d.limit_today_s -ℤ b) landed ∙ left_at_target d t,
)

-- What one tick's plan achieves at daemon `d`, when the plan is carried out.
abbrev pub Lands : FakeTimekprDaemon → HubTarget → ConvergenceConfig → Plan → Type 0
Lands d t cfg p =
    (p.new_applied_offset_s ≡ (carry_out d p).balance_s -ℤ d.spent_day_s)
    × (((p.op ≢ Op.noop) × (time_left (carry_out d p) ≡ t.limit_today_s -ℤ t.global_spent_s))
        ⊎ ((p.op ≡ Op.noop)
            × (carry_out d p ≡ d)
            × (d.balance_s ≤ℤ d.limit_today_s)
            × (abs (time_left d -ℤ (t.limit_today_s -ℤ t.global_spent_s)) ≤ cfg.deadband_s)))

-- Carried out by the daemon, a plan leaves the user exactly the hub's limit less the global spend,
-- whatever limit the device itself has configured, or it is the empty plan, nothing is written and
-- the balance is within the device's limit and the time left already within the deadband of that
-- number; the offset that is remembered is the
-- balance afterwards less the local spend that was observed. The target balance is assumed to be
-- one that timekpr can store.
pub plan-Lands :
    (d : FakeTimekprDaemon) (t : HubTarget) (applied : ℤ) (force : Bool) (cfg : ConvergenceConfig)
    → Storable d t
    → Lands d t cfg (plan (observe d) t applied force cfg)
unfolding carry_out set_time_left target_balance observe
plan-Lands d t applied force cfg h =
    plan-elim (observe d) t applied force cfg (Lands d t cfg)
      (λ _.
        let w =
          after_write d t (set_time_left d Op.set (t.limit_today_s -ℤ t.global_spent_s))
            (set-reaches d b h.above h.below _ at_set) refl refl in
        (w.0, inl ((λ e. cc), w.1)))
      (λ fits.
        let w =
          after_write d t (set_time_left d Op.subtract c)
            (subtract-reaches d b h.above h.below c fits (omega int_laws)) refl
            (offset_after_correction d t) in
        (w.0, inl ((λ e. cc), w.1)))
      (λ fits.
        let w =
          after_write d t (set_time_left d Op.add (neg_ℤ c))
            (add-reaches d b h.above h.below _ fits (omega int_laws)) refl
            (offset_after_correction d t) in
        (w.0, inl ((λ e. cc), w.1)))
      (λ fits near. (omega int_laws, inr (refl, refl, fits, rw (missing_is_correction d t) near)))
  where
    b : ℤ
    b = target_balance (observe d) t

    c : ℤ
    c = b -ℤ d.balance_s

    at_set : d.limit_today_s -ℤ (t.limit_today_s -ℤ t.global_spent_s) ≡ b
    at_set = omega int_laws

-- ===== src/Agent/Tick/Revoked.antt =====
-- A device that the hub has revoked goes back to managing itself.
use timekpr_next_hub.Base.Chars.{Chars}
use timekpr_next_hub.Base.{
  ℕ, ◌*◌, ◌≡◌, refl, ◌∙◌, min, String, Option, none, some, [], ◌∷◌, arith, if◌then◌else◌, if-elim,
  str_eq, eq_iff, ap,
}
use timekpr_next_hub.Base.Int.{ℤ}
use timekpr_next_hub.Base.Dict.{Dict, lookup, lookup-insert}
use timekpr_next_hub.Agent.Timekpr.{Timekpr}
use timekpr_next_hub.Agent.State.{
  ActiveSpan, UserState, AgentState, LastEnforcement, fresh, user, with_user,
}
use timekpr_next_hub.Agent.Tick.{max_poll_ms, buffer_unsent_span}
use timekpr_next_hub.Agent.Tick.Run.{Pass, Seen, revoked, finish_tick, revoke_all}

-- What the next answer of the hub, or a tick without it, starts from, and what the agent reports.
abbrev pub books : UserState → String × ℤ × ℤ × ℤ × ℕ × String × ℤ × Option Chars
books us = (
  us.day, us.cum_local_s, us.raw_prev_s, us.applied_offset_s, us.policy_version_applied,
  us.policy_revision_applied, us.last_hub_contact_utc, us.last_policy_push_error,
)

buffer-books :
    (us : UserState) (span : Option ActiveSpan)
    → books (record (buffer_unsent_span us span) { last_enforcement = LastEnforcement.revoked })
      ≡ books us
unfolding buffer_unsent_span
buffer-books us none = refl
buffer-books us (some span) = refl

pub user-with_user :
    (state : AgentState) (n m : String) (u : UserState)
    → user (with_user state n u) m ≡ (if str_eq n m then u else user state m)
unfolding user with_user
user-with_user state n m u =
    ap (λ entry. elim entry [ none ↦ fresh | some v ↦ v ]) (lookup-insert n m u state.users)
    ∙ if-elim
        (λ entry.
          elim entry [ none ↦ fresh | some v ↦ v ] ≡ (if str_eq n m then u else user state m))
        (str_eq n m) (some u) (lookup m state.users) (λ same. rw (same) refl)
        (λ other. rw (other) refl)

with_user-books :
    (state : AgentState) (n m : String) (u : UserState)
    → books u ≡ books (user state n)
    → books (user (with_user state n u) m) ≡ books (user state m)
with_user-books state n m u h = rw (user-with_user state n m u) (
    if-elim (λ v. books v ≡ books (user state m)) (str_eq n m) _ _
      (λ same. let e : n ≡ m = (eq_iff n m).0 same in rw⁻¹ (e) h) (λ other. refl))

module _ (timekpr : Timekpr) where
  revoke_all-books :
      (seen : Dict Seen) (state : AgentState) (m : String)
      → books (user (revoke_all timekpr seen state) m) ≡ books (user state m)
  unfolding revoke_all
  revoke_all-books [] state m = refl
  revoke_all-books ((username, s) ∷ rest) state m =
      let us : UserState = record (buffer_unsent_span (user state username) s.span) {
        last_enforcement = LastEnforcement.revoked;
      } in
      revoke_all-books rest (with_user state username us) m
      ∙ with_user-books state username m us (buffer-books (user state username) s.span)

  -- When the hub answers that the device is revoked, the tick leaves the daemon alone, and leaves
  -- each user's day, counter, offset, applied policy and last contact as the first loop left them;
  -- the next delay is twice the last one, up to the longest one.
  pub finish_tick-revoked :
      (config : timekpr.Config) (pass : Pass) (now : ℤ) (previous_poll_ms : ℕ) (m : String)
      → let done = finish_tick timekpr config pass now previous_poll_ms revoked in
        (done.0 ≡ config)
        × (books (user done.1 m) ≡ books (user pass.state m))
        × (done.2 ≡ min (previous_poll_ms * 2) max_poll_ms)
  unfolding finish_tick
  finish_tick-revoked config pass now previous_poll_ms m =
      (refl, revoke_all-books pass.seen pass.state m, omega arith)

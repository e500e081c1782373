-- ===== src/Hub/Sync/Retry.antt =====
-- A report that a device sends again, because it could not know that it had arrived.
use timekpr_next_hub.Base.{
  ℕ, ◌≡◌, refl, sym, ap, ◌∙◌, subst, ==_iff, Bool, true, false, none, some, List, [], find,
  Bool-cases, Option-cases, inl, inr,
}
use timekpr_next_hub.Base.Int.{ℤ}
use timekpr_next_hub.Core.Models.{AccountingMode}
use timekpr_next_hub.Core.Calendar.{toordinal, month_bounds}
use timekpr_next_hub.Hub.Tables.{User, Policy}
use timekpr_next_hub.Hub.Aggregate.{ActivityInterval, UsageCounter, counter_of}
use timekpr_next_hub.Hub.Aggregate.Replay.{recorded, record_spans-replay}
use timekpr_next_hub.Hub.Aggregate.Stamps.{
  stamped, global_spent_wallclock-stamped, global_spent_parallel-stamped,
  global_spent_wallclock_window-stamped, global_spent_parallel_window-stamped,
}
use timekpr_next_hub.Hub.Enrollment.{Device}
use timekpr_next_hub.Hub.Provision.{Accounts, NewIds, has_user_id, alias_of}
use timekpr_next_hub.Hub.Provision.Keyed.{AreFresh, find_holds}
use timekpr_next_hub.Hub.Provision.Settled.{IsSettled}
use timekpr_next_hub.Hub.Sync.{
  Context, Tables, Located, SyncUserRequest, SyncUserResponse, week_bounds, is_taken, locate,
  record_report, global_spent, window_spend, answer, sync_user,
}
use timekpr_next_hub.Hub.Sync.Lookup.{
  Settles, locate-IsSettled, located-IsSettled, some_inj, none_is_not_some,
}
use timekpr_next_hub.Hub.Sync.Noted.{upsert_usage_counter-again, append_nil, noted, noted-IsSettled}

module _ (ctx : Context) (device : Device) (req : SyncUserRequest) where
  pub sync_user-located :
      (st : Tables) (ids : NewIds) (at : Located)
      → is_taken ctx req ≡ true
      → locate st.accounts ids device.id req.username ≡ some at
      → sync_user ctx device st ids req
        ≡ some (
          record_report ctx device.id at st req,
          answer ctx device (record_report ctx device.id at st req) at.user at.policy req,
        )
  unfolding sync_user
  sync_user-located st ids at taken h = rw (h, sync_user, taken) refl

  sync_user-lost :
      (st : Tables) (ids : NewIds)
      → is_taken ctx req ≡ true
      → locate st.accounts ids device.id req.username ≡ none
      → sync_user ctx device st ids req ≡ none
  unfolding sync_user
  sync_user-lost st ids taken h = rw (h, sync_user, taken) refl

  pub sync_user-refused :
      (st : Tables) (ids : NewIds)
      → is_taken ctx req ≡ false
      → sync_user ctx device st ids req ≡ none
  unfolding sync_user
  sync_user-refused st ids refused = rw (refused) refl

module _ (ctx : Context) (device : Device) (req : SyncUserRequest) (now' db_now' : ℤ) where
  abbrev reported : Located → Tables → Tables
  reported at st = record_report ctx device.id at st req

  abbrev after : Located → Located
  after at = record at {
    accounts = noted device.id req.username req.policy_push_error ctx.now at.accounts;
  }

  abbrev tables_of : Accounts → List UsageCounter → List ActivityInterval → Tables
  tables_of accounts counters intervals = record {
    accounts = accounts;
    counters = counters;
    intervals = intervals;
  }

  same_tables :
      (a a' : Accounts) (c c' : List UsageCounter) (i i' : List ActivityInterval)
      → a ≡ a'
      → c ≡ c'
      → i ≡ i'
      → tables_of a c i ≡ tables_of a' c' i'
  same_tables a a' c c' i i' p q r =
      ap (λ x. tables_of x c i) p ∙ ap (λ x. tables_of a' x i) q ∙ ap (λ x. tables_of a' c' x) r

  abbrev later : Context
  later = record ctx { now = now'; db_now = db_now' }

  -- The counter of the report's user, device and day, with a new time of its last change.
  abbrev counted_at : Tables → List UsageCounter
  counted_at st = elim (find (alias_of device.id req.username) st.accounts.aliases) [
    | none ↦ st.counters
    | some alias ↦
        stamped (counter_of alias.user_id device.id (toordinal ctx.today)) db_now' st.counters
  ]

  -- The time of an error that timekpr's setters gave, and the time of the counter's last change, are
  -- noted anew.
  abbrev pub noted_at : Tables → Tables
  noted_at st = record st {
    accounts = noted device.id req.username req.policy_push_error now' st.accounts;
    counters = counted_at st;
  }

  -- What a report has written, it writes again.
  counted-settled :
      (st : Tables) (user : User) (policy : Policy)
      → IsSettled st.accounts device.id req.username user policy
      → counted_at st
        ≡ stamped (counter_of user.id device.id (toordinal ctx.today)) db_now' st.counters
  counted-settled st user policy h =
      rw (h.alias_found, counted_at)
        (ap (λ id. stamped (counter_of id device.id (toordinal ctx.today)) db_now' st.counters)
          (sym (
            (==_iff user.id h.alias.user_id).0
              (find_holds (has_user_id h.alias.user_id) st.accounts.users user h.user_found))))

  record_report-again :
      (at : Located) (st : Tables)
      → IsSettled (reported at st).accounts device.id req.username at.user at.policy
      → record_report later device.id (after at) (reported at st) req ≡ noted_at (reported at st)
  unfolding record_report
  record_report-again at st settled =
      let day = toordinal ctx.today in
      let spans = req.active_spans in
      let u = at.user.id in
      same_tables (noted_at (reported at st)).accounts _ _ _ _ _ refl
        (upsert_usage_counter-again st.counters u device.id day req.cumulative_spent_s
            (some req.activity_state) ctx.db_now db_now'
          ∙ sym (counted-settled (reported at st) at.user at.policy settled))
        (ap (recorded u device.id day (recorded u device.id day st.intervals spans))
            (sym (append_nil spans))
          ∙ record_spans-replay u device.id day st.intervals spans []
          ∙ ap (recorded u device.id day st.intervals) (append_nil spans))

  reported_accounts : (at : Located) (st : Tables) → (reported at st).accounts ≡ (after at).accounts
  unfolding record_report
  reported_accounts at st = refl

  -- The sums do not read the times.
  module _ (t t' : Tables) (user : User) (same : UsageCounter → Bool)
      (counters : t'.counters ≡ stamped same db_now' t.counters)
      (intervals : t'.intervals ≡ t.intervals) where
    global_spent-later : global_spent later t' user ≡ global_spent ctx t user
    unfolding global_spent
    global_spent-later = of_mode user.accounting_mode
      where
        of_mode :
            (mode : AccountingMode)
            → let u : User = record user { accounting_mode = mode } in
              global_spent later t' u ≡ global_spent ctx t u
        of_mode AccountingMode.wallclock =
            rw (counters, intervals)
              (global_spent_wallclock-stamped ctx.range_agg_s t.intervals user.id same db_now'
                t.counters (toordinal ctx.today))
        of_mode AccountingMode.parallel = rw (counters) (
            global_spent_parallel-stamped ctx.range_agg_s t.intervals user.id same db_now'
              t.counters (toordinal ctx.today))

    window_spend-later :
        (bounds : ℕ × ℕ) → window_spend later t' user bounds ≡ window_spend ctx t user bounds
    unfolding window_spend
    window_spend-later (start_day, end_day) = of_mode user.accounting_mode
      where
        of_mode :
            (mode : AccountingMode)
            → let u : User = record user { accounting_mode = mode } in
              window_spend later t' u (start_day, end_day)
              ≡ window_spend ctx t u (start_day, end_day)
        of_mode AccountingMode.wallclock =
            rw (counters, intervals)
              (global_spent_wallclock_window-stamped ctx.range_agg_s t.intervals user.id same
                db_now' t.counters start_day end_day)
        of_mode AccountingMode.parallel = rw (counters) (
            global_spent_parallel_window-stamped ctx.range_agg_s t.intervals user.id same db_now'
              t.counters start_day end_day)

    answer-later :
        (policy : Policy)
        → answer later device t' user policy req ≡ answer ctx device t user policy req
    unfolding answer
    answer-later policy =
        rw
          (
            global_spent-later,
            window_spend-later (week_bounds (toordinal ctx.today)),
            window_spend-later (month_bounds ctx.today),
          )
          refl

  -- The second time, the account is settled.
  sync_user-again :
      (st : Tables) (ids' : NewIds) (at : Located)
      → is_taken ctx req ≡ true
      → Settles device.id req.username at
      → sync_user later device (reported at st) ids' req
        ≡ some (noted_at (reported at st), answer ctx device (reported at st) at.user at.policy req)
  sync_user-again st ids' at taken settled =
      let again : Settles device.id req.username (after at) =
        noted-IsSettled device.id req.username req.policy_push_error ctx.now at.accounts at.user
          at.policy settled in
      let kept =
        subst (λ accounts. IsSettled accounts device.id req.username at.user at.policy)
          (sym (reported_accounts at st)) again in
      sync_user-located later device req (reported at st) ids' (after at) taken (
        ap (λ accounts. locate accounts ids' device.id req.username) (reported_accounts at st)
        ∙ locate-IsSettled (after at).accounts ids' device.id req.username at.user at.policy again)
      ∙ ap (λ t. some (t, answer later device t at.user at.policy req))
          (record_report-again at st kept)
      ∙ ap (λ response. some (noted_at (reported at st), response))
          (answer-later (reported at st) (noted_at (reported at st)) at.user
            (counter_of at.user.id device.id (toordinal ctx.today))
            (counted-settled (reported at st) at.user at.policy kept) refl at.policy)

-- A report that is sent again later on the same day, because its answer was lost, and before the hub
-- has written anything else, is given the same
-- answer and leaves the tables as they are, so that no time is counted twice, but for two times, which
-- are noted anew: that of the error that the report names, and that of the last change of the user's
-- counter on the device for the day; this holds whatever ids are drawn the second time, when those of
-- the first time were new.
pub sync_user-retry :
    (ctx : Context) (device : Device) (st : Tables) (ids ids' : NewIds) (req : SyncUserRequest)
    (now' db_now' : ℤ) (st' : Tables) (response : SyncUserResponse)
    → AreFresh st.accounts ids
    → sync_user ctx device st ids req ≡ some (st', response)
    → sync_user (record ctx { now = now'; db_now = db_now' }) device st' ids' req
      ≡ some (noted_at ctx device req now' db_now' st', response)
sync_user-retry ctx device st ids ids' req now' db_now' st' response fresh h =
    elim (Bool-cases (is_taken ctx req)) [
      | inr refused ↦
          absurd (none_is_not_some _ (sym (sync_user-refused ctx device req st ids refused) ∙ h))
      | inl taken ↦ elim (Option-cases (locate st.accounts ids device.id req.username)) [
        | inl lost ↦
            absurd (none_is_not_some _ (sym (sync_user-lost ctx device req st ids taken lost) ∙ h))
        | inr (at, found) ↦
            subst
              (λ (out : Tables × SyncUserResponse).
                sync_user (record ctx { now = now'; db_now = db_now' }) device out.0 ids' req
                ≡ some (noted_at ctx device req now' db_now' out.0, out.1))
              (some_inj _ (st', response)
                (sym (sync_user-located ctx device req st ids at taken found) ∙ h))
              (sync_user-again ctx device req now' db_now' st ids' at taken
                (located-IsSettled st.accounts ids device.id req.username at fresh found))
      ]
    ]

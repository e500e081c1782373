-- ===== src/Hub/Sync.antt =====
-- hub/timekpr_hub/api/sync.py: what the hub does with a device's report. Times that are read
-- are instants, `now` is an argument, and the household's time zone gives the stamp of the day. PostgreSQL's
-- range_agg and the hash of a payload are parameters.
pub mod Lookup
pub mod Noted
pub mod Retry
pub mod Answer
pub mod Total
mod Tests
use timekpr_next_hub.Base.{
  ℕ, ◌==◌, ◌&&◌, ◌-◌, ◌+◌, String, str_eq, Bool, true, false, Option, none, some, List, [], ◌∷◌,
  map, find, if◌then◌else◌, ◌>>=◌, leb,
}
use Prim.Native.String.{count}
use timekpr_next_hub.Base.Int.{ℤ, pos, negsuc, ◌-ℤ◌, max_ℤ, leb_ℤ}
use timekpr_next_hub.Core.Calendar.{Date, CanonicalStamp, toordinal, days_in_iso_week, month_bounds}
use timekpr_next_hub.Core.Models.{
  AccountingMode, ActivityState, EnforcementMode, OfflinePolicy, PolicyPayload,
}
use timekpr_next_hub.Core.EffectivePolicy.{Revision}
use timekpr_next_hub.Hub.Tables.{User, UserAlias, Policy, DayHourOverride}
use timekpr_next_hub.Hub.Limits.{LimitTables, effective_daily_limit}
use timekpr_next_hub.Hub.Aggregate.{
  UsageCounter, ActivityInterval, upsert_usage_counter, record_spans, global_spent_wallclock,
  global_spent_parallel,
}
use timekpr_next_hub.Hub.Aggregate.Windows.{
  global_spent_wallclock_window, global_spent_parallel_window,
}
use timekpr_next_hub.Hub.Policy.{get_or_create_policy, served_policy}
use timekpr_next_hub.Hub.Enrollment.{Device}
use timekpr_next_hub.Hub.Provision.{
  Accounts, NewIds, has_user_id, alias_of, save_user, provision_user_alias,
}

-- `SyncUserRequest`, as far as the hub reads it. `times_read` tells whether `datetime.fromisoformat`
-- reads the times of the spans, and as instants that can be compared; `active_spans` are then these.
pub record SyncUserRequest : Type 0 where
  pub username : String
  pub cumulative_spent_s : ℤ
  pub times_read : Bool
  pub active_spans : List (ℤ × ℤ)
  pub activity_state : ActivityState
  pub policy_version_applied : ℕ
  pub policy_revision_applied : Option Revision
  pub policy_push_error : Option String

-- `SyncUserResponse`
pub record SyncUserResponse : Type 0 where
  pub username : String
  pub global_spent_s : ℤ
  pub effective_limit_today_s : ℤ
  pub effective_week_limit_s : ℤ
  pub effective_month_limit_s : ℤ
  pub enforcement : EnforcementMode
  pub policy_version : ℕ
  pub policy_revision : Revision
  pub policy : Option PolicyPayload
  pub offline_policy : OfflinePolicy
  pub offline_grace_s : ℤ
  pub offline_cap_s : ℤ

-- The tables that a sync writes.
pub record Tables : Type 0 where
  pub accounts : Accounts
  pub counters : List UsageCounter
  pub intervals : List ActivityInterval

-- Whether PostgreSQL's text type holds a text (it has no NUL), the tables that a sync only reads, with the instant, PostgreSQL's `now()` and the stamp.
pub record Context : Type 0 where
  pub range_agg_s : List (ℤ × ℤ) → Option ℤ
  pub digest : PolicyPayload → String
  pub holds : String → Bool
  pub limits : LimitTables
  pub hours : List DayHourOverride
  pub now : ℤ
  pub db_now : ℤ
  pub today : Date

-- The first and the last day of the week.
abbrev pub week_bounds : ℕ → ℕ × ℕ
week_bounds day = elim (days_in_iso_week day) [
  | [] ↦ (day, day)
  | monday ∷ rest ↦ (monday, last_of monday rest)
]
  where
    last_of : ℕ → List ℕ → ℕ
    last_of d [] = d
    last_of d (x ∷ xs) = last_of x xs

-- `error or None`: an empty text is falsy.
abbrev pub error_time : Option String → ℤ → Option ℤ
error_time none now = none
error_time (some error) now = if str_eq error "" then none else some now

abbrev pub note_error : ℕ → String → Option String → ℤ → UserAlias → UserAlias
note_error device_id username error now a =
    if alias_of device_id username a
    then record a { policy_push_error = error; policy_push_error_at = error_time error now }
    else a

-- The user of a report and their policy, with the accounts as they are then.
pub record Located : Type 0 where
  pub accounts : Accounts
  pub user : User
  pub policy : Policy

-- None stands for the failure of `scalar_one`: an alias whose user is not there.
unfoldable pub locate : Accounts → NewIds → ℕ → String → Option Located
unfolding provision_user_alias get_or_create_policy save_user
locate st ids device_id username = elim (find (alias_of device_id username) st.aliases) [
  | none ↦
      let p = provision_user_alias st ids device_id username none in
      some (record { accounts = p.accounts; user = p.user; policy = p.policy })
  | some alias ↦ elim (find (has_user_id alias.user_id) st.users) [
    | none ↦ none
    | some user ↦
        let got = get_or_create_policy st.policies ids.policy_id user none in
        some (record {
          accounts = record {
            users = save_user got.1 st.users;
            aliases = st.aliases;
            policies = got.0;
          };
          user = got.1;
          policy = got.2;
        })
  ]
]

-- What a report writes for its user.
unfoldable pub record_report : Context → ℕ → Located → Tables → SyncUserRequest → Tables
unfolding upsert_usage_counter record_spans toordinal
record_report ctx device_id at st req =
    let day = toordinal ctx.today in
    record {
      accounts = record at.accounts {
        aliases =
            map (note_error device_id req.username req.policy_push_error ctx.now)
              at.accounts.aliases;
      };
      counters =
          upsert_usage_counter st.counters at.user.id device_id day req.cumulative_spent_s
            (some req.activity_state) ctx.db_now;
      intervals = record_spans st.intervals at.user.id device_id day req.active_spans;
    }

-- What the hub answers for a user, from the tables as they are after the report.
unfoldable pub global_spent : Context → Tables → User → ℤ
unfolding global_spent_wallclock global_spent_parallel toordinal
global_spent ctx st user = elim user.accounting_mode [
  | AccountingMode.wallclock ↦
      global_spent_wallclock ctx.range_agg_s st.intervals st.counters user.id (toordinal ctx.today)
  | AccountingMode.parallel ↦ global_spent_parallel st.counters user.id (toordinal ctx.today)
]

unfoldable pub window_spend : Context → Tables → User → ℕ × ℕ → ℤ
unfolding global_spent_wallclock_window global_spent_parallel_window
window_spend ctx st user (start_day, end_day) = elim user.accounting_mode [
  | AccountingMode.wallclock ↦
      global_spent_wallclock_window ctx.range_agg_s st.intervals st.counters user.id start_day
        end_day
  | AccountingMode.parallel ↦ global_spent_parallel_window st.counters user.id start_day end_day
]

unfoldable pub answer :
    Context → Device → Tables → User → Policy → SyncUserRequest → SyncUserResponse
unfolding global_spent window_spend effective_daily_limit served_policy max_ℤ days_in_iso_week
    month_bounds toordinal
answer ctx device st user policy req =
    let day = toordinal ctx.today in
    let served =
      served_policy ctx.digest ctx.hours policy day req.policy_revision_applied
        req.policy_version_applied in
    record {
      username = req.username;
      global_spent_s = global_spent ctx st user;
      effective_limit_today_s = effective_daily_limit ctx.limits policy user day;
      effective_week_limit_s =
          max_ℤ (pos 0) (policy.weekly_limit_s -ℤ window_spend ctx st user (week_bounds day));
      effective_month_limit_s =
          max_ℤ (pos 0)
            (policy.monthly_limit_s -ℤ window_spend ctx st user (month_bounds ctx.today));
      enforcement = device.enforcement;
      policy_version = policy.version;
      policy_revision = served.1;
      policy = served.0;
      offline_policy = user.offline_policy;
      offline_grace_s = user.offline_grace_s;
      offline_cap_s = user.offline_cap_s;
    }

-- The columns: String(n) and BigInteger.
abbrev pub fits_text : (String → Bool) → ℕ → String → Bool
fits_text holds n s = holds s && leb (count s) n

abbrev pub fits_error : (String → Bool) → Option String → Bool
fits_error holds none = true
fits_error holds (some error) = fits_text holds 256 error

abbrev pub fits_int8 : ℤ → Bool
fits_int8 n = leb_ℤ (negsuc 9_223_372_036_854_775_807) n && leb_ℤ n (pos 9_223_372_036_854_775_807)

-- A report whose statements PostgreSQL takes and whose times are read. Any other one ends in an
-- exception that nothing handles.
abbrev pub is_taken : Context → SyncUserRequest → Bool
is_taken ctx req =
    fits_text ctx.holds 64 req.username
    && (fits_error ctx.holds req.policy_push_error
        && (fits_int8 req.cumulative_spent_s && req.times_read))

-- One turn of the loop over `req.users`: none stands for an exception.
unfoldable pub sync_user :
    Context → Device → Tables → NewIds → SyncUserRequest → Option (Tables × SyncUserResponse)
unfolding locate record_report answer
sync_user ctx device st ids req =
    let done : Option (Tables × SyncUserResponse) =
      elim (locate st.accounts ids device.id req.username) [
        | none ↦ none
        | some at ↦
            let st' = record_report ctx device.id at st req in
            some (st', answer ctx device st' at.user at.policy req)
      ] in
    if is_taken ctx req then done else none

-- The loop, in one transaction: none if a turn fails, and then nothing is committed.
unfoldable pub sync_users :
    Context
    → Device
    → Tables
    → List (NewIds × SyncUserRequest)
    → Option (Tables × List SyncUserResponse)
unfolding sync_user
sync_users ctx device st [] = some (st, [])
sync_users ctx device st ((ids, req) ∷ rest) = do
  (st1, response) ← sync_user ctx device st ids req
  (st2, responses) ← sync_users ctx device st1 rest
  some (st2, response ∷ responses)

-- The device's row: a request without users is a probe and leaves it. `round` is Python's, of the
-- difference of the two clocks in milliseconds. None stands for an exception: `agent_time` is none where
-- `datetime.fromisoformat` does not read it as an instant, and the columns are String(32) and BigInteger.
unfoldable pub check_in :
    {User : Type 0}
    → (String → Bool)
    → (ℤ → ℤ)
    → Device
    → ℤ
    → Option ℤ
    → String
    → List User
    → Option Device
check_in holds round device now agent_time agent_version [] = some device
check_in holds round device now none agent_version (u ∷ users) = none
check_in holds round device now (some agent_time) agent_version (u ∷ users) =
    let skew_ms = round (now -ℤ agent_time) in
    if fits_text holds 32 agent_version && fits_int8 skew_ms
    then some (record device {
      last_seen_at = some now;
      last_sync_at = some now;
      agent_version = agent_version;
      clock_skew_ms = some skew_ms;
    })
    else none

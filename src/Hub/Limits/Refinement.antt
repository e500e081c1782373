-- ===== src/Hub/Limits/Refinement.antt =====
-- The tables of hub/timekpr_hub/services/limits.py keep, for each user and day, an override, whether the
-- gate is released, and the seconds granted: `Allowances`, which the operations change at one place each.
use timekpr_next_hub.Base.{
  ℕ, ◌&&◌, not, String, Bool, true, false, Option, none, some, List, [], ◌∷◌, ◌++◌, find,
  if◌then◌else◌,
}
use timekpr_next_hub.Base.Int.{ℤ, pos, ◌+ℤ◌, max_ℤ}
use timekpr_next_hub.Hub.Tables.{User, Policy, DayOverride}
use timekpr_next_hub.Hub.Limits.{
  LimitTables, base_daily_limit, is_gated_weekday, grants_total, day_override, set_day_override,
  clear_day_override, release_of, release_gate, unrelease_gate,
}
use timekpr_next_hub.Hub.Limits.Keyed.{same_key, KeyedRows}

-- A change of a user's day.
pub data LimitCall : Type 0 where
  grant : ℕ → ℕ → ℤ → LimitCall
  override : ℕ → ℕ → ℤ → String → String → LimitCall
  clear release_back : ℕ → ℕ → LimitCall
  release : ℕ → ℕ → String → String → LimitCall

-- The answer, whether there was something to remove, and the tables.
unfoldable pub make_call : LimitCall → LimitTables → Bool × LimitTables
unfolding set_day_override clear_day_override release_gate unrelease_gate
make_call (grant u d seconds) tables = (
  true,
  record tables {
    grants = tables.grants ++ record { user_id = u; day = d; seconds = seconds } ∷ [];
  },
)
make_call (override u d limit reason by) tables = (
  true,
  record tables { day_overrides = set_day_override tables.day_overrides u d limit reason by },
)
make_call (clear u d) tables =
    let (cleared, rows) = clear_day_override tables.day_overrides u d in
    (cleared, record tables { day_overrides = rows })
make_call (release u d by note) tables =
    (true, record tables { gate_releases = release_gate tables.gate_releases u d by note })
make_call (release_back u d) tables =
    let (back, rows) = unrelease_gate tables.gate_releases u d in
    (back, record tables { gate_releases = rows })

unfoldable pub make_calls : List LimitCall → LimitTables → List Bool × LimitTables
unfolding make_call
make_calls [] tables = ([], tables)
make_calls (c ∷ cs) tables =
    let (answer, after) = make_call c tables in
    let (answers, end) = make_calls cs after in (answer ∷ answers, end)

abbrev pub no_rows : LimitTables
no_rows = record { grants = []; day_overrides = []; gate_releases = [] }

-- The specification's state, and its changes.
pub record Allowances : Type 0 where
  pub overridden : ℕ → ℕ → Option ℤ
  pub released : ℕ → ℕ → Bool
  pub granted : ℕ → ℕ → ℤ

abbrev pub put_at : {V : Type 0} → ℕ → ℕ → V → (ℕ → ℕ → V) → ℕ → ℕ → V
put_at user_id day v f u d = if same_key user_id day u d then v else f u d

abbrev pub is_some : {V : Type 0} → Option V → Bool
is_some none = false
is_some (some v) = true

abbrev pub allow : LimitCall → Allowances → Bool × Allowances
allow (grant u d seconds) a =
    (true, record a { granted = put_at u d (a.granted u d +ℤ seconds) a.granted })
allow (override u d limit reason by) a =
    (true, record a { overridden = put_at u d (some limit) a.overridden })
allow (clear u d) a =
    (is_some (a.overridden u d), record a { overridden = put_at u d none a.overridden })
allow (release u d by note) a = (true, record a { released = put_at u d true a.released })
allow (release_back u d) a = (a.released u d, record a { released = put_at u d false a.released })

abbrev pub allow_all : List LimitCall → Allowances → List Bool × Allowances
allow_all [] a = ([], a)
allow_all (c ∷ cs) a =
    let (answer, after) = allow c a in
    let (answers, end) = allow_all cs after in (answer ∷ answers, end)

abbrev pub nothing_allowed : Allowances
nothing_allowed = record {
  overridden = λ u d. none;
  released = λ u d. false;
  granted = λ u d. pos 0;
}

abbrev pub or_base : ℤ → Option ℤ → ℤ
or_base base none = base
or_base base (some limit) = limit

-- Nothing on a gated weekday that is not released; else the override or the policy's limit, and the
-- grants, but not less than nothing.
unfoldable pub allowed_seconds : Allowances → Policy → User → ℕ → ℤ
unfolding max_ℤ
allowed_seconds a policy user day =
    if is_gated_weekday user day && not (a.released user.id day)
    then pos 0
    else max_ℤ (pos 0)
        (or_base (base_daily_limit policy day) (a.overridden user.id day) +ℤ a.granted user.id day)

-- What the tables stand for.
abbrev pub limit_of : Option DayOverride → Option ℤ
limit_of none = none
limit_of (some o) = some o.limit_seconds

unfoldable pub abstraction : LimitTables → Allowances
abstraction tables = record {
  overridden = λ u d. limit_of (day_override tables.day_overrides u d);
  released = λ u d. is_some (find (release_of u d) tables.gate_releases);
  granted = λ u d. grants_total tables.grants u d;
}

-- Their keys are unique.
pub record IsKeyed (tables : LimitTables) : Type 0 where
  pub overrides : KeyedRows (λ o. o.user_id) (λ o. o.day) tables.day_overrides
  pub releases : KeyedRows (λ r. r.user_id) (λ r. r.day) tables.gate_releases

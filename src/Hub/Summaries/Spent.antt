-- ===== src/Hub/Summaries/Spent.antt =====
-- hub/timekpr_hub/services/summaries.py, compute_user_summaries: the time spent that is shown of a user.
use timekpr_next_hub.Base.{
  ℕ, ◌≡◌, refl, ap, ◌∙◌, ◌==◌, Bool, true, false, Option, none, List, [], ◌∷◌, ◌++◌, map, keep, not,
  if◌then◌else◌,
}
use timekpr_next_hub.Base.Int.{ℤ, pos}
use timekpr_next_hub.Core.Models.{AccountingMode}
use timekpr_next_hub.Core.Calendar.{toordinal}
use timekpr_next_hub.Hub.Tables.{User}
use timekpr_next_hub.Hub.Summaries.{ById, get, is_in}
use timekpr_next_hub.Hub.Aggregate.{UsageCounter, ActivityInterval}
use timekpr_next_hub.Hub.Aggregate.Windows.{
  global_spent_wallclock_batch, global_spent_parallel_batch,
}
use timekpr_next_hub.Hub.Aggregate.Windows.Batches.{
  global_spent_wallclock_batch-agrees, global_spent_wallclock_batch-other,
  global_spent_parallel_batch-agrees, global_spent_parallel_batch-other,
}
use timekpr_next_hub.Hub.Sync.{Context, Tables, global_spent}

abbrev pub is_wallclock : AccountingMode → Bool
is_wallclock AccountingMode.wallclock = true
is_wallclock AccountingMode.parallel = false

abbrev pub wallclock_ids : List User → List ℕ
wallclock_ids users =
    map (λ (u : User). u.id) (keep (λ (u : User). is_wallclock u.accounting_mode) users)

abbrev pub parallel_ids : List User → List ℕ
parallel_ids users =
    map (λ (u : User). u.id) (keep (λ (u : User). not (is_wallclock u.accounting_mode)) users)

-- `spent_by_user`: a dict, updated from the wall-clock batch and then from the parallel one. A batch
-- that asks for no user is empty.
unfoldable pub spent_by_user :
    (List (ℤ × ℤ) → Option ℤ) → List ActivityInterval → List UsageCounter → List User → ℕ → ById
spent_by_user range_agg_s intervals counters users day =
    global_spent_parallel_batch counters (parallel_ids users) day
    ++ global_spent_wallclock_batch range_agg_s intervals counters (wallclock_ids users) day

get-append :
    (id : ℕ) (default : ℤ) (d e : ById) → get id default (d ++ e) ≡ get id (get id default e) d
get-append id default [] e = refl
get-append id default ((k, v) ∷ d) e =
    ap (λ later. if k == id then v else later) (get-append id default d e)

-- A user is listed in one mode only, as its own row says.
abbrev pub IsListed : List User → User → Type 0
IsListed users user =
    (is_in (wallclock_ids users) user.id ≡ is_wallclock user.accounting_mode)
    × (is_in (parallel_ids users) user.id ≡ not (is_wallclock user.accounting_mode))

spent_by_user-mode :
    (ctx : Context) (st : Tables) (users : List User) (user : User) (mode : AccountingMode)
    → ctx.range_agg_s [] ≡ none
    → is_in (wallclock_ids users) user.id ≡ is_wallclock mode
    → is_in (parallel_ids users) user.id ≡ not (is_wallclock mode)
    → get user.id
        (pos 0)
        (spent_by_user ctx.range_agg_s st.intervals st.counters users (toordinal ctx.today))
      ≡ global_spent ctx st (record user { accounting_mode = mode })
unfolding spent_by_user global_spent
spent_by_user-mode ctx st users user AccountingMode.wallclock empty listed other =
    get-append user.id (pos 0) _ _
    ∙ global_spent_parallel_batch-other ctx.range_agg_s st.intervals st.counters
        (parallel_ids users) (toordinal ctx.today) user.id _ other
    ∙ global_spent_wallclock_batch-agrees ctx.range_agg_s st.intervals st.counters
        (wallclock_ids users) (toordinal ctx.today) user.id empty listed
spent_by_user-mode ctx st users user AccountingMode.parallel empty other listed =
    get-append user.id (pos 0) _ _
    ∙ ap
        (λ default.
          get user.id default
            (global_spent_parallel_batch st.counters (parallel_ids users) (toordinal ctx.today)))
        (global_spent_wallclock_batch-other ctx.range_agg_s st.intervals st.counters
          (wallclock_ids users) (toordinal ctx.today) user.id other)
    ∙ global_spent_parallel_batch-agrees ctx.range_agg_s st.intervals st.counters
        (parallel_ids users) (toordinal ctx.today) user.id listed

-- For a user that the summaries are made for, listed with its own accounting mode and no other, the time
-- spent that is shown is what the sync answers a device of that user with, in either mode. PostgreSQL's
-- range_agg is null for no row.
pub spent_by_user-agrees :
    (ctx : Context) (st : Tables) (users : List User) (user : User)
    → ctx.range_agg_s [] ≡ none
    → IsListed users user
    → get user.id
        (pos 0)
        (spent_by_user ctx.range_agg_s st.intervals st.counters users (toordinal ctx.today))
      ≡ global_spent ctx st user
spent_by_user-agrees ctx st users user empty listed =
    spent_by_user-mode ctx st users user user.accounting_mode empty listed.0 listed.1

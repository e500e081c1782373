-- ===== src/Hub/Summaries.antt =====
-- The batched queries of hub/timekpr_hub/services/limits.py, and the limit that
-- services/summaries.py computes from them for every user that it shows.
pub mod Dicts
pub mod Agree
pub mod Spent
pub mod History
use timekpr_next_hub.Base.{
  ℕ, ◌==◌, ◌&&◌, Bool, true, false, Option, none, some, List, [], ◌∷◌, map, keep, any,
  if◌then◌else◌,
}
use timekpr_next_hub.Base.Int.{ℤ, pos, ◌+ℤ◌}
use timekpr_next_hub.Hub.Tables.{User, Policy, Grant, DayOverride, GateRelease}
use timekpr_next_hub.Hub.Limits.{LimitTables, base_daily_limit, is_gated_weekday, combine_limit}

-- A dict from user ids.
abbrev pub ById : Type 0
ById = List (ℕ × ℤ)

-- `d.get(id, default)`
abbrev pub get : ℕ → ℤ → ById → ℤ
get id default [] = default
get id default ((k, v) ∷ d) = let later = get id default d in if k == id then v else later

-- `user_id IN (...)`
abbrev pub is_in : List ℕ → ℕ → Bool
is_in ids id = any (λ k. k == id) ids

-- GROUP BY user_id, with SUM: a row is added to its group.
abbrev pub add_to : ℕ → ℤ → ById → ById
add_to id v [] = (id, v) ∷ []
add_to id v ((k, w) ∷ d) =
    let later = add_to id v d in if k == id then (k, v +ℤ w) ∷ d else (k, w) ∷ later

abbrev pub group_sum : List Grant → ById
group_sum [] = []
group_sum (g ∷ rest) = add_to g.user_id g.seconds (group_sum rest)

unfoldable pub grants_totals_batch : List Grant → List ℕ → ℕ → ById
grants_totals_batch grants user_ids day =
    group_sum (keep (λ (g : Grant). is_in user_ids g.user_id && g.day == day) grants)

-- A dict comprehension over the rows: the last row of a key stays.
abbrev pub dict_of : ById → List DayOverride → ById
dict_of built [] = built
dict_of built (o ∷ rest) = dict_of ((o.user_id, o.limit_seconds) ∷ built) rest

unfoldable pub day_overrides_batch : List DayOverride → List ℕ → ℕ → ById
day_overrides_batch overrides user_ids day =
    dict_of [] (keep (λ (o : DayOverride). is_in user_ids o.user_id && o.day == day) overrides)

unfoldable pub gate_releases_batch : List GateRelease → List ℕ → ℕ → List ℕ
gate_releases_batch releases user_ids day =
    map (λ (r : GateRelease). r.user_id)
      (keep (λ (r : GateRelease). is_in user_ids r.user_id && r.day == day) releases)

-- The limit of a user with a policy in `compute_user_summaries`.
unfoldable pub summary_limit : LimitTables → List ℕ → Policy → User → ℕ → ℤ
unfolding grants_totals_batch day_overrides_batch gate_releases_batch combine_limit base_daily_limit
    is_gated_weekday
summary_limit tables user_ids policy user day =
    let grants_by_user = grants_totals_batch tables.grants user_ids day in
    let overrides_by_user = day_overrides_batch tables.day_overrides user_ids day in
    let released_users = gate_releases_batch tables.gate_releases user_ids day in
    combine_limit (get user.id (base_daily_limit policy day) overrides_by_user)
      (get user.id (pos 0) grants_by_user) (is_gated_weekday user day)
      (is_in released_users user.id)

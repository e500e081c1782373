-- ===== src/Hub/Summaries/History/Days.antt =====
-- What the statistics page shows of a day is what the hub enforces on it, in wall-clock accounting.
use timekpr_next_hub.Base.{
  ℕ, zero, suc, ◌+◌, ◌-◌, ◌≡◌, ◌≤◌, refl, ap, ◌∙◌, ◌==◌, ◌&&◌, ◌||◌, Bool, true, false, Option,
  none, some, List, [], ◌∷◌, map, arith, keep, find, length, All, if◌then◌else◌, Bool-cases, inl,
  inr,
}
use timekpr_next_hub.Base.Int.{ℤ, pos, ◌+ℤ◌}
use timekpr_next_hub.Hub.Rows.{selected}
use timekpr_next_hub.Hub.Tables.{User, Policy, Grant, DayOverride, GateRelease}
use timekpr_next_hub.Hub.Limits.{
  LimitTables, base_daily_limit, is_gated_weekday, combine_limit, grants_total, grant_of,
  override_of, day_override, is_gate_released, effective_daily_limit,
}
use timekpr_next_hub.Hub.Aggregate.{UsageCounter, ActivityInterval, global_spent_wallclock}
use timekpr_next_hub.Hub.Aggregate.Windows.{between}
use timekpr_next_hub.Hub.Aggregate.Windows.Sums.{history-day}
use timekpr_next_hub.Hub.Summaries.{ById, get, is_in, dict_of}
use timekpr_next_hub.Hub.Summaries.Agree.{released_if}
use timekpr_next_hub.Hub.Summaries.Dicts.{get-add_to, sum_if, or_default, of_user, dict_of-one}
use timekpr_next_hub.Hub.Summaries.History.{
  DayUsage, grants_totals_history, dict_by_day, day_overrides_history, gate_releases_history,
  usage_of, usage_from, compute_usage_history,
}

-- A row of the range is the user's on the day exactly when it is on the day.
taken : (u a b n k d : ℕ) → (k == u && between a b d) ≡ true → ((k == u) && (d == n)) ≡ (d == n)
taken u a b n k d h = ground arith

left_out :
    (u a b n k d : ℕ)
    → between a b n ≡ true
    → (k == u && between a b d) ≡ false
    → ((k == u) && (d == n)) ≡ false
left_out u a b n k d inside h = ground arith

-- A row of overrides by its day instead of its user, for the dict by users.
abbrev by_day : DayOverride → DayOverride
by_day o = record o { user_id = o.day }

abbrev on_day : ℕ → DayOverride → Bool
on_day n o = o.day == n

dict_by_day-of :
    (built : ById) (rows : List DayOverride)
    → dict_by_day built rows ≡ dict_of built (map by_day rows)
dict_by_day-of built [] = refl
dict_by_day-of built (o ∷ rest) = dict_by_day-of ((o.day, o.limit_seconds) ∷ built) rest

selected-map :
    (n : ℕ) (rows : List DayOverride)
    → selected (of_user n) (map by_day rows) ≡ selected (on_day n) rows
selected-map n [] = refl
selected-map n (o ∷ rest) = ap (λ k. if o.day == n then suc k else k) (selected-map n rest)

find-map :
    (n : ℕ) (default : ℤ) (rows : List DayOverride)
    → or_default default (find (of_user n) (map by_day rows))
      ≡ or_default default (find (on_day n) rows)
find-map n default [] = refl
find-map n default (o ∷ rest) = elim (Bool-cases (o.day == n)) [
  | inl hit ↦ rw (hit) refl
  | inr miss ↦ rw (miss) (find-map n default rest)
]

module _ (u a b n : ℕ) (inside : between a b n ≡ true) where
  abbrev in_window : DayOverride → Bool
  in_window o = o.user_id == u && between a b o.day

  same_find :
      (overrides : List DayOverride)
      → find (on_day n) (keep in_window overrides) ≡ find (override_of u n) overrides
  same_find [] = refl
  same_find (o ∷ rest) = elim (Bool-cases (in_window o)) [
    | inl both ↦
        rw (both, taken u a b n o.user_id o.day both)
          (ap (λ x. if o.day == n then some o else x) (same_find rest))
    | inr others ↦ rw (others, left_out u a b n o.user_id o.day inside others) (same_find rest)
  ]

  same_selected :
      (overrides : List DayOverride)
      → selected (on_day n) (keep in_window overrides) ≡ selected (override_of u n) overrides
  same_selected [] = refl
  same_selected (o ∷ rest) = elim (Bool-cases (in_window o)) [
    | inl both ↦
        rw (both, taken u a b n o.user_id o.day both)
          (ap (λ k. if o.day == n then suc k else k) (same_selected rest))
    | inr others ↦ rw (others, left_out u a b n o.user_id o.day inside others) (same_selected rest)
  ]

  overrides_agree :
      (overrides : List DayOverride) (default : ℤ)
      → selected (override_of u n) overrides ≤ 1
      → get n default (day_overrides_history overrides u a b)
        ≡ or_default default (day_override overrides u n)
  unfolding day_overrides_history day_override
  overrides_agree overrides default unique =
      let rows = keep in_window overrides in
      ap (get n default) (dict_by_day-of [] rows)
      ∙ dict_of-one n default [] (map by_day rows)
          (omega (arith, selected-map n rows, same_selected overrides))
      ∙ find-map n default rows
      ∙ ap (or_default default) (same_find overrides)

  grants_agree :
      (grants : List Grant)
      → get n (pos 0) (grants_totals_history grants u a b) ≡ grants_total grants u n
  unfolding grants_totals_history grants_total
  grants_agree [] = refl
  grants_agree (g ∷ rest) =
      let later = grants_agree rest in
      elim (Bool-cases (g.user_id == u && between a b g.day)) [
        | inl both ↦
            rw (both, taken u a b n g.user_id g.day both, grants_totals_history, grants_total)
              (get-add_to n g.day g.seconds (grants_totals_history rest u a b)
                ∙ ap (λ x. if g.day == n then g.seconds +ℤ x else x) later
                ∙ sum_if (g.day == n) g (keep (grant_of u n) rest))
        | inr others ↦
            rw
              (
                others,
                left_out u a b n g.user_id g.day inside others,
                grants_totals_history,
                grants_total,
              )
              later
      ]

  releases_agree :
      (releases : List GateRelease)
      → is_in (gate_releases_history releases u a b) n ≡ is_gate_released releases u n
  unfolding gate_releases_history is_gate_released
  releases_agree [] = refl
  releases_agree (r ∷ rest) = elim (Bool-cases (r.user_id == u && between a b r.day)) [
    | inl both ↦
        rw (both, taken u a b n r.user_id r.day both, gate_releases_history)
          (ap (λ x. r.day == n || x) (releases_agree rest))
    | inr others ↦
        rw (others, left_out u a b n r.user_id r.day inside others, gate_releases_history)
          (releases_agree rest)
  ]

inside_window : (start n k end : ℕ) → start ≤ n → n + suc k ≤ end + 1 → between start end n ≡ true
inside_window start n k end low high = ground arith

module _ (range_agg_s : List (ℤ × ℤ) → Option ℤ) (intervals : List ActivityInterval)
    (counters : List UsageCounter) (tables : LimitTables) (policy : Policy) (user : User) where
  -- The limit that is enforced on a day, and the time that is counted as spent on it.
  abbrev pub IsTrue : DayUsage → Type 0
  IsTrue row =
      (row.limit_s ≡ effective_daily_limit tables policy user row.day)
      × (row.spent_s ≡ global_spent_wallclock range_agg_s intervals counters user.id row.day)

  module _ (empty : range_agg_s [] ≡ none)
      (unique : (day : ℕ) → selected (override_of user.id day) tables.day_overrides ≤ 1)
      (start end : ℕ) where
    usage_of-IsTrue :
        (n : ℕ)
        → between start end n ≡ true
        → IsTrue (usage_of range_agg_s intervals counters tables (some policy) user start end n)
    unfolding usage_of effective_daily_limit
    usage_of-IsTrue n inside =
        let gated = is_gated_weekday user n in
        let base = base_daily_limit policy n in
        let base_s = or_default base (day_override tables.day_overrides user.id n) in
        let grants_s = get n (pos 0) (grants_totals_history tables.grants user.id start end) in
        let shown = is_in (gate_releases_history tables.gate_releases user.id start end) n in
        (
          ap (λ b. combine_limit b grants_s gated shown)
                (overrides_agree user.id start end n inside tables.day_overrides base (unique n))
              ∙ ap (λ g. combine_limit base_s g gated shown)
                  (grants_agree user.id start end n inside tables.grants)
              ∙ ap (combine_limit base_s (grants_total tables.grants user.id n) gated)
                  (releases_agree user.id start end n inside tables.gate_releases)
              ∙ released_if gated base_s (grants_total tables.grants user.id n)
                  (is_gate_released tables.gate_releases user.id n),
          history-day range_agg_s intervals counters user.id start end empty n inside,
        )

    usage_from-IsTrue :
        (k n : ℕ)
        → start ≤ n
        → n + k ≤ end + 1
        → All IsTrue
            (usage_from range_agg_s intervals counters tables (some policy) user start end k n)
    usage_from-IsTrue zero n low high = tt
    usage_from-IsTrue (suc k) n low high = (
      usage_of-IsTrue n (inside_window start n k end low high),
      usage_from-IsTrue k (suc n) (omega arith) (omega arith),
    )

  usage_from-length :
      (start end k n : ℕ)
      → length (usage_from range_agg_s intervals counters tables (some policy) user start end k n)
        ≡ k
  usage_from-length start end zero n = refl
  usage_from-length start end (suc k) n = ap suc (usage_from-length start end k (suc n))

  -- The statistics page shows as many days as it was asked for, and every day that it shows, of a user with a policy and at most one override for a day,
  -- has the limit that the hub enforces on that day and the time that it counts as spent on it in
  -- wall-clock accounting, whatever the user's own accounting is. PostgreSQL's range_agg is null for no
  -- row, and the page does not ask for more days than the calendar has until today.
  pub compute_usage_history-IsTrue :
      (num_days today : ℕ)
      → range_agg_s [] ≡ none
      → ((day : ℕ) → selected (override_of user.id day) tables.day_overrides ≤ 1)
      → num_days ≤ today + 1
      → let history =
          compute_usage_history range_agg_s intervals counters tables
            (some policy)
            user
            num_days
            today in
        (length history ≡ num_days) × All IsTrue history
  unfolding compute_usage_history
  compute_usage_history-IsTrue num_days today empty unique enough =
      let start = today + 1 - num_days in
      (
        usage_from-length start today num_days start,
        usage_from-IsTrue empty unique start today num_days start (omega arith) (omega arith),
      )

-- ===== src/Hub/Summaries/Agree.antt =====
-- What the hub shows is what it enforces.
use timekpr_next_hub.Base.{
  ℕ, suc, ◌≡◌, ◌≤◌, refl, ap, ◌∙◌, ◌==◌, ◌&&◌, ◌||◌, Bool, true, false, some, List, [], ◌∷◌, arith,
  keep, find, if◌then◌else◌, Bool-cases, inl, inr,
}
use timekpr_next_hub.Base.Int.{ℤ, pos, ◌+ℤ◌}
use timekpr_next_hub.Hub.Rows.{selected}
use timekpr_next_hub.Hub.Tables.{User, Policy, Grant, DayOverride, GateRelease}
use timekpr_next_hub.Hub.Limits.{
  LimitTables, base_daily_limit, is_gated_weekday, combine_limit, grants_total, grant_of,
  override_of, day_override, is_gate_released, effective_daily_limit,
}
use timekpr_next_hub.Hub.Summaries.{
  get, is_in, grants_totals_batch, day_overrides_batch, gate_releases_batch, summary_limit,
}
use timekpr_next_hub.Hub.Summaries.Dicts.{
  get-add_to, here_in, right_true, and_right, not_asked, sum_if, or_default, of_user, dict_of-one,
}

-- Where a row of the batch is one of the user, the query for the user sees it too, and no other.
module _ (ids : List ℕ) (id : ℕ) (h : is_in ids id ≡ true) where
  taken : (k : ℕ) (q : Bool) → (is_in ids k && q) ≡ true → ((k == id) && q) ≡ (k == id)
  taken k q both = and_right (k == id) q (right_true (is_in ids k) q both)

  left_out : (k : ℕ) (q : Bool) → (is_in ids k && q) ≡ false → ((k == id) && q) ≡ false
  left_out k q others = not_asked (k == id) (is_in ids k) q (here_in ids id k h) others

  grants_agree :
      (grants : List Grant) (day : ℕ)
      → get id (pos 0) (grants_totals_batch grants ids day) ≡ grants_total grants id day
  unfolding grants_totals_batch grants_total
  grants_agree [] day = refl
  grants_agree (g ∷ rest) day =
      let later = grants_agree rest day in
      elim (Bool-cases (is_in ids g.user_id && g.day == day)) [
        | inl both ↦
            rw (both, taken g.user_id (g.day == day) both, grants_totals_batch, grants_total)
              (get-add_to id g.user_id g.seconds (grants_totals_batch rest ids day)
                ∙ ap (λ x. if g.user_id == id then g.seconds +ℤ x else x) later
                ∙ sum_if (g.user_id == id) g (keep (grant_of id day) rest))
        | inr others ↦
            rw (others, left_out g.user_id (g.day == day) others, grants_totals_batch, grants_total)
              later
      ]

  releases_agree :
      (releases : List GateRelease) (day : ℕ)
      → is_in (gate_releases_batch releases ids day) id ≡ is_gate_released releases id day
  unfolding gate_releases_batch is_gate_released
  releases_agree [] day = refl
  releases_agree (r ∷ rest) day = elim (Bool-cases (is_in ids r.user_id && r.day == day)) [
    | inl both ↦
        rw (both, taken r.user_id (r.day == day) both, gate_releases_batch)
          (ap (λ x. r.user_id == id || x) (releases_agree rest day))
    | inr others ↦
        rw (others, left_out r.user_id (r.day == day) others, gate_releases_batch)
          (releases_agree rest day)
  ]

  abbrev asked : ℕ → DayOverride → Bool
  asked day o = is_in ids o.user_id && o.day == day

  same_find :
      (overrides : List DayOverride) (day : ℕ)
      → find (of_user id) (keep (asked day) overrides) ≡ find (override_of id day) overrides
  same_find [] day = refl
  same_find (o ∷ rest) day = elim (Bool-cases (asked day o)) [
    | inl both ↦
        rw (both, taken o.user_id (o.day == day) both)
          (ap (λ x. if of_user id o then some o else x) (same_find rest day))
    | inr others ↦ rw (others, left_out o.user_id (o.day == day) others) (same_find rest day)
  ]

  same_selected :
      (overrides : List DayOverride) (day : ℕ)
      → selected (of_user id) (keep (asked day) overrides) ≡ selected (override_of id day) overrides
  same_selected [] day = refl
  same_selected (o ∷ rest) day = elim (Bool-cases (asked day o)) [
    | inl both ↦
        rw (both, taken o.user_id (o.day == day) both)
          (ap (λ n. if of_user id o then suc n else n) (same_selected rest day))
    | inr others ↦ rw (others, left_out o.user_id (o.day == day) others) (same_selected rest day)
  ]

  overrides_agree :
      (overrides : List DayOverride) (day : ℕ) (default : ℤ)
      → selected (override_of id day) overrides ≤ 1
      → get id default (day_overrides_batch overrides ids day)
        ≡ or_default default (day_override overrides id day)
  unfolding day_overrides_batch day_override
  overrides_agree overrides day default unique =
      dict_of-one id default [] (keep (asked day) overrides)
        (omega (arith, same_selected overrides day))
      ∙ ap (or_default default) (same_find overrides day)

pub released_if :
    (gated : Bool) (base_s grants_s : ℤ) (released : Bool)
    → combine_limit base_s grants_s gated released
      ≡ combine_limit base_s grants_s gated (if gated then released else false)
unfolding combine_limit
released_if true base_s grants_s released = refl
released_if false base_s grants_s released = refl

-- The limit that the hub shows of a user, from the batched queries, is the one that it enforces, from
-- the queries for that user alone: for a user whom the batch asks for, and with one override at most
-- for a user and a day.
pub summary_limit-agrees :
    (tables : LimitTables) (user_ids : List ℕ) (policy : Policy) (user : User) (day : ℕ)
    → is_in user_ids user.id ≡ true
    → selected (override_of user.id day) tables.day_overrides ≤ 1
    → summary_limit tables user_ids policy user day ≡ effective_daily_limit tables policy user day
unfolding summary_limit effective_daily_limit
summary_limit-agrees tables user_ids policy user day h unique =
    let gated = is_gated_weekday user day in
    let base = base_daily_limit policy day in
    let base_s = or_default base (day_override tables.day_overrides user.id day) in
    let grants_by_user = grants_totals_batch tables.grants user_ids day in
    let released = is_gate_released tables.gate_releases user.id day in
    let in_batch = is_in (gate_releases_batch tables.gate_releases user_ids day) user.id in
    ap (λ b. combine_limit b (get user.id (pos 0) grants_by_user) gated in_batch)
      (overrides_agree user_ids user.id h tables.day_overrides day base unique)
    ∙ ap (λ g. combine_limit base_s g gated in_batch)
        (grants_agree user_ids user.id h tables.grants day)
    ∙ ap (combine_limit base_s (grants_total tables.grants user.id day) gated)
        (releases_agree user_ids user.id h tables.gate_releases day)
    ∙ released_if gated base_s (grants_total tables.grants user.id day) released

-- ===== src/Hub/Limits/Simulation.antt =====
-- Every sequence of calls of hub/timekpr_hub/services/limits.py does what the specification does.
use timekpr_next_hub.Base.{
  ℕ, ◌≡◌, refl, sym, ap, ◌∙◌, fun_ext, false, Option, none, some, List, [], ◌∷◌, arith, find, subst,
  Bool-cases, inl, inr,
}
use timekpr_next_hub.Base.Int.{ℤ}
use timekpr_next_hub.Hub.Tables.{User, Policy, DayOverride}
use timekpr_next_hub.Hub.Limits.{
  LimitTables, base_daily_limit, is_gated_weekday, combine_limit, grants_total, override_of,
  day_override, clear_day_override, release_of, is_gate_released, unrelease_gate,
  effective_daily_limit,
}
use timekpr_next_hub.Hub.Limits.Keyed.{same_key, KeyedRows, find-delete_one, delete_one-KeyedRows}
use timekpr_next_hub.Hub.Limits.Refinement.{
  LimitCall, grant, override, clear, release, release_back, make_call, make_calls, no_rows, put_at,
  is_some, allow, allow_all, nothing_allowed, or_base, allowed_seconds, limit_of, abstraction,
  IsKeyed,
}
use timekpr_next_hub.Hub.Limits.Refines.{
  set_overridden, set-KeyedRows, release_found, release-KeyedRows, back_rows, back_answer,
  clear_rows, clear_answer, granted_more, any-find, limit_of_if, is_some_if,
}

-- Every call keeps the keys unique.
make_call-IsKeyed :
    (c : LimitCall) (tables : LimitTables) → IsKeyed tables → IsKeyed (make_call c tables).1
unfolding make_call
make_call-IsKeyed (grant u d seconds) tables keyed = record {
  overrides = keyed.overrides;
  releases = keyed.releases;
}
make_call-IsKeyed (override u d limit reason by) tables keyed = record {
  overrides = set-KeyedRows tables.day_overrides u d limit reason by keyed.overrides;
  releases = keyed.releases;
}
make_call-IsKeyed (clear u d) tables keyed = record {
  overrides =
      subst (KeyedRows (λ o. o.user_id) (λ o. o.day)) (sym (clear_rows tables.day_overrides u d)) (
        delete_one-KeyedRows (λ o. o.user_id) (λ o. o.day) tables.day_overrides u d
          keyed.overrides);
  releases = keyed.releases;
}
make_call-IsKeyed (release u d by note) tables keyed = record {
  overrides = keyed.overrides;
  releases = release-KeyedRows tables.gate_releases u d by note keyed.releases;
}
make_call-IsKeyed (release_back u d) tables keyed = record {
  overrides = keyed.overrides;
  releases =
      subst (KeyedRows (λ r. r.user_id) (λ r. r.day)) (sym (back_rows tables.gate_releases u d)) (
        delete_one-KeyedRows (λ r. r.user_id) (λ r. r.day) tables.gate_releases u d keyed.releases);
}

deleted_override :
    (tables : LimitTables) (u d u' d' : ℕ)
    → IsKeyed tables
    → limit_of (day_override (clear_day_override tables.day_overrides u d).1 u' d')
      ≡ put_at u d none (λ x y. limit_of (day_override tables.day_overrides x y)) u' d'
unfolding day_override
deleted_override tables u d u' d' keyed =
    ap (λ rows. limit_of (find (override_of u' d') rows)) (clear_rows tables.day_overrides u d)
    ∙ ap limit_of (
        find-delete_one (λ o. o.user_id) (λ o. o.day) tables.day_overrides u d keyed.overrides u'
          d')
    ∙ limit_of_if (same_key u d u' d') _ _

deleted_release :
    (tables : LimitTables) (u d u' d' : ℕ)
    → IsKeyed tables
    → is_some (find (release_of u' d') (unrelease_gate tables.gate_releases u d).1)
      ≡ put_at u d false (λ x y. is_some (find (release_of x y) tables.gate_releases)) u' d'
deleted_release tables u d u' d' keyed =
    ap (λ rows. is_some (find (release_of u' d') rows)) (back_rows tables.gate_releases u d)
    ∙ ap is_some (
        find-delete_one (λ r. r.user_id) (λ r. r.day) tables.gate_releases u d keyed.releases u' d')
    ∙ is_some_if (same_key u d u' d') _ _

-- One call and its specification: the same answer, and the same allowances afterwards.
make_call-allow :
    (c : LimitCall) (tables : LimitTables)
    → IsKeyed tables
    → ((make_call c tables).0 ≡ (allow c (abstraction tables)).0)
      × (abstraction (make_call c tables).1 ≡ (allow c (abstraction tables)).1)
unfolding make_call abstraction
make_call-allow (grant u d seconds) tables keyed = (
  refl,
  ap (λ f. record (abstraction tables) { granted = f })
      (fun_ext λ u'. fun_ext λ d'. granted_more tables.grants u d seconds u' d'),
)
make_call-allow (override u d limit reason by) tables keyed = (
  refl,
  ap (λ f. record (abstraction tables) { overridden = f })
      (fun_ext λ u'. fun_ext λ d'. set_overridden tables.day_overrides u d limit reason by u' d'),
)
make_call-allow (clear u d) tables keyed = (
  clear_answer tables.day_overrides u d,
  ap (λ f. record (abstraction tables) { overridden = f })
      (fun_ext λ u'. fun_ext λ d'. deleted_override tables u d u' d' keyed),
)
make_call-allow (release u d by note) tables keyed = (
  refl,
  ap (λ f. record (abstraction tables) { released = f })
      (fun_ext λ u'. fun_ext λ d'. release_found tables.gate_releases u d by note u' d'),
)
make_call-allow (release_back u d) tables keyed = (
  back_answer tables.gate_releases u d,
  ap (λ f. record (abstraction tables) { released = f })
      (fun_ext λ u'. fun_ext λ d'. deleted_release tables u d u' d' keyed),
)

make_calls-allow_all :
    (cs : List LimitCall) (tables : LimitTables)
    → IsKeyed tables
    → ((make_calls cs tables).0 ≡ (allow_all cs (abstraction tables)).0)
      × (abstraction (make_calls cs tables).1 ≡ (allow_all cs (abstraction tables)).1)
unfolding make_calls
make_calls-allow_all [] tables keyed = (refl, refl)
make_calls-allow_all (c ∷ cs) tables keyed =
    let (answer, after) = make_call-allow c tables keyed in
    let (answers, end) =
      make_calls-allow_all cs (make_call c tables).1 (make_call-IsKeyed c tables keyed) in
    (
      ap (λ b. b ∷ (make_calls cs (make_call c tables).1).0) answer
          ∙ ap (λ bs. (allow c (abstraction tables)).0 ∷ bs)
              (answers ∙ ap (λ a. (allow_all cs a).0) after),
      end ∙ ap (λ a. (allow_all cs a).1) after,
    )

or_base_of :
    (base : ℤ) (found : Option DayOverride)
    → (elim found [ none ↦ base | some o ↦ o.limit_seconds ]) ≡ or_base base (limit_of found)
or_base_of base none = refl
or_base_of base (some o) = refl

-- What a user may use on a day is what the specification gives of what the tables stand for.
effective-allowed :
    (tables : LimitTables) (policy : Policy) (user : User) (day : ℕ)
    → effective_daily_limit tables policy user day
      ≡ allowed_seconds (abstraction tables) policy user day
unfolding effective_daily_limit allowed_seconds abstraction combine_limit is_gate_released
effective-allowed tables policy user day =
    rw
      (
        any-find (release_of user.id day) tables.gate_releases,
        or_base_of (base_daily_limit policy day) (day_override tables.day_overrides user.id day),
      )
      (elim (Bool-cases (is_gated_weekday user day)) [
        | inl gated ↦ rw (gated) refl
        | inr free ↦ rw (free) refl
      ])

no_rows-IsKeyed : IsKeyed no_rows
no_rows-IsKeyed = record { overrides = λ u d. omega arith; releases = λ u d. omega arith }

begins_with_nothing : abstraction no_rows ≡ nothing_allowed
unfolding abstraction day_override grants_total
begins_with_nothing = refl

-- From empty tables, whatever sequence of grants, overrides and their removal, and of releases of the
-- chore gate and their taking back, for whatever users and days: each call answers what the specification
-- answers, whether there was something to remove, and in the end every user has on every day, under
-- whatever policy, the seconds of the specification, which keeps an override, a release and a sum of
-- grants for each user and day and changes them at the user and day of the call alone.
pub make_calls-refines :
    (calls : List LimitCall) (policy : Policy) (user : User) (day : ℕ)
    → let (answers, tables) = make_calls calls no_rows in
      let (allowed_answers, allowances) = allow_all calls nothing_allowed in
      (answers ≡ allowed_answers)
      × (effective_daily_limit tables policy user day ≡ allowed_seconds allowances policy user day)
make_calls-refines calls policy user day =
    let (answers, end) = make_calls-allow_all calls no_rows no_rows-IsKeyed in
    (
      answers ∙ ap (λ a. (allow_all calls a).0) begins_with_nothing,
      effective-allowed (make_calls calls no_rows).1 policy user day
          ∙ ap (λ a. allowed_seconds a policy user day)
              (end ∙ ap (λ a. (allow_all calls a).1) begins_with_nothing),
    )

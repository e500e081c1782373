-- ===== src/Hub/Aggregate/Stamps.antt =====
-- The time of a counter's last change, which the sums of hub/timekpr_hub/services/aggregate.py do not
-- read.
use timekpr_next_hub.Base.{
  ℕ, ◌≡◌, refl, sym, ap, ◌∙◌, ◌==◌, ◌&&◌, Bool, Option, none, some, List, [], ◌∷◌, ◌++◌, map, keep,
  if◌then◌else◌, if-elim,
}
use timekpr_next_hub.Base.Int.{ℤ, pos, ◌+ℤ◌, max_ℤ}
use timekpr_next_hub.Hub.Aggregate.{
  UsageCounter, ActivityInterval, coalesce, max_spent, sum_spent, spans_of, spent_on,
  global_spent_wallclock, global_spent_parallel,
}
use timekpr_next_hub.Hub.Aggregate.Windows.{
  between, distinct, sum_values, global_spent_wallclock_history, global_spent_wallclock_window,
  global_spent_parallel_window,
}

-- The first row that `same` selects, with a new time.
abbrev pub stamped : (UsageCounter → Bool) → ℤ → List UsageCounter → List UsageCounter
stamped same now [] = []
stamped same now (c ∷ rest) =
    let later = stamped same now rest in
    if same c then record c { updated_at = now } ∷ rest else c ∷ later

abbrev unstamped : UsageCounter → UsageCounter
unstamped c = record c { updated_at = pos 0 }

unstamped-stamped :
    (same : UsageCounter → Bool) (now : ℤ) (rows : List UsageCounter)
    → map unstamped (stamped same now rows) ≡ map unstamped rows
unstamped-stamped same now [] = refl
unstamped-stamped same now (c ∷ rest) =
    if-elim (λ out. map unstamped out ≡ map unstamped (c ∷ rest)) (same c) _ _ (λ _. refl)
      (λ _. ap (λ later. unstamped c ∷ later) (unstamped-stamped same now rest))

-- A query selects the same rows.
keep-unstamped :
    (p : UsageCounter → Bool) (rows : List UsageCounter)
    → ((c : UsageCounter) → p (unstamped c) ≡ p c)
    → keep p (map unstamped rows) ≡ map unstamped (keep p rows)
keep-unstamped p [] h = refl
keep-unstamped p (c ∷ rest) h = rw (h c) (
    if-elim
      (λ out.
        (if p c then unstamped c ∷ keep p (map unstamped rest) else keep p (map unstamped rest))
        ≡ map unstamped out)
      (p c) (c ∷ keep p rest) (keep p rest)
      (λ hit. rw (hit) (ap (λ later. unstamped c ∷ later) (keep-unstamped p rest h)))
      (λ miss. rw (miss) (keep-unstamped p rest h)))

max_spent-unstamped : (rows : List UsageCounter) → max_spent (map unstamped rows) ≡ max_spent rows
max_spent-unstamped [] = refl
max_spent-unstamped (c ∷ rest) =
    ap (λ m. elim m [ none ↦ some c.spent_seconds | some s ↦ some (max_ℤ c.spent_seconds s) ])
      (max_spent-unstamped rest)

sum_spent-unstamped : (rows : List UsageCounter) → sum_spent (map unstamped rows) ≡ sum_spent rows
sum_spent-unstamped [] = refl
sum_spent-unstamped (c ∷ rest) =
    ap (λ s. some (c.spent_seconds +ℤ coalesce s)) (sum_spent-unstamped rest)

abbrev days_of : List UsageCounter → List ℕ
days_of rows = map (λ (c : UsageCounter). c.day) rows

days_of-unstamped : (rows : List UsageCounter) → days_of (map unstamped rows) ≡ days_of rows
days_of-unstamped [] = refl
days_of-unstamped (c ∷ rest) = ap (λ later. c.day ∷ later) (days_of-unstamped rest)

max_kept :
    (p : UsageCounter → Bool) (rows : List UsageCounter)
    → ((c : UsageCounter) → p (unstamped c) ≡ p c)
    → max_spent (keep p (map unstamped rows)) ≡ max_spent (keep p rows)
max_kept p rows h = ap max_spent (keep-unstamped p rows h) ∙ max_spent-unstamped (keep p rows)

sum_kept :
    (p : UsageCounter → Bool) (rows : List UsageCounter)
    → ((c : UsageCounter) → p (unstamped c) ≡ p c)
    → sum_spent (keep p (map unstamped rows)) ≡ sum_spent (keep p rows)
sum_kept p rows h = ap sum_spent (keep-unstamped p rows h) ∙ sum_spent-unstamped (keep p rows)

map-same : {A B : Type 0} (f g : A → B) (xs : List A) → ((a : A) → f a ≡ g a) → map f xs ≡ map g xs
map-same f g [] h = refl
map-same f g (x ∷ xs) h = ap (λ y. y ∷ map f xs) (h x) ∙ ap (λ ys. g x ∷ ys) (map-same f g xs h)

module _ (range_agg_s : List (ℤ × ℤ) → Option ℤ) (intervals : List ActivityInterval)
    (user : ℕ) where
  abbrev day_total : List ActivityInterval → List UsageCounter → ℕ → ℕ × ℤ
  day_total ranged counted day = (
    day,
    max_ℤ (coalesce (range_agg_s (spans_of (keep (λ (i : ActivityInterval). i.day == day) ranged))))
        (coalesce (max_spent (keep (λ (c : UsageCounter). c.day == day) counted))),
  )

  history-unstamped :
      (rows : List UsageCounter) (start_day end_day : ℕ)
      → global_spent_wallclock_history range_agg_s intervals
          (map unstamped rows)
          user
          start_day
          end_day
        ≡ global_spent_wallclock_history range_agg_s intervals rows user start_day end_day
  unfolding global_spent_wallclock_history
  history-unstamped rows start_day end_day =
      let ranged =
        keep (λ (i : ActivityInterval). i.user_id == user && between start_day end_day i.day)
          intervals in
      let selects : UsageCounter → Bool =
        λ c. c.user_id == user && between start_day end_day c.day in
      let counted = keep selects rows in
      let seen = map (λ (i : ActivityInterval). i.day) ranged in
      let history : List UsageCounter → List (ℕ × ℤ) =
        λ cs. map (day_total ranged cs) (distinct (seen ++ days_of cs)) in
      ap history (keep-unstamped selects rows (λ c. refl))
      ∙ map-same (day_total ranged (map unstamped counted)) (day_total ranged counted) _ (λ day.
        ap
          (λ m. (
            day,
            max_ℤ
                (coalesce
                  (range_agg_s (spans_of (keep (λ (i : ActivityInterval). i.day == day) ranged))))
                (coalesce m),
          ))
          (max_kept (λ c. c.day == day) counted (λ c. refl)))
      ∙ ap (λ ds. map (day_total ranged counted) (distinct (seen ++ ds)))
          (days_of-unstamped counted)

  module _ (same : UsageCounter → Bool) (now : ℤ) (rows : List UsageCounter) where
    -- What reads a table without the times reads a table with a new one as before.
    unread :
        {A : Type 0} (read : List UsageCounter → A)
        → ((cs : List UsageCounter) → read (map unstamped cs) ≡ read cs)
        → read (stamped same now rows) ≡ read rows
    unread read h =
        sym (h (stamped same now rows)) ∙ ap read (unstamped-stamped same now rows) ∙ h rows

    pub global_spent_wallclock-stamped :
        (day : ℕ)
        → global_spent_wallclock range_agg_s intervals (stamped same now rows) user day
          ≡ global_spent_wallclock range_agg_s intervals rows user day
    unfolding global_spent_wallclock
    global_spent_wallclock-stamped day =
        ap
          (λ m.
            max_ℤ
              (coalesce (
                range_agg_s (
                  spans_of (
                    keep (λ (i : ActivityInterval). i.user_id == user && i.day == day) intervals))))
              (coalesce m))
          (unread (λ cs. max_spent (keep (spent_on user day) cs))
            (λ cs. max_kept (spent_on user day) cs (λ c. refl)))

    pub global_spent_parallel-stamped :
        (day : ℕ)
        → global_spent_parallel (stamped same now rows) user day
          ≡ global_spent_parallel rows user day
    unfolding global_spent_parallel
    global_spent_parallel-stamped day = ap coalesce (
        unread (λ cs. sum_spent (keep (spent_on user day) cs))
          (λ cs. sum_kept (spent_on user day) cs (λ c. refl)))

    pub global_spent_wallclock_window-stamped :
        (start_day end_day : ℕ)
        → global_spent_wallclock_window range_agg_s intervals
            (stamped same now rows)
            user
            start_day
            end_day
          ≡ global_spent_wallclock_window range_agg_s intervals rows user start_day end_day
    unfolding global_spent_wallclock_window
    global_spent_wallclock_window-stamped start_day end_day = ap sum_values (
        unread
          (λ cs. global_spent_wallclock_history range_agg_s intervals cs user start_day end_day)
          (λ cs. history-unstamped cs start_day end_day))

    pub global_spent_parallel_window-stamped :
        (start_day end_day : ℕ)
        → global_spent_parallel_window (stamped same now rows) user start_day end_day
          ≡ global_spent_parallel_window rows user start_day end_day
    unfolding global_spent_parallel_window
    global_spent_parallel_window-stamped start_day end_day =
        let selects : UsageCounter → Bool =
          λ c. c.user_id == user && between start_day end_day c.day in
        ap coalesce
          (unread (λ cs. sum_spent (keep selects cs)) (λ cs. sum_kept selects cs (λ c. refl)))

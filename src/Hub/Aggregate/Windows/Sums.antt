-- ===== src/Hub/Aggregate/Windows/Sums.antt =====
-- The time that is pooled over a week or a month is the sum of its days'.
use timekpr_next_hub.Base.{
  ℕ, zero, suc, ◌+◌, ◌-◌, ◌≡◌, ◌≤◌, ◌<◌, refl, sym, ap, ◌∙◌, ◌==◌, ◌&&◌, ◌||◌, leb, ltb, Bool, true,
  false, Option, none, List, [], ◌∷◌, ◌++◌, map, keep, arith, if◌then◌else◌, Bool-cases, inl, inr,
}
use timekpr_next_hub.Base.Int.{ℤ, pos, ◌+ℤ◌, max_ℤ, int_laws}
use timekpr_next_hub.Hub.Summaries.{is_in, get}
use timekpr_next_hub.Hub.Aggregate.{
  UsageCounter, ActivityInterval, coalesce, max_spent, sum_spent, spans_of, spent_on, active_on,
  global_spent_wallclock, global_spent_parallel,
}
use timekpr_next_hub.Hub.Aggregate.Windows.{
  distinct, between, global_spent_wallclock_window, global_spent_wallclock_history,
  global_spent_parallel_window,
}
use timekpr_next_hub.Hub.Aggregate.Windows.Groups.{
  neither, keep-keep, keep_same, keep_none, is_in-distinct, is_in-append, distinct_once, sum_days,
  sum_days-same, get-map, is_in-keep, or_cases, sum_values-map, sum_over-sum_days,
}

-- A row of the day, of those that are selected.
day_of :
    (u r a b n k : ℕ)
    → between a b n ≡ true
    → (((r == u) && between a b k) && (k == n)) ≡ ((r == u) && (k == n))
day_of u r a b n k h = ground arith

right_and : (a b : Bool) → (a && b) ≡ true → b ≡ true
right_and a b h = ground arith

within : (a b k : ℕ) → between a b k ≡ true → (a ≤ k) × (k < a + (b + 1 - a))
within a b k h = ground arith

in_range : (a b k : ℕ) → a ≤ k → k < a + (b + 1 - a) → between a b k ≡ true
in_range a b k low high = ground arith

module _ (range_agg_s : List (ℤ × ℤ) → Option ℤ) (intervals : List ActivityInterval)
    (counters : List UsageCounter) (user_id start_day end_day : ℕ) where
  abbrev ranged : List ActivityInterval
  ranged =
      keep (λ (i : ActivityInterval). i.user_id == user_id && between start_day end_day i.day)
        intervals

  abbrev counted : List UsageCounter
  counted =
      keep (λ (c : UsageCounter). c.user_id == user_id && between start_day end_day c.day) counters

  abbrev days : List ℕ
  days = map (λ (i : ActivityInterval). i.day) ranged ++ map (λ (c : UsageCounter). c.day) counted

  abbrev total : List ActivityInterval → List UsageCounter → ℤ
  total is cs = max_ℤ (coalesce (range_agg_s (spans_of is))) (coalesce (max_spent cs))

  abbrev of_group : ℕ → ℤ
  of_group n =
      total (keep (λ (i : ActivityInterval). i.day == n) ranged)
        (keep (λ (c : UsageCounter). c.day == n) counted)

  total_of_no_row : range_agg_s [] ≡ none → total [] [] ≡ pos 0
  unfolding max_ℤ
  total_of_no_row empty = rw (empty) refl

  of_group-day :
      (n : ℕ)
      → between start_day end_day n ≡ true
      → of_group n ≡ global_spent_wallclock range_agg_s intervals counters user_id n
  unfolding global_spent_wallclock
  of_group-day n h =
      ap (λ is. total is (keep (λ (c : UsageCounter). c.day == n) counted))
        (keep-keep
            (λ (i : ActivityInterval). i.user_id == user_id && between start_day end_day i.day)
            (λ (i : ActivityInterval). i.day == n) intervals
          ∙ keep_same _ (active_on user_id n) intervals
              (λ (i : ActivityInterval). day_of user_id i.user_id start_day end_day n i.day h))
      ∙ ap (total (keep (active_on user_id n) intervals)) (
          keep-keep (λ (c : UsageCounter). c.user_id == user_id && between start_day end_day c.day)
            (λ (c : UsageCounter). c.day == n) counters
          ∙ keep_same _ (spent_on user_id n) counters
              (λ (c : UsageCounter). day_of user_id c.user_id start_day end_day n c.day h))

  no_group : range_agg_s [] ≡ none → (n : ℕ) → is_in (distinct days) n ≡ false → of_group n ≡ pos 0
  no_group empty n h =
      let (no_interval, no_counter) = neither _ _ (
        sym (
          is_in-append (map (λ (i : ActivityInterval). i.day) ranged)
            (map (λ (c : UsageCounter). c.day) counted) n)
        ∙ sym (is_in-distinct days n)
        ∙ h) in
      ap (λ is. total is (keep (λ (c : UsageCounter). c.day == n) counted))
        (keep_none (λ (i : ActivityInterval). i.day) n ranged no_interval)
      ∙ ap (total []) (keep_none (λ (c : UsageCounter). c.day) n counted no_counter)
      ∙ total_of_no_row empty

  days_in_range : (n : ℕ) → is_in (distinct days) n ≡ true → between start_day end_day n ≡ true
  days_in_range n h =
      elim (or_cases _ _ (
        sym (
          is_in-append (map (λ (i : ActivityInterval). i.day) ranged)
            (map (λ (c : UsageCounter). c.day) counted) n)
        ∙ sym (is_in-distinct days n)
        ∙ h)) [
          | inl of_interval ↦
              is_in-keep (λ (i : ActivityInterval). i.day)
                (λ (i : ActivityInterval). i.user_id == user_id && between start_day end_day i.day)
                (between start_day end_day) (λ i e. right_and _ _ e) intervals n of_interval
          | inr of_counter ↦
              is_in-keep (λ (c : UsageCounter). c.day)
                (λ (c : UsageCounter). c.user_id == user_id && between start_day end_day c.day)
                (between start_day end_day) (λ c e. right_and _ _ e) counters n of_counter
        ]

  -- In wall-clock accounting, the time that is pooled over a range of days is the sum, over every day of
  -- the range, of the time spent on that day: a day without a row counts nothing. PostgreSQL's range_agg
  -- is null for no row.
  pub global_spent_wallclock_window-sums :
      range_agg_s [] ≡ none
      → start_day ≤ end_day
      → global_spent_wallclock_window range_agg_s intervals counters user_id start_day end_day
        ≡ sum_days
            (global_spent_wallclock range_agg_s intervals counters user_id)
            start_day
            (end_day + 1 - start_day)
  unfolding global_spent_wallclock_window global_spent_wallclock_history
  global_spent_wallclock_window-sums empty order =
      sum_values-map of_group (distinct days)
      ∙ sum_over-sum_days of_group (end_day + 1 - start_day) start_day (distinct days)
          (distinct_once days) (λ k h. within start_day end_day k (days_in_range k h))
          (λ k _ h. no_group empty k h)
      ∙ sum_days-same of_group (global_spent_wallclock range_agg_s intervals counters user_id)
          start_day (end_day + 1 - start_day)
          (λ k low high. of_group-day k (in_range start_day end_day k low high))

  -- A day of the history, with nothing for a day without a row.
  pub history-day :
      range_agg_s [] ≡ none
      → (n : ℕ) → between start_day end_day n ≡ true
      → get n
          (pos 0)
          (global_spent_wallclock_history range_agg_s intervals counters user_id start_day end_day)
        ≡ global_spent_wallclock range_agg_s intervals counters user_id n
  unfolding global_spent_wallclock_history
  history-day empty n inside =
      get-map of_group (distinct days) n ∙ elim (Bool-cases (is_in (distinct days) n)) [
        | inl listed ↦ rw (listed) (of_group-day n inside)
        | inr absent ↦ rw (absent) (sym (no_group empty n absent) ∙ of_group-day n inside)
      ]

spent_step :
    (b : Bool) (c : UsageCounter) (rest : List UsageCounter)
    → coalesce (sum_spent (if b then c ∷ rest else rest))
      ≡ (if b then c.spent_seconds else pos 0) +ℤ coalesce (sum_spent rest)
spent_step true c rest = refl
spent_step false c rest = omega int_laws

swap_in : (x y z w : ℤ) → (x +ℤ y) +ℤ (z +ℤ w) ≡ (x +ℤ z) +ℤ (y +ℤ w)
swap_in x y z w = omega int_laws

zero_left : (v : ℤ) → v ≡ pos 0 +ℤ v
zero_left v = omega int_laws

zero_right : (v : ℤ) → v +ℤ pos 0 ≡ v
zero_right v = omega int_laws

never : (s k : ℕ) → (leb s k && ltb k (s + 0)) ≡ false
never s k = ground arith

sum_of_tests :
    (v : ℤ) (p q r : Bool)
    → (p && q) ≡ false
    → (p || q) ≡ r
    → (if p then v else pos 0) +ℤ (if q then v else pos 0) ≡ (if r then v else pos 0)
sum_of_tests v true true r h k = cc
sum_of_tests v true false r h k =
    ap (λ x. v +ℤ x) refl ∙ zero_right v ∙ ap (λ b. if b then v else pos 0) k
sum_of_tests v false true r h k = sym (zero_left v) ∙ ap (λ b. if b then v else pos 0) k
sum_of_tests v false false r h k = sym (zero_left (pos 0)) ∙ ap (λ b. if b then v else pos 0) k

first_apart : (k s n : ℕ) → ((k == s) && (leb (s + 1) k && ltb k (s + 1 + n))) ≡ false
first_apart k s n = ground arith

first_or_later :
    (k s n : ℕ)
    → ((k == s) || (leb (s + 1) k && ltb k (s + 1 + n))) ≡ (leb s k && ltb k (s + suc n))
first_or_later k s n = ground arith

one_of :
    (v : ℤ) (k s n : ℕ)
    → (if k == s then v else pos 0) +ℤ (if leb (s + 1) k && ltb k (s + 1 + n) then v else pos 0)
      ≡ (if leb s k && ltb k (s + suc n) then v else pos 0)
one_of v k s n =
    sum_of_tests v (k == s) (leb (s + 1) k && ltb k (s + 1 + n)) _ (first_apart k s n)
      (first_or_later k s n)

-- A value that counts on one day counts once in a range that has the day.
add_on_day :
    (v : ℤ) (k : ℕ) (f : ℕ → ℤ) (s n : ℕ)
    → sum_days (λ d. (if k == d then v else pos 0) +ℤ f d) s n
      ≡ (if leb s k && ltb k (s + n) then v else pos 0) +ℤ sum_days f s n
add_on_day v k f s zero = rw (never s k) (omega int_laws)
add_on_day v k f s (suc n) =
    ap (λ x. ((if k == s then v else pos 0) +ℤ f s) +ℤ x) (add_on_day v k f (s + 1) n)
    ∙ swap_in (if k == s then v else pos 0) (f s)
        (if leb (s + 1) k && ltb k (s + 1 + n) then v else pos 0) (sum_days f (s + 1) n)
    ∙ ap (λ x. x +ℤ (f s +ℤ sum_days f (s + 1) n)) (one_of v k s n)

sum_days_zero : (s n : ℕ) → sum_days (λ d. pos 0) s n ≡ pos 0
sum_days_zero s zero = refl
sum_days_zero s (suc n) = ap (λ v. pos 0 +ℤ v) (sum_days_zero (s + 1) n) ∙ omega int_laws

add_own_day :
    (b : Bool) (v : ℤ) (k : ℕ) (f : ℕ → ℤ) (s n : ℕ)
    → sum_days (λ d. (if b && (k == d) then v else pos 0) +ℤ f d) s n
      ≡ (if b && (leb s k && ltb k (s + n)) then v else pos 0) +ℤ sum_days f s n
add_own_day true v k f s n = add_on_day v k f s n
add_own_day false v k f s n =
    sum_days-same (λ d. pos 0 +ℤ f d) f s n (λ d low high. sym (zero_left (f d)))
    ∙ zero_left (sum_days f s n)

same_range : (k a b : ℕ) → between a b k ≡ (leb a k && ltb k (a + (b + 1 - a)))
same_range k a b = ground arith

-- In parallel accounting too, the time that is pooled over a range of days is the sum of its days'.
pub global_spent_parallel_window-sums :
    (counters : List UsageCounter) (user_id start_day end_day : ℕ)
    → global_spent_parallel_window counters user_id start_day end_day
      ≡ sum_days (global_spent_parallel counters user_id) start_day (end_day + 1 - start_day)
unfolding global_spent_parallel_window global_spent_parallel
global_spent_parallel_window-sums [] u a b = sym (sum_days_zero a (b + 1 - a))
global_spent_parallel_window-sums (c ∷ rest) u a b =
    let n = b + 1 - a in
    spent_step (c.user_id == u && between a b c.day) c _
    ∙ ap (λ v. (if c.user_id == u && between a b c.day then c.spent_seconds else pos 0) +ℤ v)
        (global_spent_parallel_window-sums rest u a b)
    ∙ ap
        (λ t.
          (if (c.user_id == u) && t then c.spent_seconds else pos 0)
          +ℤ sum_days (global_spent_parallel rest u) a n)
        (same_range c.day a b)
    ∙ sym (add_own_day (c.user_id == u) c.spent_seconds c.day (global_spent_parallel rest u) a n)
    ∙ sym (
        sum_days-same (global_spent_parallel (c ∷ rest) u) _ a n
          (λ k low high. spent_step (c.user_id == u && c.day == k) c (keep (spent_on u k) rest)))

-- ===== src/Hub/Aggregate/Windows/Batches.antt =====
-- The batched queries hold for a user what the user's own query gives.
use timekpr_next_hub.Base.{
  ℕ, ◌≡◌, refl, sym, ap, ◌∙◌, ◌==◌, ◌&&◌, ◌||◌, if-elim, ==_iff, Bool, true, false, Option, none,
  List, [], ◌∷◌, ◌++◌, map, keep, arith, if◌then◌else◌, Bool-cases, inl, inr,
}
use timekpr_next_hub.Base.Int.{ℤ, pos, ◌+ℤ◌, max_ℤ}
use timekpr_next_hub.Hub.Summaries.{ById, get, is_in, add_to}
use timekpr_next_hub.Hub.Summaries.Dicts.{get-add_to, here_in}
use timekpr_next_hub.Hub.Aggregate.{
  UsageCounter, ActivityInterval, coalesce, max_spent, sum_spent, spans_of, spent_on, active_on,
  global_spent_wallclock, global_spent_parallel,
}
use timekpr_next_hub.Hub.Aggregate.Windows.{
  distinct, global_spent_wallclock_batch, global_spent_parallel_batch, group_spent,
}
use timekpr_next_hub.Hub.Aggregate.Windows.Groups.{
  neither, keep-keep, keep_same, keep_none, is_in-distinct, is_in-append, is_in-keep, get-map,
}

swap_tests :
    (ids : List ℕ) (r id : ℕ) (today : Bool)
    → is_in ids id ≡ true
    → ((is_in ids r && today) && (r == id)) ≡ ((r == id) && today)
swap_tests ids r id today h = elim (Bool-cases (r == id)) [
  | inl same ↦ rw (here_in ids id r h same, same) (and_true today)
  | inr other ↦ rw (other) (and_false (is_in ids r && today))
]
  where
    and_true : (b : Bool) → (b && true) ≡ b
    and_true b = ground arith

    and_false : (b : Bool) → (b && false) ≡ false
    and_false b = ground arith

if_zero : (b : Bool) (v : ℤ) → (b ≡ false → v ≡ pos 0) → (if b then v else pos 0) ≡ v
if_zero true v h = refl
if_zero false v h = sym (h refl)

one_more :
    (b : Bool) (c : UsageCounter) (rest : List UsageCounter)
    → (if b then c.spent_seconds +ℤ coalesce (sum_spent rest) else coalesce (sum_spent rest))
      ≡ coalesce (sum_spent (if b then c ∷ rest else rest))
one_more true c rest = refl
one_more false c rest = refl

asked : (a b : Bool) → (a && b) ≡ true → a ≡ true
asked true b h = refl
asked false b h = cc

-- What the kept rows are asked for by, no row has.
not_in_keep {ℓ} :
    {A : Type ℓ} (key : A → ℕ) (p : A → Bool) (user_ids : List ℕ) (xs : List A) (id : ℕ)
    → is_in user_ids id ≡ false
    → ((x : A) → p x ≡ true → is_in user_ids (key x) ≡ true)
    → is_in (map key (keep p xs)) id ≡ false
not_in_keep key p user_ids xs id h each = elim (Bool-cases (is_in (map key (keep p xs)) id)) [
  | inl present ↦ absurd (cc (is_in-keep key p (is_in user_ids) each xs id present, h))
  | inr absent ↦ absent
]

get-add_to_other :
    (id k : ℕ) (default v : ℤ) (d : ById)
    → (k == id) ≡ false
    → get id default (add_to k v d) ≡ get id default d
get-add_to_other id k default v [] other = rw (other) refl
get-add_to_other id k default v ((j, w) ∷ d) other =
    if-elim (λ out. get id default out ≡ get id default ((j, w) ∷ d)) (j == k) _ _
      (λ same.
        let miss : (j == id) ≡ false = ap (λ n. n == id) ((==_iff j k).0 same) ∙ other in
        rw (miss) refl)
      (λ differs.
        ap (λ later. if j == id then w else later) (get-add_to_other id k default v d other))

get-no_group :
    (id : ℕ) (default : ℤ) (cs : List UsageCounter)
    → is_in (map (λ (c : UsageCounter). c.user_id) cs) id ≡ false
    → get id default (group_spent cs) ≡ default
get-no_group id default [] h = refl
get-no_group id default (c ∷ rest) h =
    let (other, later) = neither _ _ h in
    get-add_to_other id c.user_id default c.spent_seconds (group_spent rest) other
    ∙ get-no_group id default rest later

module _ (range_agg_s : List (ℤ × ℤ) → Option ℤ) (intervals : List ActivityInterval)
    (counters : List UsageCounter) (user_ids : List ℕ) (day : ℕ) where
  abbrev ranged : List ActivityInterval
  ranged = keep (λ (i : ActivityInterval). is_in user_ids i.user_id && i.day == day) intervals

  abbrev counted : List UsageCounter
  counted = keep (λ (c : UsageCounter). is_in user_ids c.user_id && c.day == day) counters

  abbrev ids : List ℕ
  ids =
      map (λ (i : ActivityInterval). i.user_id) ranged
      ++ map (λ (c : UsageCounter). c.user_id) counted

  abbrev total : List ActivityInterval → List UsageCounter → ℤ
  total is cs = max_ℤ (coalesce (range_agg_s (spans_of is))) (coalesce (max_spent cs))

  abbrev of_group : ℕ → ℤ
  of_group id =
      total (keep (λ (i : ActivityInterval). i.user_id == id) ranged)
        (keep (λ (c : UsageCounter). c.user_id == id) counted)

  of_group-user :
      (id : ℕ)
      → is_in user_ids id ≡ true
      → of_group id ≡ global_spent_wallclock range_agg_s intervals counters id day
  unfolding global_spent_wallclock
  of_group-user id h =
      ap (λ is. total is (keep (λ (c : UsageCounter). c.user_id == id) counted))
        (keep-keep (λ (i : ActivityInterval). is_in user_ids i.user_id && i.day == day)
            (λ (i : ActivityInterval). i.user_id == id) intervals
          ∙ keep_same _ (active_on id day) intervals
              (λ (i : ActivityInterval). swap_tests user_ids i.user_id id (i.day == day) h))
      ∙ ap (total (keep (active_on id day) intervals)) (
          keep-keep (λ (c : UsageCounter). is_in user_ids c.user_id && c.day == day)
            (λ (c : UsageCounter). c.user_id == id) counters
          ∙ keep_same _ (spent_on id day) counters
              (λ (c : UsageCounter). swap_tests user_ids c.user_id id (c.day == day) h))

  total_of_no_row : range_agg_s [] ≡ none → total [] [] ≡ pos 0
  unfolding max_ℤ
  total_of_no_row empty = rw (empty) refl

  no_group :
      range_agg_s [] ≡ none → (id : ℕ) → is_in (distinct ids) id ≡ false → of_group id ≡ pos 0
  no_group empty id h =
      let (no_interval, no_counter) = neither _ _ (
        sym (
          is_in-append (map (λ (i : ActivityInterval). i.user_id) ranged)
            (map (λ (c : UsageCounter). c.user_id) counted) id)
        ∙ sym (is_in-distinct ids id)
        ∙ h) in
      ap (λ is. total is (keep (λ (c : UsageCounter). c.user_id == id) counted))
        (keep_none (λ (i : ActivityInterval). i.user_id) id ranged no_interval)
      ∙ ap (total []) (keep_none (λ (c : UsageCounter). c.user_id) id counted no_counter)
      ∙ total_of_no_row empty

  -- For a user that the batch asks for, the batch's value, 0 if it has none, is the time that the user's
  -- own query gives for the day in wall-clock accounting. PostgreSQL's range_agg is null for no row.
  pub global_spent_wallclock_batch-agrees :
      (id : ℕ)
      → range_agg_s [] ≡ none
      → is_in user_ids id ≡ true
      → get id (pos 0) (global_spent_wallclock_batch range_agg_s intervals counters user_ids day)
        ≡ global_spent_wallclock range_agg_s intervals counters id day
  unfolding global_spent_wallclock_batch
  global_spent_wallclock_batch-agrees id empty h =
      get-map of_group (distinct ids) id
      ∙ if_zero (is_in (distinct ids) id) (of_group id) (no_group empty id)
      ∙ of_group-user id h

  get-group_spent :
      (id : ℕ) (cs : List UsageCounter)
      → get id (pos 0) (group_spent cs)
        ≡ coalesce (sum_spent (keep (λ (c : UsageCounter). c.user_id == id) cs))
  get-group_spent id [] = refl
  get-group_spent id (c ∷ rest) =
      get-add_to id c.user_id c.spent_seconds (group_spent rest)
      ∙ ap (λ v. if c.user_id == id then c.spent_seconds +ℤ v else v) (get-group_spent id rest)
      ∙ one_more (c.user_id == id) c (keep (λ (c : UsageCounter). c.user_id == id) rest)

  -- And in parallel accounting.
  pub global_spent_parallel_batch-agrees :
      (id : ℕ)
      → is_in user_ids id ≡ true
      → get id (pos 0) (global_spent_parallel_batch counters user_ids day)
        ≡ global_spent_parallel counters id day
  unfolding global_spent_parallel_batch global_spent_parallel
  global_spent_parallel_batch-agrees id h =
      get-group_spent id counted
      ∙ ap (λ cs. coalesce (sum_spent cs))
          (keep-keep (λ (c : UsageCounter). is_in user_ids c.user_id && c.day == day)
              (λ (c : UsageCounter). c.user_id == id) counters
            ∙ keep_same _ (spent_on id day) counters
                (λ (c : UsageCounter). swap_tests user_ids c.user_id id (c.day == day) h))

  no_counter :
      (id : ℕ)
      → is_in user_ids id ≡ false
      → is_in (map (λ (c : UsageCounter). c.user_id) counted) id ≡ false
  no_counter id h =
      not_in_keep (λ (c : UsageCounter). c.user_id) _ user_ids counters id h (λ c k. asked _ _ k)

  left_out : (id : ℕ) → is_in user_ids id ≡ false → is_in ids id ≡ false
  left_out id h =
      is_in-append (map (λ (i : ActivityInterval). i.user_id) ranged)
        (map (λ (c : UsageCounter). c.user_id) counted) id
      ∙ ap (λ b. b || is_in (map (λ (c : UsageCounter). c.user_id) counted) id)
          (not_in_keep (λ (i : ActivityInterval). i.user_id) _ user_ids intervals id h
            (λ i k. asked _ _ k))
      ∙ no_counter id h

  -- The wall-clock batch has nothing of a user that it does not ask for.
  pub global_spent_wallclock_batch-other :
      (id : ℕ)
      → is_in user_ids id ≡ false
      → get id (pos 0) (global_spent_wallclock_batch range_agg_s intervals counters user_ids day)
        ≡ pos 0
  unfolding global_spent_wallclock_batch
  global_spent_wallclock_batch-other id h =
      get-map of_group (distinct ids) id
      ∙ ap (λ b. if b then of_group id else pos 0) (is_in-distinct ids id ∙ left_out id h)

  -- Nor has the parallel one.
  pub global_spent_parallel_batch-other :
      (id : ℕ) (default : ℤ)
      → is_in user_ids id ≡ false
      → get id default (global_spent_parallel_batch counters user_ids day) ≡ default
  unfolding global_spent_parallel_batch
  global_spent_parallel_batch-other id default h = get-no_group id default counted (no_counter id h)

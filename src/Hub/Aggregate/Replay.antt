-- ===== src/Hub/Aggregate/Replay.antt =====
-- A replayed report changes nothing, and the time spent is never below what a device has reported.
use timekpr_next_hub.Base.{
  ℕ, ◌≡◌, inl, inr, refl, sym, ap, ◌∙◌, ◌==◌, ◌&&◌, ◌||◌, Bool, true, false, Option, none, some,
  List, [], ◌∷◌, arith, keep, any, All, ◌++◌, if-elim, Bool-cases,
}
use timekpr_next_hub.Base.Int.{ℤ, ◌≤ℤ◌, eqb_ℤ, leb_ℤ, max_ℤ}
use timekpr_next_hub.Core.Models.{ActivityState}
use timekpr_next_hub.Hub.Rows.{insert_or_update, any-insert_or_update}
use timekpr_next_hub.Hub.Aggregate.{
  ActivityInterval, UsageCounter, counter_of, spent_on, window_of, insert_activity_interval,
  record_spans, upsert_usage_counter, global_spent_wallclock, max_spent, coalesce, spans_of,
  active_on,
}

-- Where a row with the key is there, an insert that does nothing on a conflict leaves the table.
insert_nothing {ℓ} :
    {A : Type ℓ} (same : A → Bool) (row : A) (rows : List A)
    → any same rows ≡ true
    → insert_or_update same (λ old. old) row rows ≡ rows
unfolding insert_or_update
insert_nothing same row [] h = cc
insert_nothing same row (r ∷ rows) h =
    if-elim (λ out. out ≡ r ∷ rows) (same r) (r ∷ rows)
      (r ∷ insert_or_update same (λ old. old) row rows) (λ hit. refl)
      (λ miss. ap (λ rest. r ∷ rest) (insert_nothing same row rows (after_miss miss h)))
  where
    after_miss : same r ≡ false → any same (r ∷ rows) ≡ true → any same rows ≡ true
    after_miss miss h = ground arith

or_left : (a b : Bool) → a ≡ true → (a || b) ≡ true
or_left a b h = ground arith

or_right : (a b : Bool) → b ≡ true → (a || b) ≡ true
or_right a b h = ground arith

of_or : (a b : Bool) → a ≡ false → (a || b) ≡ true → b ≡ true
of_or a b h k = ground arith

-- No row is lost by an insert.
any-kept {ℓ} :
    {A : Type ℓ} (same p : A → Bool) (row : A) (rows : List A)
    → any p rows ≡ true
    → any p (insert_or_update same (λ old. old) row rows) ≡ true
unfolding insert_or_update
any-kept same p row [] h = cc
any-kept same p row (r ∷ rows) h = ground (arith, any-kept same p row rows)

pub window_same : (d : ℕ) (e : ℤ) → ((d == d) && eqb_ℤ e e) ≡ true
window_same d e = ground arith

module _ (user_id device_id day : ℕ) where
  abbrev pub recorded : List ActivityInterval → List (ℤ × ℤ) → List ActivityInterval
  recorded intervals spans = record_spans intervals user_id device_id day spans

  pub keeps_windows :
      (p : ActivityInterval → Bool) (intervals : List ActivityInterval) (spans : List (ℤ × ℤ))
      → any p intervals ≡ true
      → any p (recorded intervals spans) ≡ true
  unfolding record_spans insert_activity_interval
  keeps_windows p intervals [] h = h
  keeps_windows p intervals ((start, end) ∷ rest) h =
      if-elim (λ out. any p out ≡ true) (leb_ℤ end start) _ _
        (λ skipped. keeps_windows p intervals rest h)
        (λ taken.
          keeps_windows p (insert_activity_interval intervals user_id device_id day start end end)
            rest
            (any-kept (window_of device_id end) p
              (record {
                user_id = user_id;
                device_id = device_id;
                day = day;
                start = start;
                end = end;
                window_end_ts = end;
              })
              intervals h))

  -- Every span of the list is recorded already, or is one that is skipped.
  abbrev Recorded : List ActivityInterval → List (ℤ × ℤ) → Type 0
  Recorded intervals spans =
      All (λ (s : ℤ × ℤ). (leb_ℤ s.1 s.0 || any (window_of device_id s.1) intervals) ≡ true) spans

  recorded_again :
      (intervals : List ActivityInterval) (spans : List (ℤ × ℤ))
      → Recorded intervals spans
      → recorded intervals spans ≡ intervals
  unfolding record_spans insert_activity_interval
  recorded_again intervals [] h = refl
  recorded_again intervals ((start, end) ∷ rest) (one, others) =
      if-elim (λ out. out ≡ intervals) (leb_ℤ end start) _ _
        (λ skipped. recorded_again intervals rest others)
        (λ taken.
          ap (λ t. recorded t rest)
            (insert_nothing (window_of device_id end)
              (record {
                user_id = user_id;
                device_id = device_id;
                day = day;
                start = start;
                end = end;
                window_end_ts = end;
              })
              intervals (of_or _ _ taken one))
          ∙ recorded_again intervals rest others)

  recorded-Recorded :
      (intervals : List ActivityInterval) (spans : List (ℤ × ℤ))
      → Recorded (recorded intervals spans) spans
  unfolding record_spans insert_activity_interval
  recorded-Recorded intervals [] = tt
  recorded-Recorded intervals ((start, end) ∷ rest) =
      if-elim (λ out. Recorded out ((start, end) ∷ rest)) (leb_ℤ end start) _ _
        (λ skipped. (or_left _ _ skipped, recorded-Recorded intervals rest))
        (λ taken.
          let t = insert_activity_interval intervals user_id device_id day start end end in
          (
            or_right _ _ (
                keeps_windows (window_of device_id end) t rest (
                  any-insert_or_update (window_of device_id end) (λ old. old)
                    (record {
                      user_id = user_id;
                      device_id = device_id;
                      day = day;
                      start = start;
                      end = end;
                      window_end_ts = end;
                    })
                    intervals (window_same device_id end) (λ r h. h))),
            recorded-Recorded t rest,
          ))

  recorded-append :
      (intervals : List ActivityInterval) (xs ys : List (ℤ × ℤ))
      → recorded intervals (xs ++ ys) ≡ recorded (recorded intervals xs) ys
  unfolding record_spans
  recorded-append intervals [] ys = refl
  recorded-append intervals ((start, end) ∷ rest) ys = elim (Bool-cases (leb_ℤ end start)) [
    | inl skipped ↦ rw (skipped) (recorded-append intervals rest ys)
    | inr taken ↦ rw (taken) (
        recorded-append (insert_activity_interval intervals user_id device_id day start end end)
          rest ys)
  ]

  -- Spans that a device sends again, because it could not know that they had arrived, with new ones
  -- after them, leave the intervals as one report of all of them does.
  pub record_spans-replay :
      (intervals : List ActivityInterval) (sent more : List (ℤ × ℤ))
      → recorded (recorded intervals sent) (sent ++ more) ≡ recorded intervals (sent ++ more)
  record_spans-replay intervals sent more =
      let first = recorded intervals sent in
      recorded-append first sent more
      ∙ ap (λ t. recorded t more) (recorded_again first sent (recorded-Recorded intervals sent))
      ∙ sym (recorded-append intervals sent more)

-- A count that is there and is no less than a value.
abbrev AtLeast : Option ℤ → ℤ → Type 0
AtLeast none s = ⊥
AtLeast (some m) s = s ≤ℤ m

max-left : (a b s : ℤ) → s ≤ℤ a → s ≤ℤ max_ℤ a b
unfolding max_ℤ
max-left a b s h = ground arith

max-right : (a b s : ℤ) → s ≤ℤ b → s ≤ℤ max_ℤ a b
unfolding max_ℤ
max-right a b s h = ground arith

join-left :
    (a s : ℤ) (o : Option ℤ)
    → s ≤ℤ a
    → AtLeast (elim o [ none ↦ some a | some m ↦ some (max_ℤ a m) ]) s
join-left a s none h = h
join-left a s (some m) h = max-left a m s h

join-right :
    (a s : ℤ) (o : Option ℤ)
    → AtLeast o s
    → AtLeast (elim o [ none ↦ some a | some m ↦ some (max_ℤ a m) ]) s
join-right a s none h = absurd h
join-right a s (some m) h = max-right a m s h

coalesce-AtLeast : (o : Option ℤ) (s : ℤ) → AtLeast o s → s ≤ℤ coalesce o
coalesce-AtLeast none s h = absurd h
coalesce-AtLeast (some m) s h = h

module _ (u d n : ℕ) (s : ℤ) (state : Option ActivityState) (now : ℤ) where
  abbrev key : UsageCounter → Bool
  key = counter_of u d n

  abbrev day_key : UsageCounter → Bool
  day_key = spent_on u n

  key_day : (c : UsageCounter) → key c ≡ true → day_key c ≡ true
  key_day c h = ground arith

  own_day : ((u == u) && (n == n)) ≡ true
  own_day = ground arith

  max_spent-AtLeast :
      (counters : List UsageCounter)
      → AtLeast (max_spent (keep day_key (upsert_usage_counter counters u d n s state now))) s
  unfolding upsert_usage_counter insert_or_update
  max_spent-AtLeast [] = rw (own_day) (omega arith)
  max_spent-AtLeast (c ∷ rest) =
      if-elim (λ out. AtLeast (max_spent (keep day_key out)) s) (key c) _ _
        (λ hit. rw (key_day c hit) (
          join-left (max_ℤ c.spent_seconds s) s (max_spent (keep day_key rest))
            (max-right c.spent_seconds s s (omega arith))))
        (λ miss. elim (Bool-cases (day_key c)) [
          | inl today ↦ rw (today) (
              join-right c.spent_seconds s
                (max_spent (keep day_key (upsert_usage_counter rest u d n s state now)))
                (max_spent-AtLeast rest))
          | inr other ↦ rw (other) (max_spent-AtLeast rest)
        ])

  -- Once a device has reported its counter, the time that the hub counts as spent in wall-clock
  -- accounting is no less than that, whatever the recorded spans cover and however PostgreSQL merges
  -- them.
  pub global_spent_wallclock-counts_report :
      (range_agg_s : List (ℤ × ℤ) → Option ℤ) (intervals : List ActivityInterval)
      (counters : List UsageCounter)
      → s
        ≤ℤ global_spent_wallclock range_agg_s intervals
            (upsert_usage_counter counters u d n s state now)
            u
            n
  unfolding global_spent_wallclock
  global_spent_wallclock-counts_report range_agg_s intervals counters =
      max-right (coalesce (range_agg_s (spans_of (keep (active_on u n) intervals))))
        (coalesce (max_spent (keep day_key (upsert_usage_counter counters u d n s state now)))) s
        (coalesce-AtLeast
          (max_spent (keep day_key (upsert_usage_counter counters u d n s state now))) s
          (max_spent-AtLeast counters))

-- ===== src/Hub/Aggregate/Day.antt =====
-- The day that a reported span is counted on.
use timekpr_next_hub.Base.{
  ℕ, ◌≡◌, ◌≢◌, refl, ap, ◌∙◌, ◌==◌, ◌&&◌, Bool, true, false, List, [], ◌∷◌, arith, keep, any,
  if◌then◌else◌, if-elim, Bool-cases, All, ◌⊎◌, inl, inr,
}
use timekpr_next_hub.Base.Int.{ℤ, ◌≤ℤ◌, leb_ℤ}
use timekpr_next_hub.Hub.Rows.{insert_or_update, All-weaken}
use timekpr_next_hub.Hub.Aggregate.Replay.{keeps_windows, window_same}
use timekpr_next_hub.Hub.Aggregate.{
  ActivityInterval, active_on, window_of, insert_activity_interval, record_spans,
}

-- An insert that does nothing on a conflict shows in a query only where the query selects the new row.
keep-insert_nothing {ℓ} :
    {A : Type ℓ} (same p : A → Bool) (row : A) (rows : List A)
    → p row ≡ false
    → keep p (insert_or_update same (λ old. old) row rows) ≡ keep p rows
unfolding insert_or_update
keep-insert_nothing same p row [] h = rw (h) refl
keep-insert_nothing same p row (r ∷ rows) h =
    if-elim (λ out. keep p out ≡ keep p (r ∷ rows)) (same r) (r ∷ rows)
      (r ∷ insert_or_update same (λ old. old) row rows) (λ hit. refl)
      (λ miss. ap (λ kept. if p r then r ∷ kept else kept) (keep-insert_nothing same p row rows h))

other_day : (a b c d : ℕ) → d ≢ b → ((c == a) && (b == d)) ≡ false
other_day a b c d h = ground arith

-- The intervals of every other day stay as they were.
record_spans-other_days :
    (intervals : List ActivityInterval) (user_id device_id day : ℕ) (spans : List (ℤ × ℤ))
    (user_id' day' : ℕ)
    → day' ≢ day
    → keep (active_on user_id' day') (record_spans intervals user_id device_id day spans)
      ≡ keep (active_on user_id' day') intervals
unfolding record_spans insert_activity_interval
record_spans-other_days intervals user_id device_id day [] user_id' day' h = refl
record_spans-other_days intervals user_id device_id day ((start, end) ∷ rest) user_id' day' h =
    let row : ActivityInterval = record {
      user_id = user_id;
      device_id = device_id;
      day = day;
      start = start;
      end = end;
      window_end_ts = end;
    } in
    if-elim (λ out. keep (active_on user_id' day') out ≡ keep (active_on user_id' day') intervals)
      (leb_ℤ end start) _ _
      (λ skipped. record_spans-other_days intervals user_id device_id day rest user_id' day' h)
      (λ taken.
        record_spans-other_days
          (insert_activity_interval intervals user_id device_id day start end end) user_id device_id
          day rest user_id' day' h
        ∙ keep-insert_nothing (window_of device_id end) (active_on user_id' day') row intervals
            (other_day user_id' day user_id day' h))

-- What an insert that does nothing on a conflict finds afterwards was there, or is the new row.
any-inserted {ℓ} :
    {A : Type ℓ} (same p : A → Bool) (row : A) (rows : List A)
    → any p (insert_or_update same (λ old. old) row rows) ≡ true
    → (any p rows ≡ true) ⊎ ((any same rows ≡ false) × (p row ≡ true))
unfolding insert_or_update
any-inserted same p row [] h = ground arith
any-inserted same p row (r ∷ rows) h = ground (arith, any-inserted same p row rows)

-- A row without a conflict is there afterwards.
any-new {ℓ} :
    {A : Type ℓ} (same p : A → Bool) (row : A) (rows : List A)
    → any same rows ≡ false
    → p row ≡ true
    → any p (insert_or_update same (λ old. old) row rows) ≡ true
unfolding insert_or_update
any-new same p row [] h k = ground arith
any-new same p row (r ∷ rows) h k = ground (arith, any-new same p row rows)

le_of_leb : (a b : ℤ) → leb_ℤ a b ≡ true → a ≤ℤ b
le_of_leb a b h = ground arith

with_window : (u n : ℕ) (w : Bool) → w ≡ true → (((u == u) && (n == n)) && w) ≡ true
with_window u n w h = ground arith

module _ (user_id device_id day : ℕ) where
  -- An interval of the user's day whose end the device has reported.
  abbrev pub is_counted : ℤ → ActivityInterval → Bool
  is_counted end i = active_on user_id day i && window_of device_id end i

  -- A span that does not end after it starts, or whose end the device had reported, or one that is
  -- among the intervals of the day.
  abbrev pub IsCounted : List ActivityInterval → List ActivityInterval → ℤ × ℤ → Type 0
  IsCounted before after (start, end) =
      (end ≤ℤ start)
      ⊎ ((any (window_of device_id end) before ≡ true) ⊎ (any (is_counted end) after ≡ true))

  record_spans-IsCounted :
      (intervals : List ActivityInterval) (spans : List (ℤ × ℤ))
      → All (IsCounted intervals (record_spans intervals user_id device_id day spans)) spans
  unfolding record_spans insert_activity_interval
  record_spans-IsCounted intervals [] = tt
  record_spans-IsCounted intervals ((start, end) ∷ rest) =
      let row : ActivityInterval = record {
        user_id = user_id;
        device_id = device_id;
        day = day;
        start = start;
        end = end;
        window_end_ts = end;
      } in
      let t = insert_activity_interval intervals user_id device_id day start end end in
      let later = record_spans t user_id device_id day rest in
      let new_one : (b : ℤ)
          → any (window_of device_id end) intervals ≡ false
          → window_of device_id b row ≡ true
          → any (is_counted b) later ≡ true =
        λ b absent hit. keeps_windows user_id device_id day (is_counted b) t rest (
          any-new (window_of device_id end) (is_counted b) row intervals absent
            (with_window user_id day (window_of device_id b row) hit)) in
      if-elim (λ out. All (IsCounted intervals out) ((start, end) ∷ rest)) (leb_ℤ end start) _ _
        (λ skipped. (inl (le_of_leb end start skipped), record_spans-IsCounted intervals rest))
        (λ taken. (
          elim (Bool-cases (any (window_of device_id end) intervals)) [
            | inl old ↦ inr (inl old)
            | inr absent ↦ inr (inr (new_one end absent (window_same device_id end)))
          ],
          All-weaken (IsCounted t later) (IsCounted intervals later) rest
              (λ s k. elim k [
                | inl empty ↦ inl empty
                | inr (inr counted) ↦ inr (inr counted)
                | inr (inl known) ↦
                    elim (any-inserted (window_of device_id end) (window_of device_id s.1) row
                      intervals known) [
                        | inl old ↦ inr (inl old)
                        | inr (absent, hit) ↦ inr (inr (new_one s.1 absent hit))
                      ]
              ])
              (record_spans-IsCounted t rest),
        ))

  -- Spans are counted on the day on which the hub hears of them, whatever instants they carry: every
  -- span of the report that ends after it starts, and whose end the device had not reported before, is
  -- then the end of an interval of the device among the user's intervals of that day, and the
  -- intervals of every other day stay as they were.
  pub record_spans-on_hub_day :
      (intervals : List ActivityInterval) (spans : List (ℤ × ℤ)) (user_id' day' : ℕ)
      → day' ≢ day
      → let after = record_spans intervals user_id device_id day spans in
        All (IsCounted intervals after) spans
        × (keep (active_on user_id' day') after ≡ keep (active_on user_id' day') intervals)
  record_spans-on_hub_day intervals spans user_id' day' other = (
    record_spans-IsCounted intervals spans,
    record_spans-other_days intervals user_id device_id day spans user_id' day' other,
  )

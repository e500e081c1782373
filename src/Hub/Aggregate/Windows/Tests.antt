-- ===== src/Hub/Aggregate/Windows/Tests.antt =====
-- The batched query at two users' counters.
use timekpr_next_hub.Base.{ℕ, Option, none, some, List, [], ◌∷◌}
use timekpr_next_hub.Base.Int.{ℤ, pos, ◌-ℤ◌}
use timekpr_next_hub.Hub.Aggregate.{UsageCounter, ActivityInterval}

-- The seconds of one span.
abbrev one_span : List (ℤ × ℤ) → Option ℤ
one_span [] = none
one_span ((start, end) ∷ rest) = some (end -ℤ start)

abbrev counter : ℕ → ℕ → ℤ → UsageCounter
counter user_id device_id s = record {
  user_id = user_id;
  device_id = device_id;
  day = 739684;
  spent_seconds = s;
  activity_state = none;
  updated_at = pos 0;
}

abbrev counters : List UsageCounter
counters = counter 1 4 (pos 60) ∷ counter 2 4 (pos 30) ∷ counter 1 5 (pos 90) ∷ []

abbrev intervals : List ActivityInterval
intervals =
    record {
      user_id = 2;
      device_id = 4;
      day = 739684;
      start = pos 100;
      end = pos 150;
      window_end_ts = pos 150;
    }
    ∷ []

-- ===== src/Core/AllowedHours/Minutes.antt =====
-- Which minutes of the day, and with which flag, intervals and hour records allow.
use timekpr_next_hub.Base.{ℕ, ◌+◌, ◌*◌, Bool, ◌&&◌, List, any}
use timekpr_next_hub.Base.Count.{in_range}
use timekpr_next_hub.Core.AllowedHours.{TimeInterval, HourRecord, eqb}

module _ (minute : ℕ) (flag : Bool) where
  abbrev pub interval_allows : TimeInterval → Bool
  interval_allows iv = eqb iv.unaccounted flag && in_range iv.start_min iv.end_min minute

  abbrev pub record_allows : HourRecord → Bool
  record_allows r =
      eqb r.unaccounted flag
      && in_range (r.hour * 60 + r.start_min) (r.hour * 60 + r.end_min) minute

  abbrev pub intervals_allow : List TimeInterval → Bool
  intervals_allow = any interval_allows

  abbrev pub records_allow : List HourRecord → Bool
  records_allow = any record_allows

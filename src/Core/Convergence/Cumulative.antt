-- ===== src/Core/Convergence/Cumulative.antt =====
-- The agent's own counter of local use, over any course of a day on which timekpr runs, is written
-- to and is read. The daemon loses what it has not saved when it is set by '='.
use timekpr_next_hub.Base.{
  ℕ, ◌+◌, ◌≤◌, ◌<◌, ◌≡◌, true, false, List, [], ◌∷◌, arith, leb, if-elim, leb→le,
}
use timekpr_next_hub.Base.Int.{ℤ, pos, ◌+ℤ◌, ◌-ℤ◌, ◌≤ℤ◌, ◌<ℤ◌, leb_ℤ, int_laws}
use timekpr_next_hub.Core.Convergence.{Op, ConvergenceConfig, CumulativeState, advance_cumulative}
use timekpr_next_hub.Core.Convergence.Daemon.{FakeTimekprDaemon, tick, set_time_left}

-- What can happen between two rollovers of the day.
pub data Event : Type 0 where
  used idle : ℕ → Event
  write : Op → ℤ → Event
  observed : Event

-- The daemon, the agent's counter, and two tallies for the statement: the seconds of real use, and
-- the seconds that '=' writes may have discarded.
pub record Course : Type 0 where
  pub daemon : FakeTimekprDaemon
  pub counter : CumulativeState
  pub activity : ℕ
  pub discarded : ℕ

abbrev pub discards : Op → ℕ → ℕ
discards Op.set n = n
discards _ n = 0

unfoldable pub happen : ConvergenceConfig → Course → Event → Course
happen cfg c (used n) = record c { daemon = tick c.daemon n true; activity = c.activity + n }
happen cfg c (idle n) = record c { daemon = tick c.daemon n false }
happen cfg c (write op s) = record c {
  daemon = set_time_left c.daemon op s;
  discarded = c.discarded + discards op c.daemon.save_interval_s;
}
happen cfg c observed = record c { counter = advance_cumulative c.counter c.daemon.spent_day_s cfg }

unfoldable pub course : ConvergenceConfig → Course → List Event → Course
course cfg c [] = c
course cfg c (e ∷ es) = course cfg (happen cfg c e) es

-- The daemon's own bookkeeping: what is in memory and not saved is bounded by the time since.
pub record IsBooked (d : FakeTimekprDaemon) : Type 0 where
  pub saved_le : d.saved_spent_day_s ≤ℤ d.spent_day_s
  pub unsaved_le : d.spent_day_s ≤ℤ d.saved_spent_day_s +ℤ pos d.elapsed_since_save_s
  pub elapsed_lt : d.elapsed_since_save_s < d.save_interval_s

-- The invariant, for a counter that stood at `base` before the course.
pub record IsHonest (cfg : ConvergenceConfig) (base : ℤ) (c : Course) : Type 0 where
  pub booked : IsBooked c.daemon
  pub tolerated : c.daemon.save_interval_s ≤ cfg.regression_tolerance_s + 1
  pub seen_recent :
      c.counter.raw_prev_s <ℤ c.daemon.saved_spent_day_s +ℤ pos c.daemon.save_interval_s
  pub no_more : c.counter.cum_local_s ≤ℤ base +ℤ pos c.activity
  pub no_more_yet :
      c.counter.cum_local_s +ℤ c.daemon.spent_day_s
      ≤ℤ base +ℤ pos c.activity +ℤ c.counter.raw_prev_s
  pub no_less :
      base +ℤ pos c.activity +ℤ c.counter.raw_prev_s
      ≤ℤ c.counter.cum_local_s +ℤ c.daemon.spent_day_s +ℤ pos c.discarded

leb-false : (a b : ℕ) → leb a b ≡ false → b < a
leb-false a b h = ground arith

module _ (cfg : ConvergenceConfig) (base : ℤ) where
  used-IsHonest :
      (c : Course) (n : ℕ) → IsHonest cfg base c → IsHonest cfg base (happen cfg c (used n))
  unfolding happen tick
  used-IsHonest c n h =
      if-elim (λ d. IsHonest cfg base (record c { daemon = d; activity = c.activity + n }))
        (leb c.daemon.save_interval_s (c.daemon.elapsed_since_save_s + n)) _ _
        (λ flushed. omega int_laws) (λ kept. omega (int_laws, leb-false _ _ kept))

  idle-IsHonest :
      (c : Course) (n : ℕ) → IsHonest cfg base c → IsHonest cfg base (happen cfg c (idle n))
  unfolding happen tick
  idle-IsHonest c n h =
      if-elim (λ d. IsHonest cfg base (record c { daemon = d }))
        (leb c.daemon.save_interval_s (c.daemon.elapsed_since_save_s + n)) _ _
        (λ flushed. omega int_laws) (λ kept. omega (int_laws, leb-false _ _ kept))

  write-IsHonest :
      (c : Course) (op : Op) (s : ℤ)
      → IsHonest cfg base c
      → IsHonest cfg base (happen cfg c (write op s))
  unfolding happen set_time_left
  write-IsHonest c Op.set s h = omega int_laws
  write-IsHonest c _ s h = omega int_laws

  observed-IsHonest : (c : Course) → IsHonest cfg base c → IsHonest cfg base (happen cfg c observed)
  unfolding happen advance_cumulative
  observed-IsHonest c h =
      let prev = c.counter.raw_prev_s in
      let curr = c.daemon.spent_day_s in
      let P : ℤ → Type 0 = λ cum.
        IsHonest cfg base
          (record c { counter = record { cum_local_s = cum; raw_prev_s = curr } }) in
      if-elim P (leb_ℤ prev curr) _ _ (λ grown. omega (int_laws, leb→le _ _ grown))
        λ dropped.
          if-elim P (leb_ℤ (prev -ℤ curr) (pos cfg.regression_tolerance_s)) _ _
            (λ artifact. omega (int_laws, leb-false _ _ dropped))
            (λ rollover. absurd (omega (int_laws, leb-false _ _ rollover)))

  happen-IsHonest :
      (c : Course) (e : Event) → IsHonest cfg base c → IsHonest cfg base (happen cfg c e)
  happen-IsHonest c (used n) h = used-IsHonest c n h
  happen-IsHonest c (idle n) h = idle-IsHonest c n h
  happen-IsHonest c (write op s) h = write-IsHonest c op s h
  happen-IsHonest c observed h = observed-IsHonest c h

  pub course-IsHonest :
      (c : Course) (es : List Event) → IsHonest cfg base c → IsHonest cfg base (course cfg c es)
  unfolding course
  course-IsHonest c [] h = h
  course-IsHonest c (e ∷ es) h = course-IsHonest (happen cfg c e) es (happen-IsHonest c e h)

-- The course begins with a baseline: the counter has just read the daemon.
abbrev pub begin : FakeTimekprDaemon → ℤ → Course
begin d base = record {
  daemon = d;
  counter = record { cum_local_s = base; raw_prev_s = d.spent_day_s };
  activity = 0;
  discarded = 0;
}

begin-IsHonest :
    (cfg : ConvergenceConfig) (d : FakeTimekprDaemon) (base : ℤ)
    → IsBooked d
    → d.save_interval_s ≤ cfg.regression_tolerance_s + 1
    → IsHonest cfg base (begin d base)
begin-IsHonest cfg d base h k = omega int_laws

-- Whatever is used, written and read in a day, and in whatever order, a reading never credits more
-- than the seconds of real use since the baseline, and it misses at most one save interval for each
-- '=' write. The daemon's books are in order at the baseline, and its save interval is within what
-- the controller tolerates as a regression.
pub course-counts :
    (cfg : ConvergenceConfig) (d : FakeTimekprDaemon) (base : ℤ) (es : List Event)
    → IsBooked d
    → d.save_interval_s ≤ cfg.regression_tolerance_s + 1
    → let c = course cfg (begin d base) es in
      let cum = (happen cfg c observed).counter.cum_local_s in
      (cum ≤ℤ base +ℤ pos c.activity) × (base +ℤ pos c.activity ≤ℤ cum +ℤ pos c.discarded)
unfolding happen advance_cumulative
course-counts cfg d base es h k =
    let c = course cfg (begin d base) es in
    after_reading c (
      observed-IsHonest cfg base c
        (course-IsHonest cfg base (begin d base) es (begin-IsHonest cfg d base h k)))
  where
    after_reading :
        (c : Course)
        → IsHonest cfg base (happen cfg c observed)
        → let cum = (happen cfg c observed).counter.cum_local_s in
          (cum ≤ℤ base +ℤ pos c.activity) × (base +ℤ pos c.activity ≤ℤ cum +ℤ pos c.discarded)
    after_reading c h = omega int_laws

-- ===== src/Core/IntervalUnion.antt =====
-- core/timekpr_hub_core/interval_union.py: the wall-clock union of activity spans, by merging runs
-- and by brute force. Instants are epoch seconds, which are not negative.
pub mod Coverage
pub mod Equivalence
mod Tests
use timekpr_next_hub.Base.{
  ℕ, zero, suc, ◌+◌, ◌-◌, ◌≤◌, max, Bool, Option, none, some, List, [], ◌∷◌, ltb, leb, ◌==◌, any,
  length, if◌then◌else◌,
}
use timekpr_next_hub.Base.Sort.{sorted_by}

pub record Span : Type 0 where
  pub start_s : ℕ
  pub end_s : ℕ

-- `Span(start_s, end_s)`: `none` is the ValueError of `__post_init__`.
unfoldable pub span : ℕ → ℕ → Option Span
span start_s end_s =
    if ltb end_s start_s then none else some (record { start_s = start_s; end_s = end_s })

-- What `__post_init__` admits.
abbrev pub IsSpan : Span → Type 0
IsSpan s = s.start_s ≤ s.end_s

-- The loop over `ordered[1:]`, with the current run and the total so far.
unfoldable pub merge_runs : ℕ → ℕ → ℕ → List Span → ℕ
merge_runs total cur_start cur_end [] = total + (cur_end - cur_start)
merge_runs total cur_start cur_end (s ∷ rest) =
    let extended = merge_runs total cur_start (max cur_end s.end_s) rest in
    let closed = merge_runs (total + (cur_end - cur_start)) s.start_s s.end_s rest in
    if leb s.start_s cur_end then extended else closed

unfoldable pub union_ordered : List Span → ℕ
unfolding merge_runs
union_ordered [] = 0
union_ordered (s ∷ rest) = merge_runs 0 s.start_s s.end_s rest

unfoldable pub union_seconds : List Span → ℕ
unfolding union_ordered sorted_by
union_seconds spans = union_ordered (sorted_by (λ s. s.start_s) spans)

-- A Python set of numbers, as a list without repetitions: `t in covered` and `covered.add(t)`.
abbrev pub member : ℕ → List ℕ → Bool
member t = any (λ x. x == t)

unfoldable pub add_second : ℕ → List ℕ → List ℕ
add_second t covered = if member t covered then covered else t ∷ covered

-- `covered.update(range(start, start + n))`
unfoldable pub update_range : ℕ → ℕ → List ℕ → List ℕ
unfolding add_second
update_range start zero covered = covered
update_range start (suc n) covered = update_range (suc start) n (add_second start covered)

unfoldable pub cover_all : List Span → List ℕ → List ℕ
unfolding update_range
cover_all [] covered = covered
cover_all (s ∷ rest) covered = cover_all rest (update_range s.start_s (s.end_s - s.start_s) covered)

unfoldable pub union_seconds_bruteforce : List Span → ℕ
unfolding cover_all
union_seconds_bruteforce spans = length (cover_all spans [])

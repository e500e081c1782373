-- ===== src/Core/IntervalUnion/Equivalence.antt =====
-- The merging algorithm agrees with the brute-force reference, and what the union is bounded by.
use timekpr_next_hub.Base.{
  ℕ, ◌+◌, ◌-◌, ◌≤◌, max, ◌≡◌, refl, sym, ◌∙◌, Bool, true, false, ◌||◌, List, [], ◌∷◌, arith, All,
}
use timekpr_next_hub.Base.Count.{
  count_below, count_below-ext, count_none, count_below-range, count_below_mono, count_below-or_le,
}
use timekpr_next_hub.Base.Sort.{sorted_by, sorted_by-All, sorted_by-Ascending, any-sorted_by}
use timekpr_next_hub.Core.IntervalUnion.{Span, IsSpan, union_seconds, union_seconds_bruteforce}
use timekpr_next_hub.Core.IntervalUnion.Coverage.{
  covers, covered_by, union_ordered-counts, cover_all-counts, member-cover_all,
}

abbrev pub last_end : List Span → ℕ
last_end [] = 0
last_end (s ∷ rest) = max s.end_s (last_end rest)

or_false : (b : Bool) → (b || false) ≡ b
or_false true = refl
or_false false = refl

within : (n : ℕ) (spans : List Span) → last_end spans ≤ n → All (λ (s : Span). s.end_s ≤ n) spans
within n [] h = tt
within n (s ∷ rest) h = (omega arith, within n rest (omega arith))

module _ (n : ℕ) (spans : List Span) (v : All IsSpan spans) (h : last_end spans ≤ n) where
  pub union_seconds-counts : union_seconds spans ≡ count_below n (covered_by spans)
  unfolding union_seconds
  union_seconds-counts =
      union_ordered-counts n (sorted_by (λ (s : Span). s.start_s) spans)
        (sorted_by-All IsSpan _ spans v) (sorted_by-All _ _ spans (within n spans h))
        (sorted_by-Ascending _ spans)
      ∙ count_below-ext n _ _ (λ t _. any-sorted_by (covers t) (λ (s : Span). s.start_s) spans)

  bruteforce-counts : union_seconds_bruteforce spans ≡ count_below n (covered_by spans)
  unfolding union_seconds_bruteforce
  bruteforce-counts =
      cover_all-counts n spans [] v (within n spans h) (count_none n)
      ∙ count_below-ext n _ _ (λ t _. member-cover_all spans t [] ∙ or_false _)

-- The sort-and-merge algorithm returns the number of distinct seconds that the spans cover, as the
-- brute-force reference counts them, for every list of well-formed spans.
pub union_seconds-eq-bruteforce :
    (spans : List Span) → All IsSpan spans → union_seconds spans ≡ union_seconds_bruteforce spans
union_seconds-eq-bruteforce spans v =
    let fits : last_end spans ≤ last_end spans = omega arith in
    union_seconds-counts (last_end spans) spans v fits
    ∙ sym (bruteforce-counts (last_end spans) spans v fits)

-- Burn once: one more span adds at most its own length to the union, never shortens it, and the
-- union is at least as long as that span.
pub union_seconds-cons :
    (s : Span) (spans : List Span)
    → IsSpan s
    → All IsSpan spans
    → (union_seconds spans ≤ union_seconds (s ∷ spans))
      × (s.end_s - s.start_s ≤ union_seconds (s ∷ spans))
      × (union_seconds (s ∷ spans) ≤ union_seconds spans + (s.end_s - s.start_s))
union_seconds-cons s spans v vs =
    let n = last_end (s ∷ spans) in
    omega (
      arith,
      union_seconds-counts n (s ∷ spans) (v, vs) (omega arith),
      union_seconds-counts n spans vs (omega arith),
      count_below-range n s.start_s s.end_s v (omega arith),
      count_below_mono n (covered_by spans) (covered_by (s ∷ spans)) (λ t e. ground arith),
      count_below_mono n (λ t. covers t s) (covered_by (s ∷ spans)) (λ t e. ground arith),
      count_below-or_le n (λ t. covers t s) (covered_by spans),
    )

-- ===== src/Core/IntervalUnion/Coverage.antt =====
-- Both computations of core/timekpr_hub_core/interval_union.py count the seconds that some span
-- covers.
use timekpr_next_hub.Base.{
  ℕ, zero, suc, ◌+◌, ◌-◌, ◌≤◌, ◌<◌, max, ◌≡◌, refl, ◌∙◌, ap, Bool, true, false, ◌||◌, ◌&&◌, inl,
  inr, List, [], ◌∷◌, arith, leb, ◌==◌, any, All, length, Bool-cases,
}
use timekpr_next_hub.Base.Count.{
  count_below, count_below-or, count_below-range, count_below-ext, count_none, in_range,
}
use timekpr_next_hub.Base.Sort.{Ascending}
use timekpr_next_hub.Core.IntervalUnion.{
  Span, IsSpan, merge_runs, union_ordered, member, add_second, update_range, cover_all,
}

-- `t` is one of the seconds of the span.
abbrev pub covers : ℕ → Span → Bool
covers t s = in_range s.start_s s.end_s t

abbrev pub covered_by : List Span → ℕ → Bool
covered_by spans t = any (covers t) spans

count_one : (n t : ℕ) → t < n → count_below n (λ u. t == u) ≡ 1
count_one n t lt =
    count_below-ext n (λ u. t == u) (in_range t (t + 1)) (λ u _. ground arith)
    ∙ count_below-range n t (t + 1) (omega arith) (omega arith)
    ∙ omega arith

same_second : (t u : ℕ) (xs : List ℕ) → member t xs ≡ false → ((t == u) && member u xs) ≡ false
same_second t u [] h = ground arith
same_second t u (x ∷ xs) h = ground (arith, same_second t u xs)

member_again :
    (t u : ℕ) (xs : List ℕ) → member t xs ≡ true → member u xs ≡ ((t == u) || member u xs)
member_again t u [] h = cc
member_again t u (x ∷ xs) h = ground (arith, member_again t u xs)

module _ (n : ℕ) where
  -- Sorted spans from `lo` on cover nothing before `lo`.
  nothing_before :
      (lo t : ℕ) (spans : List Span)
      → Ascending (λ (s : Span). s.start_s) lo spans
      → t < lo
      → covered_by spans t ≡ false
  nothing_before lo t [] h lt = refl
  nothing_before lo t (s ∷ rest) h lt = ground (arith, nothing_before s.start_s t rest h.1)

  -- So a run that ends before the next span starts shares no second with what follows.
  later_apart :
      (t cs ce : ℕ) (s : Span) (rest : List Span)
      → leb s.start_s ce ≡ false
      → Ascending (λ (s : Span). s.start_s) s.start_s rest
      → (in_range cs ce t && covered_by (s ∷ rest) t) ≡ false
  later_apart t cs ce s rest apart h = ground (arith, nothing_before s.start_s t rest h)

  merge_runs-counts :
      (total cur_start cur_end lo : ℕ) (spans : List Span)
      → cur_start ≤ lo
      → cur_start ≤ cur_end
      → cur_end ≤ n
      → All IsSpan spans
      → All (λ s. s.end_s ≤ n) spans
      → Ascending (λ (s : Span). s.start_s) lo spans
      → merge_runs total cur_start cur_end spans
        ≡ total + count_below n (λ t. in_range cur_start cur_end t || covered_by spans t)
  unfolding merge_runs
  merge_runs-counts total cs ce lo [] a b c v w h = omega (
    arith,
    count_below-ext n (λ t. in_range cs ce t || covered_by [] t) (in_range cs ce)
        (λ t lt. ground arith),
    count_below-range n cs ce b c,
  )
  merge_runs-counts total cs ce lo (s ∷ rest) a b c v w h = elim (Bool-cases (leb s.start_s ce)) [
    | inl touching ↦ rw touching (
        merge_runs-counts total cs (max ce s.end_s) s.start_s rest (omega arith) (omega arith)
          (omega arith) v.1 w.1 h.1
        ∙ ap (λ (k : ℕ). total + k) (count_below-ext n _ _ λ t lt. ground arith))
    | inr apart ↦ rw apart (
        merge_runs-counts (total + (ce - cs)) s.start_s s.end_s s.start_s rest (omega arith)
          (omega arith) (omega arith) v.1 w.1 h.1
        ∙ omega (
          arith,
          count_below-or n (in_range cs ce) (covered_by (s ∷ rest))
              (λ t lt. later_apart t cs ce s rest apart h.1),
          count_below-range n cs ce b c,
        ))
  ]

  pub union_ordered-counts :
      (spans : List Span)
      → All IsSpan spans
      → All (λ s. s.end_s ≤ n) spans
      → Ascending (λ (s : Span). s.start_s) 0 spans
      → union_ordered spans ≡ count_below n (covered_by spans)
  unfolding union_ordered
  union_ordered-counts [] v w h = count_none n
  union_ordered-counts (s ∷ rest) v w h =
      merge_runs-counts 0 s.start_s s.end_s s.start_s rest (omega arith) v.0 w.0 v.1 w.1 h.1
      ∙ omega arith

  -- The set of seconds: each `add` counts a second once.
  add_second-counts :
      (t : ℕ) (xs : List ℕ)
      → t < n
      → length xs ≡ count_below n (λ u. member u xs)
      → length (add_second t xs) ≡ count_below n (λ u. member u (add_second t xs))
  unfolding add_second
  add_second-counts t xs lt h = elim (Bool-cases (member t xs)) [
    | inl known ↦ rw known h
    | inr new ↦ rw new (
        omega (
          arith,
          h,
          count_below-or n (λ u. t == u) (λ u. member u xs) (λ u _. same_second t u xs new),
          count_one n t lt,
        ))
  ]

  update_range-counts :
      (start k : ℕ) (xs : List ℕ)
      → start + k ≤ n
      → length xs ≡ count_below n (λ u. member u xs)
      → length (update_range start k xs) ≡ count_below n (λ u. member u (update_range start k xs))
  unfolding update_range
  update_range-counts start zero xs h e = e
  update_range-counts start (suc k) xs h e =
      update_range-counts (suc start) k (add_second start xs) (omega arith)
        (add_second-counts start xs (omega arith) e)

  pub cover_all-counts :
      (spans : List Span) (xs : List ℕ)
      → All IsSpan spans
      → All (λ s. s.end_s ≤ n) spans
      → length xs ≡ count_below n (λ u. member u xs)
      → length (cover_all spans xs) ≡ count_below n (λ u. member u (cover_all spans xs))
  unfolding cover_all
  cover_all-counts [] xs v w e = e
  cover_all-counts (s ∷ rest) xs v w e =
      cover_all-counts rest (update_range s.start_s (s.end_s - s.start_s) xs) v.1 w.1
        (update_range-counts s.start_s (s.end_s - s.start_s) xs (omega (arith, v.0, w.0)) e)

-- Which seconds the set holds.
member-add_second : (t u : ℕ) (xs : List ℕ) → member u (add_second t xs) ≡ ((t == u) || member u xs)
unfolding add_second
member-add_second t u xs = elim (Bool-cases (member t xs)) [
  | inl known ↦ rw known (member_again t u xs known)
  | inr new ↦ rw new
]

member-update_range :
    (start k u : ℕ) (xs : List ℕ)
    → member u (update_range start k xs) ≡ (in_range start (start + k) u || member u xs)
unfolding update_range
member-update_range start zero u xs = ground arith
member-update_range start (suc k) u xs =
    ground (
      arith,
      member-update_range (suc start) k u (add_second start xs),
      member-add_second start u xs,
    )

pub member-cover_all :
    (spans : List Span) (u : ℕ) (xs : List ℕ)
    → member u (cover_all spans xs) ≡ (covered_by spans u || member u xs)
unfolding cover_all
member-cover_all [] u xs = refl
member-cover_all (s ∷ rest) u xs = ground (
  arith,
  member-cover_all rest u (update_range s.start_s (s.end_s - s.start_s) xs),
  member-update_range s.start_s (s.end_s - s.start_s) u xs,
)

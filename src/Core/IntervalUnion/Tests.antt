-- ===== src/Core/IntervalUnion/Tests.antt =====
-- The interval union at concrete spans.
use timekpr_next_hub.Base.{◌≡◌, refl, none, List, [], ◌∷◌, arith}
use timekpr_next_hub.Core.IntervalUnion.{Span, span, union_seconds, union_seconds_bruteforce}
use timekpr_next_hub.Core.IntervalUnion.Equivalence.{union_seconds-eq-bruteforce}

-- Two overlapping devices, out of order, a touching span and a separate one.
abbrev spans : List Span
spans =
    record { start_s = 20; end_s = 50 }
    ∷ record { start_s = 0; end_s = 30 }
    ∷ record { start_s = 50; end_s = 55 }
    ∷ record { start_s = 70; end_s = 80 }
    ∷ []

union-runs : (union_seconds spans ≡ 65) × (union_seconds_bruteforce spans ≡ 65)
unfolding union_seconds union_seconds_bruteforce
union-runs = (refl, refl)

backwards_span_raises : span 5 4 ≡ none
unfolding span
backwards_span_raises = refl

union_seconds-eq-bruteforce_example : union_seconds spans ≡ union_seconds_bruteforce spans
union_seconds-eq-bruteforce_example = union_seconds-eq-bruteforce spans (omega arith)

abbrev evening : Span
evening = record { start_s = 40; end_s = 75 }

-- ===== src/Base/Text.antt =====
-- Equality of texts, decided.
use Prim.Native.String.{String}
use mathlib.Core.Logic.{inl, inr}
use text.Mathlib.Text.{◌==◌}
use text.Mathlib.TextEquality.{eq_iff}
use timekpr_next_hub.Base.Tests.{Bool-cases}

pub String-discrete : Discrete String
String-discrete a b = elim (Bool-cases (a == b)) [
  | inl same ↦ yes ((eq_iff a b).0 same)
  | inr other ↦ no (λ e. cc (other, (eq_iff a b).1 e))
]

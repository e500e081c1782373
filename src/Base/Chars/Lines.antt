-- ===== src/Base/Chars/Lines.antt =====
-- Lines that are joined are split again.
use timekpr_next_hub.Base.Lists.{any, All}
use mathlib.Core.Path.{◌≡◌, refl, ap, ◌∙◌}
use mathlib.Core.Bool.{Bool, true, false, ◌||◌}
use mathlib.Core.List.{List, [], ◌∷◌, ◌++◌}
use native.Mathlib.Omega.{arith}
use timekpr_next_hub.Base.Chars.{Chars, is_break, lines_after, split_lines, join_lines}

-- No line boundary in the text.
abbrev pub IsLine : Chars → Type 0
IsLine line = any is_break line ≡ false

feed_breaks : is_break 10 ≡ true
unfolding is_break
feed_breaks = refl

pub or_false : (a b : Bool) → (a || b) ≡ false → (a ≡ false) × (b ≡ false)
or_false a b h = ground arith

lines_after-line :
    (line rest : Chars) → IsLine line → split_lines (line ++ (10 ∷ rest)) ≡ line ∷ split_lines rest
unfolding lines_after
lines_after-line [] rest h = rw (feed_breaks) refl
lines_after-line (c ∷ line) rest h =
    let (no_break, more) = or_false (is_break c) (any is_break line) h in
    rw (no_break, lines_after-line line rest more) refl

-- A text of lines with a line feed after each is split into them.
pub split_lines-join_lines :
    (lines : List Chars) → All IsLine lines → split_lines (join_lines (lines ++ [] ∷ [])) ≡ lines
unfolding lines_after
split_lines-join_lines [] h = refl
split_lines-join_lines (line ∷ []) h = lines_after-line line [] h.0
split_lines-join_lines (line ∷ next ∷ rest) h =
    lines_after-line line _ h.0 ∙ ap (λ ls. line ∷ ls) (split_lines-join_lines (next ∷ rest) h.1)

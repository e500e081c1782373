-- ===== src/Base/Chars.antt =====
-- Texts as lists of code points, with the methods of Python's `str` that the program calls on them.
pub mod Lines
pub mod Strip
pub mod Split
use Prim.Native.Char.{code}
use timekpr_next_hub.Base.Tests.{◌==◌, leb, if◌then◌else◌}
use timekpr_next_hub.Base.Lists.{any}
use Prim.Native.Nat.{ℕ}
use Prim.Native.String.{String}
use mathlib.Core.Bool.{Bool, true, false, ◌&&◌, ◌||◌, not}
use mathlib.Core.List.{List, [], ◌∷◌, ◌++◌}

abbrev pub Chars : Type 0
Chars = List ℕ

abbrev pub codes : String → Chars
codes String.[] = []
codes (String.◌∷◌ c s) = code c ∷ codes s

abbrev pub is_nil {ℓ} : {A : Type ℓ} → List A → Bool
is_nil [] = true
is_nil (x ∷ xs) = false

abbrev pub same_chars : Chars → Chars → Bool
same_chars [] [] = true
same_chars [] (d ∷ t) = false
same_chars (c ∷ s) [] = false
same_chars (c ∷ s) (d ∷ t) = let rest = same_chars s t in c == d && rest

-- `str.isspace`
unfoldable pub is_space : ℕ → Bool
is_space c =
    (leb 9 c && leb c 13)
    || (leb 28 c && leb c 32)
    || (leb 8192 c && leb c 8202)
    || any (λ d. d == c) (133 ∷ 160 ∷ 5760 ∷ 8232 ∷ 8233 ∷ 8239 ∷ 8287 ∷ 12288 ∷ [])

-- The line boundaries of `str.splitlines`.
unfoldable pub is_break : ℕ → Bool
is_break c =
    (leb 10 c && leb c 13) || (leb 28 c && leb c 30) || any (λ d. d == c) (133 ∷ 8232 ∷ 8233 ∷ [])

abbrev pub push_char : ℕ → List Chars → List Chars
push_char c [] = (c ∷ []) ∷ []
push_char c (line ∷ lines) = (c ∷ line) ∷ lines

-- `str.splitlines`; a line feed after a carriage return belongs to it.
unfoldable pub lines_after : Bool → Chars → List Chars
lines_after after_cr [] = []
lines_after after_cr (c ∷ s) =
    let same_line = push_char c (lines_after false s) in
    let next_line = [] ∷ lines_after (c == 13) s in
    let joined = lines_after false s in
    if after_cr && c == 10 then joined else if is_break c then next_line else same_line

abbrev pub split_lines : Chars → List Chars
split_lines = lines_after false

-- `"\\n".join`
abbrev pub join_lines : List Chars → Chars
join_lines [] = []
join_lines (line ∷ []) = line
join_lines (line ∷ next ∷ rest) = line ++ (10 ∷ join_lines (next ∷ rest))

unfoldable pub lstrip : (ℕ → Bool) → Chars → Chars
lstrip p [] = []
lstrip p (c ∷ s) = let shorter = lstrip p s in if p c then shorter else c ∷ s

unfoldable pub rstrip : (ℕ → Bool) → Chars → Chars
rstrip p [] = []
rstrip p (c ∷ s) = let r = rstrip p s in if is_nil r && p c then [] else c ∷ r

-- `str.strip`
abbrev pub strip : Chars → Chars
strip s = rstrip is_space (lstrip is_space s)

abbrev pub starts_with : ℕ → Chars → Bool
starts_with c [] = false
starts_with c (d ∷ s) = c == d

-- `str.partition` at one character: what stands before the first, and what after it.
unfoldable pub partition_at : ℕ → Chars → Chars × Chars
partition_at c [] = ([], [])
partition_at c (d ∷ s) =
    let (before, after) = partition_at c s in if c == d then ([], s) else (d ∷ before, after)

-- `str.split` at one character.
unfoldable pub split_on : ℕ → Chars → List Chars
split_on c [] = [] ∷ []
split_on c (d ∷ s) = let rest = split_on c s in if c == d then [] ∷ rest else push_char d rest

-- `str.join` with one character between.
unfoldable pub join_with : ℕ → List Chars → Chars
join_with c [] = []
join_with c (s ∷ []) = s
join_with c (s ∷ next ∷ rest) = s ++ (c ∷ join_with c (next ∷ rest))

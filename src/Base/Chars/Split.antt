-- ===== src/Base/Chars/Split.antt =====
-- A text that is split at a character and stripped: what the pieces are, and that joining them is undone.
use timekpr_next_hub.Base.Tests.{◌==◌, if-elim}
use timekpr_next_hub.Base.Lists.{any, All, keep}
use Prim.Native.Nat.{ℕ}
use mathlib.Core.Path.{◌≡◌, refl, ap, ◌∙◌}
use mathlib.Core.Bool.{Bool, true, false, not}
use mathlib.Core.List.{List, [], ◌∷◌, ◌++◌, map}
use native.Mathlib.Omega.{arith}
use timekpr_next_hub.Base.Chars.{
  Chars, is_nil, is_space, lstrip, rstrip, strip, split_on, join_with, push_char,
}
use timekpr_next_hub.Base.Chars.Lines.{or_false}
use timekpr_next_hub.Base.Chars.Strip.{rstrip-cons}

module _ (q : ℕ → Bool) where
  any-lstrip : (p : ℕ → Bool) (s : Chars) → any q s ≡ false → any q (lstrip p s) ≡ false
  unfolding lstrip
  any-lstrip p [] h = h
  any-lstrip p (c ∷ s) h = let ih = any-lstrip p s in ground arith

  any-rstrip : (p : ℕ → Bool) (s : Chars) → any q s ≡ false → any q (rstrip p s) ≡ false
  unfolding rstrip
  any-rstrip p [] h = h
  any-rstrip p (c ∷ s) h = let ih = any-rstrip p s in ground arith

  abbrev IsWithout : Chars → Type 0
  IsWithout s = any q s ≡ false

  any-push_char :
      (c : ℕ) (pieces : List Chars)
      → q c ≡ false
      → All IsWithout pieces
      → All IsWithout (push_char c pieces)
  any-push_char c [] h hs = (rw (h) refl, tt)
  any-push_char c (s ∷ pieces) h hs = (rw (h) hs.0, hs.1)

  -- The pieces of a text without such characters are without them.
  pub any-split_on : (c : ℕ) (s : Chars) → any q s ≡ false → All IsWithout (split_on c s)
  unfolding split_on
  any-split_on c [] h = (refl, tt)
  any-split_on c (d ∷ s) h =
      let (other, more) = or_false (q d) (any q s) h in
      let ih = any-split_on c s more in
      if-elim (All IsWithout) (c == d) _ _ (λ h. (refl, ih))
        (λ h. any-push_char d (split_on c s) other ih)

split_on-none : (c : ℕ) (s : Chars) → any (λ d. c == d) s ≡ false → split_on c s ≡ s ∷ []
unfolding split_on
split_on-none c [] h = refl
split_on-none c (d ∷ s) h =
    let (other, more) = or_false (c == d) (any (λ e. c == e) s) h in
    rw (other, split_on-none c s more) refl

split_on-append :
    (c : ℕ) (s rest : Chars)
    → any (λ d. c == d) s ≡ false
    → split_on c (s ++ (c ∷ rest)) ≡ s ∷ split_on c rest
unfolding split_on
split_on-append c [] rest h = ground arith
split_on-append c (d ∷ s) rest h =
    let (other, more) = or_false (c == d) (any (λ e. c == e) s) h in
    rw (other, split_on-append c s rest more) refl

-- Texts without the separator, joined by it, are the pieces of the joined text.
split_on-join_with :
    (c : ℕ) (s : Chars) (rest : List Chars)
    → All (λ t. any (λ d. c == d) t ≡ false) (s ∷ rest)
    → split_on c (join_with c (s ∷ rest)) ≡ s ∷ rest
unfolding join_with
split_on-join_with c s [] h = split_on-none c s h.0
split_on-join_with c s (next ∷ rest) h =
    split_on-append c s _ h.0 ∙ ap (λ ps. s ∷ ps) (split_on-join_with c next rest h.1)

-- A text whose first character is not blank.
abbrev pub starts_bare : Chars → Bool
starts_bare [] = false
starts_bare (c ∷ s) = not (is_space c)

starts_bare-lstrip :
    (s : Chars) → starts_bare (lstrip is_space s) ≡ not (is_nil (lstrip is_space s))
unfolding lstrip
starts_bare-lstrip [] = refl
starts_bare-lstrip (c ∷ s) = let ih = starts_bare-lstrip s in ground arith

starts_bare-rstrip : (s : Chars) → starts_bare s ≡ true → starts_bare (rstrip is_space s) ≡ true
unfolding rstrip
starts_bare-rstrip [] h = h
starts_bare-rstrip (c ∷ s) h = rw (rstrip-cons is_space c s (ground arith)) h

bare_or_nil :
    (t : Chars)
    → starts_bare t ≡ not (is_nil t)
    → is_nil (rstrip is_space t) ≡ false
    → starts_bare (rstrip is_space t) ≡ true
unfolding rstrip
bare_or_nil [] h k = ground arith
bare_or_nil (c ∷ t) h k = starts_bare-rstrip (c ∷ t) h

starts_bare-strip : (s : Chars) → is_nil (strip s) ≡ false → starts_bare (strip s) ≡ true
starts_bare-strip s h = bare_or_nil (lstrip is_space s) (starts_bare-lstrip s) h

rstrip-rstrip : (p : ℕ → Bool) (s : Chars) → rstrip p (rstrip p s) ≡ rstrip p s
unfolding rstrip
rstrip-rstrip p [] = refl
rstrip-rstrip p (c ∷ s) = let ih = rstrip-rstrip p s in ground arith

lstrip-bare : (s : Chars) → starts_bare s ≡ true → lstrip is_space s ≡ s
unfolding lstrip
lstrip-bare [] h = refl
lstrip-bare (c ∷ s) h = ground arith

-- What `[u.strip() for u in s.split(c) if u.strip()]` gives.
unfoldable pub names_of : ℕ → Chars → List Chars
names_of c s = keep (λ u. not (is_nil u)) (map strip (split_on c s))

-- A name in such a list: not empty, no blank at its ends, no separator in it, on one line.
pub record IsName (sep : ℕ) (q : ℕ → Bool) (u : Chars) : Type 0 where
  pub bare : starts_bare u ≡ true
  pub trimmed : rstrip is_space u ≡ u
  pub whole : any (λ d. sep == d) u ≡ false
  pub without : any q u ≡ false

module _ (sep : ℕ) (q : ℕ → Bool) where
  kept_names :
      (pieces : List Chars)
      → All (λ t. any (λ d. sep == d) t ≡ false) pieces
      → All (λ t. any q t ≡ false) pieces
      → All (IsName sep q) (keep (λ u. not (is_nil u)) (map strip pieces))
  kept_names [] h k = tt
  kept_names (s ∷ pieces) h k =
      let ih = kept_names pieces h.1 k.1 in
      if-elim (All (IsName sep q)) (not (is_nil (strip s))) _ _
        (λ full. (
          record {
            bare = starts_bare-strip s (ground arith);
            trimmed = rstrip-rstrip is_space (lstrip is_space s);
            whole = any-rstrip _ is_space _ (any-lstrip _ is_space s h.0);
            without = any-rstrip q is_space _ (any-lstrip q is_space s k.0);
          },
          ih,
        ))
        (λ blank. ih)

  split_whole : (s : Chars) → All (λ t. any (λ d. sep == d) t ≡ false) (split_on sep s)
  unfolding split_on
  split_whole [] = (refl, tt)
  split_whole (d ∷ s) =
      let ih = split_whole s in
      if-elim (All (λ t. any (λ d. sep == d) t ≡ false)) (sep == d) _ _ (λ h. (refl, ih))
        (λ h. any-push_char (λ d. sep == d) d (split_on sep s) h ih)

  -- The names of a text are such names.
  pub names_of-IsName : (s : Chars) → any q s ≡ false → All (IsName sep q) (names_of sep s)
  unfolding names_of
  names_of-IsName s h = kept_names (split_on sep s) (split_whole s) (any-split_on q sep s h)

  names_whole :
      (us : List Chars) → All (IsName sep q) us → All (λ t. any (λ d. sep == d) t ≡ false) us
  names_whole [] h = tt
  names_whole (u ∷ us) h = (h.0.whole, names_whole us h.1)

  kept_whole :
      (us : List Chars) → All (IsName sep q) us → keep (λ u. not (is_nil u)) (map strip us) ≡ us
  kept_whole [] h = refl
  kept_whole ([] ∷ us) h = absurd (ground arith)
  kept_whole ((c ∷ u) ∷ us) h =
      rw (lstrip-bare (c ∷ u) h.0.bare, h.0.trimmed, kept_whole us h.1) refl

  -- Names that are joined by the separator are read again.
  pub names_of-join_with :
      (us : List Chars) → All (IsName sep q) us → names_of sep (join_with sep us) ≡ us
  unfolding names_of join_with split_on lstrip rstrip
  names_of-join_with [] h = refl
  names_of-join_with (u ∷ us) h =
      ap (λ ps. keep (λ v. not (is_nil v)) (map strip ps))
        (split_on-join_with sep u us (names_whole (u ∷ us) h))
      ∙ kept_whole (u ∷ us) h

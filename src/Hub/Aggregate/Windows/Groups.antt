-- ===== src/Hub/Aggregate/Windows/Groups.antt =====
-- What a grouped query holds for one key, and the sum of its groups.
use timekpr_next_hub.Base.{
  ℕ, zero, suc, ◌+◌, ◌≡◌, ◌≤◌, ◌<◌, refl, sym, ap, ◌∙◌, ◌==◌, ◌&&◌, ◌||◌, not, Bool, true, false,
  List, [], ◌∷◌, ◌++◌, map, keep, arith, if◌then◌else◌, if-elim, Bool-cases, ==_iff, inl, inr, ◌⊎◌,
}
use timekpr_next_hub.Base.Int.{ℤ, pos, ◌+ℤ◌, int_laws}
use timekpr_next_hub.Hub.Rows.{selected, any_of_none}
use timekpr_next_hub.Hub.Summaries.{get, is_in}
use timekpr_next_hub.Hub.Aggregate.Windows.{distinct, sum_values}

pub or_cases : (a b : Bool) → (a || b) ≡ true → (a ≡ true) ⊎ (b ≡ true)
or_cases true b h = inl refl
or_cases false b h = inr h

pub neither : (a b : Bool) → (a || b) ≡ false → (a ≡ false) × (b ≡ false)
neither a b h = ground arith

module _ {ℓ} {A : Type ℓ} where
  pub keep-keep : (p q : A → Bool) (xs : List A) → keep q (keep p xs) ≡ keep (λ x. p x && q x) xs
  keep-keep p q [] = refl
  keep-keep p q (x ∷ xs) = elim (Bool-cases (p x)) [
    | inl hit ↦ rw (hit) (ap (λ rest. if q x then x ∷ rest else rest) (keep-keep p q xs))
    | inr miss ↦ rw (miss) (keep-keep p q xs)
  ]

  pub keep_same : (p q : A → Bool) (xs : List A) → ((x : A) → p x ≡ q x) → keep p xs ≡ keep q xs
  keep_same p q [] h = refl
  keep_same p q (x ∷ xs) h =
      ap (λ b. if b then x ∷ keep p xs else keep p xs) (h x)
      ∙ ap (λ rest. if q x then x ∷ rest else rest) (keep_same p q xs h)

  -- A key that no selected row has selects nothing.
  pub keep_none :
      (key : A → ℕ) (k : ℕ) (xs : List A)
      → is_in (map key xs) k ≡ false
      → keep (λ x. key x == k) xs ≡ []
  keep_none key k [] h = refl
  keep_none key k (x ∷ xs) h = ground (arith, keep_none key k xs)

-- Every key of the selected rows satisfies what the rows' keys do.
pub is_in-keep {ℓ} :
    {A : Type ℓ} (key : A → ℕ) (p : A → Bool) (q : ℕ → Bool)
    → ((x : A) → p x ≡ true → q (key x) ≡ true)
    → (xs : List A) (k : ℕ) → is_in (map key (keep p xs)) k ≡ true
    → q k ≡ true
is_in-keep key p q h [] k e = cc
is_in-keep key p q h (x ∷ xs) k e = elim (Bool-cases (p x)) [
  | inl hit ↦ elim (or_cases (key x == k) _ (kept_head (p x) hit e)) [
    | inl same ↦ ap q (sym ((==_iff (key x) k).0 same)) ∙ h x hit
    | inr later ↦ is_in-keep key p q h xs k later
  ]
  | inr miss ↦ is_in-keep key p q h xs k (kept_tail (p x) miss e)
]
  where
    kept_head :
        (b : Bool)
        → b ≡ true
        → is_in (map key (if b then x ∷ keep p xs else keep p xs)) k ≡ true
        → ((key x == k) || is_in (map key (keep p xs)) k) ≡ true
    kept_head true t e = e
    kept_head false t e = cc

    kept_tail :
        (b : Bool)
        → b ≡ false
        → is_in (map key (if b then x ∷ keep p xs else keep p xs)) k ≡ true
        → is_in (map key (keep p xs)) k ≡ true
    kept_tail true t e = cc
    kept_tail false t e = e

in_same : (ks : List ℕ) (j k : ℕ) → (j == k) ≡ true → is_in ks j ≡ is_in ks k
in_same ks j k h = ap (is_in ks) ((==_iff j k).0 h)

seen_already :
    (j k : ℕ) (rest : List ℕ) → is_in rest j ≡ true → is_in rest k ≡ ((j == k) || is_in rest k)
seen_already j k rest h = elim (Bool-cases (j == k)) [
  | inl same ↦ rw (same) (sym (in_same rest j k same) ∙ h)
  | inr other ↦ rw (other) refl
]

pub is_in-distinct : (ks : List ℕ) (k : ℕ) → is_in (distinct ks) k ≡ is_in ks k
is_in-distinct [] k = refl
is_in-distinct (j ∷ rest) k =
    if-elim (λ out. is_in out k ≡ is_in (j ∷ rest) k) (is_in (distinct rest) j) _ _
      (λ seen. is_in-distinct rest k ∙ seen_already j k rest (sym (is_in-distinct rest j) ∙ seen))
      (λ new. ap (λ b. (j == k) || b) (is_in-distinct rest k))

pub get-map :
    (f : ℕ → ℤ) (ks : List ℕ) (k : ℕ)
    → get k (pos 0) (map (λ j. (j, f j)) ks) ≡ (if is_in ks k then f k else pos 0)
get-map f [] k = refl
get-map f (j ∷ rest) k = elim (Bool-cases (j == k)) [
  | inl same ↦ rw (same) (ap f ((==_iff j k).0 same))
  | inr other ↦ rw (other) (get-map f rest k)
]

pub is_in-append : (xs ys : List ℕ) (k : ℕ) → is_in (xs ++ ys) k ≡ (is_in xs k || is_in ys k)
is_in-append [] ys k = refl
is_in-append (x ∷ xs) ys k = ground (arith, is_in-append xs ys k)

selected_none : (ks : List ℕ) (k : ℕ) → is_in ks k ≡ false → selected (λ j. j == k) ks ≡ 0
selected_none [] k h = refl
selected_none (j ∷ rest) k h = ground (arith, selected_none rest k)

-- A key has one group.
pub distinct_once : (ks : List ℕ) (k : ℕ) → selected (λ j. j == k) (distinct ks) ≤ 1
distinct_once [] k = omega arith
distinct_once (j ∷ rest) k =
    if-elim (λ out. selected (λ i. i == k) out ≤ 1) (is_in (distinct rest) j) _ _
      (λ seen. distinct_once rest k)
      (λ new. elim (Bool-cases (j == k)) [
        | inl same ↦
            let e =
              selected_none (distinct rest) k (sym (in_same (distinct rest) j k same) ∙ new) in
            rw (same) (omega (arith, e))
        | inr other ↦ rw (other) (distinct_once rest k)
      ])

abbrev pub sum_over : (ℕ → ℤ) → List ℕ → ℤ
sum_over f [] = pos 0
sum_over f (k ∷ rest) = f k +ℤ sum_over f rest

-- The days from a first one, one after another.
abbrev pub sum_days : (ℕ → ℤ) → ℕ → ℕ → ℤ
sum_days f first zero = pos 0
sum_days f first (suc n) = f first +ℤ sum_days f (first + 1) n

pub sum_values-map : (f : ℕ → ℤ) (ks : List ℕ) → sum_values (map (λ k. (k, f k)) ks) ≡ sum_over f ks
sum_values-map f [] = refl
sum_values-map f (k ∷ rest) = ap (λ v. f k +ℤ v) (sum_values-map f rest)

abbrev without : ℕ → List ℕ → List ℕ
without s ks = keep (λ k. not (k == s)) ks

is_in-without :
    (s : ℕ) (ks : List ℕ) (k : ℕ) → is_in (without s ks) k ≡ (is_in ks k && not (k == s))
is_in-without s [] k = refl
is_in-without s (j ∷ rest) k = ground (arith, is_in-without s rest k)

selected-without :
    (s : ℕ) (ks : List ℕ) (k : ℕ)
    → selected (λ j. j == k) (without s ks) ≤ selected (λ j. j == k) ks
selected-without s [] k = omega arith
selected-without s (j ∷ rest) k = ground (arith, selected-without s rest k)

without_none : (s : ℕ) (ks : List ℕ) → is_in ks s ≡ false → without s ks ≡ ks
without_none s [] h = refl
without_none s (j ∷ rest) h = ground (arith, without_none s rest)

take_out : (x z w : ℤ) → x +ℤ (z +ℤ w) ≡ z +ℤ (x +ℤ w)
take_out x z w = omega int_laws

none_left :
    (j s : ℕ) (rest : List ℕ)
    → (j == s) ≡ true
    → selected (λ i. i == s) (j ∷ rest) ≤ 1
    → selected (λ i. i == s) rest ≡ 0
none_left j s rest e h = ground arith

last_one :
    (j s : ℕ) (rest : List ℕ)
    → (j == s) ≡ true
    → selected (λ i. i == s) (j ∷ rest) ≤ 1
    → is_in rest s ≡ false
last_one j s rest e h = any_of_none (λ i. i == s) rest (none_left j s rest e h)

fewer :
    (j s : ℕ) (rest : List ℕ)
    → (j == s) ≡ false
    → selected (λ i. i == s) (j ∷ rest) ≤ 1
    → selected (λ i. i == s) rest ≤ 1
fewer j s rest e h = ground arith

or_same : (k : ℕ) (b : Bool) → ((k == k) || b) ≡ true
or_same k b = ground arith

nothing_below : (s k : ℕ) → (s ≤ k) × (k < s + 0) → ⊥
nothing_below s k (low, high) = omega arith

sum-without :
    (f : ℕ → ℤ) (s : ℕ) (ks : List ℕ)
    → selected (λ j. j == s) ks ≤ 1
    → sum_over f ks ≡ (if is_in ks s then f s else pos 0) +ℤ sum_over f (without s ks)
sum-without f s [] h = omega int_laws
sum-without f s (j ∷ rest) h = elim (Bool-cases (j == s)) [
  | inl same ↦ rw (same) (
      ap (λ k. f k +ℤ sum_over f rest) ((==_iff j s).0 same)
      ∙ ap (λ ks. f s +ℤ sum_over f ks) (sym (without_none s rest (last_one j s rest same h))))
  | inr other ↦ rw (other) (
      ap (λ v. f j +ℤ v) (sum-without f s rest (fewer j s rest other h))
      ∙ take_out (f j) (if is_in rest s then f s else pos 0) (sum_over f (without s rest)))
]

cover_end : (s : ℕ) (ks : List ℕ) → ((k : ℕ) → is_in ks k ≡ true → (s ≤ k) × (k < s + 0)) → ks ≡ []
cover_end s [] h = refl
cover_end s (k ∷ rest) h = absurd (nothing_below s k (h k (or_same k (is_in rest k))))

in_tail : (s n k : ℕ) → (k == s) ≡ false → (s ≤ k) × (k < s + suc n) → (s + 1 ≤ k) × (k < s + 1 + n)
in_tail s n k h (low, high) = ground arith

both : (a b : Bool) → (a && not b) ≡ true → (a ≡ true) × (b ≡ false)
both a b h = ground arith

not_found : (s k : ℕ) (a : Bool) → s + 1 ≤ k → (a && not (k == s)) ≡ false → a ≡ false
not_found s k a low h = ground arith

-- A sum over days that are given once each, all of them in a range, is the sum over the range, where
-- the days that are not given count nothing.
pub sum_over-sum_days :
    (f : ℕ → ℤ) (n s : ℕ) (ks : List ℕ)
    → ((k : ℕ) → selected (λ j. j == k) ks ≤ 1)
    → ((k : ℕ) → is_in ks k ≡ true → (s ≤ k) × (k < s + n))
    → ((k : ℕ) → s ≤ k → is_in ks k ≡ false → f k ≡ pos 0)
    → sum_over f ks ≡ sum_days f s n
sum_over-sum_days f zero s ks once range off = ap (sum_over f) (cover_end s ks range)
sum_over-sum_days f (suc n) s ks once range off =
    sum-without f s ks (once s)
    ∙ ap (λ v. v +ℤ sum_over f (without s ks))
        (elim (Bool-cases (is_in ks s)) [
          | inl found ↦ rw (found) refl
          | inr absent ↦ rw (absent) (sym (off s (omega arith) absent))
        ])
    ∙ ap (λ v. f s +ℤ v)
        (sum_over-sum_days f n (s + 1) (without s ks)
          (λ k. omega (arith, once k, selected-without s ks k))
          (λ k h.
            let (found, other) = both _ _ (sym (is_in-without s ks k) ∙ h) in
            in_tail s n k other (range k found))
          (λ k low h. off k (omega arith) (not_found s k _ low (sym (is_in-without s ks k) ∙ h))))

pub sum_days-same :
    (f g : ℕ → ℤ) (s n : ℕ)
    → ((k : ℕ) → s ≤ k → k < s + n → f k ≡ g k)
    → sum_days f s n ≡ sum_days g s n
sum_days-same f g s zero h = refl
sum_days-same f g s (suc n) h =
    ap (λ v. v +ℤ sum_days f (s + 1) n) (h s (omega arith) (omega arith))
    ∙ ap (λ v. g s +ℤ v)
        (sum_days-same f g (s + 1) n (λ k low high. h k (omega arith) (omega arith)))

-- ===== src/Hub/Aggregate/Counters.antt =====
-- The counters hold the greatest value that was reported, whatever the order of the reports.
use timekpr_next_hub.Base.{
  ℕ, ◌≡◌, ◌⊎◌, ◌↔◌, inl, inr, refl, sym, ap, ◌∙◌, ◌==◌, ◌&&◌, ◌||◌, Bool, true, false, Option, none,
  some, List, [], ◌∷◌, arith, find, any, if◌then◌else◌, Bool-cases, Option-cases,
}
use timekpr_next_hub.Base.Int.{ℤ, pos, ◌-ℤ◌, ◌≤ℤ◌, eqb_ℤ, int_laws, max_ℤ}
use timekpr_next_hub.Core.Models.{ActivityState}
use timekpr_next_hub.Hub.Rows.{find-insert_or_update, keep-insert_or_update, find_of_keep}
use timekpr_next_hub.Hub.Aggregate.{UsageCounter, counter_of, upsert_usage_counter}

-- A device's absolute counter for a user and a day, as one report carries it, and the
-- time at which the hub records it.
pub record CounterReport : Type 0 where
  pub user_id : ℕ
  pub device_id : ℕ
  pub day : ℕ
  pub spent_seconds : ℤ
  pub activity_state : Option ActivityState
  pub at : ℤ

abbrev pub upsert_all : List UsageCounter → List CounterReport → List UsageCounter
upsert_all counters [] = counters
upsert_all counters (r ∷ rest) =
    upsert_all
      (upsert_usage_counter counters r.user_id r.device_id r.day r.spent_seconds r.activity_state
        r.at)
      rest

abbrev spent_in : Option UsageCounter → Option ℤ
spent_in none = none
spent_in (some c) = some c.spent_seconds

abbrev pub spent_at : List UsageCounter → ℕ → ℕ → ℕ → Option ℤ
spent_at counters user_id device_id day =
    spent_in (find (counter_of user_id device_id day) counters)

-- A count and one more report of it.
abbrev merged : Option ℤ → ℤ → ℤ
merged none s = s
merged (some v) s = max_ℤ v s

abbrev pub greatest : Option ℤ → List ℤ → Option ℤ
greatest o [] = o
greatest o (s ∷ rest) = greatest (some (merged o s)) rest

abbrev pub report_of : ℕ → ℕ → ℕ → CounterReport → Bool
report_of user_id device_id day r =
    r.user_id == user_id && (r.device_id == device_id && r.day == day)

-- The values that some reports carry for one counter.
abbrev pub reported : ℕ → ℕ → ℕ → List CounterReport → List ℤ
reported user_id device_id day [] = []
reported user_id device_id day (r ∷ rest) =
    let later = reported user_id device_id day rest in
    if report_of user_id device_id day r then r.spent_seconds ∷ later else later

same_key : (u d n : ℕ) → ((u == u) && ((d == d) && (n == n))) ≡ true
same_key u d n = ground arith

keys_eq :
    (a b c u d n : ℕ) → ((a == u) && ((b == d) && (c == n))) ≡ true → (a ≡ u) × (b ≡ d) × (c ≡ n)
keys_eq a b c u d n h = ground arith

keys_apart :
    (a b c u d n x y z : ℕ)
    → ((a == u) && ((b == d) && (c == n))) ≡ false
    → ((x == a) && ((y == b) && (z == c))) ≡ true
    → ((x == u) && ((y == d) && (z == n))) ≡ false
keys_apart a b c u d n x y z h k = ground arith

module _ (counters : List UsageCounter) (r : CounterReport) where
  abbrev after : List UsageCounter
  after =
      upsert_usage_counter counters r.user_id r.device_id r.day r.spent_seconds r.activity_state
        r.at

  abbrev row : UsageCounter
  row = record {
    user_id = r.user_id;
    device_id = r.device_id;
    day = r.day;
    spent_seconds = r.spent_seconds;
    activity_state = r.activity_state;
    updated_at = r.at;
  }

  abbrev raised : UsageCounter → UsageCounter
  raised old = record old {
    spent_seconds = max_ℤ old.spent_seconds r.spent_seconds;
    activity_state = r.activity_state;
    updated_at = r.at;
  }

  upsert_here :
      spent_at after r.user_id r.device_id r.day
      ≡ some (merged (spent_at counters r.user_id r.device_id r.day) r.spent_seconds)
  unfolding upsert_usage_counter
  upsert_here =
      let p = counter_of r.user_id r.device_id r.day in
      ap spent_in (
        find-insert_or_update p raised row counters (same_key r.user_id r.device_id r.day)
          (λ c h. h))
      ∙ elim (Option-cases (find p counters)) [
        | inl absent ↦ rw (absent) refl
        | inr (c, present) ↦ rw (present) refl
      ]

  upsert_elsewhere :
      (u d n : ℕ) → report_of u d n r ≡ false → spent_at after u d n ≡ spent_at counters u d n
  unfolding upsert_usage_counter
  upsert_elsewhere u d n other =
      let p = counter_of u d n in
      let apart : (c : UsageCounter)
          → counter_of r.user_id r.device_id r.day c ≡ true
          → p c ≡ false =
        λ c. keys_apart r.user_id r.device_id r.day u d n c.user_id c.device_id c.day other in
      ap spent_in (
        find_of_keep p after
        ∙ ap (find p) (
            keep-insert_or_update (counter_of r.user_id r.device_id r.day) p raised row counters
              apart apart (apart row (same_key r.user_id r.device_id r.day)))
        ∙ sym (find_of_keep p counters))

-- After any reports, a counter is the greatest of what it was and of the values reported for it.
pub counter_is_greatest :
    (counters : List UsageCounter) (reports : List CounterReport) (u d n : ℕ)
    → spent_at (upsert_all counters reports) u d n
      ≡ greatest (spent_at counters u d n) (reported u d n reports)
counter_is_greatest counters [] u d n = refl
counter_is_greatest counters (r ∷ rest) u d n =
    counter_is_greatest (after counters r) rest u d n ∙ elim (Bool-cases (report_of u d n r)) [
      | inl here ↦
          let (a, b, c) = keys_eq r.user_id r.device_id r.day u d n here in
          let e : spent_at (after counters r) u d n
              ≡ some (merged (spent_at counters u d n) r.spent_seconds) =
            rw⁻¹ (a, b, c) (upsert_here counters r) in
          ap (λ o. greatest o (reported u d n rest)) e ∙ rw (here) refl
      | inr other ↦
          ap (λ o. greatest o (reported u d n rest)) (upsert_elsewhere counters r u d n other)
          ∙ rw (other) refl
    ]

-- An upper bound of a count that may be missing.
abbrev pub Below : Option ℤ → ℤ → Type 0
Below none b = Unit
Below (some a) b = a ≤ℤ b

abbrev pub occurs : ℤ → List ℤ → Bool
occurs s values = any (eqb_ℤ s) values

merged-bound : (o : Option ℤ) (s b : ℤ) → (merged o s ≤ℤ b) ↔ (Below o b × (s ≤ℤ b))
unfolding max_ℤ
merged-bound none s b = ground arith
merged-bound (some a) s b = ground arith

eqb_le : (t s b : ℤ) → eqb_ℤ t s ≡ true → s ≤ℤ b → t ≤ℤ b
eqb_le t s b e h = ground arith

or_cases : (a b : Bool) → (a || b) ≡ true → (a ≡ true) ⊎ (b ≡ true)
or_cases true b h = inl refl
or_cases false b h = inr h

occurs_head : (v : ℤ) (rest : List ℤ) → occurs v (v ∷ rest) ≡ true
occurs_head v rest = ground arith

occurs_tail : (s v : ℤ) (rest : List ℤ) → occurs s rest ≡ true → occurs s (v ∷ rest) ≡ true
occurs_tail s v rest h = ground arith

-- The greatest value is the least upper bound.
greatest-bound :
    (o : Option ℤ) (values : List ℤ) (b : ℤ)
    → Below (greatest o values) b ↔ (Below o b × ((s : ℤ) → occurs s values ≡ true → s ≤ℤ b))
greatest-bound o [] b = (λ h. (h, λ s e. cc), λ p. p.0)
greatest-bound o (v ∷ rest) b =
    let later = greatest-bound (some (merged o v)) rest b in
    let one = merged-bound o v b in
    (
      λ h.
          let (m, f) = later.0 h in
          let (bo, bv) = one.0 m in
          (
            bo,
            λ s e. elim (or_cases (eqb_ℤ s v) (occurs s rest) e) [
              | inl same ↦ eqb_le s v b same bv
              | inr more ↦ f s more
            ],
          ),
      λ p. later.1 (one.1 (p.0, p.1 v (occurs_head v rest)), λ s e. p.1 s (occurs_tail s v rest e)),
    )

antisymmetric : (v w : ℤ) → v ≤ℤ w → w ≤ℤ v → v ≡ w
antisymmetric v w h k = omega int_laws

no_lower : (v : ℤ) → v ≤ℤ (v -ℤ pos 1) → ⊥
no_lower v h = omega int_laws

same_bounds : (x y : Option ℤ) → ((b : ℤ) → Below x b ↔ Below y b) → x ≡ y
same_bounds none none h = refl
same_bounds none (some v) h = absurd (no_lower v ((h (v -ℤ pos 1)).0 tt))
same_bounds (some v) none h = absurd (no_lower v ((h (v -ℤ pos 1)).1 tt))
same_bounds (some v) (some w) h =
    ap some (antisymmetric v w ((h w).1 (omega arith)) ((h v).0 (omega arith)))

-- Reports that carry the same values for each counter leave the same counters, whatever the order in
-- which they arrive and however often each is repeated.
pub upsert_all-same_values :
    (counters : List UsageCounter) (reports reports' : List CounterReport) (u d n : ℕ)
    → ((s : ℤ) → occurs s (reported u d n reports) ≡ occurs s (reported u d n reports'))
    → spent_at (upsert_all counters reports) u d n ≡ spent_at (upsert_all counters reports') u d n
upsert_all-same_values counters reports reports' u d n same =
    let o = spent_at counters u d n in
    let vs = reported u d n reports in
    let ws = reported u d n reports' in
    counter_is_greatest counters reports u d n
    ∙ same_bounds (greatest o vs) (greatest o ws) (λ b.
      let v = greatest-bound o vs b in
      let w = greatest-bound o ws b in
      (
        λ h. let (bo, f) = v.0 h in w.1 (bo, λ s e. f s (same s ∙ e)),
        λ h. let (bo, f) = w.0 h in v.1 (bo, λ s e. f s (sym (same s) ∙ e)),
      ))
    ∙ sym (counter_is_greatest counters reports' u d n)

-- ===== src/Hub/Limits/Refines.antt =====
-- What each statement of hub/timekpr_hub/services/limits.py does to what the tables stand for.
use timekpr_next_hub.Base.{
  ℕ, ◌≡◌, refl, sym, ap, ◌∙◌, ◌==◌, ◌&&◌, String, Bool, true, false, Option, none, some, List, [],
  ◌∷◌, ◌++◌, arith, find, keep, keep-append, any, if◌then◌else◌, Bool-cases, Option-cases, inl, inr,
}
use timekpr_next_hub.Base.Int.{ℤ, pos, ◌+ℤ◌, int_laws}
use timekpr_next_hub.Hub.Rows.{delete_one}
use timekpr_next_hub.Hub.Tables.{Grant, DayOverride, GateRelease}
use timekpr_next_hub.Hub.Limits.{
  sum_seconds, grant_of, grants_total, override_of, day_override, set_day_override,
  clear_day_override, release_of, release_gate, unrelease_gate, or_none,
}
use timekpr_next_hub.Hub.Limits.Keyed.{same_key, same_rows, KeyedRows, find-put, put-KeyedRows}
use timekpr_next_hub.Hub.Limits.Refinement.{put_at, is_some, limit_of}

key_refl : (u d : ℕ) → ((u == u) && (d == d)) ≡ true
key_refl u d = ground arith

pub limit_of_if :
    (b : Bool) (found other : Option DayOverride)
    → limit_of (if b then found else other) ≡ (if b then limit_of found else limit_of other)
limit_of_if true found other = refl
limit_of_if false found other = refl

pub is_some_if :
    {A : Type 0} (b : Bool) (found other : Option A)
    → is_some (if b then found else other) ≡ (if b then is_some found else is_some other)
is_some_if true found other = refl
is_some_if false found other = refl

module _ (overrides : List DayOverride) (u d : ℕ) where
  limit_set :
      (limit : ℤ) (reason by : String) (found : Option DayOverride)
      → limit_of (
          some (elim found [
            | none ↦ record {
              user_id = u;
              day = d;
              limit_seconds = limit;
              reason = reason;
              created_by = by;
            }
            | some old ↦ record old { limit_seconds = limit; reason = reason; created_by = by }
          ]))
        ≡ some limit
  limit_set limit reason by none = refl
  limit_set limit reason by (some old) = refl

  pub set_overridden :
      (limit : ℤ) (reason by : String) (u' d' : ℕ)
      → limit_of (day_override (set_day_override overrides u d limit reason by) u' d')
        ≡ put_at u d (some limit) (λ x y. limit_of (day_override overrides x y)) u' d'
  unfolding day_override set_day_override
  set_overridden limit reason by u' d' =
      ap limit_of (
        find-put (λ o. o.user_id) (λ o. o.day)
          (λ old. record old { limit_seconds = limit; reason = reason; created_by = by })
          (record { user_id = u; day = d; limit_seconds = limit; reason = reason; created_by = by })
          overrides u d (key_refl u d) (λ r h. h) u' d')
      ∙ limit_of_if (same_key u d u' d') _ _
      ∙ ap (λ v. if same_key u d u' d' then v else limit_of (find (override_of u' d') overrides))
          (limit_set limit reason by (find (override_of u d) overrides))

  pub set-KeyedRows :
      (limit : ℤ) (reason by : String)
      → KeyedRows (λ o. o.user_id) (λ o. o.day) overrides
      → KeyedRows (λ o. o.user_id) (λ o. o.day) (set_day_override overrides u d limit reason by)
  unfolding set_day_override
  set-KeyedRows limit reason by keyed =
      put-KeyedRows (λ o. o.user_id) (λ o. o.day) _ _ overrides u d (key_refl u d) (λ r h. h) keyed

delete_absent {ℓ} :
    {A : Type ℓ} (p : A → Bool) (xs : List A) → find p xs ≡ none → delete_one p xs ≡ xs
unfolding delete_one
delete_absent p [] h = refl
delete_absent p (x ∷ xs) h = elim (Bool-cases (p x)) [
  | inl hit ↦ let e : find p (x ∷ xs) ≡ some x = rw (hit) refl in cc
  | inr miss ↦
      let e : find p (x ∷ xs) ≡ find p xs = rw (miss) refl in
      rw (miss) (ap (λ ys. x ∷ ys) (delete_absent p xs (sym e ∙ h)))
]

pub any-find : {A : Type 0} (p : A → Bool) (xs : List A) → any p xs ≡ is_some (find p xs)
any-find p [] = refl
any-find p (x ∷ xs) = elim (Bool-cases (p x)) [
  | inl hit ↦ rw (hit) refl
  | inr miss ↦ rw (miss) (any-find p xs)
]

module _ (overrides : List DayOverride) (u d : ℕ) where
  pub clear_rows : (clear_day_override overrides u d).1 ≡ delete_one (override_of u d) overrides
  unfolding clear_day_override day_override
  clear_rows = elim (Option-cases (find (override_of u d) overrides)) [
    | inl absent ↦ rw (absent, clear_day_override) (sym (delete_absent _ overrides absent))
    | inr (o, present) ↦ rw (present, clear_day_override) refl
  ]

  pub clear_answer :
      (clear_day_override overrides u d).0 ≡ is_some (limit_of (day_override overrides u d))
  unfolding clear_day_override day_override
  clear_answer = elim (Option-cases (find (override_of u d) overrides)) [
    | inl absent ↦ rw (absent, clear_day_override) refl
    | inr (o, present) ↦ rw (present, clear_day_override) refl
  ]

module _ (releases : List GateRelease) (u d : ℕ) where
  pub release_found :
      (by note : String) (u' d' : ℕ)
      → is_some (find (release_of u' d') (release_gate releases u d by note))
        ≡ put_at u d true (λ x y. is_some (find (release_of x y) releases)) u' d'
  unfolding release_gate
  release_found by note u' d' =
      ap is_some (
        find-put (λ r. r.user_id) (λ r. r.day)
          (λ old. record old { released_by = by; note = or_none note })
          (record { user_id = u; day = d; released_by = by; note = or_none note }) releases u d
          (key_refl u d) (λ r h. h) u' d')
      ∙ is_some_if (same_key u d u' d') _ _

  pub release-KeyedRows :
      (by note : String)
      → KeyedRows (λ r. r.user_id) (λ r. r.day) releases
      → KeyedRows (λ r. r.user_id) (λ r. r.day) (release_gate releases u d by note)
  unfolding release_gate
  release-KeyedRows by note keyed =
      put-KeyedRows (λ r. r.user_id) (λ r. r.day) _ _ releases u d (key_refl u d) (λ r h. h) keyed

  pub back_rows : (unrelease_gate releases u d).1 ≡ delete_one (release_of u d) releases
  unfolding unrelease_gate
  back_rows = elim (Option-cases (find (release_of u d) releases)) [
    | inl absent ↦ rw (absent, unrelease_gate) (sym (delete_absent _ releases absent))
    | inr (r, present) ↦ rw (present, unrelease_gate) refl
  ]

  pub back_answer : (unrelease_gate releases u d).0 ≡ is_some (find (release_of u d) releases)
  unfolding unrelease_gate
  back_answer = elim (Option-cases (find (release_of u d) releases)) [
    | inl absent ↦ rw (absent, unrelease_gate) refl
    | inr (r, present) ↦ rw (present, unrelease_gate) refl
  ]

assoc : (a b c : ℤ) → a +ℤ (b +ℤ c) ≡ (a +ℤ b) +ℤ c
assoc a b c = grind int_laws

zero_after : (a : ℤ) → a +ℤ pos 0 ≡ a
zero_after a = grind int_laws

sum-append : (xs ys : List Grant) → sum_seconds (xs ++ ys) ≡ sum_seconds xs +ℤ sum_seconds ys
sum-append [] ys = grind int_laws
sum-append (x ∷ xs) ys =
    let ih = sum-append xs ys in
    ap (λ s. x.seconds +ℤ s) ih ∙ assoc x.seconds (sum_seconds xs) (sum_seconds ys)

sum_one :
    (b : Bool) (g : Grant) (total : ℤ)
    → total +ℤ sum_seconds (if b then g ∷ [] else []) ≡ (if b then total +ℤ g.seconds else total)
sum_one true g total = ap (λ s. total +ℤ s) (zero_after g.seconds)
sum_one false g total = zero_after total

turned : (u d u' d' : ℕ) (b : Bool) → same_key u d u' d' ≡ b → ((u == u') && (d == d')) ≡ b
turned u d u' d' true h = ground arith
turned u d u' d' false h = ground arith

-- A total with one more grant.
pub granted_more :
    (grants : List Grant) (u d : ℕ) (seconds : ℤ) (u' d' : ℕ)
    → grants_total (grants ++ record { user_id = u; day = d; seconds = seconds } ∷ []) u' d'
      ≡ put_at u d (grants_total grants u d +ℤ seconds) (grants_total grants) u' d'
unfolding grants_total
granted_more grants u d seconds u' d' =
    let g : Grant = record { user_id = u; day = d; seconds = seconds } in
    ap sum_seconds (keep-append (grant_of u' d') grants (g ∷ []))
    ∙ sum-append (keep (grant_of u' d') grants) _
    ∙ sum_one (grant_of u' d' g) g (grants_total grants u' d')
    ∙ elim (Bool-cases (same_key u d u' d')) [
      | inl here ↦
          rw
            (
              here,
              turned u d u' d' true here,
              same_rows (λ (r : Grant). r.user_id) (λ (r : Grant). r.day) u d u' d' here,
            )
            refl
      | inr there ↦ rw (there, turned u d u' d' false there) refl
    ]

-- ===== src/Hub/Enrollment/Once.antt =====
-- A code or an invite works once.
use timekpr_next_hub.Base.{
  ℕ, ◌+◌, ◌≤◌, ◌≡◌, refl, ◌&&◌, String, str_eq, Bool, true, false, Option, none, some, List, [],
  ◌∷◌, arith, find, Bool-cases, Option-cases, inl, inr,
}
use timekpr_next_hub.Base.Int.{ℤ, leb_ℤ}
use timekpr_next_hub.Hub.Rows.{selected}
use timekpr_next_hub.Hub.Enrollment.{
  OneTimeCode, Claim, claimed, is_claimable, has_code, is_unused, mark_used, refusal,
  claim_enrollment_code,
}

abbrev pub is_success : Claim → ℕ
is_success claimed = 1
is_success _ = 0

-- How many of a sequence of claims of one code succeed, each at its own time.
abbrev pub successes : List OneTimeCode → String → List ℤ → ℕ
successes codes code [] = 0
successes codes code (now ∷ later) =
    let (result, codes') = claim_enrollment_code codes code now in
    is_success result + successes codes' code later

-- Rows of the code that have not been used.
abbrev pub is_open : String → OneTimeCode → Bool
is_open code row = str_eq row.code code && is_unused row.used_at

not_claimable : (a b c : Bool) → (a && b) ≡ false → (a && (b && c)) ≡ false
not_claimable a b c h = ground arith

none_open :
    (codes : List OneTimeCode) (code : String) (now : ℤ)
    → selected (is_open code) codes ≡ 0
    → find (is_claimable code now) codes ≡ none
none_open [] code now h = refl
none_open (row ∷ rest) code now h = elim (Bool-cases (is_open code row)) [
  | inl unused ↦ absurd (open_none unused h)
  | inr shut ↦
      rw (not_claimable _ _ (leb_ℤ now row.expires_at) shut)
        (none_open rest code now (rest_none shut h))
]
  where
    open_none : is_open code row ≡ true → selected (is_open code) (row ∷ rest) ≡ 0 → ⊥
    open_none unused h = ground arith

    rest_none :
        is_open code row ≡ false
        → selected (is_open code) (row ∷ rest) ≡ 0
        → selected (is_open code) rest ≡ 0
    rest_none shut h = ground arith

mark_used-none :
    (codes : List OneTimeCode) (code : String) (now : ℤ)
    → selected (is_open code) codes ≡ 0
    → selected (is_open code) (mark_used code now codes) ≡ 0
unfolding mark_used
mark_used-none [] code now h = refl
mark_used-none (r ∷ rest) code now h = ground (
  arith,
  mark_used-none rest code now,
  not_claimable (str_eq r.code code) (is_unused r.used_at) (leb_ℤ now r.expires_at),
)

mark_used-closes :
    (codes : List OneTimeCode) (code : String) (now : ℤ) (row : OneTimeCode)
    → find (is_claimable code now) codes ≡ some row
    → selected (is_open code) codes ≤ 1
    → selected (is_open code) (mark_used code now codes) ≡ 0
unfolding mark_used
mark_used-closes [] code now row h k = cc
mark_used-closes (r ∷ rest) code now row h k = ground (
  arith,
  mark_used-none rest code now,
  mark_used-closes rest code now row,
  none_open rest code now,
)

refusal_fails : (found : Option OneTimeCode) → is_success (refusal found) ≡ 0
refusal_fails none = refl
refusal_fails (some row) = elim (Option-cases row.used_at) [
  | inl unused ↦ rw (unused) refl
  | inr (at, used) ↦ rw (used) refl
]

claim-keeps_closed :
    (codes : List OneTimeCode) (code : String) (times : List ℤ)
    → selected (is_open code) codes ≡ 0
    → successes codes code times ≡ 0
unfolding claim_enrollment_code
claim-keeps_closed codes code [] h = refl
claim-keeps_closed codes code (now ∷ later) h =
    rw (none_open codes code now h, claim_enrollment_code)
      (omega
        (arith, refusal_fails (find (has_code code) codes), claim-keeps_closed codes code later h))

-- Of any sequence of claims of one code, at whatever times, one at most succeeds: the code is the key
-- of its table, so one row at most has it.
pub claim_enrollment_code-once :
    (codes : List OneTimeCode) (code : String) (times : List ℤ)
    → selected (is_open code) codes ≤ 1
    → successes codes code times ≤ 1
unfolding claim_enrollment_code
claim_enrollment_code-once codes code [] h = omega arith
claim_enrollment_code-once codes code (now ∷ later) h =
    elim (Option-cases (find (is_claimable code now) codes)) [
      | inl absent ↦
          rw (absent, claim_enrollment_code)
            (omega (
              arith,
              refusal_fails (find (has_code code) codes),
              claim_enrollment_code-once codes code later h,
            ))
      | inr (row, present) ↦
          rw (present, claim_enrollment_code)
            (omega (
              arith,
              claim-keeps_closed (mark_used code now codes) code later
                  (mark_used-closes codes code now row present h),
            ))
    ]

-- ===== src/Hub/Policy/Versions.antt =====
-- The versions of a user's policy: appended, numbered one after another, the last one current.
use timekpr_next_hub.Base.{
  ℕ, suc, ◌≡◌, ◌≢◌, ◌≤◌, ◌⊎◌, inl, inr, refl, sym, ◌==◌, ==_iff, String, str_eq, eq_iff, Bool,
  false, Option, none, some, List, [], ◌∷◌, ◌++◌, arith, find, any, All, length, if◌then◌else◌,
  if-elim,
}
use timekpr_next_hub.Base.Int.{ℤ}
use timekpr_next_hub.Hub.Tables.{User, Policy}
use timekpr_next_hub.Hub.Policy.{
  PolicyUpdate, get_current_policy, next_version, policy_to_payload, update_policy, or_zeros,
  or_empty,
}

abbrev has_id : ℕ → Policy → Bool
has_id id p = p.id == id

-- No row has the id yet.
abbrev pub IsFresh : ℕ → List Policy → Type 0
IsFresh id policies = any (has_id id) policies ≡ false

abbrev pub current_version : Option Policy → ℕ
current_version none = 0
current_version (some p) = p.version

-- Every row of the user has a version up to a number.
abbrev pub UpTo : ℕ → ℕ → List Policy → Type 0
UpTo user_id top policies = All (λ (p : Policy). (p.user_id ≢ user_id) ⊎ (p.version ≤ top)) policies

-- The user's current policy is the one with the highest version; versions begin at 1.
abbrev pub IsVersioned : List Policy → User → Type 0
IsVersioned policies user =
    UpTo user.id (current_version (get_current_policy policies user)) policies

pub find-new :
    (id : ℕ) (policies : List Policy) (p : Policy)
    → IsFresh id policies
    → p.id ≡ id
    → find (has_id id) (policies ++ p ∷ []) ≡ some p
find-new id [] p h e = rw ((==_iff p.id id).1 e) refl
find-new id (q ∷ rest) p h e = ground (arith, find-new id rest p)

find-old :
    (id : ℕ) (policies : List Policy) (p q : Policy)
    → find (has_id id) policies ≡ some q
    → find (has_id id) (policies ++ p ∷ []) ≡ some q
find-old id [] p q h = cc
find-old id (r ∷ rest) p q h = ground (arith, find-old id rest p q)

UpTo-append :
    (user_id top : ℕ) (policies : List Policy) (p : Policy)
    → UpTo user_id top policies
    → top ≤ p.version
    → UpTo user_id p.version (policies ++ p ∷ [])
UpTo-append user_id top [] p h k = (inr (omega arith), tt)
UpTo-append user_id top (q ∷ rest) p (inl other, more) k =
    (inl other, UpTo-append user_id top rest p more k)
UpTo-append user_id top (q ∷ rest) p (inr below, more) k =
    (inr (omega arith), UpTo-append user_id top rest p more k)

next_version-suc : (o : Option Policy) → next_version o ≡ suc (current_version o)
next_version-suc none = refl
next_version-suc (some p) = omega arith

pointed_old :
    (pointer : Option ℕ) (policies : List Policy) (p q : Policy)
    → elim pointer [ none ↦ none | some id ↦ find (has_id id) policies ] ≡ some q
    → elim pointer [ none ↦ none | some id ↦ find (has_id id) (policies ++ p ∷ []) ] ≡ some q
pointed_old none policies p q h = h
pointed_old (some id) policies p q h = find-old id policies p q h

or_zeros_full : (limits : List ℤ) → length limits ≡ 7 → or_zeros limits ≡ limits
or_zeros_full [] h = absurd (omega (arith, h))
or_zeros_full (s ∷ rest) h = refl

note_kept : (note : String) → or_empty (if str_eq note "" then none else some note) ≡ note
note_kept note =
    if-elim (λ kept. or_empty kept ≡ note) (str_eq note "") none (some note)
      (λ empty. sym ((eq_iff note "").0 empty)) (λ text. refl)

-- A change of a policy appends a row and touches no other; the new row is the user's current policy,
-- its version is one more than that of every row the user had, and it is the highest again.
pub update_policy-appends :
    (policies : List Policy) (new_id : ℕ) (user : User) (update : PolicyUpdate)
    (created_by : String)
    → IsFresh new_id policies
    → IsVersioned policies user
    → let (policies', user', p) = update_policy policies new_id user update created_by in
      (policies' ≡ policies ++ p ∷ [])
      × (get_current_policy policies' user' ≡ some p)
      × (p.version ≡ suc (current_version (get_current_policy policies user)))
      × IsVersioned policies' user'
unfolding update_policy get_current_policy
update_policy-appends policies new_id user update created_by fresh versioned =
    let p = (update_policy policies new_id user update created_by).2 in
    let top = current_version (get_current_policy policies user) in
    let found : find (has_id new_id) (policies ++ p ∷ []) ≡ some p =
      find-new new_id policies p fresh refl in
    let next : p.version ≡ suc top = next_version-suc (get_current_policy policies user) in
    (
      refl,
      found,
      next,
      rw (found) (UpTo-append user.id top policies p versioned (omega (arith, next))),
    )

-- A change of one user's policy leaves every other user's current policy as it was.
pub update_policy-elsewhere :
    (policies : List Policy) (new_id : ℕ) (user : User) (update : PolicyUpdate)
    (created_by : String) (other : User) (current : Policy)
    → get_current_policy policies other ≡ some current
    → get_current_policy (update_policy policies new_id user update created_by).0 other
      ≡ some current
unfolding update_policy get_current_policy
update_policy-elsewhere policies new_id user update created_by other current h =
    pointed_old other.current_policy_id policies
      (update_policy policies new_id user update created_by).2 current h

-- What an administrator saves is what a device is served: the payload of the new version carries every
-- field of the change, for a change whose play time has its seven limits.
pub policy_to_payload-update_policy :
    (policies : List Policy) (new_id : ℕ) (user : User) (update : PolicyUpdate)
    (created_by : String)
    → length update.playtime.daily_limits_s ≡ 7
    → policy_to_payload (update_policy policies new_id user update created_by).2 ≡ record {
      version = next_version (get_current_policy policies user);
      daily_limits_s = update.daily_limits_s;
      allowed_hours = update.allowed_hours;
      allowed_weekdays = update.allowed_weekdays;
      weekly_limit_s = update.weekly_limit_s;
      monthly_limit_s = update.monthly_limit_s;
      lockout_type = update.lockout_type;
      wake_from = update.wake_from;
      wake_to = update.wake_to;
      track_inactive = update.track_inactive;
      hide_tray_icon = update.hide_tray_icon;
      playtime = update.playtime;
      note = update.note;
    }
unfolding policy_to_payload update_policy
policy_to_payload-update_policy policies new_id user update created_by h =
    let limits = or_zeros_full update.playtime.daily_limits_s h in
    let note = note_kept update.note in simp (limits, note, policy_to_payload, update_policy)

-- ===== src/Hub/Provision/Keyed.antt =====
-- The keys of the accounts: a row is found by its id again, after a change and after an insert.
use timekpr_next_hub.Base.{
  ℕ, ◌≡◌, ◌≤◌, refl, ap, ◌==◌, ◌||◌, Bool, true, false, Option, none, some, List, [], ◌∷◌, ◌++◌,
  arith, find, any, if◌then◌else◌, if-elim, Bool-cases, Option-cases, inl, inr,
}
use timekpr_next_hub.Hub.Rows.{selected}
use timekpr_next_hub.Hub.Tables.{User, Policy}
use timekpr_next_hub.Hub.Policy.{
  LocalPolicySnapshot, get_current_policy, create_initial_policy, get_or_create_policy,
  initial_policy,
}
use timekpr_next_hub.Hub.Provision.{Accounts, NewIds, has_user_id, save_user}

abbrev pub has_policy_id : ℕ → Policy → Bool
has_policy_id id p = p.id == id

-- The ids that are drawn are new.
pub record AreFresh (st : Accounts) (ids : NewIds) : Type 0 where
  pub user_fresh : any (has_user_id ids.user_id) st.users ≡ false
  pub policy_fresh : any (has_policy_id ids.policy_id) st.policies ≡ false

-- A user's id is unique.
abbrev pub IsKeyed : List User → Type 0
IsKeyed users = (id : ℕ) → selected (has_user_id id) users ≤ 1

module _ {ℓ} {A : Type ℓ} where
  pub find_holds : (p : A → Bool) (xs : List A) (a : A) → find p xs ≡ some a → p a ≡ true
  find_holds p [] a h = cc
  find_holds p (x ∷ xs) a h = elim (Bool-cases (p x)) [
    | inl hit ↦ found_here (p x) x (find p xs) a hit h hit
    | inr miss ↦ find_holds p xs a (found_later (p x) x (find p xs) a miss h)
  ]
    where
      found_here :
          (b : Bool) (x : A) (o : Option A) (a : A)
          → b ≡ true
          → (if b then some x else o) ≡ some a
          → p x ≡ true
          → p a ≡ true
      found_here true x o a t h k = cc
      found_here false x o a t h k = cc

      found_later :
          (b : Bool) (x : A) (o : Option A) (a : A)
          → b ≡ false
          → (if b then some x else o) ≡ some a
          → o ≡ some a
      found_later true x o a t h = cc
      found_later false x o a t h = h

  pub find-append_new :
      (p : A → Bool) (xs : List A) (a : A)
      → any p xs ≡ false
      → p a ≡ true
      → find p (xs ++ a ∷ []) ≡ some a
  find-append_new p [] a h k = rw (k) refl
  find-append_new p (x ∷ xs) a h k = ground (arith, find-append_new p xs a)

pub same_id : (n : ℕ) → (n == n) ≡ true
same_id n = ground arith

or_right : (a b : Bool) → a ≡ false → (a || b) ≡ true → b ≡ true
or_right a b h k = ground arith

-- The changed row is found by its id.
pub find-save_user :
    (user : User) (users : List User)
    → any (has_user_id user.id) users ≡ true
    → find (has_user_id user.id) (save_user user users) ≡ some user
unfolding save_user
find-save_user user [] h = cc
find-save_user user (u ∷ rest) h =
    if-elim (λ out. find (has_user_id user.id) out ≡ some user) (u.id == user.id) _ _
      (λ hit. rw (same_id user.id) refl)
      (λ miss. rw (miss) (find-save_user user rest (or_right _ _ miss h)))

pub found_first {ℓ} :
    {A : Type ℓ} (b : Bool) (x : A) (o : Option A) (a : A)
    → b ≡ true
    → (if b then some x else o) ≡ some a
    → a ≡ x
found_first true x o a t h = cc
found_first false x o a t h = cc

pub found_later {ℓ} :
    {A : Type ℓ} (b : Bool) (x : A) (o : Option A) (a : A)
    → b ≡ false
    → (if b then some x else o) ≡ some a
    → o ≡ some a
found_later true x o a t h = cc
found_later false x o a t h = h

-- Saving the row that is there changes nothing.
pub save_user-same :
    (user : User) (users : List User)
    → find (has_user_id user.id) users ≡ some user
    → save_user user users ≡ users
unfolding save_user
save_user-same user [] h = cc
save_user-same user (u ∷ rest) h =
    if-elim (λ out. out ≡ u ∷ rest) (u.id == user.id) _ _
      (λ hit. ap (λ v. v ∷ rest) (found_first (u.id == user.id) u _ user hit h))
      (λ miss.
        ap (λ later. u ∷ later)
          (save_user-same user rest (found_later (u.id == user.id) u _ user miss h)))

pub get_or_create_policy-same :
    (policies : List Policy) (new_id : ℕ) (user : User) (snapshot : Option LocalPolicySnapshot)
    (current : Policy)
    → get_current_policy policies user ≡ some current
    → get_or_create_policy policies new_id user snapshot ≡ (policies, user, current)
unfolding get_or_create_policy
get_or_create_policy-same policies new_id user snapshot current h =
    rw (h, get_or_create_policy) refl

pub get_or_create_policy-new :
    (policies : List Policy) (new_id : ℕ) (user : User) (snapshot : Option LocalPolicySnapshot)
    → get_current_policy policies user ≡ none
    → get_or_create_policy policies new_id user snapshot ≡ (
      policies ++ initial_policy new_id user.id snapshot ∷ [],
      record user { current_policy_id = some new_id },
      initial_policy new_id user.id snapshot,
    )
unfolding get_or_create_policy create_initial_policy initial_policy
get_or_create_policy-new policies new_id user snapshot h = rw (h, get_or_create_policy) refl

-- The new policy is found as the current one.
pub find_initial :
    (policies : List Policy) (new_id user_id : ℕ) (snapshot : Option LocalPolicySnapshot)
    → any (has_policy_id new_id) policies ≡ false
    → find (has_policy_id new_id) (policies ++ initial_policy new_id user_id snapshot ∷ [])
      ≡ some (initial_policy new_id user_id snapshot)
unfolding initial_policy
find_initial policies new_id user_id snapshot fresh =
    find-append_new (has_policy_id new_id) policies (initial_policy new_id user_id snapshot) fresh
      (same_id new_id)

-- The policy of a user is the one that is current afterwards, and the user keeps the id.
pub get_or_create_policy-current :
    (policies : List Policy) (new_id : ℕ) (user : User) (snapshot : Option LocalPolicySnapshot)
    → any (has_policy_id new_id) policies ≡ false
    → let got = get_or_create_policy policies new_id user snapshot in
      (got.1.id ≡ user.id) × (get_current_policy got.0 got.1 ≡ some got.2)
unfolding get_current_policy
get_or_create_policy-current policies new_id user snapshot fresh =
    elim (Option-cases (get_current_policy policies user)) [
      | inl absent ↦
          rw (get_or_create_policy-new policies new_id user snapshot absent)
            (refl, find_initial policies new_id user.id snapshot fresh)
      | inr (current, e) ↦
          rw (get_or_create_policy-same policies new_id user snapshot current e) (refl, e)
    ]

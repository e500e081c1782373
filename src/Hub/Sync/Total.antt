-- ===== src/Hub/Sync/Total.antt =====
-- Every report is answered: no lookup of the loop fails.
use timekpr_next_hub.Base.{
  ℕ, ◌≡◌, refl, sym, ap, ◌∙◌, subst, ◌==◌, ==_iff, ◌||◌, String, Bool, true, false, Option, none,
  some, List, [], ◌∷◌, ◌++◌, arith, map, find, any, All, if◌then◌else◌, if-elim, Bool-cases,
  Option-cases, inl, inr,
}
use timekpr_next_hub.Hub.Rows.{insert_or_update, All-weaken}
use timekpr_next_hub.Hub.Tables.{User, UserAlias}
use timekpr_next_hub.Hub.Enrollment.{Device}
use timekpr_next_hub.Hub.Provision.{
  Accounts, NewIds, has_user_id, has_username, alias_of, save_user, insert_alias, new_user,
  provision_user_alias,
}
use timekpr_next_hub.Hub.Provision.Keyed.{same_id, found_first, found_later}
use timekpr_next_hub.Hub.Provision.Settled.{any_id_of_find}
use timekpr_next_hub.Hub.Sync.{
  Context, Tables, Located, SyncUserRequest, SyncUserResponse, note_error, record_report, answer,
  locate, is_taken, sync_users,
}
use timekpr_next_hub.Hub.Sync.Lookup.{locate-new, locate-known}
use timekpr_next_hub.Hub.Sync.Noted.{note_user}
use timekpr_next_hub.Hub.Sync.Retry.{sync_user-located}

-- The user of every alias is there, as the foreign key asks.
abbrev pub HasUsers : Accounts → Type 0
HasUsers st = All (λ (a : UserAlias). any (has_user_id a.user_id) st.users ≡ true) st.aliases

module _ {ℓ} {A : Type ℓ} where
  found_of_any : (p : A → Bool) (xs : List A) → any p xs ≡ true → (a : A) × (find p xs ≡ some a)
  found_of_any p [] h = cc
  found_of_any p (x ∷ xs) h = elim (Bool-cases (p x)) [
    | inl hit ↦ (x, first_found (p x) x _ hit)
    | inr miss ↦ let (a, e) = found_of_any p xs (after_miss (p x) _ miss h) in (a, rw (miss) e)
  ]
    where
      first_found :
          (b : Bool) (x : A) (o : Option A) → b ≡ true → (if b then some x else o) ≡ some x
      first_found b x o h = rw (h) refl

      after_miss : (a b : Bool) → a ≡ false → (a || b) ≡ true → b ≡ true
      after_miss a b h k = ground arith

  All-find {κ} :
      (P : A → Type κ) (p : A → Bool) (xs : List A) (a : A) → All P xs → find p xs ≡ some a → P a
  All-find P p [] a h k = cc
  All-find P p (x ∷ xs) a (px, h) k = elim (Bool-cases (p x)) [
    | inl hit ↦ subst P (sym (found_first (p x) x _ a hit k)) px
    | inr miss ↦ All-find P p xs a h (found_later (p x) x _ a miss k)
  ]

  any-append : (p : A → Bool) (xs ys : List A) → any p xs ≡ true → any p (xs ++ ys) ≡ true
  any-append p [] ys h = cc
  any-append p (x ∷ xs) ys h = ground (arith, any-append p xs ys)

  any-last : (p : A → Bool) (xs : List A) (a : A) → p a ≡ true → any p (xs ++ a ∷ []) ≡ true
  any-last p [] a h = ground arith
  any-last p (x ∷ xs) a h = ground (arith, any-last p xs a h)

  All-insert {κ} :
      (P : A → Type κ) (same : A → Bool) (row : A) (rows : List A)
      → P row
      → All P rows
      → All P (insert_or_update same (λ old. old) row rows)
  unfolding insert_or_update
  All-insert P same row [] h k = (h, tt)
  All-insert P same row (r ∷ rows) h (pr, k) =
      if-elim (All P) (same r) _ _ (λ _. (pr, k)) (λ _. (pr, All-insert P same row rows h k))

  All-map {κ} :
      (P : A → Type κ) (f : A → A) (xs : List A)
      → ((a : A) → P a → P (f a))
      → All P xs
      → All P (map f xs)
  All-map P f [] h k = tt
  All-map P f (x ∷ xs) h (px, k) = (h x px, All-map P f xs h k)

-- A saved row has the id of the one that it replaces.
any-save_user :
    (user : User) (users : List User) (id : ℕ)
    → any (has_user_id id) (save_user user users) ≡ any (has_user_id id) users
unfolding save_user
any-save_user user [] id = refl
any-save_user user (u ∷ rest) id =
    if-elim (λ out. any (has_user_id id) out ≡ any (has_user_id id) (u ∷ rest)) (u.id == user.id) _
      _
      (λ hit. ap (λ n. (n == id) || any (has_user_id id) rest) (sym ((==_iff u.id user.id).0 hit)))
      (λ miss. ap (λ b. (u.id == id) || b) (any-save_user user rest id))

-- Provisioning keeps every alias's user.
saved-HasUsers :
    (st : Accounts) (user : User) (aliases : List UserAlias)
    → All (λ (a : UserAlias). any (has_user_id a.user_id) st.users ≡ true) aliases
    → All (λ (a : UserAlias). any (has_user_id a.user_id) (save_user user st.users) ≡ true) aliases
saved-HasUsers st user aliases h =
    All-weaken _ _ aliases (λ a k. any-save_user user st.users a.user_id ∙ k) h

provision_user_alias-HasUsers :
    (st : Accounts) (ids : NewIds) (device_id : ℕ) (username : String)
    → HasUsers st
    → HasUsers (provision_user_alias st ids device_id username none).accounts
unfolding provision_user_alias insert_alias new_user
provision_user_alias-HasUsers st ids device_id username h =
    elim (Option-cases (find (has_username username) st.users)) [
      | inl unknown ↦
          rw (unknown, provision_user_alias)
            (All-insert _ (alias_of device_id username) _ st.aliases
              (any-last (has_user_id ids.user_id) st.users _ (same_id ids.user_id))
              (All-weaken _ _ st.aliases (λ a k. any-append (has_user_id a.user_id) st.users _ k)
                h))
      | inr (existing, known) ↦
          rw (known, provision_user_alias)
            (saved-HasUsers st _ _ (
              All-insert _ (alias_of device_id username) _ st.aliases
                (any_id_of_find _ st.users existing known) h))
    ]

locate-HasUsers :
    (st : Accounts) (ids : NewIds) (device_id : ℕ) (username : String)
    → HasUsers st
    → (at : Located) × (locate st ids device_id username ≡ some at) × HasUsers at.accounts
locate-HasUsers st ids device_id username h =
    elim (Option-cases (find (alias_of device_id username) st.aliases)) [
      | inl absent ↦ (
        _,
        locate-new st ids device_id username absent,
        provision_user_alias-HasUsers st ids device_id username h,
      )
      | inr (alias, present) ↦
          let (user, found) =
            found_of_any (has_user_id alias.user_id) st.users
              (All-find _ (alias_of device_id username) st.aliases alias h present) in
          (
            _,
            locate-known st ids device_id username alias user present found,
            saved-HasUsers st _ st.aliases h,
          )
    ]

record_report-HasUsers :
    (ctx : Context) (device_id : ℕ) (at : Located) (st : Tables) (req : SyncUserRequest)
    → HasUsers at.accounts
    → HasUsers (record_report ctx device_id at st req).accounts
unfolding record_report
record_report-HasUsers ctx device_id at st req h =
    All-map _ (note_error device_id req.username req.policy_push_error ctx.now) at.accounts.aliases
      (λ a k.
        ap (λ id. any (has_user_id id) at.accounts.users)
          (note_user device_id req.username req.policy_push_error ctx.now a)
        ∙ k)
      h

-- The usernames that are asked for and those that are answered.
abbrev pub asked : List (NewIds × SyncUserRequest) → List String
asked reqs = map (λ (r : NewIds × SyncUserRequest). r.1.username) reqs

abbrev pub answered : List SyncUserResponse → List String
answered responses = map (λ (r : SyncUserResponse). r.username) responses

-- Reports that PostgreSQL takes, with times that are read.
abbrev pub AreTaken : Context → List (NewIds × SyncUserRequest) → Type 0
AreTaken ctx reqs = All (λ (r : NewIds × SyncUserRequest). is_taken ctx r.1 ≡ true) reqs

-- Where every alias has its user, and PostgreSQL's columns hold each report's username, error and counter
-- and the times of its spans are read, the loop of a sync ends, with one answer for each user of the
-- request, in the request's order, and every alias has its user afterwards.
pub sync_users-answers :
    (ctx : Context) (device : Device) (st : Tables) (reqs : List (NewIds × SyncUserRequest))
    → AreTaken ctx reqs
    → HasUsers st.accounts
    → (out : Tables × List SyncUserResponse) × (sync_users ctx device st reqs ≡ some out)
      × (answered out.1 ≡ asked reqs)
      × HasUsers out.0.accounts
unfolding sync_users answer
sync_users-answers ctx device st [] all h = ((st, []), refl, refl, h)
sync_users-answers ctx device st ((ids, req) ∷ rest) (taken, all) h =
    let (at, located, kept) = locate-HasUsers st.accounts ids device.id req.username h in
    let st1 = record_report ctx device.id at st req in
    let (later, e, names, users) =
      sync_users-answers ctx device st1 rest all
        (record_report-HasUsers ctx device.id at st req kept) in
    (
      (later.0, answer ctx device st1 at.user at.policy req ∷ later.1),
      rw (sync_user-located ctx device req st ids at taken located, e) refl,
      ap (λ ns. req.username ∷ ns) names,
      users,
    )

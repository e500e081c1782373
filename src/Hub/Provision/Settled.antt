-- ===== src/Hub/Provision/Settled.antt =====
-- What a provisioned account has: an alias, a user and a policy that are found again.
use timekpr_next_hub.Base.{
  ℕ, ◌≡◌, refl, sym, ap, ◌∙◌, ◌==◌, ◌&&◌, ◌||◌, String, str_eq, eq_refl, Bool, true, Option, none,
  some, List, [], ◌∷◌, arith, find, any, Bool-cases, Option-cases, inl, inr,
}
use timekpr_next_hub.Hub.Rows.{find-insert_or_update}
use timekpr_next_hub.Hub.Tables.{User, UserAlias, Policy}
use timekpr_next_hub.Hub.Policy.{
  LocalPolicySnapshot, get_current_policy, create_initial_policy, initial_policy,
}
use timekpr_next_hub.Hub.Provision.{
  Accounts, NewIds, has_user_id, has_username, alias_of, save_user, insert_alias,
  provision_user_alias, new_user,
}
use timekpr_next_hub.Hub.Provision.Keyed.{
  AreFresh, same_id, found_first, found_later, find-append_new, find-save_user, find_initial,
  get_or_create_policy-current,
}

-- What makes a report of the account find its user again.
pub record IsSettled (st : Accounts) (device_id : ℕ) (username : String) (user : User)
    (policy : Policy) : Type 0 where
  pub alias : UserAlias
  pub alias_found : find (alias_of device_id username) st.aliases ≡ some alias
  pub user_found : find (has_user_id alias.user_id) st.users ≡ some user
  pub policy_found : get_current_policy st.policies user ≡ some policy

alias_key : (d : ℕ) (n : String) → ((d == d) && str_eq n n) ≡ true
alias_key d n = rw (eq_refl n) (ground arith)

-- An account that had no alias has the new one.
find-insert_alias :
    (aliases : List UserAlias) (user_id device_id : ℕ) (username : String)
    → find (alias_of device_id username) aliases ≡ none
    → find (alias_of device_id username) (insert_alias aliases user_id device_id username)
      ≡ some (record {
        user_id = user_id;
        device_id = device_id;
        local_username = username;
        policy_push_error = none;
        policy_push_error_at = none;
      })
unfolding insert_alias
find-insert_alias aliases user_id device_id username h =
    find-insert_or_update (alias_of device_id username) (λ old. old) _ aliases
      (alias_key device_id username) (λ a k. k)
    ∙ rw (h) refl

or_first : (a b : Bool) → a ≡ true → (a || b) ≡ true
or_first a b h = ground arith

or_later : (a b : Bool) → b ≡ true → (a || b) ≡ true
or_later a b h = ground arith

pub any_id_of_find :
    (p : User → Bool) (users : List User) (user : User)
    → find p users ≡ some user
    → any (has_user_id user.id) users ≡ true
any_id_of_find p [] user h = cc
any_id_of_find p (u ∷ rest) user h = elim (Bool-cases (p u)) [
  | inl hit ↦ or_of_same u user rest (found_first (p u) u _ user hit h)
  | inr miss ↦
      or_later (u.id == user.id) _ (any_id_of_find p rest user (found_later (p u) u _ user miss h))
]
  where
    or_of_same :
        (u user : User) (rest : List User) → user ≡ u → any (has_user_id user.id) (u ∷ rest) ≡ true
    or_of_same u user rest e = rw (e) (or_first _ _ (same_id u.id))

pub find_saved :
    (user changed : User) (users : List User)
    → changed.id ≡ user.id
    → any (has_user_id user.id) users ≡ true
    → find (has_user_id user.id) (save_user changed users) ≡ some changed
find_saved user changed users e h =
    ap (λ id. find (has_user_id id) (save_user changed users)) (sym e)
    ∙ find-save_user changed users (ap (λ id. any (has_user_id id) users) e ∙ h)

-- After an account is provisioned, it is found, and so is its user with the policy.
pub provision_user_alias-IsSettled :
    (st : Accounts) (ids : NewIds) (device_id : ℕ) (username : String)
    (snapshot : Option LocalPolicySnapshot)
    → AreFresh st ids
    → find (alias_of device_id username) st.aliases ≡ none
    → let p = provision_user_alias st ids device_id username snapshot in
      IsSettled p.accounts device_id username p.user p.policy
unfolding provision_user_alias new_user create_initial_policy initial_policy get_current_policy
provision_user_alias-IsSettled st ids device_id username snapshot fresh absent =
    elim (Option-cases (find (has_username username) st.users)) [
      | inl unknown ↦
          rw (unknown, provision_user_alias)
            (record {
              alias = _;
              alias_found = find-insert_alias st.aliases ids.user_id device_id username absent;
              user_found =
                  find-append_new (has_user_id ids.user_id) st.users _ fresh.user_fresh
                    (same_id ids.user_id);
              policy_found =
                  find_initial st.policies ids.policy_id ids.user_id snapshot fresh.policy_fresh;
            })
      | inr (existing, known) ↦
          let (e, current) =
            get_or_create_policy-current st.policies ids.policy_id existing none
              fresh.policy_fresh in
          rw (known, provision_user_alias)
            (record {
              alias = _;
              alias_found = find-insert_alias st.aliases existing.id device_id username absent;
              user_found =
                  find_saved existing _ st.users e (any_id_of_find _ st.users existing known);
              policy_found = current;
            })
    ]

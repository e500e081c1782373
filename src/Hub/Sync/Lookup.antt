-- ===== src/Hub/Sync/Lookup.antt =====
-- The user of a report, found by the alias or provisioned.
use timekpr_next_hub.Base.{
  ℕ, ◌≡◌, refl, sym, ap, ◌∙◌, subst, ==_iff, String, none, some, find, Option-cases, inl, inr,
}
use timekpr_next_hub.Hub.Tables.{User, UserAlias, Policy}
use timekpr_next_hub.Hub.Policy.{get_or_create_policy}
use timekpr_next_hub.Hub.Provision.{
  Accounts, NewIds, has_user_id, alias_of, save_user, provision_user_alias,
}
use timekpr_next_hub.Hub.Provision.Keyed.{
  AreFresh, find_holds, save_user-same, get_or_create_policy-same, get_or_create_policy-current,
}
use timekpr_next_hub.Hub.Provision.Settled.{
  IsSettled, provision_user_alias-IsSettled, find_saved, any_id_of_find,
}
use timekpr_next_hub.Hub.Sync.{Located, locate}

-- A settled account is found as it is, whatever ids are drawn.
pub locate-IsSettled :
    (st : Accounts) (ids : NewIds) (device_id : ℕ) (username : String) (user : User)
    (policy : Policy)
    → IsSettled st device_id username user policy
    → locate st ids device_id username
      ≡ some (record { accounts = st; user = user; policy = policy })
unfolding locate
locate-IsSettled st ids device_id username user policy h =
    rw
      (
        h.alias_found,
        locate,
        h.user_found,
        get_or_create_policy-same st.policies ids.policy_id user none policy h.policy_found,
      )
      (ap
        (λ users.
          some (record { accounts = record st { users = users }; user = user; policy = policy }))
        (save_user-same user st.users own))
  where
    own : find (has_user_id user.id) st.users ≡ some user
    own =
        ap (λ id. find (has_user_id id) st.users)
          ((==_iff user.id h.alias.user_id).0
            (find_holds (has_user_id h.alias.user_id) st.users user h.user_found))
        ∙ h.user_found

pub some_inj {ℓ} : {A : Type ℓ} (a b : A) → some a ≡ some b → a ≡ b
some_inj a b h = cc

pub none_is_not_some {ℓ} : {A : Type ℓ} (a : A) → none ≡ some a → ⊥
none_is_not_some a h = cc

abbrev pub Settles : ℕ → String → Located → Type 0
Settles device_id username at = IsSettled at.accounts device_id username at.user at.policy

pub locate-new :
    (st : Accounts) (ids : NewIds) (device_id : ℕ) (username : String)
    → find (alias_of device_id username) st.aliases ≡ none
    → let p = provision_user_alias st ids device_id username none in
      locate st ids device_id username
      ≡ some (record { accounts = p.accounts; user = p.user; policy = p.policy })
unfolding locate
locate-new st ids device_id username h = rw (h, locate) refl

pub locate-known :
    (st : Accounts) (ids : NewIds) (device_id : ℕ) (username : String) (alias : UserAlias)
    (user : User)
    → find (alias_of device_id username) st.aliases ≡ some alias
    → find (has_user_id alias.user_id) st.users ≡ some user
    → let got = get_or_create_policy st.policies ids.policy_id user none in
      locate st ids device_id username
      ≡ some (record {
        accounts = record st { users = save_user got.1 st.users; policies = got.0 };
        user = got.1;
        policy = got.2;
      })
unfolding locate
locate-known st ids device_id username alias user h k = rw (h, locate, k) refl

pub locate-lost :
    (st : Accounts) (ids : NewIds) (device_id : ℕ) (username : String) (alias : UserAlias)
    → find (alias_of device_id username) st.aliases ≡ some alias
    → find (has_user_id alias.user_id) st.users ≡ none
    → locate st ids device_id username ≡ none
unfolding locate
locate-lost st ids device_id username alias h k = rw (h, locate, k) refl

-- And an account that is found is settled.
pub located-IsSettled :
    (st : Accounts) (ids : NewIds) (device_id : ℕ) (username : String) (at : Located)
    → AreFresh st ids
    → locate st ids device_id username ≡ some at
    → Settles device_id username at
located-IsSettled st ids device_id username at fresh h =
    elim (Option-cases (find (alias_of device_id username) st.aliases)) [
      | inl absent ↦
          subst (Settles device_id username)
            (some_inj _ at (sym (locate-new st ids device_id username absent) ∙ h))
            (provision_user_alias-IsSettled st ids device_id username none fresh absent)
      | inr (alias, present) ↦ elim (Option-cases (find (has_user_id alias.user_id) st.users)) [
        | inl lost ↦ absurd (
            none_is_not_some at
              (sym (locate-lost st ids device_id username alias present lost) ∙ h))
        | inr (user, found) ↦
            let (e, current) =
              get_or_create_policy-current st.policies ids.policy_id user none fresh.policy_fresh in
            let own : alias.user_id ≡ user.id = sym (
              (==_iff user.id alias.user_id).0
                (find_holds (has_user_id alias.user_id) st.users user found)) in
            subst (Settles device_id username)
              (some_inj _ at
                (sym (locate-known st ids device_id username alias user present found) ∙ h))
              (record {
                alias = alias;
                alias_found = present;
                user_found =
                    ap
                      (λ id. find (has_user_id id) (
                        save_user (get_or_create_policy st.policies ids.policy_id user none).1
                          st.users))
                      own
                    ∙ find_saved user _ st.users e (any_id_of_find _ st.users user found);
                policy_found = current;
              })
      ]
    ]

-- ===== src/Hub/Provision.antt =====
-- hub/timekpr_hub/services/enrollment.py and the users' part of api/enroll.py: a device's local account
-- becomes a user of the hub, or is merged into one. The savepoint's unique violation is the case that
-- the username is there. New ids are arguments.
pub mod Keyed
pub mod Settled
use timekpr_next_hub.Base.{
  ℕ, ◌==◌, ◌&&◌, String, str_eq, Bool, true, false, Option, none, some, List, [], ◌∷◌, ◌++◌, map,
  find, if◌then◌else◌,
}
use timekpr_next_hub.Base.Int.{ℤ, pos}
use timekpr_next_hub.Base.Dict.{Dict, insert}
use timekpr_next_hub.Core.Models.{AccountingMode, OfflinePolicy, PolicyPayload}
use timekpr_next_hub.Hub.Rows.{insert_or_update}
use timekpr_next_hub.Hub.Tables.{User, UserAlias, Policy}
use timekpr_next_hub.Hub.Policy.{
  LocalPolicySnapshot, create_initial_policy, get_or_create_policy, policy_to_payload,
}

pub record Accounts : Type 0 where
  pub users : List User
  pub aliases : List UserAlias
  pub policies : List Policy

-- The ids that one provisioning draws.
pub record NewIds : Type 0 where
  pub user_id : ℕ
  pub policy_id : ℕ

-- `User(id=..., canonical_username=..., display_name=...)` and the columns' defaults.
unfoldable pub new_user : ℕ → String → User
new_user id username = record {
  id = id;
  canonical_username = username;
  display_name = username;
  current_policy_id = none;
  accounting_mode = AccountingMode.wallclock;
  offline_policy = OfflinePolicy.capped;
  offline_grace_s = pos 900;
  offline_cap_s = pos 1800;
  gated_weekdays_json = [];
}

abbrev pub has_username : String → User → Bool
has_username username u = str_eq u.canonical_username username

abbrev pub has_user_id : ℕ → User → Bool
has_user_id id u = u.id == id

-- The change of one user's row.
unfoldable pub save_user : User → List User → List User
save_user user [] = []
save_user user (u ∷ rest) =
    let later = save_user user rest in if u.id == user.id then user ∷ rest else u ∷ later

abbrev pub alias_of : ℕ → String → UserAlias → Bool
alias_of device_id local_username a =
    a.device_id == device_id && str_eq a.local_username local_username

-- INSERT ... ON CONFLICT (device_id, local_username) DO NOTHING
unfoldable pub insert_alias : List UserAlias → ℕ → ℕ → String → List UserAlias
unfolding insert_or_update
insert_alias aliases user_id device_id local_username =
    insert_or_update (alias_of device_id local_username) (λ old. old)
      (record {
        user_id = user_id;
        device_id = device_id;
        local_username = local_username;
        policy_push_error = none;
        policy_push_error_at = none;
      })
      aliases

pub record Provisioned : Type 0 where
  pub accounts : Accounts
  pub user : User
  pub policy : Policy
  pub is_new : Bool

unfoldable pub provision_user_alias :
    Accounts → NewIds → ℕ → String → Option LocalPolicySnapshot → Provisioned
unfolding new_user save_user insert_alias create_initial_policy get_or_create_policy
provision_user_alias st ids device_id local_username snapshot =
    elim (find (has_username local_username) st.users) [
      | none ↦
          let created = create_initial_policy st.policies ids.policy_id ids.user_id snapshot in
          let user : User = record (new_user ids.user_id local_username) {
            current_policy_id = some created.1.id;
          } in
          record {
            accounts = record {
              users = st.users ++ user ∷ [];
              aliases = insert_alias st.aliases user.id device_id local_username;
              policies = created.0;
            };
            user = user;
            policy = created.1;
            is_new = true;
          }
      | some existing ↦
          let got = get_or_create_policy st.policies ids.policy_id existing none in
          record {
            accounts = record {
              users = save_user got.1 st.users;
              aliases = insert_alias st.aliases existing.id device_id local_username;
              policies = got.0;
            };
            user = got.1;
            policy = got.2;
            is_new = false;
          }
    ]

-- One local account of an enrollment, with the policy that the device reports for it.
pub record LocalUser : Type 0 where
  pub username : String
  pub snapshot : Option LocalPolicySnapshot
  pub ids : NewIds

pub record Enrolled : Type 0 where
  pub accounts : Accounts
  pub new_users : List String
  pub policies : Dict PolicyPayload

-- The loop of `enroll` over `req.local_users`; `policies` is a dict.
unfoldable pub enroll_users : Enrolled → ℕ → List LocalUser → Enrolled
unfolding provision_user_alias policy_to_payload
enroll_users done device_id [] = done
enroll_users done device_id (l ∷ rest) =
    let p = provision_user_alias done.accounts l.ids device_id l.username l.snapshot in
    enroll_users
      (record {
        accounts = p.accounts;
        new_users = if p.is_new then done.new_users ++ l.username ∷ [] else done.new_users;
        policies = insert l.username (policy_to_payload p.policy) done.policies;
      })
      device_id rest

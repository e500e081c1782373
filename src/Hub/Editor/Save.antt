-- ===== src/Hub/Editor/Save.antt =====
-- hub/timekpr_hub/api/ui/policy.py, update_policy_ui: a form that is submitted becomes the user's policy.
-- The ids of the rows are arguments; the audit row is left out.
use timekpr_next_hub.Base.{ℕ, ◌≡◌, String, none, some, List, find}
use timekpr_next_hub.Core.Models.{Weekday}
use timekpr_next_hub.Core.EffectivePolicy.{hours_of, materialize_allowed_hours}
use timekpr_next_hub.Hub.Tables.{User, Policy}
use timekpr_next_hub.Hub.Policy.{
  PolicyUpdate, get_current_policy, get_or_create_policy, update_policy, policy_to_payload,
}
use timekpr_next_hub.Hub.Provision.{Accounts, has_user_id, has_username, save_user}
use timekpr_next_hub.Hub.Editor.Form.{
  FormResult, accepted, unprocessable, crashed, PolicyForm, parse_policy_form,
}
use timekpr_next_hub.Hub.Editor.Form.Valid.{HasHours}

-- 404, 422, 500, or the redirect to the page.
pub data Answer : Type 0 where
  unknown_user unprocessable_form internal_error see_other : Answer

-- The user's row and the policies after the change.
abbrev pub changed : List Policy → ℕ → ℕ → User → PolicyUpdate → List Policy × User × Policy
changed policies first_id new_id user update =
    let got = get_or_create_policy policies first_id user none in
    update_policy got.0 new_id got.1 update "ui"

abbrev pub save_policy : Accounts → ℕ → ℕ → User → PolicyUpdate → Accounts
save_policy st first_id new_id user update =
    let after = changed st.policies first_id new_id user update in
    record { users = save_user after.1 st.users; aliases = st.aliases; policies = after.0 }

-- The request of a known user, by what its form came to.
abbrev pub submit : Accounts → ℕ → ℕ → User → FormResult PolicyUpdate → Accounts × Answer
submit st first_id new_id user unprocessable = (st, unprocessable_form)
submit st first_id new_id user crashed = (st, internal_error)
submit st first_id new_id user (accepted update) =
    (save_policy st first_id new_id user update, see_other)

unfoldable pub update_policy_ui : Accounts → ℕ → ℕ → String → PolicyForm → Accounts × Answer
update_policy_ui st first_id new_id username form = elim (find (has_username username) st.users) [
  | none ↦ (st, unknown_user)
  | some user ↦ submit st first_id new_id user (parse_policy_form form)
]

-- After a form is accepted for a user: the redirect; the user's row points to a policy which has at
-- least one hour on every weekday, all of them valid; and of each weekday a device is sent the hours of
-- the update.
pub record IsServed (user : User) (update : PolicyUpdate) (result : Accounts × Answer)
    : Type 0 where
  pub answer : result.1 ≡ see_other
  pub saved : User
  pub found : find (has_user_id user.id) result.0.users ≡ some saved
  pub policy : Policy
  pub is_current : get_current_policy result.0.policies saved ≡ some policy
  pub has_hours : (day : Weekday) → HasHours (policy_to_payload policy).allowed_hours day
  pub hours_sent :
      (day : Weekday)
      → hours_of day (materialize_allowed_hours (policy_to_payload policy).allowed_hours)
        ≡ hours_of day update.allowed_hours

-- ===== src/Hub/Editor/Form/Crash.antt =====
-- A mask of the policy editor's activities that PlayTimeActivity does not admit.
use timekpr_next_hub.Base.{
  ◌≡◌, refl, ◌&&◌, not, String, str_eq, Bool, true, List, [], ◌∷◌, any, if◌then◌else◌, Bool-cases,
  inl, inr, arith,
}
use timekpr_next_hub.Core.Models.{PlayTimeActivity}
use timekpr_next_hub.Hub.Policy.{PolicyUpdate}
use timekpr_next_hub.Hub.Editor.Form.{
  FormResult, accepted, unprocessable, crashed, ◌>>=◌, PolicyForm, is_activity, parse_activities,
  parse_fields, parse_policy_form,
}

-- A line whose activity is refused.
abbrev pub is_bad_line : String × String → Bool
is_bad_line (mask, description) = not (str_eq mask "") && not (is_activity mask description)

bad_line-crashed :
    (mask description : String) (later kept : FormResult (List PlayTimeActivity))
    → is_bad_line (mask, description) ≡ true
    → (if str_eq mask "" then later else if is_activity mask description then kept else crashed)
      ≡ crashed
bad_line-crashed mask description later kept bad = ground arith

crashed_anyway :
    (skipped admitted : Bool) (same : FormResult (List PlayTimeActivity))
    → (if skipped then same else if admitted then same else same) ≡ same
crashed_anyway skipped admitted same = ground arith

parse_activities-crashed :
    (lines : List (String × String))
    → any is_bad_line lines ≡ true
    → parse_activities lines ≡ crashed
unfolding parse_activities
parse_activities-crashed [] h = cc
parse_activities-crashed ((mask, description) ∷ lines) h =
    elim (Bool-cases (is_bad_line (mask, description))) [
      | inl bad ↦ bad_line-crashed mask description (parse_activities lines) _ bad
      | inr good ↦
          rw (parse_activities-crashed lines (ground arith))
            (crashed_anyway (str_eq mask "") (is_activity mask description) crashed)
    ]

bind-accepted {ℓ κ} :
    {A : Type ℓ} {B : Type κ} (step : FormResult A) (next : A → FormResult B) (b : B)
    → (step >>= next) ≡ accepted b
    → (a : A) × (step ≡ accepted a)
bind-accepted (accepted a) next b h = (a, refl)
bind-accepted unprocessable next b h = cc
bind-accepted crashed next b h = cc

-- A form that is accepted without its activities is not answered at all, not even with 422, where one of
-- its activities has a mask that PlayTimeActivity does not admit: the exception is not caught.
pub parse_policy_form-crashed :
    (form : PolicyForm) (lines : List (String × String)) (update : PolicyUpdate)
    → parse_policy_form (record form { pt_activities = [] }) ≡ accepted update
    → any is_bad_line lines ≡ true
    → parse_policy_form (record form { pt_activities = lines }) ≡ crashed
unfolding parse_policy_form parse_fields
parse_policy_form-crashed form lines update fine bad =
    let (fields, parsed) =
      bind-accepted (parse_fields (record form { pt_activities = [] })) _ update fine in
    rw (parsed, parse_activities-crashed lines bad) refl

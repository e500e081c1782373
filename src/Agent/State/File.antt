-- ===== src/Agent/State/File.antt =====
-- `load` and `save` of agent/timekpr_hub_agent/state.py on the value that the json library reads or writes. A
-- dict is its members in order, and a user's state its attributes in the order of `UserState`'s fields. What
-- json makes of a number is a parameter.
pub mod Saved
mod Tests
use timekpr_next_hub.Base.{ℕ, Bool, Option, none, some, List, [], ◌∷◌, if◌then◌else◌}
use timekpr_next_hub.Base.Chars.{Chars, codes, same_chars}
use timekpr_next_hub.Agent.Config.{put_value}

mutual
  pub data Json (N : Type 0) : Type 0 where
    null : Json N
    boolean : Bool → Json N
    number : N → Json N
    text : Chars → Json N
    array : Items N → Json N
    object : Members N → Json N

  pub data Items (N : Type 0) : Type 0 where
    no_items : Items N
    item : Json N → Items N → Items N

  pub data Members (N : Type 0) : Type 0 where
    no_members : Members N
    member : Chars → Json N → Members N → Members N

-- What is on the disk: no file, one that cannot be read, one that is no JSON, or a value.
pub data File (N : Type 0) : Type 0 where
  missing unreadable corrupt : File N
  holds : Json N → File N

pub record SavedState (N : Type 0) : Type 0 where
  pub users : List (Chars × Members N)
  pub hub_tz : Chars

-- `crashed`: the AttributeError of a value that is not a dict where `load` calls `get` or `items`.
pub data Loaded (N : Type 0) : Type 0 where
  loaded : SavedState N → Loaded N
  crashed : Loaded N

module _ {N : Type 0} where
  -- `d.get(key)`
  unfoldable pub member_of : Chars → Members N → Option (Json N)
  member_of key no_members = none
  member_of key (member k v rest) =
      let later = member_of key rest in if same_chars k key then some v else later

  abbrev pub or_default : Json N → Option (Json N) → Json N
  or_default default none = default
  or_default default (some v) = v

  -- The given attributes, each one that is missing with its default; a key that is no field is dropped.
  unfoldable pub complete : List (Chars × Json N) → Members N → Members N
  unfolding member_of
  complete [] given = no_members
  complete ((name, default) ∷ fields) given =
      member name (or_default default (member_of name given)) (complete fields given)

  abbrev pub text_or_nothing : Option (Json N) → Chars
  text_or_nothing (some (text s)) = s
  text_or_nothing other = []

  module _ (whole : ℕ → N) where
    -- The fields of `UserState` and their defaults.
    abbrev pub user_fields : List (Chars × Json N)
    user_fields =
        (codes "day", text [])
        ∷ (codes "cum_local_s", number (whole 0))
        ∷ (codes "raw_prev_s", number (whole 0))
        ∷ (codes "applied_offset_s", number (whole 0))
        ∷ (codes "policy_version_applied", number (whole 0))
        ∷ (codes "policy_revision_applied", text [])
        ∷ (codes "last_enforcement", text [])
        ∷ (codes "last_policy_push_error", null)
        ∷ (codes "last_effective_limit_today_s", number (whole 0))
        ∷ (codes "last_global_spent_s", number (whole 0))
        ∷ (codes "last_hub_contact_utc", number (whole 0))
        ∷ (codes "last_offline_policy", text (codes "capped"))
        ∷ (codes "last_offline_grace_s", number (whole 900))
        ∷ (codes "last_offline_cap_s", number (whole 1800))
        ∷ (codes "cum_local_at_contact_s", number (whole 0))
        ∷ (codes "last_tick_utc", number (whole 0))
        ∷ (codes "pending_spans", array no_items)
        ∷ []

    -- The loop over the users; a user whose value is not a dict is skipped.
    unfoldable pub load_users : Members N → List (Chars × Members N) → List (Chars × Members N)
    unfolding complete put_value
    load_users no_members built = built
    load_users (member name (object given) rest) built =
        load_users rest (put_value name (complete user_fields given) built)
    load_users (member name other rest) built = load_users rest built

    abbrev pub users_from : Option (Json N) → Chars → Loaded N
    users_from none hub_tz = loaded (record { users = []; hub_tz = hub_tz })
    users_from (some (object users)) hub_tz =
        loaded (record { users = load_users users []; hub_tz = hub_tz })
    users_from (some other) hub_tz = crashed

    unfoldable pub load_value : Json N → Loaded N
    unfolding member_of load_users
    load_value (object raw) =
        users_from (member_of (codes "users") raw)
          (text_or_nothing (member_of (codes "hub_tz") raw))
    load_value other = crashed

    unfoldable pub load : File N → Loaded N
    unfolding load_value
    load (holds value) = load_value value
    load other = loaded (record { users = []; hub_tz = [] })

  abbrev pub users_value : List (Chars × Members N) → Members N
  users_value [] = no_members
  users_value ((name, user) ∷ users) = member name (object user) (users_value users)

  -- The value that `save` dumps.
  unfoldable pub save : SavedState N → Json N
  save state = object (
      member (codes "hub_tz") (text state.hub_tz)
        (member (codes "users") (object (users_value state.users)) no_members))

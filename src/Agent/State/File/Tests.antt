-- ===== src/Agent/State/File/Tests.antt =====
-- Files of other versions of the agent, and what is no dict.
use timekpr_next_hub.Base.{ℕ, ◌≡◌, refl, [], ◌∷◌}
use timekpr_next_hub.Base.Chars.{codes}
use timekpr_next_hub.Agent.State.File.{
  Members, File, SavedState, no_items, no_members, member, text, object, array, number, holds,
  loaded, crashed, member_of, complete, user_fields, load_users, load_value, load, save,
}
use timekpr_next_hub.Agent.Config.{put_value}
use timekpr_next_hub.Agent.State.File.Saved.{load-save}

-- A user with a day, and with a key that is no field any more.
abbrev given : Members ℕ
given =
    member (codes "last_hub_contact_monotonic") (number 17)
      (member (codes "day") (text (codes "2026-03-09")) no_members)

abbrev old_file : File ℕ
old_file = holds (
    object (
      member (codes "users")
        (object (member (codes "ada") (object given) (member (codes "bob") (text []) no_members)))
        no_members))

abbrev state : SavedState ℕ
state = record { users = (codes "ada", complete (user_fields (λ n. n)) given) ∷ []; hub_tz = [] }

old_file-loads : load (λ n. n) old_file ≡ loaded state
unfolding load load_value load_users member_of put_value
old_file-loads = refl

load-save_example : load (λ n. n) (holds (save state)) ≡ loaded state
load-save_example = load-save (λ n. n) old_file state old_file-loads

-- A file with a list in it is JSON, but `load` does not start fresh.
list-crashes : load (λ n. n) (holds (array no_items)) ≡ crashed
unfolding load load_value
list-crashes = refl

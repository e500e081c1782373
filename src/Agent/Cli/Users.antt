-- ===== src/Agent/Cli/Users.antt =====
-- The users that `enroll` writes to agent.env are the users that `run` manages: agent/timekpr_hub_agent/cli.py
-- and config.py together.
use timekpr_next_hub.Base.{
  ◌≡◌, refl, ap, Bool, true, false, not, Option, none, some, List, [], ◌∷◌, ◌++◌, any, All,
  if◌then◌else◌, arith, ℕ,
}
use timekpr_next_hub.Base.Chars.{Chars, is_nil, is_space, is_break, lstrip, rstrip, join_with}
use timekpr_next_hub.Base.Chars.Lines.{IsLine, or_false}
use timekpr_next_hub.Base.Chars.Strip.{rstrip-append, lstrip-cons}
use timekpr_next_hub.Base.Chars.Split.{IsName, names_of-IsName, names_of-join_with}
use timekpr_next_hub.Agent.Config.{
  url_key, users_key, tz_key, ca_key, get_value, read_env_file, or_nothing, or_else, or_empty,
  env_default,
}
use timekpr_next_hub.Agent.Config.EnvFile.{IsClean, read_env_file-write_env_file}
use timekpr_next_hub.Agent.Cli.{Args, EnrollData, EnrollCall, users_list, config_of}

-- `[u.strip() for u in args.users.split(",") if u.strip()]`; none where argparse asks for the users.
abbrev pub users_of : Option Chars → Option (List Chars)
users_of none = none
users_of (some text) = some (users_list text)

-- The users that `run` manages without `--users`, when the environment is silent.
unfoldable pub run_users : Option Chars → Option (List Chars)
unfolding env_default read_env_file
run_users file = users_of (env_default (λ key. none) users_key (read_env_file file))

any-append :
    (q : ℕ → Bool) (s t : Chars) → any q s ≡ false → any q t ≡ false → any q (s ++ t) ≡ false
any-append q [] t h k = k
any-append q (c ∷ s) t h k =
    let (no_c, more) = or_false (q c) (any q s) h in
    let ih = any-append q s t more k in rw (no_c) ih

abbrev AllNames : List Chars → Type 0
AllNames = All (IsName b',' is_break)

false_if_not : (b : Bool) → not b ≡ true → b ≡ false
false_if_not b h = ground arith

no_empty_name : (us : List Chars) → AllNames ([] ∷ us) → ⊥
no_empty_name us h = let bare = h.0.bare in ground arith

lstrip-joined :
    (us : List Chars) → AllNames us → lstrip is_space (join_with b',' us) ≡ join_with b',' us
unfolding join_with lstrip
lstrip-joined [] h = refl
lstrip-joined ([] ∷ us) h = absurd (no_empty_name us h)
lstrip-joined ((c ∷ u) ∷ []) h = lstrip-cons is_space c u (false_if_not (is_space c) h.0.bare)
lstrip-joined ((c ∷ u) ∷ v ∷ us) h = lstrip-cons is_space c _ (false_if_not (is_space c) h.0.bare)

rstrip-joined :
    (us : List Chars) → AllNames us → rstrip is_space (join_with b',' us) ≡ join_with b',' us
unfolding join_with rstrip is_space
rstrip-joined [] h = refl
rstrip-joined (u ∷ []) h = h.0.trimmed
rstrip-joined (u ∷ v ∷ us) h = rstrip-append is_space u _ b',' refl (rstrip-joined (v ∷ us) h.1)

comma_no_break : is_break b',' ≡ false
unfolding is_break
comma_no_break = refl

joined-IsLine : (us : List Chars) → AllNames us → IsLine (join_with b',' us)
unfolding join_with
joined-IsLine [] h = refl
joined-IsLine (u ∷ []) h = h.0.without
joined-IsLine (u ∷ v ∷ us) h =
    any-append is_break u _ h.0.without (rw (comma_no_break) (joined-IsLine (v ∷ us) h.1))

joined-IsClean : (us : List Chars) → AllNames us → IsClean (join_with b',' us)
joined-IsClean us h = (lstrip-joined us h, rstrip-joined us h, joined-IsLine us h)

-- The text of the names, read: nothing for no names.
read_joined :
    (us : List Chars)
    → AllNames us
    → users_of (or_nothing (some (join_with b',' us))) ≡ (if is_nil us then none else some us)
unfolding join_with
read_joined [] h = refl
read_joined ([] ∷ us) h = absurd (no_empty_name us h)
read_joined ((c ∷ u) ∷ []) h = ap some (names_of-join_with b',' is_break ((c ∷ u) ∷ []) h)
read_joined ((c ∷ u) ∷ v ∷ us) h = ap some (names_of-join_with b',' is_break ((c ∷ u) ∷ v ∷ us) h)

users_text :
    (url users tz ca : Chars)
    → get_value users_key ((url_key, url) ∷ (users_key, users) ∷ (tz_key, tz) ∷ (ca_key, ca) ∷ [])
      ≡ some users
unfolding get_value
users_text url users tz ca = refl

-- The users of an enrollment are read from the text that it was given, on one line. The hub's URL, the
-- time zone and the certificate's path each stand on one line and strip to themselves. Then `run`, which
-- is given the file that `enroll` writes and neither arguments nor environment, manages exactly the
-- users that were enrolled, in their order; and when the text had no users in it, `run` has none and
-- argparse refuses to start it.
pub run_users-config_of :
    {S : Type 0} (args : Args) (call : EnrollCall S) (answer : EnrollData) (users_arg : Chars)
    → call.local_users ≡ users_list users_arg
    → IsLine users_arg
    → IsClean call.base_url
    → IsClean (or_empty (or_else (or_nothing answer.hub_tz) (some args.tz)))
    → IsClean (or_empty args.ca_cert)
    → run_users (some (config_of args call answer))
      ≡ (if is_nil call.local_users then none else some call.local_users)
unfolding run_users config_of env_default
run_users-config_of args call answer users_arg same line url tz ca =
    let names : AllNames call.local_users =
      rw (same) (names_of-IsName b',' is_break users_arg line) in
    rw
      (
        read_env_file-write_env_file call.base_url (join_with b',' call.local_users) _ args.ca_cert
            url (joined-IsClean call.local_users names) tz ca,
        users_text call.base_url (join_with b',' call.local_users) _ _,
      )
      (read_joined call.local_users names)

-- ===== src/Agent/Cli.antt =====
-- `enroll` of agent/timekpr_hub_agent/cli.py, as what it does to the machine and how it ends. The answers of
-- timekpr, of the terminal, of the hub and of systemd are the record `Machine`; what it prints is left out.
pub mod Users
pub mod Quiet
pub mod Enroll
pub mod Loop
mod Tests
use timekpr_next_hub.Base.{
  Bool, true, false, not, ◌||◌, Option, none, some, List, [], ◌∷◌, ◌++◌, any, keep, if◌then◌else◌,
}
use timekpr_next_hub.Base.Chars.{Chars, is_nil, same_chars, strip, join_with}
use timekpr_next_hub.Base.Chars.Split.{names_of}
use timekpr_next_hub.Agent.Config.{
  HubUrl, put_value, or_nothing, or_else, or_empty, write_env_file, normalize_hub_url, normalized,
  empty_url, unsupported_scheme,
}
use timekpr_next_hub.Agent.HubClient.{
  Post, EnrollError, Enrolled, enroll, device_enrolled, not_enrolled,
}

pub data Prompt : Type 0 where
  users_prompt hub_url_prompt code_prompt : Prompt

pub data Command : Type 0 where
  enable_unit restart_unit : Command

-- The arguments that `enroll` was called with.
pub record Args : Type 0 where
  pub users : Option Chars
  pub hub_url : Option Chars
  pub code : Option Chars
  pub hostname : Option Chars
  pub machine_id : Option Chars
  pub ca_cert : Option Chars
  pub tz : Chars
  pub no_start : Bool

-- What the command ends with when it does not finish.
pub data Exit : Type 0 where
  timekpr_not_found users_required no_user_list no_users_selected : Exit
  unknown_users : List Chars → Exit
  flag_required nothing_entered : Prompt → Exit
  invalid_hub_url no_machine_id : Exit
  enroll_error : EnrollError → Exit

-- The data of the hub's answer that `enroll` uses beyond printing.
pub record EnrollData : Type 0 where
  pub device_token : Chars
  pub hub_tz : Option Chars

-- `[u.strip() for u in text.split(",") if u.strip()]`
abbrev pub users_list : Chars → List Chars
users_list = names_of b','

module _ (Snapshot : Type 0) where
  -- The request of `HubClient.enroll`.
  pub record EnrollCall : Type 0 where
    pub base_url : Chars
    pub enrollment_code : Chars
    pub hostname : Chars
    pub machine_id : Chars
    pub local_users : List Chars
    pub local_policies : List (Chars × Snapshot)

  -- The answers from outside. A snapshot is none where timekpr's reply is none or empty.
  pub record Machine : Type 0 where
    pub timekpr_found : Bool
    pub timekprd_ok : Bool
    pub users_to_choose : List Chars
    pub users_to_check : List Chars
    pub snapshot : Chars → Option Snapshot
    pub isatty : Bool
    pub typed : Prompt → Chars
    pub gethostname : Chars
    pub machine_id_files : List (Option Chars)
    pub answer : EnrollCall → Post EnrollData
    pub succeeds : Command → Bool

  pub data Effect : Type 0 where
    asked : Prompt → Effect
    posted : EnrollCall → Effect
    saved_token : Chars → Effect
    owned_token : Effect
    wrote_config : Chars → Effect
    ran : Command → Effect

-- `_read_machine_id`: the first of the files that can be read.
unfoldable pub read_machine_id : List (Option Chars) → Option Chars
read_machine_id [] = none
read_machine_id (none ∷ files) = read_machine_id files
read_machine_id (some text ∷ files) = some (strip text)

-- An end or a value, behind the effects so far.
pub data End (A : Type 0) : Type 0 where
  goes : A → End A
  exits : Exit → End A

abbrev pub Run : Type 0 → Type 0 → Type 0
Run Snapshot A = List (Effect Snapshot) × End A

abbrev pub after : {S A : Type 0} → List (Effect S) → Run S A → Run S A
after before (later, end) = (before ++ later, end)

infixl 5 ◌>>=◌ ◌>>◌
abbrev pub ◌>>=◌ : {S A B : Type 0} → Run S A → (A → Run S B) → Run S B
(before, goes a) >>= f = after before (f a)
(before, exits e) >>= f = (before, exits e)

abbrev pub ◌>>◌ : {S B : Type 0} → Run S (Unit {0}) → Run S B → Run S B
m >> k = m >>= λ _. k

abbrev pub system_exit : {S A : Type 0} → Exit → Run S A
system_exit e = ([], exits e)

abbrev pub pure : {S A : Type 0} → A → Run S A
pure a = ([], goes a)

abbrev pub perform : {S : Type 0} → Effect S → Run S (Unit {0})
perform effect = (effect ∷ [], goes tt)

-- A text that was typed, none where nothing was.
abbrev pub entered_or : {S : Type 0} → Exit → Chars → Run S Chars
entered_or e [] = system_exit e
entered_or e (c ∷ s) = pure (c ∷ s)

abbrev pub take_or : {S A : Type 0} → Exit → Option A → Run S A
take_or e none = system_exit e
take_or e (some a) = pure a

-- The text of agent.env after an enrollment.
unfoldable pub config_of : {S : Type 0} → Args → EnrollCall S → EnrollData → Chars
config_of args call answer =
    write_env_file call.base_url (join_with b',' call.local_users)
      (or_empty (or_else (or_nothing answer.hub_tz) (some args.tz))) args.ca_cert

module _ {S : Type 0} (machine : Machine S) where
  abbrev pub terminal_or : Exit → Run S (Unit {0})
  terminal_or e = if machine.isatty then pure tt else system_exit e

  abbrev pub given_or_typed : Option Chars → Prompt → Run S Chars
  given_or_typed (some given) prompt = pure given
  given_or_typed none prompt = do
    terminal_or (flag_required prompt)
    perform (asked prompt)
    entered_or (nothing_entered prompt) (strip (machine.typed prompt))

  -- `_prompt_or_die`
  abbrev pub prompt_or_die : Option Chars → Prompt → Run S Chars
  prompt_or_die value = given_or_typed (or_nothing value)

  -- `_prompt_for_users`
  unfoldable pub prompt_for_users : Run S Chars
  prompt_for_users = if is_nil machine.users_to_choose then system_exit no_user_list else do
    perform (asked users_prompt)
    entered_or no_users_selected (strip (machine.typed users_prompt))

  -- `_validate_users`
  unfoldable pub validate_users : List Chars → List Chars → Run S (List Chars)
  validate_users known requested =
      let unknown = keep (λ u. not (any (same_chars u) known)) requested in
      if is_nil known || is_nil unknown then pure requested else system_exit (unknown_users unknown)

  unfoldable pub given_or_chosen : Option Chars → Run S Chars
  unfolding prompt_for_users
  given_or_chosen (some users) = pure users
  given_or_chosen none = terminal_or users_required >> prompt_for_users

  -- `local_users`
  unfoldable pub read_users : Option Chars → Run S (List Chars)
  unfolding given_or_chosen validate_users
  read_users given = do
    users_arg ← given_or_chosen (or_nothing given)
    let local_users = users_list users_arg
    if machine.timekprd_ok
        then validate_users machine.users_to_check local_users
        else pure local_users

  -- `local_policies`, added to the dict of the names before.
  unfoldable pub collect_policies : List Chars → List (Chars × S) → List (Chars × S)
  collect_policies [] built = built
  collect_policies (u ∷ us) built = collect_policies us (
      if machine.timekprd_ok
      then elim (machine.snapshot u) [ none ↦ built | some snapshot ↦ put_value u snapshot built ]
      else built)

  unfoldable pub url_or_exit : HubUrl → Run S Chars
  url_or_exit (normalized url) = pure url
  url_or_exit empty_url = system_exit invalid_hub_url
  url_or_exit unsupported_scheme = system_exit invalid_hub_url

  -- What `HubClient.enroll` does: the token is in the file before it returns.
  abbrev pub store_token : Enrolled EnrollData → Run S EnrollData
  store_token (not_enrolled e) = system_exit (enroll_error e)
  store_token (device_enrolled answer) = do perform (saved_token answer.device_token); pure answer

  unfoldable pub enroll_or_exit : EnrollCall S → Run S EnrollData
  unfolding enroll
  enroll_or_exit call = do perform (posted call); store_token (enroll (machine.answer call))

  -- `systemctl enable`, and `systemctl restart` unless that failed; a failure is only printed.
  unfoldable pub start_service : Bool → Run S (Unit {0})
  start_service true = pure tt
  start_service false = do
    perform (ran enable_unit)
    if machine.succeeds enable_unit then perform (ran restart_unit) else pure tt

  -- What is sent to the hub, and what can end the command before.
  unfoldable pub prepare : Args → Run S (EnrollCall S)
  unfolding read_users collect_policies url_or_exit read_machine_id
  prepare args = do
    if machine.timekpr_found then pure tt else system_exit timekpr_not_found
    local_users ← read_users args.users
    let local_policies = collect_policies local_users []
    hub_url_input ← prompt_or_die args.hub_url hub_url_prompt
    hub_url ← url_or_exit (normalize_hub_url hub_url_input)
    code ← prompt_or_die args.code code_prompt
    host_id ←
        take_or no_machine_id
          (or_else (or_nothing args.machine_id) (read_machine_id machine.machine_id_files))
    pure (record {
      base_url = hub_url;
      enrollment_code = code;
      hostname = or_empty (or_else (or_nothing args.hostname) (some machine.gethostname));
      machine_id = host_id;
      local_users = local_users;
      local_policies = local_policies;
    })

  -- The rest of `_cmd_enroll` once the hub has answered.
  unfoldable pub apply_enrollment : Args → EnrollCall S → EnrollData → Run S (Unit {0})
  unfolding config_of start_service
  apply_enrollment args call answer = do
    perform owned_token
    perform (wrote_config (config_of args call answer))
    start_service args.no_start

  -- `_cmd_enroll`
  unfoldable pub cmd_enroll : Args → Run S (Unit {0})
  unfolding prepare enroll_or_exit apply_enrollment
  cmd_enroll args = do
    call ← prepare args
    answer ← enroll_or_exit call
    apply_enrollment args call answer

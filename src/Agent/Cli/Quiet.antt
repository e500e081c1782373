-- ===== src/Agent/Cli/Quiet.antt =====
-- The steps of `enroll` before the hub's answer change nothing: agent/timekpr_hub_agent/cli.py.
use timekpr_next_hub.Base.{
  keep-append, ◌≡◌, refl, ap, ◌∙◌, Bool, true, false, Option, none, some, List, [], ◌∷◌, ◌++◌, keep,
  any, not, ◌||◌, if-elim,
}
use timekpr_next_hub.Base.Chars.{Chars, is_nil, same_chars, strip}
use timekpr_next_hub.Agent.Config.{
  HubUrl, or_nothing, or_else, normalized, empty_url, unsupported_scheme, normalize_hub_url,
}
use timekpr_next_hub.Agent.Cli.{
  Prompt, Args, Exit, Machine, Effect, End, goes, exits, Run, after, ◌>>=◌, pure, system_exit,
  perform, asked, posted, saved_token, owned_token, wrote_config, ran, entered_or, take_or,
  terminal_or, given_or_typed, given_or_chosen, users_list, prompt_for_users, validate_users,
  read_users, url_or_exit, prepare, read_machine_id,
}

-- Not a prompt, nor a request.
abbrev pub is_change : {S : Type 0} → Effect S → Bool
is_change (asked p) = false
is_change (posted call) = false
is_change (saved_token token) = true
is_change owned_token = true
is_change (wrote_config text) = true
is_change (ran command) = true

abbrev pub changes : {S A : Type 0} → Run S A → List (Effect S)
changes (effects, end) = keep is_change effects

abbrev pub end_of : {S A : Type 0} → Run S A → End A
end_of (effects, end) = end

-- Nothing is changed.
pub record Quiet {S A : Type 0} (r : Run S A) : Type 0 where
  pub quiet : changes r ≡ []

module _ {S B : Type 0} where
  pub after-changes :
      (before : List (Effect S)) (r : Run S B)
      → keep is_change before ≡ []
      → changes (after before r) ≡ changes r
  after-changes before (later, end) h =
      keep-append is_change before later ∙ ap (λ l. l ++ keep is_change later) h

  pub after-end_of : (before : List (Effect S)) (r : Run S B) → end_of (after before r) ≡ end_of r
  after-end_of before (later, end) = refl

module _ {S A B : Type 0} where
  pub bind-Quiet :
      (r : Run S A) (f : A → Run S B) → Quiet r → ((a : A) → Quiet (f a)) → Quiet (r >>= f)
  bind-Quiet (before, goes a) f h k = record {
    quiet = after-changes before (f a) h.quiet ∙ (k a).quiet;
  }
  bind-Quiet (before, exits e) f h k = record { quiet = h.quiet }

still : {S A : Type 0} {r : Run S A} → changes r ≡ [] → Quiet r
still h = record { quiet = h }

module _ {S : Type 0} (machine : Machine S) where
  terminal_or-Quiet : (e : Exit) → Quiet (terminal_or machine e)
  terminal_or-Quiet e =
      if-elim Quiet machine.isatty (pure tt) (system_exit e) (λ h. still refl) (λ h. still refl)

  entered_or-Quiet : (e : Exit) (s : Chars) → Quiet (entered_or {S = S} e s)
  entered_or-Quiet e [] = still refl
  entered_or-Quiet e (c ∷ s) = still refl

  given_or_typed-Quiet :
      (given : Option Chars) (prompt : Prompt) → Quiet (given_or_typed machine given prompt)
  given_or_typed-Quiet (some given) prompt = still refl
  given_or_typed-Quiet none prompt =
      bind-Quiet _ _ (terminal_or-Quiet (Exit.flag_required prompt)) (λ u.
        bind-Quiet (perform (asked prompt)) _ (still refl)
          (λ v. entered_or-Quiet (Exit.nothing_entered prompt) (strip (machine.typed prompt))))

  prompt_for_users-Quiet : Quiet (prompt_for_users machine)
  unfolding prompt_for_users
  prompt_for_users-Quiet =
      if-elim Quiet (is_nil machine.users_to_choose) _ _ (λ h. still refl)
        (λ h. bind-Quiet (perform (asked Prompt.users_prompt)) _ (still refl) (λ v.
          entered_or-Quiet Exit.no_users_selected (strip (machine.typed Prompt.users_prompt))))

  validate_users-Quiet :
      (known requested : List Chars) → Quiet (validate_users machine known requested)
  unfolding validate_users
  validate_users-Quiet known requested =
      let unknown = keep (λ u. not (any (same_chars u) known)) requested in
      if-elim Quiet (is_nil known || is_nil unknown) (pure requested)
        (system_exit (Exit.unknown_users unknown)) (λ h. still refl) (λ h. still refl)

  given_or_chosen-Quiet : (given : Option Chars) → Quiet (given_or_chosen machine given)
  unfolding given_or_chosen
  given_or_chosen-Quiet (some users) = still refl
  given_or_chosen-Quiet none =
      bind-Quiet _ _ (terminal_or-Quiet Exit.users_required) (λ u. prompt_for_users-Quiet)

  read_users-Quiet : (given : Option Chars) → Quiet (read_users machine given)
  unfolding read_users
  read_users-Quiet given = bind-Quiet _ _ (given_or_chosen-Quiet (or_nothing given)) (λ users_arg.
      if-elim Quiet machine.timekprd_ok _ (pure (users_list users_arg))
        (λ h. validate_users-Quiet machine.users_to_check (users_list users_arg)) (λ h. still refl))

  url_or_exit-Quiet : (url : HubUrl) → Quiet (url_or_exit machine url)
  unfolding url_or_exit
  url_or_exit-Quiet (normalized url) = still refl
  url_or_exit-Quiet empty_url = still refl
  url_or_exit-Quiet unsupported_scheme = still refl

  take_or-Quiet : {A : Type 0} (e : Exit) (value : Option A) → Quiet (take_or {S = S} e value)
  take_or-Quiet e none = still refl
  take_or-Quiet e (some a) = still refl

  pub prepare-Quiet : (args : Args) → Quiet (prepare machine args)
  unfolding prepare
  prepare-Quiet args =
      bind-Quiet _ _
        (if-elim Quiet machine.timekpr_found (pure tt) (system_exit Exit.timekpr_not_found)
          (λ h. still refl) (λ h. still refl))
        (λ u. bind-Quiet _ _ (read_users-Quiet args.users) (λ local_users.
          bind-Quiet _ _ (given_or_typed-Quiet (or_nothing args.hub_url) Prompt.hub_url_prompt)
            (λ raw. bind-Quiet _ _ (url_or_exit-Quiet (normalize_hub_url raw)) (λ hub_url.
              bind-Quiet _ _ (given_or_typed-Quiet (or_nothing args.code) Prompt.code_prompt)
                (λ code.
                  bind-Quiet
                    (take_or Exit.no_machine_id (
                      or_else (or_nothing args.machine_id)
                        (read_machine_id machine.machine_id_files)))
                    _ (take_or-Quiet _ _) (λ host_id. still refl))))))

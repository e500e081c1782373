-- ===== src/Agent/Config.antt =====
-- agent/timekpr_hub_agent/config.py: the file agent.env, which `enroll` writes and `run` reads, and the
-- hub's URL. A text is its code points; a file that cannot be read is none.
pub mod EnvFile
use timekpr_next_hub.Base.{
  ℕ, ◌==◌, leb, ◌+◌, ◌&&◌, ◌||◌, not, Bool, true, false, Option, none, some, List, [], ◌∷◌, ◌++◌,
  map, any, if◌then◌else◌,
}
use timekpr_next_hub.Base.Chars.{
  Chars, codes, is_nil, same_chars, split_lines, join_lines, strip, rstrip, starts_with,
  partition_at,
}

-- A dict of texts, in the order of insertion.
abbrev pub EnvValues : Type 0
EnvValues = List (Chars × Chars)

abbrev pub url_key : Chars
url_key = codes "TIMEKPR_HUB_URL"

abbrev pub users_key : Chars
users_key = codes "TIMEKPR_HUB_MANAGED_USERS"

abbrev pub tz_key : Chars
tz_key = codes "TIMEKPR_HUB_TZ"

abbrev pub ca_key : Chars
ca_key = codes "TIMEKPR_HUB_CA_CERT"

-- `_KEYS`
abbrev pub env_keys : List Chars
env_keys = url_key ∷ users_key ∷ tz_key ∷ ca_key ∷ []

-- `values[key] = value`
unfoldable pub put_value {ℓ} : {V : Type ℓ} → Chars → V → List (Chars × V) → List (Chars × V)
put_value key value [] = (key, value) ∷ []
put_value key value ((k, v) ∷ rest) =
    let later = put_value key value rest in
    if same_chars k key then (k, value) ∷ rest else (k, v) ∷ later

unfoldable pub get_value : Chars → EnvValues → Option Chars
get_value key [] = none
get_value key ((k, v) ∷ rest) =
    let later = get_value key rest in if same_chars k key then some v else later

-- What one line of the file does to the values.
unfoldable pub read_line : Chars → EnvValues → EnvValues
read_line raw values =
    let line = strip raw in
    let (key, value) = partition_at b'=' line in
    let known = any (same_chars (strip key)) env_keys in
    if is_nil line || starts_with b'#' line || not (any (λ c. b'=' == c) line)
    then values
    else if known
    then put_value (strip key) (strip value) values
    else values

unfoldable pub read_lines : List Chars → EnvValues → EnvValues
read_lines [] values = values
read_lines (line ∷ lines) values = read_lines lines (read_line line values)

unfoldable pub read_env_file : Option Chars → EnvValues
read_env_file none = []
read_env_file (some text) = read_lines (split_lines text) []

-- `value or None`
abbrev pub or_nothing : Option Chars → Option Chars
or_nothing none = none
or_nothing (some []) = none
or_nothing (some (c ∷ s)) = some (c ∷ s)

abbrev pub or_else {ℓ} : {A : Type ℓ} → Option A → Option A → Option A
or_else none other = other
or_else (some a) other = some a

-- The process's environment, then the file, then nothing; an empty value counts as none.
unfoldable pub env_default : (Chars → Option Chars) → Chars → EnvValues → Option Chars
env_default environ key values =
    or_else (or_nothing (environ key)) (or_nothing (get_value key values))

abbrev pub or_empty : Option Chars → Chars
or_empty none = []
or_empty (some s) = s

abbrev pub entry : Chars → Chars → Chars
entry key value = key ++ (b'=' ∷ value)

abbrev pub written_comments : List Chars
written_comments =
    codes "# Written by `timekpr-hub-agent enroll` -- re-run enroll (with a new"
    ∷ codes "# code) rather than hand-editing this to move a device to a"
    ∷ codes "# different hub or re-manage a different set of users."
    ∷ []

-- The text that is written.
unfoldable pub write_env_file : Chars → Chars → Chars → Option Chars → Chars
write_env_file hub_url managed_users tz ca_cert = join_lines (
    written_comments
    ++ (entry url_key hub_url
        ∷ entry users_key managed_users
        ∷ entry tz_key tz
        ∷ entry ca_key (or_empty ca_cert)
        ∷ []
        ∷ []))

-- `prefix` at the start of a text.
abbrev pub begins : Chars → Chars → Bool
begins [] s = true
begins (c ∷ prefix) [] = false
begins (c ∷ prefix) (d ∷ s) = c == d && begins prefix s

-- `"://" in value`, and if so `value.split("://", 1)[0]`.
unfoldable pub split_scheme : Chars → Option Chars
split_scheme [] = none
split_scheme (c ∷ s) =
    let later : Option Chars = elim (split_scheme s) [
      | none ↦ none
      | some scheme ↦ some (c ∷ scheme)
    ] in
    if begins (codes "://") (c ∷ s) then some [] else later

-- `str.lower` on the letters of ASCII: no other letter has one of those of http and https for its
-- lower case.
abbrev pub lower : Chars → Chars
lower = map (λ c. if leb 65 c && leb c 90 then c + 32 else c)

pub data HubUrl : Type 0 where
  normalized : Chars → HubUrl
  empty_url unsupported_scheme : HubUrl

abbrev pub with_scheme : Chars → Chars
with_scheme value = elim (split_scheme value) [
  | none ↦ codes "http://" ++ value
  | some scheme ↦ value
]

-- `normalize_hub_url`: InvalidHubUrlError is one of the last two results.
unfoldable pub normalize_hub_url : Chars → HubUrl
unfolding split_scheme
normalize_hub_url raw =
    let value = with_scheme (strip raw) in
    let scheme = lower (or_empty (split_scheme value)) in
    if is_nil (strip raw)
    then empty_url
    else if same_chars scheme (codes "http") || same_chars scheme (codes "https")
    then normalized (rstrip (λ c. c == b'/') value)
    else unsupported_scheme

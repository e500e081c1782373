-- ===== src/Agent/Config/EnvFile.antt =====
-- What enrollment writes to agent.env is what the agent reads from it.
use timekpr_next_hub.Base.{
  ℕ, ◌==◌, ◌≡◌, refl, ap, ◌∙◌, true, false, Option, some, List, [], ◌∷◌, ◌++◌, any, All, arith,
}
use timekpr_next_hub.Base.Chars.{
  Chars, codes, same_chars, is_space, is_break, lstrip, rstrip, strip,
}
use timekpr_next_hub.Base.Chars.Lines.{IsLine, or_false, split_lines-join_lines}
use timekpr_next_hub.Base.Chars.Strip.{rstrip-append, lstrip-cons, partition_at-append}
use timekpr_next_hub.Agent.Config.{
  EnvValues, url_key, users_key, tz_key, ca_key, env_keys, put_value, read_line, read_lines,
  read_env_file, or_empty, entry, written_comments, write_env_file,
}

-- A text on one line that strips to itself.
abbrev pub IsClean : Chars → Type 0
IsClean v = (lstrip is_space v ≡ v) × (rstrip is_space v ≡ v) × IsLine v

-- What is asked of a key: no blank at its ends, no comment, no equals sign, and it is one of the known.
abbrev IsKnown : ℕ → Chars → Type 0
IsKnown c k =
    (is_space c ≡ false)
    × (strip (c ∷ k) ≡ c ∷ k)
    × ((b'#' == c) ≡ false)
    × (any (λ d. b'=' == d) (c ∷ k) ≡ false)
    × (any (same_chars (c ∷ k)) env_keys ≡ true)

equals_found : (s t : Chars) → any (λ d. b'=' == d) (s ++ (b'=' ∷ t)) ≡ true
equals_found [] t = refl
equals_found (d ∷ s) t = let ih = equals_found s t in ground arith

strip-entry :
    (c : ℕ) (k v : Chars) → IsKnown c k → IsClean v → strip (entry (c ∷ k) v) ≡ entry (c ∷ k) v
unfolding is_space
strip-entry c k v key clean =
    ap (rstrip is_space) (lstrip-cons is_space c (k ++ (b'=' ∷ v)) key.0)
    ∙ rstrip-append is_space (c ∷ k) v b'=' refl clean.1

strip-clean : (v : Chars) → IsClean v → strip v ≡ v
strip-clean v clean = rw (clean.0) clean.1

read_line-entry :
    (c : ℕ) (k v : Chars) (values : EnvValues)
    → IsKnown c k
    → IsClean v
    → read_line (entry (c ∷ k) v) values ≡ put_value (c ∷ k) v values
unfolding read_line
read_line-entry c k v values key clean =
    rw
      (
        strip-entry c k v key clean,
        key.2,
        equals_found (c ∷ k) v,
        partition_at-append b'=' (c ∷ k) v key.3,
        key.1,
        key.4,
        strip-clean v clean,
      )
      refl

-- The comments and the empty last line change nothing.
read_lines-comments :
    (lines : List Chars) → read_lines (written_comments ++ lines) [] ≡ read_lines lines []
unfolding read_line is_space read_lines rstrip lstrip
read_lines-comments lines = refl

comments-IsLine : All IsLine written_comments
unfolding is_break
comments-IsLine = (refl, (refl, (refl, tt)))

module _ (hub_url managed_users tz : Chars) (ca_cert : Option Chars) where
  abbrev written_entries : List Chars
  written_entries =
      entry url_key hub_url
      ∷ entry users_key managed_users
      ∷ entry tz_key tz
      ∷ entry ca_key (or_empty ca_cert)
      ∷ []

entry-IsLine : (k v : Chars) → IsLine k → IsLine v → IsLine (entry k v)
unfolding is_break
entry-IsLine [] v hk hv = hv
entry-IsLine (c ∷ k) v hk hv =
    let (no_break, more) = or_false (is_break c) (any is_break k) hk in
    let later = entry-IsLine k v more hv in rw (no_break) later

hub_url_entry : IsKnown b'T' (codes "IMEKPR_HUB_URL")
unfolding is_space lstrip rstrip
hub_url_entry = (refl, refl, refl, refl, refl)

users_entry : IsKnown b'T' (codes "IMEKPR_HUB_MANAGED_USERS")
unfolding is_space lstrip rstrip
users_entry = (refl, refl, refl, refl, refl)

tz_entry : IsKnown b'T' (codes "IMEKPR_HUB_TZ")
unfolding is_space lstrip rstrip
tz_entry = (refl, refl, refl, refl, refl)

ca_entry : IsKnown b'T' (codes "IMEKPR_HUB_CA_CERT")
unfolding is_space lstrip rstrip
ca_entry = (refl, refl, refl, refl, refl)

keys-IsLine : All IsLine env_keys
unfolding is_break
keys-IsLine = (refl, (refl, (refl, (refl, tt))))

-- Whatever the four values are, when each stands on one line and strips to itself, the file that
-- `enroll` writes is read back as exactly these four, the missing certificate as an empty text.
pub read_env_file-write_env_file :
    (hub_url managed_users tz : Chars) (ca_cert : Option Chars)
    → IsClean hub_url
    → IsClean managed_users
    → IsClean tz
    → IsClean (or_empty ca_cert)
    → read_env_file (some (write_env_file hub_url managed_users tz ca_cert))
      ≡ (url_key, hub_url)
        ∷ (users_key, managed_users)
        ∷ (tz_key, tz)
        ∷ (ca_key, or_empty ca_cert)
        ∷ []
unfolding read_env_file write_env_file read_lines put_value
read_env_file-write_env_file hub_url managed_users tz ca_cert hu hm ht hc =
    let written = written_entries hub_url managed_users tz ca_cert in
    let all_lines : All IsLine (written_comments ++ written) = (
      comments-IsLine.0,
      (
        comments-IsLine.1.0,
        (
          comments-IsLine.1.1.0,
          (
            entry-IsLine url_key hub_url keys-IsLine.0 hu.2,
            (
              entry-IsLine users_key managed_users keys-IsLine.1.0 hm.2,
              (
                entry-IsLine tz_key tz keys-IsLine.1.1.0 ht.2,
                (entry-IsLine ca_key (or_empty ca_cert) keys-IsLine.1.1.1.0 hc.2, tt),
              ),
            ),
          ),
        ),
      ),
    ) in
    rw
      (
        split_lines-join_lines (written_comments ++ written) all_lines,
        read_lines-comments written,
        read_line-entry b'T' _ hub_url [] hub_url_entry hu,
        read_line-entry b'T' _ managed_users _ users_entry hm,
        read_line-entry b'T' _ tz _ tz_entry ht,
        read_line-entry b'T' _ (or_empty ca_cert) _ ca_entry hc,
      )
      refl

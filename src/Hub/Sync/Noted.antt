-- ===== src/Hub/Sync/Noted.antt =====
-- What a report of api/sync.py writes of a counter and an alias, written again.
use timekpr_next_hub.Base.{
  ℕ, ◌≡◌, refl, sym, ap, ◌∙◌, ◌==◌, ◌&&◌, String, Bool, true, Option, some, List, [], ◌∷◌, ◌++◌,
  arith, map, find, if◌then◌else◌, if-elim, Bool-cases, inl, inr,
}
use timekpr_next_hub.Base.Int.{ℤ, max_ℤ}
use timekpr_next_hub.Core.Models.{ActivityState}
use timekpr_next_hub.Hub.Rows.{insert_or_update}
use timekpr_next_hub.Hub.Tables.{User, UserAlias, Policy}
use timekpr_next_hub.Hub.Aggregate.{UsageCounter, upsert_usage_counter, counter_of}
use timekpr_next_hub.Hub.Aggregate.Stamps.{stamped}
use timekpr_next_hub.Hub.Provision.{Accounts, has_user_id, alias_of}
use timekpr_next_hub.Hub.Provision.Keyed.{found_first, found_later}
use timekpr_next_hub.Hub.Provision.Settled.{IsSettled}
use timekpr_next_hub.Hub.Sync.{note_error}

-- An update that is made again changes the row's time only.
insert_or_update-again :
    (same : UsageCounter → Bool) (update update' : UsageCounter → UsageCounter)
    (row row' : UsageCounter) (now' : ℤ) (rows : List UsageCounter)
    → same row ≡ true
    → update' row ≡ record row { updated_at = now' }
    → ((c : UsageCounter) → same c ≡ true → same (update c) ≡ true)
    → ((c : UsageCounter) → update' (update c) ≡ record (update c) { updated_at = now' })
    → insert_or_update same update' row' (insert_or_update same update row rows)
      ≡ stamped same now' (insert_or_update same update row rows)
unfolding insert_or_update
insert_or_update-again same update update' row row' now' [] own fixed keeps twice =
    rw (own) (ap (λ c. c ∷ []) fixed)
insert_or_update-again same update update' row row' now' (c ∷ rows) own fixed keeps twice =
    if-elim (λ out. insert_or_update same update' row' out ≡ stamped same now' out) (same c)
      (update c ∷ rows) (c ∷ insert_or_update same update row rows)
      (λ hit. rw (keeps c hit) (ap (λ x. x ∷ rows) (twice c)))
      (λ miss. rw (miss) (
        ap (λ later. c ∷ later)
          (insert_or_update-again same update update' row row' now' rows own fixed keeps twice)))

max_again : (a b : ℤ) → max_ℤ (max_ℤ a b) b ≡ max_ℤ a b
unfolding max_ℤ
max_again a b = ground arith

max_same : (a : ℤ) → max_ℤ a a ≡ a
unfolding max_ℤ
max_same a = ground arith

own_key : (u d n : ℕ) → ((u == u) && ((d == d) && (n == n))) ≡ true
own_key u d n = ground arith

pub upsert_usage_counter-again :
    (counters : List UsageCounter) (u d n : ℕ) (s : ℤ) (state : Option ActivityState) (now now' : ℤ)
    → upsert_usage_counter (upsert_usage_counter counters u d n s state now) u d n s state now'
      ≡ stamped (counter_of u d n) now' (upsert_usage_counter counters u d n s state now)
unfolding upsert_usage_counter
upsert_usage_counter-again counters u d n s state now now' =
    insert_or_update-again (counter_of u d n) (λ c. changed (max_ℤ c.spent_seconds s) now c)
      (λ c. changed (max_ℤ c.spent_seconds s) now' c) (row now) (row now') now' counters
      (own_key u d n) (ap (λ v. changed v now' (row now)) (max_same s)) (λ c h. h)
      (λ c. ap (λ v. changed v now' c) (max_again c.spent_seconds s))
  where
    changed : ℤ → ℤ → UsageCounter → UsageCounter
    changed v at c = record c { spent_seconds = v; activity_state = state; updated_at = at }

    row : ℤ → UsageCounter
    row at = record {
      user_id = u;
      device_id = d;
      day = n;
      spent_seconds = s;
      activity_state = state;
      updated_at = at;
    }

pub append_nil {ℓ} : {A : Type ℓ} (xs : List A) → xs ++ [] ≡ xs
append_nil [] = refl
append_nil (x ∷ xs) = ap (λ rest. x ∷ rest) (append_nil xs)

-- Noting the same error again changes nothing, and an alias is found as before.
module _ (device_id : ℕ) (username : String) (error : Option String) (now : ℤ) where
  abbrev pub note : UserAlias → UserAlias
  note = note_error device_id username error now

  note_key : (a : UserAlias) (d : ℕ) (n : String) → alias_of d n (note a) ≡ alias_of d n a
  note_key a d n =
      if-elim (λ out. alias_of d n out ≡ alias_of d n a) (alias_of device_id username a) _ _
        (λ _. refl) (λ _. refl)

  find-map_note :
      (rows : List UserAlias) (a : UserAlias)
      → find (alias_of device_id username) rows ≡ some a
      → find (alias_of device_id username) (map note rows) ≡ some (note a)
  find-map_note [] a h = cc
  find-map_note (b ∷ rows) a h = elim (Bool-cases (alias_of device_id username b)) [
    | inl hit ↦
        ap (λ t. if t then some (note b) else find (alias_of device_id username) (map note rows))
          (note_key b device_id username ∙ hit)
        ∙ ap (λ x. some (note x)) (sym (found_first (alias_of device_id username b) b _ a hit h))
    | inr miss ↦
        ap (λ t. if t then some (note b) else find (alias_of device_id username) (map note rows))
          (note_key b device_id username ∙ miss)
        ∙ find-map_note rows a (found_later (alias_of device_id username b) b _ a miss h)
  ]

  pub note_user : (a : UserAlias) → (note a).user_id ≡ a.user_id
  note_user a =
      if-elim (λ (out : UserAlias). out.user_id ≡ a.user_id) (alias_of device_id username a) _ _
        (λ _. refl) (λ _. refl)

  abbrev pub noted : Accounts → Accounts
  noted st = record st { aliases = map note st.aliases }

  pub noted-IsSettled :
      (st : Accounts) (user : User) (policy : Policy)
      → IsSettled st device_id username user policy
      → IsSettled (noted st) device_id username user policy
  noted-IsSettled st user policy h = record {
    alias = note h.alias;
    alias_found = find-map_note st.aliases h.alias h.alias_found;
    user_found = ap (λ id. find (has_user_id id) st.users) (note_user h.alias) ∙ h.user_found;
    policy_found = h.policy_found;
  }

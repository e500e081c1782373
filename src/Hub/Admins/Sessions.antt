-- ===== src/Hub/Admins/Sessions.antt =====
-- Which tokens work: after a login, after a change of the password, and after an account is deleted.
use timekpr_next_hub.Base.{
  ℕ, ◌≡◌, ◌≢◌, refl, sym, ap, ◌∙◌, ◌==◌, ==_iff, ◌&&◌, ltb, not, String, str_eq, eq_iff, Bool, true,
  false, Option, none, some, List, [], ◌∷◌, arith, find, keep, if◌then◌else◌, if-elim, Bool-cases,
  Option-cases, inl, inr,
}
use timekpr_next_hub.Base.Int.{ℤ, ltb_ℤ}
use timekpr_next_hub.Hub.Rows.{delete_one}
use timekpr_next_hub.Hub.Provision.Keyed.{find_holds, found_first, found_later}
use timekpr_next_hub.Hub.Sync.Lookup.{none_is_not_some}
use timekpr_next_hub.Hub.Admins.{
  Admin, AdminSession, AdminTables, Hashes, Request, has_admin_id, has_session_hash,
  get_admin_by_session_token, delete_other_sessions, is_other_session, delete_admin, deleted,
  unknown_admin, Reply, count_admins, audited, admin_event,
}
use timekpr_next_hub.Hub.Admins.Handlers.{change_admin_own_password}

module _ {A : Type 0} where
  -- What is found of the rows that are kept is one of them.
  find-keep_holds :
      (p q : A → Bool) (xs : List A) (a : A) → find p (keep q xs) ≡ some a → q a ≡ true
  find-keep_holds p q [] a h = cc
  find-keep_holds p q (x ∷ xs) a h = elim (Bool-cases (q x)) [
    | inl stays ↦ elim (Bool-cases (p x)) [
      | inl hit ↦ ap q (found_first (p x) x _ a hit (kept_here (q x) stays h)) ∙ stays
      | inr miss ↦ find-keep_holds p q xs a (found_later (p x) x _ a miss (kept_here (q x) stays h))
    ]
    | inr goes ↦ find-keep_holds p q xs a (gone_here (q x) goes h)
  ]
    where
      kept_here :
          (b : Bool)
          → b ≡ true
          → find p (if b then x ∷ keep q xs else keep q xs) ≡ some a
          → find p (x ∷ keep q xs) ≡ some a
      kept_here true e k = k
      kept_here false e k = cc

      gone_here :
          (b : Bool)
          → b ≡ false
          → find p (if b then x ∷ keep q xs else keep q xs) ≡ some a
          → find p (keep q xs) ≡ some a
      gone_here true e k = cc
      gone_here false e k = k

module _ (hashes : Hashes) (st : AdminTables) (now : ℤ) (token : String) where
  abbrev hashed : String
  hashed = hashes.hash_token token

  -- The lookup, when the session is known.
  pub lookup_with :
      (s : AdminSession)
      → find (has_session_hash hashed) st.sessions ≡ some s
      → get_admin_by_session_token hashes st now token
        ≡ (if ltb_ℤ s.expires_at now then none else find (has_admin_id s.admin_id) st.admins)
  unfolding get_admin_by_session_token
  lookup_with s e = rw (e, get_admin_by_session_token) refl

  lookup_without :
      find (has_session_hash hashed) st.sessions ≡ none
      → get_admin_by_session_token hashes st now token ≡ none
  unfolding get_admin_by_session_token
  lookup_without e = rw (e, get_admin_by_session_token) refl

  -- Whoever a token signs in is the admin of a session with the token's hash.
  signed_in_by :
      (admin : Admin)
      → get_admin_by_session_token hashes st now token ≡ some admin
      → (s : AdminSession) × (find (has_session_hash hashed) st.sessions ≡ some s)
        × (admin.id ≡ s.admin_id)
  signed_in_by admin h = elim (Option-cases (find (has_session_hash hashed) st.sessions)) [
    | inl none_there ↦ absurd (none_is_not_some admin (sym (lookup_without none_there) ∙ h))
    | inr (s, e) ↦ (
      s,
      e,
      (==_iff admin.id s.admin_id).0 (
          find_holds (has_admin_id s.admin_id) st.admins admin
            (in_time (ltb_ℤ s.expires_at now) _ admin (sym (lookup_with s e) ∙ h))),
    )
  ]
    where
      in_time :
          (b : Bool) (o : Option Admin) (a : Admin) → (if b then none else o) ≡ some a → o ≡ some a
      in_time true o a k = cc
      in_time false o a k = k

  -- And where sessions were taken away, it is one that was kept.
  session_kept :
      (admin : Admin) (q : AdminSession → Bool) (sessions : List AdminSession)
      → st.sessions ≡ keep q sessions
      → get_admin_by_session_token hashes st now token ≡ some admin
      → (s : AdminSession) × (q s ≡ true)
        × (has_session_hash hashed s ≡ true)
        × (admin.id ≡ s.admin_id)
  session_kept admin q sessions kept h =
      let (s, found, e) = signed_in_by admin h in
      let here : find (has_session_hash hashed) (keep q sessions) ≡ some s =
        sym (ap (find (has_session_hash hashed)) kept) ∙ found in
      (
        s,
        find-keep_holds (has_session_hash hashed) q sessions s here,
        find_holds (has_session_hash hashed) st.sessions s found,
        e,
      )

delete_admin-sessions :
    (st : AdminTables) (request : Request) (target_admin_id actor_admin_id : ℕ)
    → (delete_admin st request target_admin_id actor_admin_id).1 ≡ deleted
    → (delete_admin st request target_admin_id actor_admin_id).0.sessions
      ≡ keep (λ (s : AdminSession). not (s.admin_id == target_admin_id)) st.sessions
unfolding delete_admin
delete_admin-sessions st request target_admin_id actor_admin_id =
    if-elim
      (λ (out : AdminTables × Reply).
        out.1 ≡ deleted
        → out.0.sessions
          ≡ keep (λ (s : AdminSession). not (s.admin_id == target_admin_id)) st.sessions)
      (ltb 1 (count_admins st)) _ _ (λ _. of_found (find (has_admin_id target_admin_id) st.admins))
      (λ _ e. cc)
  where
    of_found :
        (found : Option Admin)
        → let out : AdminTables × Reply = elim found [
          | none ↦ (st, unknown_admin)
          | some target ↦ (
            record (audited st
                (admin_event request actor_admin_id "admin.deleted" (some target_admin_id))) {
                  admins = delete_one (has_admin_id target_admin_id) st.admins;
                  sessions =
                      keep (λ (s : AdminSession). not (s.admin_id == target_admin_id)) st.sessions;
                },
            deleted,
          )
        ] in
          out.1 ≡ deleted
          → out.0.sessions
            ≡ keep (λ (s : AdminSession). not (s.admin_id == target_admin_id)) st.sessions
    of_found none e = cc
    of_found (some target) e = refl

change_admin_own_password-sessions :
    (hashes : Hashes) (st : AdminTables) (request : Request) (me : Admin)
    (salt current_password new_password session_token : String)
    → hashes.verify me.password_hash current_password ≡ true
    → (change_admin_own_password hashes st request me salt current_password new_password
        session_token).0.sessions
      ≡ keep
          (λ s. not (is_other_session hashes me.id (hashes.hash_token session_token) s))
          st.sessions
unfolding change_admin_own_password delete_other_sessions
change_admin_own_password-sessions hashes st request me salt current_password new_password
      session_token verified =
    rw (verified) refl

other_id : (a b : ℕ) → not (a == b) ≡ true → a ≡ b → ⊥
other_id a b h e = ground arith

kept_session :
    (a b : ℕ) (hash keep_hash : String)
    → not ((a == b) && not (str_eq hash keep_hash)) ≡ true
    → a ≡ b
    → hash ≢ keep_hash
    → ⊥
kept_session a b hash keep_hash h e apart = elim (Bool-cases (str_eq hash keep_hash)) [
  | inl same ↦ apart ((eq_iff hash keep_hash).0 same)
  | inr other ↦ contradiction (a == b) _ ((==_iff a b).1 e) other h
]
  where
    contradiction : (p q : Bool) → p ≡ true → q ≡ false → not (p && not q) ≡ true → ⊥
    contradiction p q x y z = ground arith

-- Once an admin is deleted, no token signs that admin in.
pub delete_admin-signs_out :
    (hashes : Hashes) (st : AdminTables) (request : Request) (target_admin_id actor_admin_id : ℕ)
    (now : ℤ) (token : String) (admin : Admin)
    → (delete_admin st request target_admin_id actor_admin_id).1 ≡ deleted
    → get_admin_by_session_token hashes
        (delete_admin st request target_admin_id actor_admin_id).0
        now
        token
      ≡ some admin
    → admin.id ≢ target_admin_id
delete_admin-signs_out hashes st request target_admin_id actor_admin_id now token admin done h =
    let (s, stays, hit, e) =
      session_kept hashes _ now token admin (λ s. not (s.admin_id == target_admin_id)) st.sessions
        (delete_admin-sessions st request target_admin_id actor_admin_id done) h in
    λ same. other_id s.admin_id target_admin_id stays (sym e ∙ same)

-- Once an admin's password is changed, a token signs that admin in only if it has the hash of the session
-- that made the change.
pub change_admin_own_password-signs_out :
    (hashes : Hashes) (st : AdminTables) (request : Request) (me : Admin)
    (salt current_password new_password session_token : String) (now : ℤ) (token : String)
    (admin : Admin)
    → hashes.verify me.password_hash current_password ≡ true
    → hashes.hash_token token ≢ hashes.hash_token session_token
    → get_admin_by_session_token hashes
        (change_admin_own_password hashes st request me salt current_password new_password
          session_token).0
        now
        token
      ≡ some admin
    → admin.id ≢ me.id
change_admin_own_password-signs_out hashes st request me salt current_password new_password
      session_token now token admin verified other h =
    let keep_hash = hashes.hash_token session_token in
    let (s, stays, hit, e) =
      session_kept hashes _ now token admin (λ s. not (is_other_session hashes me.id keep_hash s))
        st.sessions
        (change_admin_own_password-sessions hashes st request me salt current_password new_password
          session_token verified)
        h in
    λ same.
      kept_session s.admin_id me.id s.token_hash keep_hash stays (sym e ∙ same)
        (λ k. other (sym ((eq_iff s.token_hash (hashes.hash_token token)).0 hit) ∙ k))

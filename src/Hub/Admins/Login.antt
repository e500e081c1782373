-- ===== src/Hub/Admins/Login.antt =====
-- A login's token signs its admin in until it expires.
use timekpr_next_hub.Base.{
  ◌≡◌, refl, ◌∙◌, String, str_eq, eq_refl, Bool, true, false, Option, none, some, arith, find, any,
  if◌then◌else◌,
}
use timekpr_next_hub.Base.Int.{ℤ, ◌+ℤ◌, ◌≤ℤ◌, ltb_ℤ}
use timekpr_next_hub.Hub.Provision.Keyed.{find-append_new}
use timekpr_next_hub.Hub.Admins.{
  Admin, AdminTables, Hashes, Request, has_admin_id, has_email, has_session_hash, session_ttl,
  create_session, signed_in, audited, admin_event,
}
use timekpr_next_hub.Hub.Admins.Handlers.{Draw, login_submit, get_current_admin_api}
use timekpr_next_hub.Hub.Admins.Sessions.{lookup_with}

not_expired : (now expires : ℤ) → now ≤ℤ expires → ltb_ℤ expires now ≡ false
not_expired now expires h = ground arith

-- An admin who logs in with the account's email and password is given a token that signs the admin in
-- until thirty days have passed: the token is not empty, no session has its hash yet, and the admin's
-- id is unique.
pub login_submit-signs_in :
    (hashes : Hashes) (st : AdminTables) (request : Request) (draw : Draw) (email password : String)
    (admin : Admin) (now : ℤ)
    → find (has_email email) st.admins ≡ some admin
    → find (has_admin_id admin.id) st.admins ≡ some admin
    → hashes.verify admin.password_hash password ≡ true
    → str_eq draw.token "" ≡ false
    → any (has_session_hash (hashes.hash_token draw.token)) st.sessions ≡ false
    → now ≤ℤ (request.now +ℤ session_ttl)
    → let (st', reply) = login_submit hashes st request draw email password in
      (reply ≡ signed_in draw.token)
      × (get_current_admin_api hashes st' now (some draw.token) ≡ some admin)
unfolding get_current_admin_api create_session login_submit
login_submit-signs_in hashes st request draw email password admin now named unique verified given
      fresh in_time =
    rw (named, login_submit, verified)
      (
        refl,
        if_not _ given (
            lookup_with hashes
              (audited (create_session hashes st request admin.id draw.token)
                (admin_event request admin.id "admin.login" (some admin.id)))
              now draw.token _
              (find-append_new (has_session_hash (hashes.hash_token draw.token)) st.sessions _ fresh
                (eq_refl (hashes.hash_token draw.token)))
            ∙ if_not _ (not_expired now (request.now +ℤ session_ttl) in_time) unique),
      )
  where
    if_not :
        (b : Bool) {o : Option Admin}
        → b ≡ false
        → o ≡ some admin
        → (if b then none else o) ≡ some admin
    if_not b h e = rw (h) e

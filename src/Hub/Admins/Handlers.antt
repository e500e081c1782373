-- ===== src/Hub/Admins/Handlers.antt =====
-- The handlers of hub/timekpr_hub/api/admin_auth.py, and the change of a password. A failed flush (the
-- email is unique) rolls its whole transaction back.
use timekpr_next_hub.Base.{
  ℕ, ◌==◌, String, str_eq, Option, none, some, [], ◌∷◌, ◌++◌, map, find, any, if◌then◌else◌,
}
use timekpr_next_hub.Base.Int.{ℤ}
use timekpr_next_hub.Hub.Audit.{record_audit_event}
use timekpr_next_hub.Hub.Enrollment.{Claim, redeem_invite}
use timekpr_next_hub.Hub.Admins.{
  Admin, AdminTables, Hashes, Request, Reply, any_admin_exists, has_email, audited, admin_event,
  create_session, delete_session, delete_other_sessions, get_admin_by_session_token, not_found,
  unauthorized, conflict, changed, logged_out, login_failed, gone, signed_in,
}

-- What a handler draws: the id of a new admin, a salt and a session's token.
pub record Draw : Type 0 where
  pub admin_id : ℕ
  pub salt : String
  pub token : String

module _ (hashes : Hashes) where
  -- The row and the session of a new admin.
  abbrev pub with_admin : AdminTables → Draw → String → String → AdminTables
  with_admin st draw email password = record st {
    admins =
        st.admins
        ++ record {
          id = draw.admin_id;
          email = email;
          password_hash = hashes.hash draw.salt password;
        }
          ∷ [];
  }

  unfoldable pub setup_submit : AdminTables → Request → Draw → String → String → AdminTables × Reply
  unfolding any_admin_exists create_session
  setup_submit st request draw email password = if any_admin_exists st then (st, not_found) else (
    create_session hashes (with_admin st draw email password) request draw.admin_id draw.token,
    signed_in draw.token,
  )

  unfoldable pub login_submit : AdminTables → Request → Draw → String → String → AdminTables × Reply
  unfolding create_session record_audit_event
  login_submit st request draw email password = elim (find (has_email email) st.admins) [
    | none ↦ (st, login_failed)
    | some admin ↦
        if hashes.verify admin.password_hash password
        then (
          audited (create_session hashes st request admin.id draw.token)
              (admin_event request admin.id "admin.login" (some admin.id)),
          signed_in draw.token,
        )
        else (st, login_failed)
  ]

  -- `if token:`, of the cookie's value.
  unfoldable pub logout : AdminTables → Option String → AdminTables × Reply
  unfolding delete_session
  logout st none = (st, logged_out)
  logout st (some token) =
      if str_eq token "" then (st, logged_out) else (delete_session hashes st token, logged_out)

  unfoldable pub invite_submit :
      AdminTables → Request → Draw → String → String → String → AdminTables × Reply
  unfolding redeem_invite create_session record_audit_event
  invite_submit st request draw invite_token email password =
      let (claim, invites) = redeem_invite st.invites invite_token request.now in
      elim claim [
        | Claim.claimed ↦ if any (has_email email) st.admins then (st, conflict) else (
          create_session hashes
              (audited (with_admin (record st { invites = invites }) draw email password)
                (admin_event request draw.admin_id "admin.created" (some draw.admin_id)))
              request draw.admin_id draw.token,
          signed_in draw.token,
        )
        | refused ↦ (st, gone refused)
      ]

  -- `get_current_admin_api`: none is the 401.
  unfoldable pub get_current_admin_api : AdminTables → ℤ → Option String → Option Admin
  unfolding get_admin_by_session_token
  get_current_admin_api st now none = none
  get_current_admin_api st now (some token) =
      if str_eq token "" then none else get_admin_by_session_token hashes st now token

  -- `change_admin_own_password`, for the admin of the session's token.
  unfoldable pub change_admin_own_password :
      AdminTables → Request → Admin → String → String → String → String → AdminTables × Reply
  unfolding delete_other_sessions record_audit_event
  change_admin_own_password st request admin salt current_password new_password session_token =
      if hashes.verify admin.password_hash current_password
      then (
        audited
            (delete_other_sessions hashes
              (record st {
                admins =
                    map
                      (λ (a : Admin).
                        if a.id == admin.id
                        then record a { password_hash = hashes.hash salt new_password }
                        else a)
                      st.admins;
              })
              admin.id session_token)
            (admin_event request admin.id "admin.password_changed" (some admin.id)),
        changed,
      )
      else (st, unauthorized)

-- ===== src/Hub/Admins.antt =====
-- The admins' accounts, sessions and invites: hub/timekpr_hub/services/admin_auth.py, the handlers of
-- api/admin_auth.py and those of api/admin/admins.py that change them. argon2 and sha256 are
-- parameters; ids, salts and tokens that are drawn are arguments, and so is the clock. A handler
-- gives the tables as its transaction leaves them.
pub mod Handlers
pub mod Sessions
pub mod Login
pub mod Accounts
pub mod Race
mod Tests
use timekpr_next_hub.Base.{
  ℕ, suc, ◌==◌, ◌&&◌, not, ltb, String, str_eq, Bool, true, false, Option, none, some, List, [],
  ◌∷◌, ◌++◌, map, find, keep, any, length, if◌then◌else◌,
}
use timekpr_next_hub.Base.Int.{ℤ, pos, ◌+ℤ◌, ltb_ℤ}
use timekpr_next_hub.Hub.Rows.{delete_one}
use timekpr_next_hub.Hub.Audit.{AuditLog, record_audit_event}
use timekpr_next_hub.Hub.Enrollment.{OneTimeCode, Claim, claimed, redeem_invite}

pub record Admin : Type 0 where
  pub id : ℕ
  pub email : String
  pub password_hash : String

pub record AdminSession : Type 0 where
  pub admin_id : ℕ
  pub token_hash : String
  pub expires_at : ℤ
  pub ip : Option String
  pub user_agent : Option String

pub record AdminTables : Type 0 where
  pub admins : List Admin
  pub sessions : List AdminSession
  pub invites : List OneTimeCode
  pub audit : List AuditLog

-- `PasswordHasher`, with its salt drawn, and `hash_token`.
pub record Hashes : Type 0 where
  pub hash : String → String → String
  pub verify : String → String → Bool
  pub hash_token : String → String

-- What a request brings of its sender, and when it arrives.
pub record Request : Type 0 where
  pub now : ℤ
  pub ip : Option String
  pub user_agent : Option String

-- 30 days, and 24 hours.
abbrev pub session_ttl : ℤ
session_ttl = pos 2_592_000_000_000

abbrev pub invite_ttl : ℤ
invite_ttl = pos 86_400_000_000

abbrev pub has_admin_id : ℕ → Admin → Bool
has_admin_id id a = a.id == id

abbrev pub has_email : String → Admin → Bool
has_email email a = str_eq a.email email

abbrev pub has_session_hash : String → AdminSession → Bool
has_session_hash token_hash s = str_eq s.token_hash token_hash

unfoldable pub any_admin_exists : AdminTables → Bool
any_admin_exists st = any (λ (a : Admin). true) st.admins

unfoldable pub count_admins : AdminTables → ℕ
count_admins st = length st.admins

abbrev pub audited : AdminTables → AuditLog → AdminTables
audited st event = record st { audit = record_audit_event st.audit event }

-- An event of an admin about an admin.
abbrev pub admin_event : Request → ℕ → String → Option ℕ → AuditLog
admin_event request actor_id action target_id = record {
  ts = request.now;
  actor_type = "admin";
  actor_id = actor_id;
  action = action;
  target_type = elim target_id [ none ↦ none | some id ↦ some "admin" ];
  target_id = target_id;
  ip = request.ip;
}

module _ (hashes : Hashes) where
  unfoldable pub create_session : AdminTables → Request → ℕ → String → AdminTables
  create_session st request admin_id raw_token = record st {
    sessions =
        st.sessions
        ++ record {
          admin_id = admin_id;
          token_hash = hashes.hash_token raw_token;
          expires_at = request.now +ℤ session_ttl;
          ip = request.ip;
          user_agent = request.user_agent;
        }
          ∷ [];
  }

  unfoldable pub get_admin_by_session_token : AdminTables → ℤ → String → Option Admin
  get_admin_by_session_token st now raw_token =
      elim (find (has_session_hash (hashes.hash_token raw_token)) st.sessions) [
        | none ↦ none
        | some s ↦ if ltb_ℤ s.expires_at now then none else find (has_admin_id s.admin_id) st.admins
      ]

  unfoldable pub delete_session : AdminTables → String → AdminTables
  unfolding delete_one
  delete_session st raw_token = record st {
    sessions = delete_one (has_session_hash (hashes.hash_token raw_token)) st.sessions;
  }

  abbrev pub is_other_session : ℕ → String → AdminSession → Bool
  is_other_session admin_id keep_hash s =
      s.admin_id == admin_id && not (str_eq s.token_hash keep_hash)

  unfoldable pub delete_other_sessions : AdminTables → ℕ → String → AdminTables
  delete_other_sessions st admin_id keep_token = record st {
    sessions =
        keep (λ s. not (is_other_session admin_id (hashes.hash_token keep_token) s)) st.sessions;
  }

-- `create_invite` and its audit row.
unfoldable pub mint_admin_invite : AdminTables → Request → ℕ → String → AdminTables
unfolding record_audit_event
mint_admin_invite st request actor_admin_id raw_token =
    audited
      (record st {
        invites =
            st.invites
            ++ record { code = raw_token; expires_at = request.now +ℤ invite_ttl; used_at = none }
              ∷ [];
      })
      (admin_event request actor_admin_id "admin.invite_created" none)

-- The answers of the handlers, without the pages that they show. A session's token stands for
-- the cookie that is set.
pub data Reply : Type 0 where
  not_found unauthorized conflict deleted changed logged_out login_failed unknown_admin : Reply
  gone : Claim → Reply
  signed_in : String → Reply

-- `delete_admin_account` and the handler of DELETE /admins/{admin_id}: a row that goes takes the admin's
-- sessions with it (ON DELETE CASCADE).
unfoldable pub delete_admin : AdminTables → Request → ℕ → ℕ → AdminTables × Reply
unfolding count_admins delete_one record_audit_event
delete_admin st request target_admin_id actor_admin_id =
    if ltb 1 (count_admins st)
    then elim (find (has_admin_id target_admin_id) st.admins) [
      | none ↦ (st, unknown_admin)
      | some target ↦ (
        record (audited st
            (admin_event request actor_admin_id "admin.deleted" (some target_admin_id))) {
              admins = delete_one (has_admin_id target_admin_id) st.admins;
              sessions =
                  keep (λ (s : AdminSession). not (s.admin_id == target_admin_id)) st.sessions;
            },
        deleted,
      )
    ]
    else (st, conflict)

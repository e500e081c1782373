-- ===== src/Hub/Admins/Tests.antt =====
-- The admins' theorems at a hub of two admins. A hash stands for argon2 that keeps the salt in front.
use timekpr_next_hub.Base.{ℕ, ◌≡◌, ◌≢◌, ◌≤◌, refl, String, str_eq, false, none, [], ◌∷◌, arith}
use timekpr_next_hub.Base.Int.{pos}
use timekpr_next_hub.Hub.Admins.{
  Admin, AdminSession, AdminTables, Hashes, Request, count_admins, not_found,
  get_admin_by_session_token, delete_admin,
}
use timekpr_next_hub.Hub.Admins.Handlers.{Draw, setup_submit, change_admin_own_password}
use timekpr_next_hub.Hub.Admins.Sessions.{change_admin_own_password-signs_out}
use timekpr_next_hub.Hub.Admins.Accounts.{here, next, deletes, Reach-stays_claimed}
use timekpr_next_hub.Hub.Admins.Race.{Deletions, both_begun, both_begun-empties}
use timekpr_next_hub.Hub.Admins.Race as Race

abbrev plain : Hashes
plain = record {
  hash = λ salt password. password;
  verify = λ hashed password. str_eq hashed password;
  hash_token = λ token. token;
}

abbrev eve : Admin
eve = record { id = 1; email = "eve@example.org"; password_hash = "secret-e" }

abbrev joe : Admin
joe = record { id = 2; email = "joe@example.org"; password_hash = "secret-j" }

abbrev session : ℕ → String → AdminSession
session admin_id token_hash = record {
  admin_id = admin_id;
  token_hash = token_hash;
  expires_at = pos 1000;
  ip = none;
  user_agent = none;
}

abbrev tables : AdminTables
tables = record {
  admins = eve ∷ joe ∷ [];
  sessions = session 1 "t1" ∷ session 2 "t2" ∷ session 1 "t3" ∷ [];
  invites = record { code = "invite"; expires_at = pos 500; used_at = none } ∷ [];
  audit = [];
}

abbrev request : Request
request = record { now = pos 100; ip = none; user_agent = none }

abbrev draw : Draw
draw = record { admin_id = 3; salt = "s"; token = "t9" }

change_admin_own_password-signs_out_example : joe.id ≢ eve.id
unfolding change_admin_own_password get_admin_by_session_token
change_admin_own_password-signs_out_example =
    change_admin_own_password-signs_out plain tables request eve "s" "secret-e" "better-e" "t1"
      (pos 200) "t2" joe refl (λ e. cc (e, apart)) refl
  where
    apart : str_eq "t2" "t1" ≡ false
    apart = refl

Reach-stays_claimed_example :
    (1 ≤ count_admins (delete_admin tables request 1 2).0)
    × (setup_submit plain (delete_admin tables request 1 2).0 request draw "x" "y"
        ≡ ((delete_admin tables request 1 2).0, not_found))
unfolding count_admins
Reach-stays_claimed_example =
    Reach-stays_claimed plain tables (delete_admin tables request 1 2).0 request draw "x" "y"
      (omega arith) (next here (deletes request 1 2))

both_begun-empties_example :
    (end : Deletions) × Race.Reach (both_begun eve joe) end × (end.admins ≡ [])
both_begun-empties_example = both_begun-empties eve joe (λ e. omega (arith, e))

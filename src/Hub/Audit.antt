-- ===== src/Hub/Audit.antt =====
-- hub/timekpr_hub/services/audit.py: the append-only record of what admins do. The time of a row is an
-- argument; what a row keeps of the changed values is left out.
use timekpr_next_hub.Base.{
  ℕ, ◌==◌, ◌&&◌, String, str_eq, Bool, true, false, Option, none, some, List, [], ◌∷◌, ◌++◌, keep,
  drop, take, if◌then◌else◌,
}
use timekpr_next_hub.Base.Int.{ℤ, ltb_ℤ}

pub record AuditLog : Type 0 where
  pub ts : ℤ
  pub actor_type : String
  pub actor_id : ℕ
  pub action : String
  pub target_type : Option String
  pub target_id : Option ℕ
  pub ip : Option String

unfoldable pub record_audit_event : List AuditLog → AuditLog → List AuditLog
record_audit_event rows event = rows ++ event ∷ []

-- ORDER BY ts DESC
abbrev pub insert_newest : AuditLog → List AuditLog → List AuditLog
insert_newest e [] = e ∷ []
insert_newest e (r ∷ rows) =
    let later = insert_newest e rows in if ltb_ℤ e.ts r.ts then r ∷ later else e ∷ r ∷ rows

abbrev pub newest_first : List AuditLog → List AuditLog
newest_first [] = []
newest_first (r ∷ rows) = insert_newest r (newest_first rows)

-- A filter that is given, on a column that may be NULL.
abbrev pub matches_id : Option ℕ → Option ℕ → Bool
matches_id none column = true
matches_id (some wanted) none = false
matches_id (some wanted) (some id) = id == wanted

abbrev pub matches_type : Option String → Option String → Bool
matches_type none column = true
matches_type (some wanted) none = false
matches_type (some wanted) (some name) = str_eq name wanted

abbrev pub is_asked : Option ℕ → Option String → Option ℕ → AuditLog → Bool
is_asked actor_id target_type target_id e =
    matches_id actor_id (some e.actor_id)
    && (matches_type target_type e.target_type && matches_id target_id e.target_id)

unfoldable pub list_audit_events :
    List AuditLog → ℕ → ℕ → Option ℕ → Option String → Option ℕ → List AuditLog
list_audit_events rows limit offset actor_id target_type target_id =
    take limit (drop offset (newest_first (keep (is_asked actor_id target_type target_id) rows)))

-- ===== src/Hub/Enrollment.antt =====
-- Codes that work once, and the devices that they enroll: hub/timekpr_hub/api/enroll.py and api/auth.py,
-- services/devices.py, and the invites of services/admin_auth.py. A token's hash (services/tokens.py) is
-- what is stored; the new id and token are arguments.
pub mod Once
pub mod Devices
use timekpr_next_hub.Base.{
  ℕ, ◌==◌, ◌&&◌, not, String, str_eq, Bool, true, false, Option, none, some, List, [], ◌∷◌, ◌++◌,
  map, find, if◌then◌else◌,
}
use timekpr_next_hub.Base.Int.{ℤ, leb_ℤ}
use timekpr_next_hub.Core.Models.{EnforcementMode}
use timekpr_next_hub.Hub.Rows.{delete_one}

-- A row of `enrollment_codes` or `admin_invites`, as far as claiming it goes.
pub record OneTimeCode : Type 0 where
  pub code : String
  pub expires_at : ℤ
  pub used_at : Option ℤ

pub data Claim : Type 0 where
  claimed unknown already_used expired : Claim

abbrev pub is_unused : Option ℤ → Bool
is_unused none = true
is_unused (some at) = false

-- WHERE code = ... AND used_at IS NULL AND expires_at >= now
abbrev pub is_claimable : String → ℤ → OneTimeCode → Bool
is_claimable code now row =
    str_eq row.code code && (is_unused row.used_at && leb_ℤ now row.expires_at)

abbrev pub has_code : String → OneTimeCode → Bool
has_code code row = str_eq row.code code

-- UPDATE ... SET used_at = now
unfoldable pub mark_used : String → ℤ → List OneTimeCode → List OneTimeCode
mark_used code now [] = []
mark_used code now (row ∷ rest) =
    let later = mark_used code now rest in
    if is_claimable code now row then record row { used_at = some now } ∷ later else row ∷ later

-- Why a code could not be claimed.
abbrev pub refusal : Option OneTimeCode → Claim
refusal none = unknown
refusal (some row) = elim row.used_at [ none ↦ expired | some at ↦ already_used ]

-- The claim of `enroll`, and its three refusals.
unfoldable pub claim_enrollment_code : List OneTimeCode → String → ℤ → Claim × List OneTimeCode
unfolding mark_used
claim_enrollment_code codes code now = elim (find (is_claimable code now) codes) [
  | some row ↦ (claimed, mark_used code now codes)
  | none ↦ (refusal (find (has_code code) codes), codes)
]

-- `redeem_invite` makes the same statement on `admin_invites`.
unfoldable pub redeem_invite : List OneTimeCode → String → ℤ → Claim × List OneTimeCode
unfolding claim_enrollment_code
redeem_invite invites token now = claim_enrollment_code invites token now

pub data DeviceStatus : Type 0 where
  active revoked : DeviceStatus

abbrev pub is_revoked : DeviceStatus → Bool
is_revoked active = false
is_revoked revoked = true

pub record Device : Type 0 where
  pub id : ℕ
  pub name : String
  pub machine_id : String
  pub token_hash : String
  pub status : DeviceStatus
  pub enforcement : EnforcementMode
  pub agent_version : String
  pub clock_skew_ms : Option ℤ
  pub enrolled_at : ℤ
  pub last_seen_at : Option ℤ
  pub last_sync_at : Option ℤ

-- machine_id = ... AND status <> 'revoked'
abbrev pub is_live_on : String → Device → Bool
is_live_on machine_id d = str_eq d.machine_id machine_id && not (is_revoked d.status)

-- The part of `enroll` that binds the machine to a device: the one that is live on it, or a new one.
unfoldable pub bind_device : List Device → ℕ → String → String → String → String → ℤ → List Device
bind_device [] new_id machine_id hostname token_hash agent_version now =
    record {
      id = new_id;
      name = hostname;
      machine_id = machine_id;
      token_hash = token_hash;
      status = active;
      enforcement = EnforcementMode.enforce;
      agent_version = agent_version;
      clock_skew_ms = none;
      enrolled_at = now;
      last_seen_at = none;
      last_sync_at = none;
    }
    ∷ []
bind_device (d ∷ rest) new_id machine_id hostname token_hash agent_version now =
    let later = bind_device rest new_id machine_id hostname token_hash agent_version now in
    if is_live_on machine_id d
    then record d {
      token_hash = token_hash;
      name = hostname;
      agent_version = agent_version;
      status = active;
    }
      ∷ rest
    else d ∷ later

-- `get_current_device`: 401, 403, or the device.
pub data Authentication : Type 0 where
  unauthorized forbidden : Authentication
  authenticated : Device → Authentication

abbrev pub has_token : String → Device → Bool
has_token token_hash d = str_eq d.token_hash token_hash

unfoldable pub get_current_device : List Device → String → Authentication
get_current_device devices token_hash = elim (find (has_token token_hash) devices) [
  | none ↦ unauthorized
  | some d ↦ if is_revoked d.status then forbidden else authenticated d
]

-- `revoke_device` and `set_device_enforcement`, on the rows with the id, of which there is one.
unfoldable pub revoke_device : List Device → ℕ → List Device
revoke_device devices id =
    map (λ (d : Device). if d.id == id then record d { status = revoked } else d) devices

unfoldable pub set_device_enforcement : List Device → ℕ → EnforcementMode → List Device
set_device_enforcement devices id mode =
    map (λ (d : Device). if d.id == id then record d { enforcement = mode } else d) devices

unfoldable pub delete_device : List Device → ℕ → List Device
unfolding delete_one
delete_device devices id = delete_one (λ (d : Device). d.id == id) devices

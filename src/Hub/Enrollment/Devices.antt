-- ===== src/Hub/Enrollment/Devices.antt =====
-- One live device for a machine, and the tokens that stop working.
use timekpr_next_hub.Base.{
  ℕ, ◌≤◌, ◌≡◌, inl, inr, refl, ap, ◌∙◌, ◌&&◌, not, ◌==◌, ==_iff, String, str_eq, eq_refl, Bool,
  true, false, Option, some, List, [], ◌∷◌, arith, find, if◌then◌else◌, if-elim, Bool-cases,
}
use timekpr_next_hub.Base.Int.{ℤ}
use timekpr_next_hub.Hub.Rows.{selected}
use timekpr_next_hub.Hub.Enrollment.{
  Device, revoked, is_revoked, is_live_on, has_token, bind_device, revoke_device,
  get_current_device, forbidden,
}

live_now : (machine_id : String) → (str_eq machine_id machine_id && true) ≡ true
live_now machine_id = rw (eq_refl machine_id) refl

still_live : (a b : Bool) → (a && b) ≡ true → (a && true) ≡ true
still_live a b h = ground arith

-- After an enrollment a machine has exactly one live device, if it had one at most: the one that was
-- live on it, bound again, or a new one.
pub bind_device-one_live :
    (devices : List Device) (new_id : ℕ) (machine_id hostname token_hash agent_version : String)
    (now : ℤ)
    → selected (is_live_on machine_id) devices ≤ 1
    → selected
        (is_live_on machine_id)
        (bind_device devices new_id machine_id hostname token_hash agent_version now)
      ≡ 1
unfolding bind_device
bind_device-one_live [] new_id machine_id hostname token_hash agent_version now h =
    rw (live_now machine_id) refl
bind_device-one_live (d ∷ rest) new_id machine_id hostname token_hash agent_version now h = ground (
  arith,
  still_live (str_eq d.machine_id machine_id) (not (is_revoked d.status)),
  bind_device-one_live rest new_id machine_id hostname token_hash agent_version now,
)

found_head :
    (x d : Device) (b : Bool) (o : Option Device)
    → b ≡ true
    → (if b then some x else o) ≡ some d
    → x ≡ d
found_head x d true o e h = cc
found_head x d false o e h = cc

found_tail : (x : Device) (b : Bool) (o : Option Device) → b ≡ false → o ≡ (if b then some x else o)
found_tail x true o e = cc
found_tail x false o e = refl

abbrev turned : ℕ → Device → Device
turned id d = if d.id == id then record d { status = revoked } else d

turned-has_token :
    (token_hash : String) (id : ℕ) (d : Device)
    → has_token token_hash (turned id d) ≡ has_token token_hash d
turned-has_token token_hash id d =
    if-elim (λ e. has_token token_hash e ≡ has_token token_hash d) (d.id == id) _ _ (λ h. refl)
      (λ h. refl)

turned_here : (d : Device) → turned d.id d ≡ record d { status = revoked }
turned_here d = rw ((==_iff d.id d.id).1 refl) refl

find-revoked :
    (devices : List Device) (token_hash : String) (id : ℕ) (d : Device)
    → find (has_token token_hash) devices ≡ some d
    → find (has_token token_hash) (revoke_device devices id) ≡ some (turned id d)
unfolding revoke_device
find-revoked [] token_hash id d h = cc
find-revoked (x ∷ rest) token_hash id d h = elim (Bool-cases (has_token token_hash x)) [
  | inl hit ↦
      let same : x ≡ d =
        found_head x d (has_token token_hash x) (find (has_token token_hash) rest) hit h in
      rw (turned-has_token token_hash id x, hit) (ap (λ e. some (turned id e)) same)
  | inr miss ↦
      rw (turned-has_token token_hash id x, miss)
        (find-revoked rest token_hash id d
          (found_tail x (has_token token_hash x) (find (has_token token_hash) rest) miss ∙ h))
]

-- The token of a revoked device is answered with 403, whatever the device's status was.
pub get_current_device-revoked :
    (devices : List Device) (token_hash : String) (d : Device)
    → find (has_token token_hash) devices ≡ some d
    → get_current_device (revoke_device devices d.id) token_hash ≡ forbidden
unfolding get_current_device
get_current_device-revoked devices token_hash d h =
    let found = find-revoked devices token_hash d.id d h ∙ ap some (turned_here d) in
    rw (found, get_current_device) refl

-- ===== src/Agent/HubClient.antt =====
-- `HubClient.sync` of agent/timekpr_hub_agent/hubclient.py: the request, and the one retry with a token
-- that another process has written. The hub behind a POST and the token file are parameters.
use timekpr_next_hub.Base.{
  ℕ, ◌≡◌, sym, ap, ◌∙◌, ◌⊎◌, inl, inr, refl, ◌==◌, ◌&&◌, ◌||◌, not, String, str_eq, Bool, true,
  false, Option, none, some, List, [], ◌∷◌, ltb, arith, if◌then◌else◌, Bool-cases,
}

-- `_post`: a status and a body, or a failure of the network.
pub data Post (Data : Type 0) : Type 0 where
  status : ℕ → Data → Post Data
  no_network : Post Data

-- What `sync` returns or raises; `no_token` is the RuntimeError of `_headers`.
pub data Outcome (Data : Type 0) : Type 0 where
  answered : Data → Outcome Data
  device_revoked hub_unreachable no_token : Outcome Data

-- What `enroll` raises.
pub data EnrollError : Type 0 where
  cannot_reach unknown_code code_used code_expired : EnrollError
  hub_returned : ℕ → EnrollError

-- What `enroll` returns or raises.
pub data Enrolled (Data : Type 0) : Type 0 where
  device_enrolled : Data → Enrolled Data
  not_enrolled : EnrollError → Enrolled Data

-- `enroll`, from the answer to its request; the token that it saves is in the data.
unfoldable pub enroll : {Data : Type 0} → Post Data → Enrolled Data
enroll no_network = not_enrolled cannot_reach
enroll (status code body) =
    if code == 404
    then not_enrolled unknown_code
    else if code == 409
    then not_enrolled code_used
    else if code == 410
    then not_enrolled code_expired
    else if ltb 399 code
    then not_enrolled (hub_returned code)
    else device_enrolled body

-- 401 or 403
abbrev pub is_rejected : ℕ → Bool
is_rejected code = code == 401 || code == 403

-- `fresh_token and fresh_token != self._token`
abbrev pub is_newer : Option String → Option String → Bool
is_newer none held = false
is_newer (some fresh) none = not (str_eq fresh "")
is_newer (some fresh) (some held) = not (str_eq fresh "") && not (str_eq fresh held)

-- `if not self._token`
abbrev pub holds_token : Option String → Bool
holds_token none = false
holds_token (some token) = not (str_eq token "")

second_false : (a b : Bool) → a ≡ true → (a && b) ≡ false → b ≡ false
second_false a b h k = ground arith

module _ {Data : Type 0} where
  -- The end of `sync`, after the last request.
  abbrev pub outcome_of : Post Data → Outcome Data
  outcome_of no_network = hub_unreachable
  outcome_of (status code body) =
      if is_rejected code
      then device_revoked
      else if ltb 399 code
      then hub_unreachable
      else answered body

  -- The requests of `sync`, where the client holds a token.
  unfoldable pub sync_with_token :
      (Option String → Post Data)
      → Option String
      → Option String
      → Option String × List (Option String) × Outcome Data
  sync_with_token post file held = elim (post held) [
    | no_network ↦ (held, held ∷ [], hub_unreachable)
    | status code body ↦
        if is_rejected code && is_newer file held
        then (file, held ∷ file ∷ [], outcome_of (post file))
        else (held, held ∷ [], outcome_of (status code body))
  ]

  -- The token that the client then holds, the tokens that were sent, and the outcome.
  unfoldable pub sync :
      (Option String → Post Data)
      → Option String
      → Option String
      → Option String × List (Option String) × Outcome Data
  unfolding sync_with_token
  sync post file held =
      if holds_token held then sync_with_token post file held else (held, [], no_token)

  -- A post that a token was rejected in.
  abbrev pub Rejected : Post Data → Type 0
  Rejected p = (code : ℕ) × (body : Data) × (p ≡ status code body) × (is_rejected code ≡ true)

  not_rejected :
      (b : Bool) (o : Outcome Data)
      → b ≡ false
      → (if b then device_revoked else o) ≡ device_revoked
      → o ≡ device_revoked
  not_rejected true o e h = cc
  not_rejected false o e h = h

  not_device_revoked :
      (b : Bool) (body : Data) → (if b then hub_unreachable else answered body) ≡ device_revoked → ⊥
  not_device_revoked true body h = cc
  not_device_revoked false body h = cc

  Post-cases :
      (p : Post Data) → (p ≡ no_network) ⊎ ((code : ℕ) × (body : Data) × (p ≡ status code body))
  Post-cases no_network = inl refl
  Post-cases (status code body) = inr (code, body, refl)

  refused :
      (code : ℕ) (body : Data)
      → outcome_of (status code body) ≡ device_revoked
      → is_rejected code ≡ true
  refused code body h = elim (Bool-cases (is_rejected code)) [
    | inl yes_refused ↦ yes_refused
    | inr other ↦
        absurd (not_device_revoked (ltb 399 code) body (not_rejected (is_rejected code) _ other h))
  ]

  outcome_of-Rejected : (p : Post Data) → outcome_of p ≡ device_revoked → Rejected p
  outcome_of-Rejected no_network h = cc
  outcome_of-Rejected (status code body) h = (code, body, refl, refused code body h)

  lost_answer :
      (post : Option String → Post Data) (file held : Option String)
      → post held ≡ no_network
      → (sync_with_token post file held).2 ≡ device_revoked
      → ⊥
  unfolding sync_with_token
  lost_answer post file held lost h =
      let e : (sync_with_token post file held).2 ≡ hub_unreachable =
        rw (lost, sync_with_token) refl in
      cc

  sync_answered :
      (post : Option String → Post Data) (file held : Option String) (code : ℕ) (body : Data)
      → post held ≡ status code body
      → (sync_with_token post file held).2 ≡ device_revoked
      → Rejected (post (sync_with_token post file held).0)
        × ((is_newer file held ≡ false) ⊎ ((sync_with_token post file held).0 ≡ file))
  unfolding sync_with_token
  sync_answered post file held code body got h =
      elim (Bool-cases (is_rejected code && is_newer file held)) [
        | inl again ↦
            let e : sync_with_token post file held
                ≡ (file, held ∷ file ∷ [], outcome_of (post file)) =
              rw (got, again, sync_with_token) refl in
            rw (e) (outcome_of-Rejected (post file) (sym (ap (λ r. r.2) e) ∙ h), inr refl)
        | inr once ↦
            let e : sync_with_token post file held
                ≡ (held, held ∷ [], outcome_of (status code body)) =
              rw (got, once, sync_with_token) refl in
            let r = refused code body (sym (ap (λ r. r.2) e) ∙ h) in
            rw (e) (
              (code, body, got, r),
              inl (second_false (is_rejected code) (is_newer file held) r once),
            )
      ]

  not_raised : (o : Outcome Data) → o ≡ no_token → o ≡ device_revoked → ⊥
  not_raised o e h = cc

  sent-device_revoked :
      (post : Option String → Post Data) (file held : Option String)
      → (sync_with_token post file held).2 ≡ device_revoked
      → Rejected (post (sync_with_token post file held).0)
        × ((is_newer file held ≡ false) ⊎ ((sync_with_token post file held).0 ≡ file))
  sent-device_revoked post file held h = elim (Post-cases (post held)) [
    | inl lost ↦ absurd (lost_answer post file held lost h)
    | inr (code, body, got) ↦ sync_answered post file held code body got h
  ]

  -- The client takes itself for revoked only when the hub has rejected the token that it then holds,
  -- and no newer token was in the file when it was rejected, or the newer one was rejected too.
  pub sync-device_revoked :
      (post : Option String → Post Data) (file held : Option String)
      → (sync post file held).2 ≡ device_revoked
      → Rejected (post (sync post file held).0)
        × ((is_newer file held ≡ false) ⊎ ((sync post file held).0 ≡ file))
  unfolding sync
  sync-device_revoked post file held h = elim (Bool-cases (holds_token held)) [
    | inl token ↦
        let e : sync post file held ≡ sync_with_token post file held = rw (token, sync) refl in
        rw (e) (sent-device_revoked post file held (sym (ap (λ r. r.2) e) ∙ h))
    | inr missing ↦
        let e : sync post file held ≡ (held, [], no_token) = rw (missing, sync) refl in
        absurd (not_raised (sync post file held).2 (ap (λ r. r.2) e) h)
  ]

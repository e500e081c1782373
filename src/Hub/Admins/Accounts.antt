-- ===== src/Hub/Admins/Accounts.antt =====
-- The hub keeps an admin: no sequence of requests deletes the last one.
use timekpr_next_hub.Base.{
  ℕ, suc, ◌≡◌, ◌≤◌, ◌<◌, refl, ap, ltb, ltb→lt, String, str_eq, Bool, true, Option, none, some,
  List, [], ◌∷◌, ◌++◌, arith, map, find, any, length, length-append, if-elim, Option-elim,
}
use timekpr_next_hub.Hub.Rows.{delete_one}
use timekpr_next_hub.Hub.Enrollment.{Claim, redeem_invite}
use timekpr_next_hub.Hub.Admins.{
  Admin, AdminTables, Hashes, Request, Reply, not_found, gone, any_admin_exists, count_admins,
  has_admin_id, has_email, delete_admin, mint_admin_invite, create_session, delete_session,
  delete_other_sessions,
}
use timekpr_next_hub.Hub.Admins.Handlers.{
  Draw, setup_submit, login_submit, logout, invite_submit, change_admin_own_password,
}

-- One request that changes the tables, handled on its own.
pub data Step (hashes : Hashes) (st : AdminTables) : AdminTables → Type 0 where
  sets_up :
      (request : Request) (draw : Draw) (email password : String)
      → Step hashes st (setup_submit hashes st request draw email password).0
  logs_in :
      (request : Request) (draw : Draw) (email password : String)
      → Step hashes st (login_submit hashes st request draw email password).0
  logs_out : (token : Option String) → Step hashes st (logout hashes st token).0
  invites :
      (request : Request) (actor : ℕ) (token : String)
      → Step hashes st (mint_admin_invite st request actor token)
  accepts :
      (request : Request) (draw : Draw) (invite_token email password : String)
      → Step hashes st (invite_submit hashes st request draw invite_token email password).0
  changes :
      (request : Request) (admin : Admin) (salt current new session_token : String)
      → Step hashes st
          (change_admin_own_password hashes st request admin salt current new session_token).0
  deletes :
      (request : Request) (target actor : ℕ)
      → Step hashes st (delete_admin st request target actor).0

pub data Reach (hashes : Hashes) (st : AdminTables) : AdminTables → Type 0 where
  here : Reach hashes st st
  next : {t u : AdminTables} → Reach hashes st t → Step hashes t u → Reach hashes st u

-- There is an admin after a request.
record IsKept (out : AdminTables × Reply) : Type 0 where
  kept : 1 ≤ length out.0.admins

keep_it : {out : AdminTables × Reply} → 1 ≤ length out.0.admins → IsKept out
keep_it h = record { kept = h }

-- There is an admin.
abbrev pub IsClaimed : AdminTables → Type 0
IsClaimed st = 1 ≤ length st.admins

length-delete_one :
    {A : Type 0} (p : A → Bool) (xs : List A) → length xs ≤ suc (length (delete_one p xs))
unfolding delete_one
length-delete_one p [] = omega arith
length-delete_one p (x ∷ xs) = ground (arith, length-delete_one p xs)

length-map : {A B : Type 0} (f : A → B) (xs : List A) → length (map f xs) ≡ length xs
length-map f [] = refl
length-map f (x ∷ xs) = ap suc (length-map f xs)

kept_length : {A B : Type 0} (f : A → B) (xs : List A) → 1 ≤ length xs → 1 ≤ length (map f xs)
kept_length f xs h = omega (arith, length-map f xs)

-- A property of what becomes of a claim.
Claim-elim {ℓ κ} :
    {B : Type ℓ} (P : B → Type κ) (claim : Claim) (taken : B) (refused : Claim → B)
    → P taken
    → ((c : Claim) → P (refused c))
    → P (elim claim [ Claim.claimed ↦ taken | c ↦ refused c ])
Claim-elim P Claim.claimed taken refused h k = h
Claim-elim P Claim.unknown taken refused h k = k Claim.unknown
Claim-elim P Claim.already_used taken refused h k = k Claim.already_used
Claim-elim P Claim.expired taken refused h k = k Claim.expired

one_left : {n m : ℕ} → 1 < n → n ≤ suc m → 1 ≤ m
one_left h k = omega arith

grown : (xs : List Admin) (a : Admin) → 1 ≤ length (xs ++ a ∷ [])
grown xs a = omega (arith, length-append xs (a ∷ []))

delete_admin-IsClaimed :
    (st : AdminTables) (request : Request) (target actor : ℕ)
    → IsClaimed st
    → IsClaimed (delete_admin st request target actor).0
unfolding delete_admin count_admins
delete_admin-IsClaimed st request target actor h =
    if-elim (λ (out : AdminTables × Reply). IsClaimed out.0) (ltb 1 (length st.admins)) _ _
      (λ more.
        Option-elim (λ (out : AdminTables × Reply). IsClaimed out.0)
          (find (has_admin_id target) st.admins) _ _ (λ _. h)
          (λ _ _. one_left (ltb→lt 1 _ more) (length-delete_one (has_admin_id target) st.admins)))
      (λ _. h)

module _ (hashes : Hashes) (st : AdminTables) (request : Request) (h : IsClaimed st) where
  setup_submit-IsKept :
      (draw : Draw) (email password : String)
      → IsKept (setup_submit hashes st request draw email password)
  unfolding setup_submit create_session
  setup_submit-IsKept draw email password =
      if-elim IsKept (any_admin_exists st) _ _ (λ _. keep_it h) (λ _. keep_it (grown st.admins _))

  login_submit-IsKept :
      (draw : Draw) (email password : String)
      → IsKept (login_submit hashes st request draw email password)
  unfolding login_submit create_session
  login_submit-IsKept draw email password =
      Option-elim IsKept (find (has_email email) st.admins) _ _ (λ _. keep_it h)
        (λ admin _.
          if-elim IsKept (hashes.verify admin.password_hash password) _ _ (λ _. keep_it h)
            (λ _. keep_it h))

  invite_submit-IsKept :
      (draw : Draw) (invite_token email password : String)
      → IsKept (invite_submit hashes st request draw invite_token email password)
  unfolding invite_submit create_session
  invite_submit-IsKept draw invite_token email password =
      Claim-elim IsKept (redeem_invite st.invites invite_token request.now).0 _ (λ c. (st, gone c))
        (if-elim IsKept (any (has_email email) st.admins) _ _ (λ _. keep_it h)
          (λ _. keep_it (grown st.admins _)))
        (λ _. keep_it h)

  change_admin_own_password-IsKept :
      (admin : Admin) (salt current new session_token : String)
      → IsKept (change_admin_own_password hashes st request admin salt current new session_token)
  unfolding change_admin_own_password delete_other_sessions
  change_admin_own_password-IsKept admin salt current new session_token =
      if-elim IsKept (hashes.verify admin.password_hash current) _ _
        (λ _. keep_it (kept_length _ st.admins h)) (λ _. keep_it h)

Step-IsClaimed :
    {hashes : Hashes} {st st' : AdminTables} → Step hashes st st' → IsClaimed st → IsClaimed st'
unfolding logout mint_admin_invite delete_session
Step-IsClaimed {hashes = hashes} {st = st} (sets_up request draw email password) h =
    (setup_submit-IsKept hashes st request h draw email password).kept
Step-IsClaimed {hashes = hashes} {st = st} (logs_in request draw email password) h =
    (login_submit-IsKept hashes st request h draw email password).kept
Step-IsClaimed (logs_out none) h = h
Step-IsClaimed (logs_out (some token)) h =
    if-elim (λ (out : AdminTables × Reply). IsClaimed out.0) (str_eq token "") _ _ (λ _. h) (λ _. h)
Step-IsClaimed (invites request actor token) h = h
Step-IsClaimed {hashes = hashes} {st = st} (accepts request draw invite_token email password) h =
    (invite_submit-IsKept hashes st request h draw invite_token email password).kept
Step-IsClaimed {hashes = hashes} {st = st} (changes request admin salt current new session_token)
      h =
    (change_admin_own_password-IsKept hashes st request h admin salt current new session_token).kept
Step-IsClaimed {st = st} (deletes request target actor) h =
    delete_admin-IsClaimed st request target actor h

Reach-IsClaimed :
    {hashes : Hashes} {st st' : AdminTables} → Reach hashes st st' → IsClaimed st → IsClaimed st'
Reach-IsClaimed here h = h
Reach-IsClaimed (next run step) h = Step-IsClaimed step (Reach-IsClaimed run h)

claimed_exists : (xs : List Admin) → 1 ≤ length xs → any (λ (a : Admin). true) xs ≡ true
claimed_exists [] h = absurd (omega arith)
claimed_exists (a ∷ xs) h = refl

-- Once the hub has an admin, it has one after every sequence of requests that are handled one after
-- another, deletions included, and the setup page, which would make an account for whoever comes, stays
-- shut and changes nothing.
pub Reach-stays_claimed :
    (hashes : Hashes) (st st' : AdminTables) (request : Request) (draw : Draw)
    (email password : String)
    → 1 ≤ count_admins st
    → Reach hashes st st'
    → (1 ≤ count_admins st')
      × (setup_submit hashes st' request draw email password ≡ (st', not_found))
unfolding count_admins setup_submit any_admin_exists
Reach-stays_claimed hashes st st' request draw email password h run =
    let kept = Reach-IsClaimed run h in (kept, rw (claimed_exists st'.admins kept) refl)

-- ===== src/Agent/State/File/Saved.antt =====
-- What `load` of agent/timekpr_hub_agent/state.py has returned is saved and loaded again as it was.
use timekpr_next_hub.Base.{
  ℕ, ◌≡◌, refl, sym, ap, ◌∙◌, subst, Bool, false, ◌||◌, Option, none, some, List, [], ◌∷◌, ◌++◌,
  any, All, if-elim, arith,
}
use mathlib.Core.List.{append-nil}
use timekpr_next_hub.Base.Chars.{Chars, codes, same_chars}
use timekpr_next_hub.Agent.Config.{put_value}
use timekpr_next_hub.Agent.State.File.{
  Json, Members, File, SavedState, Loaded, no_members, member, text, object, array, null, boolean,
  number, holds, missing, unreadable, corrupt, loaded, crashed, member_of, complete,
  text_or_nothing, user_fields, load_users, users_from, load_value, load, users_value, save,
}

same_chars_sym : (s t : Chars) → same_chars s t ≡ same_chars t s
same_chars_sym [] [] = refl
same_chars_sym [] (d ∷ t) = refl
same_chars_sym (c ∷ s) [] = refl
same_chars_sym (c ∷ s) (d ∷ t) = let ih = same_chars_sym s t in ground arith

or_false : (a b : Bool) → (a || b) ≡ false → (a ≡ false) × (b ≡ false)
or_false a b h = ground arith

module _ {V : Type 0} where
  abbrev has_name : Chars → List (Chars × V) → Bool
  has_name name = any (λ e. same_chars e.0 name)

  -- No name stands twice.
  abbrev Unique : List (Chars × V) → Type 0
  Unique [] = Unit
  Unique ((name, v) ∷ rest) = (has_name name rest ≡ false) × Unique rest

  put-has_name :
      (other name : Chars) (v : V) (xs : List (Chars × V))
      → has_name other xs ≡ false
      → same_chars name other ≡ false
      → has_name other (put_value name v xs) ≡ false
  unfolding put_value
  put-has_name other name v [] h k = rw (k) refl
  put-has_name other name v ((n, w) ∷ xs) h k =
      let (here, later) = or_false (same_chars n other) (has_name other xs) h in
      if-elim (λ ys. has_name other ys ≡ false) (same_chars n name) _ _ (λ hit. h)
        (λ miss. rw (here) (put-has_name other name v xs later k))

  put-Unique :
      (name : Chars) (v : V) (xs : List (Chars × V)) → Unique xs → Unique (put_value name v xs)
  unfolding put_value
  put-Unique name v [] h = (refl, tt)
  put-Unique name v ((n, w) ∷ xs) h =
      if-elim Unique (same_chars n name) _ _ (λ hit. h)
        (λ miss.
          (put-has_name n name v xs h.0 (same_chars_sym name n ∙ miss), put-Unique name v xs h.1))

  put_value-All :
      (P : Chars × V → Type 0) (name : Chars) (v : V) (xs : List (Chars × V))
      → ((k : Chars) → P (k, v))
      → All P xs
      → All P (put_value name v xs)
  unfolding put_value
  put_value-All P name v [] h hs = (h name, tt)
  put_value-All P name v ((n, w) ∷ xs) h hs =
      if-elim (All P) (same_chars n name) _ _ (λ hit. (h n, hs.1))
        (λ miss. (hs.0, put_value-All P name v xs h hs.1))

  not_last :
      (n name : Chars) (v : V) (before later : List (Chars × V))
      → has_name n (before ++ (name, v) ∷ later) ≡ false
      → same_chars name n ≡ false
  not_last n name v [] later h = (or_false _ _ h).0
  not_last n name v ((m, w) ∷ before) later h = not_last n name v before later (or_false _ _ h).1

  put-absent :
      (name : Chars) (v : V) (before later : List (Chars × V))
      → Unique (before ++ (name, v) ∷ later)
      → put_value name v before ≡ before ++ (name, v) ∷ []
  unfolding put_value
  put-absent name v [] later h = refl
  put-absent name v ((n, w) ∷ before) later h =
      rw
        (
          same_chars_sym n name,
          not_last n name v before later h.0,
          put-absent name v before later h.1,
        )
        refl

  assoc : (xs ys zs : List (Chars × V)) → (xs ++ ys) ++ zs ≡ xs ++ (ys ++ zs)
  assoc [] ys zs = refl
  assoc (x ∷ xs) ys zs = ap (λ l. x ∷ l) (assoc xs ys zs)

module _ {N : Type 0} (whole : ℕ → N) where
  abbrev fields : List (Chars × Json N)
  fields = user_fields whole

  -- A user with every field and no other attribute.
  abbrev IsUser : Chars × Members N → Type 0
  IsUser (name, user) = complete fields user ≡ user

  -- Completing twice is completing once.
  complete-IsUser : (name : Chars) (given : Members N) → IsUser (name, complete fields given)
  unfolding complete member_of
  complete-IsUser name given = refl

  record IsSaved (users : List (Chars × Members N)) : Type 0 where
    unique : Unique users
    whole_users : All IsUser users

  load_users-IsSaved :
      (raw : Members N) (built : List (Chars × Members N))
      → IsSaved built
      → IsSaved (load_users whole raw built)
  unfolding load_users
  load_users-IsSaved no_members built h = h
  load_users-IsSaved (member name (object given) raw) built h = load_users-IsSaved raw _ (record {
    unique = put-Unique name (complete fields given) built h.unique;
    whole_users =
        put_value-All IsUser name (complete fields given) built (λ k. complete-IsUser k given)
          h.whole_users;
  })
  load_users-IsSaved (member name null raw) built h = load_users-IsSaved raw built h
  load_users-IsSaved (member name (boolean b) raw) built h = load_users-IsSaved raw built h
  load_users-IsSaved (member name (number n) raw) built h = load_users-IsSaved raw built h
  load_users-IsSaved (member name (text s) raw) built h = load_users-IsSaved raw built h
  load_users-IsSaved (member name (array items) raw) built h = load_users-IsSaved raw built h

  load_users-users_value :
      (users built : List (Chars × Members N))
      → Unique (built ++ users)
      → All IsUser users
      → load_users whole (users_value users) built ≡ built ++ users
  unfolding load_users
  load_users-users_value [] built h us = sym (append-nil built)
  load_users-users_value ((name, user) ∷ users) built h us =
      ap (λ u. load_users whole (users_value users) (put_value name u built)) us.0
      ∙ ap (load_users whole (users_value users)) (put-absent name user built users h)
      ∙ load_users-users_value users (built ++ (name, user) ∷ [])
          (subst Unique (sym (assoc built ((name, user) ∷ []) users)) h) us.1
      ∙ assoc built ((name, user) ∷ []) users

  users_in : Loaded N → List (Chars × Members N)
  users_in (loaded s) = s.users
  users_in crashed = []

  nobody-IsSaved : IsSaved []
  nobody-IsSaved = record { unique = tt; whole_users = tt }

  users_from-IsSaved :
      (users : Option (Json N)) (hub_tz : Chars)
      → IsSaved (users_in (users_from whole users hub_tz))
  unfolding users_in
  users_from-IsSaved none hub_tz = nobody-IsSaved
  users_from-IsSaved (some (object users)) hub_tz = load_users-IsSaved users [] nobody-IsSaved
  users_from-IsSaved (some null) hub_tz = nobody-IsSaved
  users_from-IsSaved (some (boolean b)) hub_tz = nobody-IsSaved
  users_from-IsSaved (some (number n)) hub_tz = nobody-IsSaved
  users_from-IsSaved (some (text s)) hub_tz = nobody-IsSaved
  users_from-IsSaved (some (array items)) hub_tz = nobody-IsSaved

  load_value-IsSaved : (value : Json N) → IsSaved (users_in (load_value whole value))
  unfolding users_in load_value
  load_value-IsSaved (object raw) =
      users_from-IsSaved (member_of (codes "users") raw)
        (text_or_nothing (member_of (codes "hub_tz") raw))
  load_value-IsSaved null = nobody-IsSaved
  load_value-IsSaved (boolean b) = nobody-IsSaved
  load_value-IsSaved (number n) = nobody-IsSaved
  load_value-IsSaved (text s) = nobody-IsSaved
  load_value-IsSaved (array items) = nobody-IsSaved

  load-IsSaved : (file : File N) → IsSaved (users_in (load whole file))
  unfolding users_in load
  load-IsSaved (holds value) = load_value-IsSaved value
  load-IsSaved missing = nobody-IsSaved
  load-IsSaved unreadable = nobody-IsSaved
  load-IsSaved corrupt = nobody-IsSaved

  saved_again : (s : SavedState N) → IsSaved s.users → load whole (holds (save s)) ≡ loaded s
  unfolding load load_value save member_of
  saved_again s h =
      ap (λ users. loaded (record { users = users; hub_tz = s.hub_tz }))
        (load_users-users_value s.users [] h.unique h.whole_users)

  -- Whatever the file held, one of another version of the agent with keys too many or too few included: a
  -- state that `load` has returned from it is returned again once it is saved.
  pub load-save :
      (file : File N) (s : SavedState N)
      → load whole file ≡ loaded s
      → load whole (holds (save s)) ≡ loaded s
  unfolding users_in
  load-save file s h = saved_again s (subst IsSaved (ap users_in h) (load-IsSaved file))

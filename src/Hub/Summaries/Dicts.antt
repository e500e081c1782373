-- ===== src/Hub/Summaries/Dicts.antt =====
-- The dicts of the batched queries: what they hold for one user.
use timekpr_next_hub.Base.{
  ℕ, ◌≡◌, ◌≤◌, refl, ap, ◌∙◌, ◌==◌, ==_iff, ◌&&◌, Bool, true, false, Option, none, some, List, [],
  ◌∷◌, arith, find, if◌then◌else◌, if-elim, Bool-cases, inl, inr,
}
use timekpr_next_hub.Base.Int.{ℤ, pos, ◌+ℤ◌, int_laws}
use timekpr_next_hub.Hub.Rows.{selected}
use timekpr_next_hub.Hub.Tables.{Grant, DayOverride}
use timekpr_next_hub.Hub.Limits.{sum_seconds}
use timekpr_next_hub.Hub.Summaries.{ById, get, is_in, add_to, dict_of}

add_zero : (v : ℤ) → v ≡ v +ℤ pos 0
add_zero v = omega int_laws

equal_tests : (a b c : ℕ) → (a == b) ≡ true → (a == c) ≡ (b == c)
equal_tests a b c h = ground arith

apart_tests : (a b c : ℕ) → (a == b) ≡ false → ((a == c) && (b == c)) ≡ false
apart_tests a b c h = ground arith

add_hit :
    (p q : Bool) (v w r : ℤ)
    → p ≡ q
    → (if p then v +ℤ w else r) ≡ (if q then v +ℤ (if p then w else r) else if p then w else r)
add_hit true true v w r h = refl
add_hit true false v w r h = cc
add_hit false true v w r h = cc
add_hit false false v w r h = refl

add_miss :
    (p q : Bool) (v w r : ℤ)
    → (p && q) ≡ false
    → (if p then w else if q then v +ℤ r else r)
      ≡ (if q then v +ℤ (if p then w else r) else if p then w else r)
add_miss true true v w r h = cc
add_miss true false v w r h = refl
add_miss false true v w r h = refl
add_miss false false v w r h = refl

pub get-add_to :
    (id k : ℕ) (v : ℤ) (d : ById)
    → get id (pos 0) (add_to k v d) ≡ (if k == id then v +ℤ get id (pos 0) d else get id (pos 0) d)
get-add_to id k v [] = ap (λ x. if k == id then x else pos 0) (add_zero v)
get-add_to id k v ((j, w) ∷ d) =
    if-elim
      (λ out.
        get id (pos 0) out
        ≡ (if k == id then v +ℤ get id (pos 0) ((j, w) ∷ d) else get id (pos 0) ((j, w) ∷ d)))
      (j == k) ((j, v +ℤ w) ∷ d) ((j, w) ∷ add_to k v d)
      (λ hit. add_hit (j == id) (k == id) v w (get id (pos 0) d) (equal_tests j k id hit))
      (λ miss.
        ap (λ x. if j == id then w else x) (get-add_to id k v d)
        ∙ add_miss (j == id) (k == id) v w (get id (pos 0) d) (apart_tests j k id miss))

-- The user that is shown is one of those that the batch asks for.
pub here_in :
    (ids : List ℕ) (id k : ℕ) → is_in ids id ≡ true → (k == id) ≡ true → is_in ids k ≡ true
here_in ids id k h e = let same : k ≡ id = (==_iff k id).0 e in rw (same) h

pub right_true : (i q : Bool) → (i && q) ≡ true → q ≡ true
right_true i q h = ground arith

pub and_right : (p q : Bool) → q ≡ true → (p && q) ≡ p
and_right p q h = ground arith

false-true : false ≡ true → ⊥
false-true h = cc

pub not_asked : (p i q : Bool) → (p ≡ true → i ≡ true) → (i && q) ≡ false → (p && q) ≡ false
not_asked true true q h k = k
not_asked true false q h k = absurd (false-true (h refl))
not_asked false i q h k = refl

pub sum_if :
    (b : Bool) (g : Grant) (rows : List Grant)
    → (if b then g.seconds +ℤ sum_seconds rows else sum_seconds rows)
      ≡ sum_seconds (if b then g ∷ rows else rows)
sum_if true g rows = refl
sum_if false g rows = refl

abbrev pub or_default : ℤ → Option DayOverride → ℤ
or_default default found = elim found [ none ↦ default | some o ↦ o.limit_seconds ]

abbrev pub of_user : ℕ → DayOverride → Bool
of_user id o = o.user_id == id

get_if :
    (id k : ℕ) (v default : ℤ) (d : ById) (b : Bool)
    → (k == id) ≡ b
    → get id default ((k, v) ∷ d) ≡ (if b then v else get id default d)
get_if id k v default d b h = ap (λ t. if t then v else get id default d) h

dict_of-none :
    (id : ℕ) (default : ℤ) (built : ById) (rows : List DayOverride)
    → selected (of_user id) rows ≡ 0
    → get id default (dict_of built rows) ≡ get id default built
dict_of-none id default built [] h = refl
dict_of-none id default built (o ∷ rest) h = elim (Bool-cases (of_user id o)) [
  | inl hit ↦ absurd (some_selected hit h)
  | inr miss ↦
      dict_of-none id default ((o.user_id, o.limit_seconds) ∷ built) rest (fewer miss h)
      ∙ get_if id o.user_id o.limit_seconds default built false miss
]
  where
    some_selected : of_user id o ≡ true → selected (of_user id) (o ∷ rest) ≡ 0 → ⊥
    some_selected hit h = ground arith

    fewer :
        of_user id o ≡ false → selected (of_user id) (o ∷ rest) ≡ 0 → selected (of_user id) rest ≡ 0
    fewer miss h = ground arith

-- Of one row for the user, the dict has the value.
pub dict_of-one :
    (id : ℕ) (default : ℤ) (built : ById) (rows : List DayOverride)
    → selected (of_user id) rows ≤ 1
    → get id default (dict_of built rows)
      ≡ or_default (get id default built) (find (of_user id) rows)
dict_of-one id default built [] h = refl
dict_of-one id default built (o ∷ rest) h =
    let built' = (o.user_id, o.limit_seconds) ∷ built in
    elim (Bool-cases (of_user id o)) [
      | inl hit ↦
          dict_of-none id default built' rest (rest_none hit h)
          ∙ get_if id o.user_id o.limit_seconds default built true hit
          ∙ rw (hit) refl
      | inr miss ↦
          dict_of-one id default built' rest (fewer miss h)
          ∙ ap (λ v. or_default v (find (of_user id) rest))
              (get_if id o.user_id o.limit_seconds default built false miss)
          ∙ rw (miss) refl
    ]
  where
    rest_none :
        of_user id o ≡ true → selected (of_user id) (o ∷ rest) ≤ 1 → selected (of_user id) rest ≡ 0
    rest_none hit h = ground arith

    fewer :
        of_user id o ≡ false → selected (of_user id) (o ∷ rest) ≤ 1 → selected (of_user id) rest ≤ 1
    fewer miss h = ground arith

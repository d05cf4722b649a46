-- ===== src/Teams/Atomic.antt =====
-- An operation that answers with an error has not changed the store: the checks of each operation
-- stand before its first write, and the loop of addMembers cannot fail after them.
use arbiter_backend.Base.{
  ℕ, ◌+◌, String, ◌≡◌, refl, Bool, true, false, not, Option, none, some, List, [], ◌∷◌, arith,
  str_eq, eq_iff, length, distinct, includes, ltb, leb, ◌==◌, exists, lookup-insert, if◌then◌else◌,
}
use arbiter_backend.Teams.Model.{
  Team, Teams, Role, owner, admin, member, Result, TeamError, ok, err, add_membership,
  get_memberships, require_team_role, max_team_members, max_teams_per_address,
}
use arbiter_backend.Teams.Additions.{additions-distinct}
use arbiter_backend.Teams.{
  create_team, rename_team, add_members, set_member_role, remove_member, delete_team, saved_team,
  add_each, add_checked, additions_of, with_entry,
}

unfoldable pub Atomic {ℓ} : {A : Type ℓ} → Teams → Teams × Result A → Type ℓ
Atomic s p = (e : TeamError) → p.1 ≡ err e → p.0 ≡ s

guard-Atomic {ℓ} :
    {A : Type ℓ} (s : Teams) (b : Bool) (e : TeamError) (y : Teams × Result A)
    → (b ≡ false → Atomic s y)
    → Atomic s (if b then (s, err e) else y)
unfolding Atomic
guard-Atomic s true e y w f h = refl
guard-Atomic s false e y w f h = w refl f h

pub remove_member-err :
    (id actor target : String) (now : ℕ) (s : Teams)
    → Atomic s (remove_member id actor target now s)
unfolding Atomic remove_member
remove_member-err id actor target now s e f = ground arith

pub delete_team-err : (id actor : String) (s : Teams) → Atomic s (delete_team id actor s)
unfolding Atomic delete_team
delete_team-err id actor s e f = ground arith

pub set_member_role-err :
    (id actor target : String) (r : Option Role) (now : ℕ) (s : Teams)
    → Atomic s (set_member_role id actor target r now s)
unfolding Atomic set_member_role
set_member_role-err id actor target r now s e f = ground arith

ok-Atomic {ℓ} :
    {A : Type ℓ} (s : Teams) (b : Bool) (a : A) (y : Teams × Result A)
    → (b ≡ false → Atomic s y)
    → Atomic s (if b then (s, ok a) else y)
unfolding Atomic
ok-Atomic s true a y w f h = refl
ok-Atomic s false a y w f h = w refl f h

abbrev is_full : String → Teams → Bool
is_full a s = leb max_teams_per_address (length (get_memberships a s))

add_membership-ok :
    (a id : String) (s : Teams) → is_full a s ≡ false → (add_membership a id s).1 ≡ ok tt
unfolding add_membership
add_membership-ok a id s f = ground arith

get_memberships-add_membership :
    (a b id : String) (s : Teams)
    → str_eq a b ≡ false
    → get_memberships b (add_membership a id s).0 ≡ get_memberships b s
unfolding add_membership get_memberships
get_memberships-add_membership a b id s n =
    ground (arith, lookup-insert a b (id ∷ get_memberships a s) s.memberships)

room-add_membership :
    (a id : String) (s : Teams) (xs : List String)
    → includes xs a ≡ false
    → exists (λ b. is_full b s) xs ≡ false
    → exists (λ b. is_full b (add_membership a id s).0) xs ≡ false
room-add_membership a id s [] n f = refl
room-add_membership a id s (x ∷ xs) n f = ground (
  arith,
  room-add_membership a id s xs,
  get_memberships-add_membership a x id s,
  eq_iff a x,
  eq_iff x a,
)

module _ (trim : String → String) (text_length : String → ℕ)
    (is_valid_address : String → Bool) where
  pub create_team-err :
      (id a : String) (name : Option String) (now : ℕ) (s : Teams)
      → Atomic s (create_team trim text_length is_valid_address id a name now s)
  unfolding Atomic create_team
  create_team-err id a name now s e f = ground arith

  pub rename_team-err :
      (id actor : String) (name : Option String) (now : ℕ) (s : Teams)
      → Atomic s (rename_team trim text_length is_valid_address id actor name now s)
  unfolding Atomic rename_team
  rename_team-err id actor name now s e f = ground arith

  add_each-ok :
      (xs : List String) (r : Role) (actor : String) (now : ℕ) (t : Team) (s : Teams)
      (e : TeamError)
      → distinct xs ≡ true
      → exists (λ a. is_full a s) xs ≡ false
      → ¬ ((add_each trim text_length is_valid_address xs r actor now t s).1 ≡ err e)
  unfolding add_each
  add_each-ok [] r actor now t s e d f h = ground arith
  add_each-ok (a ∷ xs) r actor now t s e d f h = ground (
    arith,
    add_membership-ok a t.id s,
    room-add_membership a t.id s xs,
    add_each-ok xs r actor now (with_entry a r actor now t) (add_membership a t.id s).0 e,
  )

  saved_team-err :
      (now : ℕ) (p : Teams × Result Team) (e : TeamError)
      → ¬ (p.1 ≡ err e)
      → ¬ ((saved_team trim text_length is_valid_address now p).1 ≡ err e)
  unfolding saved_team
  saved_team-err now (s, err e) f n h = n h
  saved_team-err now (s, ok t) f n h = ground arith

  add_checked-err :
      (xs : List String) (r : Role) (actor : String) (now : ℕ) (s : Teams) (c : Result Team)
      → Atomic s (add_checked trim text_length is_valid_address xs r actor now s c)
  unfolding add_checked Atomic
  add_checked-err xs r actor now s (err e) = λ f h. refl
  add_checked-err xs r actor now s (ok t) =
      let fresh = additions_of trim text_length is_valid_address t xs in
      guard-Atomic s (length xs == 0) _ _ (λ some_given.
        guard-Atomic s (exists (λ a. not (is_valid_address a)) xs) _ _ (λ valid.
          guard-Atomic s (ltb max_team_members (length t.members + length fresh)) _ _ (λ room.
            ok-Atomic s (length fresh == 0) t _ (λ some_new.
              guard-Atomic s (exists (λ a. is_full a s) fresh) _ _ (λ free e h. absurd (
                saved_team-err now _ e
                  (add_each-ok fresh r actor now t s e
                    (additions-distinct trim text_length is_valid_address t xs) free)
                  h))))))

  pub add_members-err :
      (id actor : String) (xs : List String) (r : Option Role) (now : ℕ) (s : Teams)
      → Atomic s (add_members trim text_length is_valid_address id actor xs r now s)
  unfolding add_members Atomic
  add_members-err id actor xs none now s = λ e f. refl
  add_members-err id actor xs (some owner) now s = λ e f. refl
  add_members-err id actor xs (some admin) now s =
      add_checked-err xs admin actor now s (require_team_role id actor owner s)
  add_members-err id actor xs (some member) now s =
      add_checked-err xs member actor now s (require_team_role id actor admin s)

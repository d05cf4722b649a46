-- ===== src/Teams/Additions.antt =====
-- addMembers: the loop over the additions keeps teams well formed and never stops half way.
use arbiter_backend.Base.{
  ℕ, ◌+◌, ◌≤◌, String, ◌≡◌, refl, Bool, true, not, Option, none, some, List, [], ◌∷◌, arith, eq_iff,
  eq_refl, length, length-append, distinct, ltb, leb, ◌==◌, exists, includes, distinct-keep,
  keep-test, unique, distinct-unique, is_some,
}
use arbiter_backend.Teams.Model.{
  Team, Member, Teams, Role, owner, admin, member, Result, ok, err, add_membership, get_memberships,
  role_of, max_team_members, max_teams_per_address,
}
use arbiter_backend.Teams.Invariant.{
  IsTeam, IsTeams, IsTeams-same, guard-IsTeams, save_team-IsTeams, teams-add_membership,
  snoc-IsTeam,
}
use arbiter_backend.Teams.Members.{is_owner, find_role-snoc}
use arbiter_backend.Teams.Preserve.{required-IsTeam}
use arbiter_backend.Teams.{add_members, saved_team, add_each, add_checked, additions_of, with_entry}

none-of {ℓ} : {A : Type ℓ} (o : Option A) → not (is_some o) ≡ true → o ≡ none
none-of none h = refl
none-of (some a) h = ground arith

role_of-with_entry :
    (xs : List String) (a b : String) (r : Role) (actor : String) (now : ℕ) (t : Team)
    → distinct (a ∷ xs) ≡ true
    → ((c : String) → includes (a ∷ xs) c ≡ true → role_of t c ≡ none)
    → includes xs b ≡ true
    → role_of (with_entry a r actor now t) b ≡ none
unfolding role_of
role_of-with_entry xs a b r actor now t d f i =
    let entry : Member = record { address = a; role = r; added_at = now; added_by = actor } in
    ground (arith, find_role-snoc t.members entry b, f b, eq_iff a b)

module _ (trim : String → String) (text_length : String → ℕ)
    (is_valid_address : String → Bool) where
  saved_team-IsTeams :
      (now : ℕ) (p : Teams × Result Team)
      → IsTeams p.0
      → ((t : Team) → p.1 ≡ ok t → IsTeam t)
      → IsTeams (saved_team trim text_length is_valid_address now p).0
  unfolding saved_team
  saved_team-IsTeams now (s, err e) w v = w
  saved_team-IsTeams now (s, ok t) w v = save_team-IsTeams now t s (v t refl) w

  teams-add_each :
      (xs : List String) (r : Role) (actor : String) (now : ℕ) (t : Team) (s : Teams)
      → (add_each trim text_length is_valid_address xs r actor now t s).0.teams ≡ s.teams
  unfolding add_each
  teams-add_each [] r actor now t s = refl
  teams-add_each (a ∷ xs) r actor now t s = ground (
    arith,
    teams-add_each xs r actor now (with_entry a r actor now t) (add_membership a t.id s).0,
    teams-add_membership a t.id s,
  )

  -- The additions never meet an error when every address has room for one more membership, and the
  -- team they give is well formed when it has room for them and none of them is a member.
  add_each-IsTeam :
      (xs : List String) (r : Role) (actor : String) (now : ℕ) (t u : Team) (s : Teams)
      → IsTeam t
      → is_owner r ≡ 0
      → distinct xs ≡ true
      → ((a : String) → includes xs a ≡ true → role_of t a ≡ none)
      → length t.members + length xs ≤ max_team_members
      → (add_each trim text_length is_valid_address xs r actor now t s).1 ≡ ok u
      → IsTeam u
  unfolding add_each
  add_each-IsTeam [] r actor now t u s v z d f n e = ground arith
  add_each-IsTeam (a ∷ xs) r actor now t u s v z d f n e =
      let entry : Member = record { address = a; role = r; added_at = now; added_by = actor } in
      ground (
        arith,
        add_each-IsTeam xs r actor now (with_entry a r actor now t) u (add_membership a t.id s).0
            (snoc-IsTeam t entry v (f a (ground (arith, eq_refl a))) z (omega arith)) z
            (ground arith) (λ b. role_of-with_entry xs a b r actor now t d f)
            (omega (arith, length-append t.members (entry ∷ []))),
      )

  pub additions-distinct :
      (t : Team) (xs : List String)
      → distinct (additions_of trim text_length is_valid_address t xs) ≡ true
  additions-distinct t xs =
      distinct-keep (λ a. not (is_some (role_of t a))) (unique xs) (distinct-unique xs)

  additions-new :
      (t : Team) (xs : List String) (a : String)
      → includes (additions_of trim text_length is_valid_address t xs) a ≡ true
      → role_of t a ≡ none
  additions-new t xs a h =
      none-of (role_of t a) (keep-test (λ a. not (is_some (role_of t a))) (unique xs) a h)

  add_checked-IsTeams :
      (xs : List String) (r : Role) (actor : String) (now : ℕ) (s : Teams) (c : Result Team)
      → IsTeams s
      → is_owner r ≡ 0
      → ((t : Team) → c ≡ ok t → IsTeam t)
      → IsTeams (add_checked trim text_length is_valid_address xs r actor now s c).0
  unfolding add_checked
  add_checked-IsTeams xs r actor now s (err e) w z v = w
  add_checked-IsTeams xs r actor now s (ok t) w z v =
      let fresh = additions_of trim text_length is_valid_address t xs in
      guard-IsTeams (length xs == 0) _ _ w (λ some_given.
        guard-IsTeams (exists (λ a. not (is_valid_address a)) xs) _ _ w (λ valid.
          guard-IsTeams (ltb max_team_members (length t.members + length fresh)) _ _ w (λ room.
            guard-IsTeams (length fresh == 0) _ _ w (λ some_new.
              guard-IsTeams
                (exists (λ a. leb max_teams_per_address (length (get_memberships a s))) fresh) _ _ w
                (λ free.
                  saved_team-IsTeams now _
                    (IsTeams-same s _ (teams-add_each fresh r actor now t s) w)
                    (λ u e.
                      add_each-IsTeam fresh r actor now t u s (v t refl) z (additions-distinct t xs)
                        (λ a. additions-new t xs a) (ground arith) e))))))

  pub add_members-IsTeams :
      (id actor : String) (xs : List String) (r : Option Role) (now : ℕ) (s : Teams)
      → IsTeams s
      → IsTeams (add_members trim text_length is_valid_address id actor xs r now s).0
  unfolding add_members
  add_members-IsTeams id actor xs none now s w = w
  add_members-IsTeams id actor xs (some owner) now s w = w
  add_members-IsTeams id actor xs (some admin) now s w =
      add_checked-IsTeams xs admin actor now s _ w refl
        (λ t e. (required-IsTeam id actor owner s t w e).0)
  add_members-IsTeams id actor xs (some member) now s w =
      add_checked-IsTeams xs member actor now s _ w refl
        (λ t e. (required-IsTeam id actor admin s t w e).0)

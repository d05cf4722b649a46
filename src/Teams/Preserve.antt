-- ===== src/Teams/Preserve.antt =====
-- Each operation of src/teams.js keeps the invariant of the stored teams.
use arbiter_backend.Base.{
  ℕ, String, ◌≡◌, refl, ◌∙◌, Bool, true, false, not, ◌||◌, Option, none, some, List, [], ◌∷◌, arith,
  str_eq, eq_iff, is_some, Bool-cases, Option-cases, inl, inr,
}
use arbiter_backend.Teams.Model.{
  Team, Member, Teams, Role, owner, admin, member, Result, ok, err, add_membership,
  remove_membership, save_team, role_of, require_team_role, has_role, at_least,
}
use arbiter_backend.Teams.Invariant.{
  IsTeam, IsTeams, IsTeams-same, guard-IsTeams, save_team-IsTeams, remove-IsTeams,
  teams-add_membership, teams-remove_membership, get_team-IsTeam, reassigned-IsTeam,
  with_role-IsTeam, without_member-IsTeam,
}
use arbiter_backend.Teams.Members.{is_owner}
use arbiter_backend.Teams.Access.{require_team_role-ok_iff}
use arbiter_backend.Teams.{
  create_team, rename_team, set_member_role, remove_member, delete_team, finish_create,
  named_create, rename_checked, role_checked, reassigned, drop_member, remove_known, remove_checked,
  remove_all, delete_checked, validate_name,
}

-- A team that the check returns is a stored one.
pub required-IsTeam :
    (id actor : String) (r : Role) (s : Teams) (t : Team)
    → IsTeams s
    → require_team_role id actor r s ≡ ok t
    → IsTeam t × (t.id ≡ id)
required-IsTeam id actor r s t w e =
    get_team-IsTeam id t s w ((require_team_role-ok_iff id actor r s t).0 e).0

module _ (trim : String → String) (text_length : String → ℕ)
    (is_valid_address : String → Bool) where
  finish_create-IsTeams :
      (t : Team) (now : ℕ) (p : Teams × Result (Unit {0}))
      → IsTeam t
      → IsTeams p.0
      → IsTeams (finish_create trim text_length is_valid_address t now p).0
  unfolding finish_create
  finish_create-IsTeams t now (s, err e) v w = w
  finish_create-IsTeams t now (s, ok u) v w =
      IsTeams-same (save_team now t s) _ refl (save_team-IsTeams now t s v w)

  named_create-IsTeams :
      (id a : String) (now : ℕ) (s : Teams) (n : Result String)
      → IsTeams s
      → IsTeams (named_create trim text_length is_valid_address id a now s n).0
  unfolding named_create IsTeam
  named_create-IsTeams id a now s (err e) w = w
  named_create-IsTeams id a now s (ok n) w =
      finish_create-IsTeams _ now (add_membership a id s) (refl, (refl, omega arith))
        (IsTeams-same s _ (teams-add_membership a id s) w)

  pub create_team-IsTeams :
      (id a : String) (name : Option String) (now : ℕ) (s : Teams)
      → IsTeams s
      → IsTeams (create_team trim text_length is_valid_address id a name now s).0
  unfolding create_team
  create_team-IsTeams id a name now s w = elim (Bool-cases (is_valid_address a)) [
    | inl e ↦
        rw e
          (named_create-IsTeams id a now s (validate_name trim text_length is_valid_address name) w)
    | inr e ↦ rw e w
  ]

  rename_checked-IsTeams :
      (now : ℕ) (s : Teams) (r : Result Team) (n : Result String)
      → IsTeams s
      → ((t : Team) → r ≡ ok t → IsTeam t)
      → IsTeams (rename_checked trim text_length is_valid_address now s r n).0
  unfolding rename_checked IsTeam
  rename_checked-IsTeams now s (err e) n w v = w
  rename_checked-IsTeams now s (ok t) (err e) w v = w
  rename_checked-IsTeams now s (ok t) (ok n) w v = save_team-IsTeams now _ s (v t refl) w

  pub rename_team-IsTeams :
      (id actor : String) (name : Option String) (now : ℕ) (s : Teams)
      → IsTeams s
      → IsTeams (rename_team trim text_length is_valid_address id actor name now s).0
  unfolding rename_team
  rename_team-IsTeams id actor name now s w =
      rename_checked-IsTeams now s _ _ w (λ t e. (required-IsTeam id actor admin s t w e).0)

owner-top : (o : Option Role) → at_least o owner ≡ true → o ≡ some owner
owner-top none h = ground arith
owner-top (some owner) h = refl
owner-top (some admin) h = ground arith
owner-top (some member) h = ground arith

reassigned-known :
    (actor target : String) (r q : Role) (t : Team)
    → IsTeam t
    → role_of t actor ≡ some owner
    → str_eq actor target ≡ false
    → role_of t target ≡ some q
    → IsTeam (record t { members = reassigned actor target r t.members })
unfolding reassigned
reassigned-known actor target owner q t v o n e = reassigned-IsTeam t actor target q v o n e
reassigned-known actor target admin q t v o n e =
    with_role-IsTeam t actor target q admin v o n e refl
reassigned-known actor target member q t v o n e =
    with_role-IsTeam t actor target q member v o n e refl

owner-role : (t : Team) (a : String) → has_role t a owner ≡ true → role_of t a ≡ some owner
unfolding has_role
owner-role t a h = owner-top (role_of t a) h

reassigned-role :
    (actor target : String) (r : Role) (t : Team)
    → IsTeam t
    → role_of t actor ≡ some owner
    → not (is_some (role_of t target)) ≡ false
    → str_eq target actor ≡ false
    → IsTeam (record t { members = reassigned actor target r t.members })
unfolding reassigned
reassigned-role actor target r t v o known other = elim (Option-cases (role_of t target)) [
  | inl n ↦ absurd (ground arith)
  | inr (q, e) ↦
      reassigned-known actor target r q t v o
        (ground (arith, eq_iff target actor, eq_iff actor target)) e
]

role_checked-IsTeams :
    (id actor target : String) (r : Role) (now : ℕ) (s : Teams) (c : Result Team)
    → IsTeams s
    → ((t : Team) → c ≡ ok t → IsTeam t × (role_of t actor ≡ some owner))
    → IsTeams (role_checked actor target r now s c).0
unfolding role_checked
role_checked-IsTeams id actor target r now s (err e) w v = w
role_checked-IsTeams id actor target r now s (ok t) w v =
    guard-IsTeams (not (is_some (role_of t target))) _ _ w (λ known.
      guard-IsTeams (str_eq target actor) _ _ w (λ other.
        save_team-IsTeams now _ s
          (reassigned-role actor target r t (v t refl).0 (v t refl).1 known other) w))

pub set_member_role-IsTeams :
    (id actor target : String) (r : Option Role) (now : ℕ) (s : Teams)
    → IsTeams s
    → IsTeams (set_member_role id actor target r now s).0
unfolding set_member_role
set_member_role-IsTeams id actor target none now s w = w
set_member_role-IsTeams id actor target (some r) now s w =
    role_checked-IsTeams id actor target r now s _ w (λ t e. (
      (required-IsTeam id actor owner s t w e).0,
      owner-role t actor ((require_team_role-ok_iff id actor owner s t).0 e).1,
    ))

drop_member-IsTeams :
    (id target : String) (now : ℕ) (t : Team) (s : Teams) (r : Role)
    → IsTeams s
    → IsTeam t
    → role_of t target ≡ some r
    → is_owner r ≡ 0
    → IsTeams (drop_member id target now t s).0
unfolding drop_member
drop_member-IsTeams id target now t s r w v e z =
    IsTeams-same _ _ (teams-remove_membership target id _)
      (save_team-IsTeams now _ s (without_member-IsTeam t target r v e z) w)

remove_known-IsTeams :
    (id actor target : String) (now : ℕ) (t : Team) (s : Teams) (o : Option Role)
    → IsTeams s
    → IsTeam t
    → role_of t target ≡ o
    → IsTeams (remove_known id actor target now t s o).0
unfolding remove_known
remove_known-IsTeams id actor target now t s none w v e = w
remove_known-IsTeams id actor target now t s (some owner) w v e = w
remove_known-IsTeams id actor target now t s (some admin) w v e =
    elim (Bool-cases (str_eq target actor || has_role t actor owner)) [
      | inl b ↦ rw b (drop_member-IsTeams id target now t s admin w v e refl)
      | inr b ↦ rw b w
    ]
remove_known-IsTeams id actor target now t s (some member) w v e =
    elim (Bool-cases (str_eq target actor || has_role t actor admin)) [
      | inl b ↦ rw b (drop_member-IsTeams id target now t s member w v e refl)
      | inr b ↦ rw b w
    ]

remove_checked-IsTeams :
    (id actor target : String) (now : ℕ) (s : Teams) (c : Result Team)
    → IsTeams s
    → ((t : Team) → c ≡ ok t → IsTeam t)
    → IsTeams (remove_checked id actor target now s c).0
unfolding remove_checked
remove_checked-IsTeams id actor target now s (err e) w v = w
remove_checked-IsTeams id actor target now s (ok t) w v =
    remove_known-IsTeams id actor target now t s (role_of t target) w (v t refl) refl

pub remove_member-IsTeams :
    (id actor target : String) (now : ℕ) (s : Teams)
    → IsTeams s
    → IsTeams (remove_member id actor target now s).0
unfolding remove_member
remove_member-IsTeams id actor target now s w =
    remove_checked-IsTeams id actor target now s _ w
      (λ t e. (required-IsTeam id actor member s t w e).0)

teams-remove_all :
    (ms : List Member) (id : String) (s : Teams) → (remove_all ms id s).teams ≡ s.teams
unfolding remove_all
teams-remove_all [] id s = refl
teams-remove_all (m ∷ ms) id s =
    teams-remove_all ms id (remove_membership m.address id s)
    ∙ teams-remove_membership m.address id s

delete_checked-IsTeams :
    (id : String) (s : Teams) (c : Result Team) → IsTeams s → IsTeams (delete_checked id s c).0
unfolding delete_checked
delete_checked-IsTeams id s (err e) w = w
delete_checked-IsTeams id s (ok t) w =
    IsTeams-same _ _ (teams-remove_all t.members id _) (remove-IsTeams id s w)

pub delete_team-IsTeams :
    (id actor : String) (s : Teams) → IsTeams s → IsTeams (delete_team id actor s).0
unfolding delete_team
delete_team-IsTeams id actor s w =
    delete_checked-IsTeams id s (require_team_role id actor owner s) w

-- ===== src/Teams/Access.antt =====
-- Who may do what: the role check in front of every operation.
use arbiter_backend.Base.{String, ◌≡◌, ◌↔◌, true, none, some, arith, Option-cases, inl, inr}
use arbiter_backend.Teams.Model.{
  Team, Teams, Role, ok, err, no_such_team, role_of, has_role, get_team, require_team_role,
  check_team_role,
}

checked-ok :
    (u : Team) (actor : String) (r : Role) (t : Team)
    → check_team_role (some u) actor r ≡ ok t
    → (some u ≡ some t) × (has_role t actor r ≡ true)
unfolding has_role
checked-ok u actor r t e = (ground arith, ground arith)

ok-checked :
    (t : Team) (actor : String) (r : Role)
    → has_role t actor r ≡ true
    → check_team_role (some t) actor r ≡ ok t
unfolding has_role
ok-checked t actor r h = ground arith

-- The check passes exactly for a stored team in which the actor has a role of at least that rank.
pub require_team_role-ok_iff :
    (id actor : String) (r : Role) (s : Teams) (t : Team)
    → (require_team_role id actor r s ≡ ok t)
      ↔ ((get_team id s ≡ some t) × (has_role t actor r ≡ true))
unfolding require_team_role has_role
require_team_role-ok_iff id actor r s t = (
  elim (Option-cases (get_team id s)) [
    | inl n ↦ rw n (λ e. absurd (ground arith))
    | inr (u, g) ↦ rw g (checked-ok u actor r t)
  ],
  λ (g, h). rw g (ok-checked t actor r h),
)

-- To a caller with no role in it, a team that exists answers as one that does not.
pub stranger_sees_no_team :
    (id actor : String) (r : Role) (s : Teams) (t : Team)
    → get_team id s ≡ some t
    → role_of t actor ≡ none
    → require_team_role id actor r s ≡ err no_such_team
unfolding require_team_role
stranger_sees_no_team id actor r s t e n = ground arith

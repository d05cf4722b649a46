-- ===== src/Teams/Invariant.antt =====
-- What every operation keeps: each stored team stands under its id and has one owner, no address
-- twice and at most 100 members.
use arbiter_backend.Base.{
  ℕ, suc, ◌≤◌, String, ◌≡◌, refl, sym, Bool, true, false, not, none, some, List, [], ◌∷◌, ◌++◌,
  arith, str_eq, eq_iff, length, length-append, length-keep, distinct, if◌then◌else◌, lookup,
  remove, lookup-insert, lookup-remove,
}
use arbiter_backend.Teams.Model.{
  Team, Member, Teams, Role, owner, admin, get_team, add_membership, remove_membership, save_team,
  with_role, without_member, role_of, max_team_members,
}
use arbiter_backend.Teams.Members.{
  owners, is_owner, addresses, owners-with_role, find_role-with_role_ne, addresses-with_role,
  length-addresses, includes-addresses, sole-owner, owners-without_member, distinct-without_member,
  owners-append, distinct-snoc,
}

unfoldable pub IsTeam : Team → Type 0
IsTeam t =
    (owners t.members ≡ 1)
    × ((distinct (addresses t.members) ≡ true) × (length t.members ≤ max_team_members))

unfoldable pub IsTeams : Teams → Type 0
IsTeams s = (id : String) (t : Team) → lookup id s.teams ≡ some t → IsTeam t × (t.id ≡ id)

pub IsTeams-same : (s s' : Teams) → s'.teams ≡ s.teams → IsTeams s → IsTeams s'
unfolding IsTeams
IsTeams-same s s' e w id t f = w id t (rw (sym e) f)

pub save_team-IsTeams :
    (now : ℕ) (t : Team) (s : Teams) → IsTeam t → IsTeams s → IsTeams (save_team now t s)
unfolding IsTeams IsTeam save_team
save_team-IsTeams now t s v w id u f =
    ground
      (arith, lookup-insert t.id id (record t { updated_at = now }) s.teams, w id u, eq_iff t.id id)

pub remove-IsTeams :
    (id : String) (s : Teams) → IsTeams s → IsTeams (record s { teams = remove id s.teams })
unfolding IsTeams
remove-IsTeams id s w j t f = ground (arith, lookup-remove id j s.teams, w j t)

pub teams-add_membership : (a id : String) (s : Teams) → (add_membership a id s).0.teams ≡ s.teams
unfolding add_membership
teams-add_membership a id s = ground arith

pub teams-remove_membership :
    (a id : String) (s : Teams) → (remove_membership a id s).teams ≡ s.teams
unfolding remove_membership
teams-remove_membership a id s = ground arith

pub get_team-IsTeam :
    (id : String) (t : Team) (s : Teams)
    → IsTeams s
    → get_team id s ≡ some t
    → IsTeam t × (t.id ≡ id)
unfolding IsTeams get_team
get_team-IsTeam id t s w e = ground (arith, w id t)

pub reassigned-IsTeam :
    (t : Team) (actor target : String) (r : Role)
    → IsTeam t
    → role_of t actor ≡ some owner
    → str_eq actor target ≡ false
    → role_of t target ≡ some r
    → IsTeam (record t { members = with_role target owner (with_role actor admin t.members) })
unfolding IsTeam role_of
reassigned-IsTeam t actor target r (one, (d, n)) fa ne ft = ground (
  arith,
  addresses-with_role (with_role actor admin t.members) target owner,
  addresses-with_role t.members actor admin,
  length-addresses (with_role target owner (with_role actor admin t.members)),
  length-addresses t.members,
  owners-with_role t.members actor owner admin fa,
  owners-with_role (with_role actor admin t.members) target r owner,
  find_role-with_role_ne t.members actor target admin ne,
  sole-owner t.members actor target r one fa ne ft,
)

pub with_role-IsTeam :
    (t : Team) (actor target : String) (r q : Role)
    → IsTeam t
    → role_of t actor ≡ some owner
    → str_eq actor target ≡ false
    → role_of t target ≡ some r
    → is_owner q ≡ 0
    → IsTeam (record t { members = with_role target q t.members })
unfolding IsTeam role_of
with_role-IsTeam t actor target r q (one, (d, n)) fa ne ft z = ground (
  arith,
  addresses-with_role t.members target q,
  length-addresses (with_role target q t.members),
  length-addresses t.members,
  owners-with_role t.members target r q ft,
  sole-owner t.members actor target r one fa ne ft,
)

without_member-shrinks : (a : String) (ms : List Member) → length (without_member a ms) ≤ length ms
unfolding without_member
without_member-shrinks a ms = length-keep (λ m. not (str_eq m.address a)) ms

pub without_member-IsTeam :
    (t : Team) (target : String) (r : Role)
    → IsTeam t
    → role_of t target ≡ some r
    → is_owner r ≡ 0
    → IsTeam (record t { members = without_member target t.members })
unfolding IsTeam role_of
without_member-IsTeam t target r (one, (d, n)) ft z = ground (
  arith,
  owners-without_member target t.members r d ft,
  distinct-without_member target t.members d,
  without_member-shrinks target t.members,
)

pub snoc-IsTeam :
    (t : Team) (m : Member)
    → IsTeam t
    → role_of t m.address ≡ none
    → is_owner m.role ≡ 0
    → suc (length t.members) ≤ max_team_members
    → IsTeam (record t { members = t.members ++ m ∷ [] })
unfolding IsTeam role_of
snoc-IsTeam t m (one, (d, n)) f z h = ground (
  arith,
  owners-append t.members (m ∷ []),
  distinct-snoc t.members m d,
  includes-addresses t.members m.address,
  length-append t.members (m ∷ []),
)

-- A guard that answers an error keeps the invariant when the code behind it does.
pub guard-IsTeams {ℓ} :
    {A : Type ℓ} (b : Bool) (x y : Teams × A)
    → IsTeams x.0
    → (b ≡ false → IsTeams y.0)
    → IsTeams (if b then x else y).0
guard-IsTeams true x y v w = v
guard-IsTeams false x y v w = w refl

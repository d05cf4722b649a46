-- ===== src/Teams/Model.antt =====
-- src/teams.js: the records of teams and memberships, roles and their order, and the steps on the
-- store that the operations share.
use arbiter_backend.Base.{
  ℕ, String, Bool, false, not, Option, none, some, List, [], ◌∷◌, leb, ◌==◌, str_eq, keep, length,
  includes, without, if◌then◌else◌, is_some, Assoc, lookup, insert, remove,
}

pub data Role : Type 0 where
  owner admin member : Role

abbrev pub rank : Role → ℕ
rank owner = 3
rank admin = 2
rank member = 1

pub record Member : Type 0 where
  pub address : String
  pub role : Role
  pub added_at : ℕ
  pub added_by : String

pub record Team : Type 0 where
  pub id : String
  pub name : String
  pub created_at : ℕ
  pub created_by : String
  pub members : List Member
  pub updated_at : ℕ

pub record Teams : Type 0 where
  pub teams : Assoc Team  -- `team:{id}`
  pub memberships : Assoc (List String)  -- `team-memberships:{address}`
  pub known_team_ids : List String

pub data TeamError : Type 0 where
  invalid_owner name_required name_too_long role_not_assignable unknown_role : TeamError
  no_such_team role_required members_required invalid_addresses team_full : TeamError
  in_too_many_teams not_a_member own_role owner_not_removable : TeamError

pub data Result {ℓ} (A : Type ℓ) : Type ℓ where
  ok : A → Result A
  err : TeamError → Result A

abbrev pub status_of : TeamError → ℕ
status_of no_such_team = 404
status_of not_a_member = 404
status_of role_required = 403
status_of team_full = 409
status_of in_too_many_teams = 409
status_of own_role = 409
status_of owner_not_removable = 409
status_of _ = 400

abbrev pub max_tracked_teams : ℕ
max_tracked_teams = 5_000

abbrev pub max_team_members : ℕ
max_team_members = 100

abbrev pub max_teams_per_address : ℕ
max_teams_per_address = 20

abbrev pub max_team_name_length : ℕ
max_team_name_length = 80

abbrev pub find_role : List Member → String → Option Role
find_role [] a = none
find_role (m ∷ ms) a = if str_eq m.address a then some m.role else find_role ms a

unfoldable pub role_of : Team → String → Option Role
role_of team address = find_role team.members address

abbrev pub at_least : Option Role → Role → Bool
at_least none r = false
at_least (some q) r = leb (rank r) (rank q)

unfoldable pub has_role : Team → String → Role → Bool
unfolding role_of
has_role team address min_role = at_least (role_of team address) min_role

abbrev pub list_or_empty : Option (List String) → List String
list_or_empty none = []
list_or_empty (some l) = l

unfoldable pub get_memberships : String → Teams → List String
get_memberships address s = list_or_empty (lookup address s.memberships)

unfoldable pub add_membership : String → String → Teams → Teams × Result (Unit {0})
unfolding get_memberships
add_membership address team_id s =
    let existing = get_memberships address s in
    if includes existing team_id
    then (s, ok tt)
    else if leb max_teams_per_address (length existing)
    then (s, err in_too_many_teams)
    else (record s { memberships = insert address (team_id ∷ existing) s.memberships }, ok tt)

abbrev written : String → List String → Assoc (List String) → Assoc (List String)
written address [] m = remove address m
written address (x ∷ xs) m = insert address (x ∷ xs) m

unfoldable pub remove_membership : String → String → Teams → Teams
unfolding get_memberships
remove_membership address team_id s =
    let existing = get_memberships address s in
    let next = without team_id existing in
    if length next == length existing
    then s
    else record s { memberships = written address next s.memberships }

-- An empty id is looked up nowhere.
unfoldable pub get_team : String → Teams → Option Team
get_team team_id s = if str_eq team_id "" then none else lookup team_id s.teams

abbrev pub check_team_role : Option Team → String → Role → Result Team
check_team_role none actor min_role = err no_such_team
check_team_role (some team) actor min_role =
    if not (is_some (role_of team actor))
    then err no_such_team
    else if not (has_role team actor min_role)
    then err role_required
    else ok team

unfoldable pub require_team_role : String → String → Role → Teams → Result Team
unfolding get_team has_role role_of
require_team_role team_id actor min_role s = check_team_role (get_team team_id s) actor min_role

unfoldable pub save_team : ℕ → Team → Teams → Teams
save_team now team s = record s {
  teams = insert team.id (record team { updated_at = now }) s.teams;
}

-- `member.role = role` for the first member with the address.
unfoldable pub with_role : String → Role → List Member → List Member
with_role a r [] = []
with_role a r (m ∷ ms) =
    let rest = with_role a r ms in
    if str_eq m.address a then record m { role = r } ∷ ms else m ∷ rest

unfoldable pub without_member : String → List Member → List Member
without_member a ms = keep (λ m. not (str_eq m.address a)) ms

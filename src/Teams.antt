-- ===== src/Teams.antt =====
-- src/teams.js: teams of addresses with one owner. The store's records have no expiry, so each
-- namespace is a map. The address check, `trim` and the length of a text are the runtime's, the
-- fresh id and the time are arguments. Operations run one after another, and answer with the error
-- of the code where they throw.
pub mod Model
pub mod Members
pub mod Access
pub mod Invariant
pub mod Preserve
pub mod Additions
pub mod Atomic
pub mod Commands
use arbiter_backend.Base.{
  ℕ, zero, suc, ◌+◌, String, Bool, true, false, not, ◌&&◌, ◌||◌, Option, none, some, List, [], ◌∷◌,
  ◌++◌, ltb, leb, ◌==◌, str_eq, keep, exists, length, take, includes, without, unique,
  if◌then◌else◌, is_some, Assoc, lookup, insert, remove,
}
use arbiter_backend.Teams.Model.{
  Role, rank, Member, Team, Teams, TeamError, Result, status_of, max_tracked_teams,
  max_team_members, max_teams_per_address, max_team_name_length, find_role, role_of, at_least,
  has_role, list_or_empty, get_memberships, add_membership, remove_membership, get_team,
  require_team_role, save_team, with_role, without_member, owner, admin, member, ok, err,
  invalid_owner, name_required, name_too_long, role_not_assignable, unknown_role, no_such_team,
  role_required, members_required, invalid_addresses, team_full, in_too_many_teams, not_a_member,
  own_role, owner_not_removable,
}

-- `team.members.push({ address, role, addedAt, addedBy })`
abbrev pub with_entry : String → Role → String → ℕ → Team → Team
with_entry a role actor now team =
    let entry : Member = record { address = a; role = role; added_at = now; added_by = actor } in
    record team { members = team.members ++ entry ∷ [] }

module _ (trim : String → String) (text_length : String → ℕ)
    (is_valid_address : String → Bool) where
  -- `name`: `none` where the input is no text.
  validate_name : Option String → Result String
  validate_name none = err name_required
  validate_name (some name) =
      if str_eq (trim name) ""
      then err name_required
      else if ltb max_team_name_length (text_length (trim name))
      then err name_too_long
      else ok (trim name)

  finish_create : Team → ℕ → Teams × Result (Unit {0}) → Teams × Result Team
  finish_create team now (s, err e) = (s, err e)
  finish_create team now (s, ok _) =
      let saved = save_team now team s in
      (
        record saved { known_team_ids = take max_tracked_teams (team.id ∷ saved.known_team_ids) },
        ok (record team { updated_at = now }),
      )

  named_create : String → String → ℕ → Teams → Result String → Teams × Result Team
  named_create id owner_address now s (err e) = (s, err e)
  named_create id owner_address now s (ok name) =
      let first : Member = record {
        address = owner_address;
        role = owner;
        added_at = now;
        added_by = owner_address;
      } in
      let team : Team = record {
        id = id;
        name = name;
        created_at = now;
        created_by = owner_address;
        members = first ∷ [];
        updated_at = now;
      } in
      finish_create team now (add_membership owner_address id s)

  unfoldable pub create_team : String → String → Option String → ℕ → Teams → Teams × Result Team
  unfolding named_create finish_create validate_name add_membership save_team
  create_team id owner_address name now s =
      if not (is_valid_address owner_address)
      then (s, err invalid_owner)
      else named_create id owner_address now s (validate_name name)

  rename_checked : ℕ → Teams → Result Team → Result String → Teams × Result Team
  rename_checked now s (err e) name = (s, err e)
  rename_checked now s (ok team) (err e) = (s, err e)
  rename_checked now s (ok team) (ok name) =
      let renamed = record team { name = name } in
      (save_team now renamed s, ok (record renamed { updated_at = now }))

  unfoldable pub rename_team : String → String → Option String → ℕ → Teams → Teams × Result Team
  unfolding rename_checked validate_name save_team require_team_role
  rename_team team_id actor name now s =
      rename_checked now s (require_team_role team_id actor admin s) (validate_name name)

  abbrev pub additions_of : Team → List String → List String
  additions_of team addresses = keep (λ a. not (is_some (role_of team a))) (unique addresses)

  -- The loop over the additions: a membership, then the member.
  add_each : List String → Role → String → ℕ → Team → Teams → Teams × Result Team
  add_each [] role actor now team s = (s, ok team)
  add_each (a ∷ rest) role actor now team s =
      let (s', added) = add_membership a team.id s in
      let all = add_each rest role actor now (with_entry a role actor now team) s' in
      elim added [ ok _ ↦ all | err e ↦ (s', err e) ]

  saved_team : ℕ → Teams × Result Team → Teams × Result Team
  saved_team now (s, err e) = (s, err e)
  saved_team now (s, ok team) = (save_team now team s, ok (record team { updated_at = now }))

  add_checked : List String → Role → String → ℕ → Teams → Result Team → Teams × Result Team
  add_checked addresses role actor now s (err e) = (s, err e)
  add_checked addresses role actor now s (ok team) =
      let additions = additions_of team addresses in
      if length addresses == 0
      then (s, err members_required)
      else if exists (λ a. not (is_valid_address a)) addresses
      then (s, err invalid_addresses)
      else if ltb max_team_members (length team.members + length additions)
      then (s, err team_full)
      else if length additions == 0
      then (s, ok team)
      else if exists (λ a. leb max_teams_per_address (length (get_memberships a s))) additions
      then (s, err in_too_many_teams)
      else saved_team now (add_each additions role actor now team s)

  -- `role`: `none` where the input is not 'admin' or 'member' ('owner' is refused alike).
  unfoldable pub add_members :
      String → String → List String → Option Role → ℕ → Teams → Teams × Result Team
  unfolding add_checked add_each saved_team require_team_role add_membership save_team
  add_members team_id actor addresses none now s = (s, err role_not_assignable)
  add_members team_id actor addresses (some owner) now s = (s, err role_not_assignable)
  add_members team_id actor addresses (some admin) now s =
      add_checked addresses admin actor now s (require_team_role team_id actor owner s)
  add_members team_id actor addresses (some member) now s =
      add_checked addresses member actor now s (require_team_role team_id actor admin s)

-- The members after a change of role; a transfer of ownership makes the old owner an admin.
unfoldable pub reassigned : String → String → Role → List Member → List Member
unfolding with_role
reassigned actor target owner ms = with_role target owner (with_role actor admin ms)
reassigned actor target role ms = with_role target role ms

role_checked : String → String → Role → ℕ → Teams → Result Team → Teams × Result Team
role_checked actor target role now s (err e) = (s, err e)
role_checked actor target role now s (ok team) =
    if not (is_some (role_of team target))
    then (s, err not_a_member)
    else if str_eq target actor
    then (s, err own_role)
    else let changed = record team { members = reassigned actor target role team.members } in
      (save_team now changed s, ok (record changed { updated_at = now }))

-- `role`: `none` where the input is none of the roles.
unfoldable pub set_member_role :
    String → String → String → Option Role → ℕ → Teams → Teams × Result Team
unfolding role_checked require_team_role save_team
set_member_role team_id actor target none now s = (s, err unknown_role)
set_member_role team_id actor target (some role) now s =
    role_checked actor target role now s (require_team_role team_id actor owner s)

drop_member : String → String → ℕ → Team → Teams → Teams × Result Team
drop_member team_id target now team s =
    let changed = record team { members = without_member target team.members } in
    (
      remove_membership target team_id (save_team now changed s),
      ok (record changed { updated_at = now }),
    )

abbrev required_to_remove : Role → Role
required_to_remove admin = owner
required_to_remove _ = admin

remove_known : String → String → String → ℕ → Team → Teams → Option Role → Teams × Result Team
remove_known team_id actor target now team s none = (s, err not_a_member)
remove_known team_id actor target now team s (some owner) = (s, err owner_not_removable)
remove_known team_id actor target now team s (some role) =
    if str_eq target actor || has_role team actor (required_to_remove role)
    then drop_member team_id target now team s
    else (s, err role_required)

remove_checked : String → String → String → ℕ → Teams → Result Team → Teams × Result Team
remove_checked team_id actor target now s (err e) = (s, err e)
remove_checked team_id actor target now s (ok team) =
    remove_known team_id actor target now team s (role_of team target)

unfoldable pub remove_member : String → String → String → ℕ → Teams → Teams × Result Team
unfolding remove_checked remove_known drop_member require_team_role remove_membership save_team
remove_member team_id actor target now s =
    remove_checked team_id actor target now s (require_team_role team_id actor member s)

remove_all : List Member → String → Teams → Teams
remove_all [] team_id s = s
remove_all (m ∷ ms) team_id s = remove_all ms team_id (remove_membership m.address team_id s)

delete_checked : String → Teams → Result Team → Teams × Result (Unit {0})
delete_checked team_id s (err e) = (s, err e)
delete_checked team_id s (ok team) =
    let gone = record s { teams = remove team_id s.teams } in
    let left = remove_all team.members team_id gone in
    (record left { known_team_ids = without team_id left.known_team_ids }, ok tt)

unfoldable pub delete_team : String → String → Teams → Teams × Result (Unit {0})
unfolding delete_checked remove_all require_team_role remove_membership
delete_team team_id actor s = delete_checked team_id s (require_team_role team_id actor owner s)

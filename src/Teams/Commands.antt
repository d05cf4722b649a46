-- ===== src/Teams/Commands.antt =====
-- Sequences of the operations of src/teams.js, one request after another.
use arbiter_backend.Base.{arith, ℕ, String, ◌≡◌, refl, Bool, Option, none, some, List, [], ◌∷◌}
use arbiter_backend.Teams.Model.{Role, Teams, TeamError, Result, ok, err}
use arbiter_backend.Teams.{
  create_team, rename_team, add_members, set_member_role, remove_member, delete_team,
}
use arbiter_backend.Teams.Invariant.{IsTeams}
use arbiter_backend.Teams.Preserve.{
  create_team-IsTeams, rename_team-IsTeams, set_member_role-IsTeams, remove_member-IsTeams,
  delete_team-IsTeams,
}
use arbiter_backend.Teams.Additions.{add_members-IsTeams}
use arbiter_backend.Teams.Atomic.{
  Atomic, create_team-err, rename_team-err, add_members-err, set_member_role-err, remove_member-err,
  delete_team-err,
}

pub data Command : Type 0 where
  create : (id owner_address : String) (name : Option String) → Command
  rename : (team_id actor : String) (name : Option String) → Command
  add : (team_id actor : String) (addresses : List String) (role : Option Role) → Command
  set_role : (team_id actor target : String) (role : Option Role) → Command
  remove_one : (team_id actor target : String) → Command
  delete_all : (team_id actor : String) → Command

abbrev pub failure {ℓ} : {A : Type ℓ} → Teams × Result A → Teams × Option TeamError
failure (s, ok a) = (s, none)
failure (s, err e) = (s, some e)

failure-unchanged {ℓ} :
    {A : Type ℓ} (s : Teams) (p : Teams × Result A) (e : TeamError)
    → Atomic s p
    → (failure p).1 ≡ some e
    → (failure p).0 ≡ s
unfolding Atomic
failure-unchanged s (t, ok a) e w f = absurd (ground arith)
failure-unchanged s (t, err d) e w f = w d refl

module _ (trim : String → String) (text_length : String → ℕ)
    (is_valid_address : String → Bool) where
  unfoldable pub perform : Command → ℕ → Teams → Teams × Option TeamError
  unfolding create_team rename_team add_members set_member_role remove_member delete_team
  perform (create id a name) now s =
      failure (create_team trim text_length is_valid_address id a name now s)
  perform (rename id actor name) now s =
      failure (rename_team trim text_length is_valid_address id actor name now s)
  perform (add id actor xs role) now s =
      failure (add_members trim text_length is_valid_address id actor xs role now s)
  perform (set_role id actor target role) now s =
      failure (set_member_role id actor target role now s)
  perform (remove_one id actor target) now s = failure (remove_member id actor target now s)
  perform (delete_all id actor) now s = failure (delete_team id actor s)

  unfoldable pub perform_all : List (Command × ℕ) → Teams → Teams
  unfolding perform
  perform_all [] s = s
  perform_all ((c, now) ∷ cs) s = perform_all cs (perform c now s).0

  failure-IsTeams {ℓ} : {A : Type ℓ} (p : Teams × Result A) → IsTeams p.0 → IsTeams (failure p).0
  failure-IsTeams (s, ok a) w = w
  failure-IsTeams (s, err e) w = w

  perform-IsTeams : (c : Command) (now : ℕ) (s : Teams) → IsTeams s → IsTeams (perform c now s).0
  unfolding perform
  perform-IsTeams (create id a name) now s w =
      failure-IsTeams _ (create_team-IsTeams trim text_length is_valid_address id a name now s w)
  perform-IsTeams (rename id actor name) now s w =
      failure-IsTeams _
        (rename_team-IsTeams trim text_length is_valid_address id actor name now s w)
  perform-IsTeams (add id actor xs role) now s w =
      failure-IsTeams _
        (add_members-IsTeams trim text_length is_valid_address id actor xs role now s w)
  perform-IsTeams (set_role id actor target role) now s w =
      failure-IsTeams _ (set_member_role-IsTeams id actor target role now s w)
  perform-IsTeams (remove_one id actor target) now s w =
      failure-IsTeams _ (remove_member-IsTeams id actor target now s w)
  perform-IsTeams (delete_all id actor) now s w =
      failure-IsTeams _ (delete_team-IsTeams id actor s w)

  -- Whatever operations run in whatever order, on whatever times, from a store in which each team
  -- stands under its id and has exactly one owner, no address twice and at most 100 members, the
  -- store they leave is one again.
  pub teams_stay_well_formed :
      (cs : List (Command × ℕ)) (s : Teams) → IsTeams s → IsTeams (perform_all cs s)
  unfolding perform_all
  teams_stay_well_formed [] s w = w
  teams_stay_well_formed ((c, now) ∷ cs) s w =
      teams_stay_well_formed cs _ (perform-IsTeams c now s w)

  -- An operation that answers with an error leaves the store as it was.
  pub failed_command_changes_nothing :
      (c : Command) (now : ℕ) (s : Teams) (e : TeamError)
      → (perform c now s).1 ≡ some e
      → (perform c now s).0 ≡ s
  unfolding perform
  failed_command_changes_nothing (create id a name) now s e f =
      failure-unchanged s _ e (create_team-err trim text_length is_valid_address id a name now s) f
  failed_command_changes_nothing (rename id actor name) now s e f =
      failure-unchanged s _ e
        (rename_team-err trim text_length is_valid_address id actor name now s) f
  failed_command_changes_nothing (add id actor xs role) now s e f =
      failure-unchanged s _ e
        (add_members-err trim text_length is_valid_address id actor xs role now s) f
  failed_command_changes_nothing (set_role id actor target role) now s e f =
      failure-unchanged s _ e (set_member_role-err id actor target role now s) f
  failed_command_changes_nothing (remove_one id actor target) now s e f =
      failure-unchanged s _ e (remove_member-err id actor target now s) f
  failed_command_changes_nothing (delete_all id actor) now s e f =
      failure-unchanged s _ e (delete_team-err id actor s) f

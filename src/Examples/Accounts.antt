-- ===== src/Examples/Accounts.antt =====
-- Teams, pools, referrals, maintenance windows and the routing of questions.
use arbiter_backend.Base.{
  ℤ, pos, negsuc, ℕ, ◌≤◌, String, ◌≡◌, refl, Bool, true, false, Option, none, some, List, [], ◌∷◌,
  arith, length, includes, exists, All, lookup, if◌then◌else◌, leb,
}
use arbiter_backend.Teams.Model.{Team, Teams, Member, owner, member, no_such_team, get_team}
use arbiter_backend.Teams.Invariant.{IsTeams}
use arbiter_backend.Teams.Commands.{
  Command, create, add, set_role, remove_one, perform, perform_all, teams_stay_well_formed,
  failed_command_changes_nothing,
}
use arbiter_backend.Routing.{Reputations, Gate, Worker, select_targets}
use arbiter_backend.Routing.Targets.{private_pool_fails_closed, routing_never_strands}
use arbiter_backend.Pools.{Pools, Ledger, Attribution}
use arbiter_backend.Settle.{chain_pending}
use arbiter_backend.Jobs.{holding}
use arbiter_backend.Admission.{OnChain, Held}
use arbiter_backend.Consensus.{Entry, Attempt, returned, threw}
use arbiter_backend.Pools.Referral.{Payment}

abbrev same_text : String → String
same_text t = t

abbrev ten : String → ℕ
ten t = 10

abbrev always : String → Bool
always a = true

abbrev no_teams : Teams
no_teams = record { teams = []; memberships = []; known_team_ids = [] }

abbrev some_commands : List (Command × ℕ)
some_commands =
    (create "t" "ann" (some "Data"), 1)
    ∷ (add "t" "ann" ("bob" ∷ "cid" ∷ []) (some member), 2)
    ∷ (set_role "t" "ann" "bob" (some owner), 3)
    ∷ (remove_one "t" "bob" "ann", 4)
    ∷ []

no_teams-IsTeams : IsTeams no_teams
unfolding IsTeams lookup
no_teams-IsTeams id t e = absurd (ground arith)

teams_stay_well_formed_example : IsTeams (perform_all same_text ten always some_commands no_teams)
teams_stay_well_formed_example =
    teams_stay_well_formed same_text ten always some_commands no_teams no_teams-IsTeams

failed_command_changes_nothing_example :
    (perform same_text ten always (add "t" "ann" ("bob" ∷ []) (some member)) 5 no_teams).0
    ≡ no_teams
unfolding perform get_team lookup
failed_command_changes_nothing_example =
    failed_command_changes_nothing same_text ten always (add "t" "ann" ("bob" ∷ []) (some member)) 5
      no_teams no_such_team refl

abbrev ann : Member
ann = record { address = "ann"; role = owner; added_at = 1; added_by = "ann" }

abbrev data_team : Team
data_team = record {
  id = "t";
  name = "Data";
  created_at = 1;
  created_by = "ann";
  members = ann ∷ [];
  updated_at = 1;
}

abbrev one_team : Teams
one_team = record {
  teams = ("t", data_team) ∷ [];
  memberships = ("ann", "t" ∷ []) ∷ [];
  known_team_ids = "t" ∷ [];
}

abbrev never : String → Bool
never a = false

abbrev no_stake : String → Option ℕ
no_stake a = none

abbrev a_gate : Gate
a_gate = record { min_answers = 5; min_match_ratio = 60; min_stake = 0 }

abbrev no_reps : Reputations
no_reps = record { reps = []; known_worker_ids = [] }

abbrev two_workers : List Worker
two_workers =
    record { id = "w1"; categories = [] } ∷ record { id = "w2"; categories = "law" ∷ [] } ∷ []

private_pool_fails_closed_example :
    All
      (λ w. includes ("w2" ∷ []) w.id ≡ true)
      (select_targets never no_stake a_gate no_reps
        (some "tax")
        true
        3
        (some ("w2" ∷ []))
        two_workers)
    × (leb 1 (
          length (
            select_targets never no_stake a_gate no_reps
              (some "tax")
              true
              3
              (some ("w2" ∷ []))
              two_workers))
        ≡ exists (λ w. includes ("w2" ∷ []) w.id) two_workers)
private_pool_fails_closed_example =
    private_pool_fails_closed never no_stake a_gate no_reps (some "tax") true 3 ("w2" ∷ [])
      two_workers (omega arith)

routing_never_strands_example :
    1 ≤ length (select_targets never no_stake a_gate no_reps (some "tax") true 3 none two_workers)
routing_never_strands_example =
    routing_never_strands never no_stake a_gate no_reps (some "tax") true 3 two_workers
      (omega arith) (omega arith)

abbrev some_outcomes : List (String × Bool)
some_outcomes = ("w1", true) ∷ ("w2", false) ∷ ("w1", false) ∷ []

abbrev one_pool : Pools
one_pool = record { pools = ("pat", "w1" ∷ []) ∷ []; owners = "pat" ∷ [] }

abbrev an_attribution : Attribution
an_attribution = record {
  payer = "pat";
  referrer = "w1";
  code = "ARB-1";
  first_payment_stroops = 100;
  reward_stroops = 5;
  attributed_at = 1;
}

abbrev a_ledger : Ledger
a_ledger = record {
  referrals = ("pat", an_attribution) ∷ [];
  earnings = ("w1", 5) ∷ [];
  referred_payers = ("w1", "pat" ∷ []) ∷ [];
  known_referrers = "w1" ∷ [];
}

abbrev code_of_w2 : String → Option (String × String)
code_of_w2 c = some ("w2", c)

abbrev pays : String → Payment
pays payer = record { payer = payer; code = "ARB-2"; amount = 20_000; is_first = true; now = 9 }

abbrev second_attribution : Attribution
second_attribution = record {
  payer = "quin";
  referrer = "w2";
  code = "ARB-2";
  first_payment_stroops = 20_000;
  reward_stroops = 1_000;
  attributed_at = 9;
}

abbrev a_question : OnChain
a_question = record { status = chain_pending; amount = 70; payer = "pat" }

abbrev a_held : Held
a_held = record { sandbox = false; is_instant = false; status = some holding; payer = some "pat" }

abbrev an_entry : String → ℤ → Entry
an_entry w v = record { worker_id = w; answer = "number"; value = v }

-- In halves: the answers -0.5, 1 and 2.5, of which all are within 1.5 of the middle one.
abbrev three_entries : List Entry
three_entries = an_entry "w1" (negsuc 0) ∷ an_entry "w2" (pos 2) ∷ an_entry "w3" (pos 5) ∷ []

abbrev fails_twice : ℕ → Attempt ℕ
fails_twice n = if leb n 1 then returned 7 else threw true

-- ===== src/Examples/Settling.antt =====
-- Dispatch, settlement and pauses.
use Prim.Native.Nat.{max}
use arbiter_backend.Base.{
  ℕ, ◌≤◌, String, ◌≡◌, refl, Bool, true, false, Option, none, some, List, [], ◌∷◌, is_some, Assoc,
  insert, lookup,
}
use arbiter_backend.Collector.{Event, answered, timed_out, broadcast, register_collector, run}
use arbiter_backend.Collector.Quorum.{timeout_resolves}
use arbiter_backend.Collector.Quorum.Fair.{IsFair, collected_fairly, resolved_once}
use arbiter_backend.Jobs.{Jobs}
use arbiter_backend.Routing.{Reputations}
use arbiter_backend.Settle.{
  ChainStatus, chain_pending, chain_resolved, chain_refunded, Submission, Result, State, Order,
}
use arbiter_backend.Maintenance.{Window, PauseInfo, compute_pause, sort_by_start, extend}
use arbiter_backend.Maintenance.Pause.{EndsRight, compute_pause_exact}

abbrev clean : String → Bool
clean a = true

abbrev two_answers : List Event
two_answers =
    answered "w1" "yes" ∷ answered "w1" "no" ∷ answered "eve" "no" ∷ answered "w2" "yes" ∷ []

abbrev collected : Assoc String
collected = ("w1", "yes") ∷ ("w2", "yes") ∷ []

collected_fairly_example : IsFair clean 2 (some ("w1" ∷ "w2" ∷ [])) collected × (2 ≤ max 1 2)
unfolding run register_collector lookup insert
collected_fairly_example =
    collected_fairly clean 2 (some ("w1" ∷ "w2" ∷ [])) two_answers collected refl

resolved_once_example :
    (run clean
      (timed_out ∷ [])
      (run clean two_answers (register_collector 2 (some ("w1" ∷ "w2" ∷ []))))).resolved
    ≡ some collected
unfolding run register_collector lookup insert
resolved_once_example =
    resolved_once clean 2 (some ("w1" ∷ "w2" ∷ [])) two_answers (timed_out ∷ []) collected refl

timeout_resolves_example :
    is_some
      (run clean
        (answered "w1" "yes" ∷ timed_out ∷ broadcast 3 ∷ [])
        (register_collector 2 none)).resolved
    ≡ true
timeout_resolves_example =
    timeout_resolves clean (answered "w1" "yes" ∷ []) (broadcast 3 ∷ []) (register_collector 2 none)

-- A chain with one question.
abbrev resolves : String → List String → List String → ChainStatus → ChainStatus × Option String
resolves id ws ls chain_pending = (chain_resolved, some "tx")
resolves id ws ls c = (c, none)

abbrev refunds : String → ChainStatus → ChainStatus × Option String
refunds id chain_pending = (chain_refunded, some "tx")
refunds id c = (c, none)

abbrev reads : String → ChainStatus → Option ChainStatus
reads id c = some c

abbrev no_jobs : Jobs
no_jobs = record {
  jobs = [];
  known_job_ids = [];
  pending_reviews = [];
  escalated = [];
  synthetic = [];
  settlements = [];
}

abbrev no_reputations : Reputations
no_reputations = record { reps = []; known_worker_ids = [] }

abbrev fresh : State ChainStatus
fresh = record {
  chain = chain_pending;
  jobs = no_jobs;
  reputations = no_reputations;
  resolved_count = 0;
  refunded_count = 0;
  dropped = [];
  announced = [];
}

abbrev agreed : List Submission → Result
agreed subs = record { consensus = some "yes"; confidence = 66; matching_worker_ids = "w1" ∷ [] }

abbrev answers : List Submission
answers =
    record { worker_id = "w1"; answer = "yes" } ∷ record { worker_id = "w2"; answer = "no" } ∷ []

-- A question of a quorum asked with an API key; its private pool is offline.
abbrev an_order : Order
an_order = record {
  instant = false;
  price_stroops = 40;
  owner_account = some "acme";
  pool_is_offline = true;
}

abbrev a_pause_window : ℕ → ℕ → Window
a_pause_window starts ends = record {
  id = "mw";
  starts_at = starts;
  ends_at = ends;
  reason = none;
  created_at = 0;
  created_by = "admin";
}

abbrev until_30 : PauseInfo
until_30 = record { window_id = "mw"; reason = none; starts_at = 10; resumes_at = 30 }

compute_pause_exact_example :
    EndsRight (a_pause_window 20 30 ∷ a_pause_window 10 20 ∷ []) 15 until_30
unfolding compute_pause sort_by_start extend
compute_pause_exact_example =
    compute_pause_exact (a_pause_window 20 30 ∷ a_pause_window 10 20 ∷ []) 15 until_30 refl

-- ===== src/Examples/Questions.antt =====
-- The life of a question: claim, hold, dispatch, vote, settlement and review.
use arbiter_backend.Base.{◌≡◌, refl, ℕ, some, List, [], ◌∷◌, ◌++◌, arith, lookup}
use arbiter_backend.Store.{MemoryStore, view}
use arbiter_backend.UndoWindow.{Holds}
use arbiter_backend.UndoWindow.Race.{
  Event, fires, cancels, run, effects_of, first_wish, race_decided_once,
}
use arbiter_backend.Jobs.{
  Job, Jobs, Status, settled, awaiting_workers, Outcome, resolved, empty_job, spread, or_empty,
}
use arbiter_backend.Jobs.Settlement.{update_all, settled_counted_once}

abbrev no_holds : Holds
no_holds = record { decisions = []; winners = []; timers = []; effects = [] }

abbrev late_cancel : List Event
late_cancel = fires "7" 100 ∷ cancels "7" 101 ∷ []

race_decided_once_example :
    effects_of "7" (run 1000 no_holds late_cancel).effects
    ≡ effects_of "7" [] ++ first_wish "7" late_cancel
unfolding view lookup
race_decided_once_example =
    race_decided_once 1000 "7" 100 no_holds late_cancel (omega arith) (λ t l h. refl)
      (omega arith, omega arith, (omega arith, omega arith, tt))

abbrev a_job : Status → Job
a_job st = record empty_job { status = some st }

abbrev jobs_with : Status → Jobs
jobs_with st = record {
  jobs = ("7", record { value = a_job st; expires_at = some 900 }) ∷ [];
  known_job_ids = "7" ∷ [];
  pending_reviews = "7" ∷ "8" ∷ [];
  escalated = [];
  synthetic = [];
  settlements = [];
}

abbrev settling : Job
settling = record empty_job { status = some settled; outcome = some resolved }

settled_counted_once_example :
    (update_all "7" 1000
      ((settling, 5) ∷ (empty_job, 6) ∷ [])
      (jobs_with awaiting_workers)).settlements
    ≡ (spread (or_empty (view (jobs_with awaiting_workers).jobs "7" 5)) settling).outcome ∷ []
unfolding view lookup
settled_counted_once_example =
    settled_counted_once "7" settling 1000 5 ((empty_job, 6) ∷ []) (jobs_with awaiting_workers)
      (omega arith) refl refl (omega arith, (refl, tt))

abbrev approved : Job → Outcome → Jobs → Jobs × Job
approved job outcome s = (s, record job { outcome = some outcome })

abbrev no_reviews : Jobs
no_reviews = record (jobs_with awaiting_workers) { pending_reviews = [] }

abbrev jobless : Jobs
jobless = record {
  jobs = [];
  known_job_ids = [];
  pending_reviews = [];
  escalated = [];
  synthetic = [];
  settlements = [];
}

abbrev no_claims : MemoryStore ℕ
no_claims = []

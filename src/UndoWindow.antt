-- ===== src/UndoWindow.antt =====
-- src/undoWindow.js: the hold between a paid job and its dispatch, decided once by the first of
-- "dispatch" and "cancel" to increment the job's counter. The callbacks `dispatch` and `refund` are
-- recorded in the order in which they run.
pub mod Race
use arbiter_backend.Base.{
  ℕ, suc, String, Bool, true, false, Option, none, some, List, [], ◌∷◌, ◌++◌, ◌==◌, str_eq,
  includes, without, if◌then◌else◌,
}
use arbiter_backend.Store.{MemoryStore, incr, set, get}
use arbiter_backend.Pricing.{Tier}

pub data Decision : Type 0 where
  dispatch cancel : Decision

-- What ran for a job.
pub record Effect : Type 0 where
  pub job_id : String
  pub ran : Decision

pub record Holds : Type 0 where
  pub decisions : MemoryStore ℕ  -- `undo-decision:{jobId}`
  pub winners : MemoryStore Decision  -- `undo-decision:{jobId}:winner`
  pub timers : List String  -- the jobs with a timer in this process
  pub effects : List Effect

-- No tier, or the instant one, is not held. `hold_ms` is the configured number, not negative.
unfoldable pub undo_window_for : Option Tier → ℕ → ℕ
undo_window_for none hold_ms = 0
undo_window_for (some t) hold_ms = if t.instant then 0 else hold_ms

module _ (job_result_ttl_ms : ℕ) where
  unfoldable pub claim_undo_decision : String → Decision → ℕ → Holds → Holds × Bool
  claim_undo_decision job_id decision now h =
      let (decisions, count) = incr job_id job_result_ttl_ms now h.decisions in
      let claimed = record h { decisions = decisions } in
      if count == 1
      then (record claimed { winners = set job_id decision job_result_ttl_ms now h.winners }, true)
      else (claimed, false)

  unfoldable pub get_undo_decision : String → ℕ → Holds → Holds × Option Decision
  get_undo_decision job_id now h =
      let (winners, found) = get job_id now h.winners in (record h { winners = winners }, found)

  ran_after : String → Decision → Holds × Bool → Holds
  ran_after job_id d (h, won) =
      if won
      then record h { effects = h.effects ++ record { job_id = job_id; ran = d } ∷ [] }
      else h

  -- The timer's callback: it leaves the timers, and dispatches if its claim wins.
  unfoldable pub timer_fires : String → ℕ → Holds → Holds
  unfolding claim_undo_decision ran_after
  timer_fires job_id now h =
      let fired = record h { timers = without job_id h.timers } in
      ran_after job_id dispatch (claim_undo_decision job_id dispatch now fired)

  unfoldable pub cancel_held : String → ℕ → Holds → Holds × Bool
  unfolding claim_undo_decision ran_after
  cancel_held job_id now h =
      let (claimed, won) = claim_undo_decision job_id cancel now h in
      let stopped = record claimed { timers = without job_id claimed.timers } in
      if won then (ran_after job_id cancel (stopped, true), true) else (claimed, false)

-- `timers.set(jobId, timer)`
unfoldable pub hold_then_dispatch : String → Holds → Holds
hold_then_dispatch job_id h = record h {
  timers = if includes h.timers job_id then h.timers else job_id ∷ h.timers;
}

-- ===== src/Jobs/Settlement.antt =====
-- updateJob: a settlement is counted at the step into `settled`, and only there.
use arbiter_backend.Base.{
  ℕ, ◌+◌, ◌≤◌, ◌<◌, String, ◌≡◌, refl, true, false, not, ◌&&◌, some, List, [], ◌∷◌, arith, eq_refl,
  if◌then◌else◌, or_else,
}
use arbiter_backend.Store.{view, get}
use arbiter_backend.Store.Expiry.{get-view, view-set}
use arbiter_backend.Jobs.{Job, Jobs, settled, is_settled, or_empty, get_job, update_job, spread}
use arbiter_backend.Jobs.Review.{status_at}

-- A row of patches to one job.
unfoldable pub update_all : String → ℕ → List (Job × ℕ) → Jobs → Jobs
unfolding update_job
update_all job_id ttl [] s = s
update_all job_id ttl ((patch, now) ∷ us) s =
    update_all job_id ttl us (update_job job_id patch ttl now s).0

-- Patches that come within the lifetime of the record before them and give no status but `settled`.
abbrev pub KeepSettled : ℕ → ℕ → List (Job × ℕ) → Type 0
KeepSettled ttl last [] = Unit
KeepSettled ttl last ((patch, now) ∷ us) =
    (now ≤ last + ttl)
    × ((is_settled (or_else patch.status (some settled)) ≡ true) × KeepSettled ttl now us)

update_job-status :
    (job_id : String) (patch : Job) (ttl now t : ℕ) (s : Jobs)
    → 0 < ttl
    → t ≤ now + ttl
    → status_at (update_job job_id patch ttl now s).0 job_id t
      ≡ or_else patch.status (status_at s job_id now)
unfolding update_job get_job
update_job-status job_id patch ttl now t s p h = ground (
  arith,
  (get-view job_id now s.jobs).0,
  view-set job_id job_id (update_job job_id patch ttl now s).1 ttl now t (get job_id now s.jobs).0,
  eq_refl job_id,
)

update_job-count :
    (job_id : String) (patch : Job) (ttl now : ℕ) (s : Jobs)
    → (update_job job_id patch ttl now s).0.settlements ≡ (
        if is_settled (or_else patch.status (status_at s job_id now))
          && not (is_settled (status_at s job_id now))
        then (spread (or_empty (view s.jobs job_id now)) patch).outcome ∷ s.settlements
        else s.settlements)
unfolding update_job get_job
update_job-count job_id patch ttl now s = ground (arith, (get-view job_id now s.jobs).0)

stays_settled :
    (job_id : String) (ttl last : ℕ) (us : List (Job × ℕ)) (s : Jobs)
    → 0 < ttl
    → ((t : ℕ) → t ≤ last + ttl → is_settled (status_at s job_id t) ≡ true)
    → KeepSettled ttl last us
    → (update_all job_id ttl us s).settlements ≡ s.settlements
unfolding update_all
stays_settled job_id ttl last [] s p seen w = refl
stays_settled job_id ttl last ((patch, now) ∷ us) s p seen w = ground (
  arith,
  update_job-count job_id patch ttl now s,
  seen now w.0,
  stays_settled job_id ttl now us (update_job job_id patch ttl now s).0 p
      (λ t h. ground (arith, update_job-status job_id patch ttl now t s p h, seen now w.0, (w.1).0))
      (w.1).1,
)

-- A patch that settles an open job adds one settlement with the job's outcome, and patches that
-- follow it in time add none while they do not take the job out of `settled`.
pub settled_counted_once :
    (job_id : String) (patch : Job) (ttl now : ℕ) (us : List (Job × ℕ)) (s : Jobs)
    → 0 < ttl
    → is_settled (status_at s job_id now) ≡ false
    → is_settled patch.status ≡ true
    → KeepSettled ttl now us
    → (update_all job_id ttl ((patch, now) ∷ us) s).settlements
      ≡ (spread (or_empty (view s.jobs job_id now)) patch).outcome ∷ s.settlements
unfolding update_all
settled_counted_once job_id patch ttl now us s p unsettled done w = ground (
  arith,
  update_job-count job_id patch ttl now s,
  stays_settled job_id ttl now us (update_job job_id patch ttl now s).0 p
      (λ t h. ground (arith, update_job-status job_id patch ttl now t s p h)) w,
)

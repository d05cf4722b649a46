-- ===== src/Jobs/Review.antt =====
-- The review queue: markPendingReview, getPendingReviews and approveReview.
use arbiter_backend.Base.{
  ℕ, ◌+◌, ◌≤◌, ◌<◌, String, ◌≡◌, refl, true, false, not, ◌&&◌, ◌||◌, Option, some, List, [], ◌∷◌,
  arith, includes, includes-without, All, eq_refl, eq_iff, if◌then◌else◌, str_eq, Bool-cases, inl,
  inr, is_some,
}
use arbiter_backend.Store.{view, get}
use arbiter_backend.Store.Expiry.{get-view, view-set}
use arbiter_backend.Jobs.{
  Job, Jobs, Status, Outcome, pending_review, is_settled, is_in_review, in_review, or_empty,
  get_job, mark_pending_review, get_pending_reviews, review_each, unindex_review, approve_review,
  spread,
}
use arbiter_backend.Jobs.Escalations.{is_escalated, escalation_flags}

-- The status that a reader finds.
abbrev pub status_at : Jobs → String → ℕ → Option Status
status_at s job_id now = (or_empty (view s.jobs job_id now)).status

marked : Job → Job → ℕ → Job
marked current extra now = record (spread current extra) {
  status = some pending_review;
  review_requested_at = some now;
  updated_at = some now;
}

mark-answer :
    (job_id : String) (extra : Job) (ttl now : ℕ) (s : Jobs)
    → (mark_pending_review job_id extra ttl now s).1
      ≡ (not (is_settled (status_at s job_id now)) && not (is_in_review (status_at s job_id now)))
unfolding mark_pending_review get_job
mark-answer job_id extra ttl now s = ground (arith, (get-view job_id now s.jobs).0)

mark-status :
    (job_id : String) (extra : Job) (ttl now t : ℕ) (s : Jobs)
    → 0 < ttl
    → t ≤ now + ttl
    → (mark_pending_review job_id extra ttl now s).1 ≡ true
    → is_in_review (status_at (mark_pending_review job_id extra ttl now s).0 job_id t) ≡ true
unfolding mark_pending_review get_job marked
mark-status job_id extra ttl now t s p k e = ground (
  arith,
  view-set job_id job_id (marked (or_empty (get job_id now s.jobs).1) extra now) ttl now t
      (get job_id now s.jobs).0,
  eq_refl job_id,
)

-- A job that was just sent to review is not sent there again while its record lives.
pub mark_pending_review_once :
    (job_id : String) (extra again : Job) (ttl now t : ℕ) (s : Jobs)
    → 0 < ttl
    → t ≤ now + ttl
    → (mark_pending_review job_id extra ttl now s).1 ≡ true
    → (mark_pending_review job_id again ttl t (mark_pending_review job_id extra ttl now s).0).1
      ≡ false
mark_pending_review_once job_id extra again ttl now t s p k e = ground (
  arith,
  mark-answer job_id again ttl t (mark_pending_review job_id extra ttl now s).0,
  mark-status job_id extra ttl now t s p k e,
)

review_each-jobs :
    (ids : List String) (now : ℕ) (s : Jobs) (a : String)
    → view (review_each ids now s).0.jobs a now ≡ view s.jobs a now
unfolding review_each get_job unindex_review
review_each-jobs [] now s a = refl
review_each-jobs (i ∷ ids) now s a = ground (
  arith,
  (get-view i now s.jobs).1 a now,
  review_each-jobs ids now (get_job i now s).0 a,
  review_each-jobs ids now (unindex_review i (get_job i now s).0) a,
)

includes-unindex_review :
    (i : String) (s : Jobs) (a : String)
    → includes (unindex_review i s).pending_reviews a
      ≡ (includes s.pending_reviews a && not (str_eq i a))
unfolding unindex_review
includes-unindex_review i s a = ground (arith, includes-without i s.pending_reviews a, eq_iff i a)

-- The store after the first job of the list: a job that is not in review leaves the index.
abbrev after_first : String → ℕ → Jobs → Jobs
after_first i now s =
    if in_review (view s.jobs i now)
    then (get_job i now s).0
    else unindex_review i (get_job i now s).0

review_each-step :
    (i : String) (ids : List String) (now : ℕ) (s : Jobs)
    → (review_each (i ∷ ids) now s).0 ≡ (review_each ids now (after_first i now s)).0
unfolding review_each get_job
review_each-step i ids now s = elim (Bool-cases (in_review (view s.jobs i now))) [
  | inl e ↦ ground (arith, (get-view i now s.jobs).0)
  | inr e ↦ ground (arith, (get-view i now s.jobs).0)
]

index-after_first :
    (i : String) (now : ℕ) (s : Jobs) (a : String)
    → includes (after_first i now s).pending_reviews a
      ≡ (includes s.pending_reviews a && (not (str_eq i a) || in_review (view s.jobs a now)))
unfolding get_job
index-after_first i now s a =
    ground (arith, includes-unindex_review i (get_job i now s).0 a, eq_iff i a)

jobs-after_first :
    (i : String) (now : ℕ) (s : Jobs) (a : String)
    → view (after_first i now s).jobs a now ≡ view s.jobs a now
unfolding get_job unindex_review
jobs-after_first i now s a = ground (arith, (get-view i now s.jobs).1 a now)

index-none :
    (now : ℕ) (s : Jobs) (a : String)
    → includes (review_each [] now s).0.pending_reviews a ≡ (includes s.pending_reviews a && true)
unfolding review_each
index-none now s a = ground arith

review_each-index :
    (ids : List String) (now : ℕ) (s : Jobs) (a : String)
    → includes (review_each ids now s).0.pending_reviews a
      ≡ (includes s.pending_reviews a && (not (includes ids a) || in_review (view s.jobs a now)))
review_each-index [] now s a = index-none now s a
review_each-index (i ∷ ids) now s a = rw (review_each-step i ids now s) (
    ground (
      arith,
      review_each-index ids now (after_first i now s) a,
      index-after_first i now s a,
      jobs-after_first i now s a,
    ))

review_each-in :
    (ids : List String) (now : ℕ) (s : Jobs)
    → All (λ job. is_in_review job.status ≡ true) (review_each ids now s).1
unfolding review_each get_job unindex_review
review_each-in [] now s = tt
review_each-in (i ∷ ids) now s = ground (
  arith,
  review_each-in ids now (get_job i now s).0,
  review_each-in ids now (unindex_review i (get_job i now s).0),
)

-- The list holds only jobs in review, and the index afterwards names exactly the ids that it named
-- and whose job is in review.
pub get_pending_reviews_lem :
    (now : ℕ) (s : Jobs)
    → All (λ job. is_in_review job.status ≡ true) (get_pending_reviews now s).1
      × ((a : String)
          → includes (get_pending_reviews now s).0.pending_reviews a
            ≡ (includes s.pending_reviews a && in_review (view s.jobs a now)))
unfolding get_pending_reviews
get_pending_reviews_lem now s = (
  review_each-in s.pending_reviews now s,
  λ a. ground (arith, review_each-index s.pending_reviews now s a),
)

-- A job that was just sent to review is not in the list of pending reviews: nothing puts its id
-- into the index, so that an empty index stays empty.
pub marked_review_unlisted :
    (job_id : String) (extra : Job) (ttl now t : ℕ) (s : Jobs)
    → s.pending_reviews ≡ []
    → (get_pending_reviews t (mark_pending_review job_id extra ttl now s).0).1 ≡ []
unfolding get_pending_reviews mark_pending_review get_job review_each
marked_review_unlisted job_id extra ttl now t s e = ground arith

-- An approval answers with a job exactly when the job is in review.
pub approve_review-some :
    (job_id : String) (o : Outcome) (settle : Job → Outcome → Jobs → Jobs × Job) (now : ℕ)
    (s : Jobs)
    → is_some (approve_review job_id o settle now s).1 ≡ in_review (view s.jobs job_id now)
unfolding approve_review get_job unindex_review
approve_review-some job_id o settle now s = ground (arith, (get-view job_id now s.jobs).0)

-- Approving a job in review settles it, takes it out of the review index and clears its escalation
-- as a review, whatever the settlement does to the store.
pub approve_review_lem :
    (job_id : String) (o : Outcome) (settle : Job → Outcome → Jobs → Jobs × Job) (now : ℕ)
    (s : Jobs)
    → in_review (view s.jobs job_id now) ≡ true
    → (is_some (approve_review job_id o settle now s).1 ≡ true)
      × ((includes (approve_review job_id o settle now s).0.pending_reviews job_id ≡ false)
          × (is_escalated "review" job_id (approve_review job_id o settle now s).0 ≡ false))
unfolding approve_review get_job unindex_review
approve_review_lem job_id o settle now s e =
    let found = (get-view job_id now s.jobs).0 in
    let settled_store = (settle (or_empty (get_job job_id now s).1) o (get_job job_id now s).0).0 in
    (
      ground (arith, found),
      (
        ground (
          arith,
          found,
          includes-without job_id settled_store.pending_reviews job_id,
          eq_refl job_id,
        ),
        ground (
          arith,
          found,
          (((escalation_flags "review" job_id now (unindex_review job_id settled_store)).1).1).1,
        ),
      ),
    )

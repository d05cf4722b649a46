-- ===== src/Jobs.antt =====
-- src/jobs.js: the record of a paid question, its claim, the review queue and the flags. A job is
-- what the code keeps as one object: the fields that it reads, and the others as JSON texts. The
-- loops over the store run without another call between their steps.
pub mod Claims
pub mod Review
pub mod Settlement
pub mod Escalations
use arbiter_backend.Base.{
  ℕ, String, Bool, true, false, not, ◌&&◌, Option, none, some, List, [], ◌∷◌, length, take, keep,
  exists, includes, without, Assoc, insert, ◌==◌, str_eq, or_else, if◌then◌else◌,
}
use arbiter_backend.Store.{MemoryStore, get, set, incr}
use arbiter_backend.Index.{push_bounded}

pub data Status : Type 0 where
  holding awaiting_workers reconciling pending_review cancelling settled : Status

pub data Outcome : Type 0 where
  resolved refunded refund_pending_timeout lost_race_to_timeout_refund : Outcome

-- A missing field is `none`; the same record is a patch.
pub record Job : Type 0 where
  pub status : Option Status
  pub outcome : Option Outcome
  pub created_at : Option ℕ
  pub updated_at : Option ℕ
  pub review_requested_at : Option ℕ
  pub fields : Assoc String

abbrev pub empty_job : Job
empty_job = record {
  status = none;
  outcome = none;
  created_at = none;
  updated_at = none;
  review_requested_at = none;
  fields = [];
}

abbrev pub spread_fields : Assoc String → Assoc String → Assoc String
spread_fields m [] = m
spread_fields m ((k, v) ∷ patch) = spread_fields (insert k v m) patch

-- `{ ...current, ...patch }`
abbrev pub spread : Job → Job → Job
spread current patch = record {
  status = or_else patch.status current.status;
  outcome = or_else patch.outcome current.outcome;
  created_at = or_else patch.created_at current.created_at;
  updated_at = or_else patch.updated_at current.updated_at;
  review_requested_at = or_else patch.review_requested_at current.review_requested_at;
  fields = spread_fields current.fields patch.fields;
}

pub record Escalation : Type 0 where
  pub kind : String
  pub id : String
  pub escalated_at : ℕ

pub record Jobs : Type 0 where
  pub jobs : MemoryStore Job  -- `job:{id}`
  pub known_job_ids : List String
  pub pending_reviews : List String
  pub escalated : List Escalation
  pub synthetic : List String
  pub settlements : List (Option Outcome)  -- settlementsTotal: one entry for each `inc`

abbrev pub max_tracked_jobs : ℕ
max_tracked_jobs = 5_000

abbrev pub max_tracked_reviews : ℕ
max_tracked_reviews = 5_000

abbrev pub max_tracked_escalations : ℕ
max_tracked_escalations = 5_000

abbrev pub max_tracked_synthetic_jobs : ℕ
max_tracked_synthetic_jobs = 1_000

abbrev pub is_settled : Option Status → Bool
is_settled (some settled) = true
is_settled _ = false

abbrev pub is_in_review : Option Status → Bool
is_in_review (some pending_review) = true
is_in_review _ = false

-- The claims `job:claim:{id}` are counters, in a store of their own type.
unfoldable pub claim_job : String → ℕ → ℕ → MemoryStore ℕ → MemoryStore ℕ × Bool
claim_job job_id ttl now claims =
    let (claims', claim_count) = incr job_id ttl now claims in (claims', claim_count == 1)

unfoldable pub get_job : String → ℕ → Jobs → Jobs × Option Job
get_job job_id now s =
    let (jobs', found) = get job_id now s.jobs in (record s { jobs = jobs' }, found)

unfoldable pub create_job : String → Job → ℕ → ℕ → Jobs → Jobs × Job
create_job job_id initial ttl now s =
    let defaults = record empty_job {
      status = some awaiting_workers;
      created_at = some now;
      updated_at = some now;
    } in
    let created = spread defaults initial in
    (
      record s {
        jobs = set job_id created ttl now s.jobs;
        known_job_ids = push_bounded job_id max_tracked_jobs s.known_job_ids;
      },
      created,
    )

abbrev pub or_empty : Option Job → Job
or_empty none = empty_job
or_empty (some j) = j

unfoldable pub update_job : String → Job → ℕ → ℕ → Jobs → Jobs × Job
unfolding get_job
update_job job_id patch ttl now s =
    let (s', found) = get_job job_id now s in
    let current = or_empty found in
    let next = record (spread current patch) { updated_at = some now } in
    let saved = record s' { jobs = set job_id next ttl now s'.jobs } in
    if is_settled next.status && not (is_settled current.status)
    then (record saved { settlements = next.outcome ∷ saved.settlements }, next)
    else (saved, next)

unfoldable pub mark_pending_review : String → Job → ℕ → ℕ → Jobs → Jobs × Bool
unfolding get_job
mark_pending_review job_id extra ttl now s =
    let (s', found) = get_job job_id now s in
    let current = or_empty found in
    if is_settled current.status
    then (s', false)
    else if is_in_review current.status
    then (s', false)
    else let next = record (spread current extra) {
      status = some pending_review;
      review_requested_at = some now;
      updated_at = some now;
    } in
      (record s' { jobs = set job_id next ttl now s'.jobs }, true)

-- Called nowhere.
unfoldable pub index_review : String → Jobs → Jobs
index_review job_id s = record s {
  pending_reviews = push_bounded job_id max_tracked_reviews s.pending_reviews;
}

unfoldable pub unindex_review : String → Jobs → Jobs
unindex_review job_id s =
    if not (includes s.pending_reviews job_id)
    then s
    else record s { pending_reviews = without job_id s.pending_reviews }

abbrev pub in_review : Option Job → Bool
in_review none = false
in_review (some job) = is_in_review job.status

review_each : List String → ℕ → Jobs → Jobs × List Job
review_each [] now s = (s, [])
review_each (job_id ∷ ids) now s =
    let (s', found) = get_job job_id now s in
    let (kept, reviews) = review_each ids now s' in
    let (pruned, others) = review_each ids now (unindex_review job_id s') in
    if in_review found then (kept, or_empty found ∷ reviews) else (pruned, others)

unfoldable pub get_pending_reviews : ℕ → Jobs → Jobs × List Job
unfolding review_each get_job unindex_review
get_pending_reviews now s = review_each s.pending_reviews now s

abbrev pub is_item : String → String → Escalation → Bool
is_item kind id e = str_eq e.kind kind && str_eq e.id id

unfoldable pub escalate_item : String → String → ℕ → Jobs → Jobs × Bool
escalate_item kind id now s =
    let entry : Escalation = record { kind = kind; id = id; escalated_at = now } in
    if exists (is_item kind id) s.escalated
    then (s, false)
    else (record s { escalated = take max_tracked_escalations (entry ∷ s.escalated) }, true)

unfoldable pub unescalate_item : String → String → Jobs → Jobs × Bool
unescalate_item kind id s =
    let next = keep (λ e. not (is_item kind id e)) s.escalated in
    if length next == length s.escalated then (s, false) else (record s { escalated = next }, true)

unfoldable pub mark_synthetic : String → Jobs → Jobs
mark_synthetic job_id s = record s {
  synthetic = push_bounded job_id max_tracked_synthetic_jobs s.synthetic;
}

unfoldable pub is_synthetic_job : String → Jobs → Bool
is_synthetic_job job_id s = includes s.synthetic job_id

-- `settle` is oracle.js's settlement, which answers with the settled job.
unfoldable pub approve_review :
    String → Outcome → (Job → Outcome → Jobs → Jobs × Job) → ℕ → Jobs → Jobs × Option Job
unfolding get_job unindex_review unescalate_item
approve_review job_id outcome settle now s =
    let (s', found) = get_job job_id now s in
    let (settled_store, job) = settle (or_empty found) outcome s' in
    if in_review found
    then ((unescalate_item "review" job_id (unindex_review job_id settled_store)).0, some job)
    else (s', none)

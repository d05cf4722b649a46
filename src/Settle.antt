-- ===== src/Settle.antt =====
-- src/oracle.js, from the answers to the settlement: fulfillOracleCall, fulfillInstant and the settle
-- functions. The chain is a parameter `C` with the calls of src/stellarClient.js: `resolve` and
-- `refund` answer with the hash of the transaction, or nothing where the call throws, and `question`
-- reads the status. Confidence is in hundredths. The store, the statistics and the notifications do
-- not fail, provenance and logging are left out. Of what stands beside the settlement: the check of a
-- quorum for collusion only clears a flag of submissions that src/reconcile.js reads, and is part of
-- the parameter `reconcile`; the pairs that it counts after the reputations are left out; the ledger
-- of earnings and the withdrawals that a landed `resolve` sets off without waiting for them are in
-- Earnings and AutoWithdraw, and are not called from here. `escalated` is never set by the code.
pub mod Honest
use arbiter_backend.Base.{
  ℕ, ◌+◌, String, Bool, true, false, not, ◌&&◌, Option, none, some, List, [], ◌∷◌, map, keep,
  includes, exists, length, leb, ltb, ◌==◌, is_some, if◌then◌else◌,
}
use arbiter_backend.Jobs.{
  Job, Jobs, Status, reconciling, settled, Outcome, resolved, refunded, refund_pending_timeout,
  lost_race_to_timeout_refund, empty_job, update_job,
}
use arbiter_backend.Routing.{Reputations, record_outcome}
use arbiter_backend.Credit.{Credits, restore_credit}

pub data ChainStatus : Type 0 where
  chain_pending chain_resolved chain_refunded : ChainStatus

pub record Submission : Type 0 where
  pub worker_id : String
  pub answer : String

pub record Result : Type 0 where
  pub consensus : Option String
  pub confidence : ℕ
  pub matching_worker_ids : List String

pub record State {ℓ} (C : Type ℓ) : Type ℓ where
  pub chain : C
  pub jobs : Jobs
  pub reputations : Reputations
  pub resolved_count : ℕ
  pub refunded_count : ℕ
  pub dropped : List String  -- dropStashedQuestion
  pub announced : List Job  -- announceSettlement

abbrev pub patch_of : Status → Option Outcome → Job
patch_of status outcome = record empty_job { status = some status; outcome = outcome }

abbrev pub is_refunded : Option ChainStatus → Bool
is_refunded (some chain_refunded) = true
is_refunded _ = false

unfoldable pub record_reputation_outcomes :
    List Submission → List String → Reputations → Reputations
unfolding record_outcome
record_reputation_outcomes [] matching s = s
record_reputation_outcomes (a ∷ subs) matching s =
    record_reputation_outcomes subs matching
      (record_outcome a.worker_id (includes matching a.worker_id) s)

abbrev pub losing_worker_ids : List Submission → List String → List String
losing_worker_ids subs matching =
    keep (λ w. not (includes matching w)) (map (λ (a : Submission). a.worker_id) subs)

abbrev pub refund_outcome : Bool → Outcome
refund_outcome true = refunded
refund_outcome false = refund_pending_timeout

abbrev pub should_resolve : ℕ → List Submission → Result → Bool
should_resolve min_confidence subs result =
    ltb 0 (length subs)
    && (ltb 0 (length result.matching_worker_ids) && leb min_confidence result.confidence)

abbrev pub no_result : Result
no_result = record { consensus = none; confidence = 0; matching_worker_ids = [] }

-- What the tier, the store and the connections say of a question: whether its tier is instant, its
-- price, the account that asked it with an API key, and whether it has a whitelist none of whose
-- workers is connected.
pub record Order : Type 0 where
  pub instant : Bool
  pub price_stroops : ℕ
  pub owner_account : Option String
  pub pool_is_offline : Bool

abbrev pub give_back : Option String → ℕ → Credits → Credits
give_back none price credits = credits
give_back (some account) price credits = restore_credit account price credits

module _ {ℓ} {C : Type ℓ} (resolve : String → List String → List String → C → C × Option String)
    (refund : String → C → C × Option String) (question : String → C → Option ChainStatus)
    (ttl : ℕ) where
  -- `updateJob` to settled, then `announceSettlement`.
  abbrev pub settle_as : String → Outcome → ℕ → State C → State C
  settle_as id outcome now s =
      let (jobs', job) = update_job id (patch_of settled (some outcome)) ttl now s.jobs in
      record s { jobs = jobs'; announced = job ∷ s.announced }

  unfoldable pub settle_refunded : String → List Submission → Result → ℕ → State C → State C
  unfolding record_reputation_outcomes
  settle_refunded id subs result now s =
      let (chain', hash) = refund id s.chain in
      let noted = record s {
        chain = chain';
        reputations = record_reputation_outcomes subs result.matching_worker_ids s.reputations;
      } in
      settle_as id (refund_outcome (is_some hash)) now (
        if is_some hash
        then record noted {
          dropped = id ∷ noted.dropped;
          refunded_count = noted.refunded_count + 1;
        }
        else noted)

  abbrev paid : String → List Submission → Result → ℕ → State C → State C
  paid id subs result now s = settle_as id resolved now (record s {
    reputations = record_reputation_outcomes subs result.matching_worker_ids s.reputations;
    dropped = id ∷ s.dropped;
    resolved_count = s.resolved_count + 1;
  })

  abbrev lost_race : String → List Submission → ℕ → State C → State C
  lost_race id subs now s = settle_as id lost_race_to_timeout_refund now (record s {
    reputations = record_reputation_outcomes subs [] s.reputations;
    refunded_count = s.refunded_count + 1;
  })

  -- settleResolved; settleInstantResolved is this with no submission and the platform as winner.
  unfoldable pub settle_with :
      List String → String → List Submission → Result → ℕ → State C → State C
  unfolding settle_refunded record_reputation_outcomes
  settle_with winners id subs result now s =
      let (chain', hash) =
        resolve id winners (losing_worker_ids subs result.matching_worker_ids) s.chain in
      let after = record s { chain = chain' } in
      if is_some hash
      then paid id subs result now after
      else if is_refunded (question id chain')
      then lost_race id subs now after
      else settle_refunded id subs result now after

  unfoldable pub settle_resolved : String → List Submission → Result → ℕ → State C → State C
  unfolding settle_with
  settle_resolved id subs result now s = settle_with result.matching_worker_ids id subs result now s

  abbrev reconcile_started : String → ℕ → State C → State C
  reconcile_started id now s = record s {
    jobs = (update_job id (patch_of reconciling none) ttl now s.jobs).0;
  }

  settle_draft : String → String → Option Result → ℕ → State C → State C
  unfolding settle_with settle_refunded
  settle_draft platform id none now s = settle_refunded id [] no_result now s
  settle_draft platform id (some draft) now s =
      if is_some draft.consensus
      then settle_with (platform ∷ []) id [] draft now s
      else settle_refunded id [] no_result now s

  unfoldable pub fulfill_instant : String → String → Option Result → ℕ → State C → State C
  unfolding settle_draft
  fulfill_instant platform id draft now s =
      settle_draft platform id draft now (reconcile_started id now s)

  -- Settles what a quorum of workers gave. `subs` is what dispatchAndCollect answers with and
  -- `reconcile` is src/reconcile.js.
  fulfill_quorum :
      ℕ
      → (List Submission → Result)
      → Order
      → String
      → List Submission
      → ℕ
      → State C × Credits
      → State C × Credits
  unfolding settle_resolved settle_refunded
  fulfill_quorum min_confidence reconcile order id subs now (s, credits) =
      let started = reconcile_started id now s in
      let result = reconcile subs in
      if order.pool_is_offline && (length subs == 0)
      then (
        settle_refunded id [] no_result now started,
        give_back order.owner_account order.price_stroops credits,
      )
      else if should_resolve min_confidence subs result
      then (settle_resolved id subs result now started, credits)
      else (settle_refunded id subs result now started, credits)

  -- `draft` is what draftAnswer gives for an instant question, `platform` the platform's address.
  unfoldable pub fulfill_oracle_call :
      ℕ
      → String
      → Option Result
      → (List Submission → Result)
      → Order
      → String
      → List Submission
      → ℕ
      → State C × Credits
      → State C × Credits
  unfolding fulfill_instant fulfill_quorum
  fulfill_oracle_call min_confidence platform draft reconcile order id subs now (s, credits) =
      if order.instant
      then (fulfill_instant platform id draft now s, credits)
      else fulfill_quorum min_confidence reconcile order id subs now (s, credits)

-- ===== src/Intake.antt =====
-- src/oracle.js, from a paid question to its dispatch. `texts_of` gives the fields of a job's record
-- that no code here reads. `fulfilling` lists the calls of runFulfillment with the whitelist of each,
-- `timers` the questions that are held for the undo window.
pub mod Starts
pub mod Paused
use arbiter_backend.Base.{
  ℕ, ◌+◌, String, str_append, Bool, true, false, not, ◌&&◌, ◌||◌, Option, none, some, List, [], ◌∷◌,
  Assoc, length, ltb, ◌==◌, str_eq, is_some, or_else, if◌then◌else◌,
}
use arbiter_backend.Store.{MemoryStore, get, set, delete, incr}
use arbiter_backend.Pricing.{Tier, Priced, price_for_tier}
use arbiter_backend.Consensus.{Tolerance, Rule, null_rule, numeric}
use arbiter_backend.UndoWindow.{undo_window_for}
use arbiter_backend.Jobs.{
  Job, Jobs, Status, holding, awaiting_workers, reconciling, empty_job, claim_job, create_job,
  update_job,
}
use arbiter_backend.Settle.{ChainStatus, State, patch_of, no_result, settle_refunded}
use arbiter_backend.Payers.{PayerStore, record_payer_question}
use arbiter_backend.Pools.{Pools, get_private_pool}
use arbiter_backend.Credit.{Credits, restore_credit}
use arbiter_backend.Maintenance.{Window, PauseInfo, compute_pause}
use arbiter_backend.Quotes.{Pending, given_text}

pub record Desk {ℓ} (C : Type ℓ) : Type ℓ where
  pub state : State C
  pub job_owners : MemoryStore String  -- `job-owner:{id}`
  pub webhook_owners : MemoryStore String  -- `job-webhook-owner:{id}`
  pub payers : PayerStore
  pub pools : Pools
  pub credits : Credits
  pub windows : List Window
  pub timers : List String
  pub fulfilling : List (String × Option (List String))

pub data Started : Type 0 where
  repeated started threw : Started
  held : (until : ℕ) → Started

-- A question whose payment was verified, or that an account pays for.
pub record Paid : Type 0 where
  pub question_id : String
  pub pending : Pending
  pub tier : Tier
  pub price_stroops : ℕ
  pub payer : String
  pub owner_account : Option String
  pub referral_code : Option String

-- `ownerAccountId ? null : referralCode || pending.referralCode`
abbrev pub code_for : Paid → Option String
code_for p = elim p.owner_account [
  | some account ↦ none
  | none ↦ or_else (given_text p.referral_code) (given_text p.pending.referral_code)
]

abbrev pub whitelist_of : List String → Option (List String)
whitelist_of [] = none
whitelist_of (m ∷ ms) = some (m ∷ ms)

module _ {ℓ} {C : Type ℓ} (refund : String → C → C × Option String)
    (resolve : String → List String → List String → C → C × Option String)
    (question : String → C → Option ChainStatus) (texts_of : Paid → Assoc String)
    (hold_ms job_result_ttl_ms : ℕ) where
  given_back : Option String → ℕ → Desk C → Desk C
  given_back none price d = d
  given_back (some account) price d = record d { credits = restore_credit account price d.credits }

  unfoldable pub refund_for_dispatch_pause : Paid → ℕ → Desk C → Desk C
  unfolding given_back
  refund_for_dispatch_pause p now d =
      let id = p.question_id in
      let noted =
        (update_job id (patch_of reconciling none) job_result_ttl_ms now d.state.jobs).0 in
      let settled =
        settle_refunded resolve refund question job_result_ttl_ms id [] no_result now
          (record (d.state) { jobs = noted }) in
      let (owners, owner) = get id now d.job_owners in
      given_back owner p.price_stroops (record d { state = settled; job_owners = owners })

  run_fulfillment : Paid → Option (List String) → Desk C → Desk C
  run_fulfillment p whitelist d = record d {
    fulfilling = (p.question_id, whitelist) ∷ d.fulfilling;
  }

  dispatch_or_refund : Option PauseInfo → Paid → Option (List String) → ℕ → Desk C → Desk C
  unfolding refund_for_dispatch_pause run_fulfillment
  dispatch_or_refund (some pause) p whitelist now d = refund_for_dispatch_pause p now d
  dispatch_or_refund none p whitelist now d = run_fulfillment p whitelist d

  unfoldable pub dispatch_unless_paused : Paid → Option (List String) → ℕ → Desk C → Desk C
  unfolding dispatch_or_refund
  dispatch_unless_paused p whitelist now d =
      dispatch_or_refund (compute_pause d.windows now) p whitelist now d

  after_hold : Option PauseInfo → Paid → Option (List String) → ℕ → Desk C → Desk C
  unfolding refund_for_dispatch_pause run_fulfillment
  after_hold (some pause) p whitelist now d = refund_for_dispatch_pause p now d
  after_hold none p whitelist now d = run_fulfillment p whitelist (record d {
    state = record (d.state) {
      jobs =
          (update_job p.question_id (patch_of awaiting_workers none) job_result_ttl_ms now
            d.state.jobs).0;
    };
  })

  -- The callback of the hold, once the undo window is over.
  unfoldable pub dispatch_after_hold : Paid → Option (List String) → ℕ → Desk C → Desk C
  unfolding after_hold
  dispatch_after_hold p whitelist now d = after_hold (compute_pause d.windows now) p whitelist now d

  note_owner : Paid → ℕ → Desk C → Desk C
  note_owner p now d = elim p.owner_account [
    | none ↦ d
    | some account ↦ record d {
      job_owners = set p.question_id account job_result_ttl_ms now d.job_owners;
    }
  ]

  note_webhook_owner : Paid → ℕ → Desk C → Desk C
  note_webhook_owner p now d = elim p.owner_account [
    | none ↦ d
    | some account ↦ record d {
      webhook_owners =
          set p.question_id (str_append "account:" account) job_result_ttl_ms now d.webhook_owners;
    }
  ]

  -- The call of getPayerQuestionIds, which the file does not import, throws: it stands where there is
  -- a payer and a referral code.
  reaches_import : Paid → Bool
  reaches_import p = not (str_eq p.payer "") && is_some (code_for p)

  note_payer : Paid → Desk C → Desk C
  note_payer p d =
      if str_eq p.payer ""
      then d
      else record d { payers = record_payer_question p.payer p.question_id d.payers }

  send : Paid → Option (List String) → ℕ → ℕ → Desk C → Desk C × Started
  unfolding dispatch_unless_paused
  send p whitelist until now d =
      if until == 0
      then (dispatch_unless_paused p whitelist now d, started)
      else (record d { timers = p.question_id ∷ d.timers }, held until)

  job_recorded : Paid → ℕ → ℕ → Desk C → Desk C
  job_recorded p until now d =
      let initial = record empty_job {
        status = if until == 0 then none else some holding;
        fields = texts_of p;
      } in
      record d {
        state = record (d.state) {
          jobs = (create_job p.question_id initial job_result_ttl_ms now d.state.jobs).0;
        };
      }

  pub once_claimed : Paid → ℕ → Desk C → Desk C × Started
  once_claimed p now d =
      let window = undo_window_for (some p.tier) hold_ms in
      let until = if window == 0 then 0 else now + window in
      let whitelist = whitelist_of (get_private_pool p.payer d.pools) in
      let owned = note_owner p now (job_recorded p until now d) in
      if reaches_import p
      then (owned, threw)
      else send p whitelist until now (note_webhook_owner p now (note_payer p owned))

  -- The first argument after the time holds the claims `job:claim:{id}`.
  pub start_fulfillment : Paid → ℕ → MemoryStore ℕ → Desk C → (MemoryStore ℕ × Desk C) × Started
  unfolding once_claimed
  start_fulfillment p now claims d =
      let (claims', claimed) = claim_job p.question_id job_result_ttl_ms now claims in
      let (d', answer) = once_claimed p now d in
      if claimed then ((claims', d'), answer) else ((claims', d), repeated)

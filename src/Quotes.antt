-- ===== src/Quotes.antt =====
-- The quote of a question (issueChallenge of src/oracle.js) and its stash (src/pendingQuestions.js).
-- `question_id_of` prints a sequence number with the process's salt in its high bits; the quote's
-- other fields are left out.
pub mod Stashed
use arbiter_backend.Base.{
  ℕ, ◌+◌, String, str_append, Bool, true, false, not, ◌&&◌, ◌||◌, Option, none, some, List, [], ◌∷◌,
  Assoc, length, ltb, ◌==◌, str_eq, is_some, or_else, if◌then◌else◌,
}
use arbiter_backend.Store.{MemoryStore, get, set, delete, incr}
use arbiter_backend.Pricing.{Tier, Priced, price_for_tier}
use arbiter_backend.Consensus.{Tolerance, Rule, null_rule, numeric}
use arbiter_backend.UndoWindow.{undo_window_for}
use arbiter_backend.Jobs.{
  Job, Jobs, Status, holding, awaiting_workers, reconciling, empty_job, claim_job, create_job,
  update_job,
}
use arbiter_backend.Settle.{ChainStatus, State, patch_of, no_result, settle_refunded}
use arbiter_backend.Payers.{PayerStore, record_payer_question}
use arbiter_backend.Pools.{Pools, get_private_pool}
use arbiter_backend.Credit.{Credits, restore_credit}
use arbiter_backend.Maintenance.{Window, PauseInfo, compute_pause}

-- A stashed question; `mode` and `tolerance` are there for a rule that is not the default one.
pub record Pending : Type 0 where
  pub question : String
  pub tier_key : String
  pub price_stroops : ℕ
  pub quorum_size : ℕ
  pub timeout_ms : ℕ
  pub category : Option String
  pub created_at : ℕ
  pub mode : Option String
  pub tolerance : Option Tolerance
  pub referral_code : Option String

abbrev pub default_consensus_mode : String
default_consensus_mode = "exact"

unfoldable pub consensus_stash_fields : Rule → Option String × Option Tolerance
consensus_stash_fields null_rule = (none, none)
consensus_stash_fields (numeric t) = (some "numeric-tolerance", some t)

-- A mode that is the default one, or missing, is no rule.
unfoldable pub consensus_rule_from_pending :
    Option String × Option Tolerance → Option (String × Option Tolerance)
consensus_rule_from_pending (none, tolerance) = none
consensus_rule_from_pending (some mode, tolerance) =
    if str_eq mode "" || str_eq mode default_consensus_mode then none else some (mode, tolerance)

pub record Challenge : Type 0 where
  pub question_id : String
  pub amount_stroops : ℕ
  pub tier : String
  pub quorum_size : ℕ
  pub timeout_ms : ℕ

pub record QuoteDesk : Type 0 where
  pub sequence : MemoryStore ℕ  -- `question-id-seq`
  pub stash : MemoryStore Pending  -- `pending:{questionId}`
  pub idempotency : MemoryStore Challenge  -- `idempotency:{key}`

abbrev pub sequence_key : String
sequence_key = "question-id-seq"

abbrev pub given_text : Option String → Option String
given_text none = none
given_text (some t) = if str_eq t "" then none else some t

-- What a caller asks: the question, the tier, the category, the rule and a referral code.
pub record Ask : Type 0 where
  pub question : String
  pub tier_key : String
  pub category : Option String
  pub rule : Rule
  pub referral_code : Option String

module _ (question_id_of : ℕ → String) (online_workers pending_question_ttl_ms : ℕ) where
  unfoldable pub issue_challenge : Ask → ℕ → QuoteDesk → QuoteDesk × Challenge
  unfolding consensus_stash_fields
  issue_challenge ask now q =
      let (sequence, number) = incr sequence_key 0 now q.sequence in
      let id = question_id_of number in
      let priced = price_for_tier ask.tier_key online_workers in
      let stashed : Pending = record {
        question = ask.question;
        tier_key = priced.key;
        price_stroops = priced.price_stroops;
        quorum_size = priced.quorum_size;
        timeout_ms = priced.timeout_ms;
        category = given_text ask.category;
        created_at = now;
        mode = (consensus_stash_fields ask.rule).0;
        tolerance = (consensus_stash_fields ask.rule).1;
        referral_code = given_text ask.referral_code;
      } in
      (
        record q {
          sequence = sequence;
          stash = set id stashed pending_question_ttl_ms now q.stash;
        },
        record {
          question_id = id;
          amount_stroops = priced.price_stroops;
          tier = priced.key;
          quorum_size = priced.quorum_size;
          timeout_ms = priced.timeout_ms;
        },
      )

  cached_or : String → Ask → ℕ → QuoteDesk × Option Challenge → QuoteDesk × Challenge
  unfolding issue_challenge
  cached_or key ask now (q, some challenge) = (q, challenge)
  cached_or key ask now (q, none) =
      let (q', challenge) = issue_challenge ask now q in
      (
        record q' { idempotency = set key challenge pending_question_ttl_ms now q'.idempotency },
        challenge,
      )

  read_cached : String → ℕ → QuoteDesk → QuoteDesk × Option Challenge
  read_cached key now q =
      let (idempotency, found) = get key now q.idempotency in
      (record q { idempotency = idempotency }, found)

  unfoldable pub issue_challenge_idempotent :
      Option String → Ask → ℕ → QuoteDesk → QuoteDesk × Challenge
  unfolding issue_challenge cached_or read_cached
  issue_challenge_idempotent none ask now q = issue_challenge ask now q
  issue_challenge_idempotent (some key) ask now q =
      if str_eq key ""
      then issue_challenge ask now q
      else cached_or key ask now (read_cached key now q)

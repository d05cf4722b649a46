-- ===== src/Payers.antt =====
-- src/payerIndex.js: the questions each payer paid for, their erasure, the loyalty tiers and the
-- spend by category and day. Calls run one after another; the records have no expiry. A `BigInt` of
-- stroops is a natural number, and amounts are left as stroops (`stroopsToUsdc` only prints them).
pub mod Privacy
pub mod Loyalty
pub mod Spend
use arbiter_backend.Base.{
  ℕ, zero, suc, ◌+◌, String, Bool, true, false, not, ◌||◌, Option, none, some, List, [], ◌∷◌, take,
  keep, includes, without, length, leb, ◌==◌, str_eq, is_some, Assoc, lookup, insert, remove,
  if◌then◌else◌,
}
use arbiter_backend.Index.{push_bounded}

pub record PayerStore : Type 0 where
  pub questions : Assoc (List String)  -- `payer-questions:{payerAddress}`
  pub known : List String
  pub loyalty : Assoc String  -- `loyalty-tier:{payerAddress}`

abbrev pub max_tracked_per_payer : ℕ
max_tracked_per_payer = 200

abbrev pub max_tracked_payers : ℕ
max_tracked_payers = 5_000

abbrev pub or_no_ids : Option (List String) → List String
or_no_ids none = []
or_no_ids (some ids) = ids

unfoldable pub get_payer_question_ids : String → PayerStore → List String
get_payer_question_ids payer s = or_no_ids (lookup payer s.questions)

unfoldable pub record_payer_question : String → String → PayerStore → PayerStore
unfolding get_payer_question_ids
record_payer_question payer id s =
    let existing = get_payer_question_ids payer s in
    record s {
      questions = insert payer (take max_tracked_per_payer (id ∷ without id existing)) s.questions;
      known =
          if length existing == 0 then push_bounded payer max_tracked_payers s.known else s.known;
    }

unfoldable pub payer_owns_question : String → String → PayerStore → Bool
payer_owns_question payer id s =
    if str_eq payer "" || str_eq id "" then false else includes (get_payer_question_ids payer s) id

pub record Erased : Type 0 where
  pub deleted : Bool
  pub question_ids : ℕ
  pub removed_from_index : Bool

unfoldable pub erase_payer_records : String → PayerStore → PayerStore × Erased
erase_payer_records payer s =
    if str_eq payer ""
    then (s, record { deleted = false; question_ids = 0; removed_from_index = false })
    else (
      record s {
        questions = remove payer s.questions;
        known = if includes s.known payer then without payer s.known else s.known;
      },
      record {
        deleted = true;
        question_ids = length (get_payer_question_ids payer s);
        removed_from_index = includes s.known payer;
      },
    )

pub record LoyaltyTier : Type 0 where
  pub name : String
  pub min_spend_stroops : ℕ
  pub bonus_stroops : ℕ

abbrev pub loyalty_tiers : List LoyaltyTier
loyalty_tiers =
    record { name = "bronze"; min_spend_stroops = 10_000_000; bonus_stroops = 500_000 }
    ∷ record { name = "silver"; min_spend_stroops = 100_000_000; bonus_stroops = 5_000_000 }
    ∷ record { name = "gold"; min_spend_stroops = 1_000_000_000; bonus_stroops = 50_000_000 }
    ∷ []

-- The loop keeps the last tier whose threshold is reached.
abbrev pub last_reached : ℕ → Option LoyaltyTier → List LoyaltyTier → Option LoyaltyTier
last_reached spend matched [] = matched
last_reached spend matched (tier ∷ tiers) =
    last_reached spend (if leb tier.min_spend_stroops spend then some tier else matched) tiers

unfoldable pub evaluate_loyalty_tier : ℕ → Option LoyaltyTier
evaluate_loyalty_tier spend = last_reached spend none loyalty_tiers

-- `findIndex` plus one: 0 stands for its -1.
abbrev pub find_name : ℕ → String → List LoyaltyTier → ℕ
find_name at name [] = 0
find_name at name (tier ∷ tiers) =
    if str_eq tier.name name then suc at else find_name (suc at) name tiers

unfoldable pub rank_of : Option String → ℕ
rank_of none = 0
rank_of (some name) = find_name 0 name loyalty_tiers

claim_evaluated : String → Option LoyaltyTier → PayerStore → PayerStore × Option LoyaltyTier
claim_evaluated payer none s = (s, none)
claim_evaluated payer (some evaluated) s =
    if leb (rank_of (some evaluated.name)) (rank_of (lookup payer s.loyalty))
    then (s, none)
    else (record s { loyalty = insert payer evaluated.name s.loyalty }, some evaluated)

unfoldable pub claim_loyalty_tier : String → ℕ → PayerStore → PayerStore × Option LoyaltyTier
unfolding claim_evaluated
claim_loyalty_tier payer spend s = claim_evaluated payer (evaluate_loyalty_tier spend) s

-- The fields of a job that the summary reads; a status that is missing is none.
pub record PaidJob : Type 0 where
  pub status : Option String
  pub outcome : Option String
  pub amount_stroops : ℕ
  pub category : Option String
  pub created_at : Option ℕ

pub record Summary : Type 0 where
  pub questions : List (String × PaidJob)
  pub total_tracked : ℕ
  pub total_spend_stroops : ℕ
  pub resolved : ℕ
  pub settled : ℕ

-- An expired job is none, and so is one past the end of `jobs`.
abbrev pub rows : List String → List (Option PaidJob) → List (String × PaidJob)
rows [] jobs = []
rows (id ∷ ids) [] = rows ids []
rows (id ∷ ids) (none ∷ jobs) = rows ids jobs
rows (id ∷ ids) (some job ∷ jobs) =
    let rest = rows ids jobs in if is_some job.status then (id, job) ∷ rest else rest

abbrev pub total_spend : List (String × PaidJob) → ℕ
total_spend [] = 0
total_spend (q ∷ qs) = q.1.amount_stroops + total_spend qs

abbrev pub is_text : String → Option String → Bool
is_text word none = false
is_text word (some held) = str_eq held word

unfoldable pub summarize_payer_questions : List String → List (Option PaidJob) → Summary
summarize_payer_questions ids jobs =
    let questions = rows ids jobs in
    record {
      questions = questions;
      total_tracked = length ids;
      total_spend_stroops = total_spend questions;
      resolved = length (keep (λ q. is_text "resolved" q.1.outcome) questions);
      settled = length (keep (λ q. is_text "settled" q.1.status) questions);
    }

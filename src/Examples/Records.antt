-- ===== src/Examples/Records.antt =====
-- The records of payers and the earnings of workers.
use arbiter_backend.Base.{
  ℕ, ◌+◌, ◌*◌, ◌/◌, ◌<◌, ◌≤◌, String, ◌≡◌, refl, Bool, true, false, Option, none, some, List, [],
  ◌∷◌, arith, length, lookup, insert,
}
use arbiter_backend.Payers.{
  PayerStore, PaidJob, max_tracked_per_payer, get_payer_question_ids, evaluate_loyalty_tier,
  rank_of, claim_loyalty_tier,
}
use arbiter_backend.Payers.Privacy.{
  IsPayerStore, Command, pay, erase, execute_all, payer_store_stays_bounded,
}
use arbiter_backend.Payers.Loyalty.{claims, IsClimb, claims-IsClimb}
use arbiter_backend.Payers.Spend.{
  Bucket, spend_field, in_bucket, held, held_in, keys_distinct, bucket_payer_spend,
}
use arbiter_backend.Payers.Spend.Exact.{bucket_payer_spend_exact}
use arbiter_backend.Earnings.{
  Earnings, Withdrawal, worker_share_stroops, platform_fee_bps, record_worker_credits,
  record_worker_withdrawal, add_credit, index_worker_year,
}
use arbiter_backend.Earnings.Share.{worker_share_stroops_bounds}
use arbiter_backend.Earnings.Ledger.{
  IsLedger, Entry, settled, withdrew, record_entries, earnings_stay_consistent,
}
use arbiter_backend.Earnings.Redriven.{redriven_in_year}

abbrev no_payers : PayerStore
no_payers = record { questions = []; known = []; loyalty = [] }

no_payers-IsPayerStore : IsPayerStore no_payers
unfolding get_payer_question_ids lookup
no_payers-IsPayerStore = (λ payer. (refl, omega arith), (refl, omega arith))

abbrev some_payments : List Command
some_payments = pay "pat" "q1" ∷ pay "pat" "q2" ∷ erase "pat" ∷ pay "quin" "q3" ∷ []

payer_store_stays_bounded_example : IsPayerStore (execute_all some_payments no_payers)
payer_store_stays_bounded_example =
    payer_store_stays_bounded some_payments no_payers no_payers-IsPayerStore

abbrev one_payer : PayerStore
one_payer = record { questions = ("pat", "q1" ∷ []) ∷ []; known = "pat" ∷ []; loyalty = [] }

one_payer-room : length (get_payer_question_ids "pat" one_payer) < max_tracked_per_payer
unfolding get_payer_question_ids lookup
one_payer-room = omega arith

quin_unknown : lookup "quin" one_payer.questions ≡ none
unfolding lookup
quin_unknown = refl

abbrev some_spends : List ℕ
some_spends = 20_000_000 ∷ 20_000_000 ∷ 5_000 ∷ 2_000_000_000 ∷ 200_000_000 ∷ []

two_credits : length (claims "pat" some_spends no_payers) ≡ 2
unfolding claims claim_loyalty_tier evaluate_loyalty_tier rank_of lookup insert
two_credits = refl

claims-IsClimb_example :
    IsClimb (rank_of (lookup "pat" no_payers.loyalty)) (claims "pat" some_spends no_payers)
claims-IsClimb_example = claims-IsClimb "pat" some_spends no_payers

abbrev a_job : Option String → ℕ → PaidJob
a_job category amount = record {
  status = some "settled";
  outcome = some "resolved";
  amount_stroops = amount;
  category = category;
  created_at = some 5;
}

abbrev as_is : String → String
as_is c = c

abbrev day_one : ℕ → String
day_one t = "1970-01-01"

abbrev never : Bucket → Bucket → Bool
never a b = false

abbrev three_jobs : List PaidJob
three_jobs = a_job (some "math") 30 ∷ a_job none 50 ∷ a_job (some "math") 40 ∷ []

bucket_payer_spend_exact_example :
    held_in
        (in_bucket spend_field)
        (some "math")
        (bucket_payer_spend as_is day_one never three_jobs).0
      ≡ 70
    × (held_in
          (in_bucket spend_field)
          (some "1970-01-01")
          (bucket_payer_spend as_is day_one never three_jobs).1
        ≡ 120)
    × (held (in_bucket spend_field) (bucket_payer_spend as_is day_one never three_jobs).0 ≡ 120)
    × (keys_distinct (bucket_payer_spend as_is day_one never three_jobs).0 ≡ true)
    × (keys_distinct (bucket_payer_spend as_is day_one never three_jobs).1 ≡ true)
bucket_payer_spend_exact_example =
    bucket_payer_spend_exact as_is day_one never spend_field (some "math") "1970-01-01" three_jobs

abbrev year_by_thousands : ℕ → ℕ
year_by_thousands t = 2_000 + t / 1_000

abbrev no_earnings : Earnings
no_earnings = record {
  credits = λ w y. [];
  withdrawals = λ w y. [];
  years = λ w. [];
  earners = λ y. [];
}

no_earnings-IsLedger : IsLedger no_earnings
no_earnings-IsLedger = record {
  credited_once = λ w y. refl;
  withdrawn_once = λ w y. refl;
  found = λ w y. refl;
}

worker_share_stroops_bounds_example :
    (1_000 * platform_fee_bps / 10_000 + 3 * worker_share_stroops 1_000 3 ≤ 1_000)
    × (1_000 < 1_000 * platform_fee_bps / 10_000 + 3 * worker_share_stroops 1_000 3 + 3)
worker_share_stroops_bounds_example = worker_share_stroops_bounds 1_000 3 (omega arith)

abbrev a_withdrawal : Withdrawal
a_withdrawal = record {
  tx_hash = "t9";
  amount_stroops = 266;
  beneficiary_address = none;
  auto = false;
  withdrawn_at = 700;
}

abbrev three_entries : List Entry
three_entries =
    settled "q1" ("ann" ∷ "bob" ∷ "cid" ∷ []) 1_000 (some "t1") 500
    ∷ withdrew "ann" a_withdrawal
    ∷ settled "q1" ("ann" ∷ "bob" ∷ "cid" ∷ []) 1_000 (some "t2") 900
    ∷ []

one_credit_in_year :
    length ((record_entries year_by_thousands three_entries no_earnings).credits "bob" 2_000) ≡ 1
unfolding record_entries record_worker_credits record_worker_withdrawal worker_share_stroops
    add_credit
one_credit_in_year = refl

-- Driven again after the turn of the year, the settlement is credited a second time.
abbrev over_two_years : Earnings
over_two_years =
    record_worker_credits year_by_thousands "q1" ("bob" ∷ []) 1_000 (some "t1") 1_500
      (record_worker_credits year_by_thousands "q1" ("bob" ∷ []) 1_000 (some "t1") 500 no_earnings)

credited_in_two_years :
    (length (over_two_years.credits "bob" 2_000) ≡ 1)
    × (length (over_two_years.credits "bob" 2_001) ≡ 1)
unfolding record_worker_credits worker_share_stroops add_credit index_worker_year
credited_in_two_years = (refl, refl)

earnings_stay_consistent_example :
    IsLedger (record_entries year_by_thousands three_entries no_earnings)
earnings_stay_consistent_example =
    earnings_stay_consistent year_by_thousands three_entries no_earnings no_earnings-IsLedger

redriven_in_year_example :
    record_worker_credits year_by_thousands "q1" ("ann" ∷ "bob" ∷ []) 1_000 (some "t2") 900 (
      record_worker_credits year_by_thousands "q1"
        ("ann" ∷ "bob" ∷ [])
        1_000
        (some "t1")
        500
        no_earnings)
    ≡ record_worker_credits year_by_thousands "q1"
        ("ann" ∷ "bob" ∷ [])
        1_000
        (some "t1")
        500
        no_earnings
redriven_in_year_example =
    redriven_in_year year_by_thousands "q1" ("ann" ∷ "bob" ∷ []) 1_000 (some "t1") (some "t2") 500
      900 no_earnings refl

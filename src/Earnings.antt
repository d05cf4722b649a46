-- ===== src/Earnings.antt =====
-- src/earnings.js: what each worker was credited and withdrew, by UTC calendar year. A key with a
-- worker and a year is two arguments of a function; the records have no expiry. `year_of` is the
-- UTC year of a time, of the JavaScript runtime, and years have four digits, so that their order as
-- strings, which `sort` uses, is that of the numbers.
pub mod Share
pub mod Ledger
pub mod Redriven
use arbiter_backend.Base.{
  ℕ, zero, suc, ◌+◌, ◌-◌, ◌*◌, ◌/◌, String, Bool, true, false, not, ◌&&◌, ◌||◌, Option, none, some,
  List, [], ◌∷◌, ◌++◌, exists, includes, length, ltb, ◌==◌, str_eq, if◌then◌else◌,
}

pub record Credit : Type 0 where
  pub question_id : String
  pub amount_stroops : ℕ
  pub gross_question_stroops : ℕ
  pub matching_workers : ℕ
  pub payout_tx : Option String
  pub credited_at : ℕ

pub record Withdrawal : Type 0 where
  pub tx_hash : String
  pub amount_stroops : ℕ
  pub beneficiary_address : Option String
  pub auto : Bool
  pub withdrawn_at : ℕ

pub record Earnings : Type 0 where
  pub credits : String → ℕ → List Credit  -- `earnings-credits:{worker}:{year}`
  pub withdrawals : String → ℕ → List Withdrawal  -- `earnings-withdrawals:{worker}:{year}`
  pub years : String → List ℕ  -- `earnings-years:{worker}`
  pub earners : ℕ → List String  -- `earnings-workers:{year}`

abbrev pub platform_fee_bps : ℕ
platform_fee_bps = 2_000

unfoldable pub worker_share_stroops : ℕ → ℕ → ℕ
worker_share_stroops amount zero = 0
worker_share_stroops amount (suc n) = (amount - amount * platform_fee_bps / 10_000) / suc n

abbrev pub has_year : List ℕ → ℕ → Bool
has_year [] y = false
has_year (x ∷ xs) y = (x == y) || has_year xs y

-- `[...years, year].sort()`, where `years` is sorted.
abbrev pub insert_year : ℕ → List ℕ → List ℕ
insert_year y [] = y ∷ []
insert_year y (x ∷ xs) = if ltb y x then y ∷ x ∷ xs else x ∷ insert_year y xs

abbrev pub put {ℓ} : {A : Type ℓ} → String → ℕ → A → (String → ℕ → A) → String → ℕ → A
put worker year v f w y = if str_eq worker w && year == y then v else f w y

unfoldable pub index_worker_year : String → ℕ → Earnings → Earnings
index_worker_year worker year s =
    let years = s.years worker in
    let earners = s.earners year in
    record s {
      years = λ w.
          if str_eq worker w && not (has_year years year)
          then insert_year year years
          else s.years w;
      earners = λ y.
          if year == y && not (includes earners worker)
          then earners ++ worker ∷ []
          else s.earners y;
    }

abbrev pub is_credit_of : String → Credit → Bool
is_credit_of id c = str_eq c.question_id id

abbrev pub is_withdrawal_of : String → Withdrawal → Bool
is_withdrawal_of tx w = str_eq w.tx_hash tx

-- `appendUnique` on the credits, and the index if it added.
unfoldable pub add_credit : String → ℕ → Credit → Earnings → Earnings
unfolding index_worker_year
add_credit worker year c s =
    if exists (is_credit_of c.question_id) (s.credits worker year)
    then s
    else index_worker_year worker year
        (record s { credits = put worker year (s.credits worker year ++ c ∷ []) s.credits })

add_credits : List String → ℕ → Credit → Earnings → Earnings
add_credits [] year c s = s
add_credits (worker ∷ workers) year c s = add_credits workers year c (add_credit worker year c s)

abbrev pub non_empty : Option String → Option String
non_empty none = none
non_empty (some t) = if str_eq t "" then none else some t

module _ (year_of : ℕ → ℕ) where
  unfoldable pub record_worker_credits :
      String → List String → ℕ → Option String → ℕ → Earnings → Earnings
  unfolding add_credits worker_share_stroops
  record_worker_credits question_id workers amount payout_tx credited_at s =
      let share = worker_share_stroops amount (length workers) in
      let c : Credit = record {
        question_id = question_id;
        amount_stroops = share;
        gross_question_stroops = amount;
        matching_workers = length workers;
        payout_tx = non_empty payout_tx;
        credited_at = credited_at;
      } in
      if share == 0 then s else add_credits workers (year_of credited_at) c s

  unfoldable pub record_worker_withdrawal : String → Withdrawal → Earnings → Earnings
  record_worker_withdrawal worker w s =
      let year = year_of w.withdrawn_at in
      if exists (is_withdrawal_of w.tx_hash) (s.withdrawals worker year)
      then s
      else index_worker_year worker year (record s {
        withdrawals = put worker year (s.withdrawals worker year ++ w ∷ []) s.withdrawals;
      })

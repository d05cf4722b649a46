-- ===== src/Credit.antt =====
-- src/billing.js and src/paymentReversals.js: the credit of API-key accounts. A reservation covers
-- the dearest price before the real one is known (src/server.js, the API-key branch of POST /oracle),
-- Stripe events credit and claw back. Amounts are stroops, amounts of Stripe objects cents.
pub mod Reservation
pub mod Debit
pub mod Webhook
use arbiter_backend.Base.{
  ℕ, zero, suc, ◌+◌, ◌-◌, ◌*◌, ◌/◌, String, Bool, true, false, Option, none, some, List, [], ◌∷◌,
  ltb, leb, ◌==◌, str_eq, includes, take, if◌then◌else◌, or_else,
}
use arbiter_backend.Store.{MemoryStore, get, set, set_nx, incr_by, decr_if_at_least, balance}
use arbiter_backend.Pricing.{Tier, resolve_tier, max_surge_multiplier}

-- The balances, `credit:{accountId}`.
abbrev pub Credits : Type 0
Credits = MemoryStore ℕ

unfoldable pub get_credit_balance_stroops : String → Credits → ℕ
get_credit_balance_stroops account_id credits = balance credits account_id

unfoldable pub reserve_credit : String → ℕ → Credits → Credits × Bool
reserve_credit account_id max_stroops credits = decr_if_at_least account_id max_stroops credits

abbrev credit_if_positive : String → ℕ → Credits → Credits
credit_if_positive account_id n credits =
    if ltb 0 n then (incr_by account_id n credits).0 else credits

-- The refund is `reserved - actual` where that is positive, and nothing else.
unfoldable pub settle_reservation : String → ℕ → ℕ → Credits → Credits
settle_reservation account_id reserved actual credits =
    credit_if_positive account_id (reserved - actual) credits

unfoldable pub restore_credit : String → ℕ → Credits → Credits
restore_credit account_id stroops credits = credit_if_positive account_id stroops credits

-- The answer of the route: 402, 202 with the amount that was charged on-chain, or 503.
pub data Answer : Type 0 where
  insufficient_credit : Answer
  accepted : ℕ → Answer
  unavailable : Answer

-- `charge` is what askMetered() charged on-chain, `none` if it threw.
unfoldable pub ask_with_credit : String → String → Option ℕ → Credits → Credits × Answer
unfolding reserve_credit settle_reservation
ask_with_credit account_id tier_key charge credits =
    let max_stroops = (resolve_tier tier_key).price_stroops * max_surge_multiplier in
    let (reserved, done) = reserve_credit account_id max_stroops credits in
    if done
    then elim charge [
      | some amount ↦ (settle_reservation account_id max_stroops amount reserved, accepted amount)
      | none ↦ (settle_reservation account_id max_stroops 0 reserved, unavailable)
    ]
    else (credits, insufficient_credit)

-- `between n` is what other requests do to the balances between the read and the debit of the
-- attempt with n attempts left.
module _ (between : ℕ → Credits → Credits) where
  unfoldable pub debit_attempts : ℕ → String → ℕ → Credits → Credits × ℕ
  debit_attempts zero account_id stroops credits = (credits, 0)
  debit_attempts (suc left) account_id stroops credits =
      let balance_read = get_credit_balance_stroops account_id credits in
      let amount = if leb balance_read stroops then balance_read else stroops in
      let (after, done) = decr_if_at_least account_id amount (between left credits) in
      let rest = debit_attempts left account_id stroops after in
      if leb amount 0 then (credits, 0) else if done then (after, amount) else rest

  unfoldable pub debit_credit_floored : String → ℕ → Credits → Credits × ℕ
  unfolding debit_attempts
  debit_credit_floored account_id stroops credits = debit_attempts 5 account_id stroops credits

pub data EventType : Type 0 where
  checkout_completed charge_refunded dispute_created : EventType
  other_type : EventType

-- A verified Stripe event. A refund or a dispute without its amount is one of 0. A checkout without
-- its amount, on which the code throws once the event is noted as handled, is left out.
pub record StripeEvent : Type 0 where
  pub id : String
  pub type : EventType
  pub metadata_account : Option String
  pub payment_intent : Option String
  pub amount_total : ℕ
  pub amount_refunded : ℕ
  pub amount : ℕ

pub record Reversal : Type 0 where
  pub event_id : String
  pub type : EventType
  pub payment_intent : Option String
  pub amount_cents : ℕ
  pub requested_stroops : ℕ
  pub debited_stroops : ℕ
  pub shortfall_stroops : ℕ
  pub recorded_at : ℕ

pub record Ledger : Type 0 where
  pub credits : Credits
  pub events : MemoryStore ℕ  -- `stripe-event:{id}`
  pub intents : MemoryStore (String × ℕ)  -- `stripe-pi:{intent}`: account and cents
  pub reversals : String → List Reversal  -- `payment-reversals:{accountId}`
  pub reversal_accounts : List String  -- `known-reversal-accounts`

abbrev pub thirty_days_ms : ℕ
thirty_days_ms = 30 * (24 * (60 * (60 * 1000)))

abbrev max_tracked_per_account : ℕ
max_tracked_per_account = 50

abbrev max_tracked_accounts : ℕ
max_tracked_accounts = 5_000

unfoldable pub record_payment_reversal : String → Reversal → Ledger → Ledger
record_payment_reversal account_id r l = record l {
  reversals = λ a.
      if str_eq account_id a
      then take max_tracked_per_account (r ∷ l.reversals account_id)
      else l.reversals a;
  reversal_accounts =
      if includes l.reversal_accounts account_id
      then l.reversal_accounts
      else take max_tracked_accounts (account_id ∷ l.reversal_accounts);
}

abbrev pub is_handled : EventType → Bool
is_handled other_type = false
is_handled _ = true

abbrev pub reversed_cents : StripeEvent → ℕ
reversed_cents e = elim e.type [ charge_refunded ↦ e.amount_refunded | _ ↦ e.amount ]

abbrev pub mapped_account : Option String → ℕ → Ledger → Option String
mapped_account none now l = none
mapped_account (some intent) now l = elim (get intent now l.intents).1 [
  | none ↦ none
  | some (account, cents) ↦ some account
]

module _ (usd_to_stroops : ℕ) where
  unfoldable pub cents_to_stroops : ℕ → ℕ
  cents_to_stroops cents = cents * (usd_to_stroops / 100)

  note_intent : Option String → String → ℕ → ℕ → Ledger → Ledger
  note_intent none account_id cents now l = l
  note_intent (some intent) account_id cents now l = record l {
    intents = set intent (account_id, cents) 0 now l.intents;
  }

  credit_account : Option String → StripeEvent → ℕ → Ledger → Ledger
  credit_account none e now l = l
  credit_account (some account_id) e now l =
      let noted = note_intent e.payment_intent account_id e.amount_total now l in
      record noted {
        credits = (incr_by account_id (cents_to_stroops e.amount_total) noted.credits).0;
      }

  unfoldable pub credit_checkout : StripeEvent → ℕ → Ledger → Ledger
  unfolding credit_account note_intent cents_to_stroops
  credit_checkout e now l = credit_account e.metadata_account e now l

  module _ (between : ℕ → Credits → Credits) where
    reverse_account : Option String → StripeEvent → ℕ → Ledger → Ledger
    reverse_account none e now l = l
    reverse_account (some account_id) e now l =
        let requested = cents_to_stroops (reversed_cents e) in
        let (credits, debited) = debit_credit_floored between account_id requested l.credits in
        record_payment_reversal account_id
          (record {
            event_id = e.id;
            type = e.type;
            payment_intent = e.payment_intent;
            amount_cents = reversed_cents e;
            requested_stroops = requested;
            debited_stroops = debited;
            shortfall_stroops = requested - debited;
            recorded_at = now;
          })
          (record l { credits = credits })

    unfoldable pub reverse_charge : StripeEvent → ℕ → Ledger → Ledger
    unfolding reverse_account cents_to_stroops debit_credit_floored record_payment_reversal
    reverse_charge e now l =
        reverse_account (or_else (mapped_account e.payment_intent now l) e.metadata_account) e now l

    apply_event : EventType → StripeEvent → ℕ → Ledger → Ledger
    unfolding credit_checkout reverse_charge
    apply_event checkout_completed e now l = credit_checkout e now l
    apply_event other_type e now l = l
    apply_event _ e now l = reverse_charge e now l

    -- The event once verified; a signature that does not verify throws before any of this.
    unfoldable pub handle_stripe_webhook : StripeEvent → ℕ → Ledger → Ledger
    unfolding apply_event
    handle_stripe_webhook e now l =
        let (events, is_new) = set_nx e.id 1 thirty_days_ms now l.events in
        if is_handled e.type
        then (if is_new then apply_event e.type e now (record l { events = events }) else l)
        else l

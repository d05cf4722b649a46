-- ===== src/Credit/Reservation.antt =====
-- What a customer pays for a question asked with an API key.
use arbiter_backend.Base.{
  ℕ, ◌+◌, ◌-◌, ◌*◌, ◌≤◌, ◌<◌, String, ◌≡◌, refl, true, Option, none, some, arith, leb, ltb, str_eq,
  eq_refl, eq_iff, if◌then◌else◌, ◌↔◌,
}
use arbiter_backend.Store.{balance, decr_if_at_least}
use arbiter_backend.Store.Counter.{balance-incr_by, balance-decr_if_at_least, decr_if_at_least_iff}
use arbiter_backend.Pricing.{resolve_tier, max_surge_multiplier, price_for_tier}
use arbiter_backend.Pricing.Quote.{priority_over_twice}
use arbiter_backend.Credit.{
  Credits, Answer, insufficient_credit, accepted, unavailable, ask_with_credit, reserve_credit,
  settle_reservation,
}

abbrev pub ceiling_of : String → ℕ
ceiling_of tier_key = (resolve_tier tier_key).price_stroops * max_surge_multiplier

-- What is to be paid for a charge on-chain: nothing for one that failed.
abbrev pub due : Option ℕ → ℕ → ℕ
due none ceiling = 0
due (some amount) ceiling = if leb amount ceiling then amount else ceiling

abbrev pub told : Option ℕ → Answer
told none = unavailable
told (some amount) = accepted amount

module _ (a b : String) (m : ℕ) (c : Credits) where
  -- A reservation of `m` that succeeds, and the settlement of `x` against it.
  settled_balance :
      (x : ℕ)
      → m ≤ balance c a
      → balance (settle_reservation a m x (reserve_credit a m c).0) b
        ≡ (if str_eq a b then balance c b - (if leb x m then x else m) else balance c b)
  unfolding settle_reservation reserve_credit
  settled_balance x h =
      let reserved = (decr_if_at_least a m c).0 in
      ground (
        arith,
        balance-decr_if_at_least a a m c,
        balance-decr_if_at_least a b m c,
        balance-incr_by a b (m - x) reserved,
        eq_iff a b,
        eq_iff a a,
      )

  reserve_iff : ((reserve_credit a m c).1 ≡ true) ↔ (m ≤ balance c a)
  unfolding reserve_credit
  reserve_iff = decr_if_at_least_iff a m c

-- With a balance below the tier's ceiling the answer is that the credit is insufficient, and nothing
-- is paid. Otherwise a charge that failed on-chain is answered as unavailable and costs nothing, and
-- one of some amount is answered with that amount, which the account loses, but never more than the
-- ceiling, which its balance covers. No other account changes.
pub ask_with_credit_lem :
    (a tier_key : String) (charge : Option ℕ) (c : Credits) (b : String)
    → let (next, answer) = ask_with_credit a tier_key charge c in
      let refused = ltb (balance c a) (ceiling_of tier_key) in
      let paid = if refused then 0 else due charge (ceiling_of tier_key) in
      (answer ≡ (if refused then insufficient_credit else told charge))
      × (balance next b ≡ (if str_eq a b then balance c b - paid else balance c b))
      × (paid ≤ balance c a)
unfolding ask_with_credit
ask_with_credit_lem a tier_key none c b = ground (
  arith,
  settled_balance a b (ceiling_of tier_key) c 0,
  reserve_iff a b (ceiling_of tier_key) c,
  eq_iff a b,
)
ask_with_credit_lem a tier_key (some amount) c b = ground (
  arith,
  settled_balance a b (ceiling_of tier_key) c amount,
  reserve_iff a b (ceiling_of tier_key) c,
  eq_iff a b,
)

priority_ceiling : ceiling_of "priority" ≡ 12_000_000
unfolding resolve_tier
priority_ceiling = refl

-- The answer to a question of the priority tier asked while fewer than six workers are online and
-- with enough credit for the reservation: more is charged on-chain than the account loses.
pub priority_shortfall :
    (a : String) (n : ℕ) (c : Credits)
    → n < 6
    → ceiling_of "priority" ≤ balance c a
    → let price = (price_for_tier "priority" n).price_stroops in
      let (next, answer) = ask_with_credit a "priority" (some price) c in
      (answer ≡ accepted price)
      × (balance next a + ceiling_of "priority" ≡ balance c a)
      × (ceiling_of "priority" < price)
unfolding ask_with_credit
priority_shortfall a n c h enough =
    let price = (price_for_tier "priority" n).price_stroops in
    let over : ceiling_of "priority" < price =
      omega (arith, priority_ceiling, priority_over_twice n h) in
    (
      ground (arith, reserve_iff a a (ceiling_of "priority") c),
      ground (
        arith,
        settled_balance a a (ceiling_of "priority") c price,
        reserve_iff a a (ceiling_of "priority") c,
        eq_refl a,
        over,
      ),
      over,
    )

-- ===== src/Credit/Debit.antt =====
-- The floored debit of a reversed payment.
use arbiter_backend.Base.{
  ℕ, zero, suc, ◌-◌, ◌≤◌, ◌<◌, String, ◌≡◌, arith, leb, str_eq, eq_iff, if◌then◌else◌,
}
use arbiter_backend.Store.{balance, decr_if_at_least}
use arbiter_backend.Store.Counter.{balance-decr_if_at_least, decr_if_at_least_iff}
use arbiter_backend.Credit.{
  Credits, debit_attempts, debit_credit_floored, get_credit_balance_stroops,
}

module _ (between : ℕ → Credits → Credits) where
  debit_attempts-le :
      (left : ℕ) (a : String) (stroops : ℕ) (c : Credits)
      → (debit_attempts between left a stroops c).1 ≤ stroops
  unfolding debit_attempts
  debit_attempts-le zero a stroops c = omega arith
  debit_attempts-le (suc left) a stroops c = ground (
    arith,
    debit_attempts-le left a stroops
        (decr_if_at_least a
          (if leb (get_credit_balance_stroops a c) stroops
            then get_credit_balance_stroops a c
            else stroops)
          (between left c)).0,
  )

  -- Whatever other requests do in between, no more is debited than was asked for.
  pub debit_credit_floored-le :
      (a : String) (stroops : ℕ) (c : Credits)
      → (debit_credit_floored between a stroops c).1 ≤ stroops
  unfolding debit_credit_floored
  debit_credit_floored-le a stroops c = debit_attempts-le 5 a stroops c

-- Where the other requests leave the account at least as rich as it was read, the first attempt
-- debits the lesser of the balance that was read and the amount, from this account alone.
pub debit_credit_floored_lem :
    (between : ℕ → Credits → Credits) (a b : String) (stroops : ℕ) (c : Credits)
    → balance c a ≤ balance (between 4 c) a
    → 0 < stroops
    → 0 < balance c a
    → let (next, debited) = debit_credit_floored between a stroops c in
      (debited ≡ (if leb (balance c a) stroops then balance c a else stroops))
      × (balance next b
          ≡ (if str_eq a b then balance (between 4 c) a - debited else balance (between 4 c) b))
unfolding debit_credit_floored debit_attempts get_credit_balance_stroops
debit_credit_floored_lem between a b stroops c rich p q =
    let amount = if leb (balance c a) stroops then balance c a else stroops in
    let step = decr_if_at_least_iff a amount (between 4 c) in
    let after = balance-decr_if_at_least a b amount (between 4 c) in
    ground (arith, step, after, eq_iff a b)

-- ===== src/Earnings/Share.antt =====
-- A question's amount, split into the platform's fee and the workers' shares.
use native.Mathlib.Nat.{div-mul-le_self, lt-div-mul-add, mul_comm}
use arbiter_backend.Base.{ℕ, zero, suc, ◌+◌, ◌-◌, ◌*◌, ◌/◌, ◌≤◌, ◌<◌, arith}
use arbiter_backend.Earnings.{worker_share_stroops, platform_fee_bps}

-- Any number split among `k` leaves less than `k` over.
split_among : (net k : ℕ) → 0 < k → (k * (net / k) ≤ net) × (net < k * (net / k) + k)
split_among net k h =
    let swap = mul_comm k (net / k) in
    let low = div-mul-le_self net k in
    let high = lt-div-mul-add {a = net} {b = k} h in (omega arith, omega arith)

fee-le : (amount : ℕ) → amount * platform_fee_bps / 10_000 ≤ amount
fee-le amount = omega arith

-- The fee of a fifth, rounded down, and the shares of any number of workers above 0 never exceed
-- the amount, and what they leave over is less than one stroop for each worker.
pub worker_share_stroops_bounds :
    (amount n : ℕ)
    → 0 < n
    → (amount * platform_fee_bps / 10_000 + n * worker_share_stroops amount n ≤ amount)
      × (amount < amount * platform_fee_bps / 10_000 + n * worker_share_stroops amount n + n)
unfolding worker_share_stroops
worker_share_stroops_bounds amount zero h = absurd (omega arith)
worker_share_stroops_bounds amount (suc n) h =
    let parts = split_among (amount - amount * platform_fee_bps / 10_000) (suc n) h in
    let fee = fee-le amount in (omega arith, omega arith)

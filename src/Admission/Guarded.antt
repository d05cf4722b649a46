-- ===== src/Admission/Guarded.antt =====
-- Who may cancel, and which payment starts a question.
use arbiter_backend.Base.{ℕ, ◌≤◌, String, ◌≡◌, ◌↔◌, Bool, true, false, Option, some, arith}
use arbiter_backend.Settle.{chain_pending}
use arbiter_backend.Jobs.{holding}
use arbiter_backend.Admission.{
  OnChain, paid_by, verify_payment, Held, cancelled, authorized, cancel_job,
}

-- A payment is accepted exactly for a stashed question that is pending on the chain with at least
-- the quoted price, and then at that price for the payer on the chain.
pub verify_payment_iff :
    (price : ℕ) (q : OnChain)
    → (verify_payment (some price) (some q) ≡ paid_by q.payer price)
      ↔ ((q.status ≡ chain_pending) × (price ≤ q.amount))
unfolding verify_payment
verify_payment_iff price q = ground arith

-- A cancel succeeds only for a job that is held, not instant and no sandbox one, for the one who
-- paid it, and when it wins the race with dispatch.
pub cancelled_only_held :
    (job : Held) (owner api_key session : Option String) (wins : Bool)
    → cancel_job (some job) owner api_key session wins ≡ cancelled
    → ((job.status ≡ some holding) × (job.is_instant ≡ false))
      × ((authorized owner api_key session job ≡ true) × (wins ≡ true))
unfolding cancel_job
cancelled_only_held job owner api_key session wins e = ground arith

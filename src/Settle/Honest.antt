-- ===== src/Settle/Honest.antt =====
-- A question ends settled, and the outcome on its record is what happened on the chain.
use arbiter_backend.Base.{ℕ, String, ◌≡◌, true, Option, none, some, List, is_some}
use arbiter_backend.Store.{view}
use arbiter_backend.Jobs.{
  Jobs, settled, Outcome, resolved, refunded, refund_pending_timeout, lost_race_to_timeout_refund,
  or_empty,
}
use arbiter_backend.Settle.{ChainStatus, chain_resolved, chain_refunded, State}

-- What a record says of the chain.
abbrev pub Tells : Option Outcome → Option ChainStatus → Type 0
Tells (some resolved) c = c ≡ some chain_resolved
Tells (some refunded) c = c ≡ some chain_refunded
Tells (some lost_race_to_timeout_refund) c = c ≡ some chain_refunded
Tells (some refund_pending_timeout) c = Unit
Tells none c = ⊥

module _ {ℓ} {C : Type ℓ} (resolve : String → List String → List String → C → C × Option String)
    (refund : String → C → C × Option String) (question : String → C → Option ChainStatus) (ttl : ℕ)
    (resolve-resolves : (id : String) (ws ls : List String) (c : C)
      → is_some (resolve id ws ls c).1 ≡ true
      → question id (resolve id ws ls c).0 ≡ some chain_resolved)
    (refund-refunds : (id : String) (c : C)
      → is_some (refund id c).1 ≡ true
      → question id (refund id c).0 ≡ some chain_refunded) where
  -- Settled, with an outcome that is true of the chain.
  abbrev IsTold : String → ℕ → Jobs → C → Type 0
  IsTold id now s c =
      let job = or_empty (view s.jobs id now) in
      (job.status ≡ some settled) × Tells job.outcome (question id c)

  abbrev pub IsHonest : String → ℕ → State C → Type 0
  IsHonest id now s =
      let job = or_empty (view s.jobs.jobs id now) in
      (job.status ≡ some settled) × Tells job.outcome (question id s.chain)

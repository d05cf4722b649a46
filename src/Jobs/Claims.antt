-- ===== src/Jobs/Claims.antt =====
-- claimJob: a claim against the job that it guards.
use arbiter_backend.Base.{ℕ, ◌+◌, ◌≤◌, ◌<◌, String, ◌≡◌, true, false, none, arith, eq_refl}
use arbiter_backend.Store.{MemoryStore, incr, view}
use arbiter_backend.Store.Counter.{incr-eq, view-incr}
use arbiter_backend.Jobs.{Jobs, claim_job}

module _ (ttl : ℕ) where
  pub claim-free :
      (id : String) (now : ℕ) (claims : MemoryStore ℕ)
      → view claims id now ≡ none
      → (claim_job id ttl now claims).1 ≡ true
  unfolding claim_job
  claim-free id now claims free = ground (arith, incr-eq id ttl now claims)

  pub claim-taken :
      (id : String) (now t : ℕ) (claims : MemoryStore ℕ)
      → 0 < ttl
      → t ≤ now + ttl
      → (claim_job id ttl t (claim_job id ttl now claims).0).1 ≡ false
  unfolding claim_job
  claim-taken id now t claims p live = ground (
    arith,
    incr-eq id ttl t (incr id ttl now claims).0,
    view-incr id id ttl now t claims p,
    eq_refl id,
  )

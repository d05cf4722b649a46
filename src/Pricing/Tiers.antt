-- ===== src/Pricing/Tiers.antt =====
-- Which tier a key resolves to.
use arbiter_backend.Base.{String, ◌≡◌, ◌⊎◌, arith}
use arbiter_backend.Pricing.{instant, standard, express, priority, resolve_tier}

pub resolve_tier-cases :
    (key : String)
    → (resolve_tier key ≡ instant)
      ⊎ (resolve_tier key ≡ standard)
      ⊎ (resolve_tier key ≡ express)
      ⊎ (resolve_tier key ≡ priority)
unfolding resolve_tier
resolve_tier-cases key = ground arith

-- ===== src/Pricing/Quote.antt =====
-- Bounds and monotonicity of the quoted price.
use arbiter_backend.Base.{ℕ, ◌*◌, ◌≤◌, ◌<◌, String, ◌≡◌, ◌⊎◌, inl, inr, arith}
use arbiter_backend.Pricing.{
  Tier, instant, standard, express, priority, resolve_tier, surge_multiplier,
  priority_queue_jump_multiplier, price_for_tier, round_div,
}
use arbiter_backend.Pricing.Tiers.{resolve_tier-cases}

-- The price of a tier that the key resolved to.
abbrev price_at : Tier → ℕ → ℕ
price_at t n =
    round_div (t.price_stroops * surge_multiplier t n * priority_queue_jump_multiplier t.key) 10_000

-- Base price at least, and twice that at most; half as much again for the tier that jumps the queue.
abbrev pub InBounds : Tier → ℕ → Type 0
InBounds t p =
    (t.price_stroops ≤ p)
    × (4 * p ≤ 10 * t.price_stroops)
    × ((t ≡ priority) ⊎ (p ≤ 2 * t.price_stroops))

instant_bounds : (n : ℕ) → InBounds instant (price_at instant n)
unfolding surge_multiplier priority_queue_jump_multiplier
instant_bounds n = ground arith

standard_bounds : (n : ℕ) → InBounds standard (price_at standard n)
unfolding surge_multiplier priority_queue_jump_multiplier
standard_bounds n = ground arith

express_bounds : (n : ℕ) → InBounds express (price_at express n)
unfolding surge_multiplier priority_queue_jump_multiplier
express_bounds n = ground arith

priority_bounds : (n : ℕ) → InBounds priority (price_at priority n)
unfolding surge_multiplier priority_queue_jump_multiplier
priority_bounds n = ground arith

-- The quoted price is at least the base price of its tier and at most twice that, but for the
-- priority tier, where it is at most two and a half times the base price.
pub price_for_tier_bounds :
    (key : String) (n : ℕ) → InBounds (resolve_tier key) (price_for_tier key n).price_stroops
unfolding price_for_tier
price_for_tier_bounds key n = elim (resolve_tier-cases key) [
  | inl e ↦ rw e (instant_bounds n)
  | inr (inl e) ↦ rw e (standard_bounds n)
  | inr (inr (inl e)) ↦ rw e (express_bounds n)
  | inr (inr (inr e)) ↦ rw e (priority_bounds n)
]

instant_antitone : (n m : ℕ) → n ≤ m → price_at instant m ≤ price_at instant n
unfolding surge_multiplier priority_queue_jump_multiplier
instant_antitone n m h = ground arith

standard_antitone : (n m : ℕ) → n ≤ m → price_at standard m ≤ price_at standard n
unfolding surge_multiplier priority_queue_jump_multiplier
standard_antitone n m h = ground arith

express_antitone : (n m : ℕ) → n ≤ m → price_at express m ≤ price_at express n
unfolding surge_multiplier priority_queue_jump_multiplier
express_antitone n m h = ground arith

priority_antitone : (n m : ℕ) → n ≤ m → price_at priority m ≤ price_at priority n
unfolding surge_multiplier priority_queue_jump_multiplier
priority_antitone n m h = ground arith

-- More workers online never raise the quoted price.
pub price_for_tier_antitone :
    (key : String) (n m : ℕ)
    → n ≤ m
    → (price_for_tier key m).price_stroops ≤ (price_for_tier key n).price_stroops
unfolding price_for_tier
price_for_tier_antitone key n m h = elim (resolve_tier-cases key) [
  | inl e ↦ rw e (instant_antitone n m h)
  | inr (inl e) ↦ rw e (standard_antitone n m h)
  | inr (inr (inl e)) ↦ rw e (express_antitone n m h)
  | inr (inr (inr e)) ↦ rw e (priority_antitone n m h)
]

-- Below six online workers the priority tier is quoted at more than twice its base price.
pub priority_over_twice :
    (n : ℕ) → n < 6 → 2 * priority.price_stroops < (price_for_tier "priority" n).price_stroops
unfolding price_for_tier resolve_tier surge_multiplier
priority_over_twice n h = ground arith

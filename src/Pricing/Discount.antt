-- ===== src/Pricing/Discount.antt =====
-- The volume discount: its multipliers and the discounted price.
use arbiter_backend.Base.{ℕ, ◌+◌, ◌*◌, ◌≤◌, String, Option, none, some, arith}
use arbiter_backend.Pricing.{
  volume_discount_multiplier, price_for_tier, price_for_tier_with_volume_discount, round_div,
}

-- More volume never earns a worse multiplier, and every multiplier lies between 70 and 100.
pub volume_discount_antitone :
    (v w : ℕ)
    → v ≤ w
    → (70 ≤ volume_discount_multiplier (some w))
      × (volume_discount_multiplier (some w) ≤ volume_discount_multiplier (some v))
      × (volume_discount_multiplier (some v) ≤ 100)
unfolding volume_discount_multiplier
volume_discount_antitone v w h = ground arith

volume_range :
    (v : Option ℕ) → (70 ≤ volume_discount_multiplier v) × (volume_discount_multiplier v ≤ 100)
unfolding volume_discount_multiplier
volume_range none = ground arith
volume_range (some v) = ground arith

scaled :
    (p m : ℕ)
    → 70 ≤ m
    → m ≤ 100
    → (round_div (p * m) 100 ≤ p) × (7 * p ≤ 10 * round_div (p * m) 100 + 5)
scaled p m l u = grind arith

-- The discounted price is at most the quoted one, and no less than 70% of it up to rounding.
pub discounted_bounds :
    (key : String) (n : ℕ) (v : Option ℕ)
    → let full = (price_for_tier key n).price_stroops in
      let p = price_for_tier_with_volume_discount key n v in (p ≤ full) × (7 * full ≤ 10 * p + 5)
unfolding price_for_tier_with_volume_discount
discounted_bounds key n v =
    scaled (price_for_tier key n).price_stroops (volume_discount_multiplier v) (volume_range v).0
      (volume_range v).1

-- ===== src/Pricing.antt =====
-- src/pricing.js: the tiers, the surge and volume multipliers and the quoted price. Multipliers are
-- exact hundredths (the code rounds the surge to hundredths itself), a price is in stroops, and
-- `Math.round(a / b)` is `round_div a b`, halves going up.
pub mod Tiers
pub mod Quote
pub mod Discount
use arbiter_backend.Base.{
  ℕ, zero, suc, ◌+◌, ◌-◌, ◌*◌, ◌/◌, String, Bool, true, false, Option, none, some, List, [], ◌∷◌,
  str_eq, leb, ltb, ◌==◌, ◌||◌, if◌then◌else◌, Assoc, lookup, length, keep,
}

pub record Escalation : Type 0 where
  pub initial_quorum : ℕ
  pub max_quorum : ℕ

pub record Tier : Type 0 where
  pub key : String
  pub instant : Bool
  pub quorum_size : ℕ
  pub timeout_ms : ℕ
  pub prefer_established : Bool
  pub price_stroops : ℕ
  pub escalation : Option Escalation

abbrev pub tier_of : String → Bool → ℕ → ℕ → Bool → ℕ → Tier
tier_of k i q t e p = record {
  key = k;
  instant = i;
  quorum_size = q;
  timeout_ms = t;
  prefer_established = e;
  price_stroops = p;
  escalation = none;
}

abbrev pub instant : Tier
instant = tier_of "instant" true 0 0 false 500_000

abbrev pub standard : Tier
standard = tier_of "standard" false 3 45_000 false 2_500_000

abbrev pub express : Tier
express = tier_of "express" false 2 12_000 false 4_000_000

abbrev pub priority : Tier
priority = tier_of "priority" false 5 30_000 true 6_000_000

unfoldable pub pricing_tiers : Assoc Tier
pricing_tiers =
    ("instant", instant)
    ∷ ("standard", standard)
    ∷ ("express", express)
    ∷ ("priority", priority)
    ∷ []

abbrev or_standard : Option Tier → Tier
or_standard none = standard
or_standard (some t) = t

-- An unknown key, `__proto__` included, is the default tier.
unfoldable pub resolve_tier : String → Tier
unfolding pricing_tiers lookup
resolve_tier key = or_standard (lookup key pricing_tiers)

-- `Math.round(a / b)` for b > 0.
abbrev pub round_div : ℕ → ℕ → ℕ
round_div a b = (2 * a + b) / (2 * b)

abbrev pub comfortable_supply_multiple : ℕ
comfortable_supply_multiple = 3

-- In hundredths: 100 is the minimal multiplier, 200 the maximal one.
unfoldable pub surge_multiplier : Tier → ℕ → ℕ
surge_multiplier tier online_workers =
    let comfortable = tier.quorum_size * comfortable_supply_multiple in
    if leb comfortable 0 || leb comfortable online_workers
    then 100
    else round_div (100 * comfortable + 100 * (comfortable - online_workers)) comfortable

abbrev pub max_surge_multiplier : ℕ
max_surge_multiplier = 2

-- In hundredths.
unfoldable pub priority_queue_jump_multiplier : String → ℕ
unfolding resolve_tier
priority_queue_jump_multiplier key = if str_eq (resolve_tier key).key "priority" then 125 else 100

pub record Priced : Type 0 where
  pub tier : Tier
  pub open tier use {key, quorum_size, timeout_ms}
  pub price_stroops : ℕ
  pub surge : ℕ
  pub jump : ℕ

unfoldable pub price_for_tier : String → ℕ → Priced
unfolding surge_multiplier priority_queue_jump_multiplier
price_for_tier tier_key online_workers =
    let tier = resolve_tier tier_key in
    let multiplier = surge_multiplier tier online_workers in
    let jump_multiplier = priority_queue_jump_multiplier tier.key in
    record {
      tier = tier;
      price_stroops = round_div (tier.price_stroops * multiplier * jump_multiplier) 10_000;
      surge = multiplier;
      jump = jump_multiplier;
    }

abbrev pub volume_discount_tiers : List (ℕ × ℕ)
volume_discount_tiers = (0, 100) ∷ (1_000, 90) ∷ (10_000, 80) ∷ (100_000, 70) ∷ []

abbrev pub last_multiplier : ℕ → List (ℕ × ℕ) → ℕ → ℕ
last_multiplier v [] m = m
last_multiplier v ((min_volume, multiplier) ∷ ts) m =
    last_multiplier v ts (if leb min_volume v then multiplier else m)

-- `none` is a volume that is no finite number.
unfoldable pub volume_discount_multiplier : Option ℕ → ℕ
volume_discount_multiplier none = 100
volume_discount_multiplier (some v) =
    if leb v 0 then 100 else last_multiplier v volume_discount_tiers 100

unfoldable pub price_for_tier_with_volume_discount : String → ℕ → Option ℕ → ℕ
unfolding price_for_tier volume_discount_multiplier
price_for_tier_with_volume_discount tier_key online_workers volume =
    round_div
      ((price_for_tier tier_key online_workers).price_stroops * volume_discount_multiplier volume)
      100

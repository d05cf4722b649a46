-- ===== src/Payers/Loyalty.antt =====
-- Which tier a payer reaches, and that its bonus is credited once.
use mathlib.Core.Path.{subst}
use arbiter_backend.Base.{
  ℕ, ◌<◌, ◌≤◌, String, ◌≡◌, Option, none, some, List, [], ◌∷◌, arith, leb, ◌&&◌, if◌then◌else◌,
  lookup, insert, lookup-insert, Bool-cases, inl, inr, eq_iff,
}
use arbiter_backend.Payers.{
  PayerStore, LoyaltyTier, loyalty_tiers, evaluate_loyalty_tier, rank_of, claim_loyalty_tier,
  claim_evaluated,
}

abbrev pub threshold : Option LoyaltyTier → ℕ
threshold none = 0
threshold (some tier) = tier.min_spend_stroops

abbrev pub name_of : Option LoyaltyTier → Option String
name_of none = none
name_of (some tier) = some tier.name

-- The largest threshold that a spend reaches, over all tiers in any order.
abbrev pub highest_reached : ℕ → List LoyaltyTier → ℕ
highest_reached spend [] = 0
highest_reached spend (tier ∷ tiers) =
    let rest = highest_reached spend tiers in
    if leb tier.min_spend_stroops spend && leb rest tier.min_spend_stroops
    then tier.min_spend_stroops
    else rest

highest_exact :
    (spend : ℕ) → threshold (evaluate_loyalty_tier spend) ≡ highest_reached spend loyalty_tiers
unfolding evaluate_loyalty_tier
highest_exact spend = ground arith

tiers_monotone :
    (spend more : ℕ)
    → spend ≤ more
    → rank_of (name_of (evaluate_loyalty_tier spend))
      ≤ rank_of (name_of (evaluate_loyalty_tier more))
unfolding evaluate_loyalty_tier rank_of
tiers_monotone spend more le = ground arith

-- The tier a spend earns is the one with the highest threshold that the spend reaches, and a
-- higher spend never earns a tier of a lower rank.
pub evaluate_loyalty_tier_lem :
    (spend more : ℕ)
    → spend ≤ more
    → threshold (evaluate_loyalty_tier spend) ≡ highest_reached spend loyalty_tiers
      × (rank_of (name_of (evaluate_loyalty_tier spend))
          ≤ rank_of (name_of (evaluate_loyalty_tier more)))
evaluate_loyalty_tier_lem spend more le = (highest_exact spend, tiers_monotone spend more le)

credit_first : Option LoyaltyTier → List LoyaltyTier → List LoyaltyTier
credit_first none rest = rest
credit_first (some tier) rest = tier ∷ rest

-- The tiers credited by one claim after another of a payer, in order.
unfoldable pub claims : String → List ℕ → PayerStore → List LoyaltyTier
unfolding credit_first
claims payer [] s = []
claims payer (spend ∷ spends) s =
    let claimed = claim_loyalty_tier payer spend s in
    credit_first claimed.1 (claims payer spends claimed.0)

-- Each tier ranks above the one before, the first above `rank`.
abbrev pub IsClimb : ℕ → List LoyaltyTier → Type 0
IsClimb rank [] = Unit
IsClimb rank (tier ∷ tiers) =
    (rank < rank_of (some tier.name)) × IsClimb (rank_of (some tier.name)) tiers

claim-climbs :
    (payer : String) (e : Option LoyaltyTier) (s : PayerStore)
    (rest : PayerStore → List LoyaltyTier)
    → ((t : PayerStore) → IsClimb (rank_of (lookup payer t.loyalty)) (rest t))
    → IsClimb
        (rank_of (lookup payer s.loyalty))
        (credit_first (claim_evaluated payer e s).1 (rest (claim_evaluated payer e s).0))
unfolding claim_evaluated credit_first
claim-climbs payer none s rest h = h s
claim-climbs payer (some tier) s rest h =
    elim (Bool-cases (leb (rank_of (some tier.name)) (rank_of (lookup payer s.loyalty)))) [
      | inl t ↦ rw t (h s)
      | inr t ↦ rw t (
        ground arith,
        subst
            (λ o.
              IsClimb (rank_of o) (rest (record s { loyalty = insert payer tier.name s.loyalty })))
            (ground (arith, lookup-insert payer payer tier.name s.loyalty, eq_iff payer payer))
            (h (record s { loyalty = insert payer tier.name s.loyalty })),
      )
    ]

-- Whatever spends a payer's summaries show, in any order, every tier credited ranks above the
-- tiers credited before it: no tier's bonus is credited twice.
pub claims-IsClimb :
    (payer : String) (spends : List ℕ) (s : PayerStore)
    → IsClimb (rank_of (lookup payer s.loyalty)) (claims payer spends s)
unfolding claims claim_loyalty_tier
claims-IsClimb payer [] s = tt
claims-IsClimb payer (spend ∷ spends) s =
    claim-climbs payer (evaluate_loyalty_tier spend) s (claims payer spends)
      (claims-IsClimb payer spends)

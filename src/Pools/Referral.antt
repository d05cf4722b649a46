-- ===== src/Pools/Referral.antt =====
-- A payer is attributed to one worker, once.
use arbiter_backend.Base.{
  ℕ, ◌+◌, String, ◌≡◌, ◌≢◌, refl, Bool, true, false, not, ◌||◌, Option, none, some, List, [], ◌∷◌,
  arith, lookup, lookup-insert, if◌then◌else◌, eq_iff, str_eq, Option-cases, Bool-cases, inl, inr,
}
use arbiter_backend.Pools.{
  Ledger, Attribution, Recorded, recorded, record_first_payment_referral, referral_reward_stroops,
  attribute, record_new, not_first_payment, unless_attributed, or_nothing,
}

-- One call of the ledger.
pub record Payment : Type 0 where
  pub payer : String
  pub code : String
  pub amount : ℕ
  pub is_first : Bool
  pub now : ℕ

abbrev pub earned : String → Ledger → ℕ
earned worker s = or_nothing (lookup worker s.earnings)

record_new-kept :
    (a b : Attribution) (payer : String) (s : Ledger)
    → lookup a.payer s.referrals ≡ none
    → lookup payer s.referrals ≡ some b
    → lookup payer (record_new a s).0.referrals ≡ some b
unfolding record_new
record_new-kept a b payer s n e =
    ground (arith, lookup-insert a.payer payer a s.referrals, eq_iff a.payer payer)

earned-record_new :
    (a : Attribution) (worker : String) (s : Ledger)
    → earned worker (record_new a s).0
      ≡ (if str_eq a.referrer worker then a.reward_stroops else 0) + earned worker s
unfolding record_new
earned-record_new a worker s = ground (
  arith,
  lookup-insert a.referrer worker (or_nothing (lookup a.referrer s.earnings) + a.reward_stroops)
      s.earnings,
  eq_iff a.referrer worker,
)

attribute-kept :
    (payer code : String) (amount bps now : ℕ) (found : Option (String × String)) (s : Ledger)
    (other : String) (b : Attribution)
    → lookup payer s.referrals ≡ none
    → lookup other s.referrals ≡ some b
    → lookup other (attribute payer code amount bps now found s).0.referrals ≡ some b
unfolding attribute
attribute-kept payer code amount bps now none s other b n e = e
attribute-kept payer code amount bps now (some (owner, known)) s other b n e =
    elim (Bool-cases (str_eq owner payer)) [
      | inl t ↦ rw t e
      | inr t ↦ rw t (record_new-kept _ b other s n e)
    ]

-- What one call leaves: a recorded attribution, or the store as it was.
abbrev Step : ℕ → String → Bool → Ledger → String → Ledger × Recorded → Type 0
Step reward payer is_first s worker p =
    ((a : Attribution)
      → p.1 ≡ recorded a
      → ((lookup payer s.referrals ≡ none)
          × ((is_first ≡ true) × (str_eq a.referrer payer ≡ false)))
        × (earned worker p.0 ≡ (if str_eq a.referrer worker then reward else 0) + earned worker s))
    × (((a : Attribution) → p.1 ≢ recorded a) → p.0 ≡ s)

nothing-recorded :
    (reward : ℕ) (payer : String) (is_first : Bool) (s : Ledger) (worker : String) (r : Recorded)
    → ((a : Attribution) → r ≢ recorded a)
    → Step reward payer is_first s worker (s, r)
nothing-recorded reward payer is_first s worker r n = (λ a e. absurd (n a e), λ h. refl)

recorded-Step :
    (a : Attribution) (s : Ledger) (worker : String)
    → lookup a.payer s.referrals ≡ none
    → str_eq a.referrer a.payer ≡ false
    → Step a.reward_stroops a.payer true s worker (record_new a s)
unfolding record_new
recorded-Step a s worker n t = (
  λ b e.
      let same : a.referrer ≡ b.referrer = ground arith in
      ((n, (refl, ground arith)), rw⁻¹ same (earned-record_new a worker s)),
  λ h. absurd (h a refl),
)

unless-Step :
    (reward : ℕ) (payer : String) (is_first : Bool) (s : Ledger) (worker : String)
    (next : Ledger × Recorded) (o : Option Attribution)
    → (o ≡ none → Step reward payer is_first s worker next)
    → Step reward payer is_first s worker (unless_attributed o next s)
unfolding unless_attributed
unless-Step reward payer is_first s worker next none w = w refl
unless-Step reward payer is_first s worker next (some b) w =
    nothing-recorded reward payer is_first s worker _ (λ a h. ground arith)

attribute-Step :
    (payer code : String) (amount bps now : ℕ) (found : Option (String × String)) (s : Ledger)
    (worker : String)
    → lookup payer s.referrals ≡ none
    → Step
        (referral_reward_stroops amount bps)
        payer
        true
        s
        worker
        (attribute payer code amount bps now found s)
unfolding attribute record_new
attribute-Step payer code amount bps now none s worker n =
    nothing-recorded _ payer true s worker _ (λ a e. ground arith)
attribute-Step payer code amount bps now (some (owner, known)) s worker n =
    let a : Attribution = record {
      payer = payer;
      referrer = owner;
      code = known;
      first_payment_stroops = amount;
      reward_stroops = referral_reward_stroops amount bps;
      attributed_at = now;
    } in
    elim (Bool-cases (str_eq owner payer)) [
      | inl t ↦ rw t (nothing-recorded _ payer true s worker _ (λ a e. ground arith))
      | inr t ↦ rw t (recorded-Step a s worker n t)
    ]

module _ (lookup_referral_code : String → Option (String × String)) (enabled : Bool)
    (reward_bps : ℕ) where
  unfoldable pub record_payment : Payment → Ledger → Ledger × Recorded
  unfolding record_first_payment_referral
  record_payment p s =
      record_first_payment_referral lookup_referral_code enabled reward_bps p.payer p.code p.amount
        p.is_first p.now s

  unfoldable pub record_payments : List Payment → Ledger → Ledger
  unfolding record_payment
  record_payments [] s = s
  record_payments (p ∷ ps) s = record_payments ps (record_payment p s).0

  kept-once :
      (p : Payment) (payer : String) (a : Attribution) (s : Ledger)
      → lookup payer s.referrals ≡ some a
      → lookup payer (record_payment p s).0.referrals ≡ some a
  unfolding record_payment record_first_payment_referral unless_attributed
  kept-once p payer a s e = elim (Option-cases (lookup p.payer s.referrals)) [
    | inr (b, g) ↦ ground arith
    | inl n ↦ ground (
      arith,
      attribute-kept p.payer p.code p.amount reward_bps p.now (lookup_referral_code p.code) s payer
          a n e,
    )
  ]

  -- The first attribution of a payer stands, whatever payments are recorded after it.
  pub attributed_once :
      (ps : List Payment) (payer : String) (a : Attribution) (s : Ledger)
      → lookup payer s.referrals ≡ some a
      → lookup payer (record_payments ps s).referrals ≡ some a
  unfolding record_payments
  attributed_once [] payer a s e = e
  attributed_once (p ∷ ps) payer a s e =
      attributed_once ps payer a (record_payment p s).0 (kept-once p payer a s e)

  first-Step :
      (p : Payment) (s : Ledger) (worker : String)
      → lookup p.payer s.referrals ≡ none
      → Step (referral_reward_stroops p.amount reward_bps) p.payer p.is_first s worker (
          if not p.is_first
          then (s, not_first_payment)
          else attribute p.payer p.code p.amount reward_bps p.now (lookup_referral_code p.code) s)
  first-Step p s worker n = elim (Bool-cases p.is_first) [
    | inl f ↦ rw f (
        attribute-Step p.payer p.code p.amount reward_bps p.now (lookup_referral_code p.code) s
          worker n)
    | inr f ↦ rw f (nothing-recorded _ p.payer false s worker _ (λ a h. ground arith))
  ]

  payment-Step :
      (p : Payment) (s : Ledger) (worker : String)
      → Step
          (referral_reward_stroops p.amount reward_bps)
          p.payer
          p.is_first
          s
          worker
          (record_payment p s)
  unfolding record_payment record_first_payment_referral unless_attributed
  payment-Step p s worker =
      let nothing =
        nothing-recorded (referral_reward_stroops p.amount reward_bps) p.payer p.is_first s
          worker in
      elim (Bool-cases enabled) [
        | inr e ↦ rw e (nothing _ (λ a h. ground arith))
        | inl e ↦ elim (Bool-cases (str_eq p.payer "" || str_eq p.code "")) [
          | inl c ↦ rw (e, c) (nothing _ (λ a h. ground arith))
          | inr c ↦
              rw (e, c)
                (unless-Step _ p.payer p.is_first s worker _ (lookup p.payer s.referrals)
                  (λ n. first-Step p s worker n))
        ]
      ]

  -- A new attribution is of a payer who had none, on a first payment, to a worker who is not the
  -- payer; it earns that worker the reward for the amount, and nobody else anything.
  pub record_payment_lem :
      (p : Payment) (s : Ledger) (worker : String) (a : Attribution)
      → (record_payment p s).1 ≡ recorded a
      → ((lookup p.payer s.referrals ≡ none)
          × ((p.is_first ≡ true) × (str_eq a.referrer p.payer ≡ false)))
        × (earned worker (record_payment p s).0
            ≡ (if str_eq a.referrer worker then referral_reward_stroops p.amount reward_bps else 0)
              + earned worker s)
  record_payment_lem p s worker a e = (payment-Step p s worker).0 a e

  -- A payment that attributes nobody leaves the ledger as it was.
  pub record_payment-unrecorded :
      (p : Payment) (s : Ledger)
      → ((a : Attribution) → (record_payment p s).1 ≢ recorded a)
      → (record_payment p s).0 ≡ s
  record_payment-unrecorded p s n = (payment-Step p s "").1 n

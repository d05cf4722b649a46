-- ===== src/Referrals/Capped/Reached.antt =====
-- The cap of a referral code (src/referrals.js) in every state the interleaved calls reach.
use arbiter_backend.Base.{
  ℕ, zero, suc, ◌+◌, ◌≤◌, String, ◌≡◌, refl, Bool, Option, List, [], ◌∷◌, arith, is_some, lookup,
  Bool-cases, Option-cases, inl, inr,
}
use arbiter_backend.Referrals.{
  Referrals, uses_of, or_no_uses, get_or_create_referral_code, get_or_mint, mint_from,
  max_mint_attempts, get_referral_code_for,
}
use arbiter_backend.Referrals.Calls.{
  Running, Step, begins, reserves, claims, gives_back, mints, Reach, start, next, redeemed, holding,
  sum_calls,
}
use arbiter_backend.Referrals.Capped.{
  IsCapped, claim-IsCapped, give_back-IsCapped, reserve-IsCapped,
}

mint_from-rest :
    (is_address : String → Bool) (owner : String) (now attempts : ℕ) (candidates : List String)
    (s : Referrals)
    → ((mint_from owner now attempts candidates s).0.uses ≡ s.uses)
      × ((mint_from owner now attempts candidates s).0.redemptions ≡ s.redemptions)
unfolding mint_from
mint_from-rest f owner now zero candidates s = (refl, refl)
mint_from-rest f owner now (suc n) [] s = (refl, refl)
mint_from-rest f owner now (suc n) (code ∷ candidates) s =
    elim (Bool-cases (is_some (lookup code s.codes))) [
      | inl t ↦ rw t (mint_from-rest f owner now n candidates s)
      | inr t ↦ elim (Bool-cases (is_some (lookup owner s.owners))) [
        | inl h ↦ rw (t, h) (refl, refl)
        | inr h ↦ rw (t, h) (refl, refl)
      ]
    ]

mint-rest :
    (is_address : String → Bool) (owner : String) (now : ℕ) (candidates : List String)
    (s : Referrals)
    → ((get_or_create_referral_code is_address owner now candidates s).0.uses ≡ s.uses)
      × ((get_or_create_referral_code is_address owner now candidates s).0.redemptions
          ≡ s.redemptions)
unfolding get_or_create_referral_code get_or_mint
mint-rest f owner now candidates s = elim (Bool-cases (f owner)) [
  | inr n ↦ rw n (refl, refl)
  | inl t ↦ elim (Option-cases (get_referral_code_for owner s)) [
    | inr (c, e) ↦ rw (t, e) (refl, refl)
    | inl e ↦ rw (t, e) (mint_from-rest f owner now max_mint_attempts candidates s)
  ]
]

none_used : (code : String) → or_no_uses (lookup code []) ≡ 0 + 0
unfolding lookup
none_used code = refl

module _ (is_address : String → Bool) (normalized : String → Option String) (max_uses : ℕ)
    (code : String) where
  Step-IsCapped :
      (r t : Running)
      → Step is_address normalized max_uses r t
      → IsCapped max_uses code r
      → IsCapped max_uses code t
  Step-IsCapped r _ (begins referee given answers c e) w =
      let counted = w.counted in
      let room = w.capped in record { counted = omega arith; capped = omega arith }
  Step-IsCapped r _ (reserves before after referee c e) w =
      reserve-IsCapped max_uses code before after referee c r e w
  Step-IsCapped r _ (claims before after referee c now e) w =
      claim-IsCapped max_uses code before after referee c now r e w
  Step-IsCapped r _ (gives_back before after gone e) w =
      give_back-IsCapped max_uses code before after gone r e w
  Step-IsCapped r _ (mints owner now candidates) w =
      let (uses, redemptions) = mint-rest is_address owner now candidates r.store in
      record { counted = rw (uses, redemptions) w.counted; capped = rw redemptions w.capped }

  Reach-IsCapped : (r : Running) → Reach is_address normalized max_uses r → IsCapped max_uses code r
  Reach-IsCapped _ (start s u e) = record {
    counted = rw (u, e) (none_used code);
    capped = rw e (omega arith);
  }
  Reach-IsCapped _ (next {r} {t} h step) = Step-IsCapped r t step (Reach-IsCapped r h)

  -- Whatever redemptions and mintings of codes interleave, a call's reads, its reservation of a use,
  -- its claim and its giving back being separate steps: a code is never redeemed more often than the
  -- cap allows, and its count of uses is that of its redemptions and of the calls that hold a use: once no
  -- call is under way, none has leaked.
  pub redemptions_within_cap :
      (r : Running)
      → Reach is_address normalized max_uses r
      → (redeemed code r.store.redemptions ≤ max_uses)
        × (redeemed code r.store.redemptions + sum_calls (holding code) r.calls
            ≡ uses_of code r.store)
  redemptions_within_cap r h =
      let w = Reach-IsCapped r h in
      let room = w.capped in let counted = w.counted in (omega arith, omega arith)

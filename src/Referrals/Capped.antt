-- ===== src/Referrals/Capped.antt =====
-- No code is redeemed beyond its cap, however the calls interleave.
pub mod Reached
use arbiter_backend.Base.{
  ℕ, zero, suc, ◌+◌, ◌-◌, ◌≤◌, String, ◌≡◌, refl, Bool, true, false, Option, List, [], ◌∷◌, ◌++◌,
  arith, str_eq, eq_iff, is_some, lookup, insert, if◌then◌else◌, lookup-insert, Bool-cases,
  Option-cases, inl, inr,
}
use arbiter_backend.Referrals.{
  Code, Referrals, uses_of, or_no_uses, reserve_use, give_back_use, claim_redemption,
  get_or_create_referral_code, get_or_mint, mint_from, max_mint_attempts, get_referral_code_for,
}
use arbiter_backend.Referrals.Calls.{
  Call, checked, reserved, giving_back, Running, with_call, after_reserve, after_claim, Step,
  begins, reserves, claims, gives_back, mints, Reach, start, next, one_if, redeemed, reserving,
  holding, sum_calls, sum-append, sum-moved, redeemed-insert,
}

-- Every use that is counted is a redemption or a call's, and those that are or may become
-- redemptions stay within the cap.
pub record IsCapped (max_uses : ℕ) (code : String) (r : Running) : Type 0 where
  pub counted :
      uses_of code r.store ≡ redeemed code r.store.redemptions + sum_calls (holding code) r.calls
  pub capped : redeemed code r.store.redemptions + sum_calls (reserving code) r.calls ≤ max_uses

reserving-le :
    (code : String) (cs : List Call) → sum_calls (reserving code) cs ≤ sum_calls (holding code) cs
reserving-le code [] = omega arith
reserving-le code (checked r c ∷ cs) = omega (arith, reserving-le code cs)
reserving-le code (reserved r c ∷ cs) = omega (arith, reserving-le code cs)
reserving-le code (giving_back c ∷ cs) = omega (arith, reserving-le code cs)

uses-insert :
    (code c : String) (n : ℕ) (s : Referrals)
    → uses_of code (record s { uses = insert c n s.uses })
      ≡ (if str_eq c code then n else uses_of code s)
uses-insert code c n s = ground (arith, lookup-insert c code n s.uses)

reserve-uses :
    (max_uses : ℕ) (code c : String) (s : Referrals)
    → uses_of code (reserve_use max_uses c s).0 ≡ one_if (str_eq c code) + uses_of code s
unfolding reserve_use
reserve-uses max_uses code c s = elim (Bool-cases (str_eq c code)) [
  | inr n ↦ rw (uses-insert code c (suc (uses_of c s)) s, n) (omega arith)
  | inl t ↦
      let same : c ≡ code = (eq_iff c code).0 t in
      rw (uses-insert code c (suc (uses_of c s)) s, t, same) (omega arith)
]

give_back-uses :
    (code c : String) (s : Referrals)
    → uses_of code (give_back_use c s) ≡ uses_of code s - one_if (str_eq c code)
unfolding give_back_use
give_back-uses code c s = elim (Bool-cases (str_eq c code)) [
  | inr n ↦ rw (uses-insert code c (uses_of c s - 1) s, n) (omega arith)
  | inl t ↦
      let same : c ≡ code = (eq_iff c code).0 t in
      rw (uses-insert code c (uses_of c s - 1) s, t, same) (omega arith)
]

reserved-within :
    (max_uses : ℕ) (c : String) (s : Referrals)
    → (reserve_use max_uses c s).1 ≡ true
    → suc (uses_of c s) ≤ max_uses
unfolding reserve_use
reserved-within max_uses c s h = ground arith

module _ (max_uses : ℕ) (code : String) where
  -- One call moves on and the store changes: what the counts then owe each other.
  moved-IsCapped :
      (before now after : List Call) (c : Call) (r : Running) (s : Referrals)
      → r.calls ≡ before ++ c ∷ after
      → IsCapped max_uses code r
      → uses_of code s + (redeemed code r.store.redemptions + holding code c)
        ≡ uses_of code r.store + (redeemed code s.redemptions + sum_calls (holding code) now)
      → redeemed code s.redemptions
          + (sum_calls (reserving code) now + sum_calls (reserving code) r.calls)
        ≤ max_uses + reserving code c
      → IsCapped max_uses code (record { store = s; calls = with_call before now after })
  moved-IsCapped before now after c r s e w h k =
      let held = sum-moved (holding code) r.calls before now after c e in
      let kept = sum-moved (reserving code) r.calls before now after c e in
      let counted = w.counted in record { counted = omega arith; capped = omega arith }

  same_redemptions :
      (c : String) (s : Referrals) → (reserve_use max_uses c s).0.redemptions ≡ s.redemptions
  unfolding reserve_use
  same_redemptions c s = refl

  reserve-room :
      (referee : String) (c : Code) (within : Bool) (r : Running)
      → (reserve_use max_uses c.code r.store).1 ≡ within
      → IsCapped max_uses code r
      → redeemed code r.store.redemptions
          + (sum_calls (reserving code) (after_reserve referee c within)
              + sum_calls (reserving code) r.calls)
        ≤ max_uses
  reserve-room referee c false r e w = let room = w.capped in omega arith
  reserve-room referee c true r e w =
      let room = w.capped in
      let counted = w.counted in
      let fewer = reserving-le code r.calls in
      let limit = reserved-within max_uses c.code r.store e in
      elim (Bool-cases (str_eq c.code code)) [
        | inr n ↦ rw n (omega arith)
        | inl t ↦
            let same : c.code ≡ code = (eq_iff c.code code).0 t in
            let limit' : suc (uses_of code r.store) ≤ max_uses = rw same at limit in
            rw t (omega arith)
      ]

  reserve-held :
      (referee : String) (c : Code) (within : Bool)
      → sum_calls (holding code) (after_reserve referee c within) ≡ one_if (str_eq c.code code)
  reserve-held referee c true = omega arith
  reserve-held referee c false = omega arith

  pub reserve-IsCapped :
      (before after : List Call) (referee : String) (c : Code) (r : Running)
      → r.calls ≡ before ++ checked referee c ∷ after
      → IsCapped max_uses code r
      → IsCapped max_uses code (record {
        store = (reserve_use max_uses c.code r.store).0;
        calls =
            with_call before
              (after_reserve referee c (reserve_use max_uses c.code r.store).1)
              after;
      })
  reserve-IsCapped before after referee c r e w =
      let s = reserve_use max_uses c.code r.store in
      let one = reserve-uses max_uses code c.code r.store in
      let same = same_redemptions c.code r.store in
      let held = reserve-held referee c s.1 in
      let room = reserve-room referee c s.1 r refl w in
      moved-IsCapped before (after_reserve referee c s.1) after (checked referee c) r s.0 e w
        (rw (one, same, held) (omega arith)) (rw same (omega arith))

  claim-uses :
      (referee : String) (c : Code) (now : ℕ) (s : Referrals)
      → (claim_redemption referee c now s).0.uses ≡ s.uses
  unfolding claim_redemption
  claim-uses referee c now s = ground arith

  -- A claim turns the call's reserved use into a redemption, or into one to give back.
  claim-counts :
      (referee : String) (c : Code) (now : ℕ) (s : Referrals)
      → redeemed code (claim_redemption referee c now s).0.redemptions
            + sum_calls (holding code) (after_claim c (claim_redemption referee c now s).1)
          ≡ redeemed code s.redemptions + one_if (str_eq c.code code)
        × (sum_calls (reserving code) (after_claim c (claim_redemption referee c now s).1) ≡ 0)
  unfolding claim_redemption
  claim-counts referee c now s = elim (Option-cases (lookup referee s.redemptions)) [
    | inr (old, e) ↦ rw e (omega arith, omega arith)
    | inl e ↦
        let added =
          redeemed-insert code referee
            (record { referee = referee; referrer = c.owner; code = c.code; redeemed_at = now })
            s.redemptions e in
        rw e (omega arith, omega arith)
  ]

  pub claim-IsCapped :
      (before after : List Call) (referee : String) (c : Code) (now : ℕ) (r : Running)
      → r.calls ≡ before ++ reserved referee c ∷ after
      → IsCapped max_uses code r
      → IsCapped max_uses code (record {
        store = (claim_redemption referee c now r.store).0;
        calls = with_call before (after_claim c (claim_redemption referee c now r.store).1) after;
      })
  claim-IsCapped before after referee c now r e w =
      let s = claim_redemption referee c now r.store in
      let same = claim-uses referee c now r.store in
      let (counts, none_left) = claim-counts referee c now r.store in
      let room = w.capped in
      moved-IsCapped before (after_claim c s.1) after (reserved referee c) r s.0 e w
        (rw same (omega arith)) (omega arith)

  pub give_back-IsCapped :
      (before after : List Call) (gone : String) (r : Running)
      → r.calls ≡ before ++ giving_back gone ∷ after
      → IsCapped max_uses code r
      → IsCapped max_uses code
          (record { store = give_back_use gone r.store; calls = before ++ after })
  unfolding give_back_use
  give_back-IsCapped before after gone r e w =
      let less = give_back-uses code gone r.store in
      let held : sum_calls (holding code) r.calls
          ≡ sum_calls (holding code) before + sum_calls (holding code) (giving_back gone ∷ after) =
        rw e (sum-append (holding code) before (giving_back gone ∷ after)) in
      let counted = w.counted in
      let room = w.capped in
      moved-IsCapped before [] after (giving_back gone) r (give_back_use gone r.store) e w
        (rw less (omega arith)) (omega arith)

-- Minting touches no use and no redemption.

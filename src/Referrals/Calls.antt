-- ===== src/Referrals/Calls.antt =====
-- Redemptions of many newcomers at once: the calls interleave between their awaits.
use arbiter_backend.Base.{
  ℕ, ◌+◌, String, ◌≡◌, refl, Bool, true, false, Option, none, List, [], ◌∷◌, ◌++◌, arith, str_eq,
  Assoc, lookup, insert, if◌then◌else◌,
}
use arbiter_backend.Referrals.{
  Code, Redemption, Referrals, passed, check_redemption, reserve_use, give_back_use,
  claim_redemption, get_or_create_referral_code,
}

-- Where a call of redeemReferralCode stands: its reads passed, a use reserved, or a use to give back.
pub data Call : Type 0 where
  checked : (referee : String) (c : Code) → Call
  reserved : (referee : String) (c : Code) → Call
  giving_back : (code : String) → Call

pub record Running : Type 0 where
  pub store : Referrals
  pub calls : List Call

-- One of the calls moves on; the others stay where they are.
abbrev pub with_call : List Call → List Call → List Call → List Call
with_call before now after = before ++ (now ++ after)

abbrev pub after_reserve : String → Code → Bool → List Call
after_reserve referee c true = reserved referee c ∷ []
after_reserve referee c false = giving_back c.code ∷ []

abbrev pub after_claim : Code → Bool → List Call
after_claim c true = []
after_claim c false = giving_back c.code ∷ []

module _ (is_address : String → Bool) (normalized : String → Option String) (max_uses : ℕ) where
  pub data Step (r : Running) : Running → Type 0 where
    begins :
        (referee code : String) (answers : ℕ) (c : Code)
        → check_redemption is_address normalized referee code answers r.store ≡ passed c
        → Step r (record { store = r.store; calls = checked referee c ∷ r.calls })
    reserves :
        (before after : List Call) (referee : String) (c : Code)
        → r.calls ≡ before ++ checked referee c ∷ after
        → Step r (record {
          store = (reserve_use max_uses c.code r.store).0;
          calls =
              with_call before
                (after_reserve referee c (reserve_use max_uses c.code r.store).1)
                after;
        })
    claims :
        (before after : List Call) (referee : String) (c : Code) (now : ℕ)
        → r.calls ≡ before ++ reserved referee c ∷ after
        → Step r (record {
          store = (claim_redemption referee c now r.store).0;
          calls = with_call before (after_claim c (claim_redemption referee c now r.store).1) after;
        })
    gives_back :
        (before after : List Call) (code : String)
        → r.calls ≡ before ++ giving_back code ∷ after
        → Step r (record { store = give_back_use code r.store; calls = before ++ after })
    mints :
        (owner : String) (now : ℕ) (candidates : List String)
        → Step r (record r {
          store = (get_or_create_referral_code is_address owner now candidates r.store).0;
        })

  -- From a store without uses or redemptions.
  pub data Reach : Running → Type 0 where
    start :
        (s : Referrals)
        → s.uses ≡ []
        → s.redemptions ≡ []
        → Reach (record { store = s; calls = [] })
    next : {r t : Running} → Reach r → Step r t → Reach t

abbrev pub one_if : Bool → ℕ
one_if b = if b then 1 else 0

-- The redemptions of a code, and the uses of it that calls in flight hold.
abbrev pub redeemed : String → Assoc Redemption → ℕ
redeemed code [] = 0
redeemed code ((referee, r) ∷ rs) = one_if (str_eq r.code code) + redeemed code rs

abbrev pub reserving : String → Call → ℕ
reserving code (checked referee c) = 0
reserving code (reserved referee c) = one_if (str_eq c.code code)
reserving code (giving_back c) = 0

abbrev pub holding : String → Call → ℕ
holding code (checked referee c) = 0
holding code (reserved referee c) = one_if (str_eq c.code code)
holding code (giving_back c) = one_if (str_eq c code)

abbrev pub sum_calls : (Call → ℕ) → List Call → ℕ
sum_calls f [] = 0
sum_calls f (c ∷ cs) = f c + sum_calls f cs

pub sum-append :
    (f : Call → ℕ) (xs ys : List Call) → sum_calls f (xs ++ ys) ≡ sum_calls f xs + sum_calls f ys
sum-append f [] ys = omega arith
sum-append f (x ∷ xs) ys = omega (arith, sum-append f xs ys)

pub sum-moved :
    (f : Call → ℕ) (calls before now after : List Call) (c : Call)
    → calls ≡ before ++ c ∷ after
    → sum_calls f (with_call before now after) + f c ≡ sum_calls f calls + sum_calls f now
sum-moved f calls before now after c e =
    rw
      (
        e,
        sum-append f before (c ∷ after),
        sum-append f before (now ++ after),
        sum-append f now after,
      )
      (omega arith)

pub redeemed-insert :
    (code referee : String) (r : Redemption) (m : Assoc Redemption)
    → lookup referee m ≡ none
    → redeemed code (insert referee r m) ≡ one_if (str_eq r.code code) + redeemed code m
unfolding insert lookup
redeemed-insert code referee r [] n = refl
redeemed-insert code referee r ((name, held) ∷ rest) n =
    ground (arith, redeemed-insert code referee r rest)

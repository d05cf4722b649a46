-- ===== src/Referrals.antt =====
-- src/referrals.js: the referral codes of workers, minted once for an owner and redeemed once by a
-- newcomer. `normalized` is normalizeCode's trimming and pattern, `is_address` is of the Stellar
-- library, and the candidate codes are drawn at random. The records have no expiry.
pub mod Calls
pub mod Capped
use Prim.Native.Nat.{Ordering}
use Prim.Native.String.{compare}
use arbiter_backend.Base.{
  ℕ, zero, suc, ◌+◌, ◌-◌, String, str_append, Bool, true, false, not, Option, none, some, List, [],
  ◌∷◌, includes, ltb, ◌==◌, str_eq, is_some, Assoc, lookup, insert, remove, if◌then◌else◌,
}
use arbiter_backend.Index.{push_bounded}

pub record Code : Type 0 where
  pub code : String
  pub owner : String
  pub created_at : ℕ

pub record Redemption : Type 0 where
  pub referee : String
  pub referrer : String
  pub code : String
  pub redeemed_at : ℕ

pub record Referrals : Type 0 where
  pub codes : Assoc Code  -- `referral-code:{code}`
  pub uses : Assoc ℕ  -- `referral-uses:{code}`
  pub owners : Assoc String  -- `referral-owner:{owner}`
  pub redemptions : Assoc Redemption  -- `referral-by:{referee}`
  pub referees : Assoc (List String)  -- `referral-referees:{owner}`
  pub referrers : List String
  pub links : Assoc (String × String)  -- `collusion:link:{pair}`

abbrev pub max_referees_tracked : ℕ
max_referees_tracked = 1_000

abbrev pub max_referrers_listed : ℕ
max_referrers_listed = 5_000

abbrev pub max_mint_attempts : ℕ
max_mint_attempts = 5

abbrev pub or_no_uses : Option ℕ → ℕ
or_no_uses none = 0
or_no_uses (some n) = n

abbrev pub uses_of : String → Referrals → ℕ
uses_of code s = or_no_uses (lookup code s.uses)

abbrev pub listed_under : String → Assoc (List String) → List String
listed_under owner m = elim (lookup owner m) [ none ↦ [] | some l ↦ l ]

-- `pairKey` of src/collusion.js.
unfoldable pub pair_key : String → String → String
pair_key a b = elim (compare a b) [
  | Ordering.lt ↦ str_append a (str_append "|" b)
  | _ ↦ str_append b (str_append "|" a)
]

-- `getReferralCodeFor`: no code if the code's own record is gone.
code_held : Option String → Referrals → Option Code
code_held none s = none
code_held (some code) s = lookup code s.codes

unfoldable pub get_referral_code_for : String → Referrals → Option Code
unfolding code_held
get_referral_code_for owner s = code_held (lookup owner s.owners) s

pub data MintResult : Type 0 where
  minted : Code → MintResult
  had : Option Code → MintResult
  not_an_address exhausted : MintResult

-- The loop over the candidates that are drawn, at most five of them.
mint_from : String → ℕ → ℕ → List String → Referrals → Referrals × MintResult
mint_from owner now zero candidates s = (s, exhausted)
mint_from owner now (suc attempts) [] s = (s, exhausted)
mint_from owner now (suc attempts) (code ∷ candidates) s =
    let record' : Code = record { code = code; owner = owner; created_at = now } in
    let retried = mint_from owner now attempts candidates s in
    let claimed = record s { codes = insert code record' s.codes } in
    let discarded = record claimed { codes = remove code claimed.codes } in
    if is_some (lookup code s.codes)
    then retried
    else if is_some (lookup owner s.owners)
    then (discarded, had (get_referral_code_for owner discarded))
    else (
      record claimed {
        owners = insert owner code s.owners;
        referrers = push_bounded owner max_referrers_listed s.referrers;
      },
      minted record',
    )

get_or_mint : String → ℕ → List String → Option Code → Referrals → Referrals × MintResult
get_or_mint owner now candidates (some existing) s = (s, had (some existing))
get_or_mint owner now candidates none s = mint_from owner now max_mint_attempts candidates s

module _ (is_address : String → Bool) where
  unfoldable pub get_or_create_referral_code :
      String → ℕ → List String → Referrals → Referrals × MintResult
  unfolding mint_from get_or_mint
  get_or_create_referral_code owner now candidates s =
      if not (is_address owner)
      then (s, not_an_address)
      else get_or_mint owner now candidates (get_referral_code_for owner s) s

pub data RedeemError : Type 0 where
  invalid_referee malformed_code another_code unknown_code own_code has_history use_limit :
      RedeemError

-- What the reads at the start of a redemption answer.
pub data Checked : Type 0 where
  failed : RedeemError → Checked
  already_redeemed : Redemption → Checked
  passed : Code → Checked

known_code : String → ℕ → Option Code → Checked
known_code referee answers none = failed unknown_code
known_code referee answers (some c) =
    if str_eq c.owner referee
    then failed own_code
    else if ltb 0 answers
    then failed has_history
    else passed c

earlier_or : Option Redemption → String → Checked → Checked
earlier_or none code next = next
earlier_or (some r) code next =
    if str_eq r.code code then already_redeemed r else failed another_code

checked_code : String → Option String → ℕ → Referrals → Checked
checked_code referee none answers s = failed malformed_code
checked_code referee (some code) answers s =
    earlier_or (lookup referee s.redemptions) code
      (known_code referee answers (lookup code s.codes))

module _ (is_address : String → Bool) (normalized : String → Option String) where
  -- The guards of redeemReferralCode; `answers` is the referee's number of answers.
  unfoldable pub check_redemption : String → String → ℕ → Referrals → Checked
  unfolding checked_code earlier_or known_code
  check_redemption referee code answers s =
      if not (is_address referee)
      then failed invalid_referee
      else checked_code referee (normalized code) answers s

-- `incrBy(…, 1)` and its comparison with the cap, `incrBy(…, -1)`, and the claim by `setNX`.
unfoldable pub reserve_use : ℕ → String → Referrals → Referrals × Bool
reserve_use max_uses code s = (
  record s { uses = insert code (suc (uses_of code s)) s.uses },
  not (ltb max_uses (suc (uses_of code s))),
)

unfoldable pub give_back_use : String → Referrals → Referrals
give_back_use code s = record s { uses = insert code (uses_of code s - 1) s.uses }

unfoldable pub claim_redemption : String → Code → ℕ → Referrals → Referrals × Bool
unfolding pair_key
claim_redemption referee c now s =
    let redemption : Redemption = record {
      referee = referee;
      referrer = c.owner;
      code = c.code;
      redeemed_at = now;
    } in
    if is_some (lookup referee s.redemptions) then (s, false) else (
      record s {
        redemptions = insert referee redemption s.redemptions;
        referees =
            insert c.owner
              (push_bounded referee max_referees_tracked (listed_under c.owner s.referees))
              s.referees;
        links = insert (pair_key c.owner referee) (c.owner, referee) s.links;
      },
      true,
    )

-- ===== src/Pools.antt =====
-- src/privatePools.js and src/payerReferrals.js: a payer's whitelist of workers, and the worker who
-- brought a payer. Addresses are checked by `is_valid_address`, of the Stellar library. The records
-- have no expiry, so each namespace is a map, and calls run one after another.
pub mod Whitelist
pub mod Referral
use arbiter_backend.Base.{
  ℕ, zero, suc, ◌+◌, ◌*◌, ◌/◌, String, Bool, true, false, not, ◌&&◌, ◌||◌, Option, none, some, List,
  [], ◌∷◌, ◌++◌, keep, exists, includes, unique, length, ltb, ◌==◌, str_eq, is_some, Assoc, lookup,
  insert, remove, if◌then◌else◌,
}
use arbiter_backend.Index.{push_bounded}

pub record Pools : Type 0 where
  pub pools : Assoc (List String)  -- `private-pool:{payerAddress}`
  pub owners : List String

pub data PoolError : Type 0 where
  invalid_workers pool_full : PoolError

pub data PoolResult : Type 0 where
  pool : List String → PoolResult
  refused : PoolError → PoolResult

abbrev pub max_pool_size : ℕ
max_pool_size = 500

abbrev pub max_tracked_pool_owners : ℕ
max_tracked_pool_owners = 5_000

abbrev pub or_none : Option (List String) → List String
or_none none = []
or_none (some l) = l

-- An empty address has no pool.
unfoldable pub get_private_pool : String → Pools → List String
get_private_pool payer s = if str_eq payer "" then [] else or_none (lookup payer s.pools)

module _ (is_valid_address : String → Bool) where
  abbrev pub are_valid : List String → Bool
  are_valid addresses =
      not (length addresses == 0) && not (exists (λ a. not (is_valid_address a)) addresses)

  unfoldable pub add_pool_workers : String → List String → Pools → Pools × PoolResult
  add_pool_workers payer addresses s =
      let existing = or_none (lookup payer s.pools) in
      let additions = keep (λ a. not (includes existing a)) (unique addresses) in
      let next = additions ++ existing in
      if not (are_valid addresses)
      then (s, refused invalid_workers)
      else if ltb max_pool_size (length next)
      then (s, refused pool_full)
      else if length additions == 0
      then (s, pool existing)
      else (
        record {
          pools = insert payer next s.pools;
          owners = push_bounded payer max_tracked_pool_owners s.owners;
        },
        pool next,
      )

  unfoldable pub remove_pool_workers : String → List String → Pools → Pools × PoolResult
  remove_pool_workers payer addresses s =
      let existing = or_none (lookup payer s.pools) in
      let next = keep (λ a. not (includes addresses a)) existing in
      if not (are_valid addresses)
      then (s, refused invalid_workers)
      else if length next == length existing
      then (s, pool existing)
      else (
        record s {
          pools = if length next == 0 then remove payer s.pools else insert payer next s.pools;
        },
        pool next,
      )

pub record Attribution : Type 0 where
  pub payer : String
  pub referrer : String
  pub code : String
  pub first_payment_stroops : ℕ
  pub reward_stroops : ℕ
  pub attributed_at : ℕ

pub data Recorded : Type 0 where
  recorded : Attribution → Recorded
  already_attributed : Attribution → Recorded
  disabled no_code not_first_payment unknown_code self_referral : Recorded

pub record Ledger : Type 0 where
  pub referrals : Assoc Attribution  -- `payer-referrer:{payer}`
  pub earnings : Assoc ℕ
  pub referred_payers : Assoc (List String)
  pub known_referrers : List String

abbrev pub max_payers_tracked : ℕ
max_payers_tracked = 1_000

abbrev pub max_referrers_tracked : ℕ
max_referrers_tracked = 5_000

unfoldable pub referral_reward_stroops : ℕ → ℕ → ℕ
referral_reward_stroops amount reward_bps =
    if (amount == 0) || (reward_bps == 0) then 0 else amount * reward_bps / 10_000

abbrev pub or_nothing : Option ℕ → ℕ
or_nothing none = 0
or_nothing (some n) = n

-- `incrBy` for a reward above 0.
abbrev pub credited : String → ℕ → Assoc ℕ → Assoc ℕ
credited referrer reward m =
    if ltb 0 reward then insert referrer (or_nothing (lookup referrer m) + reward) m else m

record_new : Attribution → Ledger → Ledger × Recorded
record_new a s = (
  record {
    referrals = insert a.payer a s.referrals;
    earnings = credited a.referrer a.reward_stroops s.earnings;
    referred_payers =
        insert a.referrer
          (push_bounded a.payer max_payers_tracked (or_none (lookup a.referrer s.referred_payers)))
          s.referred_payers;
    known_referrers = push_bounded a.referrer max_referrers_tracked s.known_referrers;
  },
  recorded a,
)

attribute : String → String → ℕ → ℕ → ℕ → Option (String × String) → Ledger → Ledger × Recorded
attribute payer code amount reward_bps now none s = (s, unknown_code)
attribute payer code amount reward_bps now (some (owner, known)) s =
    let a : Attribution = record {
      payer = payer;
      referrer = owner;
      code = known;
      first_payment_stroops = amount;
      reward_stroops = referral_reward_stroops amount reward_bps;
      attributed_at = now;
    } in
    if str_eq owner payer then (s, self_referral) else record_new a s

unless_attributed : Option Attribution → Ledger × Recorded → Ledger → Ledger × Recorded
unless_attributed (some a) next s = (s, already_attributed a)
unless_attributed none next s = next

-- `code`: an empty one is none. `lookup_referral_code` gives a code's owner and the code.
unfoldable pub record_first_payment_referral :
    (String → Option (String × String))
    → Bool
    → ℕ
    → String
    → String
    → ℕ
    → Bool
    → ℕ
    → Ledger
    → Ledger × Recorded
unfolding attribute record_new unless_attributed referral_reward_stroops
record_first_payment_referral lookup_referral_code enabled reward_bps payer code amount is_first now
      s =
    if not enabled
    then (s, disabled)
    else if str_eq payer "" || str_eq code ""
    then (s, no_code)
    else unless_attributed (lookup payer s.referrals)
        (if not is_first
          then (s, not_first_payment)
          else attribute payer code amount reward_bps now (lookup_referral_code code) s)
        s

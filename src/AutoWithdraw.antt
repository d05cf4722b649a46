-- ===== src/AutoWithdraw.antt =====
-- src/autoWithdraw.js: a worker's threshold, and the withdrawal that is prepared once the worker's
-- balance on the chain reaches it. The checks of addresses are of the Stellar library; the balance
-- and the transaction that is built come from the chain, none standing for an error. The settings
-- and the prepared transactions have no expiry in the store. check_auto_withdraw is a check that runs
-- whole; the code waits for the chain twice between its read of the settings and its write, and what
-- is done in between is in AutoWithdraw/Overtaken and AutoWithdraw/Interleaved.
pub mod Terms
pub mod Checks
pub mod Stale
pub mod Overtaken
pub mod Interleaved
pub mod Sweep
use arbiter_backend.Base.{
  ℕ, suc, ◌+◌, String, Bool, true, false, not, ◌&&◌, ◌||◌, Option, none, some, List, [], ◌∷◌,
  includes, without, length, ltb, leb, ◌==◌, str_eq, Assoc, lookup, insert, remove, if◌then◌else◌,
}
use arbiter_backend.Store.{MemoryStore, set_nx, delete}
use arbiter_backend.Index.{push_bounded}

pub record Settings : Type 0 where
  pub enabled : Bool
  pub threshold_stroops : ℕ
  pub beneficiary_address : Option String
  pub updated_at : ℕ

pub record Prepared : Type 0 where
  pub xdr : String
  pub amount_stroops : ℕ
  pub beneficiary_address : Option String
  pub created_at : ℕ
  pub expires_at : ℕ

pub record AutoStore : Type 0 where
  pub settings : Assoc Settings  -- `auto-withdraw:{worker}`
  pub pending : Assoc Prepared  -- `auto-withdraw-pending:{worker}`
  pub locks : MemoryStore ℕ  -- `auto-withdraw-lock:{worker}`
  pub workers : List String

pub data ThresholdInput : Type 0 where
  absent not_an_integer negative : ThresholdInput
  of_stroops : ℕ → ThresholdInput

pub data SettingsError : Type 0 where
  not_an_address enabled_not_boolean threshold_not_integer threshold_too_low : SettingsError
  threshold_missing invalid_beneficiary : SettingsError

pub data Changed : Type 0 where
  saved : Settings → Changed
  refused : SettingsError → Changed

abbrev pub lock_ttl_ms : ℕ
lock_ttl_ms = 60_000

abbrev pub max_indexed_workers : ℕ
max_indexed_workers = 5_000

abbrev pub unindex_worker : String → List String → List String
unindex_worker worker known = if includes known worker then without worker known else known

abbrev pub same_beneficiary : Option String → Option String → Bool
same_beneficiary none none = true
same_beneficiary none (some b) = false
same_beneficiary (some a) none = false
same_beneficiary (some a) (some b) = str_eq a b

-- `termsChanged`
abbrev pub terms_changed : Option Settings → Settings → Bool
terms_changed none next = true
terms_changed (some current) next =
    not next.enabled
    || not (current.threshold_stroops == next.threshold_stroops)
    || not (same_beneficiary current.beneficiary_address next.beneficiary_address)

save : String → Settings → AutoStore → AutoStore
save worker next s = record s {
  settings = insert worker next s.settings;
  pending =
      if terms_changed (lookup worker s.settings) next then remove worker s.pending else s.pending;
  workers =
      if next.enabled
      then push_bounded worker max_indexed_workers s.workers
      else unindex_worker worker s.workers;
}

-- The worker's own address and an empty one are no beneficiary.
abbrev pub beneficiary_of : String → Option String → Option String
beneficiary_of worker none = none
beneficiary_of worker (some b) = if str_eq b worker || str_eq b "" then none else some b

module _ (is_address is_beneficiary : String → Bool) (min_threshold_stroops : ℕ) where
  parse_threshold :
      ThresholdInput → Option Settings → (SettingsError → Changed) → (ℕ → Changed) → Changed
  parse_threshold absent none bad good = bad threshold_missing
  parse_threshold absent (some current) bad good = good current.threshold_stroops
  parse_threshold not_an_integer current bad good = bad threshold_not_integer
  parse_threshold negative current bad good = bad threshold_too_low
  parse_threshold (of_stroops n) current bad good =
      if ltb n min_threshold_stroops then bad threshold_too_low else good n

  is_invalid : Option String → Bool
  is_invalid none = false
  is_invalid (some b) = not (is_beneficiary b)

  -- A missing `enabled` is given as true; none is one that is no Boolean, and a beneficiary that is
  -- no string is one that `is_beneficiary` refuses.
  unfoldable pub next_settings :
      String → Option Bool → ThresholdInput → Option String → ℕ → Option Settings → Changed
  unfolding parse_threshold is_invalid
  next_settings worker none threshold beneficiary now current =
      if not (is_address worker) then refused not_an_address else refused enabled_not_boolean
  next_settings worker (some enabled) threshold beneficiary now current =
      if not (is_address worker)
      then refused not_an_address
      else parse_threshold threshold current refused (λ stroops.
        if is_invalid beneficiary
        then refused invalid_beneficiary
        else saved (record {
          enabled = enabled;
          threshold_stroops = stroops;
          beneficiary_address = beneficiary_of worker beneficiary;
          updated_at = now;
        }))

  saving : String → Changed → AutoStore → AutoStore × Changed
  saving worker (refused e) s = (s, refused e)
  saving worker (saved next) s = (save worker next s, saved next)

  unfoldable pub set_auto_withdraw_settings :
      String → Option Bool → ThresholdInput → Option String → ℕ → AutoStore → AutoStore × Changed
  unfolding saving save
  set_auto_withdraw_settings worker enabled threshold beneficiary now s =
      saving worker
        (next_settings worker enabled threshold beneficiary now (lookup worker s.settings)) s

unfoldable pub delete_auto_withdraw_settings : String → AutoStore → AutoStore
delete_auto_withdraw_settings worker s = record s {
  settings = remove worker s.settings;
  pending = remove worker s.pending;
  workers = unindex_worker worker s.workers;
}

pub data CheckStatus : Type 0 where
  disabled busy failed : CheckStatus
  still_pending : Prepared → CheckStatus
  below_threshold : (owed threshold : ℕ) → CheckStatus
  prepared : Prepared → CheckStatus

-- What `buildWorkerWithdrawTx` answers for an amount and a beneficiary: the transaction's text and
-- its expiry.
abbrev pub Builder : Type 0
Builder = ℕ → Option String → Option (String × ℕ)

kept_as : String → ℕ → Option String → ℕ → Option (String × ℕ) → AutoStore → AutoStore × CheckStatus
kept_as worker owed beneficiary now none s = (s, failed)
kept_as worker owed beneficiary now (some (xdr, expires_at)) s =
    let p : Prepared = record {
      xdr = xdr;
      amount_stroops = owed;
      beneficiary_address = beneficiary;
      created_at = now;
      expires_at = expires_at;
    } in
    (record s { pending = insert worker p s.pending }, prepared p)

pub prepare : String → Settings → ℕ → Builder → ℕ → AutoStore → AutoStore × CheckStatus
prepare worker settings owed build now s =
    if ltb owed settings.threshold_stroops
    then (s, below_threshold owed settings.threshold_stroops)
    else kept_as worker owed settings.beneficiary_address now
        (build owed settings.beneficiary_address) s

unless_pending :
    String → Settings → ℕ → Builder → ℕ → Option Prepared → AutoStore → AutoStore × CheckStatus
unless_pending worker settings owed build now none s = prepare worker settings owed build now s
unless_pending worker settings owed build now (some p) s =
    if leb p.amount_stroops owed
    then (s, still_pending p)
    else prepare worker settings owed build now (record s { pending = remove worker s.pending })

pub locked_check : String → Settings → Option ℕ → Builder → ℕ → AutoStore → AutoStore × CheckStatus
locked_check worker settings none build now s = (s, failed)
locked_check worker settings (some owed) build now s =
    unless_pending worker settings owed build now (lookup worker s.pending) s

pub unlocked : String → AutoStore × CheckStatus → AutoStore × CheckStatus
unlocked worker (s, status) = (record s { locks = delete worker s.locks }, status)

check_with : String → Option Settings → Option ℕ → Builder → ℕ → AutoStore → AutoStore × CheckStatus
check_with worker none owed build now s = (s, disabled)
check_with worker (some settings) owed build now s =
    let (locks, locked) = set_nx worker now lock_ttl_ms now s.locks in
    if not settings.enabled
    then (s, disabled)
    else if not locked
    then (record s { locks = locks }, busy)
    else unlocked worker (locked_check worker settings owed build now (record s { locks = locks }))

unfoldable pub check_auto_withdraw :
    String → Option ℕ → Builder → ℕ → AutoStore → AutoStore × CheckStatus
unfolding check_with unlocked locked_check unless_pending prepare kept_as
check_auto_withdraw worker owed build now s =
    check_with worker (lookup worker s.settings) owed build now s

abbrev pub is_prepared : CheckStatus → Bool
is_prepared (prepared p) = true
is_prepared disabled = false
is_prepared busy = false
is_prepared failed = false
is_prepared (still_pending p) = false
is_prepared (below_threshold owed threshold) = false

-- The checks of one sweep, in the order in which its lanes take the workers; `owed_of` and `build`
-- are what the chain answers for each worker.
unfoldable pub sweep_over :
    (String → Option ℕ) → (String → Builder) → ℕ → List String → AutoStore → AutoStore × ℕ
sweep_over owed_of build now [] s = (s, 0)
sweep_over owed_of build now (worker ∷ workers) s =
    let (s', status) = check_auto_withdraw worker (owed_of worker) (build worker) now s in
    let (s'', n) = sweep_over owed_of build now workers s' in
    (s'', if is_prepared status then suc n else n)

unfoldable pub sweep_auto_withdraw :
    (String → Option ℕ) → (String → Builder) → ℕ → AutoStore → AutoStore × ℕ
sweep_auto_withdraw owed_of build now s = sweep_over owed_of build now s.workers s

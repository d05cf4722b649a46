-- ===== src/AutoWithdraw/Overtaken.antt =====
-- The halves of checkAutoWithdraw (src/autoWithdraw.js), before and after it waits for the chain, and
-- a change of the settings between them.
use arbiter_backend.Base.{
  ℕ, ◌≤◌, String, ◌≡◌, refl, sym, ap, ◌∙◌, Bool, true, false, not, Option, none, some, arith, ltb,
  eq_refl, lookup, lookup-insert, lookup-remove, Bool-cases, inl, inr, if◌then◌else◌,
}
use arbiter_backend.Store.{set_nx}
use arbiter_backend.AutoWithdraw.{
  Settings, Prepared, AutoStore, ThresholdInput, CheckStatus, Builder, Changed, saved, refused,
  lock_ttl_ms, terms_changed, save, saving, next_settings, set_auto_withdraw_settings, kept_as,
  prepare, unless_pending, locked_check, unlocked, check_with, check_auto_withdraw,
}

begun_with : String → Option Settings → ℕ → AutoStore → AutoStore × Option Settings
begun_with worker none now s = (s, none)
begun_with worker (some settings) now s =
    let (locks, locked) = set_nx worker now lock_ttl_ms now s.locks in
    let s' = record s { locks = locks } in
    if not settings.enabled
    then (s, none)
    else if not locked
    then (s', none)
    else (s', some settings)

-- The first half: it reads the settings and takes the lock, and answers with the settings if the
-- check goes on.
unfoldable pub begin_check : String → ℕ → AutoStore → AutoStore × Option Settings
unfolding begun_with
begin_check worker now s = begun_with worker (lookup worker s.settings) now s

-- The second half, with the settings that were read.
abbrev pub end_check :
    String → Settings → Option ℕ → Builder → ℕ → AutoStore → AutoStore × CheckStatus
end_check worker read owed build now s = unlocked worker (locked_check worker read owed build now s)

read_or : Settings → Option Settings → Settings
read_or default none = default
read_or default (some st) = st

halves-with :
    (worker : String) (o : Option Settings) (read : Settings) (owed : Option ℕ) (build : Builder)
    (now : ℕ) (s : AutoStore)
    → (begun_with worker o now s).1 ≡ some read
    → (o ≡ some read)
      × ((begun_with worker o now s).0.settings ≡ s.settings)
      × (end_check worker read owed build now (begun_with worker o now s).0
          ≡ check_with worker o owed build now s)
unfolding begun_with check_with read_or
halves-with worker none read owed build now s h = absurd (ground arith)
halves-with worker (some st) read owed build now s h = elim (Bool-cases st.enabled) [
  | inr off ↦ absurd (ground arith)
  | inl on ↦ elim (Bool-cases (set_nx worker now lock_ttl_ms now s.locks).1) [
    | inr busy_now ↦ absurd (ground arith)
    | inl taken ↦
        let goes_on : (begun_with worker (some st) now s).1 ≡ some st = rw (on, taken) refl in
        let read_it : some st ≡ some read = sym goes_on ∙ h in
        let same : st ≡ read = ap (read_or read) read_it in
        let mid = (begun_with worker (some st) now s).0 in
        (
          read_it,
          simp (on, taken) refl,
          ap (λ x. end_check worker x owed build now mid) (sym same) ∙ simp (on, taken) refl,
        )
  ]
]

begun_with-locks :
    (worker : String) (o : Option Settings) (now : ℕ) (s : AutoStore)
    → (begun_with worker o now s).0 ≡ record s { locks = (begun_with worker o now s).0.locks }
unfolding begun_with
begun_with-locks worker none now s = refl
begun_with-locks worker (some st) now s = elim (Bool-cases st.enabled) [
  | inr off ↦ simp off refl
  | inl on ↦ elim (Bool-cases (set_nx worker now lock_ttl_ms now s.locks).1) [
    | inr taken ↦ simp (on, taken) refl
    | inl taken ↦ simp (on, taken) refl
  ]
]

-- The first half changes the locks at most.
pub begin_check-locks :
    (worker : String) (now : ℕ) (s : AutoStore)
    → (begin_check worker now s).0 ≡ record s { locks = (begin_check worker now s).0.locks }
unfolding begin_check
begin_check-locks worker now s = begun_with-locks worker (lookup worker s.settings) now s

begun_with-on :
    (worker : String) (st : Settings) (now : ℕ) (s : AutoStore)
    → st.enabled ≡ false
    → (begun_with worker (some st) now s).1 ≡ none
unfolding begun_with
begun_with-on worker st now s off = simp off refl

-- It goes on with the settings of the worker, if they are on.
pub begin_check-read :
    (worker : String) (now : ℕ) (read : Settings) (s : AutoStore)
    → (begin_check worker now s).1 ≡ some read
    → (lookup worker s.settings ≡ some read) × (read.enabled ≡ true)
unfolding begin_check
begin_check-read worker now read s h =
    let found = (halves-with worker (lookup worker s.settings) read none (λ o b. none) now s h).0 in
    (
      found,
      elim (Bool-cases read.enabled) [
        | inl on ↦ on
        | inr off ↦
            let stops = ap (λ x. (begun_with worker x now s).1) found in
            let nothing = begun_with-on worker read now s off in absurd (ground arith)
      ],
    )

-- The two halves with nothing between them are the check.
pub halves_check :
    (worker : String) (read : Settings) (owed : Option ℕ) (build : Builder) (now : ℕ)
    (s : AutoStore)
    → (begin_check worker now s).1 ≡ some read
    → end_check worker read owed build now (begin_check worker now s).0
      ≡ check_auto_withdraw worker owed build now s
unfolding begin_check check_auto_withdraw
halves_check worker read owed build now s h =
    (halves-with worker (lookup worker s.settings) read owed build now s h).2

-- The settings and the prepared transaction of a worker.
abbrev pub terms_and_pending : String → AutoStore → Option Settings × Option Prepared
terms_and_pending worker s = (lookup worker s.settings, lookup worker s.pending)

-- A withdrawal on the terms of some settings.
abbrev pub prepared_on : Settings → String → ℕ → ℕ → ℕ → Prepared
prepared_on terms xdr owed now expires_at = record {
  xdr = xdr;
  amount_stroops = owed;
  beneficiary_address = terms.beneficiary_address;
  created_at = now;
  expires_at = expires_at;
}

saved-terms_and_pending :
    (worker : String) (next : Settings) (s : AutoStore)
    → terms_changed (lookup worker s.settings) next ≡ true
    → terms_and_pending worker (save worker next s) ≡ (some next, none)
unfolding save
saved-terms_and_pending worker next s h =
    let put = lookup-insert worker worker next s.settings in
    let gone = lookup-remove worker worker s.pending in rw (h, put, gone, eq_refl worker) refl

end_check-terms_and_pending :
    (worker xdr : String) (read : Settings) (o : Option Settings) (owed expires_at now : ℕ)
    (build : Builder) (s : AutoStore)
    → terms_and_pending worker s ≡ (o, none)
    → read.threshold_stroops ≤ owed
    → build owed read.beneficiary_address ≡ some (xdr, expires_at)
    → terms_and_pending worker (end_check worker read (some owed) build now s).0
      ≡ (o, some (prepared_on read xdr owed now expires_at))
unfolding unlocked locked_check unless_pending prepare kept_as
end_check-terms_and_pending worker xdr read o owed expires_at now build s e enough built =
    let settings_are : lookup worker s.settings ≡ o = ap (λ x. x.0) e in
    let nothing : lookup worker s.pending ≡ none = ap (λ x. x.1) e in
    let reached : ltb owed read.threshold_stroops ≡ false = ground arith in
    let p = prepared_on read xdr owed now expires_at in
    rw (nothing, reached, built, lookup-insert worker worker p s.pending, eq_refl worker)
      (λ i. (settings_are i, some p))

settings_or : Settings → Changed → Settings
settings_or default (refused e) = default
settings_or default (saved next) = next

module _ (is_address is_beneficiary : String → Bool) (min_threshold_stroops : ℕ) where
  saving-saved :
      (worker : String) (next : Settings) (c : Changed) (s : AutoStore)
      → (saving is_address is_beneficiary min_threshold_stroops worker c s).1 ≡ saved next
      → (saving is_address is_beneficiary min_threshold_stroops worker c s).0 ≡ save worker next s
  unfolding saving settings_or
  saving-saved worker next (refused e) s h = absurd (ground arith)
  saving-saved worker next (saved n) s h =
      let same : n ≡ next = ap (settings_or next) h in ap (λ x. save worker x s) same

  -- A check reads a worker's settings and takes the lock; then the worker saves settings on other
  -- terms, turned off ones included; then the check ends, with a balance that reaches the threshold
  -- it read and a transaction that is built. The store then has the settings that were saved, and a
  -- withdrawal prepared all the same, for the beneficiary of the settings they replaced.
  pub settings_overtake_check :
      (worker xdr : String) (read next : Settings) (enabled : Option Bool)
      (threshold : ThresholdInput) (beneficiary : Option String) (owed now later expires_at : ℕ)
      (build : Builder) (s : AutoStore)
      → (begin_check worker now s).1 ≡ some read
      → (set_auto_withdraw_settings is_address is_beneficiary min_threshold_stroops worker enabled
          threshold beneficiary later
          (begin_check worker now s).0).1
        ≡ saved next
      → terms_changed (some read) next ≡ true
      → read.threshold_stroops ≤ owed
      → build owed read.beneficiary_address ≡ some (xdr, expires_at)
      → let changed =
          (set_auto_withdraw_settings is_address is_beneficiary min_threshold_stroops worker enabled
            threshold beneficiary later
            (begin_check worker now s).0).0 in
        terms_and_pending worker (end_check worker read (some owed) build later changed).0
        ≡ (some next, some (prepared_on read xdr owed later expires_at))
  unfolding set_auto_withdraw_settings begin_check
  settings_overtake_check worker xdr read next enabled threshold beneficiary owed now later
        expires_at build s begins change other enough built =
      let (found, kept, whole) =
        halves-with worker (lookup worker s.settings) read none build now s begins in
      let mid = (begun_with worker (lookup worker s.settings) now s).0 in
      let outcome =
        next_settings is_address is_beneficiary min_threshold_stroops worker enabled threshold
          beneficiary later (lookup worker mid.settings) in
      let after = saving-saved worker next outcome mid change in
      let differs : terms_changed (lookup worker mid.settings) next ≡ true =
        rw (kept, found) other in
      rw after (
        end_check-terms_and_pending worker xdr read (some next) owed expires_at later build
          (save worker next mid) (saved-terms_and_pending worker next mid differs) enough built)

-- ===== src/AutoWithdraw/Sweep.antt =====
-- A sweep prepares a withdrawal for every worker who is due one.
use arbiter_backend.Base.{
  ℕ, ◌≤◌, String, ◌≡◌, refl, ◌∙◌, Bool, true, false, not, Option, none, some, List, [], ◌∷◌, arith,
  ltb, leb, str_eq, eq_iff, eq_refl, is_some, includes, distinct, lookup, remove, if◌then◌else◌,
  lookup-insert, Bool-cases, Option-cases, inl, inr,
}
use arbiter_backend.Store.{MemoryStore, set, set_nx, delete, view}
use arbiter_backend.Store.Expiry.{view-set, view-delete, set_nx-eq}
use arbiter_backend.AutoWithdraw.{
  Settings, AutoStore, CheckStatus, Builder, lock_ttl_ms, kept_as, prepare, unless_pending,
  locked_check, unlocked, check_with, check_auto_withdraw, sweep_over, sweep_auto_withdraw,
}
use arbiter_backend.AutoWithdraw.Stale.{OfWorker, of_worker, check-free, locked-rest}

-- A worker who is due: settings on, the lock free, the balance at the threshold or above, and the
-- chain able to build the transaction.
pub record IsDue (w : String) (owed : Option ℕ) (build : Builder) (now : ℕ) (s : AutoStore)
    : Type 0 where
  pub settings : Settings
  pub amount : ℕ
  pub built : String × ℕ
  pub stored : lookup w s.settings ≡ some settings
  pub on : settings.enabled ≡ true
  pub free : view s.locks w now ≡ none
  pub balance : owed ≡ some amount
  pub reached : settings.threshold_stroops ≤ amount
  pub builds : build amount settings.beneficiary_address ≡ some built

lock-others :
    (worker w : String) (now : ℕ) (locks : MemoryStore ℕ)
    → str_eq worker w ≡ false
    → view (set_nx worker now lock_ttl_ms now locks).0 w now ≡ view locks w now
lock-others worker w now locks n = elim (Option-cases (view locks worker now)) [
  | inr (t, b) ↦ rw (set_nx-eq worker now lock_ttl_ms now locks, b) refl
  | inl free ↦
      rw (set_nx-eq worker now lock_ttl_ms now locks, free)
        (view-set worker w now lock_ttl_ms now now locks ∙ rw n refl)
]

if-of_worker :
    (w : String) (now : ℕ) (o : OfWorker) (b : Bool) (x y : AutoStore × CheckStatus)
    → of_worker w now x.0 ≡ o
    → of_worker w now y.0 ≡ o
    → of_worker w now (if b then x else y).0 ≡ o
if-of_worker w now o true x y i j = i
if-of_worker w now o false x y i j = j

-- A check of one worker changes nothing of another.
others_with :
    (worker w : String) (o : Option Settings) (owed : Option ℕ) (build : Builder) (now : ℕ)
    (s : AutoStore)
    → str_eq worker w ≡ false
    → of_worker w now (check_with worker o owed build now s).0 ≡ of_worker w now s
unfolding check_with unlocked
others_with worker w none owed build now s n = refl
others_with worker w (some st) owed build now s n =
    let locks = (set_nx worker now lock_ttl_ms now s.locks).0 in
    let t : AutoStore = record s { locks = locks } in
    let seen = lock-others worker w now s.locks n in
    let ((sets, (held, list)), kept) = locked-rest worker w st owed now build t n in
    let left = locked_check worker st owed build now t in
    let freed : view (delete worker left.0.locks) w now ≡ view s.locks w now =
      rw (view-delete worker w now left.0.locks, n, held) seen in
    if-of_worker w now _ (not st.enabled) _ _ refl (
      if-of_worker w now _ (not (set_nx worker now lock_ttl_ms now s.locks).1) _ _
        (λ i. (lookup w s.settings, (lookup w s.pending, seen i)))
        (λ i. (lookup w (sets i), (kept i, freed i))))

check-others :
    (worker w : String) (owed : Option ℕ) (build : Builder) (now : ℕ) (s : AutoStore)
    → str_eq worker w ≡ false
    → of_worker w now (check_auto_withdraw worker owed build now s).0 ≡ of_worker w now s
unfolding check_auto_withdraw
check-others worker w owed build now s n =
    others_with worker w (lookup worker s.settings) owed build now s n

prepared_now :
    (w : String) (st : Settings) (owed : ℕ) (built : String × ℕ) (build : Builder) (now : ℕ)
    (s : AutoStore)
    → st.threshold_stroops ≤ owed
    → build owed st.beneficiary_address ≡ some built
    → is_some (lookup w (prepare w st owed build now s).0.pending) ≡ true
unfolding prepare kept_as
prepared_now w st owed (xdr, at) build now s t b =
    let under : ltb owed st.threshold_stroops ≡ false = ground arith in
    rw (under, b) (rw (lookup-insert w w _ s.pending, eq_refl w) refl)

locked_prepares :
    (w : String) (st : Settings) (owed : ℕ) (built : String × ℕ) (build : Builder) (now : ℕ)
    (s : AutoStore)
    → st.threshold_stroops ≤ owed
    → build owed st.beneficiary_address ≡ some built
    → is_some (lookup w (locked_check w st (some owed) build now s).0.pending) ≡ true
unfolding locked_check unless_pending
locked_prepares w st owed built build now s t b = elim (Option-cases (lookup w s.pending)) [
  | inl e ↦ rw e (prepared_now w st owed built build now s t b)
  | inr (p, e) ↦ elim (Bool-cases (leb p.amount_stroops owed)) [
    | inl c ↦ rw (e, c, e) refl
    | inr c ↦
        rw (e, c)
          (prepared_now w st owed built build now (record s { pending = remove w s.pending }) t b)
  ]
]

-- After its own check a worker who is due has a withdrawal prepared.
own_check :
    (w : String) (owed : Option ℕ) (build : Builder) (now : ℕ) (s : AutoStore)
    → IsDue w owed build now s
    → is_some (lookup w (check_auto_withdraw w owed build now s).0.pending) ≡ true
unfolding unlocked
own_check w owed build now s d =
    rw (check-free w d.settings owed build now s d.stored d.on d.free, d.balance)
      (locked_prepares w d.settings d.amount d.built build now
        (record s { locks = set w now lock_ttl_ms now s.locks }) d.reached d.builds)

still-IsDue :
    (w : String) (owed : Option ℕ) (build : Builder) (now : ℕ) (s t : AutoStore)
    → of_worker w now t ≡ of_worker w now s
    → IsDue w owed build now s
    → IsDue w owed build now t
still-IsDue w owed build now s t e d = record {
  settings = d.settings;
  amount = d.amount;
  built = d.built;
  stored = (λ i. (e i).0) ∙ d.stored;
  on = d.on;
  free = (λ i. ((e i).1).1) ∙ d.free;
  balance = d.balance;
  reached = d.reached;
  builds = d.builds;
}

first_once : (v : String) (vs : List String) → distinct (v ∷ vs) ≡ true → includes vs v ≡ false
first_once v vs u = ground arith

module _ (owed_of : String → Option ℕ) (build : String → Builder) (now : ℕ) where
  sweep-others :
      (w : String) (workers : List String) (s : AutoStore)
      → includes workers w ≡ false
      → of_worker w now (sweep_over owed_of build now workers s).0 ≡ of_worker w now s
  unfolding sweep_over
  sweep-others w [] s n = refl
  sweep-others w (v ∷ vs) s n =
      let s' = (check_auto_withdraw v (owed_of v) (build v) now s).0 in
      sweep-others w vs s' (ground arith)
      ∙ check-others v w (owed_of v) (build v) now s (ground arith)

  sweep-due :
      (w : String) (workers : List String) (s : AutoStore)
      → distinct workers ≡ true
      → includes workers w ≡ true
      → IsDue w (owed_of w) (build w) now s
      → is_some (lookup w (sweep_over owed_of build now workers s).0.pending) ≡ true
  unfolding sweep_over
  sweep-due w [] s u i d = absurd (ground arith)
  sweep-due w (v ∷ vs) s u i d =
      let s' = (check_auto_withdraw v (owed_of v) (build v) now s).0 in
      elim (Bool-cases (str_eq v w)) [
        | inr n ↦ sweep-due w vs s' (ground arith) (ground arith) (
            still-IsDue w (owed_of w) (build w) now s s'
              (check-others v w (owed_of v) (build v) now s n) d)
        | inl e ↦
            let same : v ≡ w = (eq_iff v w).0 e in
            let gone : includes vs w ≡ false = rw same at (first_once v vs u) in
            let mine : is_some (lookup w s'.pending) ≡ true =
              rw same (own_check w (owed_of w) (build w) now s d) in
            let rest = sweep-others w vs s' gone in (λ j. is_some ((rest j).1).0) ∙ mine
      ]

  -- One sweep over a list that names nobody twice: every listed worker whose settings are on, whose
  -- lock is free, whose balance is at the threshold or above and whose transaction the chain can
  -- build has a withdrawal prepared after it, whatever the checks of the others answered.
  pub sweep_prepares_for_all :
      (w : String) (s : AutoStore)
      → distinct s.workers ≡ true
      → includes s.workers w ≡ true
      → IsDue w (owed_of w) (build w) now s
      → is_some (lookup w (sweep_auto_withdraw owed_of build now s).0.pending) ≡ true
  unfolding sweep_auto_withdraw
  sweep_prepares_for_all w s u i d = sweep-due w s.workers s u i d

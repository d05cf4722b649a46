-- ===== src/AutoWithdraw/Stale.antt =====
-- One check of one worker: what it leaves of the lock and of the other workers.
use arbiter_backend.Base.{
  ℕ, String, ◌≡◌, refl, ◌∙◌, true, false, Option, none, some, arith, ltb, leb, str_eq, lookup,
  remove, lookup-insert, lookup-remove, Bool-cases, Option-cases, inl, inr,
}
use arbiter_backend.Store.{set, view}
use arbiter_backend.Store.Expiry.{set_nx-eq}
use arbiter_backend.AutoWithdraw.{
  Settings, Prepared, AutoStore, Builder, lock_ttl_ms, kept_as, prepare, unless_pending,
  locked_check, unlocked, check_with, check_auto_withdraw,
}

-- The part of the store that belongs to a worker.
abbrev pub OfWorker : Type 0
OfWorker = Option Settings × (Option Prepared × Option ℕ)

abbrev pub of_worker : String → ℕ → AutoStore → OfWorker
of_worker w now s = (lookup w s.settings, (lookup w s.pending, view s.locks w now))

-- With its settings on and its lock free, a worker's check runs under the lock and frees it.
pub check-free :
    (worker : String) (st : Settings) (owed : Option ℕ) (build : Builder) (now : ℕ) (s : AutoStore)
    → lookup worker s.settings ≡ some st
    → st.enabled ≡ true
    → view s.locks worker now ≡ none
    → check_auto_withdraw worker owed build now s
      ≡ unlocked worker (
          locked_check worker st owed build now
            (record s { locks = set worker now lock_ttl_ms now s.locks }))
unfolding check_auto_withdraw check_with
check-free worker st owed build now s e on free =
    rw (e, set_nx-eq worker now lock_ttl_ms now s.locks, free) (ground arith)

kept-others :
    (worker w : String) (owed : ℕ) (b : Option String) (now : ℕ) (built : Option (String × ℕ))
    (s : AutoStore)
    → str_eq worker w ≡ false
    → lookup w (kept_as worker owed b now built s).0.pending ≡ lookup w s.pending
unfolding kept_as
kept-others worker w owed b now none s n = refl
kept-others worker w owed b now (some (xdr, at)) s n =
    rw (lookup-insert worker w _ s.pending, n) refl

abbrev pub SameButPending : AutoStore → AutoStore → Type 0
SameButPending s t = (t.settings ≡ s.settings) × ((t.locks ≡ s.locks) × (t.workers ≡ s.workers))

kept-rest :
    (worker : String) (owed : ℕ) (b : Option String) (now : ℕ) (built : Option (String × ℕ))
    (s : AutoStore)
    → SameButPending s (kept_as worker owed b now built s).0
unfolding kept_as
kept-rest worker owed b now none s = (refl, (refl, refl))
kept-rest worker owed b now (some (xdr, at)) s = (refl, (refl, refl))

pub prepare-rest :
    (worker w : String) (st : Settings) (owed now : ℕ) (build : Builder) (s : AutoStore)
    → str_eq worker w ≡ false
    → SameButPending s (prepare worker st owed build now s).0
      × (lookup w (prepare worker st owed build now s).0.pending ≡ lookup w s.pending)
unfolding prepare
prepare-rest worker w st owed now build s n = elim (Bool-cases (ltb owed st.threshold_stroops)) [
  | inl t ↦ rw t ((refl, (refl, refl)), refl)
  | inr t ↦
      let built = build owed st.beneficiary_address in
      rw t (
        kept-rest worker owed st.beneficiary_address now built s,
        kept-others worker w owed st.beneficiary_address now built s n,
      )
]

prepare-settings :
    (worker : String) (st : Settings) (owed now : ℕ) (build : Builder) (s : AutoStore)
    → (prepare worker st owed build now s).0.settings ≡ s.settings
unfolding prepare
prepare-settings worker st owed now build s = elim (Bool-cases (ltb owed st.threshold_stroops)) [
  | inl t ↦ rw t refl
  | inr t ↦
      let built = build owed st.beneficiary_address in
      rw t (kept-rest worker owed st.beneficiary_address now built s).0
]

pub locked-rest :
    (worker w : String) (st : Settings) (owed : Option ℕ) (now : ℕ) (build : Builder)
    (s : AutoStore)
    → str_eq worker w ≡ false
    → SameButPending s (locked_check worker st owed build now s).0
      × (lookup w (locked_check worker st owed build now s).0.pending ≡ lookup w s.pending)
unfolding locked_check unless_pending
locked-rest worker w st none now build s n = ((refl, (refl, refl)), refl)
locked-rest worker w st (some owed) now build s n = elim (Option-cases (lookup worker s.pending)) [
  | inl e ↦ rw e (prepare-rest worker w st owed now build s n)
  | inr (p, e) ↦ elim (Bool-cases (leb p.amount_stroops owed)) [
    | inl t ↦ rw (e, t) ((refl, (refl, refl)), refl)
    | inr t ↦
        let s' : AutoStore = record s { pending = remove worker s.pending } in
        let (rest, kept) = prepare-rest worker w st owed now build s' n in
        rw (e, t) (rest, kept ∙ rw (lookup-remove worker w s.pending, n) refl)
  ]
]

-- A check leaves the settings.
pub locked_check-settings :
    (worker : String) (st : Settings) (owed : Option ℕ) (now : ℕ) (build : Builder) (s : AutoStore)
    → (locked_check worker st owed build now s).0.settings ≡ s.settings
unfolding locked_check unless_pending
locked_check-settings worker st none now build s = refl
locked_check-settings worker st (some owed) now build s =
    elim (Option-cases (lookup worker s.pending)) [
      | inl e ↦ rw e (prepare-settings worker st owed now build s)
      | inr (p, e) ↦ elim (Bool-cases (leb p.amount_stroops owed)) [
        | inl t ↦ rw (e, t) refl
        | inr t ↦
            rw (e, t)
              (prepare-settings worker st owed now build
                (record s { pending = remove worker s.pending }))
      ]
    ]

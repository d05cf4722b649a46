-- ===== src/Intake/Paused.antt =====
-- A question that is paid for while dispatch is paused.
use arbiter_backend.Base.{
  ℕ, ◌+◌, String, ◌≡◌, refl, ◌∙◌, false, Option, none, some, List, Assoc, arith, str_eq, eq_refl,
  eq_iff, if◌then◌else◌, Bool-cases, inl, inr,
}
use arbiter_backend.Store.{MemoryStore, set, view}
use arbiter_backend.Store.Expiry.{view-set, get-view}
use arbiter_backend.Store.Counter.{balance-incr_by}
use arbiter_backend.Settle.{ChainStatus}
use arbiter_backend.Maintenance.{PauseInfo, compute_pause}
use arbiter_backend.Credit.{Credits, get_credit_balance_stroops, restore_credit}
use arbiter_backend.UndoWindow.{undo_window_for}
use arbiter_backend.Intake.{
  whitelist_of, Desk, started, Paid, note_owner, note_webhook_owner, reaches_import, note_payer,
  send, job_recorded, once_claimed, dispatch_unless_paused, dispatch_or_refund,
  refund_for_dispatch_pause, given_back,
}
use arbiter_backend.Pools.{get_private_pool}
use arbiter_backend.Intake.Starts.{start, start-free}

restored :
    (account other : String) (price : ℕ) (credits : Credits)
    → get_credit_balance_stroops other (restore_credit account price credits)
      ≡ (if str_eq account other then price else 0) + get_credit_balance_stroops other credits
unfolding restore_credit get_credit_balance_stroops
restored account other price credits =
    ground (arith, balance-incr_by account other price credits, eq_iff account other)

module _ {ℓ} {C : Type ℓ} (refund : String → C → C × Option String)
    (resolve : String → List String → List String → C → C × Option String)
    (question : String → C → Option ChainStatus) (texts_of : Paid → Assoc String)
    (hold_ms ttl : ℕ) where
  refunded_credit :
      (p : Paid) (account other : String) (now : ℕ) (d : Desk C)
      → view d.job_owners p.question_id now ≡ some account
      → get_credit_balance_stroops other
          (refund_for_dispatch_pause refund resolve question texts_of hold_ms ttl p now d).credits
        ≡ (if str_eq account other then p.price_stroops else 0)
          + get_credit_balance_stroops other d.credits
  unfolding refund_for_dispatch_pause given_back
  refunded_credit p account other now d e =
      let found = (get-view p.question_id now d.job_owners).0 ∙ e in
      rw found (restored account other p.price_stroops d.credits)

  refunded_rest :
      (p : Paid) (account : String) (now : ℕ) (d : Desk C)
      → view d.job_owners p.question_id now ≡ some account
      → ((refund_for_dispatch_pause refund resolve question texts_of hold_ms ttl p now d).fulfilling
          ≡ d.fulfilling)
        × ((refund_for_dispatch_pause refund resolve question texts_of hold_ms ttl p now d).timers
            ≡ d.timers)
  unfolding refund_for_dispatch_pause given_back
  refunded_rest p account now d e =
      let found = (get-view p.question_id now d.job_owners).0 ∙ e in rw found (refl, refl)

  -- The desk once the job, its owner and the payer are recorded.
  noted : Paid → ℕ → Desk C → Desk C
  noted p now d = note_webhook_owner refund resolve question texts_of hold_ms ttl p now (
      note_payer refund resolve question texts_of hold_ms ttl p (
        note_owner refund resolve question texts_of hold_ms ttl p now
          (job_recorded refund resolve question texts_of hold_ms ttl p 0 now d)))

  noted-rest :
      (p : Paid) (account : String) (now : ℕ) (d : Desk C)
      → p.owner_account ≡ some account
      → ((noted p now d).windows ≡ d.windows)
        × ((noted p now d).credits ≡ d.credits)
        × ((noted p now d).fulfilling ≡ d.fulfilling)
        × ((noted p now d).timers ≡ d.timers)
        × (view (noted p now d).job_owners p.question_id now ≡ some account)
  unfolding noted note_webhook_owner note_payer note_owner job_recorded
  noted-rest p account now d e =
      let seen : view (set p.question_id account ttl now d.job_owners) p.question_id now
          ≡ some account =
        ground (
          arith,
          view-set p.question_id p.question_id account ttl now now d.job_owners,
          eq_refl p.question_id,
        ) in
      elim (Bool-cases (str_eq p.payer "")) [
        | inl t ↦ rw (e, t) (refl, refl, refl, refl, seen)
        | inr t ↦ rw (e, t) (refl, refl, refl, refl, seen)
      ]

  no_import :
      (p : Paid) (account : String)
      → p.owner_account ≡ some account
      → reaches_import refund resolve question texts_of hold_ms ttl p ≡ false
  unfolding reaches_import
  no_import p account e = rw e (ground arith)

  send_paused :
      (p : Paid) (whitelist : Option (List String)) (pause : PauseInfo) (now : ℕ) (d : Desk C)
      → compute_pause d.windows now ≡ some pause
      → send refund resolve question texts_of hold_ms ttl p whitelist 0 now d
        ≡ (refund_for_dispatch_pause refund resolve question texts_of hold_ms ttl p now d, started)
  unfolding send dispatch_unless_paused dispatch_or_refund
  send_paused p whitelist pause now d paused = rw paused refl

  once_sends :
      (p : Paid) (account : String) (now : ℕ) (d : Desk C)
      → p.owner_account ≡ some account
      → undo_window_for (some p.tier) hold_ms ≡ 0
      → once_claimed refund resolve question texts_of hold_ms ttl p now d
        ≡ send refund resolve question texts_of hold_ms ttl p
            (whitelist_of (get_private_pool p.payer d.pools))
            0
            now
            (noted p now d)
  unfolding once_claimed noted
  once_sends p account now d e window = rw (no_import p account e, window) refl

  once_paused :
      (p : Paid) (account : String) (pause : PauseInfo) (now : ℕ) (d : Desk C)
      → p.owner_account ≡ some account
      → undo_window_for (some p.tier) hold_ms ≡ 0
      → compute_pause d.windows now ≡ some pause
      → once_claimed refund resolve question texts_of hold_ms ttl p now d ≡ (
        refund_for_dispatch_pause refund resolve question texts_of hold_ms ttl p now
            (noted p now d),
        started,
      )
  once_paused p account pause now d e window paused =
      let (windows, credits, sent, timed, seen) = noted-rest p account now d e in
      once_sends p account now d e window
      ∙ send_paused p _ pause now (noted p now d) ((λ i. compute_pause (windows i) now) ∙ paused)

  -- An account's question that is not held, and that comes while dispatch is paused: the start gives
  -- the account back what the question costs, and no other account anything; nothing is sent to
  -- workers and no timer is set.
  pub paused_start_gives_back :
      (p : Paid) (account other : String) (pause : PauseInfo) (now : ℕ) (claims : MemoryStore ℕ)
      (d : Desk C)
      → view claims p.question_id now ≡ none
      → p.owner_account ≡ some account
      → undo_window_for (some p.tier) hold_ms ≡ 0
      → compute_pause d.windows now ≡ some pause
      → (get_credit_balance_stroops other
            (start refund resolve question texts_of hold_ms ttl p now claims d).0.1.credits
          ≡ (if str_eq account other then p.price_stroops else 0)
            + get_credit_balance_stroops other d.credits)
        × ((start refund resolve question texts_of hold_ms ttl p now claims d).0.1.fulfilling
            ≡ d.fulfilling)
        × ((start refund resolve question texts_of hold_ms ttl p now claims d).0.1.timers
            ≡ d.timers)
  paused_start_gives_back p account other pause now claims d free e window paused =
      let (windows, credits, sent, timed, seen) = noted-rest p account now d e in
      let (sent', timed') = refunded_rest p account now (noted p now d) seen in
      let back = refunded_credit p account other now (noted p now d) seen in
      rw
        (
          start-free refund resolve question texts_of hold_ms ttl p now claims d free,
          once_paused p account pause now d e window paused,
        )
        (
          back ∙ (λ i.
              (if str_eq account other then p.price_stroops else 0)
              + get_credit_balance_stroops other (credits i)),
          sent' ∙ sent,
          timed' ∙ timed,
        )

-- ===== src/Intake/Starts.antt =====
-- A question is started once, and what stops a start after its claim.
use arbiter_backend.Base.{
  ℕ, ◌+◌, ◌≤◌, ◌<◌, String, ◌≡◌, refl, true, false, Option, none, some, List, Assoc, arith, ◌==◌,
  str_eq, eq_refl, is_some, if◌then◌else◌, Bool-cases, inl, inr,
}
use arbiter_backend.Store.{MemoryStore, view}
use arbiter_backend.Store.Expiry.{view-set}
use arbiter_backend.Settle.{ChainStatus}
use arbiter_backend.Jobs.{claim_job, create_job}
use arbiter_backend.UndoWindow.{undo_window_for}
use arbiter_backend.Jobs.Claims.{claim-free, claim-taken}
use arbiter_backend.Intake.{
  Desk, Started, repeated, threw, Paid, code_for, note_owner, reaches_import, job_recorded,
  once_claimed, start_fulfillment,
}

module _ {ℓ} {C : Type ℓ} (refund : String → C → C × Option String)
    (resolve : String → List String → List String → C → C × Option String)
    (question : String → C → Option ChainStatus) (texts_of : Paid → Assoc String)
    (hold_ms ttl : ℕ) where
  abbrev pub start : Paid → ℕ → MemoryStore ℕ → Desk C → (MemoryStore ℕ × Desk C) × Started
  start p now claims d =
      start_fulfillment refund resolve question texts_of hold_ms ttl p now claims d

  start-claims :
      (p : Paid) (now : ℕ) (claims : MemoryStore ℕ) (d : Desk C)
      → (start p now claims d).0.0 ≡ (claim_job p.question_id ttl now claims).0
  unfolding start_fulfillment
  start-claims p now claims d = elim (Bool-cases (claim_job p.question_id ttl now claims).1) [
    | inl t ↦ rw t refl
    | inr t ↦ rw t refl
  ]

  start-taken :
      (p : Paid) (now : ℕ) (claims : MemoryStore ℕ) (d : Desk C)
      → (claim_job p.question_id ttl now claims).1 ≡ false
      → ((start p now claims d).1 ≡ repeated) × ((start p now claims d).0.1 ≡ d)
  unfolding start_fulfillment
  start-taken p now claims d n = rw n (refl, refl)

  -- A payment for a question that comes again while its claim lives, with whatever tier, payer or
  -- code, starts nothing: the answer is the job's id, and nothing is changed but the claim's count.
  pub starts_once :
      (p again : Paid) (now t : ℕ) (claims : MemoryStore ℕ) (d : Desk C)
      → 0 < ttl
      → again.question_id ≡ p.question_id
      → t ≤ now + ttl
      → ((start again t (start p now claims d).0.0 (start p now claims d).0.1).1 ≡ repeated)
        × ((start again t (start p now claims d).0.0 (start p now claims d).0.1).0.1
            ≡ (start p now claims d).0.1)
  starts_once p again now t claims d pos same live =
      let first = (start p now claims d).0 in
      start-taken again t first.0 first.1 (
        rw (start-claims p now claims d, same)
          (claim-taken ttl p.question_id now t claims pos live))

  -- Until when the question is held; 0 if it is not.
  abbrev pub held_until : Paid → ℕ → ℕ
  held_until p now =
      if undo_window_for (some p.tier) hold_ms == 0
      then 0
      else now + undo_window_for (some p.tier) hold_ms

  reaches :
      (p : Paid) (code : String)
      → str_eq p.payer "" ≡ false
      → code_for p ≡ some code
      → reaches_import refund resolve question texts_of hold_ms ttl p ≡ true
  unfolding reaches_import
  reaches p code payer given = rw (payer, given) refl

  unowned :
      (p : Paid) (now : ℕ) (d : Desk C)
      → p.owner_account ≡ none
      → note_owner refund resolve question texts_of hold_ms ttl p now d ≡ d
  unfolding note_owner
  unowned p now d e = rw e refl

  abbrev after_record : Paid → ℕ → Desk C → Desk C
  after_record p now d =
      job_recorded refund resolve question texts_of hold_ms ttl p (held_until p now) now d

  once-throws :
      (p : Paid) (code : String) (now : ℕ) (d : Desk C)
      → str_eq p.payer "" ≡ false
      → p.owner_account ≡ none
      → code_for p ≡ some code
      → once_claimed refund resolve question texts_of hold_ms ttl p now d
        ≡ (after_record p now d, threw)
  unfolding once_claimed
  once-throws p code now d payer owner given =
      rw (reaches p code payer given) (λ i. (unowned p now (after_record p now d) owner i, threw))

  job_recorded-seen :
      (p : Paid) (now : ℕ) (d : Desk C)
      → is_some (view (after_record p now d).state.jobs.jobs p.question_id now) ≡ true
  unfolding job_recorded create_job
  job_recorded-seen p now d =
      rw (view-set p.question_id p.question_id _ ttl now now d.state.jobs.jobs)
        (ground (arith, eq_refl p.question_id))

  job_recorded-rest :
      (p : Paid) (now : ℕ) (d : Desk C)
      → ((after_record p now d).fulfilling ≡ d.fulfilling)
        × ((after_record p now d).timers ≡ d.timers)
        × ((after_record p now d).payers ≡ d.payers)
  unfolding job_recorded
  job_recorded-rest p now d = (refl, refl, refl)

  pub start-free :
      (p : Paid) (now : ℕ) (claims : MemoryStore ℕ) (d : Desk C)
      → view claims p.question_id now ≡ none
      → start p now claims d ≡ (
        (
          (claim_job p.question_id ttl now claims).0,
          (once_claimed refund resolve question texts_of hold_ms ttl p now d).0,
        ),
        (once_claimed refund resolve question texts_of hold_ms ttl p now d).1,
      )
  unfolding start_fulfillment
  start-free p now claims d free = rw (claim-free ttl p.question_id now claims free) refl

  -- A referral code given by a payer's own question: the start throws once the claim is taken and the
  -- job recorded, and any start of the question while the claim lives is answered as a repeated one,
  -- so that after both nothing has been dispatched, held or put into the payer's records.
  pub referral_code_strands :
      (p again : Paid) (code : String) (now t : ℕ) (claims : MemoryStore ℕ) (d : Desk C)
      → 0 < ttl
      → view claims p.question_id now ≡ none
      → str_eq p.payer "" ≡ false
      → p.owner_account ≡ none
      → code_for p ≡ some code
      → again.question_id ≡ p.question_id
      → t ≤ now + ttl
      → let ((claims', d'), first) = start p now claims d in
        let ((claims'', d''), second) = start again t claims' d' in
        (first ≡ threw)
        × (second ≡ repeated)
        × (d''.fulfilling ≡ d.fulfilling)
        × (d''.timers ≡ d.timers)
        × (d''.payers ≡ d.payers)
        × (is_some (view d''.state.jobs.jobs p.question_id now) ≡ true)
  referral_code_strands p again code now t claims d pos free payer owner given same live =
      let (sent, timed, noted) = job_recorded-rest p now d in
      let (answered, kept) = starts_once p again now t claims d pos same live in
      let thrown = start-free p now claims d free in
      let at_record : (start p now claims d).0.1 ≡ after_record p now d =
        rw (thrown, once-throws p code now d payer owner given) refl in
      (
        rw (thrown, once-throws p code now d payer owner given) refl,
        answered,
        rw (kept, at_record) sent,
        rw (kept, at_record) timed,
        rw (kept, at_record) noted,
        rw (kept, at_record) (job_recorded-seen p now d),
      )

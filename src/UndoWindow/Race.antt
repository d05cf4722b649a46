-- ===== src/UndoWindow/Race.antt =====
-- The race of cancels and hold timers, over every order of events of every job.
use arbiter_backend.Base.{
  ℕ, ◌+◌, ◌≤◌, ◌<◌, String, ◌≡◌, refl, none, List, [], ◌∷◌, ◌++◌, arith, eq_iff, ◌==◌, str_eq,
  if◌then◌else◌, Bool-cases, inl, inr, sym, ◌∙◌,
}
use mathlib.Core.List.{append-nil}
use arbiter_backend.Store.{incr, view, or_zero}
use arbiter_backend.Store.Counter.{incr-eq, view-incr}
use arbiter_backend.UndoWindow.{
  Decision, dispatch, cancel, Effect, Holds, claim_undo_decision, timer_fires, cancel_held,
}

-- A timer of any process fires, or a payer cancels.
pub data Event : Type 0 where
  fires : String → ℕ → Event
  cancels : String → ℕ → Event

abbrev pub job_of : Event → String
job_of (fires j t) = j
job_of (cancels j t) = j

abbrev pub time_of : Event → ℕ
time_of (fires j t) = t
time_of (cancels j t) = t

abbrev pub wants : Event → Decision
wants (fires j t) = dispatch
wants (cancels j t) = cancel

abbrev pub effects_of : String → List Effect → List Decision
effects_of j [] = []
effects_of j (e ∷ es) =
    let rest = effects_of j es in if str_eq e.job_id j then e.ran ∷ rest else rest

-- The decision of the job's first event, if it has one.
abbrev pub first_wish : String → List Event → List Decision
first_wish j [] = []
first_wish j (e ∷ es) =
    let rest = first_wish j es in if str_eq (job_of e) j then wants e ∷ [] else rest

effects_of-append :
    (j : String) (xs ys : List Effect)
    → effects_of j (xs ++ ys) ≡ effects_of j xs ++ effects_of j ys
effects_of-append j [] ys = refl
effects_of-append j (x ∷ xs) ys = ground (arith, effects_of-append j xs ys)

module _ (ttl : ℕ) where
  pub step : Holds → Event → Holds
  step h (fires j t) = timer_fires ttl j t h
  step h (cancels j t) = (cancel_held ttl j t h).0

  pub run : Holds → List Event → Holds
  run h [] = h
  run h (e ∷ es) = run (step h e) es

  -- What an event adds to the effects, and what it leaves in the counters.
  step-effects :
      (j : String) (h : Holds) (e : Event)
      → effects_of j (step h e).effects
        ≡ effects_of j h.effects
          ++ (if (or_zero (view h.decisions (job_of e) (time_of e)) + 1) == 1
              then (if str_eq (job_of e) j then wants e ∷ [] else [])
              else [])
  unfolding step timer_fires cancel_held claim_undo_decision
  step-effects j h (fires k t) = ground (
    arith,
    effects_of-append j h.effects (record { job_id = k; ran = dispatch } ∷ []),
    append-nil (effects_of j h.effects),
    incr-eq k ttl t h.decisions,
  )
  step-effects j h (cancels k t) = ground (
    arith,
    effects_of-append j h.effects (record { job_id = k; ran = cancel } ∷ []),
    append-nil (effects_of j h.effects),
    incr-eq k ttl t h.decisions,
  )

  step-decisions :
      (h : Holds) (e : Event)
      → (step h e).decisions ≡ (incr (job_of e) ttl (time_of e) h.decisions).0
  unfolding step timer_fires cancel_held claim_undo_decision
  step-decisions h (fires k t) = ground arith
  step-decisions h (cancels k t) = ground arith

  -- All events fall within the lifetime of the decision counters, counted from `start`.
  abbrev pub Between : ℕ → List Event → Type 0
  Between start [] = Unit
  Between start (e ∷ es) = (start ≤ time_of e) × (time_of e ≤ start + ttl) × Between start es

  -- A claimed job runs nothing more.
  claimed-quiet :
      (j : String) (start : ℕ) (h : Holds) (es : List Event)
      → 0 < ttl
      → ((t : ℕ) → start ≤ t → t ≤ start + ttl → 0 < or_zero (view h.decisions j t))
      → Between start es
      → effects_of j (run h es).effects ≡ effects_of j h.effects
  unfolding run
  claimed-quiet j start h [] p claimed b = refl
  claimed-quiet j start h (e ∷ es) p claimed b =
      claimed-quiet j start (step h e) es p
        (λ t l u. ground (
          arith,
          step-decisions h e,
          view-incr (job_of e) j ttl (time_of e) t h.decisions p,
          claimed t l u,
        ))
        b.2
      ∙ ground (
        arith,
        step-effects j h e,
        append-nil (effects_of j h.effects),
        eq_iff (job_of e) j,
        claimed (time_of e) b.0 b.1,
      )

  -- From an undecided job, whatever events of whatever jobs follow within the lifetime of the
  -- counters: the job has run exactly what its first event wants, once, and nothing else. So it is
  -- never both dispatched and refunded, and never left with neither once an event of it came.
  pub race_decided_once :
      (j : String) (start : ℕ) (h : Holds) (es : List Event)
      → 0 < ttl
      → ((t : ℕ) → start ≤ t → t ≤ start + ttl → view h.decisions j t ≡ none)
      → Between start es
      → effects_of j (run h es).effects ≡ effects_of j h.effects ++ first_wish j es
  unfolding run
  race_decided_once j start h [] p undecided b = sym (append-nil (effects_of j h.effects))
  race_decided_once j start h (e ∷ es) p undecided b = elim (Bool-cases (str_eq (job_of e) j)) [
    | inl same ↦
        claimed-quiet j start (step h e) es p
          (λ t l u. ground (
            arith,
            same,
            step-decisions h e,
            view-incr (job_of e) j ttl (time_of e) t h.decisions p,
          ))
          b.2
        ∙ ground
            (arith, same, step-effects j h e, eq_iff (job_of e) j, undecided (time_of e) b.0 b.1)
    | inr other ↦
        race_decided_once j start (step h e) es p
          (λ t l u. ground (
            arith,
            other,
            step-decisions h e,
            view-incr (job_of e) j ttl (time_of e) t h.decisions p,
            undecided t l u,
          ))
          b.2
        ∙ ground (arith, other, step-effects j h e, append-nil (effects_of j h.effects))
  ]

-- ===== src/Collector/Quorum.antt =====
-- What a dispatched question resolves with, in whatever order answers, timer and broadcast come.
pub mod Fair
use Prim.Native.Nat.{max}
use arbiter_backend.Base.{
  ℕ, zero, suc, ◌≤◌, String, ◌≡◌, refl, sym, Bool, true, false, not, ◌||◌, ◌&&◌, Option, none, some,
  List, [], ◌∷◌, ◌++◌, arith, includes, distinct, is_some, leb, length, Assoc, lookup, insert,
  if◌then◌else◌, length-append, eq_iff, str_eq, Bool-cases, Option-cases, inl, inr,
}
use arbiter_backend.Collector.{
  Collector, Dispatch, may_answer, register_collector, finish, handle_answer, answer_to,
  add_submission, Event, answered, timed_out, broadcast, broadcast_failed, step, run,
  submissions_of,
}

abbrev pub workers : Assoc String → List String
workers [] = []
workers ((w, a) ∷ m) = w ∷ workers m

pub includes-workers :
    (m : Assoc String) (w : String) → includes (workers m) w ≡ is_some (lookup w m)
unfolding lookup
includes-workers [] w = refl
includes-workers ((v, a) ∷ m) w = ground (arith, includes-workers m w)

pub insert-new :
    (m : Assoc String) (w a : String) → lookup w m ≡ none → insert w a m ≡ m ++ (w, a) ∷ []
unfolding lookup insert
insert-new [] w a n = refl
insert-new ((v, b) ∷ m) w a n = ground (arith, insert-new m w a)

pub not-false : (b : Bool) → not b ≡ false → b ≡ true
not-false true h = refl
not-false false h = ground arith

finish-resolves : (m : Assoc String) (d : Dispatch) → is_some (finish m d).resolved ≡ true
unfolding finish
finish-resolves m d = ground arith

module _ (screen : String → Bool) where
  step-kept :
      (x : Event) (d : Dispatch) (m : Assoc String)
      → d.resolved ≡ some m
      → d.collector ≡ none
      → ((step screen x d).resolved ≡ some m) × ((step screen x d).collector ≡ none)
  unfolding step handle_answer answer_to finish
  step-kept (answered w a) d m e n = ground arith
  step-kept timed_out d m e n = ground arith
  step-kept (broadcast zero) d m e n = ground arith
  step-kept (broadcast (suc k)) d m e n = (e, n)
  step-kept broadcast_failed d m e n = ground arith

  pub resolved-kept :
      (es : List Event) (d : Dispatch) (m : Assoc String)
      → d.resolved ≡ some m
      → d.collector ≡ none
      → (run screen es d).resolved ≡ some m
  unfolding run
  resolved-kept [] d m e n = e
  resolved-kept (x ∷ es) d m e n =
      resolved-kept es (step screen x d) m (step-kept x d m e n).0 (step-kept x d m e n).1

  kept-resolved :
      (x : Event) (d : Dispatch)
      → is_some d.resolved ≡ true
      → is_some (step screen x d).resolved ≡ true
  unfolding step handle_answer answer_to add_submission finish
  kept-resolved (answered w a) d h = ground arith
  kept-resolved timed_out d h = ground arith
  kept-resolved (broadcast zero) d h = ground arith
  kept-resolved (broadcast (suc k)) d h = h
  kept-resolved broadcast_failed d h = ground arith

  stays-resolved :
      (es : List Event) (d : Dispatch)
      → is_some d.resolved ≡ true
      → is_some (run screen es d).resolved ≡ true
  unfolding run
  stays-resolved [] d h = h
  stays-resolved (x ∷ es) d h = stays-resolved es (step screen x d) (kept-resolved x d h)

  -- A question resolves in every run in which its timer fires, whatever comes before and after.
  pub timeout_resolves :
      (es later : List Event) (d : Dispatch)
      → is_some (run screen (es ++ timed_out ∷ later) d).resolved ≡ true
  unfolding run step
  timeout_resolves [] later d =
      stays-resolved later _ (finish-resolves (submissions_of d.collector) d)
  timeout_resolves (x ∷ es) later d = timeout_resolves es later (step screen x d)

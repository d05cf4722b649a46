-- ===== src/Collector.antt =====
-- src/dispatch.js, one dispatched question: its collector, and dispatchAndCollect as the steps that
-- the answers, the timer and the broadcast make. `screen` is screenAnswer of src/answerFilter.js.
pub mod Quorum
use arbiter_backend.Base.{
  ℕ, zero, suc, String, Bool, true, false, not, ◌||◌, Option, none, some, List, [], ◌∷◌, includes,
  is_some, leb, length, Assoc, lookup, insert, if◌then◌else◌,
}

pub record Collector : Type 0 where
  pub submissions : Assoc String
  pub quorum_size : ℕ
  pub finished : Bool
  pub whitelist : Option (List String)

-- `collector` is what `collectors` holds under the question's id, `resolved` the promise's value.
pub record Dispatch : Type 0 where
  pub collector : Option Collector
  pub resolved : Option (Assoc String)

abbrev pub may_answer : Option (List String) → String → Bool
may_answer none worker_id = true
may_answer (some allowed) worker_id = includes allowed worker_id

unfoldable pub register_collector : ℕ → Option (List String) → Dispatch
register_collector quorum_size whitelist =
    let c : Collector = record {
      submissions = [];
      quorum_size = quorum_size;
      finished = false;
      whitelist = whitelist;
    } in
    record { collector = some c; resolved = none }

-- `finish` of dispatchAndCollect: only its first call resolves the promise.
unfoldable pub finish : Assoc String → Dispatch → Dispatch
finish submissions d =
    if is_some d.resolved then d else record { collector = none; resolved = some submissions }

pub data Event : Type 0 where
  answered : (worker_id answer : String) → Event
  timed_out : Event
  broadcast : (recipients : ℕ) → Event
  broadcast_failed : Event

abbrev pub submissions_of : Option Collector → Assoc String
submissions_of none = []
submissions_of (some c) = c.submissions

module _ (screen : String → Bool) where
  add_submission : Collector → String → String → Dispatch → Dispatch
  unfolding finish
  add_submission c worker_id answer d =
      let added = insert worker_id answer c.submissions in
      if leb c.quorum_size (length added)
      then finish added
          (record d { collector = some (record c { submissions = added; finished = true }) })
      else record d { collector = some (record c { submissions = added }) }

  answer_to : Option Collector → String → String → Dispatch → Dispatch × Bool
  answer_to none worker_id answer d = (d, false)
  answer_to (some c) worker_id answer d =
      if c.finished
      then (d, false)
      else if is_some (lookup worker_id c.submissions)
      then (d, false)
      else if not (may_answer c.whitelist worker_id)
      then (d, false)
      else if not (screen answer)
      then (d, false)
      else (add_submission c worker_id answer d, true)

  unfoldable pub handle_answer : String → String → Dispatch → Dispatch × Bool
  unfolding answer_to add_submission finish
  handle_answer worker_id answer d = answer_to d.collector worker_id answer d

  unfoldable pub step : Event → Dispatch → Dispatch
  unfolding handle_answer finish
  step (answered worker_id answer) d = (handle_answer worker_id answer d).0
  step timed_out d = finish (submissions_of d.collector) d
  step (broadcast zero) d = finish [] d
  step (broadcast (suc _)) d = d
  step broadcast_failed d = finish [] d

  unfoldable pub run : List Event → Dispatch → Dispatch
  unfolding step
  run [] d = d
  run (e ∷ es) d = run es (step e d)

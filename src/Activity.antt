-- ===== src/Activity.antt =====
-- The daily record of a worker's outcomes and the streaks in it, src/workerAnalytics.js. A day is the
-- number of its UTC date since 1970: no outcome is older, so a streak ends there. `days` holds the
-- entries of the object in the order of `Object.keys(days).sort()`, which is that of the dates, and a
-- time is what the code prints of it.
pub mod Bounded
pub mod Streaks
pub mod Exact
use Prim.Native.Nat.{max}
use arbiter_backend.Base.{
  ℕ, zero, suc, ◌+◌, ◌-◌, ◌/◌, Bool, false, Option, none, some, List, [], ◌∷◌, ltb, ◌==◌, length,
  if◌then◌else◌,
}

pub record DayCount : Type 0 where
  pub answered : ℕ
  pub matched : ℕ

pub record Activity : Type 0 where
  pub days : List (ℕ × DayCount)
  pub first_seen_at : Option ℕ
  pub last_active_at : Option ℕ
  pub longest_streak : ℕ

abbrev pub max_days_retained : ℕ
max_days_retained = 400

abbrev pub day_key : ℕ → ℕ
day_key ts = ts / 86400000

abbrev pub empty_activity : Activity
empty_activity = record {
  days = [];
  first_seen_at = none;
  last_active_at = none;
  longest_streak = 0;
}

abbrev pub answered_on : ℕ → List (ℕ × DayCount) → ℕ
answered_on day [] = 0
answered_on day ((d, b) ∷ ds) = if d == day then b.answered else answered_on day ds

-- The inner `active`.
abbrev pub active : List (ℕ × DayCount) → ℕ → Bool
active days day = ltb 0 (answered_on day days)

-- The loop from a day back, as long as there are answers.
abbrev pub streak_back : List (ℕ × DayCount) → ℕ → ℕ
streak_back days zero = if active days 0 then 1 else 0
streak_back days (suc day) =
    let before = streak_back days day in if active days (suc day) then suc before else 0

abbrev pub before_today : List (ℕ × DayCount) → ℕ → ℕ
before_today days zero = 0
before_today days (suc day) = streak_back days day

abbrev pub follows : Option ℕ → ℕ → Bool
follows none day = false
follows (some previous) day = day == suc previous

abbrev pub next_run : Option ℕ → ℕ → ℕ → ℕ
next_run previous day run = if follows previous day then suc run else 1

-- The loop over the sorted days, with `prev`, `run` and `longest`.
abbrev pub longest_run : List (ℕ × DayCount) → Option ℕ → ℕ → ℕ → ℕ
longest_run [] previous run longest = longest
longest_run ((d, b) ∷ ds) previous run longest =
    let skipped = longest_run ds previous run longest in
    let counted =
      longest_run ds (some d) (next_run previous d run) (max longest (next_run previous d run)) in
    if ltb 0 b.answered then counted else skipped

pub record Streak : Type 0 where
  pub current : ℕ
  pub longest : ℕ

abbrev pub current_streak : List (ℕ × DayCount) → ℕ → ℕ
current_streak days today =
    if active days today then streak_back days today else before_today days today

unfoldable pub compute_streak : List (ℕ × DayCount) → ℕ → Streak
compute_streak days now =
    let current = current_streak days (day_key now) in
    record { current = current; longest = max (longest_run days none 0 0) current }

abbrev pub matched_one : Bool → ℕ
matched_one matched = if matched then 1 else 0

abbrev pub with_outcome : ℕ → Bool → List (ℕ × DayCount) → List (ℕ × DayCount)
with_outcome day matched [] = (day, record { answered = 1; matched = matched_one matched }) ∷ []
with_outcome day matched ((d, b) ∷ ds) =
    if ltb day d
    then (day, record { answered = 1; matched = matched_one matched }) ∷ (d, b) ∷ ds
    else if d == day
    then (d, record { answered = suc b.answered; matched = b.matched + matched_one matched }) ∷ ds
    else (d, b) ∷ with_outcome day matched ds

abbrev pub drop : ℕ → List (ℕ × DayCount) → List (ℕ × DayCount)
drop zero ds = ds
drop (suc n) [] = []
drop (suc n) (d ∷ ds) = drop n ds

-- Without the oldest days beyond those retained.
abbrev pub trimmed : List (ℕ × DayCount) → List (ℕ × DayCount)
trimmed ds = drop (length ds - max_days_retained) ds

abbrev pub or_now : Option ℕ → ℕ → ℕ
or_now none ts = ts
or_now (some t) ts = t

unfoldable pub apply_outcome : Activity → Bool → ℕ → Activity
unfolding compute_streak
apply_outcome activity matched ts =
    let days = trimmed (with_outcome (day_key ts) matched activity.days) in
    record {
      days = days;
      first_seen_at = some (or_now activity.first_seen_at ts);
      last_active_at = some ts;
      longest_streak = max activity.longest_streak (compute_streak days ts).current;
    }

-- The record after a worker's outcomes, the first one first.
abbrev pub record_outcomes : List (Bool × ℕ) → Activity → Activity
record_outcomes [] activity = activity
record_outcomes ((matched, ts) ∷ rest) activity =
    record_outcomes rest (apply_outcome activity matched ts)

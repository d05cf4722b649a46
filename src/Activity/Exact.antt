-- ===== src/Activity/Exact.antt =====
-- The streaks of a worker's record against the runs of days with answers.
use Prim.Native.Nat.{max}
use arbiter_backend.Base.{
  ℕ, zero, suc, ◌+◌, ◌-◌, ◌≤◌, ◌≡◌, refl, ap, ◌∙◌, Bool, true, false, ◌&&◌, Option, none, some,
  List, [], ◌∷◌, arith, ltb, leb, ◌==◌, if◌then◌else◌, Bool-cases, inl, inr,
}
use arbiter_backend.Activity.{
  DayCount, day_key, answered_on, active, streak_back, before_today, next_run, longest_run,
  current_streak, compute_streak, empty_activity, record_outcomes,
}
use arbiter_backend.Activity.Bounded.{
  after, ascending, after-ascending, record_outcomes-IsActivity, empty_activity-IsActivity,
}
use arbiter_backend.Activity.Streaks.{all_active, all_active-snoc, run_within, streak_back-exact}

-- The entries of a list are those that a whole record shows for their days.
abbrev listed : List (ℕ × DayCount) → List (ℕ × DayCount) → Bool
listed days [] = true
listed days ((d, b) ∷ ds) = (answered_on d days == b.answered) && listed days ds

listed_more :
    (d : ℕ) (b : DayCount) (days ds : List (ℕ × DayCount))
    → after d ds ≡ true
    → listed days ds ≡ true
    → listed ((d, b) ∷ days) ds ≡ true
listed_more d b days [] s h = refl
listed_more d b days ((e, c) ∷ []) s h = ground arith
listed_more d b days ((e, c) ∷ (f, k) ∷ ds) s h = ground (arith, listed_more d b days ((f, k) ∷ ds))

listed_self : (ds : List (ℕ × DayCount)) → ascending ds ≡ true → listed ds ds ≡ true
listed_self [] s = refl
listed_self ((d, b) ∷ ds) s =
    let rest = listed_more d b ds ds s (listed_self ds (after-ascending d ds s)) in ground arith

-- A run of this length stands somewhere.
abbrev pub Attained : List (ℕ × DayCount) → ℕ → Type 0
Attained days n = (a : ℕ) × (all_active days a n ≡ true)

-- The run that the loop is in ends with the previous day.
abbrev EndsAt : List (ℕ × DayCount) → Option ℕ → ℕ → Type 0
EndsAt days none r = Unit
EndsAt days (some p) r = (r ≤ suc p) × (all_active days (suc p - r) r ≡ true)

one-EndsAt : (days : List (ℕ × DayCount)) (d : ℕ) → active days d ≡ true → EndsAt days (some d) 1
one-EndsAt days d t =
    let start : suc d - 1 ≡ d = omega arith in
    (omega arith, ap (λ x. all_active days x 1) start ∙ ground arith)

next_run-EndsAt :
    (days : List (ℕ × DayCount)) (p : Option ℕ) (d r : ℕ)
    → active days d ≡ true
    → EndsAt days p r
    → EndsAt days (some d) (next_run p d r)
next_run-EndsAt days none d r t h = one-EndsAt days d t
next_run-EndsAt days (some q) d r t (small, runs) = elim (Bool-cases (d == suc q)) [
  | inl e ↦
      let same : d ≡ suc q = ground arith in
      let start : suc d - suc r ≡ suc q - r = omega arith in
      let last : (suc q - r) + r ≡ d = omega arith in
      rw e (
        omega arith,
        ap (λ x. all_active days x (suc r)) start
            ∙ all_active-snoc days (suc q - r) r runs (ap (active days) last ∙ t),
      )
  | inr e ↦ rw e (one-EndsAt days d t)
]

max-Attained :
    (days : List (ℕ × DayCount)) (m n : ℕ)
    → Attained days m
    → Attained days n
    → Attained days (max m n)
max-Attained days m n h k = elim (Bool-cases (leb m n)) [
  | inl e ↦ let larger : max m n ≡ n = ground arith in (k.0, ap (all_active days k.0) larger ∙ k.1)
  | inr e ↦ let larger : max m n ≡ m = ground arith in (h.0, ap (all_active days h.0) larger ∙ h.1)
]

run-Attained : (days : List (ℕ × DayCount)) (d r : ℕ) → EndsAt days (some d) r → Attained days r
run-Attained days d r h = (suc d - r, h.1)

longest_run-Attained :
    (days ds : List (ℕ × DayCount)) (p : Option ℕ) (r l : ℕ)
    → listed days ds ≡ true
    → EndsAt days p r
    → Attained days l
    → Attained days (longest_run ds p r l)
longest_run-Attained days [] p r l s h k = k
longest_run-Attained days ((d, b) ∷ ds) p r l s h k = elim (Bool-cases (ltb 0 b.answered)) [
  | inl t ↦
      let ends = next_run-EndsAt days p d r (ground arith) h in
      rw t (
        longest_run-Attained days ds (some d) (next_run p d r) (max l (next_run p d r))
          (ground arith) ends (max-Attained days l (next_run p d r) k (run-Attained days d _ ends)))
  | inr t ↦ rw t (longest_run-Attained days ds p r l (ground arith) h k)
]

-- A streak of `n` days up to one: answers on each of them, and none on the day before them.
abbrev pub IsStreak : List (ℕ × DayCount) → ℕ → ℕ → Type 0
IsStreak days last n =
    (n ≤ suc last)
    × (all_active days (suc last - n) n ≡ true)
    × ((leb n last && active days (last - n)) ≡ false)

-- Today, or the day before if there is no answer today.
abbrev pub last_day : List (ℕ × DayCount) → ℕ → ℕ
last_day days today = if active days today then today else today - 1

streak_back-IsStreak :
    (days : List (ℕ × DayCount)) (day : ℕ) → IsStreak days day (streak_back days day)
streak_back-IsStreak days day =
    let (small, runs, stops) = streak_back-exact days day in
    (
      small,
      runs,
      elim (Bool-cases (leb (streak_back days day) day)) [
        | inl e ↦ rw (e, stops (ground arith)) refl
        | inr e ↦ rw e refl
      ],
    )

before_today-IsStreak :
    (days : List (ℕ × DayCount)) (today : ℕ)
    → active days today ≡ false
    → IsStreak days (today - 1) (before_today days today)
before_today-IsStreak days zero t = (omega arith, refl, ground arith)
before_today-IsStreak days (suc day) t =
    let same : suc day - 1 ≡ day = omega arith in rw same (streak_back-IsStreak days day)

current_streak-IsStreak :
    (days : List (ℕ × DayCount)) (today : ℕ)
    → IsStreak days (last_day days today) (current_streak days today)
current_streak-IsStreak days today = elim (Bool-cases (active days today)) [
  | inl t ↦ rw t (streak_back-IsStreak days today)
  | inr t ↦ rw t (before_today-IsStreak days today t)
]

current-Attained :
    (days : List (ℕ × DayCount)) (today : ℕ) → Attained days (current_streak days today)
current-Attained days today =
    let n = current_streak days today in
    (suc (last_day days today) - n, (current_streak-IsStreak days today).1)

-- In the record that any outcomes leave, in whatever order they come, the current streak is all the
-- days with answers back from today, or from yesterday when there is none today, and the longest is
-- the length of some run of days with answers, which no such run exceeds.
pub streaks_exact :
    (os : List (Bool × ℕ)) (now a n : ℕ)
    → all_active (record_outcomes os empty_activity).days a n ≡ true
    → let days = (record_outcomes os empty_activity).days in
      let streak = compute_streak days now in
      IsStreak days (last_day days (day_key now)) streak.current
      × (n ≤ streak.longest)
      × Attained days streak.longest
unfolding compute_streak
streaks_exact os now a n h =
    let w = record_outcomes-IsActivity os empty_activity empty_activity-IsActivity in
    let days = (record_outcomes os empty_activity).days in
    let within = run_within days none 0 0 a n w.sorted refl (omega arith) h in
    let reached =
      longest_run-Attained days days none 0 0 (listed_self days w.sorted) tt (0, refl) in
    (
      current_streak-IsStreak days (day_key now),
      omega (arith, within.0),
      max-Attained days (longest_run days none 0 0) (current_streak days (day_key now)) reached
          (current-Attained days (day_key now)),
    )

-- ===== src/Activity/Streaks.antt =====
-- What the streaks of a worker's record are.
use Prim.Native.Nat.{max}
use arbiter_backend.Base.{
  ℕ, zero, suc, ◌+◌, ◌-◌, ◌≤◌, ◌<◌, ◌≡◌, ◌⊎◌, refl, sym, ap, ◌∙◌, Bool, true, false, ◌&&◌, Option,
  none, some, List, [], ◌∷◌, arith, ltb, ◌==◌, Bool-cases, inl, inr,
}
use arbiter_backend.Activity.{
  DayCount, answered_on, active, streak_back, follows, next_run, longest_run,
}
use arbiter_backend.Activity.Bounded.{after, ascending, after-ascending}

-- Answers on each of `n` days from a day on.
abbrev pub all_active : List (ℕ × DayCount) → ℕ → ℕ → Bool
all_active days day zero = true
all_active days day (suc n) = active days day && all_active days (suc day) n

pub all_active-snoc :
    (days : List (ℕ × DayCount)) (a n : ℕ)
    → all_active days a n ≡ true
    → active days (a + n) ≡ true
    → all_active days a (suc n) ≡ true
all_active-snoc days a zero h e =
    let here : a + 0 ≡ a = omega arith in let kept = ap (active days) here in ground arith
all_active-snoc days a (suc n) h e =
    let last : suc a + n ≡ a + suc n = omega arith in
    let rest = all_active-snoc days (suc a) n (ground arith) (ap (active days) last ∙ e) in
    ground arith

-- A day that is not after those of a list has no answer in it.
nothing_before :
    (d day : ℕ) (ds : List (ℕ × DayCount)) → after d ds ≡ true → day ≤ d → answered_on day ds ≡ 0
nothing_before d day [] h l = refl
nothing_before d day ((e, b) ∷ ds) h l = ground (arith, nothing_before e day ds)

-- Past its first day a list counts as its rest does.
all_active-rest :
    (d : ℕ) (b : DayCount) (ds : List (ℕ × DayCount)) (a n : ℕ)
    → d < a
    → all_active ((d, b) ∷ ds) a n ≡ all_active ds a n
all_active-rest d b ds a zero l = refl
all_active-rest d b ds a (suc n) l = ground (arith, all_active-rest d b ds (suc a) n)

longest-kept : (ds : List (ℕ × DayCount)) (p : Option ℕ) (r l : ℕ) → l ≤ longest_run ds p r l
longest-kept [] p r l = omega arith
longest-kept ((d, b) ∷ ds) p r l = ground (
  arith,
  longest-kept ds p r l,
  longest-kept ds (some d) (next_run p d r) (max l (next_run p d r)),
)

-- The days are after the previous one, and if that is the day before `a`, a run can go on there.
abbrev pub all_after : Option ℕ → List (ℕ × DayCount) → Bool
all_after none ds = true
all_after (some d) ds = after d ds

all_after-rest :
    (p : Option ℕ) (d : ℕ) (b : DayCount) (ds : List (ℕ × DayCount))
    → all_after p ((d, b) ∷ ds) ≡ true
    → all_after p ds ≡ true
all_after-rest none d b ds f = refl
all_after-rest (some q) d b [] f = refl
all_after-rest (some q) d b ((e, c) ∷ ds) f = ground arith

-- A run that goes on with the previous one does not start later than the first day left.
follows-sooner :
    (p : Option ℕ) (d a : ℕ) (b : DayCount) (ds : List (ℕ × DayCount))
    → all_after p ((d, b) ∷ ds) ≡ true
    → follows p a ≡ true
    → d < a
    → ⊥
follows-sooner none d a b ds f e l = ground arith
follows-sooner (some q) d a b ds f e l = ground arith

-- A run in a list starts with its first day, or lies in its rest.
first_or_later :
    (d : ℕ) (b : DayCount) (ds : List (ℕ × DayCount)) (a n : ℕ)
    → after d ds ≡ true
    → all_active ((d, b) ∷ ds) a (suc n) ≡ true
    → ((d ≡ a) × ((ltb 0 b.answered ≡ true) × (all_active ds (suc d) n ≡ true)))
      ⊎ ((d < a) × (all_active ds a (suc n) ≡ true))
first_or_later d b ds a n s h = elim (Bool-cases (d == a)) [
  | inl e ↦
      let same : d ≡ a = ground arith in
      let rest = all_active-rest d b ds (suc d) n (omega arith) in
      let moved = ap (λ x. all_active ((d, b) ∷ ds) (suc x) n) same in
      inl (same, (ground arith, sym rest ∙ (moved ∙ ground arith)))
  | inr e ↦ elim (Bool-cases (ltb d a)) [
    | inl later ↦
        let rest = all_active-rest d b ds a (suc n) (ground arith) in
        inr (ground arith, sym rest ∙ h)
    | inr sooner ↦ let nothing = nothing_before d a ds s (ground arith) in absurd (ground arith)
  ]
]

next_run-suc : (p : Option ℕ) (d r : ℕ) → follows p d ≡ true → next_run p d r ≡ suc r
next_run-suc p d r e = rw e refl

next_run-pos : (p : Option ℕ) (d r : ℕ) → 1 ≤ next_run p d r
next_run-pos p d r = ground arith

-- From any state of the loop, no run of the days left is longer than its result, nor is one that
-- goes on with the run the loop is in.
pub run_within :
    (ds : List (ℕ × DayCount)) (p : Option ℕ) (r l a n : ℕ)
    → ascending ds ≡ true
    → all_after p ds ≡ true
    → r ≤ l
    → all_active ds a n ≡ true
    → (n ≤ longest_run ds p r l) × (follows p a ≡ true → r + n ≤ longest_run ds p r l)
run_within ds p r l a zero s f le h =
    let kept = longest-kept ds p r l in (omega arith, λ e. omega arith)
run_within [] p r l a (suc n) s f le h = absurd (ground arith)
run_within ((d, b) ∷ ds) p r l a (suc n) s f le h =
    let run = next_run p d r in
    elim (first_or_later d b ds a n s h) [
      | inl (same, (some_answer, rest)) ↦
          let after_it =
            run_within ds (some d) run (max l run) (suc d) n (after-ascending d ds s) s
              (omega arith) rest in
          let goes_on = after_it.1 (ground arith) in
          rw some_answer (
            omega (arith, next_run-pos p d r, goes_on),
            λ e.
                let longer = next_run-suc p d r (ap (follows p) same ∙ e) in
                omega (arith, longer, goes_on),
          )
      | inr (later, rest) ↦ elim (Bool-cases (ltb 0 b.answered)) [
        | inl t ↦
            let after_it =
              run_within ds (some d) run (max l run) a (suc n) (after-ascending d ds s) s
                (omega arith) rest in
            rw t (after_it.0, λ e. absurd (follows-sooner p d a b ds f e later))
        | inr t ↦ rw t (
            run_within ds p r l a (suc n) (after-ascending d ds s) (all_after-rest p d b ds f) le
              rest)
      ]
    ]

-- The days back from `day` on which there are answers, and the day before them, on which not.
pub streak_back-exact :
    (days : List (ℕ × DayCount)) (day : ℕ)
    → (streak_back days day ≤ suc day)
      × (all_active days (suc day - streak_back days day) (streak_back days day) ≡ true)
      × (streak_back days day ≤ day → active days (day - streak_back days day) ≡ false)
streak_back-exact days zero = elim (Bool-cases (active days 0)) [
  | inl t ↦ rw t (omega arith, ground arith, λ l. absurd (omega arith))
  | inr t ↦ rw t (omega arith, refl, λ l. t)
]
streak_back-exact days (suc day) = elim (Bool-cases (active days (suc day))) [
  | inl t ↦
      let (small, runs, stops) = streak_back-exact days day in
      let s = streak_back days day in
      let end : (suc day - s) + s ≡ suc day = omega (arith, small) in
      let start : suc (suc day) - suc s ≡ suc day - s = omega arith in
      let before : suc day - suc s ≡ day - s = omega arith in
      rw t (
        omega (arith, small),
        ap (λ x. all_active days x (suc s)) start
            ∙ all_active-snoc days (suc day - s) s runs (ap (active days) end ∙ t),
        λ l. ap (active days) before ∙ stops (omega arith),
      )
  | inr t ↦
      let whole : suc day - 0 ≡ suc day = omega arith in
      rw t (omega arith, refl, λ l. ap (active days) whole ∙ t)
]

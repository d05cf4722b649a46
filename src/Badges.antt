-- ===== src/Badges.antt =====
-- The badges of src/gamification.js. The ratio of at least 0.9 is taken without
-- division. The ids of the catalogue are all different, so that no badge is saved without a date.
pub mod Latched
use Prim.Native.Nat.{max}
use arbiter_backend.Base.{
  ℕ, suc, ◌+◌, ◌*◌, String, Bool, not, ◌&&◌, ◌||◌, Option, none, some, List, [], ◌∷◌, Assoc, length,
  keep, leb, ◌==◌, includes, is_some, lookup, insert, if◌then◌else◌,
}
use arbiter_backend.Activity.{DayCount, Activity, compute_streak}

pub record Context : Type 0 where
  pub total : ℕ
  pub matched : ℕ
  pub current_streak : ℕ
  pub longest_streak : ℕ
  pub perfect_days : ℕ

abbrev pub is_perfect : ℕ × DayCount → Bool
is_perfect (day, b) = leb 10 b.answered && b.matched == b.answered

abbrev pub count_perfect_days : List (ℕ × DayCount) → ℕ
count_perfect_days days = length (keep is_perfect days)

unfoldable pub build_context : ℕ → ℕ → Activity → ℕ → Context
build_context total matched activity now =
    let streak = compute_streak activity.days now in
    record {
      total = total;
      matched = matched;
      current_streak = streak.current;
      longest_streak = max streak.longest activity.longest_streak;
      perfect_days = count_perfect_days activity.days;
    }

pub record Badge : Type 0 where
  pub id : String
  pub progress : Context → ℕ × ℕ

abbrev pub is_sharp : Context → Bool
is_sharp c = leb 50 c.total && leb (9 * c.total) (10 * c.matched)

-- BADGES, with the number of answers of the reputation gate.
abbrev pub badges : ℕ → List Badge
badges min_answers =
    record { id = "first-answer"; progress = λ c. (c.total, 1) }
    ∷ record { id = "ten-answers"; progress = λ c. (c.total, 10) }
    ∷ record { id = "century"; progress = λ c. (c.total, 100) }
    ∷ record { id = "thousand"; progress = λ c. (c.total, 1000) }
    ∷ record { id = "established"; progress = λ c. (c.total, min_answers) }
    ∷ record { id = "consensus-builder"; progress = λ c. (c.matched, 100) }
    ∷ record { id = "sharpshooter"; progress = λ c. (if is_sharp c then 1 else 0, 1) }
    ∷ record { id = "perfect-day"; progress = λ c. (c.perfect_days, 1) }
    ∷ record { id = "streak-7"; progress = λ c. (c.longest_streak, 7) }
    ∷ record { id = "streak-30"; progress = λ c. (c.longest_streak, 30) }
    ∷ []

pub record Shown : Type 0 where
  pub id : String
  pub earned : Bool
  pub earned_at : Option ℕ

abbrev pub is_reached : Context → Badge → Bool
is_reached ctx b = leb (b.progress ctx).1 (b.progress ctx).0

abbrev pub date_of : Option ℕ → Bool → ℕ → Option ℕ
date_of (some t) earned now = some t
date_of none earned now = if earned then some now else none

abbrev pub shown : Context → Assoc ℕ → ℕ → Badge → Shown
shown ctx earned_at now b =
    let known = lookup b.id earned_at in
    let earned = is_some known || is_reached ctx b in
    record { id = b.id; earned = earned; earned_at = date_of known earned now }

abbrev pub evaluate_each : Context → Assoc ℕ → ℕ → List Badge → List Shown × List String
evaluate_each ctx earned_at now [] = ([], [])
evaluate_each ctx earned_at now (b ∷ bs) =
    let (rows, newly) = evaluate_each ctx earned_at now bs in
    let row = shown ctx earned_at now b in
    (
      row ∷ rows,
      if row.earned && not (is_some (lookup b.id earned_at)) then b.id ∷ newly else newly,
    )

unfoldable pub evaluate_badges : ℕ → Context → Assoc ℕ → ℕ → List Shown × List String
evaluate_badges min_answers ctx earned_at now = evaluate_each ctx earned_at now (badges min_answers)

abbrev pub with_date : String → Option ℕ → Assoc ℕ → Assoc ℕ
with_date id none m = m
with_date id (some t) m = insert id t m

-- The loop that saves the dates of the badges newly earned.
abbrev pub save_new : List String → List Shown → Assoc ℕ → Assoc ℕ
save_new newly [] m = m
save_new newly (row ∷ rows) m =
    save_new newly rows (if includes newly row.id then with_date row.id row.earned_at m else m)

-- `wbadges:{workerId}` before and after, and the ids newly earned; with none the loop saves nothing.
unfoldable pub sync_badges : ℕ → Context → ℕ → Assoc ℕ → Assoc ℕ × List String
unfolding evaluate_badges
sync_badges min_answers ctx now earned_at =
    let (rows, newly) = evaluate_badges min_answers ctx earned_at now in
    (save_new newly rows earned_at, newly)

-- The dates after a worker's outcomes, each with the context it leaves and its time.
abbrev pub sync_all : ℕ → List (Context × ℕ) → Assoc ℕ → Assoc ℕ
sync_all min_answers [] earned_at = earned_at
sync_all min_answers ((ctx, now) ∷ rest) earned_at =
    sync_all min_answers rest (sync_badges min_answers ctx now earned_at).0

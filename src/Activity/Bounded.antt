-- ===== src/Activity/Bounded.antt =====
-- What holds of a worker's record after any outcomes, in whatever order their days come.
use arbiter_backend.Base.{
  ℕ, zero, suc, ◌-◌, ◌≤◌, ◌≡◌, refl, Bool, true, ◌&&◌, List, [], ◌∷◌, arith, ltb, leb, length,
}
use arbiter_backend.Activity.{
  DayCount, Activity, day_key, empty_activity, max_days_retained, with_outcome, drop, apply_outcome,
  record_outcomes,
}

-- All days are after one, and each after those before it.
abbrev pub after : ℕ → List (ℕ × DayCount) → Bool
after d [] = true
after d ((e, b) ∷ ds) = ltb d e && after e ds

abbrev pub ascending : List (ℕ × DayCount) → Bool
ascending [] = true
ascending ((d, b) ∷ ds) = after d ds

-- Each day has an answer, and no more matched than answered.
abbrev pub counted : List (ℕ × DayCount) → Bool
counted [] = true
counted ((d, b) ∷ ds) = ltb 0 b.answered && (leb b.matched b.answered && counted ds)

after-with_outcome :
    (d day : ℕ) (m : Bool) (ds : List (ℕ × DayCount))
    → ltb d day ≡ true
    → after d ds ≡ true
    → after d (with_outcome day m ds) ≡ true
after-with_outcome d day m [] l h = ground arith
after-with_outcome d day m ((e, b) ∷ ds) l h = ground (arith, after-with_outcome e day m ds)

ascending-with_outcome :
    (day : ℕ) (m : Bool) (ds : List (ℕ × DayCount))
    → ascending ds ≡ true
    → ascending (with_outcome day m ds) ≡ true
ascending-with_outcome day m [] h = refl
ascending-with_outcome day m ((e, b) ∷ ds) h = ground (arith, after-with_outcome e day m ds)

counted-with_outcome :
    (day : ℕ) (m : Bool) (ds : List (ℕ × DayCount))
    → counted ds ≡ true
    → counted (with_outcome day m ds) ≡ true
counted-with_outcome day m [] h = ground arith
counted-with_outcome day m ((e, b) ∷ ds) h = ground (arith, counted-with_outcome day m ds)

pub after-ascending : (d : ℕ) (ds : List (ℕ × DayCount)) → after d ds ≡ true → ascending ds ≡ true
after-ascending d [] h = refl
after-ascending d ((e, b) ∷ ds) h = ground arith

ascending-drop :
    (n : ℕ) (ds : List (ℕ × DayCount)) → ascending ds ≡ true → ascending (drop n ds) ≡ true
ascending-drop zero ds h = h
ascending-drop (suc n) [] h = refl
ascending-drop (suc n) ((d, b) ∷ ds) h = ascending-drop n ds (after-ascending d ds h)

counted-drop : (n : ℕ) (ds : List (ℕ × DayCount)) → counted ds ≡ true → counted (drop n ds) ≡ true
counted-drop zero ds h = h
counted-drop (suc n) [] h = refl
counted-drop (suc n) ((d, b) ∷ ds) h = ground (arith, counted-drop n ds)

length-drop : (n : ℕ) (ds : List (ℕ × DayCount)) → length (drop n ds) ≡ length ds - n
length-drop zero ds = omega arith
length-drop (suc n) [] = omega arith
length-drop (suc n) (d ∷ ds) = omega (arith, length-drop n ds)

-- At most 400 days, each once and in order, each counted rightly.
pub record IsActivity (a : Activity) : Type 0 where
  pub sorted : ascending a.days ≡ true
  pub tallied : counted a.days ≡ true
  pub bounded : length a.days ≤ max_days_retained

pub apply_outcome-IsActivity :
    (a : Activity) (m : Bool) (ts : ℕ) → IsActivity a → IsActivity (apply_outcome a m ts)
unfolding apply_outcome
apply_outcome-IsActivity a m ts w =
    let added = with_outcome (day_key ts) m a.days in
    let oldest = length added - max_days_retained in
    record {
      sorted = ascending-drop oldest added (ascending-with_outcome (day_key ts) m a.days w.sorted);
      tallied = counted-drop oldest added (counted-with_outcome (day_key ts) m a.days w.tallied);
      bounded = omega (arith, length-drop oldest added);
    }

pub record_outcomes-IsActivity :
    (os : List (Bool × ℕ)) (a : Activity) → IsActivity a → IsActivity (record_outcomes os a)
record_outcomes-IsActivity [] a w = w
record_outcomes-IsActivity ((m, ts) ∷ os) a w =
    record_outcomes-IsActivity os _ (apply_outcome-IsActivity a m ts w)

pub empty_activity-IsActivity : IsActivity empty_activity
empty_activity-IsActivity = record { sorted = refl; tallied = refl; bounded = omega arith }

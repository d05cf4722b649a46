-- ===== src/Routing/Reputation.antt =====
-- recordOutcome counts every outcome once, and the smoothed supply stays within its samples.
use native.Mathlib.Nat.{le-div_iff_mul-le, div-lt_iff_lt-mul}
use arbiter_backend.Base.{
  ℕ, suc, ◌+◌, ◌*◌, ◌≤◌, ◌<◌, String, ◌≡◌, Bool, true, false, List, [], ◌∷◌, arith, length, All,
  lookup-insert, eq_iff, if◌then◌else◌, str_eq,
}
use arbiter_backend.Index.{IsIndex, push_bounded-IsIndex}
use arbiter_backend.Pricing.{round_div}
use arbiter_backend.Routing.{
  Reputations, get_reputation, record_outcome, max_tracked_workers, sum, compute_smoothed_count,
}

unfoldable pub record_all : List (String × Bool) → Reputations → Reputations
unfolding record_outcome
record_all [] s = s
record_all ((w, matched) ∷ os) s = record_all os (record_outcome w matched s)

-- How many of the outcomes are the worker's, and how many of these matched.
abbrev pub outcomes_of : String → List (String × Bool) → ℕ
outcomes_of w [] = 0
outcomes_of w ((v, matched) ∷ os) = (if str_eq v w then 1 else 0) + outcomes_of w os

abbrev pub matches_of : String → List (String × Bool) → ℕ
matches_of w [] = 0
matches_of w ((v, true) ∷ os) = (if str_eq v w then 1 else 0) + matches_of w os
matches_of w ((v, false) ∷ os) = matches_of w os

get_reputation-record_outcome :
    (v w : String) (matched : Bool) (s : Reputations)
    → ((get_reputation w (record_outcome v matched s)).total
        ≡ (if str_eq v w then 1 else 0) + (get_reputation w s).total)
      × ((get_reputation w (record_outcome v matched s)).matched
          ≡ (if str_eq v w then (if matched then 1 else 0) else 0) + (get_reputation w s).matched)
unfolding record_outcome get_reputation
get_reputation-record_outcome v w matched s = ground (
  arith,
  lookup-insert v w
      (record {
        matched =
            if matched then (get_reputation v s).matched + 1 else (get_reputation v s).matched;
        total = (get_reputation v s).total + 1;
      })
      s.reps,
  eq_iff v w,
)

known-IsIndex :
    (v : String) (matched : Bool) (s : Reputations)
    → IsIndex max_tracked_workers s.known_worker_ids
    → IsIndex max_tracked_workers (record_outcome v matched s).known_worker_ids
unfolding record_outcome
known-IsIndex v matched s k =
    ground (arith, push_bounded-IsIndex v max_tracked_workers s.known_worker_ids k)

-- After any row of recorded outcomes, a worker's total has grown by the number of the worker's
-- outcomes, the matched ones by the number of those that matched, and the index of known workers
-- is still one of at most 5000 ids without repetition.
pub record_all_counts :
    (os : List (String × Bool)) (s : Reputations) (w : String)
    → IsIndex max_tracked_workers s.known_worker_ids
    → (((get_reputation w (record_all os s)).total ≡ outcomes_of w os + (get_reputation w s).total)
        × ((get_reputation w (record_all os s)).matched
            ≡ matches_of w os + (get_reputation w s).matched))
      × IsIndex max_tracked_workers (record_all os s).known_worker_ids
unfolding record_all
record_all_counts [] s w v = ((omega arith, omega arith), v)
record_all_counts ((u, true) ∷ os) s w v =
    let rest = record_all_counts os (record_outcome u true s) w (known-IsIndex u true s v) in
    let first = get_reputation-record_outcome u w true s in
    ((omega (arith, rest.0, first), omega (arith, rest.0, first)), rest.1)
record_all_counts ((u, false) ∷ os) s w v =
    let rest = record_all_counts os (record_outcome u false s) w (known-IsIndex u false s v) in
    let first = get_reputation-record_outcome u w false s in
    ((omega (arith, rest.0, first), ground (arith, rest.0, first)), rest.1)

sum-between :
    (lo hi : ℕ) (ns : List ℕ)
    → All (λ n. (lo ≤ n) × (n ≤ hi)) ns
    → (lo * length ns ≤ sum ns) × (sum ns ≤ hi * length ns)
sum-between lo hi [] a = (omega arith, omega arith)
sum-between lo hi (n ∷ ns) ((l, h), a) =
    let rest = sum-between lo hi ns a in (omega (arith, rest.0, l), omega (arith, rest.1, h))

below : (a b : ℕ) → a < suc b → a ≤ b
below a b h = omega arith

round_div-between :
    (lo hi total count : ℕ)
    → 0 < count
    → lo * count ≤ total
    → total ≤ hi * count
    → (lo ≤ round_div total count) × (round_div total count ≤ hi)
round_div-between lo hi total count p l h = (
  (le-div_iff_mul-le (omega arith)).1 (omega arith),
  below (round_div total count) hi ((div-lt_iff_lt-mul (omega arith)).1 (omega arith)),
)

-- The smoothed supply is no larger than the largest sample, and no smaller than the least.
pub smoothed_between :
    (lo hi current : ℕ) (samples : List ℕ)
    → All (λ n. (lo ≤ n) × (n ≤ hi)) samples
    → lo ≤ current
    → current ≤ hi
    → (lo ≤ compute_smoothed_count samples current) × (compute_smoothed_count samples current ≤ hi)
unfolding compute_smoothed_count
smoothed_between lo hi current [] a l h = (l, h)
smoothed_between lo hi current (n ∷ ns) a l h =
    let sums = sum-between lo hi (n ∷ ns) a in
    round_div-between lo hi _ _ (omega arith) sums.0 sums.1

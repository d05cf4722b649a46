-- ===== src/RateLimit/Window.antt =====
-- How many calls a window admits, and what the budget counts.
use arbiter_backend.Base.{
  ℕ, zero, suc, ◌+◌, ◌-◌, ◌≤◌, ◌<◌, String, ◌≡◌, refl, Bool, true, false, some, List, [], ◌∷◌, leb,
  arith, eq_iff, length, map,
}
use Prim.Native.Nat.{min}
use arbiter_backend.Store.{MemoryStore, incr, or_zero, view}
use arbiter_backend.Store.Counter.{Within, up_from, incr_all, incr_all-counts, view-incr}
use arbiter_backend.Store.Expiry.{get-view}
use arbiter_backend.RateLimit.{
  Budget, check_rate_limit, budget_key, reserve_claude_budget, claude_budget_spent,
}

-- The answers to a row of calls at the given times.
pub check_all : String → ℕ → ℕ → List ℕ → MemoryStore ℕ → List Bool
check_all key max window [] s = []
check_all key max window (t ∷ ts) s =
    let (s', allowed) = check_rate_limit key max window t s in
    allowed ∷ check_all key max window ts s'

abbrev pub admitted : List Bool → ℕ
admitted [] = 0
admitted (true ∷ bs) = admitted bs + 1
admitted (false ∷ bs) = admitted bs

check_all-incr_all :
    (k : String) (max window : ℕ) (ts : List ℕ) (s : MemoryStore ℕ)
    → check_all k max window ts s ≡ map (λ n. leb n max) (incr_all k window ts s).1
unfolding check_all check_rate_limit incr_all
check_all-incr_all k max window [] s = refl
check_all-incr_all k max window (t ∷ ts) s =
    λ i. leb (incr k window t s).1 max ∷ check_all-incr_all k max window ts (incr k window t s).0 i

admitted-up_from :
    (max n len : ℕ) → admitted (map (λ c. leb c max) (up_from n len)) ≡ min len (max - n)
admitted-up_from max n zero = omega arith
admitted-up_from max n (suc k) = ground (arith, admitted-up_from max (n + 1) k)

-- A row of calls, each no later than the window after the one before it, has exactly `max` of them
-- admitted, or all where they are fewer, whatever time the whole row takes.
pub rate_limit_admits :
    (k : String) (max window last : ℕ) (ts : List ℕ) (s : MemoryStore ℕ)
    → 0 < window
    → ((t : ℕ) → t ≤ last + window → or_zero (view s k t) ≡ 0)
    → Within window last ts
    → admitted (check_all k max window ts s) ≡ min (length ts) max
rate_limit_admits k max window last ts s p fresh w =
    rw (check_all-incr_all k max window ts s, incr_all-counts k window last 0 ts s p fresh w)
      (omega (arith, admitted-up_from max 0 (length ts)))

module _ (to_text : ℕ → String) where
  -- A reservation of any positive amount raises the recorded spend by one.
  pub reserve_counts_one :
      (b : Budget) (amount now : ℕ) (s : MemoryStore ℕ)
      → 0 < amount
      → 0 < b.window_ms
      → claude_budget_spent to_text b now (reserve_claude_budget to_text b (some amount) now s).0
        ≡ claude_budget_spent to_text b now s + 1
  unfolding reserve_claude_budget claude_budget_spent
  reserve_counts_one b amount now s p q =
      let k = budget_key to_text b now in
      let after = (incr k b.window_ms now s).0 in
      ground (
        arith,
        (get-view k now s).0,
        (get-view k now after).0,
        view-incr k k b.window_ms now now s q,
        eq_iff k k,
      )

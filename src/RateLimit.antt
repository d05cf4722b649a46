-- ===== src/RateLimit.antt =====
-- src/rateLimit.js over the counters of the store: the request limiter and the fleet-wide budget
-- for LLM calls. `to_text` is the runtime's conversion of a number to text.
pub mod Window
use arbiter_backend.Base.{
  ℕ, zero, suc, ◌+◌, ◌-◌, ◌*◌, ◌/◌, String, Bool, true, false, Option, none, some, List, [], ◌∷◌,
  ltb, leb, ◌==◌, ◌||◌, if◌then◌else◌, str_append,
}
use arbiter_backend.Store.{MemoryStore, incr, get, or_zero}

-- `ratelimit:` keys.
unfoldable pub check_rate_limit : String → ℕ → ℕ → ℕ → MemoryStore ℕ → MemoryStore ℕ × Bool
check_rate_limit key max window now s =
    let (s', count) = incr key window now s in (s', leb count max)

pub record Budget : Type 0 where
  pub cents : ℕ
  pub window_ms : ℕ

abbrev positive_or : ℕ → Option ℕ → ℕ
positive_or d none = d
positive_or d (some n) = if ltb 0 n then n else d

-- The two environment variables, `none` where one is unset or no finite number.
unfoldable pub budget_of_env : Option ℕ → Option ℕ → Budget
budget_of_env cents window = record {
  cents = positive_or 1000 cents;
  window_ms = positive_or (60 * 60 * 1000) window;
}

module _ (to_text : ℕ → String) where
  unfoldable pub budget_key : Budget → ℕ → String
  budget_key b now =
      str_append "claude:budget:"
        (str_append (to_text b.window_ms) (str_append ":" (to_text (now / b.window_ms))))

  -- `store.incr(key, windowMs, amount)`: the store's `incr` has two parameters, and counts one.
  -- `none` is an amount that is no finite number.
  unfoldable pub reserve_claude_budget :
      Budget → Option ℕ → ℕ → MemoryStore ℕ → MemoryStore ℕ × Bool
  unfolding budget_key
  reserve_claude_budget b none now s = (s, true)
  reserve_claude_budget b (some amount) now s =
      if leb amount 0
      then (s, true)
      else (let (s', spent) = incr (budget_key b now) b.window_ms now s in (s', leb spent b.cents))

  unfoldable pub claude_budget_spent : Budget → ℕ → MemoryStore ℕ → ℕ
  unfolding budget_key
  claude_budget_spent b now s = or_zero (get (budget_key b now) now s).1

  unfoldable pub claude_budget_remaining : Budget → ℕ → MemoryStore ℕ → ℕ
  unfolding claude_budget_spent
  claude_budget_remaining b now s = b.cents - claude_budget_spent b now s

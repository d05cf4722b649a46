-- ===== src/Store/Counter.antt =====
-- Counters: `incr`, and balances under `incrBy` and `decrIfAtLeast`.
use arbiter_backend.Base.{
  ℕ, zero, suc, ◌+◌, ◌-◌, ◌≤◌, ◌<◌, String, ◌≡◌, refl, true, none, some, List, [], ◌∷◌, arith,
  eq_iff, str_eq, leb, if◌then◌else◌, lookup-insert, ◌↔◌, length,
}
use arbiter_backend.Store.{MemoryStore, incr, incr_by, decr_if_at_least, balance, view, or_zero}

pub incr-eq :
    (k : String) (ttl now : ℕ) (s : MemoryStore ℕ)
    → (incr k ttl now s).1 ≡ or_zero (view s k now) + 1
unfolding incr view
incr-eq k ttl now s = refl

-- After an `incr` at `now` with a lifetime, the count is seen until `now + ttl`.
pub view-incr :
    (k j : String) (ttl now t : ℕ) (s : MemoryStore ℕ)
    → 0 < ttl
    → view (incr k ttl now s).0 j t ≡ (
        if str_eq k j
        then (if leb t (now + ttl) then some (or_zero (view s k now) + 1) else none)
        else view s j t)
unfolding incr view
view-incr k j zero now t s h = absurd (omega arith)
view-incr k j (suc n) now t s h = ground (
  arith,
  lookup-insert k j (record { value = (incr k (suc n) now s).1; expires_at = some (now + suc n) })
      s,
)

-- The counts that a row of calls at the given times return.
unfoldable pub incr_all : String → ℕ → List ℕ → MemoryStore ℕ → MemoryStore ℕ × List ℕ
incr_all k ttl [] s = (s, [])
incr_all k ttl (t ∷ ts) s =
    let (s', n) = incr k ttl t s in let (s'', ns) = incr_all k ttl ts s' in (s'', n ∷ ns)

-- Each call comes no later than the lifetime after the one before it.
abbrev pub Within : ℕ → ℕ → List ℕ → Type 0
Within ttl last [] = Unit
Within ttl last (t ∷ ts) = (t ≤ last + ttl) × Within ttl t ts

abbrev pub up_from : ℕ → ℕ → List ℕ
up_from n zero = []
up_from n (suc k) = (n + 1) ∷ up_from (n + 1) k

pub incr_all-counts :
    (k : String) (ttl last n : ℕ) (ts : List ℕ) (s : MemoryStore ℕ)
    → 0 < ttl
    → ((t : ℕ) → t ≤ last + ttl → or_zero (view s k t) ≡ n)
    → Within ttl last ts
    → (incr_all k ttl ts s).1 ≡ up_from n (length ts)
unfolding incr_all
incr_all-counts k ttl last n [] s p seen w = refl
incr_all-counts k ttl last n (t ∷ ts) s p seen w =
    let counted : (incr k ttl t s).1 ≡ n + 1 = omega (arith, incr-eq k ttl t s, seen t w.0) in
    let next : (u : ℕ) → u ≤ t + ttl → or_zero (view (incr k ttl t s).0 k u) ≡ n + 1 =
      λ u h. ground (arith, view-incr k k ttl t u s p, eq_iff k k, seen t w.0) in
    λ i. counted i ∷ incr_all-counts k ttl t (n + 1) ts (incr k ttl t s).0 p next w.1 i

pub balance-incr_by :
    (k j : String) (d : ℕ) (s : MemoryStore ℕ)
    → balance (incr_by k d s).0 j ≡ (if str_eq k j then balance s k + d else balance s j)
unfolding incr_by balance
balance-incr_by k j d s =
    ground (arith, lookup-insert k j (record { value = (incr_by k d s).1; expires_at = none }) s)

-- A debit succeeds exactly when the balance covers it, and then takes it off that balance alone.
pub decr_if_at_least_iff :
    (k : String) (a : ℕ) (s : MemoryStore ℕ)
    → ((decr_if_at_least k a s).1 ≡ true) ↔ (a ≤ balance s k)
unfolding decr_if_at_least balance
decr_if_at_least_iff k a s = ground arith

pub balance-decr_if_at_least :
    (k j : String) (a : ℕ) (s : MemoryStore ℕ)
    → balance (decr_if_at_least k a s).0 j ≡ (
        if str_eq k j
        then (if leb a (balance s k) then balance s k - a else balance s k)
        else balance s j)
unfolding decr_if_at_least balance
balance-decr_if_at_least k j a s =
    ground (
      arith,
      eq_iff k j,
      lookup-insert k j (record { value = balance s k - a; expires_at = none }) s,
    )

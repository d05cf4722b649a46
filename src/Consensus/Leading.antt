-- ===== src/Consensus/Leading.antt =====
-- The cluster that wins, and how often a call is made.

use arbiter_backend.Base.{
  ℕ, zero, suc, ◌≤◌, ◌≡◌, Bool, false, ◌&&◌, ◌||◌, ltb, ◌==◌, ℤ, Option, none, some, List, [], ◌∷◌,
  arith, length, All, if◌then◌else◌, ◌⊎◌,
}
use arbiter_backend.Consensus.{
  Tolerance, Entry, Best, spread_of, around, is_better, Attempt, with_retry,
}
use arbiter_backend.Consensus.Near.{those_near}

abbrev pub IsIn : Entry → List Entry → Type 0
IsIn e [] = ⊥
IsIn e (f ∷ fs) = (e ≡ f) ⊎ IsIn e fs

-- A larger cluster, or one as large with a smaller total deviation from its center.
abbrev pub is_ahead : List Entry → ℤ → List Entry → ℤ → Bool
is_ahead ms c ns d =
    ltb (length ns) (length ms)
    || ((length ms == length ns) && ltb (spread_of c ms) (spread_of d ns))

-- The choice among the entries: none only from an empty list, and else an entry with all the entries
-- near it, which no other entry with those near it is ahead of.
abbrev pub Leads : ℕ → Tolerance → List Entry → Option Best → Type 0
Leads one t entries none = entries ≡ []
Leads one t entries (some b) =
    IsIn b.center entries
    × (b.members ≡ those_near one t b.center.value entries)
    × All
        (λ (c : Entry).
          is_ahead (those_near one t c.value entries) c.value b.members b.center.value ≡ false)
        entries

module _ (one : ℕ) (t : Tolerance) (entries : List Entry) where
  -- What holds of the best so far: it is what its center gathers.
  record IsCluster (b : Best) : Type 0 where
    inside : IsIn b.center entries
    gathered : b.members ≡ those_near one t b.center.value entries
    deviation : b.spread ≡ spread_of b.center.value b.members

  next : Entry → Best → Best
  next c b = if is_better (around one c entries t) b then around one c entries t else b

  abbrev AllIn : List Entry → Type 0
  AllIn cs = All (λ c. IsIn c entries) cs

  abbrev Chosen : List Entry → Option Best → Type 0
  Chosen cs none = ⊥
  Chosen cs (some b) = IsCluster b × All (λ c. is_better (around one c entries t) b ≡ false) cs

  abbrev Unbeaten : Best → Option Best → Type 0
  Unbeaten x none = ⊥
  Unbeaten x (some b) = is_better x b ≡ false

-- A call is made at least once, and at most as often as there are attempts.
pub with_retry_lem {ℓ} :
    {A : Type ℓ} (call : ℕ → Attempt A) (left : ℕ)
    → (1 ≤ (with_retry call (suc left)).1) × ((with_retry call (suc left)).1 ≤ suc left)
unfolding with_retry
with_retry_lem call zero = ground arith
with_retry_lem call (suc left) = ground (arith, with_retry_lem call left)

-- ===== src/Index.antt =====
-- The bounded indexes of ids: indexJob and markSynthetic of src/jobs.js, pushBounded of
-- src/payerReferrals.js and the list in recordOutcome of src/dispatch.js are this one step.
use arbiter_backend.Base.{
  ℕ, ◌≤◌, String, ◌≡◌, true, List, ◌∷◌, arith, take, length, includes, distinct, if◌then◌else◌,
  length-take, distinct-take, includes-take,
}

abbrev pub push_bounded : String → ℕ → List String → List String
push_bounded id max known = if includes known id then known else take max (id ∷ known)

-- No id twice, and at most `max` of them.
abbrev pub IsIndex : ℕ → List String → Type 0
IsIndex max ids = (distinct ids ≡ true) × (length ids ≤ max)

pub push_bounded-IsIndex :
    (id : String) (max : ℕ) (known : List String)
    → IsIndex max known
    → IsIndex max (push_bounded id max known)
push_bounded-IsIndex id max known (d, n) =
    ground (arith, distinct-take max (id ∷ known), length-take max (id ∷ known))

pub includes-push_bounded :
    (id : String) (max : ℕ) (known : List String) (a : String)
    → includes (push_bounded id max known) a ≡ true
    → includes (id ∷ known) a ≡ true
includes-push_bounded id max known a h = ground (arith, includes-take max (id ∷ known) a)

-- ===== src/Vote/Winner.antt =====
-- The winner of a list of groups: one of them, none longer, and none before it as long.
use arbiter_backend.Base.{
  ℕ, ◌≤◌, ◌≡◌, refl, Option, none, some, List, [], ◌∷◌, arith, ltb, length, All, Bool-cases, inl,
  inr,
}
use mathlib.Core.Path.{subst}
use mathlib.Core.Option.{some-injective}
use arbiter_backend.Vote.{Group, best_group}

abbrev pub size : Group → ℕ
size g = length g.worker_ids

abbrev pub size_of : Option Group → ℕ
size_of none = 0
size_of (some g) = size g

pub best_group-some :
    (w : Group) (gs : List Group) → (g : Group) × (best_group (some w) gs ≡ some g)
unfolding best_group
best_group-some w [] = (w, refl)
best_group-some w (g ∷ gs) = elim (Bool-cases (ltb (size w) (size g))) [
  | inl e ↦ rw e (best_group-some g gs)
  | inr e ↦ rw e (best_group-some w gs)
]

-- What holds of all groups holds of the winner.
pub best_group-All {ℓ} :
    (P : Group → Type ℓ) (w g : Group) (gs : List Group)
    → P w
    → All P gs
    → best_group (some w) gs ≡ some g
    → P g
unfolding best_group
best_group-All P w g [] pw a e = subst P (some-injective w g e) pw
best_group-All P w g (x ∷ gs) pw a e = elim (Bool-cases (ltb (size w) (size x))) [
  | inl l ↦ best_group-All P x g gs a.0 a.1 (rw l at e)
  | inr l ↦ best_group-All P w g gs pw a.1 (rw l at e)
]

pub best_group-longest :
    (w g : Group) (gs : List Group)
    → best_group (some w) gs ≡ some g
    → (size w ≤ size g) × All (λ x. size x ≤ size g) gs
unfolding best_group
best_group-longest w g [] e = ground arith
best_group-longest w g (x ∷ gs) e = elim (Bool-cases (ltb (size w) (size x))) [
  | inl l ↦ let (a, b) = best_group-longest x g gs (rw l at e) in (ground (arith, a, l), (a, b))
  | inr l ↦ let (a, b) = best_group-longest w g gs (rw l at e) in (a, (ground (arith, a, l), b))
]

-- ===== src/Consensus/Near.antt =====
-- What withinTolerance of src/consensus.js means, without a difference and without a sign.
use native.Mathlib.Nat.{mul-add}
use arbiter_backend.Base.{
  ℕ, ◌+◌, ◌-◌, ◌*◌, ◌≡◌, refl, Bool, ◌&&◌, leb, ℤ, pos, negsuc, plus_part, minus_part, abs,
  distance, List, [], ◌∷◌, arith, keep, if◌then◌else◌, Bool-cases, inl, inr,
}
use arbiter_backend.Consensus.{Tolerance, percent, absolute, Entry, within_tolerance}

-- A number is within a bound of another: neither is more than the other and the bound, each side
-- taken `k` times, and the parts with a minus on the other side.
abbrev pub is_within : ℕ → ℕ → ℤ → ℤ → Bool
is_within k bound v c =
    leb (k * (plus_part v + minus_part c)) (k * (plus_part c + minus_part v) + bound)
    && leb (k * (plus_part c + minus_part v)) (k * (plus_part v + minus_part c) + bound)

-- Within the tolerance of a center: a percentage is of the center's amount.
abbrev pub is_near : ℕ → Tolerance → ℤ → ℤ → Bool
is_near one (percent p) c v = is_within (100 * one) ((plus_part c + minus_part c) * p) v c
is_near one (absolute d) c v = is_within 1 d v c

-- The entries near a center, in order.
abbrev pub those_near : ℕ → Tolerance → ℤ → List Entry → List Entry
those_near one t c [] = []
those_near one t c (e ∷ es) =
    let rest = those_near one t c es in if is_near one t c e.value then e ∷ rest else rest

mul-gap :
    (k x m r : ℕ) → leb (k * m) r ≡ (leb (k * x) (k * (x + m) + r) && leb (k * (x + m)) (k * x + r))
mul-gap k x m r = rw (mul-add k x m) (ground arith)

distance-parts :
    (v c : ℤ)
    → distance v c
      ≡ ((plus_part v + minus_part c) - (plus_part c + minus_part v))
        + ((plus_part c + minus_part v) - (plus_part v + minus_part c))
distance-parts (pos a) (pos b) = omega arith
distance-parts (pos a) (negsuc b) = omega arith
distance-parts (negsuc a) (pos b) = omega arith
distance-parts (negsuc a) (negsuc b) = omega arith

gap-above :
    (k x y m r : ℕ)
    → y ≡ x + m
    → leb (k * ((x - y) + (y - x))) r ≡ (leb (k * x) (k * y + r) && leb (k * y) (k * x + r))
gap-above k x y m r e =
    let gap : (x - y) + (y - x) ≡ m = omega arith in rw (gap, e) (mul-gap k x m r)

gap-within :
    (k x y r : ℕ)
    → leb (k * ((x - y) + (y - x))) r ≡ (leb (k * x) (k * y + r) && leb (k * y) (k * x + r))
gap-within k x y r = elim (Bool-cases (leb x y)) [
  | inl e ↦ gap-above k x y (y - x) r (ground arith)
  | inr e ↦
      let flipped : (x - y) + (y - x) ≡ (y - x) + (x - y) = omega arith in
      let above = gap-above k y x (x - y) r (ground arith) in rw (flipped, above) (ground arith)
]

abs-parts : (c : ℤ) → abs c ≡ plus_part c + minus_part c
abs-parts (pos a) = omega arith
abs-parts (negsuc a) = omega arith

within_tolerance-is_near :
    (one : ℕ) (v c : ℤ) (t : Tolerance) → within_tolerance one v c t ≡ is_near one t c v
unfolding within_tolerance
within_tolerance-is_near one v c (percent p) =
    rw (distance-parts v c, abs-parts c)
      (gap-within (100 * one) (plus_part v + minus_part c) (plus_part c + minus_part v)
        ((plus_part c + minus_part c) * p))
within_tolerance-is_near one v c (absolute d) = rw (distance-parts v c) (ground arith)

pub around-those_near :
    (one : ℕ) (c : Entry) (entries : List Entry) (t : Tolerance)
    → keep (λ (e : Entry). within_tolerance one e.value c.value t) entries
      ≡ those_near one t c.value entries
around-those_near one c [] t = refl
around-those_near one c (e ∷ es) t =
    rw (within_tolerance-is_near one e.value c.value t, around-those_near one c es t) refl
